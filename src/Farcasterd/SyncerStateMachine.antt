-- ===== src/Farcasterd/SyncerStateMachine.antt =====
-- src/farcasterd/syncer_state_machine.rs: a request of a client to a syncer; and how
-- src/farcasterd/runtime.rs finds and keeps its state machines.
mod Ends
mod Redirects
mod Tables
mod Keyed
mod Examples
use farcaster_node.Base.{
  ℕ, ◌-◌, Bool, true, false, not, ◌&&◌, Option, none, some, List, [], ◌∷◌, if◌then◌else◌, Result,
  ok, err, add32, u64_mod, same, lookup, remove, insert, ℕ_eq,
}
use farcaster_node.Bus.{
  Bytes, Blockchain, bitcoin, monero, Network, mainnet, testnet, local, ServiceId, ServiceId_eq,
  syncer,
}
use farcaster_node.Syncerd.Types.{
  Task, Event, SweepAddressAddendum, sweep_monero, sweep_bitcoin, sweep_address_task,
  AddressSecretKey, bitcoin_key, monero_key, get_address_balance_task, health_check_task,
  sweep_success, address_balance, task_aborted, health_result, config_unavailable, ErrorText,
}
use farcaster_node.Farcasterd.Runtime
use farcaster_node.Farcasterd.Runtime.{
  SyncerStateMachine, start, awaiting_syncer, awaiting_syncer_request, AwaitingSyncer,
  AwaitingSyncerRequest, Message, syncer_task, swept, nothing_to_sweep, failed_balance,
  failed_query, health, Runtime, World, Env, Exec, done, fail, gets, modify, ◌>>=◌, ◌>>◌, send_to,
  send_client, Up, running, starting, unavailable, syncer_up, clean_up_after_syncer_usage,
}

-- The messages that the state machine tells apart.
pub data Request : Type 0 where
  sweep_address : SweepAddressAddendum → Request
  get_balance : AddressSecretKey → Request
  health_check : Blockchain → Network → Request
  hello : Request
  sync_event : Event → Request
  other_request : Request

abbrev pub Step : Type 0
Step = Exec (Option SyncerStateMachine)

-- The networks are compared by their names.
is_mainnet : Network → Bool
is_mainnet mainnet = true
is_mainnet testnet = false
is_mainnet local = false

module _ (env : Env) where
  -- Mainnet addresses of Monero are used on a local network if only that is configured.
  unfoldable pub sweep_network : SweepAddressAddendum → Blockchain × Network
  unfolding is_mainnet
  sweep_network (sweep_monero a) =
      let network = env.monero_network a.destination_address in
      (
        monero,
        if is_mainnet network && (not (env.has_servers network) && env.has_servers local)
            then local
            else network,
      )
  sweep_network (sweep_bitcoin a) = (bitcoin, env.bitcoin_network a.source_address)

  unfoldable pub balance_network : AddressSecretKey → Blockchain × Network
  balance_network (bitcoin_key address _) = (bitcoin, env.bitcoin_network address)
  balance_network (monero_key address _) = (monero, env.monero_network address)

-- The id of a new task.
unfoldable pub new_task_id : Exec ℕ
new_task_id = do
  id ← gets (λ r. r.syncer_task_counter)
  modify (λ r. record r { syncer_task_counter = add32 r.syncer_task_counter 1 })
  done id

module _ (env : Env) where
  -- With a running syncer the task is sent to it; else the machine waits for the syncer.
  unfoldable pub give : ServiceId → ServiceId → Task → ℕ → Up → Step
  give source service task id (running s) = do
    send_to env s (syncer_task task)
    done (
        some (
          awaiting_syncer_request
            (record { source = source; syncer = service; syncer_task_id = id })))
  give source service task id starting = done (
      some (
        awaiting_syncer
          (record { source = source; syncer = service; syncer_task = task; syncer_task_id = id })))
  give source service task id (unavailable _) = fail

  -- A health check is answered also if no syncer can be had.
  unfoldable pub give_or_answer : ServiceId → ServiceId → Task → ℕ → Up → Step
  give_or_answer source service task id (unavailable text) = do
    send_to env source (health (config_unavailable text))
    done none
  give_or_answer source service task id (running s) = give source service task id (running s)
  give_or_answer source service task id starting = give source service task id starting

  unfoldable pub attempt_transition_to_awaiting_syncer_or_awaiting_syncer_request :
      ServiceId → Request → Step
  attempt_transition_to_awaiting_syncer_or_awaiting_syncer_request source (sweep_address addendum) =
      let (blockchain, network) = sweep_network env addendum in
      do
        id ← new_task_id
        up ← syncer_up env blockchain network
        give source (syncer blockchain network)
            (sweep_address_task
              (record { retry = false; id = id; lifetime = u64_mod - 1; addendum = addendum }))
            id up
  attempt_transition_to_awaiting_syncer_or_awaiting_syncer_request source (get_balance key) =
      let (blockchain, network) = balance_network env key in
      do
        id ← new_task_id
        up ← syncer_up env blockchain network
        give source (syncer blockchain network)
            (get_address_balance_task (record { id = id; address_secret_key = key })) id up
  attempt_transition_to_awaiting_syncer_or_awaiting_syncer_request source
        (health_check blockchain network) =
      do
        id ← new_task_id
        up ← syncer_up env blockchain network
        give_or_answer source (syncer blockchain network) (health_check_task id) id up
  attempt_transition_to_awaiting_syncer_or_awaiting_syncer_request source _ = done none

  -- The last arm of the code shadows the client by the sender of the message.
  unfoldable pub attempt_transition_to_awaiting_syncer_request :
      ServiceId → Request → AwaitingSyncer → Step
  attempt_transition_to_awaiting_syncer_request source hello a =
      if same a.syncer source
      then (do
        send_to env a.syncer (syncer_task a.syncer_task)
        done (
            some (
              awaiting_syncer_request (record {
                source = a.source;
                syncer = a.syncer;
                syncer_task_id = a.syncer_task_id;
              }))))
      else done (some (awaiting_syncer (record a { source = source })))
  attempt_transition_to_awaiting_syncer_request source _ a =
      done (some (awaiting_syncer (record a { source = source })))

-- `Vec::pop`.
unfoldable pub last : {A : Type 0} → List A → Option A
last [] = none
last (x ∷ []) = some x
last (x ∷ y ∷ ys) = last (y ∷ ys)

module _ (env : Env) where
  valid_txid : Option Bytes → Option Bytes
  valid_txid none = none
  valid_txid (some txid) = if env.is_txid txid then some txid else none

  swept_message : Option Bytes → Message
  swept_message (some txid) = swept txid
  swept_message none = nothing_to_sweep

  balance_message : Bytes → ℕ → Option ErrorText → Message
  balance_message address balance (some error) = failed_balance error
  balance_message address balance none = Message.address_balance address balance

  -- What a syncer's event about the task `id` is answered with.
  unfoldable pub answer : ℕ → Event → Option Message
  unfolding last valid_txid swept_message balance_message
  answer id (sweep_success i txids) =
      if same i id then some (swept_message (valid_txid (last txids))) else none
  answer id (address_balance i address balance error) =
      if same i id then some (balance_message address balance error) else none
  answer id (task_aborted (i ∷ []) error) = if same i id then some (failed_query error) else none
  answer id (health_result i h) = if same i id then some (health h) else none
  answer id _ = none

  -- As above, the client is shadowed where the machine stays.
  unfoldable pub conclude : ServiceId → AwaitingSyncerRequest → Option Message → Step
  conclude source a (some m) = do
    send_client env a.source m
    clean_up_after_syncer_usage env
    done none
  conclude source a none = done (some (awaiting_syncer_request (record a { source = source })))

  unfoldable pub answer_of : ServiceId → Request → AwaitingSyncerRequest → Option Message
  answer_of source (sync_event e) a =
      if same a.syncer source then answer a.syncer_task_id e else none
  answer_of source _ a = none

  unfoldable pub attempt_transition_to_end : ServiceId → Request → AwaitingSyncerRequest → Step
  attempt_transition_to_end source request a = conclude source a (answer_of source request a)

  unfoldable pub next : SyncerStateMachine → ServiceId → Request → Step
  next start source request =
      attempt_transition_to_awaiting_syncer_or_awaiting_syncer_request env source request
  next (awaiting_syncer a) source request =
      attempt_transition_to_awaiting_syncer_request env source request a
  next (awaiting_syncer_request a) source request = attempt_transition_to_end source request a

unfoldable pub task_id : SyncerStateMachine → Option ℕ
task_id start = none
task_id (awaiting_syncer a) = some a.syncer_task_id
task_id (awaiting_syncer_request a) = some a.syncer_task_id

-- `syncer_state_machines.remove(&id)`.
unfoldable pub take_machine : ℕ → Exec (Option SyncerStateMachine)
take_machine id = do
  machine ← gets (λ r. lookup id r.syncer_state_machines)
  modify (λ r. record r { syncer_state_machines = remove id r.syncer_state_machines })
  done machine

unfoldable pub take_last : Option ℕ → Step
take_last none = done none
take_last (some id) = take_machine id

unfoldable pub match_request_to_syncer_state_machine : Request → Step
unfolding last
match_request_to_syncer_state_machine (sweep_address _) = done (some start)
match_request_to_syncer_state_machine (health_check _ _) = done (some start)
match_request_to_syncer_state_machine (get_balance _) = done (some start)
match_request_to_syncer_state_machine (sync_event (sweep_success id _)) = take_machine id
match_request_to_syncer_state_machine (sync_event (address_balance id _ _ _)) = take_machine id
match_request_to_syncer_state_machine (sync_event (health_result id _)) = take_machine id
match_request_to_syncer_state_machine (sync_event (task_aborted ids _)) = take_last (last ids)
match_request_to_syncer_state_machine _ = done none

unfoldable pub put_machine : ℕ → SyncerStateMachine → Exec (Unit {0})
put_machine id m =
    modify (λ r. record r { syncer_state_machines = insert id m r.syncer_state_machines })

-- A new state is filed under its task's id; one without a task is only logged.
unfoldable pub file_machine : Option ℕ → SyncerStateMachine → Exec (Unit {0})
file_machine none m = done tt
file_machine (some id) m = put_machine id m

unfoldable pub file_new : Option SyncerStateMachine → Exec (Unit {0})
file_new none = done tt
file_new (some m) = file_machine (task_id m) m

module _ (env : Env) where
  unfoldable pub run_machine : ServiceId → Request → Option SyncerStateMachine → Exec (Unit {0})
  run_machine source request none = done tt
  run_machine source request (some m) = do new ← next env m source request; file_new new

  -- The part of `process_request_with_state_machines` for requests to syncers.
  unfoldable pub process_request : ServiceId → Request → Exec (Unit {0})
  process_request source request = do
    machine ← match_request_to_syncer_state_machine request
    run_machine source request machine

  unfoldable pub file_under : ℕ → Option SyncerStateMachine → Exec (Unit {0})
  file_under id none = done tt
  file_under id (some m) = put_machine id m

  unfoldable pub hello_each : ServiceId → List (ℕ × SyncerStateMachine) → Exec (Unit {0})
  hello_each source [] = done tt
  hello_each source ((id, m) ∷ machines) = do
    new ← next env m source hello
    file_under id new
    hello_each source machines

  -- A `Hello` of any service runs all the machines; they are taken out first, so those that come after
  -- an error are lost.
  unfoldable pub handle_hello : ServiceId → Exec (Unit {0})
  handle_hello source = do
    machines ← gets (λ r. r.syncer_state_machines)
    modify (λ r. record r { syncer_state_machines = [] })
    hello_each source machines
