-- ===== src/Farcasterd/Runtime.antt =====
-- What src/farcasterd/runtime.rs keeps of services and syncers. Code on it may fail with an error, and
-- what was done before the error stays done.
pub mod CleanUp
pub mod Launches
use farcaster_node.Base.{
  ℕ, Bool, true, false, not, ◌||◌, Option, none, some, List, [], ◌∷◌, if◌then◌else◌, Result, ok,
  err, member, set_insert, same,
}
use farcaster_node.Bus.{
  Bytes, Blockchain, Network, ServiceId, ServiceId_eq, syncer, grpcd_client, grpcd,
}
use farcaster_node.Syncerd.Types.{Task, ErrorText, Health}

-- `SyncerStateMachine`: a request of a client to a syncer.
pub record AwaitingSyncer : Type 0 where
  pub source : ServiceId
  pub syncer : ServiceId
  pub syncer_task : Task
  pub syncer_task_id : ℕ

pub record AwaitingSyncerRequest : Type 0 where
  pub source : ServiceId
  pub syncer : ServiceId
  pub syncer_task_id : ℕ

pub data SyncerStateMachine : Type 0 where
  start : SyncerStateMachine
  awaiting_syncer : AwaitingSyncer → SyncerStateMachine
  awaiting_syncer_request : AwaitingSyncerRequest → SyncerStateMachine

pub data Message : Type 0 where
  syncer_task : Task → Message
  terminate : Message
  swept : Bytes → Message
  nothing_to_sweep : Message
  address_balance : Bytes → ℕ → Message
  failed_balance : ErrorText → Message
  failed_query : Option ErrorText → Message
  health : Health → Message

-- What the daemon does: a message to a service, or the launch of a process.
pub data Effect : Type 0 where
  send : ServiceId → Message → Effect
  launch : ServiceId → Effect

-- The fields of `Runtime` that requests to syncers read or change; the syncers that running trades
-- use are what `TradeStateMachine::syncers` gives for all of them.
pub record Runtime : Type 0 where
  pub spawning_services : List ServiceId
  pub registered_services : List ServiceId
  pub syncer_task_counter : ℕ
  pub trade_syncers : List ServiceId
  pub syncer_state_machines : List (ℕ × SyncerStateMachine)

pub record World : Type 0 where
  pub runtime : Runtime
  pub trace : List Effect

-- Whether the bus delivers a message after what was done before; why a process does not start, if it
-- does not; the networks that the configuration has servers for, and the text of the error if it has
-- none; the networks of addresses and the transaction ids of the crates for Bitcoin and Monero.
pub record Env : Type 0 where
  pub delivers : List Effect → ServiceId → Message → Bool
  pub launch_error : ServiceId → Option Bytes
  pub has_servers : Network → Bool
  pub invalid_config : Bytes
  pub monero_network : Bytes → Network
  pub bitcoin_network : Bytes → Network
  pub is_txid : Bytes → Bool

abbrev pub Exec : Type 0 → Type 0
Exec A = World → Result A × World

module _ {A : Type 0} where
  unfoldable pub done : A → Exec A
  done a w = (ok a, w)

  unfoldable pub fail : Exec A
  fail w = (err, w)

  unfoldable pub gets : (Runtime → A) → Exec A
  gets f w = (ok (f w.runtime), w)

unfoldable pub modify : (Runtime → Runtime) → Exec (Unit {0})
modify f w = (ok tt, record w { runtime = f w.runtime })

unfoldable pub emit : Effect → Exec (Unit {0})
emit e w = (ok tt, record w { trace = e ∷ w.trace })

module _ {A B : Type 0} where
  abbrev pub continue : Result A → (A → Exec B) → Exec B
  continue (ok a) f w = f a w
  continue err f w = (err, w)

  infixl 10 ◌>>=◌ ◌>>◌
  unfoldable pub ◌>>=◌ : Exec A → (A → Exec B) → Exec B
  ◌>>=◌ m f w = let (r, w') = m w in continue r f w'

  abbrev pub ◌>>◌ : Exec A → Exec B → Exec B
  m >> n = m >>= λ _. n

unfoldable pub client_dest : ServiceId → ServiceId
client_dest (grpcd_client _) = grpcd
client_dest service = service

module _ (env : Env) where
  -- `Endpoints::send_to`: whether the message was delivered.
  unfoldable pub try_send : ServiceId → Message → Exec Bool
  try_send dest m w =
      if env.delivers w.trace dest m
      then (ok true, record w { trace = send dest m ∷ w.trace })
      else (ok false, w)

  unfoldable pub or_error : Bool → Exec (Unit {0})
  or_error true = done tt
  or_error false = fail

  unfoldable pub send_to : ServiceId → Message → Exec (Unit {0})
  unfolding or_error
  send_to dest m = do sent ← try_send dest m; or_error sent

  -- `send_client_info` and `send_client_ctl` of src/event.rs: a client of `grpcd` is reached through it.
  unfoldable pub send_client : ServiceId → Message → Exec (Unit {0})
  unfolding client_dest
  send_client service m = send_to (client_dest service) m

-- What `syncer_up` returns: a running syncer, that it is starting, or the text of an error.
pub data Up : Type 0 where
  running : ServiceId → Up
  starting : Up
  unavailable : Bytes → Up

unfoldable pub is_known : ServiceId → Runtime → Bool
is_known s r = member s r.registered_services || member s r.spawning_services

unfoldable pub running_or_starting : ServiceId → Bool → Up
running_or_starting s true = running s
running_or_starting s false = starting

unfoldable pub is_running : ServiceId → Exec Up
is_running s = gets (λ r. running_or_starting s (member s r.registered_services))

module _ (env : Env) where
  unfoldable pub launched : ServiceId → Option Bytes → Exec Up
  launched s (some text) = done (unavailable text)
  launched s none = do
    emit (launch s)
    modify (λ r. record r { spawning_services = set_insert s r.spawning_services })
    is_running s

  unfoldable pub launch_syncer : ServiceId → Network → Exec Up
  launch_syncer s network =
      if env.has_servers network
      then launched s (env.launch_error s)
      else done (unavailable env.invalid_config)

  unfoldable pub syncer_up : Blockchain → Network → Exec Up
  syncer_up blockchain network = do
    known ← gets (is_known (syncer blockchain network))
    if known
        then is_running (syncer blockchain network)
        else launch_syncer (syncer blockchain network) network

-- The syncer that a request waits for.
unfoldable pub machine_syncer : SyncerStateMachine → Option ServiceId
machine_syncer start = none
machine_syncer (awaiting_syncer a) = some a.syncer
machine_syncer (awaiting_syncer_request a) = some a.syncer

unfoldable pub is_service : ServiceId → Option ServiceId → Bool
is_service s none = false
is_service s (some t) = same t s

unfoldable pub any_machine : ServiceId → List (ℕ × SyncerStateMachine) → Bool
any_machine s [] = false
any_machine s ((_, m) ∷ ms) = is_service s (machine_syncer m) || any_machine s ms

unfoldable pub syncer_has_client : Runtime → ServiceId → Bool
syncer_has_client r s = member s r.trade_syncers || any_machine s r.syncer_state_machines

unfoldable pub is_syncer : ServiceId → Bool
is_syncer (syncer _ _) = true
is_syncer _ = false

module _ (env : Env) where
  -- Terminates a syncer without clients; it is kept if that could not be sent.
  unfoldable pub keep_service : ServiceId → Exec Bool
  keep_service s = do
    unused ← gets (λ r. if is_syncer s then not (syncer_has_client r s) else false)
    if unused then (do sent ← try_send env s terminate; done (not sent)) else done true

  unfoldable pub filter_services : List ServiceId → Exec (List ServiceId)
  filter_services [] = done []
  filter_services (s ∷ ss) = do
    keep ← keep_service s
    rest ← filter_services ss
    done (if keep then s ∷ rest else rest)

  unfoldable pub clean_up_after_syncer_usage : Exec (Unit {0})
  clean_up_after_syncer_usage = do
    services ← gets (λ r. r.registered_services)
    kept ← filter_services services
    modify (λ r. record r { registered_services = kept })
