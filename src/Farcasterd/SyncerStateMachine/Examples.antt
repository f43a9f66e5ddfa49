-- ===== src/Farcasterd/SyncerStateMachine/Examples.antt =====
-- Requests to syncers, src/farcasterd/syncer_state_machine.rs and src/farcasterd/runtime.rs, on a
-- concrete node.
use farcaster_node.Base.{ℕ_discrete, ◌≡◌, refl, true, none, [], ◌∷◌, ok, ◌⊎◌, member}
use farcaster_node.Bus.{
  Bytes, ServiceId, ServiceId_eq, ServiceId-discrete, bitcoin, monero, local, syncer, client,
}
use farcaster_node.Syncerd.Types.{health_check_task, health_result, healthy}
use farcaster_node.Farcasterd.Runtime
use farcaster_node.Farcasterd.Runtime.{
  Env, World, AwaitingSyncer, AwaitingSyncerRequest, awaiting_syncer_request, syncer_up,
  unavailable, clean_up_after_syncer_usage, is_syncer, syncer_has_client, send, health,
}
use farcaster_node.Farcasterd.Runtime.CleanUp.{clean_up-has_client}
use farcaster_node.Farcasterd.Runtime.Launches.{syncer_up-twice}
use farcaster_node.Farcasterd.SyncerStateMachine.{
  Request, sync_event, health_check, next, attempt_transition_to_end, conclude, answer_of, answer,
  task_id, process_request, handle_hello,
}
use farcaster_node.Farcasterd.SyncerStateMachine.Ends.{Answered, request-Answered}
use farcaster_node.Farcasterd.SyncerStateMachine.Redirects.{asked as taken_over}
use farcaster_node.Farcasterd.SyncerStateMachine.Tables.{table}
use farcaster_node.Farcasterd.SyncerStateMachine.Keyed.{Keyed, table-Keyed}

-- A bus that delivers everything, a configuration for all networks and processes that start.
abbrev env : Env
env = record {
  delivers = λ trace dest m. true;
  launch_error = λ s. none;
  has_servers = λ n. true;
  invalid_config = [];
  monero_network = λ a. local;
  bitcoin_network = λ a. local;
  is_txid = λ t. true;
}

-- A client asked a Bitcoin syncer for a health check.
abbrev asked : AwaitingSyncerRequest
asked = record { source = client 1; syncer = syncer bitcoin local; syncer_task_id = 4 }

-- Two syncers run, of which none is used by a trade.
abbrev world : World
world = record {
  runtime = record {
    spawning_services = [];
    registered_services = syncer bitcoin local ∷ syncer monero local ∷ client 1 ∷ [];
    syncer_task_counter = 5;
    trade_syncers = [];
    syncer_state_machines = (4, awaiting_syncer_request asked) ∷ [];
  };
  trace = [];
}

abbrev healthy_event : Request
healthy_event = sync_event (health_result 4 healthy)

-- Only this request is left, and no syncer.
abbrev idle : World
idle = record world {
  runtime = record (world.runtime) { registered_services = []; syncer_state_machines = [] };
}

answered :
    next env (awaiting_syncer_request asked) (syncer bitcoin local) healthy_event idle
    ≡ (ok none, record idle { trace = send (client 1) (health healthy) ∷ [] })
unfolding ServiceId-discrete next attempt_transition_to_end conclude answer_of answer
    Runtime.send_client Runtime.client_dest Runtime.send_to Runtime.or_error Runtime.try_send
    Runtime.done clean_up_after_syncer_usage Runtime.filter_services Runtime.gets Runtime.modify
    Runtime.◌>>=◌ ℕ_discrete
answered = refl

request-Answered_example : Answered env asked (syncer bitcoin local) healthy_event idle
request-Answered_example =
    request-Answered env asked (syncer bitcoin local) healthy_event idle
      (record idle { trace = send (client 1) (health healthy) ∷ [] }) answered

-- A client waits for a health check of a Bitcoin syncer that is not running yet.
abbrev waiting : AwaitingSyncer
waiting = record {
  source = client 1;
  syncer = syncer bitcoin local;
  syncer_task = health_check_task 4;
  syncer_task_id = 4;
}

abbrev redirected : AwaitingSyncer
redirected = record waiting { source = client 2 }

-- The syncer was sent the task.
abbrev tasked : World
tasked = record idle {
  trace = send (syncer bitcoin local) (Runtime.syncer_task (health_check_task 4)) ∷ [];
}

table-Keyed_example :
    Keyed (table (process_request env (client 2) (health_check monero local) world).1)
    × Keyed (table (handle_hello env (client 2) world).1)
unfolding task_id
table-Keyed_example = table-Keyed env (client 2) (health_check monero local) world (refl, tt)

clean_up-has_client_example :
    ((clean_up_after_syncer_usage env world).0 ≡ ok tt)
    × ((s : ServiceId)
        → member s (clean_up_after_syncer_usage env world).1.runtime.registered_services ≡ true
        → is_syncer s ≡ true
        → syncer_has_client world.runtime s ≡ true)
clean_up-has_client_example = clean_up-has_client env world (λ trace s. refl)

syncer_up-twice_example :
    ((text : Bytes) × ((syncer_up env bitcoin local world).0 ≡ ok (unavailable text)))
    ⊎ ((syncer_up env bitcoin local (syncer_up env bitcoin local world).1).1
        ≡ (syncer_up env bitcoin local world).1)
syncer_up-twice_example = syncer_up-twice env bitcoin local world
