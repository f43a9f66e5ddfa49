-- ===== src/Farcasterd/SyncerStateMachine/Tables.antt =====
-- Code of src/farcasterd that leaves the table of syncer state machines as it is.
use farcaster_node.Base.{
  ℕ, ◌≡◌, refl, ◌∙◌, Bool, true, false, Option, none, some, List, [], ◌∷◌, inl, inr, Bool-cases,
  Result, ok, err, if◌then◌else◌,
}
use farcaster_node.Bus.{Bytes, Blockchain, Network, ServiceId}
use farcaster_node.Syncerd.Types.{Task}
use farcaster_node.Farcasterd.Runtime.{
  SyncerStateMachine, start, awaiting_syncer, awaiting_syncer_request, AwaitingSyncer,
  AwaitingSyncerRequest, Message, Effect, Runtime, World, Env, Exec, done, fail, gets, modify, emit,
  continue, ◌>>=◌, try_send, or_error, send_to, send_client, Up, running, starting, unavailable,
  is_running, launched, launch_syncer, syncer_up, keep_service, filter_services,
  clean_up_after_syncer_usage,
}
use farcaster_node.Farcasterd.SyncerStateMachine.{
  Request, hello, sync_event, sweep_address, get_balance, health_check, other_request, new_task_id,
  give, give_or_answer, attempt_transition_to_awaiting_syncer_or_awaiting_syncer_request,
  attempt_transition_to_awaiting_syncer_request, conclude, attempt_transition_to_end, next,
}

abbrev pub Table : Type 0
Table = List (ℕ × SyncerStateMachine)

abbrev pub table : World → Table
table w = w.runtime.syncer_state_machines

-- Code that leaves the table as it is.
pub record Same {A : Type 0} (m : Exec A) : Type 0 where
  pub same : (w : World) → table (m w).1 ≡ table w

module _ {A : Type 0} where
  pub Same-done : (a : A) → Same (done a)
  unfolding done
  Same-done a = record { same = λ w. refl }

  pub Same-fail : Same (fail {A = A})
  unfolding fail
  Same-fail = record { same = λ w. refl }

  pub Same-gets : (f : Runtime → A) → Same (gets f)
  unfolding gets
  Same-gets f = record { same = λ w. refl }

  pub Same-if : (b : Bool) (m n : Exec A) → Same m → Same n → Same (if b then m else n)
  Same-if true m n p q = p
  Same-if false m n p q = q

pub Same-modify :
    (f : Runtime → Runtime)
    → ((r : Runtime) → (f r).syncer_state_machines ≡ r.syncer_state_machines)
    → Same (modify f)
unfolding modify
Same-modify f h = record { same = λ w. h w.runtime }

pub Same-emit : (e : Effect) → Same (emit e)
unfolding emit
Same-emit e = record { same = λ w. refl }

pub Same-bind :
    {A B : Type 0} (m : Exec A) (f : A → Exec B) → Same m → ((a : A) → Same (f a)) → Same (m >>= f)
unfolding ◌>>=◌
Same-bind m f p q = record { same = λ w. go (m w) ∙ p.same w }
  where
    go : (r : Result _ × World) → table (continue r.0 f r.1).1 ≡ table r.1
    go (ok a, w) = (q a).same w
    go (err, w) = refl

pub Same-try_send : (env : Env) (dest : ServiceId) (m : Message) → Same (try_send env dest m)
unfolding try_send
Same-try_send env dest m = record {
  same = λ w. elim (Bool-cases (env.delivers w.trace dest m)) [
    | inl e ↦ rw e refl
    | inr e ↦ rw e refl
  ];
}

pub ruleset same_rules =
    (Same-done, Same-fail, Same-gets, Same-if, Same-modify, Same-emit, Same-bind, Same-try_send)

module _ (env : Env) where
  Same-or_error : (b : Bool) → Same (or_error env b)
  unfolding or_error
  Same-or_error true = Same-done tt
  Same-or_error false = Same-fail

  pub Same-send_to : (dest : ServiceId) (m : Message) → Same (send_to env dest m)
  unfolding send_to
  Same-send_to dest m = Same-bind _ _ (Same-try_send env dest m) Same-or_error

  pub Same-send_client : (dest : ServiceId) (m : Message) → Same (send_client env dest m)
  unfolding send_client
  Same-send_client dest m = Same-send_to _ m

  pub Same-launched : (s : ServiceId) (o : Option Bytes) → Same (launched env s o)
  unfolding launched is_running
  Same-launched s none = search (same_rules) depth 10
  Same-launched s (some t) = search (same_rules) depth 10

  pub Same-syncer_up : (b : Blockchain) (n : Network) → Same (syncer_up env b n)
  unfolding syncer_up launch_syncer is_running
  Same-syncer_up b n = search (same_rules, Same-launched) depth 10

  pub Same-keep_service : (s : ServiceId) → Same (keep_service env s)
  unfolding keep_service
  Same-keep_service s = search (same_rules) depth 10

  pub Same-filter_services : (ss : List ServiceId) → Same (filter_services env ss)
  unfolding filter_services
  Same-filter_services [] = search (same_rules)
  Same-filter_services (s ∷ ss) =
      let rest = Same-filter_services ss in
      Same-bind _ _ (Same-keep_service s) (λ keep. Same-bind _ _ rest (λ kept. Same-done _))

  pub Same-clean_up : Same (clean_up_after_syncer_usage env)
  unfolding clean_up_after_syncer_usage
  Same-clean_up = search (same_rules, Same-filter_services) depth 10

  pub Same-give :
      (source service : ServiceId) (t : Task) (id : ℕ) (up : Up)
      → Same (give env source service t id up)
  unfolding give
  Same-give source service t id (running s) = search (same_rules, Same-send_to) depth 10
  Same-give source service t id starting = search (same_rules) depth 10
  Same-give source service t id (unavailable e) = search (same_rules) depth 10

  pub Same-give_or_answer :
      (source service : ServiceId) (t : Task) (id : ℕ) (up : Up)
      → Same (give_or_answer env source service t id up)
  unfolding give_or_answer
  Same-give_or_answer source service t id (running s) = Same-give source service t id (running s)
  Same-give_or_answer source service t id starting = Same-give source service t id starting
  Same-give_or_answer source service t id (unavailable e) =
      search (same_rules, Same-send_to) depth 10

  pub Same-new_task_id : Same new_task_id
  unfolding new_task_id
  Same-new_task_id = search (same_rules) depth 10

  pub Same-start : (source : ServiceId) (q : Request) → Same (next env start source q)
  unfolding next attempt_transition_to_awaiting_syncer_or_awaiting_syncer_request
  Same-start source (sweep_address a) =
      search (same_rules, Same-new_task_id, Same-syncer_up, Same-give) depth 10
  Same-start source (get_balance k) =
      search (same_rules, Same-new_task_id, Same-syncer_up, Same-give) depth 10
  Same-start source (health_check b n) =
      search (same_rules, Same-new_task_id, Same-syncer_up, Same-give_or_answer) depth 10
  Same-start source hello = search (same_rules) depth 10
  Same-start source (sync_event e) = search (same_rules) depth 10
  Same-start source other_request = search (same_rules) depth 10

  pub Same-awaiting :
      (a : AwaitingSyncer) (source : ServiceId) (q : Request)
      → Same (next env (awaiting_syncer a) source q)
  unfolding next attempt_transition_to_awaiting_syncer_request
  Same-awaiting a source hello = search (same_rules, Same-send_to) depth 10
  Same-awaiting a source (sweep_address _) = search (same_rules) depth 10
  Same-awaiting a source (get_balance _) = search (same_rules) depth 10
  Same-awaiting a source (health_check _ _) = search (same_rules) depth 10
  Same-awaiting a source (sync_event _) = search (same_rules) depth 10
  Same-awaiting a source other_request = search (same_rules) depth 10

  pub Same-conclude :
      (a : AwaitingSyncerRequest) (source : ServiceId) (o : Option Message)
      → Same (conclude env source a o)
  unfolding conclude
  Same-conclude a source none = search (same_rules) depth 10
  Same-conclude a source (some m) = search (same_rules, Same-send_client, Same-clean_up) depth 10

  pub Same-next :
      (m : SyncerStateMachine) (source : ServiceId) (q : Request) → Same (next env m source q)
  unfolding next attempt_transition_to_end
  Same-next start source q = Same-start source q
  Same-next (awaiting_syncer a) source q = Same-awaiting a source q
  Same-next (awaiting_syncer_request a) source q = Same-conclude a source _
