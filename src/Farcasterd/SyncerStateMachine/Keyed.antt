-- ===== src/Farcasterd/SyncerStateMachine/Keyed.antt =====
-- The table of syncer state machines of src/farcasterd/runtime.rs: each is filed under its task's id.
use farcaster_node.Base.{
  Bool, ℕ, ◌≡◌, refl, sym, subst, true, false, Option, none, some, [], ◌∷◌, Result, ok, err, if_pos,
  if_neg, eq_dec, remove, insert, same, if◌then◌else◌, ℕ_eq,
}
use farcaster_node.Bus.{ServiceId, ServiceId_eq}
use farcaster_node.Syncerd.Types.{
  Event, sweep_success, address_balance, task_aborted, health_result,
}
use farcaster_node.Farcasterd.Runtime.{
  SyncerStateMachine, start, awaiting_syncer, awaiting_syncer_request, World, Env, Exec, done, gets,
  modify, continue, ◌>>=◌,
}
use farcaster_node.Farcasterd.SyncerStateMachine.{
  Request, hello, sync_event, sweep_address, get_balance, health_check, other_request,
  attempt_transition_to_awaiting_syncer_or_awaiting_syncer_request,
  attempt_transition_to_awaiting_syncer_request, conclude, answer_of, attempt_transition_to_end,
  next, task_id, take_machine, take_last, match_request_to_syncer_state_machine, put_machine,
  file_machine, file_new, run_machine, process_request, file_under, hello_each, handle_hello, last,
}
use farcaster_node.Farcasterd.SyncerStateMachine.Tables.{Table, table, Same, Same-next, Same-done}

-- Every machine is filed under the id of its task.
abbrev pub Keyed : Table → Type 0
Keyed [] = Unit
Keyed ((id, m) ∷ ms) = (task_id m ≡ some id) × Keyed ms

Keyed-remove : (id : ℕ) (ms : Table) → Keyed ms → Keyed (remove id ms)
unfolding remove
Keyed-remove id [] k = tt
Keyed-remove id ((i, m) ∷ ms) k = elim (eq_dec i id) [
  | yes p ↦ rw (if_pos _ p) (Keyed-remove id ms k.1)
  | no p ↦ rw (if_neg _ p) (k.0, Keyed-remove id ms k.1)
]

Keyed-insert :
    (id : ℕ) (m : SyncerStateMachine) (ms : Table)
    → task_id m ≡ some id
    → Keyed ms
    → Keyed (insert id m ms)
unfolding insert
Keyed-insert id m ms e k = (e, Keyed-remove id ms k)

-- Code that leaves every machine filed under its task's id.
record KeepsKeyed {A : Type 0} (m : Exec A) : Type 0 where
  pub keyed : (w : World) → Keyed (table w) → Keyed (table (m w).1)

KeepsKeyed-Same : {A : Type 0} (m : Exec A) → Same m → KeepsKeyed m
KeepsKeyed-Same m s = record { keyed = λ w k. subst Keyed (sym (s.same w)) k }

KeepsKeyed-bind :
    {A B : Type 0} (m : Exec A) (f : A → Exec B)
    → KeepsKeyed m
    → ((a : A) → KeepsKeyed (f a))
    → KeepsKeyed (m >>= f)
unfolding ◌>>=◌
KeepsKeyed-bind m f p q = record { keyed = λ w k. go (m w) (p.keyed w k) }
  where
    go : (r : Result _ × World) → Keyed (table r.1) → Keyed (table (continue r.0 f r.1).1)
    go (ok a, w) k = (q a).keyed w k
    go (err, w) k = k

KeepsKeyed-take_machine : (id : ℕ) → KeepsKeyed (take_machine id)
unfolding take_machine ◌>>=◌ gets modify done
KeepsKeyed-take_machine id = record { keyed = λ w k. Keyed-remove id (table w) k }

KeepsKeyed-put_machine :
    (id : ℕ) (m : SyncerStateMachine) → task_id m ≡ some id → KeepsKeyed (put_machine id m)
unfolding put_machine modify
KeepsKeyed-put_machine id m e = record { keyed = λ w k. Keyed-insert id m (table w) e k }

KeepsKeyed-done : {A : Type 0} (a : A) → KeepsKeyed (done a)
KeepsKeyed-done a = KeepsKeyed-Same (done a) (Same-done a)

KeepsKeyed-take_last : (o : Option ℕ) → KeepsKeyed (take_last o)
unfolding take_last
KeepsKeyed-take_last none = KeepsKeyed-done none
KeepsKeyed-take_last (some id) = KeepsKeyed-take_machine id

KeepsKeyed-event : (e : Event) → KeepsKeyed (match_request_to_syncer_state_machine (sync_event e))
unfolding match_request_to_syncer_state_machine
KeepsKeyed-event (sweep_success id t) = KeepsKeyed-take_machine id
KeepsKeyed-event (address_balance id a b e) = KeepsKeyed-take_machine id
KeepsKeyed-event (health_result id h) = KeepsKeyed-take_machine id
KeepsKeyed-event (task_aborted ids e) = KeepsKeyed-take_last (last ids)
KeepsKeyed-event _ = KeepsKeyed-done none

KeepsKeyed-match : (q : Request) → KeepsKeyed (match_request_to_syncer_state_machine q)
unfolding match_request_to_syncer_state_machine
KeepsKeyed-match (sweep_address _) = KeepsKeyed-done (some start)
KeepsKeyed-match (health_check _ _) = KeepsKeyed-done (some start)
KeepsKeyed-match (get_balance _) = KeepsKeyed-done (some start)
KeepsKeyed-match (sync_event e) = KeepsKeyed-event e
KeepsKeyed-match hello = KeepsKeyed-done none
KeepsKeyed-match other_request = KeepsKeyed-done none

KeepsKeyed-file_machine :
    (o : Option ℕ) (m : SyncerStateMachine) → task_id m ≡ o → KeepsKeyed (file_machine o m)
unfolding file_machine
KeepsKeyed-file_machine none m e = KeepsKeyed-done tt
KeepsKeyed-file_machine (some id) m e = KeepsKeyed-put_machine id m e

KeepsKeyed-file_new : (o : Option SyncerStateMachine) → KeepsKeyed (file_new o)
unfolding file_new
KeepsKeyed-file_new none = KeepsKeyed-done tt
KeepsKeyed-file_new (some m) = KeepsKeyed-file_machine (task_id m) m refl

module _ (env : Env) (source : ServiceId) where
  KeepsKeyed-run_machine :
      (q : Request) (o : Option SyncerStateMachine) → KeepsKeyed (run_machine env source q o)
  unfolding run_machine
  KeepsKeyed-run_machine q none = KeepsKeyed-done tt
  KeepsKeyed-run_machine q (some m) =
      KeepsKeyed-bind _ _ (KeepsKeyed-Same _ (Same-next env m source q)) KeepsKeyed-file_new

  KeepsKeyed-process_request : (q : Request) → KeepsKeyed (process_request env source q)
  unfolding process_request
  KeepsKeyed-process_request q = KeepsKeyed-bind _ _ (KeepsKeyed-match q) (KeepsKeyed-run_machine q)

-- What a step returns, if it does not fail.
abbrev Post : {A : Type 0} → (A → Type 0) → Result A → Type 0
Post Q (ok a) = Q a
Post Q err = Unit

record Returns {A : Type 0} (Q : A → Type 0) (m : Exec A) : Type 0 where
  pub at : (w : World) → Post Q (m w).0

Returns-done : {A : Type 0} (Q : A → Type 0) (a : A) → Q a → Returns Q (done a)
unfolding done
Returns-done Q a q = record { at = λ w. q }

Returns-bind :
    {A B : Type 0} (Q : B → Type 0) (m : Exec A) (f : A → Exec B)
    → ((a : A) → Returns Q (f a))
    → Returns Q (m >>= f)
unfolding ◌>>=◌
Returns-bind Q m f p = record { at = λ w. go (m w) }
  where
    go : (r : Result _ × World) → Post Q (continue r.0 f r.1).0
    go (ok a, w) = (p a).at w
    go (err, w) = tt

Returns-if :
    {A : Type 0} (Q : A → Type 0) (b : Bool) (m n : Exec A)
    → Returns Q m
    → Returns Q n
    → Returns Q (if b then m else n)
Returns-if Q true m n p q = p
Returns-if Q false m n p q = q

-- The rest of the code may use what was returned.
KeepsKeyed-then :
    {A B : Type 0} (Q : A → Type 0) (m : Exec A) (f : A → Exec B)
    → KeepsKeyed m
    → Returns Q m
    → ((a : A) → Q a → KeepsKeyed (f a))
    → KeepsKeyed (m >>= f)
unfolding ◌>>=◌
KeepsKeyed-then Q m f p r q = record { keyed = λ w k. go (m w) (p.keyed w k) (r.at w) }
  where
    go :
        (r : Result _ × World)
        → Keyed (table r.1)
        → Post Q r.0
        → Keyed (table (continue r.0 f r.1).1)
    go (ok a, w) k h = (q a h).keyed w k
    go (err, w) k h = k

-- A machine that a `Hello` leaves has the task of the one before.
abbrev SameTask : Option ℕ → Option SyncerStateMachine → Type 0
SameTask id none = Unit
SameTask id (some m) = task_id m ≡ id

module _ (env : Env) (source : ServiceId) where
  hello-SameTask :
      (m : SyncerStateMachine) → Returns (SameTask (task_id m)) (next env m source hello)
  unfolding next attempt_transition_to_awaiting_syncer_or_awaiting_syncer_request
      attempt_transition_to_awaiting_syncer_request attempt_transition_to_end conclude answer_of
      task_id
  hello-SameTask start = Returns-done _ none tt
  hello-SameTask (awaiting_syncer a) =
      Returns-if _ (same a.syncer source) _ _ (Returns-bind _ _ _ (λ u. Returns-done _ _ refl))
        (Returns-done _ _ refl)
  hello-SameTask (awaiting_syncer_request a) = Returns-done _ _ refl

  KeepsKeyed-file_under :
      (id : ℕ) (o : Option SyncerStateMachine)
      → SameTask (some id) o
      → KeepsKeyed (file_under env id o)
  unfolding file_under
  KeepsKeyed-file_under id none h = KeepsKeyed-done tt
  KeepsKeyed-file_under id (some m) h = KeepsKeyed-put_machine id m h

  KeepsKeyed-hello_each : (ms : Table) → Keyed ms → KeepsKeyed (hello_each env source ms)
  unfolding hello_each
  KeepsKeyed-hello_each [] k = KeepsKeyed-done tt
  KeepsKeyed-hello_each ((id, m) ∷ ms) k =
      let rest = KeepsKeyed-hello_each ms k.1 in
      KeepsKeyed-then (SameTask (some id)) _ _ (KeepsKeyed-Same _ (Same-next env m source hello))
        (subst (λ i. Returns (SameTask i) (next env m source hello)) k.0 (hello-SameTask m))
        (λ o h. KeepsKeyed-bind _ _ (KeepsKeyed-file_under id o h) (λ u. rest))

  KeepsKeyed-handle_hello : KeepsKeyed (handle_hello env source)
  unfolding handle_hello ◌>>=◌ gets modify
  KeepsKeyed-handle_hello = record {
    keyed = λ w k.
        (KeepsKeyed-hello_each (table w) k).keyed
          (record w { runtime = record (w.runtime) { syncer_state_machines = [] } }) tt;
  }

-- Whatever is requested, reported or announced, and whether or not it fails, every machine stays filed
-- under the id of the task that it waits for.
pub table-Keyed :
    (env : Env) (source : ServiceId) (q : Request) (w : World)
    → Keyed (table w)
    → Keyed (table (process_request env source q w).1) × Keyed (table (handle_hello env source w).1)
table-Keyed env source q w k = (
  (KeepsKeyed-process_request env source q).keyed w k,
  (KeepsKeyed-handle_hello env source).keyed w k,
)
