-- ===== src/Syncerd/State/AbortOwned.antt =====
-- `SyncerState::abort` (src/syncerd/syncer_state.rs) and the invariant of the tasks.
use farcaster_node.Base.{
  ℕ, ◌≡◌, Bool, true, false, List, [], ◌∷◌, arith, ◌⊎◌, inl, inr, ite, Bool-cases, Option-cases,
  contains_key, contains_key-remove, contains_key_of_lookup, lookup, ℕ_eq, ℕ_discrete,
}
use farcaster_node.Bus.{ServiceId}
use farcaster_node.Syncerd.Types.{TaskTarget}
use farcaster_node.Syncerd.State.{
  SyncerState, remove_address, remove_transaction, remove_height, remove_sweep_address,
}
use farcaster_node.Syncerd.State.Abort.{
  Kind, address_tasks, transaction_tasks, height_tasks, sweep_tasks, is_target, targeted, ids_of,
  remove_task, is_source, abort_each, abort_pass, abort_passes, answer, abort,
}
use farcaster_node.Syncerd.State.Owned.{Inv}

-- Whether an id stands for a task of the kind.
abbrev pub holds : Kind → ℕ → SyncerState → Bool
holds address_tasks i s = contains_key i s.addresses
holds transaction_tasks i s = contains_key i s.transactions
holds height_tasks i s = contains_key i s.watch_height
holds sweep_tasks i s = contains_key i s.sweep_addresses

pub remove_task-Inv :
    (k : Kind) (i : ℕ) (s : SyncerState) {n : ℕ}
    → Inv n s
    → holds k i s ≡ true
    → Inv n (remove_task k i s)
unfolding remove_task remove_address remove_transaction remove_height remove_sweep_address
remove_task-Inv address_tasks i s v h = record {
  sourced = λ j. ground (
    arith,
    v.sourced i,
    v.sourced j,
    contains_key-remove j i s.addresses,
    contains_key-remove j i s.tasks_sources,
  );
  fresh = λ j f. ground (arith, v.fresh j, contains_key-remove j i s.tasks_sources);
  counted = v.counted;
}
remove_task-Inv transaction_tasks i s v h = record {
  sourced = λ j. ground (
    arith,
    v.sourced i,
    v.sourced j,
    contains_key-remove j i s.transactions,
    contains_key-remove j i s.tasks_sources,
  );
  fresh = λ j f. ground (arith, v.fresh j, contains_key-remove j i s.tasks_sources);
  counted = v.counted;
}
remove_task-Inv height_tasks i s v h = record {
  sourced = λ j. ground (
    arith,
    v.sourced i,
    v.sourced j,
    contains_key-remove j i s.watch_height,
    contains_key-remove j i s.tasks_sources,
  );
  fresh = λ j f. ground (arith, v.fresh j, contains_key-remove j i s.tasks_sources);
  counted = v.counted;
}
remove_task-Inv sweep_tasks i s v h = record {
  sourced = λ j. ground (
    arith,
    v.sourced i,
    v.sourced j,
    contains_key-remove j i s.sweep_addresses,
    contains_key-remove j i s.tasks_sources,
  );
  fresh = λ j f. ground (arith, v.fresh j, contains_key-remove j i s.tasks_sources);
  counted = v.counted;
}

pub holds-remove_task :
    (k : Kind) (i j : ℕ) (s : SyncerState)
    → holds k j (remove_task k i s) ≡ ite (ℕ_discrete i j) false (holds k j s)
unfolding remove_task remove_address remove_transaction remove_height remove_sweep_address
holds-remove_task address_tasks i j s = contains_key-remove j i s.addresses
holds-remove_task transaction_tasks i j s = contains_key-remove j i s.transactions
holds-remove_task height_tasks i j s = contains_key-remove j i s.watch_height
holds-remove_task sweep_tasks i j s = contains_key-remove j i s.sweep_addresses

pub tasks_sources-remove_task :
    (k : Kind) (i j : ℕ) (s : SyncerState)
    → contains_key j (remove_task k i s).tasks_sources
      ≡ ite (ℕ_discrete i j) false (contains_key j s.tasks_sources)
unfolding remove_task remove_address remove_transaction remove_height remove_sweep_address
tasks_sources-remove_task address_tasks i j s = contains_key-remove j i s.tasks_sources
tasks_sources-remove_task transaction_tasks i j s = contains_key-remove j i s.tasks_sources
tasks_sources-remove_task height_tasks i j s = contains_key-remove j i s.tasks_sources
tasks_sources-remove_task sweep_tasks i j s = contains_key-remove j i s.tasks_sources

-- Each id of the list stands for a task of the kind, or has gone with its source.
abbrev AllKeys : (ℕ → Type 0) → List (ℕ × ℕ) → Type 0
AllKeys P [] = Unit
AllKeys P ((i, _) ∷ ids) = P i × AllKeys P ids

abbrev Listed : Kind → SyncerState → List (ℕ × ℕ) → Type 0
Listed k s = AllKeys (λ i. (holds k i s ≡ true) ⊎ (contains_key i s.tasks_sources ≡ false))

Listed-remove_task :
    (k : Kind) (i : ℕ) (s : SyncerState) (ids : List (ℕ × ℕ))
    → Listed k s ids
    → Listed k (remove_task k i s) ids
Listed-remove_task k i s [] l = tt
Listed-remove_task k i s ((j, _) ∷ ids) l = (
  ground (arith, l.0, holds-remove_task k i j s, tasks_sources-remove_task k i j s),
  Listed-remove_task k i s ids l.1,
)

source_of_is_source :
    (source : ServiceId) (i : ℕ) (m : List (ℕ × ServiceId))
    → is_source source (lookup i m) ≡ true
    → contains_key i m ≡ true
unfolding is_source
source_of_is_source source i m h = elim (Option-cases (lookup i m)) [
  | inl e ↦ cc e
  | inr (a, e) ↦ contains_key_of_lookup i m a e
]

pub abort_each-Inv :
    (k : Kind) (source : ServiceId) (ids : List (ℕ × ℕ)) (s : SyncerState) {n : ℕ}
    → Inv n s
    → Listed k s ids
    → Inv n (abort_each k source ids s).1
unfolding abort_each
abort_each-Inv k source [] s v l = v
abort_each-Inv k source ((i, found) ∷ ids) s v l =
    elim (Bool-cases (is_source source (lookup i s.tasks_sources))) [
      | inl e ↦ rw e (
          abort_each-Inv k source ids (remove_task k i s)
            (remove_task-Inv k i s v (ground (arith, l.0, source_of_is_source source i _ e)))
            (Listed-remove_task k i s ids l.1))
      | inr e ↦ rw e (abort_each-Inv k source ids s v l.1)
    ]

AllKeys-targeted :
    {V : Type 0} (P : ℕ → Type 0) (target : TaskTarget) (id_of : V → ℕ) (m : List (ℕ × V))
    → ((i : ℕ) → contains_key i m ≡ true → P i)
    → AllKeys P (targeted target id_of m)
unfolding targeted contains_key
AllKeys-targeted P target id_of [] h = tt
AllKeys-targeted P target id_of ((id, v) ∷ m) h = elim (Bool-cases (is_target target (id_of v))) [
  | inl e ↦
      rw e (h id (ground arith), AllKeys-targeted P target id_of m (λ i c. h i (ground arith)))
  | inr e ↦ rw e (AllKeys-targeted P target id_of m (λ i c. h i (ground arith)))
]

ids_of-Listed : (target : TaskTarget) (k : Kind) (s : SyncerState) → Listed k s (ids_of target k s)
unfolding ids_of
ids_of-Listed target address_tasks s = AllKeys-targeted _ target _ s.addresses (λ i c. inl c)
ids_of-Listed target transaction_tasks s = AllKeys-targeted _ target _ s.transactions (λ i c. inl c)
ids_of-Listed target height_tasks s = AllKeys-targeted _ target _ s.watch_height (λ i c. inl c)
ids_of-Listed target sweep_tasks s = AllKeys-targeted _ target _ s.sweep_addresses (λ i c. inl c)

abort_pass-Inv :
    (target : TaskTarget) (source : ServiceId) (k : Kind) (s : SyncerState) {n : ℕ}
    → Inv n s
    → Inv n (abort_pass target source k s).1
unfolding abort_pass
abort_pass-Inv target source k s v =
    abort_each-Inv k source (ids_of target k s) s v (ids_of-Listed target k s)

abort_passes-Inv :
    (target : TaskTarget) (source : ServiceId) (s : SyncerState) {n : ℕ}
    → Inv n s
    → Inv n (abort_passes target source s).1
unfolding abort_passes
abort_passes-Inv target source s v = abort_pass-Inv target source sweep_tasks _ (
    abort_pass-Inv target source height_tasks _ (
      abort_pass-Inv target source transaction_tasks _
        (abort_pass-Inv target source address_tasks s v)))

answer-Inv :
    (ids : List ℕ) (source : ServiceId) (respond : Bool) (s : SyncerState) {n : ℕ}
    → Inv n s
    → Inv n (answer ids source respond s)
unfolding answer
answer-Inv [] source respond s v = record {
  sourced = v.sourced;
  fresh = v.fresh;
  counted = v.counted;
}
answer-Inv (i ∷ ids) source true s v = record {
  sourced = v.sourced;
  fresh = v.fresh;
  counted = v.counted;
}
answer-Inv (i ∷ ids) source false s v = v

pub abort-Inv :
    (target : TaskTarget) (source : ServiceId) (respond : Bool) (s : SyncerState) {n : ℕ}
    → Inv n s
    → Inv n (abort target source respond s)
unfolding abort
abort-Inv target source respond s v =
    answer-Inv _ source respond _ (abort_passes-Inv target source s v)
