-- ===== src/Syncerd/State/AbortForeign.antt =====
-- `SyncerState::abort` (src/syncerd/syncer_state.rs) and the tasks of other services.
use farcaster_node.Base.{
  ℕ, ◌≡◌, ◌≢◌, refl, sym, ◌∙◌, Bool, true, false, List, [], ◌∷◌, inl, inr, ap, if_neg, Bool-cases,
  none, some, eq_dec, lookup, lookup-remove, remove, ℕ_eq,
}
use farcaster_node.Bus.{ServiceId, ServiceId_eq, ServiceId-discrete}
use farcaster_node.Syncerd.Types.{TaskTarget}
use farcaster_node.Syncerd.State.{
  SyncerState, remove_address, remove_transaction, remove_height, remove_sweep_address,
}
use farcaster_node.Syncerd.State.Abort.{
  Kind, address_tasks, transaction_tasks, height_tasks, sweep_tasks, ids_of, remove_task, is_source,
  abort_each, abort_pass, abort_passes, answer, abort,
}

-- What is kept of the task with the internal id `i`: its source, and its entry in each of the five maps
-- of tasks.
pub record Same (i : ℕ) (s t : SyncerState) : Type 0 where
  pub source : lookup i t.tasks_sources ≡ lookup i s.tasks_sources
  pub address : lookup i t.addresses ≡ lookup i s.addresses
  pub transaction : lookup i t.transactions ≡ lookup i s.transactions
  pub height : lookup i t.watch_height ≡ lookup i s.watch_height
  pub fee : lookup i t.watch_fee_estimation ≡ lookup i s.watch_fee_estimation
  pub sweep : lookup i t.sweep_addresses ≡ lookup i s.sweep_addresses

Same-refl : (i : ℕ) (s : SyncerState) → Same i s s
Same-refl i s = record {
  source = refl;
  address = refl;
  transaction = refl;
  height = refl;
  fee = refl;
  sweep = refl;
}

Same-trans : (i : ℕ) (s t u : SyncerState) → Same i s t → Same i t u → Same i s u
Same-trans i s t u a b = record {
  source = b.source ∙ a.source;
  address = b.address ∙ a.address;
  transaction = b.transaction ∙ a.transaction;
  height = b.height ∙ a.height;
  fee = b.fee ∙ a.fee;
  sweep = b.sweep ∙ a.sweep;
}

lookup-remove_other :
    {V : Type 0} (i j : ℕ) (m : List (ℕ × V)) → j ≢ i → lookup i (remove j m) ≡ lookup i m
lookup-remove_other i j m h = lookup-remove i j m ∙ if_neg (eq_dec j i) h none (lookup i m)

Same-remove_task : (k : Kind) (i j : ℕ) (s : SyncerState) → j ≢ i → Same i s (remove_task k j s)
unfolding remove_task remove_address remove_transaction remove_height remove_sweep_address
Same-remove_task address_tasks i j s h = record {
  source = lookup-remove_other i j s.tasks_sources h;
  address = lookup-remove_other i j s.addresses h;
  transaction = refl;
  height = refl;
  fee = refl;
  sweep = refl;
}
Same-remove_task transaction_tasks i j s h = record {
  source = lookup-remove_other i j s.tasks_sources h;
  transaction = lookup-remove_other i j s.transactions h;
  address = refl;
  height = refl;
  fee = refl;
  sweep = refl;
}
Same-remove_task height_tasks i j s h = record {
  source = lookup-remove_other i j s.tasks_sources h;
  height = lookup-remove_other i j s.watch_height h;
  address = refl;
  transaction = refl;
  fee = refl;
  sweep = refl;
}
Same-remove_task sweep_tasks i j s h = record {
  source = lookup-remove_other i j s.tasks_sources h;
  fee = refl;
  sweep = lookup-remove_other i j s.sweep_addresses h;
  address = refl;
  transaction = refl;
  height = refl;
}

-- The task with the internal id `i` was not given by `source`.
abbrev Foreign : ServiceId → ℕ → SyncerState → Type 0
Foreign source i s = is_source source (lookup i s.tasks_sources) ≡ false

Foreign-Same :
    (source : ServiceId) (i : ℕ) (s t : SyncerState)
    → Same i s t
    → Foreign source i s
    → Foreign source i t
Foreign-Same source i s t same f = ap (is_source source) (same.source) ∙ f

other_id :
    (source : ServiceId) (i j : ℕ) (s : SyncerState)
    → Foreign source i s
    → is_source source (lookup j s.tasks_sources) ≡ true
    → j ≢ i
other_id source i j s f e = λ same.
    Bool-absurd (sym f ∙ ap (λ k. is_source source (lookup k s.tasks_sources)) (sym same) ∙ e)
  where
    Bool-absurd : false ≡ true → ⊥
    Bool-absurd h = cc h

abort_each-Same :
    (k : Kind) (source : ServiceId) (i : ℕ) (ids : List (ℕ × ℕ)) (s : SyncerState)
    → Foreign source i s
    → Same i s (abort_each k source ids s).1
unfolding abort_each
abort_each-Same k source i [] s f = Same-refl i s
abort_each-Same k source i ((j, found) ∷ ids) s f =
    elim (Bool-cases (is_source source (lookup j s.tasks_sources))) [
      | inl e ↦ rw e (
          let kept = Same-remove_task k i j s (other_id source i j s f e) in
          Same-trans i s (remove_task k j s) _ kept
            (abort_each-Same k source i ids (remove_task k j s) (Foreign-Same source i s _ kept f)))
      | inr e ↦ rw e (abort_each-Same k source i ids s f)
    ]

abort_pass-Same :
    (target : TaskTarget) (source : ServiceId) (k : Kind) (i : ℕ) (s : SyncerState)
    → Foreign source i s
    → Same i s (abort_pass target source k s).1
unfolding abort_pass
abort_pass-Same target source k i s f = abort_each-Same k source i (ids_of target k s) s f

abort_passes-Same :
    (target : TaskTarget) (source : ServiceId) (i : ℕ) (s : SyncerState)
    → Foreign source i s
    → Same i s (abort_passes target source s).1
unfolding abort_passes
abort_passes-Same target source i s f =
    let s1 = (abort_pass target source address_tasks s).1 in
    let s2 = (abort_pass target source transaction_tasks s1).1 in
    let s3 = (abort_pass target source height_tasks s2).1 in
    let k1 = abort_pass-Same target source address_tasks i s f in
    let k2 =
      Same-trans i s s1 s2 k1
        (abort_pass-Same target source transaction_tasks i s1 (Foreign-Same source i s s1 k1 f)) in
    let k3 =
      Same-trans i s s2 s3 k2
        (abort_pass-Same target source height_tasks i s2 (Foreign-Same source i s s2 k2 f)) in
    Same-trans i s s3 _ k3
      (abort_pass-Same target source sweep_tasks i s3 (Foreign-Same source i s s3 k3 f))

answer-Same :
    (ids : List ℕ) (source : ServiceId) (respond : Bool) (i : ℕ) (s t : SyncerState)
    → Same i s t
    → Same i s (answer ids source respond t)
unfolding answer
answer-Same [] source respond i s t k = record {
  source = k.source;
  address = k.address;
  transaction = k.transaction;
  height = k.height;
  fee = k.fee;
  sweep = k.sweep;
}
answer-Same (_ ∷ ids) source true i s t k = record {
  source = k.source;
  address = k.address;
  transaction = k.transaction;
  height = k.height;
  fee = k.fee;
  sweep = k.sweep;
}
answer-Same (_ ∷ ids) source false i s t k = k

-- An abort, of one task or of all, leaves each task of another service as it is: with the source,
-- and the same entries in all five maps of tasks. Its place in the lifetimes is not stated.
pub abort_foreign :
    (target : TaskTarget) (source owner : ServiceId) (respond : Bool) (i : ℕ) (s : SyncerState)
    → lookup i s.tasks_sources ≡ some owner
    → owner ≢ source
    → Same i s (abort target source respond s)
unfolding abort is_source
abort_foreign target source owner respond i s e other = answer-Same _ source respond i s _ (
    abort_passes-Same target source i s
      (ap (is_source source) e ∙ if_neg (ServiceId-discrete owner source) other _ _))
