-- ===== src/Syncerd/State/Abort.antt =====
-- `SyncerState::abort` of src/syncerd/syncer_state.rs. The code repeats one pass for each kind of
-- task; here a pass takes the kind.
use farcaster_node.Base.{
  ℕ, Bool, true, false, Option, none, some, List, [], ◌∷◌, ◌++◌, if◌then◌else◌, ◌==◌, lookup, same,
  ℕ_eq,
}
use farcaster_node.Bus.{ServiceId, ServiceId_eq}
use farcaster_node.Syncerd.Types.{TaskTarget, task_id, all_tasks, task_aborted, abort_failed}
use farcaster_node.Syncerd.State.{
  SyncerState, send_event, to, remove_address, remove_transaction, remove_height,
  remove_sweep_address,
}

-- The order of the passes.
pub data Kind : Type 0 where
  address_tasks transaction_tasks height_tasks sweep_tasks : Kind

unfoldable pub is_target : TaskTarget → ℕ → Bool
is_target all_tasks id = true
is_target (task_id t) id = id == t

-- The internal id and the task id of each targeted task of a map.
unfoldable pub targeted : {V : Type 0} → TaskTarget → (V → ℕ) → List (ℕ × V) → List (ℕ × ℕ)
unfolding is_target
targeted target id_of [] = []
targeted target id_of ((id, v) ∷ m) =
    let rest = targeted target id_of m in
    if is_target target (id_of v) then (id, id_of v) ∷ rest else rest

unfoldable pub ids_of : TaskTarget → Kind → SyncerState → List (ℕ × ℕ)
unfolding targeted
ids_of target address_tasks s = targeted target (λ v. v.task.id) s.addresses
ids_of target transaction_tasks s = targeted target (λ v. v.task.id) s.transactions
ids_of target height_tasks s = targeted target (λ v. v.id) s.watch_height
ids_of target sweep_tasks s = targeted target (λ v. v.id) s.sweep_addresses

unfoldable pub remove_task : Kind → ℕ → SyncerState → SyncerState
remove_task address_tasks = remove_address
remove_task transaction_tasks = remove_transaction
remove_task height_tasks = remove_height
remove_task sweep_tasks = remove_sweep_address

unfoldable pub is_source : ServiceId → Option ServiceId → Bool
is_source source none = false
is_source source (some source_id) = same source_id source

-- Removes those tasks of the list that the source gave, and collects their task ids.
unfoldable pub abort_each : Kind → ServiceId → List (ℕ × ℕ) → SyncerState → List ℕ × SyncerState
unfolding is_source
abort_each k source [] s = ([], s)
abort_each k source ((id, found) ∷ ids) s =
    let mine = is_source source (lookup id s.tasks_sources) in
    let (aborted, t) = abort_each k source ids (if mine then remove_task k id s else s) in
    (if mine then found ∷ aborted else aborted, t)

unfoldable pub abort_pass : TaskTarget → ServiceId → Kind → SyncerState → List ℕ × SyncerState
abort_pass target source k s = abort_each k source (ids_of target k s) s

unfoldable pub abort_passes : TaskTarget → ServiceId → SyncerState → List ℕ × SyncerState
abort_passes target source s =
    let (a, s1) = abort_pass target source address_tasks s in
    let (b, s2) = abort_pass target source transaction_tasks s1 in
    let (c, s3) = abort_pass target source height_tasks s2 in
    let (d, s4) = abort_pass target source sweep_tasks s3 in (a ++ (b ++ (c ++ d)), s4)

unfoldable pub answer : List ℕ → ServiceId → Bool → SyncerState → SyncerState
answer [] source respond s =
    send_event (to source (task_aborted [] (some (abort_failed source))) ∷ []) s
answer (i ∷ ids) source respond s =
    if respond then send_event (to source (task_aborted (i ∷ ids) none) ∷ []) s else s

unfoldable pub abort : TaskTarget → ServiceId → Bool → SyncerState → SyncerState
unfolding answer
abort target source respond s =
    let (aborted_ids, t) = abort_passes target source s in answer aborted_ids source respond t
