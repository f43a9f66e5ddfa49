-- ===== src/Farcasterd/Runtime/CleanUp.antt =====
-- `syncer_up` and `clean_up_after_syncer_usage` of src/farcasterd/runtime.rs.
use farcaster_node.Base.{
  ◌≡◌, refl, Bool, true, List, [], ◌∷◌, inl, inr, Bool-cases, if◌then◌else◌, ok, member, arith,
}
use farcaster_node.Bus.{ServiceId, ServiceId_eq}
use farcaster_node.Farcasterd.Runtime.{
  Runtime, World, Env, Effect, terminate, send, done, gets, modify, ◌>>=◌, try_send, keep_service,
  filter_services, clean_up_after_syncer_usage, syncer_has_client, is_syncer,
}

-- Whether a service is no syncer without a client.
abbrev pub wanted : Runtime → ServiceId → Bool
wanted r s = if is_syncer s then syncer_has_client r s else true

abbrev pub wanted_of : Runtime → List ServiceId → List ServiceId
wanted_of r [] = []
wanted_of r (s ∷ ss) = let rest = wanted_of r ss in if wanted r s then s ∷ rest else rest

-- The messages to the syncers that are not wanted, after what was done before.
abbrev pub terminated : Runtime → List ServiceId → List Effect → List Effect
terminated r [] trace = trace
terminated r (s ∷ ss) trace =
    let later = terminated r ss (send s terminate ∷ trace) in
    let same = terminated r ss trace in if wanted r s then same else later

filter_services-wanted :
    (env : Env) (ss : List ServiceId) (w : World)
    → ((trace : List Effect) (s : ServiceId) → env.delivers trace s terminate ≡ true)
    → filter_services env ss w
      ≡ (ok (wanted_of w.runtime ss), record w { trace = terminated w.runtime ss w.trace })
unfolding filter_services keep_service ◌>>=◌ gets done try_send
filter_services-wanted env [] w h = refl
filter_services-wanted env (s ∷ ss) w h = elim (Bool-cases (is_syncer s)) [
  | inl e ↦ elim (Bool-cases (syncer_has_client w.runtime s)) [
    | inl f ↦ rw e (rw f (rw (filter_services-wanted env ss w h) refl))
    | inr f ↦ rw e (
        rw f (
          rw (h w.trace s) (
            rw (filter_services-wanted env ss (record w { trace = send s terminate ∷ w.trace }) h)
              refl)))
  ]
  | inr e ↦ rw e (rw (filter_services-wanted env ss w h) refl)
]

wanted_of-wanted :
    (r : Runtime) (s : ServiceId) (ss : List ServiceId)
    → member s (wanted_of r ss) ≡ true
    → wanted r s ≡ true
unfolding member
wanted_of-wanted r s [] h = cc
wanted_of-wanted r s (t ∷ ss) h = ground (arith, wanted_of-wanted r s ss)

-- On a bus that delivers the requests to terminate, the cleaning up returns, and after it every
-- syncer that is still registered has a client: a trade or a waiting request uses it.
pub clean_up-has_client :
    (env : Env) (w : World)
    → ((trace : List Effect) (s : ServiceId) → env.delivers trace s terminate ≡ true)
    → ((clean_up_after_syncer_usage env w).0 ≡ ok tt)
      × ((s : ServiceId)
          → member s (clean_up_after_syncer_usage env w).1.runtime.registered_services ≡ true
          → is_syncer s ≡ true
          → syncer_has_client w.runtime s ≡ true)
unfolding clean_up_after_syncer_usage ◌>>=◌ gets modify
clean_up-has_client env w h =
    let e = filter_services-wanted env w.runtime.registered_services w h in
    (rw e refl, λ s m k. has_client s (rw e at m) k)
  where
    has_client :
        (s : ServiceId)
        → member s (wanted_of w.runtime w.runtime.registered_services) ≡ true
        → is_syncer s ≡ true
        → syncer_has_client w.runtime s ≡ true
    has_client s m k = rw k at (wanted_of-wanted w.runtime s w.runtime.registered_services m)
