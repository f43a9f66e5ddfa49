-- ===== src/Farcasterd/Runtime/Launches.antt =====
-- `syncer_up` of src/farcasterd/runtime.rs: the processes that it launches.
use farcaster_node.Base.{
  ◌≡◌, refl, ap, ◌∙◌, Bool, true, false, ◌||◌, inl, inr, ◌⊎◌, Bool-cases, Option-cases, ok, member,
  member-set_insert, set_insert, if_pos, eq_dec,
}
use farcaster_node.Bus.{Bytes, Blockchain, Network, ServiceId, ServiceId_eq, syncer}
use farcaster_node.Farcasterd.Runtime.{
  Runtime, World, Env, done, gets, modify, emit, ◌>>=◌, unavailable, is_known, is_running, launched,
  launch_syncer, syncer_up,
}

syncer_up-known :
    (env : Env) (b : Blockchain) (n : Network) (w : World)
    → is_known (syncer b n) w.runtime ≡ true
    → (syncer_up env b n w).1 ≡ w
unfolding syncer_up ◌>>=◌ gets is_running
syncer_up-known env b n w h = rw h refl

or_true : (a : Bool) → (a || true) ≡ true
or_true true = refl
or_true false = refl

spawning-known :
    (s : ServiceId) (r : Runtime)
    → is_known s (record r { spawning_services = set_insert s r.spawning_services }) ≡ true
unfolding is_known
spawning-known s r =
    ap (λ b. member s r.registered_services || b)
      (member-set_insert s s r.spawning_services ∙ if_pos (eq_dec s s) refl _ _)
    ∙ or_true (member s r.registered_services)

syncer_up-launches :
    (env : Env) (b : Blockchain) (n : Network) (w : World)
    → is_known (syncer b n) w.runtime ≡ false
    → ((text : Bytes) × ((syncer_up env b n w).0 ≡ ok (unavailable text)))
      ⊎ (is_known (syncer b n) (syncer_up env b n w).1.runtime ≡ true)
unfolding syncer_up launch_syncer launched is_running ◌>>=◌ gets modify emit done
syncer_up-launches env b n w h = elim (Bool-cases (env.has_servers n)) [
  | inl e ↦ elim (Option-cases (env.launch_error (syncer b n))) [
    | inl f ↦ inr (rw h (rw e (rw f (spawning-known (syncer b n) w.runtime))))
    | inr (text, f) ↦ inl (text, rw h (rw e (rw f refl)))
  ]
  | inr e ↦ inl (env.invalid_config, rw h (rw e refl))
]

-- Asking for a syncer a second time launches nothing and changes nothing, unless the first time ended
-- in an error: the configuration has no servers for it, or its process did not start.
pub syncer_up-twice :
    (env : Env) (b : Blockchain) (n : Network) (w : World)
    → ((text : Bytes) × ((syncer_up env b n w).0 ≡ ok (unavailable text)))
      ⊎ ((syncer_up env b n (syncer_up env b n w).1).1 ≡ (syncer_up env b n w).1)
syncer_up-twice env b n w = elim (Bool-cases (is_known (syncer b n) w.runtime)) [
  | inl e ↦ inr (
      syncer_up-known env b n _
        (ap (λ v. is_known (syncer b n) v.runtime) (syncer_up-known env b n w e) ∙ e))
  | inr e ↦ elim (syncer_up-launches env b n w e) [
    | inl failure ↦ inl failure
    | inr known ↦ inr (syncer_up-known env b n _ known)
  ]
]
