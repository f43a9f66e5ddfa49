-- ===== src/Farcasterd/SyncerStateMachine/Ends.antt =====
-- How a request to a syncer ends, in src/farcasterd/syncer_state_machine.rs.
use farcaster_node.Base.{
  ℕ, ℕ_eq, [], ◌∷◌, if◌then◌else◌, same, ◌≡◌, refl, ap, Option, none, some, Result, ok, err, if_pos,
  if_neg, eq_dec,
}
use farcaster_node.Bus.{ServiceId, ServiceId_eq}
use farcaster_node.Syncerd.Types.{
  Event, sweep_success, address_balance, task_aborted, health_result,
}
use farcaster_node.Farcasterd.Runtime.{
  awaiting_syncer_request, AwaitingSyncerRequest, Message, World, Env, done, ◌>>=◌, send_client,
}
use farcaster_node.Farcasterd.SyncerStateMachine.{
  Request, hello, sync_event, sweep_address, get_balance, health_check, other_request, answer,
  answer_of, conclude, attempt_transition_to_end, next,
}

-- The event that answers tell of the task with a given id; an abort tells of one task only if it lists
-- one.
unfoldable pub IsAbout : ℕ → Event → Type 0
IsAbout id (sweep_success i _) = i ≡ id
IsAbout id (address_balance i _ _ _) = i ≡ id
IsAbout id (task_aborted ids _) = ids ≡ id ∷ []
IsAbout id (health_result i _) = i ≡ id
IsAbout id _ = ⊥

module _ (env : Env) where
  when_same : (i id : ℕ) (m n : Message) → (if same i id then some m else none) ≡ some n → i ≡ id
  when_same i id m n h = elim (eq_dec i id) [
    | yes p ↦ p
    | no p ↦ let z = rw (if_neg (eq_dec i id) p) at h in cc
  ]

  answer-IsAbout : (id : ℕ) (e : Event) (m : Message) → answer env id e ≡ some m → IsAbout id e
  unfolding answer IsAbout
  answer-IsAbout id (sweep_success i _) m h = when_same i id _ m h
  answer-IsAbout id (address_balance i _ _ _) m h = when_same i id _ m h
  answer-IsAbout id (task_aborted [] _) m h = cc
  answer-IsAbout id (task_aborted (i ∷ []) _) m h = ap (λ x. x ∷ []) (when_same i id _ m h)
  answer-IsAbout id (task_aborted (i ∷ j ∷ js) _) m h = cc
  answer-IsAbout id (health_result i _) m h = when_same i id _ m h
  answer-IsAbout id _ m h = cc

-- The event that ended a request, which is of the syncer and about the task of the request, its answer,
-- and that it was sent to the client.
pub record Answered (env : Env) (a : AwaitingSyncerRequest) (source : ServiceId) (q : Request)
    (w : World) : Type 0 where
  pub event : Event
  pub message : Message
  pub after : World
  pub from_syncer : a.syncer ≡ source
  pub is_event : q ≡ sync_event event
  pub is_about : IsAbout a.syncer_task_id event
  pub is_answer : answer env a.syncer_task_id event ≡ some message
  pub sent : send_client env a.source message w ≡ (ok tt, after)

module _ (env : Env) (a : AwaitingSyncerRequest) (source : ServiceId) (w w' : World) where
  conclude-sent :
      (o : Option Message)
      → conclude env source a o w ≡ (ok none, w')
      → (m : Message) × (after : World) × (o ≡ some m)
        × (send_client env a.source m w ≡ (ok tt, after))
  unfolding conclude ◌>>=◌ done
  conclude-sent none e = let z = ap (λ x. x.0) e in cc
  conclude-sent (some m) e = go (send_client env a.source m w) refl
    where
      go :
          (r : Result (Unit {0}) × World)
          → send_client env a.source m w ≡ r
          → (n : Message) × (after : World) × (some m ≡ some n)
            × (send_client env a.source n w ≡ (ok tt, after))
      go (ok tt, after) f = (m, after, refl, f)
      go (err, after) f = let z = ap (λ x. x.0) (rw f at e) in cc

  answer_of-event :
      (q : Request) (m : Message)
      → answer_of env source q a ≡ some m
      → (event : Event) × (q ≡ sync_event event)
        × (a.syncer ≡ source)
        × (answer env a.syncer_task_id event ≡ some m)
  unfolding answer_of
  answer_of-event (sync_event e) m h = elim (eq_dec a.syncer source) [
    | yes p ↦ (e, refl, p, rw (if_pos (eq_dec a.syncer source) p) at h)
    | no p ↦ let z = rw (if_neg (eq_dec a.syncer source) p) at h in cc
  ]
  answer_of-event (sweep_address _) m h = cc
  answer_of-event (get_balance _) m h = cc
  answer_of-event (health_check _ _) m h = cc
  answer_of-event hello m h = cc
  answer_of-event other_request m h = cc

-- A waiting request ends only by an event of its own syncer about its own task, and only after the
-- answer to that event was sent to the client of the request.
pub request-Answered :
    (env : Env) (a : AwaitingSyncerRequest) (source : ServiceId) (q : Request) (w w' : World)
    → next env (awaiting_syncer_request a) source q w ≡ (ok none, w')
    → Answered env a source q w
unfolding next attempt_transition_to_end
request-Answered env a source q w w' e =
    let (m, after, f, sent) = conclude-sent env a source w w' (answer_of env source q a) e in
    let (event, is_event, from_syncer, is_answer) = answer_of-event env a source w w' q m f in
    record {
      event = event;
      message = m;
      after = after;
      from_syncer = from_syncer;
      is_event = is_event;
      is_about = answer-IsAbout env a.syncer_task_id event m is_answer;
      is_answer = is_answer;
      sent = sent;
    }
