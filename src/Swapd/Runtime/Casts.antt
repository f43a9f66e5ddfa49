-- ===== src/Swapd/Runtime/Casts.antt =====
-- Rules for the code on the runtime of a swap (src/swapd/runtime.rs) about what it broadcasts: one
-- for each way to build code that broadcasts nothing, and one transaction at most.
use farcaster_node.Base.{
  ℕ, ◌≡◌, refl, ◌∙◌, Bool, true, false, Option, none, some, List, [], ◌∷◌, ◌++◌, inl, inr,
  if◌then◌else◌, Bool-cases,
}
use farcaster_node.Bus.{Bytes, Blockchain, bitcoin, monero, ServiceId, database}
use farcaster_node.Syncerd.Types.{Task}
use farcaster_node.Swapd.SyncerClient.{TxLabel, SyncerState}
use farcaster_node.Swapd.Messages.{checkpoint, Message, PeerMsg, State}
use farcaster_node.Swapd.Runtime.Plain.{
  Broadcast, logged, handed, given, broadcasts, IsPlain, IsPlainTask, given-IsPlain,
  plain_checkpoint, plain_progress, plain_secret, plain_rules,
}
use farcaster_node.Swapd.Runtime.{
  Runtime, World, Env, Result, ok, err, Exec, done, fail, lift, gets, on_syncer, modify, guarded,
  confirmed, continue, ◌>>=◌, try_send, or_error, send_to, send_bitcoin, send_monero,
  complete_client, keep_unsent, send_peer, watch_height, watch_bitcoin_fee, send_if_any,
  to_enquirer, report_progress_message, ignore_send, checkpoint_state, store_keys,
}

pub record Quiet {A : Type 0} (m : Exec A) : Type 0 where
  pub quiet : (w : World) → broadcasts (m w).1.trace ≡ broadcasts w.trace

-- A task to broadcast `tx` is handed to one service, or to none.
pub data IsHanded (tx : Bytes) : List Broadcast → Type 0 where
  not_handed : IsHanded tx []
  handed_to : (dest : ServiceId) → IsHanded tx (handed dest tx ∷ [])

-- Nothing is broadcast from `w`, or one transaction whose label satisfies `P`: one log line, and one
-- task at most, with the transaction of that line.
pub data Casts (P : TxLabel → Type 0) {A : Type 0} (m : Exec A) (w : World) : Type 0 where
  silent : broadcasts (m w).1.trace ≡ broadcasts w.trace → Casts P m w
  cast :
      (l : TxLabel) (tx : Bytes) (out : List Broadcast)
      → P l
      → IsHanded tx out
      → broadcasts (m w).1.trace ≡ out ++ (logged l tx ∷ broadcasts w.trace)
      → Casts P m w

module _ {A : Type 0} where
  pub Quiet-done : (a : A) → Quiet (done a)
  unfolding done
  Quiet-done a = record { quiet = λ w. refl }

  pub Quiet-fail : Quiet (fail {A = A})
  unfolding fail
  Quiet-fail = record { quiet = λ w. refl }

  pub Quiet-lift : (o : Option A) → Quiet (lift o)
  unfolding lift
  Quiet-lift none = record { quiet = λ w. refl }
  Quiet-lift (some a) = record { quiet = λ w. refl }

  pub Quiet-gets : (f : Runtime → A) → Quiet (gets f)
  unfolding gets
  Quiet-gets f = record { quiet = λ w. refl }

  pub Quiet-on_syncer : (f : SyncerState → A × SyncerState) → Quiet (on_syncer f)
  unfolding on_syncer
  Quiet-on_syncer f = record { quiet = λ w. refl }

  pub Quiet-if : (b : Bool) (m n : Exec A) → Quiet m → Quiet n → Quiet (if b then m else n)
  Quiet-if true m n p q = p
  Quiet-if false m n p q = q

  pub Quiet-guarded :
      (test : Runtime → Bool) (m n : Exec A) → Quiet m → Quiet n → Quiet (guarded test m n)
  unfolding guarded
  Quiet-guarded test m n p q = record {
    quiet = λ w. elim (Bool-cases (test w.runtime)) [
      | inl e ↦ rw e (p.quiet w)
      | inr e ↦ rw e (q.quiet w)
    ];
  }

  pub Quiet-confirmed :
      (o : Option ℕ) (test : ℕ → Runtime → Bool) (m : ℕ → Exec A) (n : Exec A)
      → ((c : ℕ) → Quiet (m c))
      → Quiet n
      → Quiet (confirmed o test m n)
  unfolding confirmed
  Quiet-confirmed none test m n p q = q
  Quiet-confirmed (some c) test m n p q = Quiet-guarded (test c) (m c) n (p c) q

pub Quiet-modify : (f : Runtime → Runtime) → Quiet (modify f)
unfolding modify
Quiet-modify f = record { quiet = λ w. refl }

pub Quiet-bind :
    {A B : Type 0} (m : Exec A) (f : A → Exec B)
    → Quiet m
    → ((a : A) → Quiet (f a))
    → Quiet (m >>= f)
unfolding ◌>>=◌
Quiet-bind m f p q = record { quiet = λ w. go (m w) ∙ p.quiet w }
  where
    go : (r : Result _ × World) → broadcasts (continue r.0 f r.1).1.trace ≡ broadcasts r.1.trace
    go (ok a, w) = (q a).quiet w
    go (err, w) = refl

-- A task that the client makes is sent only if it is plain.
pub Quiet-tasked :
    {B : Type 0} (f : SyncerState → Task × SyncerState) (g : Task → Exec B)
    → ((s : SyncerState) → IsPlainTask (f s).0)
    → ((t : Task) → IsPlainTask t → Quiet (g t))
    → Quiet (on_syncer f >>= g)
unfolding ◌>>=◌ on_syncer
Quiet-tasked f g p q = record {
  quiet = λ w.
      (q (f w.runtime.syncer_state).0 (p w.runtime.syncer_state)).quiet
        (record w { runtime = record (w.runtime) { syncer_state = (f w.runtime.syncer_state).1 } });
}

pub Quiet-try_send :
    (env : Env) (dest : ServiceId) (m : Message) → IsPlain m → Quiet (try_send env dest m)
unfolding try_send
Quiet-try_send env dest m plain = record {
  quiet = λ w. elim (Bool-cases (env.delivers w.trace dest m)) [
    | inl e ↦ rw e (given-IsPlain dest m (broadcasts w.trace) plain)
    | inr e ↦ rw e refl
  ];
}

pub ruleset quiet_rules = (
  Quiet-done, Quiet-fail, Quiet-lift, Quiet-gets, Quiet-on_syncer, Quiet-if, Quiet-guarded,
  Quiet-confirmed, Quiet-modify, Quiet-tasked, Quiet-bind, Quiet-try_send, plain_rules,
)

module _ (env : Env) where
  pub Quiet-or_error : (sent : Bool) → Quiet (or_error env sent)
  unfolding or_error
  Quiet-or_error true = search (quiet_rules) depth 20
  Quiet-or_error false = search (quiet_rules) depth 20

  pub Quiet-send_to : (dest : ServiceId) (m : Message) → IsPlain m → Quiet (send_to env dest m)
  unfolding send_to
  Quiet-send_to dest m plain = search (quiet_rules, Quiet-or_error) depth 20

  pub Quiet-complete_client :
      (dest : ServiceId) (m : Message) → IsPlain m → Quiet (complete_client env dest m)
  unfolding complete_client
  Quiet-complete_client dest m plain = Quiet-send_to _ m plain

  pub Quiet-send_bitcoin : (t : Task) → IsPlainTask t → Quiet (send_bitcoin env t)
  unfolding send_bitcoin
  Quiet-send_bitcoin t plain = search (quiet_rules, Quiet-send_to) depth 20

  pub Quiet-send_monero : (t : Task) → IsPlainTask t → Quiet (send_monero env t)
  unfolding send_monero
  Quiet-send_monero t plain = search (quiet_rules, Quiet-send_to) depth 20

  pub Quiet-keep_unsent : (sent : Bool) (m : PeerMsg) → Quiet (keep_unsent env sent m)
  unfolding keep_unsent
  Quiet-keep_unsent true m = search (quiet_rules) depth 20
  Quiet-keep_unsent false m = search (quiet_rules, Quiet-send_to) depth 20

  pub Quiet-send_peer : (m : PeerMsg) → Quiet (send_peer env m)
  unfolding send_peer
  Quiet-send_peer m = search (quiet_rules, Quiet-keep_unsent) depth 20

  pub Quiet-watch_height : (b : Blockchain) → Quiet (watch_height env b)
  unfolding watch_height
  Quiet-watch_height bitcoin = search (quiet_rules, Quiet-send_bitcoin) depth 20
  Quiet-watch_height monero = search (quiet_rules, Quiet-send_monero) depth 20

  pub Quiet-watch_bitcoin_fee : Quiet (watch_bitcoin_fee env)
  unfolding watch_bitcoin_fee
  Quiet-watch_bitcoin_fee = search (quiet_rules, Quiet-send_bitcoin) depth 20

  pub Quiet-send_if_any :
      (d : Option ServiceId) (m : Message) → IsPlain m → Quiet (send_if_any env d m)
  unfolding send_if_any
  Quiet-send_if_any none m plain = search (quiet_rules) depth 20
  Quiet-send_if_any (some d) m plain = search (quiet_rules, Quiet-send_to) depth 20

  pub Quiet-to_enquirer : (m : Message) → IsPlain m → Quiet (to_enquirer env m)
  unfolding to_enquirer
  Quiet-to_enquirer m plain = search (quiet_rules, Quiet-send_if_any) depth 20

  pub Quiet-report_progress_message : Quiet (report_progress_message env)
  unfolding report_progress_message
  Quiet-report_progress_message = Quiet-to_enquirer _ plain_progress

  pub Quiet-ignore_send :
      (d : Option ServiceId) (m : Message) → IsPlain m → Quiet (ignore_send env d m)
  unfolding ignore_send
  Quiet-ignore_send none m plain = search (quiet_rules) depth 20
  Quiet-ignore_send (some d) m plain = search (quiet_rules) depth 20

  pub Quiet-checkpoint_state : (m : Option PeerMsg) (s : State) → Quiet (checkpoint_state env m s)
  unfolding checkpoint_state ◌>>=◌ gets
  Quiet-checkpoint_state m s = record {
    quiet = λ w. (Quiet-send_to database (checkpoint _) plain_checkpoint).quiet w;
  }

  pub Quiet-store_keys : (ks : List Bytes) → Quiet (store_keys env ks)
  unfolding store_keys
  Quiet-store_keys [] = search (quiet_rules) depth 20
  Quiet-store_keys (k ∷ ks) =
      let rest = Quiet-store_keys ks in Quiet-bind _ _ (Quiet-send_to _ _ plain_secret) (λ _. rest)

pub ruleset quiet_calls = (
  Quiet-send_to, Quiet-complete_client, Quiet-send_bitcoin, Quiet-send_monero, Quiet-send_peer,
  Quiet-watch_height, Quiet-watch_bitcoin_fee, Quiet-to_enquirer, Quiet-report_progress_message,
  Quiet-ignore_send, Quiet-checkpoint_state, Quiet-store_keys,
)
