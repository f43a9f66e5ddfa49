-- ===== src/Databased/Checkpoints.antt =====
-- A checkpoint from `CtlMsg::Checkpoint` to `CtlMsg::RestoreCheckpoint` of src/databased/runtime.rs.
use farcaster_node.Base.{◌≡◌, refl, ap, ◌∙◌, true, ◌∷◌, some, Result, ok, err}
use farcaster_node.Bus.{Bytes, ServiceId, swap}
use farcaster_node.Databased.Store.{
  checkpoints, Format, CheckpointKey, CheckpointSwapd, CheckpointEntry, set_checkpoint_state,
  get_checkpoint_state, set_checkpoint_info,
}
use farcaster_node.Databased.Contents.{Contents, replace-holds, find-holds}
use farcaster_node.Databased.Runtime.{
  World, Env, Exec, ◌>>=◌, continue, checkpoint, restore_checkpoint, checkpoint_state, sent, read,
  write, stored, or_error, done, fail, send_to, send_restored, swap_key, set_checkpoint, restore,
  handle_ctl, decoded, entry_of,
}

-- `strict_decode` gives back the value that `strict_encode` encoded.
abbrev pub RoundTrip : {A : Type 0} → Format A → A → Type 0
RoundTrip f a = (b : Bytes) → f.encode a ≡ ok b → f.decode b ≡ ok a

module _ {S : Type 0} where
  pub bind-done :
      {A B : Type 0} (m : Exec S A) (f : A → Exec S B) (w w' : World S) (b : B)
      → (m >>= f) w ≡ (ok b, w')
      → (a : A) × (v : World S) × (m w ≡ (ok a, v)) × (f a v ≡ (ok b, w'))
  unfolding ◌>>=◌ continue
  bind-done {A} {B} m f w w' b e = go (m w) refl e
    where
      go :
          (r : Result A × World S)
          → m w ≡ r
          → continue r.0 f r.1 ≡ (ok b, w')
          → (a : A) × (v : World S) × (m w ≡ (ok a, v)) × (f a v ≡ (ok b, w'))
      go (ok a, v) p q = (a, v, p, q)
      go (err, v) p q = let z = ap (λ x. x.0) q in cc

  pub write-done :
      (set : S → Result S) (w w' : World S)
      → write set w ≡ (ok tt, w')
      → set w.database ≡ ok w'.database
  unfolding write stored
  write-done set w w' e = go (set w.database) refl e
    where
      go :
          (r : Result S)
          → set w.database ≡ r
          → stored r w ≡ (ok tt, w')
          → set w.database ≡ ok w'.database
      go (ok s) p q = p ∙ ap (λ x. ok x.1.database) q
      go err p q = let z = ap (λ x. x.0) q in cc

  pub or_error-done :
      {A : Type 0} (r : Result A) (a : A) (w w' : World S) → or_error r w ≡ (ok a, w') → r ≡ ok a
  unfolding or_error done fail
  or_error-done (ok b) a w w' e = ap (λ x. x.0) e
  or_error-done err a w w' e = let z = ap (λ x. x.0) e in cc

  pub read-done :
      {A B : Type 0} (get : S → Result A) (f : A → Exec S B) (w w' : World S) (b : B)
      → (read get >>= λ r. or_error r >>= f) w ≡ (ok b, w')
      → (a : A) × (get w.database ≡ ok a) × (f a w ≡ (ok b, w'))
  unfolding ◌>>=◌ continue read or_error done fail
  read-done {A} get f w w' b e = go (get w.database) refl e
    where
      go :
          (r : Result A)
          → get w.database ≡ r
          → (or_error r >>= f) w ≡ (ok b, w')
          → (a : A) × (get w.database ≡ ok a) × (f a w ≡ (ok b, w'))
      go (ok a) p q = (a, p, q)
      go err p q = let z = ap (λ x. x.0) q in cc

module _ {S : Type 0} (env : Env S) (c : Contents env.lmdb) where
  -- What the store holds after a checkpoint: the encoded state, under the encoded key.
  set_checkpoint-holds :
      (source : ServiceId) (swap_id : Bytes) (state : CheckpointSwapd) (w w' : World S)
      → handle_ctl env source (checkpoint swap_id state) w ≡ (ok tt, w')
      → (k : Bytes) × (raw : Bytes) × (env.formats.checkpoint_key.encode
            (record { swap_id = swap_id; service_id = source })
          ≡ ok k)
        × (env.formats.checkpoint_state.encode state ≡ ok raw)
        × (c.holds w'.database checkpoints k ≡ some raw)
  unfolding handle_ctl set_checkpoint set_checkpoint_state
  set_checkpoint-holds source swap_id state w w' e =
      let encoded = env.formats.checkpoint_state.encode state in
      let key : CheckpointKey = record { swap_id = swap_id; service_id = source } in
      let put = λ (raw : Bytes). write (set_checkpoint_state env.lmdb env.formats key raw) in
      let (_, w1, _, e1) =
        bind-done
          (write (set_checkpoint_info env.lmdb env.formats swap_id (entry_of swap_id state)))
          (λ _. or_error encoded >>= put) w w' tt e in
      let (raw, w2, r, e2) = bind-done (or_error encoded) put w1 w' tt e1 in
      let (k, v, is_key, is_val, held, _) =
        replace-holds env.lmdb c checkpoints (env.formats.checkpoint_key.encode key) (ok raw)
          w2.database w'.database
          (write-done (set_checkpoint_state env.lmdb env.formats key raw) w2 w' e2) in
      (k, raw, is_key, or_error-done _ raw w1 w2 r, cc)

  -- After a checkpoint that the database set without an error, a request to restore it sends the same
  -- state back to the swap, if decoding inverts the encoding of the state, the transaction begins and
  -- the bus delivers.
  pub checkpoint-restored :
      (swap_id : Bytes) (state : CheckpointSwapd) (w w' : World S)
      → RoundTrip env.formats.checkpoint_state state
      → handle_ctl env (swap swap_id) (checkpoint swap_id state) w ≡ (ok tt, w')
      → (source : ServiceId) (entry : CheckpointEntry) → entry.swap_id ≡ swap_id
      → (tx : S) → env.lmdb.begin checkpoints w'.database ≡ ok tx
      → env.delivers w'.trace (swap swap_id) (checkpoint_state swap_id state) ≡ true
      → handle_ctl env source (restore_checkpoint entry) w' ≡ (
        ok tt,
        record w' { trace = sent (swap swap_id) (checkpoint_state swap_id state) ∷ w'.trace },
      )
  unfolding handle_ctl restore get_checkpoint_state ◌>>=◌ continue read swap_key decoded
      send_restored send_to
  checkpoint-restored swap_id state w w' trip e source entry same_id tx b d =
      let (k, raw, is_key, is_raw, held) =
        set_checkpoint-holds (swap swap_id) swap_id state w w' e in
      let f = find-holds env.lmdb c checkpoints _ k raw w'.database tx b is_key held in
      rw same_id (rw f (rw (trip raw is_raw) (rw d refl)))
