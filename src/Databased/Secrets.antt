-- ===== src/Databased/Secrets.antt =====
-- What the handlers of src/databased/runtime.rs do to stored secret keys.
use farcaster_node.Base.{
  ◌≡◌, refl, sym, ap, ◌∙◌, inl, Bool, true, false, some, List, [], arith, ◌∷◌, Result, ok, err,
}
use farcaster_node.Bus.{Bytes, ServiceId}
use farcaster_node.Databased.Store.{
  get_checkpoint_state, Table, checkpoints, checkpoint_infos, bitcoin_addresses, monero_addresses,
  deal_history, replace, add, delete, set_deal_status, set_bitcoin_address, set_monero_address,
  set_checkpoint_state, CheckpointSwapd, get_deals, get_all_checkpoint_info, select_in_progress,
  set_checkpoint_info, delete_checkpoint_state, delete_checkpoint_info,
}
use farcaster_node.Databased.Contents.{Contents, replace-holds, add-Grows, delete-holds}
use farcaster_node.Databased.Runtime.{
  decoded, swap_key, CtlMsg, hello, checkpoint, restore_checkpoint, remove_checkpoint,
  set_address_secret_key, bitcoin_key, monero_key, deal_status, clean_dangling_deals, other_ctl,
  World, Env, Exec, ◌>>=◌, done, fail, continue, read, or_error, write, stored, ignore_error, each,
  send_to, send_restored, set_checkpoint, restore, remove_both, end_deal, clean_dangling,
  handle_ctl, decoded,
}

-- The databases of secret keys.
unfoldable pub is_secret : Table → Bool
is_secret bitcoin_addresses = true
is_secret monero_addresses = true
is_secret _ = false

module _ {S : Type 0} (env : Env S) (c : Contents env.lmdb) where
  -- Whatever secret key `s` holds, `s'` holds.
  abbrev pub Keeps : S → S → Type 0
  Keeps s s' =
      (t : Table) (k v : Bytes)
      → is_secret t ≡ true
      → c.holds s t k ≡ some v
      → c.holds s' t k ≡ some v

  unfoldable Kept : {A : Type 0} → Exec S A → Type 0
  Kept m = (w : World S) → Keeps w.database (m w).1.database

  replace-Keeps :
      (t : Table) (key val : Result Bytes) (s s' : S)
      → is_secret t ≡ false
      → replace env.lmdb t key val s ≡ ok s'
      → Keeps s s'
  replace-Keeps t key val s s' plain e u j x secret h =
      let (_, _, _, _, _, only) = replace-holds env.lmdb c t key val s s' e in
      only u j (inl (λ p. let q = sym secret ∙ ap is_secret p ∙ plain in cc)) ∙ h

  delete-Keeps :
      (t : Table) (key : Result Bytes) (s s' : S)
      → is_secret t ≡ false
      → delete env.lmdb t key s ≡ ok s'
      → Keeps s s'
  delete-Keeps t key s s' plain e u j x secret h =
      let (_, _, _, only) = delete-holds env.lmdb c t key s s' e in
      only u j (inl (λ p. let q = sym secret ∙ ap is_secret p ∙ plain in cc)) ∙ h

  write-Kept : (set : S → Result S) → ((s s' : S) → set s ≡ ok s' → Keeps s s') → Kept (write set)
  unfolding Kept write stored
  write-Kept set f w = go (set w.database) refl
    where
      go : (r : Result S) → set w.database ≡ r → Keeps w.database (stored r w).1.database
      go (ok s') e = f w.database s' e
      go err e = λ t k v secret h. h

  module _ {A B : Type 0} where
    bind-Kept : (m : Exec S A) (f : A → Exec S B) → Kept m → ((a : A) → Kept (f a)) → Kept (m >>= f)
    unfolding ◌>>=◌ continue Kept
    bind-Kept m f p q w t k v secret h = go (m w).0 (m w).1 (p w t k v secret h)
      where
        go :
            (r : Result A) (w' : World S)
            → c.holds w'.database t k ≡ some v
            → c.holds (continue r f w').1.database t k ≡ some v
        go (ok a) w' i = q a w' t k v secret i
        go err w' i = i

  done-Kept : {A : Type 0} (a : A) → Kept (done a)
  unfolding Kept done
  done-Kept a w t k v secret h = h

  read-Kept : {A : Type 0} (get : S → Result A) → Kept (read get)
  unfolding Kept read
  read-Kept get w t k v secret h = h

  or_error-Kept : {A : Type 0} (r : Result A) → Kept (or_error r)
  unfolding Kept or_error done fail
  or_error-Kept (ok a) w t k v secret h = h
  or_error-Kept err w t k v secret h = h

  ask-Kept :
      {A B : Type 0} (get : S → Result A) (f : A → Exec S B)
      → ((a : A) → Kept (f a))
      → Kept (read get >>= λ r. or_error r >>= f)
  ask-Kept get f p =
      bind-Kept (read get) _ (read-Kept get) (λ r. bind-Kept (or_error r) f (or_error-Kept r) p)

  ignore_error-Kept : (m : Exec S (Unit {0})) → Kept m → Kept (ignore_error m)
  unfolding Kept ignore_error
  ignore_error-Kept m p = p

  each-Kept :
      {A : Type 0} (f : A → Exec S (Unit {0})) (list : List A)
      → ((a : A) → Kept (f a))
      → Kept (each f list)
  unfolding each
  each-Kept f [] p = done-Kept tt
  each-Kept f (a ∷ rest) p = bind-Kept (f a) (λ _. each f rest) (p a) (λ _. each-Kept f rest p)

  send_restored-Kept :
      (swap_id : Bytes) (r : Result CheckpointSwapd) → Kept (send_restored env swap_id r)
  unfolding Kept send_restored send_to done
  send_restored-Kept swap_id r w t k v secret h = ground arith

  replacing-Kept :
      (t : Table) (key val : Result Bytes)
      → is_secret t ≡ false
      → Kept (write (replace env.lmdb t key val))
  replacing-Kept t key val plain = write-Kept _ (λ s s' e. replace-Keeps t key val s s' plain e)

  adding-Kept : (t : Table) (key val : Result Bytes) → Kept (write (add env.lmdb t key val))
  adding-Kept t key val =
      write-Kept _ (λ s s' e u j x secret. add-Grows env.lmdb c t key val s s' e u j x)

  deleting-Kept :
      (t : Table) (key : Result Bytes)
      → is_secret t ≡ false
      → Kept (ignore_error (write (delete env.lmdb t key)))
  deleting-Kept t key plain =
      ignore_error-Kept _ (write-Kept _ (λ s s' e. delete-Keeps t key s s' plain e))

  end_deal-Kept : (deal : Bytes) → Kept (end_deal env deal)
  unfolding end_deal set_deal_status is_secret
  end_deal-Kept deal = replacing-Kept deal_history _ _ refl

  clean_dangling-Kept : Kept (clean_dangling env)
  unfolding clean_dangling
  clean_dangling-Kept = ask-Kept (get_all_checkpoint_info env.lmdb env.formats) _ (λ infos.
      ask-Kept (get_deals env.lmdb env.formats select_in_progress) _
        (λ pairs. each-Kept _ _ end_deal-Kept))

  handle_ctl-Kept : (source : ServiceId) (m : CtlMsg) → Kept (handle_ctl env source m)
  unfolding handle_ctl set_checkpoint restore remove_both set_deal_status set_bitcoin_address
      set_monero_address set_checkpoint_state set_checkpoint_info delete_checkpoint_state
      delete_checkpoint_info is_secret
  handle_ctl-Kept source hello = done-Kept tt
  handle_ctl-Kept source (checkpoint swap_id state) =
      bind-Kept _ _ (replacing-Kept checkpoint_infos _ _ refl) (λ _.
        bind-Kept _ _ (or_error-Kept (env.formats.checkpoint_state.encode state))
          (λ raw. replacing-Kept checkpoints _ _ refl))
  handle_ctl-Kept source (restore_checkpoint entry) =
      bind-Kept _ _
        (read-Kept (get_checkpoint_state env.lmdb env.formats (swap_key env entry.swap_id)))
        (λ raw. send_restored-Kept entry.swap_id (decoded env raw))
  handle_ctl-Kept source (remove_checkpoint swap_id) =
      bind-Kept _ _
        (deleting-Kept checkpoints (env.formats.checkpoint_key.encode (swap_key env swap_id)) refl)
        (λ _. deleting-Kept checkpoint_infos (env.formats.swap_key.encode swap_id) refl)
  handle_ctl-Kept source (set_address_secret_key (bitcoin_key address key)) = adding-Kept _ _ _
  handle_ctl-Kept source (set_address_secret_key (monero_key address key)) = adding-Kept _ _ _
  handle_ctl-Kept source (deal_status deal status) = replacing-Kept deal_history _ _ refl
  handle_ctl-Kept source clean_dangling_deals = clean_dangling-Kept
  handle_ctl-Kept source other_ctl = done-Kept tt

  -- No control message removes or replaces a stored secret key, whether it is handled or fails, if
  -- LMDB holds what it documents.
  pub secret_keys_kept :
      (source : ServiceId) (m : CtlMsg) (w : World S)
      → Keeps w.database (handle_ctl env source m w).1.database
  unfolding Kept
  secret_keys_kept source m w = handle_ctl-Kept source m w
