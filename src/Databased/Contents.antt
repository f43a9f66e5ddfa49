-- ===== src/Databased/Contents.antt =====
-- What LMDB documents of its calls, and what the setters of `Database` then do.
use farcaster_node.Base.{
  ◌≡◌, ◌≢◌, ◌⊎◌, inl, inr, refl, sym, ap, ◌∙◌, if◌then◌else◌, Option, none, some, Result, ok, err,
}
use farcaster_node.Bus.{Bytes}
use farcaster_node.Databased.Store.{
  Table, Lmdb, ◌>>=◌, is_ok, delete_old, replace, put_new, add, find, delete,
}

-- `Ok` of what a database holds at a key, and `NotFound` otherwise.
unfoldable pub found : Option Bytes → Result Bytes
found none = err
found (some val) = ok val

-- What an environment or transaction holds at each key of each database, and how calls change it.
pub record Contents {S : Type 0} (lmdb : Lmdb S) : Type 0 where
  pub holds : S → Table → Bytes → Option Bytes
  pub begin-holds :
      (t : Table) (s s' : S)
      → lmdb.begin t s ≡ ok s'
      → (u : Table) (k : Bytes) → holds s' u k ≡ holds s u k
  pub get-holds : (t : Table) (k : Bytes) (s : S) → lmdb.get t k s ≡ found (holds s t k)
  pub put-same :
      (t : Table) (k v : Bytes) (s s' : S) → lmdb.put t k v s ≡ ok s' → holds s' t k ≡ some v
  pub put-other :
      (t : Table) (k v : Bytes) (s s' : S)
      → lmdb.put t k v s ≡ ok s'
      → (u : Table) (j : Bytes) → (u ≢ t) ⊎ (j ≢ k)
      → holds s' u j ≡ holds s u j
  pub del-same : (t : Table) (k : Bytes) (s s' : S) → lmdb.del t k s ≡ ok s' → holds s' t k ≡ none
  pub del-other :
      (t : Table) (k : Bytes) (s s' : S)
      → lmdb.del t k s ≡ ok s'
      → (u : Table) (j : Bytes) → (u ≢ t) ⊎ (j ≢ k)
      → holds s' u j ≡ holds s u j
  pub commit-holds :
      (s s' : S) → lmdb.commit s ≡ ok s' → (u : Table) (k : Bytes) → holds s' u k ≡ holds s u k

unfoldable pub Table-discrete : Discrete Table
Table-discrete = hlevel

module _ {A B : Type 0} where
  pub bind-ok :
      (m : Result A) (f : A → Result B) (b : B)
      → (m >>= f) ≡ ok b
      → (a : A) × (m ≡ ok a) × (f a ≡ ok b)
  unfolding ◌>>=◌
  bind-ok (ok a) f b e = (a, refl, e)
  bind-ok err f b e = cc

module _ {S : Type 0} (lmdb : Lmdb S) (c : Contents lmdb) where
  -- Elsewhere than at the key, `s'` holds what `s` holds.
  abbrev pub Only : Table → Bytes → S → S → Type 0
  Only t k s s' = (u : Table) (j : Bytes) → (u ≢ t) ⊎ (j ≢ k) → c.holds s' u j ≡ c.holds s u j

  delete_old-Only :
      (t : Table) (k : Bytes) (s s' : S) → delete_old lmdb t k s ≡ ok s' → Only t k s s'
  unfolding delete_old is_ok
  delete_old-Only t k s s' e = go (lmdb.get t k s) e
    where
      go : (r : Result Bytes) → (if is_ok r then lmdb.del t k s else ok s) ≡ ok s' → Only t k s s'
      go (ok _) f u j h = c.del-other t k s s' f u j h
      go err f u j h = cc

  -- A setter that replaces: the value is at the key, and all else is as before.
  pub replace-holds :
      (t : Table) (key val : Result Bytes) (s s' : S)
      → replace lmdb t key val s ≡ ok s'
      → (k : Bytes) × (v : Bytes) × (key ≡ ok k)
        × (val ≡ ok v)
        × (c.holds s' t k ≡ some v)
        × Only t k s s'
  unfolding replace
  replace-holds t key val s s' e =
      let (tx, b, e) = bind-ok _ _ _ e in
      let (k, is_key, e) = bind-ok _ _ _ e in
      let (tx1, d, e) = bind-ok _ _ _ e in
      let (v, is_val, e) = bind-ok _ _ _ e in
      let (tx2, p, e) = bind-ok _ _ _ e in
      (
        k,
        v,
        is_key,
        is_val,
        c.commit-holds tx2 s' e t k ∙ c.put-same t k v tx1 tx2 p,
        λ u j h.
            c.commit-holds tx2 s' e u j
            ∙ c.put-other t k v tx1 tx2 p u j h
            ∙ delete_old-Only t k tx tx1 d u j h
            ∙ c.begin-holds t s tx b u j,
      )

  pub delete-holds :
      (t : Table) (key : Result Bytes) (s s' : S)
      → delete lmdb t key s ≡ ok s'
      → (k : Bytes) × (key ≡ ok k) × (c.holds s' t k ≡ none) × Only t k s s'
  unfolding delete
  delete-holds t key s s' e =
      let (tx, b, e) = bind-ok _ _ _ e in
      let (k, is_key, e) = bind-ok _ _ _ e in
      let (tx1, d, e) = bind-ok _ _ _ e in
      (
        k,
        is_key,
        c.commit-holds tx1 s' e t k ∙ c.del-same t k tx tx1 d,
        λ u j h.
            c.commit-holds tx1 s' e u j
            ∙ c.del-other t k tx tx1 d u j h
            ∙ c.begin-holds t s tx b u j,
      )

  -- What is held stays, at every key.
  abbrev pub Grows : S → S → Type 0
  Grows s s' = (u : Table) (j v : Bytes) → c.holds s u j ≡ some v → c.holds s' u j ≡ some v

  elsewhere :
      (t : Table) (k v : Bytes) (s : S)
      → lmdb.get t k s ≡ err
      → (u : Table) (j : Bytes) → c.holds s u j ≡ some v
      → (u ≢ t) ⊎ (j ≢ k)
  unfolding found
  elsewhere t k v s e u j h = elim (Table-discrete u t) [
    | no p ↦ inl p
    | yes p ↦ inr (λ q.
        let f =
          sym e
          ∙ c.get-holds t k s
          ∙ ap found (ap (λ x. c.holds s x k) (sym p) ∙ ap (c.holds s u) (sym q) ∙ h) in
        cc)
  ]

  -- A new key is put only where nothing is held.
  put_new-Grows : (t : Table) (k v : Bytes) (s s' : S) → put_new lmdb t k v s ≡ ok s' → Grows s s'
  unfolding put_new is_ok
  put_new-Grows t k v s s' e = go (lmdb.get t k s) refl e
    where
      go :
          (r : Result Bytes)
          → lmdb.get t k s ≡ r
          → (if is_ok r then ok s else lmdb.put t k v s) ≡ ok s'
          → Grows s s'
      go (ok _) g f u j w h = cc
      go err g f u j w h = c.put-other t k v s s' f u j (elsewhere t k w s g u j h) ∙ h

  pub add-Grows :
      (t : Table) (key val : Result Bytes) (s s' : S) → add lmdb t key val s ≡ ok s' → Grows s s'
  unfolding add
  add-Grows t key val s s' e u j w h =
      let (tx, b, e) = bind-ok _ _ _ e in
      let (k, is_key, e) = bind-ok _ _ _ e in
      let (v, is_val, e) = bind-ok _ _ _ e in
      let (tx1, p, e) = bind-ok _ _ _ e in
      c.commit-holds tx1 s' e u j
      ∙ put_new-Grows t k v tx tx1 p u j w (c.begin-holds t s tx b u j ∙ h)

  pub find-holds :
      (t : Table) (key : Result Bytes) (k v : Bytes) (s tx : S)
      → lmdb.begin t s ≡ ok tx
      → key ≡ ok k
      → c.holds s t k ≡ some v
      → find lmdb t key s ≡ ok v
  unfolding find ◌>>=◌ found
  find-holds t key k v s tx b is_key h =
      rw b (rw is_key (c.get-holds t k tx ∙ ap found (c.begin-holds t s tx b t k ∙ h)))
