-- ===== src/Databased/Dangling.antt =====
-- `CtlMsg::CleanDanglingDeals` of src/databased/runtime.rs.
use farcaster_node.Base.{
  ok-injective, ◌≡◌, ◌≢◌, refl, sym, ap, subst, ◌∙◌, ◌⊎◌, inl, inr, true, false, Option, none, some,
  List, [], ◌∷◌, map, Result, ok, member, eq_dec, if_pos, if_neg, arith,
}
use farcaster_node.Bus.{Bytes, Bytes_eq, ServiceId}
use farcaster_node.Swapd.Messages.{failure_abort}
use farcaster_node.Databased.Store.{
  Table, deal_history, Lmdb, Formats, DealStatus, DealStatusPair, CheckpointEntry, in_progress,
  ended, select_in_progress, ◌>>=◌, collect, selects, selected, listed, select_deals, entries,
  get_deals, get_all_checkpoint_info, set_deal_status, deal_pair,
}
use farcaster_node.Databased.Contents.{Contents, bind-ok, replace-holds}
use farcaster_node.Databased.Checkpoints.{RoundTrip, bind-done, read-done, write-done}
use farcaster_node.Databased.Runtime.{
  World, Env, done, each, dangling, end_deal, clean_dangling, clean_dangling_deals, handle_ctl,
}

-- The entry `(k, v)` is among `es`.
unfoldable pub IsListed : Bytes → Bytes → List (Bytes × Bytes) → Type 0
IsListed k v [] = ⊥
IsListed k v ((j, w) ∷ es) = ((j ≡ k) × (w ≡ v)) ⊎ IsListed k v es

-- A cursor walks over every entry that is held.
abbrev pub WalksAll : {S : Type 0} (lmdb : Lmdb S) → Contents lmdb → Type 0
WalksAll {S} lmdb c =
    (t : Table) (s : S) (es : List (Bytes × Bytes)) (k v : Bytes)
    → lmdb.iter t s ≡ ok es
    → c.holds s t k ≡ some v
    → IsListed k v es

unfoldable deals_of : List DealStatusPair → List Bytes
deals_of [] = []
deals_of (p ∷ ps) = p.deal ∷ deals_of ps

member-dangling :
    (d : Bytes) (kept : List Bytes) (pairs : List DealStatusPair)
    → member d (deals_of pairs) ≡ true
    → member d (dangling kept pairs) ≡ false
    → member d kept ≡ true
unfolding member dangling deals_of
member-dangling d kept [] h g = cc
member-dangling d kept (p ∷ ps) h g = ground (arith, member-dangling d kept ps)

member-there : (d x : Bytes) (xs : List Bytes) → member d xs ≡ true → member d (x ∷ xs) ≡ true
unfolding member
member-there d x xs h = ground arith

member-here : (d : Bytes) (xs : List Bytes) → member d (d ∷ xs) ≡ true
unfolding member
member-here d xs = if_pos (eq_dec d d) refl _ _

module _ {S : Type 0} (lmdb : Lmdb S) (f : Formats) where
  listed-rest :
      (o : Option (Result DealStatusPair)) (rs : List (Result DealStatusPair))
      (pairs : List DealStatusPair) (d : Bytes)
      → collect (listed lmdb f o rs) ≡ ok pairs
      → ((ps : List DealStatusPair) → collect rs ≡ ok ps → member d (deals_of ps) ≡ true)
      → member d (deals_of pairs) ≡ true
  unfolding listed collect member deals_of
  listed-rest none rs pairs d e h = h pairs e
  listed-rest (some r) rs pairs d e h =
      let (p, _, e1) = bind-ok _ _ _ e in
      let (ps, q, e2) = bind-ok _ _ _ e1 in
      ap (λ x. member d (deals_of x)) (sym (ok-injective _ pairs e2))
      ∙ member-there d p.deal (deals_of ps) (h ps q)

  collected-first :
      (p : DealStatusPair) (rs : List (Result DealStatusPair)) (pairs : List DealStatusPair)
      → collect (ok p ∷ rs) ≡ ok pairs
      → member p.deal (deals_of pairs) ≡ true
  unfolding collect deals_of
  collected-first p rs pairs e =
      let (q, b, e1) = bind-ok _ _ _ e in
      let (ps, _, e2) = bind-ok _ _ _ e1 in
      ap (λ x. member p.deal (deals_of x))
        (sym (ok-injective _ pairs e2) ∙ ap (λ x. x ∷ ps) (sym (ok-injective p q b)))
      ∙ member-here p.deal (deals_of ps)

  select_deals-first :
      (d k v : Bytes) (es : List (Bytes × Bytes))
      → f.deal_status.decode v ≡ ok in_progress
      → f.deal_key.decode k ≡ ok d
      → select_deals lmdb f select_in_progress ((k, v) ∷ es)
        ≡ ok (record { deal = d; status = in_progress }) ∷ select_deals lmdb f select_in_progress es
  unfolding select_deals selected selects listed deal_pair ◌>>=◌
  select_deals-first d k v es s p = rw s (rw p refl)

  select_deals-member :
      (d k v : Bytes) (es : List (Bytes × Bytes)) (pairs : List DealStatusPair)
      → collect (select_deals lmdb f select_in_progress es) ≡ ok pairs
      → IsListed k v es
      → f.deal_status.decode v ≡ ok in_progress
      → f.deal_key.decode k ≡ ok d
      → member d (deals_of pairs) ≡ true
  unfolding IsListed select_deals
  select_deals-member d k v [] pairs e i s p = absurd i
  select_deals-member d k v ((j, w) ∷ es) pairs e (inl (a, b)) s p =
      collected-first (record { deal = d; status = in_progress })
        (select_deals lmdb f select_in_progress es) pairs
        (ap collect (
            sym (
              select_deals-first d j w es (ap f.deal_status.decode b ∙ s)
                (ap f.deal_key.decode a ∙ p)))
          ∙ e)
  select_deals-member d k v ((j, w) ∷ es) pairs e (inr i) s p =
      listed-rest _ _ pairs d e (λ ps g. select_deals-member d k v es ps g i s p)

clash :
    (decode : Bytes → Result DealStatus) (v val : Bytes)
    → some v ≡ some val
    → decode v ≡ ok in_progress
    → decode val ≡ ok (ended failure_abort)
    → ⊥
clash decode v val a s b = cc

module _ {S : Type 0} (env : Env S) (c : Contents env.lmdb) where
  abbrev InProgress : S → Bytes → Bytes → Type 0
  InProgress s k v =
      (c.holds s deal_history k ≡ some v) × (env.formats.deal_status.decode v ≡ ok in_progress)

  module _ (trip : RoundTrip env.formats.deal_status (ended failure_abort)) where
    -- Ending a deal leaves no other deal in progress than before, and not that one.
    end_deal-leaves :
        (d : Bytes) (w w' : World S) (k v : Bytes)
        → end_deal env d w ≡ (ok tt, w')
        → InProgress w'.database k v
        → InProgress w.database k v
          × ((d' : Bytes) → env.formats.deal_key.encode d' ≡ ok k → d ≢ d')
    unfolding end_deal set_deal_status
    end_deal-leaves d w w' k v e (held, s) =
        let (key, val, is_key, is_val, at_key, only) =
          replace-holds env.lmdb c deal_history (env.formats.deal_key.encode d)
            (env.formats.deal_status.encode (ended failure_abort)) w.database w'.database
            (write-done (set_deal_status env.lmdb env.formats d (ended failure_abort)) w w' e) in
        elim (eq_dec k key) [
          | yes p ↦
              let a = sym held ∙ ap (c.holds w'.database deal_history) p ∙ at_key in
              let b = trip val is_val in absurd (clash env.formats.deal_status.decode v val a s b)
          | no p ↦ (
            (sym (only deal_history k (inr p)) ∙ held, s),
            λ d' f q.
                p (ok-injective k key (sym f ∙ ap env.formats.deal_key.encode (sym q) ∙ is_key)),
          )
        ]

    each-leaves :
        (ds : List Bytes) (w w' : World S) (k v d : Bytes)
        → each (end_deal env) ds w ≡ (ok tt, w')
        → env.formats.deal_key.encode d ≡ ok k
        → InProgress w'.database k v
        → InProgress w.database k v × (member d ds ≡ false)
    unfolding each member done
    each-leaves [] w w' k v d e f g =
        (subst (λ x. InProgress x.database k v) (sym (ap (λ x. x.1) e)) g, refl)
    each-leaves (x ∷ ds) w w' k v d e f g =
        let (_, w1, e1, e2) = bind-done (end_deal env x) (λ _. each (end_deal env) ds) w w' tt e in
        let (g1, out) = each-leaves ds w1 w' k v d e2 f g in
        let (g0, other) = end_deal-leaves x w w1 k v e1 g1 in
        (g0, if_neg (eq_dec x d) (other d f) _ _ ∙ out)

  -- After the dangling deals were cleaned without an error, a deal that is still in progress had a
  -- checkpoint when the cleaning began, if LMDB holds what it documents and its cursors walk over all
  -- of it, and decoding inverts the encodings of the deal and of the status of an aborted deal.
  pub clean_dangling-checkpointed :
      RoundTrip env.formats.deal_status (ended failure_abort)
      → WalksAll env.lmdb c
      → (source : ServiceId) (w w' : World S)
      → handle_ctl env source clean_dangling_deals w ≡ (ok tt, w')
      → (d k v : Bytes) → RoundTrip env.formats.deal_key d
      → env.formats.deal_key.encode d ≡ ok k
      → c.holds w'.database deal_history k ≡ some v
      → env.formats.deal_status.decode v ≡ ok in_progress
      → (infos : List CheckpointEntry) × (get_all_checkpoint_info env.lmdb env.formats w.database
          ≡ ok infos)
        × (member d (map (λ i. i.deal) infos) ≡ true)
  unfolding handle_ctl clean_dangling get_deals entries
  clean_dangling-checkpointed trip walks source w w' e d k v deal_trip f held s =
      let (infos, is_infos, e1) =
        read-done (get_all_checkpoint_info env.lmdb env.formats) _ w w' tt e in
      let (pairs, is_pairs, e2) =
        read-done (get_deals env.lmdb env.formats select_in_progress) _ w w' tt e1 in
      let ((held0, s0), out) =
        each-leaves trip (dangling (map (λ i. i.deal) infos) pairs) w w' k v d e2 f (held, s) in
      let (es, is_es, e3) = bind-ok _ _ _ is_pairs in
      let (tx, b, e4) = bind-ok _ _ _ is_es in
      let here =
        walks deal_history tx es k v e4
          (c.begin-holds deal_history _ tx b deal_history k ∙ held0) in
      (
        infos,
        is_infos,
        member-dangling d (map (λ i. i.deal) infos) pairs
            (select_deals-member env.lmdb env.formats d k v es pairs e3 here s (deal_trip k f)) out,
      )
