-- ===== src/Databased/Examples.antt =====
-- Tests of src/databased/runtime.rs, on LMDB as lists of keys and values.
use farcaster_node.Base.{
  map, member, ok-injective, ℕ_discrete, ◌≡◌, ◌≢◌, ◌⊎◌, inl, inr, refl, sym, ap, ◌∙◌, Bool, true,
  false, if◌then◌else◌, Option, none, some, List, [], ◌∷◌, ite, if_pos, if_neg, eq_dec, Result, ok,
  err, lookup, insert, remove, contains_key, lookup-insert, lookup-remove,
}
use farcaster_node.Bus.{Bytes, Bytes_eq, Bytes-discrete, swap, farcasterd}
use farcaster_node.Swapd.Messages.{Checkpoint, bob_buy_sweeping, failure_abort}
use farcaster_node.Swapd.TemporalSafety.{TemporalSafety}
use farcaster_node.Databased.Store.{
  Table, bitcoin_addresses, checkpoint_infos, deal_history, get_all_checkpoint_info, entries,
  collect, get_deals, select_deals, listed, selected, selects, deal_pair, set_deal_status, Lmdb,
  Formats, CheckpointSwapd, CheckpointEntry, maker, DealStatus, open_deal, in_progress, ended,
  ◌>>=◌, set_checkpoint_info, replace, delete_old, is_ok, set_checkpoint_state,
}
use farcaster_node.Databased.Contents.{Contents, found, Table-discrete}
use farcaster_node.Databased.Runtime.{
  World, Env, handle_ctl, checkpoint, restore_checkpoint, checkpoint_state, set_address_secret_key,
  bitcoin_key, clean_dangling_deals, sent, entry_of,
}
use farcaster_node.Databased.Checkpoints.{checkpoint-restored}
use farcaster_node.Databased.Dangling.{IsListed, WalksAll, clean_dangling-checkpointed}
use farcaster_node.Databased.Secrets.{is_secret, secret_keys_kept}

abbrev Tables : Type 0
Tables = Table → List (Bytes × Bytes)

unfoldable on_table : Table → (List (Bytes × Bytes) → List (Bytes × Bytes)) → Tables → Tables
on_table t f s u = ite (Table-discrete t u) (f (s u)) (s u)

abbrev lists : Lmdb Tables
lists = record {
  begin = λ t s. ok s;
  get = λ t k s. found (lookup k (s t));
  put = λ t k v s. ok (on_table t (insert k v) s);
  del = λ t k s. if contains_key k (s t) then ok (on_table t (remove k) s) else err;
  iter = λ t s. ok (s t);
  commit = λ s. ok s;
}

result-of : (s s' : Tables) → ok s ≡ ok s' → s' ≡ s
result-of s s' e = sym (ok-injective s s' e)

-- A change of one list at one key leaves the rest.
on_table-other :
    (t : Table) (k : Bytes) (f : List (Bytes × Bytes) → List (Bytes × Bytes)) (o : Option Bytes)
    → ((j : Bytes) (m : List (Bytes × Bytes)) → lookup j (f m) ≡ ite (eq_dec k j) o (lookup j m))
    → (s : Tables) (u : Table) (j : Bytes) → (u ≢ t) ⊎ (j ≢ k)
    → lookup j (on_table t f s u) ≡ lookup j (s u)
unfolding on_table
on_table-other t k f o h s u j (inl p) = rw (if_neg (Table-discrete t u) (λ q. p (sym q))) refl
on_table-other t k f o h s u j (inr p) = elim (Table-discrete t u) [
  | yes q ↦
      rw (if_pos (Table-discrete t u) q) (h j (s u) ∙ if_neg (eq_dec k j) (λ q. p (sym q)) _ _)
  | no q ↦ rw (if_neg (Table-discrete t u) q) refl
]

on_table-same :
    (t : Table) (k : Bytes) (f : List (Bytes × Bytes) → List (Bytes × Bytes)) (o : Option Bytes)
    → ((j : Bytes) (m : List (Bytes × Bytes)) → lookup j (f m) ≡ ite (eq_dec k j) o (lookup j m))
    → (s : Tables) → lookup k (on_table t f s t) ≡ o
unfolding on_table
on_table-same t k f o h s =
    rw (if_pos (Table-discrete t t) refl) (h k (s t) ∙ if_pos (eq_dec k k) refl _ _)

deleted :
    (t : Table) (k : Bytes) (s s' : Tables)
    → (if contains_key k (s t) then ok (on_table t (remove k) s) else err) ≡ ok s'
    → s' ≡ on_table t (remove k) s
deleted t k s s' e = go (contains_key k (s t)) e
  where
    go :
        (b : Bool)
        → (if b then ok (on_table t (remove k) s) else err) ≡ ok s'
        → s' ≡ on_table t (remove k) s
    go true f = result-of _ s' f
    go false f = cc

contents : Contents lists
contents = record {
  holds = λ s t k. lookup k (s t);
  begin-holds = λ t s s' e u k. ap (λ x. lookup k (x u)) (result-of s s' e);
  get-holds = λ t k s. refl;
  put-same = λ t k v s s' e.
      ap (λ x. lookup k (x t)) (result-of _ s' e)
      ∙ on_table-same t k (insert k v) (some v) (λ j. lookup-insert j k v) s;
  put-other = λ t k v s s' e u j h.
      ap (λ x. lookup j (x u)) (result-of _ s' e)
      ∙ on_table-other t k (insert k v) (some v) (λ j. lookup-insert j k v) s u j h;
  del-same = λ t k s s' e.
      ap (λ x. lookup k (x t)) (deleted t k s s' e)
      ∙ on_table-same t k (remove k) none (λ j. lookup-remove j k) s;
  del-other = λ t k s s' e u j h.
      ap (λ x. lookup j (x u)) (deleted t k s s' e)
      ∙ on_table-other t k (remove k) none (λ j. lookup-remove j k) s u j h;
  commit-holds = λ s s' e u k. ap (λ x. lookup k (x u)) (result-of s s' e);
}

abbrev params : TemporalSafety
params = record {
  cancel_timelock = 30;
  punish_timelock = 60;
  race_thr = 20;
  btc_finality_thr = 1;
  xmr_finality_thr = 1;
  sweep_monero_thr = 10;
}

abbrev swap_state : Checkpoint
swap_state = record {
  state = bob_buy_sweeping;
  pending_msg = none;
  enquirer = none;
  xmr_addr_addendum = none;
  temporal_safety = params;
  txs = [];
  txids = [];
  pending_broadcasts = [];
  monero_address_creation_height = some 7;
}

abbrev state_of : Bytes → CheckpointSwapd
state_of deal = record {
  restored = swap_state;
  local_trade_role = maker;
  connected_counterparty_node_id = none;
  deal = deal;
}

abbrev status_of : Bytes → Result DealStatus
status_of [] = ok open_deal
status_of (_ ∷ []) = ok in_progress
status_of (_ ∷ _ ∷ _) = ok (ended failure_abort)

abbrev status_bytes : DealStatus → Result Bytes
status_bytes open_deal = ok []
status_bytes in_progress = ok (1 ∷ [])
status_bytes (ended _) = ok (2 ∷ 2 ∷ [])

-- Formats that tell the swaps of the tests apart.
abbrev formats : Formats
formats = record {
  checkpoint_key = record { encode = λ k. ok k.swap_id; decode = λ b. err };
  checkpoint_state = record { encode = λ s. ok s.deal; decode = λ b. ok (state_of b) };
  swap_key = record { encode = λ b. ok b; decode = λ b. ok b };
  checkpoint_entry = record {
    encode = λ e. ok e.deal;
    decode = λ b. ok (record {
      swap_id = b;
      deal = b;
      trade_role = maker;
      expected_counterparty_node_id = none;
    });
  };
  deal_key = record { encode = λ b. ok b; decode = λ b. ok b };
  deal_status = record { encode = status_bytes; decode = status_of };
  bitcoin_address = record { encode = λ b. ok b; decode = λ b. ok b };
  bitcoin_secret = record {
    encode = λ i. ok i.secret_key;
    decode = λ b. ok (record { swap_id = none; secret_key = b });
  };
  monero_address_bytes = λ b. b;
  monero_address_from_bytes = λ b. ok b;
  monero_secret = record {
    encode = λ i. ok i.view;
    decode = λ b. ok (record { swap_id = none; view = b; spend = b; creation_height = none });
  };
}

abbrev env : Env Tables
env = record { lmdb = lists; formats = formats; delivers = λ trace dest m. true }

abbrev keys : Tables
keys bitcoin_addresses = ((5 ∷ []), (6 ∷ [])) ∷ []
keys deal_history = ((9 ∷ []), (1 ∷ [])) ∷ []
keys _ = []

abbrev world : World Tables
world = record { database = keys; trace = [] }

abbrev saved : World Tables
saved = (handle_ctl env (swap (3 ∷ [])) (checkpoint (3 ∷ []) (state_of (8 ∷ []))) world).1

abbrev entry : CheckpointEntry
entry = entry_of (3 ∷ []) (state_of (8 ∷ []))

checkpoint-restored_example : handle_ctl env farcasterd (restore_checkpoint entry) saved ≡ (
  ok tt,
  record saved {
    trace = sent (swap (3 ∷ [])) (checkpoint_state (3 ∷ []) (state_of (8 ∷ []))) ∷ saved.trace;
  },
)
unfolding handle_ctl entry_of ◌>>=◌ set_checkpoint_info replace delete_old is_ok found lookup
    set_checkpoint_state on_table Table-discrete
checkpoint-restored_example =
    checkpoint-restored env contents (3 ∷ []) (state_of (8 ∷ [])) world saved
      (λ b e. ap (λ r. r >>= (λ x. ok (state_of x))) (sym e)) refl farcasterd entry refl
      saved.database refl refl

secret_keys_kept_example :
    contents.holds
      (handle_ctl env farcasterd
        (set_address_secret_key
          (bitcoin_key (5 ∷ []) (record { swap_id = none; secret_key = 1 ∷ [] })))
        world).1.database
      bitcoin_addresses
      (5 ∷ [])
    ≡ some (6 ∷ [])
unfolding is_secret contents lookup Bytes-discrete ℕ_discrete
secret_keys_kept_example =
    secret_keys_kept env contents farcasterd
      (set_address_secret_key
        (bitcoin_key (5 ∷ []) (record { swap_id = none; secret_key = 1 ∷ [] })))
      world bitcoin_addresses (5 ∷ []) (6 ∷ []) refl refl

lookup-IsListed : (k v : Bytes) (m : List (Bytes × Bytes)) → lookup k m ≡ some v → IsListed k v m
unfolding lookup IsListed
lookup-IsListed k v [] e = cc
lookup-IsListed k v ((j, w) ∷ m) e = elim (eq_dec j k) [
  | yes p ↦ let q = rw (if_pos (eq_dec j k) p) at e in inl (p, cc)
  | no p ↦ inr (lookup-IsListed k v m (rw (if_neg (eq_dec j k) p) at e))
]

lists-WalksAll : WalksAll lists contents
unfolding contents
lists-WalksAll t s es k v e h =
    lookup-IsListed k v es (ap (lookup k) (sym (ok-injective (s t) es e)) ∙ h)

-- Two deals in progress, of which the first has a checkpoint.
abbrev two_deals : Tables
two_deals checkpoint_infos = ((4 ∷ []), (9 ∷ [])) ∷ []
two_deals deal_history = ((9 ∷ []), (1 ∷ [])) ∷ ((7 ∷ []), (1 ∷ [])) ∷ []
two_deals _ = []

abbrev before : World Tables
before = record { database = two_deals; trace = [] }

abbrev cleaned : World Tables
cleaned = (handle_ctl env farcasterd clean_dangling_deals before).1

dangling_ended : lookup (7 ∷ []) (cleaned.database deal_history) ≡ some (2 ∷ 2 ∷ [])
unfolding handle_ctl ◌>>=◌ contents get_all_checkpoint_info entries collect get_deals select_deals
    listed selected selects deal_pair set_deal_status replace delete_old is_ok found lookup insert
    remove member on_table Table-discrete Bytes-discrete ℕ_discrete contains_key
dangling_ended = refl

clean_dangling-checkpointed_example :
    (infos : List CheckpointEntry) × (get_all_checkpoint_info lists formats two_deals ≡ ok infos)
    × (member (9 ∷ []) (map (λ i. i.deal) infos) ≡ true)
unfolding handle_ctl ◌>>=◌ contents get_all_checkpoint_info entries collect get_deals select_deals
    listed selected selects deal_pair set_deal_status replace delete_old is_ok found lookup insert
    remove member on_table Table-discrete Bytes-discrete ℕ_discrete contains_key
clean_dangling-checkpointed_example =
    clean_dangling-checkpointed env contents (λ b e. ap (λ r. r >>= status_of) (sym e))
      lists-WalksAll farcasterd before cleaned refl (9 ∷ []) (9 ∷ []) (1 ∷ []) (λ b e. sym e) refl
      refl refl
