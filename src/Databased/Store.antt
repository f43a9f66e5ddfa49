-- ===== src/Databased/Store.antt =====
-- `Database` of src/databased/runtime.rs, over LMDB and the formats of values as parameters. A write
-- gives the store after it; one that fails leaves the store as it was, as its transaction is dropped.
use farcaster_node.Base.{
  ℕ, Bool, true, false, Option, none, some, map, List, [], ◌∷◌, if◌then◌else◌, Result, ok, err,
}
use farcaster_node.Bus.{Bytes, ServiceId}
use farcaster_node.Swapd.Messages.{Checkpoint, Outcome}

-- The databases by their names.
pub data Table : Type 0 where
  checkpoints checkpoint_infos bitcoin_addresses monero_addresses deal_history : Table

pub data TradeRole : Type 0 where
  maker taker : TradeRole

pub record CheckpointKey : Type 0 where
  pub swap_id : Bytes
  pub service_id : ServiceId

-- `CheckpointSwapd`: what swapd restores, and what the database reads of it.
pub record CheckpointSwapd : Type 0 where
  pub restored : Checkpoint
  pub local_trade_role : TradeRole
  pub connected_counterparty_node_id : Option Bytes
  pub deal : Bytes

pub record CheckpointEntry : Type 0 where
  pub swap_id : Bytes
  pub deal : Bytes
  pub trade_role : TradeRole
  pub expected_counterparty_node_id : Option Bytes

pub data DealStatus : Type 0 where
  open_deal in_progress : DealStatus
  ended : Outcome → DealStatus

pub data DealStatusSelector : Type 0 where
  select_open select_in_progress select_ended select_all : DealStatusSelector

pub record DealStatusPair : Type 0 where
  pub deal : Bytes
  pub status : DealStatus

pub record BitcoinSecretKeyInfo : Type 0 where
  pub swap_id : Option Bytes
  pub secret_key : Bytes

pub record MoneroSecretKeyInfo : Type 0 where
  pub swap_id : Option Bytes
  pub view : Bytes
  pub spend : Bytes
  pub creation_height : Option ℕ

-- `StrictEncode` and `StrictDecode` at a type.
pub record Format (A : Type 0) : Type 0 where
  pub encode : A → Result Bytes
  pub decode : Bytes → Result A

pub record Formats : Type 0 where
  pub checkpoint_key : Format CheckpointKey
  pub checkpoint_state : Format CheckpointSwapd
  pub swap_key : Format Bytes
  pub checkpoint_entry : Format CheckpointEntry
  pub deal_key : Format Bytes
  pub deal_status : Format DealStatus
  pub bitcoin_address : Format Bytes
  pub bitcoin_secret : Format BitcoinSecretKeyInfo
  pub monero_address_bytes : Bytes → Bytes
  pub monero_address_from_bytes : Bytes → Result Bytes
  pub monero_secret : Format MoneroSecretKeyInfo

-- The calls of LMDB on an environment, or on a transaction on it; `begin` opens the named database and
-- begins a transaction.
pub record Lmdb (S : Type 0) : Type 0 where
  pub begin : Table → S → Result S
  pub get : Table → Bytes → S → Result Bytes
  pub put : Table → Bytes → Bytes → S → Result S
  pub del : Table → Bytes → S → Result S
  pub iter : Table → S → Result (List (Bytes × Bytes))
  pub commit : S → Result S

module _ {A B : Type 0} where
  infixl 10 ◌>>=◌
  unfoldable pub ◌>>=◌ : Result A → (A → Result B) → Result B
  ok a >>= f = f a
  err >>= f = err

unfoldable pub is_ok : {A : Type 0} → Result A → Bool
is_ok (ok _) = true
is_ok err = false

-- `collect` into a result: the first error, or all values.
unfoldable pub collect : {A : Type 0} → List (Result A) → Result (List A)
collect [] = ok []
collect (r ∷ rs) = let rest = collect rs in do a ← r; list ← rest; ok (a ∷ list)

unfoldable pub selects : DealStatusSelector → DealStatus → Bool
selects select_open open_deal = true
selects select_open _ = false
selects select_in_progress in_progress = true
selects select_in_progress _ = false
selects select_ended (ended _) = true
selects select_ended _ = false
selects select_all _ = true

module _ {S : Type 0} (lmdb : Lmdb S) where
  unfoldable pub delete_old : Table → Bytes → S → Result S
  delete_old t key tx = if is_ok (lmdb.get t key tx) then lmdb.del t key tx else ok tx

  -- The setters that replace what is there.
  unfoldable pub replace : Table → Result Bytes → Result Bytes → S → Result S
  replace t encoded_key encoded_val s = do
    tx ← lmdb.begin t s
    key ← encoded_key
    tx ← delete_old t key tx
    val ← encoded_val
    tx ← lmdb.put t key val tx
    lmdb.commit tx

  unfoldable pub put_new : Table → Bytes → Bytes → S → Result S
  put_new t key val tx = if is_ok (lmdb.get t key tx) then ok tx else lmdb.put t key val tx

  -- The setters that keep what is there.
  unfoldable pub add : Table → Result Bytes → Result Bytes → S → Result S
  add t encoded_key encoded_val s = do
    tx ← lmdb.begin t s
    key ← encoded_key
    val ← encoded_val
    tx ← put_new t key val tx
    lmdb.commit tx

  unfoldable pub find : Table → Result Bytes → S → Result Bytes
  find t encoded_key s = do tx ← lmdb.begin t s; key ← encoded_key; lmdb.get t key tx

  unfoldable pub delete : Table → Result Bytes → S → Result S
  delete t encoded_key s = do
    tx ← lmdb.begin t s
    key ← encoded_key
    tx ← lmdb.del t key tx
    lmdb.commit tx

  unfoldable pub entries : Table → S → Result (List (Bytes × Bytes))
  entries t s = do tx ← lmdb.begin t s; lmdb.iter t tx

  module _ (f : Formats) where
    unfoldable pub set_deal_status : Bytes → DealStatus → S → Result S
    set_deal_status deal status =
        replace deal_history (f.deal_key.encode deal) (f.deal_status.encode status)

    unfoldable pub deal_pair : Bytes → DealStatus → Result DealStatusPair
    deal_pair key status = do
      deal ← f.deal_key.decode key
      ok (record { deal = deal; status = status })

    -- Whether an entry of the history is listed, with the errors of its formats.
    unfoldable pub selected :
        DealStatusSelector → Bytes → Result DealStatus → Option (Result DealStatusPair)
    unfolding deal_pair
    selected selector key err = some err
    selected selector key (ok status) =
        if selects selector status then some (deal_pair key status) else none

    unfoldable pub listed :
        Option (Result DealStatusPair) → List (Result DealStatusPair) → List (Result DealStatusPair)
    listed none rest = rest
    listed (some r) rest = r ∷ rest

    unfoldable pub select_deals :
        DealStatusSelector → List (Bytes × Bytes) → List (Result DealStatusPair)
    select_deals selector [] = []
    select_deals selector ((key, val) ∷ es) =
        listed (selected selector key (f.deal_status.decode val)) (select_deals selector es)

    unfoldable pub get_deals : DealStatusSelector → S → Result (List DealStatusPair)
    get_deals selector s = do es ← entries deal_history s; collect (select_deals selector es)

    unfoldable pub set_bitcoin_address : Bytes → BitcoinSecretKeyInfo → S → Result S
    set_bitcoin_address address info =
        add bitcoin_addresses (f.bitcoin_address.encode address) (f.bitcoin_secret.encode info)

    unfoldable pub get_bitcoin_address_secret_key : Bytes → S → Result BitcoinSecretKeyInfo
    get_bitcoin_address_secret_key address s = do
      val ← find bitcoin_addresses (f.bitcoin_address.encode address) s
      f.bitcoin_secret.decode val

    unfoldable pub bitcoin_entry : Bytes × Bytes → Result (Bytes × Option Bytes)
    bitcoin_entry (key, val) = do
      address ← f.bitcoin_address.decode key
      info ← f.bitcoin_secret.decode val
      ok (address, info.swap_id)

    unfoldable pub get_all_bitcoin_addresses : S → Result (List (Bytes × Option Bytes))
    get_all_bitcoin_addresses s = do
      es ← entries bitcoin_addresses s
      collect (map bitcoin_entry es)

    unfoldable pub set_monero_address : Bytes → MoneroSecretKeyInfo → S → Result S
    set_monero_address address info =
        add monero_addresses (ok (f.monero_address_bytes address)) (f.monero_secret.encode info)

    unfoldable pub get_monero_address_secret_key : Bytes → S → Result MoneroSecretKeyInfo
    get_monero_address_secret_key address s = do
      val ← find monero_addresses (ok (f.monero_address_bytes address)) s
      f.monero_secret.decode val

    unfoldable pub monero_entry : Bytes × Bytes → Result (Bytes × Option Bytes)
    monero_entry (key, val) = do
      address ← f.monero_address_from_bytes key
      info ← f.monero_secret.decode val
      ok (address, info.swap_id)

    unfoldable pub get_all_monero_addresses : S → Result (List (Bytes × Option Bytes))
    get_all_monero_addresses s = do es ← entries monero_addresses s; collect (map monero_entry es)

    unfoldable pub set_checkpoint_state : CheckpointKey → Bytes → S → Result S
    set_checkpoint_state key val = replace checkpoints (f.checkpoint_key.encode key) (ok val)

    unfoldable pub set_checkpoint_info : Bytes → CheckpointEntry → S → Result S
    set_checkpoint_info swap_id entry =
        replace checkpoint_infos (f.swap_key.encode swap_id) (f.checkpoint_entry.encode entry)

    unfoldable pub get_checkpoint_info : Bytes → S → Result CheckpointEntry
    get_checkpoint_info swap_id s = do
      val ← find checkpoint_infos (f.swap_key.encode swap_id) s
      f.checkpoint_entry.decode val

    unfoldable pub get_all_checkpoint_info : S → Result (List CheckpointEntry)
    get_all_checkpoint_info s = do
      es ← entries checkpoint_infos s
      collect (map (λ e. f.checkpoint_entry.decode e.1) es)

    unfoldable pub get_checkpoint_state : CheckpointKey → S → Result Bytes
    get_checkpoint_state key = find checkpoints (f.checkpoint_key.encode key)

    unfoldable pub delete_checkpoint_state : CheckpointKey → S → Result S
    delete_checkpoint_state key = delete checkpoints (f.checkpoint_key.encode key)

    unfoldable pub delete_checkpoint_info : Bytes → S → Result S
    delete_checkpoint_info swap_id = delete checkpoint_infos (f.swap_key.encode swap_id)
