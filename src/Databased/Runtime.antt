-- ===== src/Databased/Runtime.antt =====
-- The messages that `Runtime` of src/databased/runtime.rs handles. What was sent and stored before an
-- error stays.
use farcaster_node.Base.{Bool, Option, List, [], ◌∷◌, map, if◌then◌else◌, Result, ok, err, member}
use farcaster_node.Bus.{Bytes, Bytes_eq, Blockchain, bitcoin, monero, ServiceId, swap}
use farcaster_node.Swapd.Messages.{failure_abort}
use farcaster_node.Farcasterd.Runtime.{client_dest}
use farcaster_node.Databased.Store.{
  CheckpointKey, CheckpointSwapd, CheckpointEntry, DealStatus, ended, DealStatusSelector,
  select_in_progress, DealStatusPair, BitcoinSecretKeyInfo, MoneroSecretKeyInfo, Formats, Lmdb,
  set_deal_status, get_deals, set_bitcoin_address, get_bitcoin_address_secret_key,
  get_all_bitcoin_addresses, set_monero_address, get_monero_address_secret_key,
  get_all_monero_addresses, set_checkpoint_state, set_checkpoint_info, get_checkpoint_info,
  get_all_checkpoint_info, get_checkpoint_state, delete_checkpoint_state, delete_checkpoint_info,
}

pub data AddressSecretKey : Type 0 where
  bitcoin_key : Bytes → BitcoinSecretKeyInfo → AddressSecretKey
  monero_key : Bytes → MoneroSecretKeyInfo → AddressSecretKey

-- `CtlMsg`; the database ignores the other messages.
pub data CtlMsg : Type 0 where
  hello : CtlMsg
  checkpoint : Bytes → CheckpointSwapd → CtlMsg
  restore_checkpoint : CheckpointEntry → CtlMsg
  remove_checkpoint : Bytes → CtlMsg
  set_address_secret_key : AddressSecretKey → CtlMsg
  deal_status : Bytes → DealStatus → CtlMsg
  clean_dangling_deals : CtlMsg
  other_ctl : CtlMsg

pub data InfoMsg : Type 0 where
  list_deals : DealStatusSelector → InfoMsg
  retrieve_all_checkpoint_info : InfoMsg
  get_checkpoint_entry : Bytes → InfoMsg
  get_address_secret_key : Blockchain → Bytes → InfoMsg
  get_addresses : Blockchain → InfoMsg
  other_info : InfoMsg

pub data ServiceBus : Type 0 where
  ctl_bus info_bus other_bus : ServiceBus

pub data BusMsg : Type 0 where
  ctl : CtlMsg → BusMsg
  info : InfoMsg → BusMsg
  other_msg : BusMsg

-- What the database sends.
pub data Message : Type 0 where
  checkpoint_state : Bytes → CheckpointSwapd → Message
  deal_status_list : List DealStatusPair → Message
  checkpoint_list : List CheckpointEntry → Message
  checkpoint_entry : CheckpointEntry → Message
  address_secret_key : AddressSecretKey → Message
  address_list : Blockchain → List (Bytes × Option Bytes) → Message
  failure : Message

pub data Sent : Type 0 where
  sent : ServiceId → Message → Sent

pub record World (S : Type 0) : Type 0 where
  pub database : S
  pub trace : List Sent

-- LMDB, the formats, and whether the bus delivers a message after what was sent before.
pub record Env (S : Type 0) : Type 0 where
  pub lmdb : Lmdb S
  pub formats : Formats
  pub delivers : List Sent → ServiceId → Message → Bool

abbrev pub Exec : Type 0 → Type 0 → Type 0
Exec S A = World S → Result A × World S

module _ {S : Type 0} where
  unfoldable pub continue : {A B : Type 0} → Result A → (A → Exec S B) → Exec S B
  continue (ok a) f w = f a w
  continue err f w = (err, w)

  infixl 10 ◌>>=◌ ◌>>◌
  unfoldable pub ◌>>=◌ : {A B : Type 0} → Exec S A → (A → Exec S B) → Exec S B
  unfolding continue
  ◌>>=◌ m f w = let (r, w') = m w in continue r f w'

  abbrev pub ◌>>◌ : {A B : Type 0} → Exec S A → Exec S B → Exec S B
  m >> n = m >>= λ _. n

  unfoldable pub done : {A : Type 0} → A → Exec S A
  done a w = (ok a, w)

  unfoldable pub fail : {A : Type 0} → Exec S A
  fail w = (err, w)

  -- The result of a read, which a handler matches on.
  unfoldable pub read : {A : Type 0} → (S → Result A) → Exec S (Result A)
  read get w = (ok (get w.database), w)

  unfoldable pub or_error : {A : Type 0} → Result A → Exec S A
  unfolding done fail
  or_error (ok a) = done a
  or_error err = fail

  unfoldable pub stored : Result S → Exec S (Unit {0})
  stored (ok s) w = (ok tt, record w { database = s })
  stored err w = (err, w)

  unfoldable pub write : (S → Result S) → Exec S (Unit {0})
  unfolding stored
  write set w = stored (set w.database) w

  unfoldable pub ignore_error : Exec S (Unit {0}) → Exec S (Unit {0})
  ignore_error m w = (ok tt, (m w).1)

  unfoldable pub each : {A : Type 0} → (A → Exec S (Unit {0})) → List A → Exec S (Unit {0})
  unfolding done ◌>>=◌
  each f [] = done tt
  each f (a ∷ rest) = do f a; each f rest

unfoldable pub entry_of : Bytes → CheckpointSwapd → CheckpointEntry
entry_of swap_id state = record {
  swap_id = swap_id;
  deal = state.deal;
  trade_role = state.local_trade_role;
  expected_counterparty_node_id = state.connected_counterparty_node_id;
}

-- The deals of `pairs` that are not among `kept`.
unfoldable pub dangling : List Bytes → List DealStatusPair → List Bytes
dangling kept [] = []
dangling kept (p ∷ ps) =
    let rest = dangling kept ps in if member p.deal kept then rest else p.deal ∷ rest

module _ {S : Type 0} (env : Env S) where
  unfoldable pub send_to : ServiceId → Message → Exec S (Unit {0})
  send_to dest m w =
      if env.delivers w.trace dest m
      then (ok tt, record w { trace = sent dest m ∷ w.trace })
      else (err, w)

  unfoldable pub send_client : ServiceId → Message → Exec S (Unit {0})
  unfolding send_to client_dest
  send_client dest m = send_to (client_dest dest) m

  unfoldable pub answer_or_failure :
      {A : Type 0} → (A → Message) → ServiceId → Result A → Exec S (Unit {0})
  answer_or_failure message source (ok a) = send_client source (message a)
  answer_or_failure message source err = send_client source failure

  -- A checkpoint that was read, or nothing if its format is wrong or nothing was read.
  unfoldable pub send_restored : Bytes → Result CheckpointSwapd → Exec S (Unit {0})
  unfolding send_to done
  send_restored swap_id (ok state) = send_to (swap swap_id) (checkpoint_state swap_id state)
  send_restored swap_id err = done tt

  unfoldable pub decoded : Result Bytes → Result CheckpointSwapd
  decoded (ok raw) = env.formats.checkpoint_state.decode raw
  decoded err = err

  unfoldable pub swap_key : Bytes → CheckpointKey
  swap_key swap_id = record { swap_id = swap_id; service_id = swap swap_id }

  -- `CtlMsg::Checkpoint`.
  unfoldable pub set_checkpoint : ServiceId → Bytes → CheckpointSwapd → Exec S (Unit {0})
  unfolding ◌>>=◌ or_error write entry_of
  set_checkpoint source swap_id state = do
    write (set_checkpoint_info env.lmdb env.formats swap_id (entry_of swap_id state))
    raw ← or_error (env.formats.checkpoint_state.encode state)
    write (
        set_checkpoint_state env.lmdb env.formats
          (record { swap_id = swap_id; service_id = source }) raw)

  unfoldable pub restore : Bytes → Exec S (Unit {0})
  unfolding ◌>>=◌ read send_restored decoded swap_key
  restore swap_id = do
    raw ← read (get_checkpoint_state env.lmdb env.formats (swap_key swap_id))
    send_restored swap_id (decoded raw)

  unfoldable pub remove_both : Bytes → Exec S (Unit {0})
  unfolding ◌>>=◌ ignore_error write swap_key
  remove_both swap_id = do
    ignore_error (write (delete_checkpoint_state env.lmdb env.formats (swap_key swap_id)))
    ignore_error (write (delete_checkpoint_info env.lmdb env.formats swap_id))

  unfoldable pub end_deal : Bytes → Exec S (Unit {0})
  unfolding write
  end_deal deal = write (set_deal_status env.lmdb env.formats deal (ended failure_abort))

  unfoldable pub clean_dangling : Exec S (Unit {0})
  unfolding ◌>>=◌ read or_error each end_deal dangling
  clean_dangling = do
    checkpointed ← read (get_all_checkpoint_info env.lmdb env.formats)
    infos ← or_error checkpointed
    listed ← read (get_deals env.lmdb env.formats select_in_progress)
    pairs ← or_error listed
    each end_deal (dangling (map (λ i. i.deal) infos) pairs)

  unfoldable pub handle_ctl : ServiceId → CtlMsg → Exec S (Unit {0})
  unfolding done set_checkpoint restore remove_both write clean_dangling
  handle_ctl source hello = done tt
  handle_ctl source (checkpoint swap_id state) = set_checkpoint source swap_id state
  handle_ctl source (restore_checkpoint entry) = restore entry.swap_id
  handle_ctl source (remove_checkpoint swap_id) = remove_both swap_id
  handle_ctl source (set_address_secret_key (bitcoin_key address key)) =
      write (set_bitcoin_address env.lmdb env.formats address key)
  handle_ctl source (set_address_secret_key (monero_key address key)) =
      write (set_monero_address env.lmdb env.formats address key)
  handle_ctl source (deal_status deal status) =
      write (set_deal_status env.lmdb env.formats deal status)
  handle_ctl source clean_dangling_deals = clean_dangling
  handle_ctl source other_ctl = done tt

  -- A list that was read, or the error of reading it.
  list_to : {A : Type 0} → (A → Message) → ServiceId → (S → Result A) → Exec S (Unit {0})
  unfolding ◌>>=◌ read or_error send_client
  list_to message source get = do
    listed ← read get
    list ← or_error listed
    send_client source (message list)

  answer : {A : Type 0} → (A → Message) → ServiceId → (S → Result A) → Exec S (Unit {0})
  unfolding ◌>>=◌ read answer_or_failure
  answer message source get = do found ← read get; answer_or_failure message source found

  unfoldable pub handle_info : ServiceId → InfoMsg → Exec S (Unit {0})
  unfolding done list_to answer
  handle_info source (list_deals selector) =
      list_to deal_status_list source (get_deals env.lmdb env.formats selector)
  handle_info source retrieve_all_checkpoint_info =
      answer checkpoint_list source (get_all_checkpoint_info env.lmdb env.formats)
  handle_info source (get_checkpoint_entry swap_id) =
      answer checkpoint_entry source (get_checkpoint_info env.lmdb env.formats swap_id)
  handle_info source (get_address_secret_key monero address) =
      answer (λ key. address_secret_key (monero_key address key)) source
        (get_monero_address_secret_key env.lmdb env.formats address)
  handle_info source (get_address_secret_key bitcoin address) =
      answer (λ key. address_secret_key (bitcoin_key address key)) source
        (get_bitcoin_address_secret_key env.lmdb env.formats address)
  handle_info source (get_addresses bitcoin) =
      list_to (address_list bitcoin) source (get_all_bitcoin_addresses env.lmdb env.formats)
  handle_info source (get_addresses monero) =
      list_to (address_list monero) source (get_all_monero_addresses env.lmdb env.formats)
  handle_info source other_info = done tt

  unfoldable pub handle : ServiceBus → ServiceId → BusMsg → Exec S (Unit {0})
  unfolding fail
  handle ctl_bus source (ctl m) = handle_ctl source m
  handle info_bus source (info m) = handle_info source m
  handle _ source _ = fail
