-- ===== src/Bus.antt =====
-- The chains, and the services of src/service.rs that messages are addressed to. Values of foreign
-- crates (addresses, keys, node addresses, transaction ids) are the bytes that they serialise to.
use farcaster_node.Base.{ℕ, List, ℕ_discrete, Eq}

abbrev pub Bytes : Type 0
Bytes = List ℕ

pub data Blockchain : Type 0 where
  bitcoin monero : Blockchain

pub data Network : Type 0 where
  mainnet testnet local : Network

pub data ServiceId : Type 0 where
  loopback : ServiceId
  farcasterd : ServiceId
  peer : ℕ → Bytes → ServiceId
  swap : Bytes → ServiceId
  client : ℕ → ServiceId
  syncer : Blockchain → Network → ServiceId
  wallet : ServiceId
  grpcd : ServiceId
  grpcd_client : ℕ → ServiceId
  database : ServiceId
  other : Bytes → ServiceId

unfoldable pub Bytes-discrete : Discrete Bytes
Bytes-discrete = hlevel ℕ_discrete

unfoldable pub Blockchain-discrete : Discrete Blockchain
Blockchain-discrete = hlevel

unfoldable pub ServiceId-discrete : Discrete ServiceId
unfolding Bytes-discrete Blockchain-discrete
ServiceId-discrete = hlevel ℕ_discrete

instance abbrev pub Bytes_eq : Eq Bytes
Bytes_eq = record { eq_dec = Bytes-discrete }

instance abbrev pub ServiceId_eq : Eq ServiceId
ServiceId_eq = record { eq_dec = ServiceId-discrete }
