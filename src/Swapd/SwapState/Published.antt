-- ===== src/Swapd/SwapState/Published.antt =====
-- Everything that `SwapStateMachine::next` of src/swapd/swap_state.rs broadcasts.
use farcaster_node.Swapd.Runtime.Casts.{Casts}
