-- ===== src/Swapd/SwapState.antt =====
-- `SwapStateMachine` of src/swapd/swap_state.rs: one handler for each state, and `next`, which picks
-- it. `none` means that the request makes no transition.
pub mod Common
pub mod Start
pub mod Reveal
pub mod Bob
pub mod BobEnd
pub mod Alice
pub mod AliceEnd
pub mod Next
pub mod Graph
pub mod FollowsStart
pub mod FollowsBob
pub mod FollowsAlice
pub mod Follows
pub mod Runs
pub mod Outcomes
pub mod Ranks
pub mod QuietParts
pub mod QuietHandlers
pub mod Publishes
pub mod PublishBob
pub mod PublishAlice
pub mod Published
pub mod Refusals
mod Examples
