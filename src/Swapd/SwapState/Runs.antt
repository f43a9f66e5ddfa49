-- ===== src/Swapd/SwapState/Runs.antt =====
-- What the diagram of states in src/swapd/swap_state.rs means for whole runs of `next`, one request
-- after another; between two requests the rest of the runtime may change in any way.
use farcaster_node.Base.{◌≡◌, some}
use farcaster_node.Bus.{ServiceId}
use farcaster_node.Swapd.Messages.{Request, State}
use farcaster_node.Swapd.Runtime.{Env, World, ok}
use farcaster_node.Swapd.SwapState.Next.{next}

-- One request after another, each of which moves the swap.
pub data Runs (env : Env) : State → State → Type 0 where
  stays : {s : State} → Runs env s s
  moves :
      {s t u : State} (source : ServiceId) (q : Request) (w w' : World)
      → next env s source q w ≡ (ok (some t), w')
      → Runs env t u
      → Runs env s u
