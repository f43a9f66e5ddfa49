-- ===== src/Syncerd/Chunks.antt =====
-- The chunks that src/syncerd/syncer_state.rs cuts a transaction into, and what src/swapd reads back.
use farcaster_node.Base.{ℕ, zero, suc, ◌-◌, List, [], ◌∷◌, ◌++◌}

-- The list is walked once: what is left of the chunk that `room` elements still fit into, and the
-- chunks after it.
chunks_from {ℓ} : {A : Type ℓ} → ℕ → ℕ → List A → List A × List (List A)
chunks_from n room [] = ([], [])
chunks_from n zero (x ∷ xs) = let (c, cs) = chunks_from n (n - 1) xs in ([], (x ∷ c) ∷ cs)
chunks_from n (suc room) (x ∷ xs) = let (c, cs) = chunks_from n room xs in (x ∷ c, cs)

join_chunk {ℓ} : {A : Type ℓ} → List A × List (List A) → List (List A)
join_chunk ([], cs) = cs
join_chunk (x ∷ c, cs) = (x ∷ c) ∷ cs

-- `slice::chunks(n)` for a positive `n`.
unfoldable pub chunks {ℓ} : {A : Type ℓ} → ℕ → List A → List (List A)
unfolding chunks_from join_chunk
chunks n xs = join_chunk (chunks_from n n xs)

-- `into_iter().flatten()`.
unfoldable pub flatten_chunks {ℓ} : {A : Type ℓ} → List (List A) → List A
flatten_chunks [] = []
flatten_chunks (c ∷ cs) = c ++ flatten_chunks cs
