-- ===== src/Chunk/Tiles.antt =====
-- The windows end, and they tile the text: each begins `overlap` before the end of the last.
use vector_mcp_go.Base.{
  ℕ, zero, suc, ◌+◌, ◌-◌, ◌≤◌, ◌<◌, ◌≡◌, some, List, [], ◌∷◌, arith, ltb, ◌==◌, Bool-cases, inl,
  inr,
}
use vector_mcp_go.Chunk.{windows}

-- The windows of `size` runes over `n` runes from `i` on, each `size - overlap` after the last, up
-- to the first that reaches the end.
pub data Tiles (size overlap n : ℕ) : ℕ → List (ℕ × ℕ) → Type 0 where
  final : (i : ℕ) → i < n → n ≤ i + size → Tiles size overlap n i ((i, n) ∷ [])
  next :
      (i : ℕ) (ws : List (ℕ × ℕ))
      → i + size < n
      → Tiles size overlap n (i + (size - overlap)) ws
      → Tiles size overlap n i ((i, i + size) ∷ ws)

pub windows-Tiles :
    (size overlap fuel n i : ℕ)
    → overlap < size
    → i < n
    → n < i + fuel
    → (ws : List (ℕ × ℕ)) × (windows size overlap fuel n i ≡ some ws) × Tiles size overlap n i ws
unfolding windows
windows-Tiles size overlap zero n i o h f = absurd (omega arith)
windows-Tiles size overlap (suc fuel) n i o h f = elim (Bool-cases (ltb n (i + size))) [
  | inl short ↦ ((i, n) ∷ [], ground arith, Tiles.final i h (ground arith))
  | inr long ↦ elim (Bool-cases (i + size == n)) [
    | inl exact ↦ ((i, n) ∷ [], ground arith, Tiles.final i h (ground arith))
    | inr more ↦
        let (ws, runs, t) =
          windows-Tiles size overlap fuel n (i + (size - overlap)) o (ground arith)
            (ground arith) in
        ((i, i + size) ∷ ws, ground arith, Tiles.next i ws (ground arith) t)
  ]
]
