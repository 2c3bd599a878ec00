-- ===== src/Chunk/Lines.antt =====
-- The line numbers of the chunks, and the relations without repeats.
use vector_mcp_go.Base.{
  ℕ, zero, suc, ◌+◌, ◌-◌, ◌≤◌, ◌<◌, ◌≡◌, refl, ap, sym, ◌∙◌, false, List, [], ◌∷◌, ◌++◌, take, drop,
  arith, if◌then◌else◌, Bool-cases, inl, inr,
}
use vector_mcp_go.Base.Text.{Text, text_eq→eq, text_eq_refl}
use vector_mcp_go.Chunk.{
  Chunk, slice, count_lines, fast_piece, split_piece, seen_before, unique_relations,
}

count_lines-append : (s t : Text) → count_lines (s ++ t) ≡ count_lines s + count_lines t
unfolding count_lines
count_lines-append [] t = omega arith
count_lines-append (c ∷ s) t = ground (arith, count_lines-append s t)

take-nil : (k : ℕ) → take {A = ℕ} k [] ≡ []
take-nil zero = refl
take-nil (suc k) = refl

take-append-slice : (i k : ℕ) (t : Text) → take i t ++ take k (drop i t) ≡ take (i + k) t
take-append-slice zero k t = ap (λ m. take m t) (omega arith)
take-append-slice (suc i) zero [] = sym (take-nil (suc i + zero))
take-append-slice (suc i) (suc k) [] = sym (take-nil (suc i + suc k))
take-append-slice (suc i) k (c ∷ t) =
    ap (◌∷◌ c) (take-append-slice i k t) ∙ ap (λ m. take m (c ∷ t)) (e i k)
  where
    e : (i k : ℕ) → suc (i + k) ≡ suc i + k
    e i k = omega arith

-- A chunk of `fastChunk` over the runes from `i` up to `end` begins on the line of rune `i` and
-- ends on the line that rune `end` is on, counted from 1.
pub fast_piece-lines :
    {F : Type 0} (z : F) (t : Text) (i end : ℕ)
    → i ≤ end
    → ((fast_piece z t (i, end)).start_line ≡ count_lines (take i t) + 1)
      × ((fast_piece z t (i, end)).end_line ≡ count_lines (take end t) + 1)
unfolding fast_piece
fast_piece-lines z t i end h =
    let e : take i t ++ slice i end t ≡ take end t =
      take-append-slice i (end - i) t ∙ ap (λ m. take m t) (omega arith) in
    (refl, omega (arith, ap count_lines e, count_lines-append (take i t) (slice i end t)))

-- A chunk of `splitIfNeeded`, other than the first, that has fewer line breaks than the runes
-- before it ends on a line before the one it begins on.
pub split_piece-reversed :
    {F : Type 0} (c : Chunk F) (i end : ℕ)
    → 0 < i
    → count_lines (slice i end c.content) < count_lines (take i c.content)
    → (split_piece c (i, end)).end_line < (split_piece c (i, end)).start_line
unfolding split_piece
split_piece-reversed c i end p h = ground arith

seen_unique :
    (q : Text) (seen rs : List Text)
    → seen_before q (unique_relations seen rs)
      ≡ (if seen_before q seen then false else seen_before q rs)
unfolding unique_relations seen_before
seen_unique q seen [] = ground arith
seen_unique q seen (r ∷ rs) =
    ground
      (arith, seen_unique q seen rs, seen_unique q (r ∷ seen) rs, text_eq→eq q r, text_eq_refl q)

-- No relation occurs twice.
abbrev pub Unique : List Text → Type 0
Unique [] = Unit
Unique (r ∷ rs) = (seen_before r rs ≡ false) × Unique rs

Unique-Unique : (seen rs : List Text) → Unique (unique_relations seen rs)
unfolding unique_relations
Unique-Unique seen [] = tt
Unique-Unique seen (r ∷ rs) = elim (Bool-cases (seen_before r seen)) [
  | inl old ↦ rw old (Unique-Unique seen rs)
  | inr new ↦ rw new (
    seen_unique r (r ∷ seen) rs ∙ unfold seen_before in rw (text_eq_refl r),
    Unique-Unique (r ∷ seen) rs,
  )
]

-- The relations of a file are those found in it, each once.
pub unique_relations_lem :
    (rs : List Text)
    → Unique (unique_relations [] rs)
      × ((q : Text) → seen_before q (unique_relations [] rs) ≡ seen_before q rs)
unfolding seen_before
unique_relations_lem rs = (Unique-Unique [] rs, λ q. seen_unique q [] rs)
