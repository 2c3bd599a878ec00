-- ===== src/Chunk/Contents.antt =====
-- The chunks of a text hold the whole text, and none is longer than the window.
use vector_mcp_go.Base.{
  ℕ, zero, suc, ◌+◌, ◌-◌, ◌≤◌, ◌<◌, ◌≡◌, refl, ap, sym, ◌∙◌, some, List, [], ◌∷◌, ◌++◌, map, length,
  take, drop, All, arith, leb, Bool-cases, inl, inr, append-nil, take-append-drop,
  take_of_length-le, length-take, length-drop,
}
use vector_mcp_go.Base.Text.{Text}
use vector_mcp_go.Chunk.{
  Chunk, slice, fast_piece, fast_chunk_with, split_piece, split_if_needed_with,
}
use vector_mcp_go.Chunk.Tiles.{Tiles, windows-Tiles}

tails : ℕ → List Text → Text
tails overlap [] = []
tails overlap (c ∷ cs) = drop overlap c ++ tails overlap cs

-- The text that chunks spell, where each but the first repeats `overlap` runes of the one before.
pub stitch : ℕ → List Text → Text
unfolding tails
stitch overlap [] = []
stitch overlap (c ∷ cs) = c ++ tails overlap cs

drop-append : (n : ℕ) (xs ys : Text) → n ≤ length xs → drop n (xs ++ ys) ≡ drop n xs ++ ys
drop-append zero xs ys h = refl
drop-append (suc n) [] ys h = absurd (omega arith)
drop-append (suc n) (x ∷ xs) ys h = drop-append n xs ys (omega arith)

drop-drop : (a b : ℕ) (xs : Text) → drop a (drop b xs) ≡ drop (b + a) xs
drop-drop a zero xs = ap (λ k. drop k xs) (omega arith)
drop-drop a (suc b) [] = drop-nil a ∙ sym (ap (λ k. drop k []) (e a b) ∙ refl)
  where
    drop-nil : (k : ℕ) → drop k [] ≡ drop {A = ℕ} (suc k) []
    drop-nil zero = refl
    drop-nil (suc k) = refl

    e : (a b : ℕ) → suc b + a ≡ suc (b + a)
    e a b = omega arith
drop-drop a (suc b) (x ∷ xs) = drop-drop a b xs ∙ ap (λ k. drop k (x ∷ xs)) (e a b)
  where
    e : (a b : ℕ) → suc (b + a) ≡ suc b + a
    e a b = omega arith

module _ (size overlap : ℕ) (o : overlap < size) (text : Text) where
  abbrev pieces : List (ℕ × ℕ) → List Text
  pieces = map (λ w. slice w.0 w.1 text)

  length-slice : (i end : ℕ) → end ≤ length text → i ≤ end → length (slice i end text) ≡ end - i
  length-slice i end h k = omega (arith, length-take (end - i) (drop i text), length-drop i text)

  tails-pieces :
      (i : ℕ) (ws : List (ℕ × ℕ))
      → Tiles size overlap (length text) i ws
      → i + overlap < length text
      → tails overlap (pieces ws) ≡ drop overlap (stitch overlap (pieces ws))
  unfolding stitch
  tails-pieces i ws (Tiles.final i' h k) lt = sym (
      drop-append overlap (slice i (length text) text) []
        (omega (arith, length-slice i (length text) (omega arith) (omega arith))))
  tails-pieces i ws (Tiles.next i' rest h t) lt = sym (
      drop-append overlap (slice i (i + size) text) (tails overlap (pieces rest))
        (omega (arith, length-slice i (i + size) (omega arith) (omega arith))))

  stitch-pieces :
      (i : ℕ) (ws : List (ℕ × ℕ))
      → Tiles size overlap (length text) i ws
      → stitch overlap (pieces ws) ≡ drop i text
  unfolding stitch
  stitch-pieces i ws (Tiles.final i' h k) =
      append-nil _ ∙ take_of_length-le _ _ (omega (arith, length-drop i text))
  stitch-pieces i ws (Tiles.next i' rest h t) =
      let ih = stitch-pieces (i + (size - overlap)) rest t in
      let again : tails overlap (pieces rest) ≡ drop size (drop i text) =
        tails-pieces (i + (size - overlap)) rest t (omega arith)
        ∙ ap (drop overlap) ih
        ∙ drop-drop overlap (i + (size - overlap)) text
        ∙ ap (λ k. drop k text) (omega arith)
        ∙ sym (drop-drop size i text) in
      ap (λ k. take k (drop i text) ++ tails overlap (pieces rest)) (omega arith)
      ∙ ap (λ t. take size (drop i text) ++ t) again
      ∙ take-append-drop size (drop i text)

  pieces-Small :
      (i : ℕ) (ws : List (ℕ × ℕ))
      → Tiles size overlap (length text) i ws
      → All (λ c. length c ≤ size) (pieces ws)
  pieces-Small i ws (Tiles.final i' h k) =
      (omega (arith, length-slice i (length text) (omega arith) (omega arith)), tt)
  pieces-Small i ws (Tiles.next i' rest h t) = (
    omega (arith, length-slice i (i + size) (omega arith) (omega arith)),
    pieces-Small (i + (size - overlap)) rest t,
  )

abbrev pub contents : {F : Type 0} → List (Chunk F) → List Text
contents = map (λ c. c.content)

contents-fast :
    {F : Type 0} (z : F) (text : Text) (ws : List (ℕ × ℕ))
    → contents (map (fast_piece z text) ws) ≡ map (λ w. slice w.0 w.1 text) ws
unfolding fast_piece
contents-fast z text [] = refl
contents-fast z text (w ∷ ws) = ap (◌∷◌ (slice w.0 w.1 text)) (contents-fast z text ws)

contents-split :
    {F : Type 0} (c : Chunk F) (ws : List (ℕ × ℕ))
    → contents (map (split_piece c) ws) ≡ map (λ w. slice w.0 w.1 c.content) ws
unfolding split_piece
contents-split c [] = refl
contents-split c (w ∷ ws) = ap (◌∷◌ (slice w.0 w.1 c.content)) (contents-split c ws)

-- Where the overlap is less than the window, `fastChunk` ends on every text. Its chunks spell the
-- text when the overlaps are left out, and none has more runes than the window.
pub fast_chunk-stitch :
    {F : Type 0} (size overlap : ℕ) (z : F) (text : Text)
    → overlap < size
    → (cs : List (Chunk F)) × (fast_chunk_with size overlap z text ≡ some cs)
      × (stitch overlap (contents cs) ≡ text)
      × All (λ c. length c ≤ size) (contents cs)
unfolding fast_chunk_with
fast_chunk-stitch size overlap z [] o = ([], refl, unfold stitch in refl, tt)
fast_chunk-stitch size overlap z (x ∷ xs) o =
    let text = x ∷ xs in
    let (ws, runs, t) =
      windows-Tiles size overlap (suc (length text)) (length text) 0 o (omega arith)
        (omega arith) in
    (
      map (fast_piece z text) ws,
      rw runs,
      rw (contents-fast z text ws) (stitch-pieces size overlap o text 0 ws t),
      rw (contents-fast z text ws) (pieces-Small size overlap o text 0 ws t),
    )

-- Where the overlap is less than the limit, `splitIfNeeded` ends on every chunk. The contents of
-- its chunks spell the chunk's content when the overlaps are left out, and none has more runes than
-- the limit.
pub split_if_needed-stitch :
    {F : Type 0} (size overlap : ℕ) (c : Chunk F)
    → overlap < size
    → (cs : List (Chunk F)) × (split_if_needed_with size overlap c ≡ some cs)
      × (stitch overlap (contents cs) ≡ c.content)
      × All (λ t. length t ≤ size) (contents cs)
unfolding split_if_needed_with
split_if_needed-stitch size overlap c o = elim (Bool-cases (leb (length c.content) size)) [
  | inl small ↦ (c ∷ [], rw small, unfold stitch in append-nil c.content, (ground arith, tt))
  | inr large ↦
      let n = length c.content in
      let (ws, runs, t) = windows-Tiles size overlap (suc n) n 0 o (ground arith) (omega arith) in
      (
        map (split_piece c) ws,
        rw (large, runs),
        rw (contents-split c ws) (stitch-pieces size overlap o c.content 0 ws t),
        rw (contents-split c ws) (pieces-Small size overlap o c.content 0 ws t),
      )
]
