-- ===== src/Resolver/Stripped.antt =====
-- internal/indexer/resolver.go: `stripJSONC` against an automaton that never looks back.
use vector_mcp_go.Base.{
  ℕ, ◌%◌, ◌≡◌, refl, ap, ◌∙◌, Bool, true, false, ◌&&◌, not, [], ◌∷◌, ◌==◌, if◌then◌else◌,
  Bool-cases, inl, inr, arith,
}
use vector_mcp_go.Base.Text.{Text}
use vector_mcp_go.Resolver.{in_code, in_line, in_block, backslashes, toggled, scan, strip_jsonc}

-- Where a reader of the text stands: out of the comments, in a string or not, with an odd number of
-- backslashes just read or not; or in a comment.
pub data Mode : Type 0 where
  out_of_comment : Bool → Bool → Mode
  line_comment : Mode
  block_comment : Mode

-- Whether the reader is in a string after a rune.
abbrev pub in_string_after : Bool → Bool → ℕ → Bool
in_string_after inside odd c = if c == b'"' then (if odd then inside else not inside) else inside

-- The text without its comments, one rune after the other.
abbrev pub strip : Mode → Text → Text
strip mode [] = []
strip (out_of_comment inside odd) (c ∷ []) = c ∷ []
strip line_comment (c ∷ []) = if c == b'\n' then c ∷ [] else []
strip block_comment (c ∷ []) = []
strip (out_of_comment inside odd) (c ∷ d ∷ s) =
    let after = in_string_after inside odd c in
    let line_begins = strip line_comment s in
    let block_begins = strip block_comment s in
    let kept = strip (out_of_comment after (c == b'\\' && not odd)) (d ∷ s) in
    if not after && (c == b'/' && d == b'/')
    then line_begins
    else if not after && (c == b'/' && d == b'*')
    then block_begins
    else c ∷ kept
strip line_comment (c ∷ d ∷ s) =
    let line_over = strip (out_of_comment false false) (d ∷ s) in
    let next = strip line_comment (d ∷ s) in if c == b'\n' then c ∷ line_over else next
strip block_comment (c ∷ d ∷ s) =
    let block_over = strip (out_of_comment false false) s in
    let next = strip block_comment (d ∷ s) in if c == b'*' && d == b'/' then block_over else next

abbrev is_odd : Text → Bool
is_odd before = not (backslashes before % 2 == 0)

is_odd_cons : (c : ℕ) (before : Text) → is_odd (c ∷ before) ≡ (c == b'\\' && not (is_odd before))
unfolding backslashes
is_odd_cons c before = elim (Bool-cases (c == b'\\')) [
  | inl e ↦ rw e (ground arith)
  | inr e ↦ rw e refl
]

is_odd_other : (c : ℕ) (before : Text) → (c == b'\\') ≡ false → is_odd (c ∷ before) ≡ false
unfolding backslashes
is_odd_other c before h = rw h refl

toggled-in_string_after :
    (before : Text) (inside : Bool) (c : ℕ)
    → toggled before inside c ≡ in_string_after inside (is_odd before) c
unfolding toggled
toggled-in_string_after before inside c = elim (Bool-cases (backslashes before % 2 == 0)) [
  | inl e ↦ rw e refl
  | inr e ↦ rw e refl
]

same_choice :
    {x x' y y' z z' : Text} (p q : Bool)
    → x ≡ x'
    → y ≡ y'
    → z ≡ z'
    → (if p then x else if q then y else z) ≡ (if p then x' else if q then y' else z')
same_choice p q e f g i = if p then e i else if q then f i else g i

-- The scan agrees with the automaton wherever it stands.
abbrev Agrees : Text → Text → Type 0
Agrees before s =
    ((inside : Bool)
      → scan before (in_code inside) s ≡ strip (out_of_comment inside (is_odd before)) s)
    × (scan before in_line s ≡ strip line_comment s)
    × (scan before in_block s ≡ strip block_comment s)

scan-strip : (before s : Text) → Agrees before s
unfolding scan
scan-strip before [] = (λ inside. refl, refl, refl)
scan-strip before (c ∷ []) = (λ inside. refl, refl, refl)
scan-strip before (c ∷ d ∷ s) =
    let next = scan-strip (c ∷ before) (d ∷ s) in
    let past = scan-strip (d ∷ c ∷ before) s in
    (
      λ inside.
          let kept : (after : Bool)
              → scan (c ∷ before) (in_code after) (d ∷ s)
                ≡ strip (out_of_comment after (c == b'\\' && not (is_odd before))) (d ∷ s) =
            λ after.
              next.0 after
              ∙ ap (λ o. strip (out_of_comment after o) (d ∷ s)) (is_odd_cons c before) in
          elim (Bool-cases (in_string_after inside (is_odd before) c)) [
            | inl e ↦ rw (toggled-in_string_after before inside c, e) (ap (◌∷◌ c) (kept true))
            | inr e ↦
                rw (toggled-in_string_after before inside c, e)
                  (same_choice (c == b'/' && d == b'/') (c == b'/' && d == b'*') past.1 past.2
                    (ap (◌∷◌ c) (kept false)))
          ],
      elim (Bool-cases (c == b'\n')) [
        | inl e ↦ rw e (
            ap (◌∷◌ c) (
              next.0 false
              ∙ ap (λ o. strip (out_of_comment false o) (d ∷ s))
                  (is_odd_other c before (ground arith))))
        | inr e ↦ rw e next.1
      ],
      elim (Bool-cases (c == b'*' && d == b'/')) [
        | inl e ↦ rw e (
            past.0 false
            ∙ ap (λ o. strip (out_of_comment false o) s)
                (is_odd_other d (c ∷ before) (ground arith)))
        | inr e ↦ rw e next.2
      ],
    )

-- `stripJSONC`, which counts the backslashes before each quote, gives the same text as the automaton,
-- which keeps their parity: quotes that are escaped do not end a string, nothing in a string begins a
-- comment, a line comment ends before its line break, which stays, and a block comment at the first
-- `*/`.
pub strip_jsonc-strip :
    (input : Text) → strip_jsonc input ≡ strip (out_of_comment false false) input
unfolding strip_jsonc backslashes
strip_jsonc-strip input = (scan-strip [] input).0 false
