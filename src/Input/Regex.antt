-- ===== src/Input/Regex.antt =====
-- What a pattern that passes `RegexValidator.Validate` is like.
use vector_mcp_go.Base.{
  ℕ, ◌+◌, ◌*◌, ◌≤◌, ◌≡◌, refl, sym, ap, ◌∙◌, Bool, true, false, ◌&&◌, ◌||◌, any, append_assoc, [],
  ◌∷◌, ◌++◌, ◌==◌, if◌then◌else◌, arith, Bool-cases, inl, inr,
}
use vector_mcp_go.Base.Int.{ℤ, pos, ltb_ℤ, ◌≤ℤ◌, ◌+ℤ◌, ◌-ℤ◌, pos_part, neg_part, +ℤ_parts, -ℤ_parts}
use vector_mcp_go.Base.Text.{Text, Lacks}
use vector_mcp_go.Input.{
  byte_length, passed, RegexValidator, count_char, is_quantifier, starts_quantified, group_repeats,
  nested_quantifier, repetition_count, nesting, validate_regex,
}

deeper-ge :
    (max_depth up : ℤ)
    → (max_depth ≤ℤ (if ltb_ℤ max_depth up then up else max_depth))
      × (up ≤ℤ (if ltb_ℤ max_depth up then up else max_depth))
deeper-ge max_depth up = ground arith

nesting-ge : (s : Text) (depth max_depth : ℤ) → max_depth ≤ℤ nesting s depth max_depth
unfolding nesting
nesting-ge [] depth max_depth = omega arith
nesting-ge (r ∷ s) depth max_depth = elim (Bool-cases (r == b'(')) [
  | inl o ↦ rw o (
      omega (
        arith,
        (deeper-ge max_depth (depth +ℤ pos 1)).0,
        nesting-ge s (depth +ℤ pos 1)
            (if ltb_ℤ max_depth (depth +ℤ pos 1) then depth +ℤ pos 1 else max_depth),
      ))
  | inr o ↦ elim (Bool-cases (r == b')')) [
    | inl c ↦ rw (o, c) (nesting-ge s (depth -ℤ pos 1) max_depth)
    | inr c ↦ rw (o, c) (nesting-ge s depth max_depth)
  ]
]

-- From depth `d`, `opened` levels up and `closed` down end no higher than `n`.
-- The operators +, * and ?.
abbrev pub is_repeating : ℕ → Bool
is_repeating r = any (λ c. r == c) (b'+' ∷ b'*' ∷ b'?' ∷ [])

abbrev Under : ℤ → ℕ → ℕ → ℤ → Type 0
Under d opened closed n = pos_part d + opened + neg_part n ≤ pos_part n + neg_part d + closed

nesting-prefix :
    (p s : Text) (depth max_depth : ℤ)
    → depth ≤ℤ max_depth
    → Under depth (count_char b'(' p) (count_char b')' p) (nesting (p ++ s) depth max_depth)
unfolding nesting count_char
nesting-prefix [] s depth max_depth h = omega (arith, nesting-ge s depth max_depth)
nesting-prefix (r ∷ p) s depth max_depth h = elim (Bool-cases (r == b'(')) [
  | inl o ↦
      let up = depth +ℤ pos 1 in
      let top = if ltb_ℤ max_depth up then up else max_depth in
      let other : (r == b')') ≡ false = ground arith in
      rw (o, other)
        (omega
          (arith, nesting-prefix p s up top (deeper-ge max_depth up).1, +ℤ_parts depth (pos 1)))
  | inr o ↦ elim (Bool-cases (r == b')')) [
    | inl c ↦
        rw (o, c)
          (omega (
            arith,
            nesting-prefix p s (depth -ℤ pos 1) max_depth (omega (arith, -ℤ_parts depth (pos 1))),
            -ℤ_parts depth (pos 1),
          ))
    | inr c ↦ rw (o, c) (omega (arith, nesting-prefix p s depth max_depth h))
  ]
]

passed-parts :
    (v : RegexValidator) (pattern : Text)
    → validate_regex v pattern ≡ passed
    → (byte_length pattern ≤ v.max_length)
      × (nested_quantifier pattern ≡ false)
      × (repetition_count pattern ≤ v.max_repetition * 10)
      × (count_char b'|' pattern ≤ v.max_alternation)
      × (nesting pattern (pos 0) (pos 0) ≤ℤ v.max_nesting)
unfolding validate_regex
passed-parts v pattern h = ground arith

or_left : (a b : Bool) → (a || b) ≡ false → a ≡ false
or_left true b h = cc
or_left false b h = refl

or_right : (a b : Bool) → (a || b) ≡ false → b ≡ false
or_right true b h = cc
or_right false b h = h

or_assoc : (a b c : Bool) → ((a || b) || c) ≡ (a || (b || c))
or_assoc true b c = refl
or_assoc false b c = refl

or_nil : (a : Bool) → (a || false) ≡ a
or_nil true = refl
or_nil false = refl

-- A group up to its closing parenthesis repeats where it holds a repetition and is repeated.
group_repeats_lem :
    (seen : Bool) (g s : Text) (q : ℕ)
    → Lacks b')' g
    → group_repeats seen (g ++ b')' ∷ q ∷ s) ≡ (seen || any is_quantifier g) && is_quantifier q
unfolding group_repeats starts_quantified
group_repeats_lem seen [] s q h = rw (or_nil seen) refl
group_repeats_lem seen (r ∷ g) s q h =
    let other : (r == b')') ≡ false = ground arith in
    rw (other, group_repeats_lem (seen || is_quantifier r) g s q h.1)
      (ap (λ b. b && is_quantifier q) (or_assoc seen (is_quantifier r) (any is_quantifier g)))

nested_quantifier-suffix :
    (p s : Text) → nested_quantifier (p ++ s) ≡ false → nested_quantifier s ≡ false
unfolding nested_quantifier
nested_quantifier-suffix [] s h = h
nested_quantifier-suffix (r ∷ p) s h = nested_quantifier-suffix p s (or_right _ _ h)

is_repeating-is_quantifier : (r : ℕ) → is_repeating r ≡ is_quantifier r
is_repeating-is_quantifier r = ground arith

-- With a limit on the nesting that is not negative, take a pattern that passes and an opening
-- parenthesis in it, with a closing one behind it that is the next and is not the last rune. A repeating
-- operator +, * or ? does not both stand between the two and follow the second one; and up to the first
-- one, that included, no more parentheses are opened than are closed and the limit on the nesting.
pub validate_regex_sound :
    (v : RegexValidator) (p g s : Text) (q m : ℕ)
    → v.max_nesting ≡ pos m
    → Lacks b')' g
    → validate_regex v (p ++ b'(' ∷ (g ++ b')' ∷ q ∷ s)) ≡ passed
    → ((any is_repeating g && is_repeating q) ≡ false)
      × (count_char b'(' (p ++ b'(' ∷ []) ≤ m + count_char b')' (p ++ b'(' ∷ []))
unfolding nested_quantifier
validate_regex_sound v p g s q m e closed h =
    let rest = g ++ b')' ∷ q ∷ s in
    let parts = passed-parts v (p ++ b'(' ∷ rest) h in
    let shallow : nesting ((p ++ b'(' ∷ []) ++ rest) (pos 0) (pos 0) ≤ℤ pos m =
      rw (append_assoc p (b'(' ∷ []) rest) (rw e at parts.4) in
    (
      (λ i. any (λ r. is_repeating-is_quantifier r i) g && is_repeating-is_quantifier q i)
          ∙ sym (group_repeats_lem false g s q closed)
          ∙ or_left _ _ (nested_quantifier-suffix p (b'(' ∷ rest) parts.1),
      omega (arith, nesting-prefix (p ++ b'(' ∷ []) rest (pos 0) (pos 0) (omega arith), shallow),
    )
