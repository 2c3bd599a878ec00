-- ===== src/Lexical/Tokens.antt =====
-- internal/db/lexical/bm25.go: `tokenize` and `splitIdentifier`, over the runes of a text. The
-- classes of runes are those of the package unicode.
use mathlib.Core.List.{flatten}
use vector_mcp_go.Base.{
  ℕ, ==_iff, ◌≡◌, refl, sym, ap, ◌∙◌, Bool, true, false, ◌&&◌, ◌||◌, not, List, [], ◌∷◌, ◌++◌, ◌==◌,
  if◌then◌else◌, keep, arith, Bool-cases, inl, inr, append_assoc, append-nil,
}
use vector_mcp_go.Base.Text.{Text, text_eq, Lacks}

pub record Unicode : Type 0 where
  pub is_letter : ℕ → Bool
  pub is_digit : ℕ → Bool
  pub is_lower : ℕ → Bool
  pub is_upper : ℕ → Bool
  pub to_lower : ℕ → ℕ

-- `strings.Trim(fragment, "_")`: both ends.
trim_left : Text → Text
trim_left [] = []
trim_left (c ∷ s) = let rest = trim_left s in if c == b'_' then rest else c ∷ s

trim_right : Text → Text
trim_right [] = []
trim_right (c ∷ s) = elim (trim_right s) [
  | [] ↦ if c == b'_' then [] else c ∷ []
  | d ∷ t ↦ c ∷ d ∷ t
]

-- The run as a token, unless it is empty.
unfoldable emit_run : Text → List Text
emit_run [] = []
emit_run (c ∷ s) = (c ∷ s) ∷ []

trim : Text → Text
unfolding trim_left trim_right
trim s = trim_right (trim_left s)

-- `flush`: the fragment, if trimming leaves something of it.
unfoldable pub flush : Text → List Text
unfolding trim emit_run
flush fragment = emit_run (trim fragment)

module _ (u : Unicode) where
  -- Whether an upper-case run ends: the rune behind is lower-case.
  next_lower : Text → Bool
  next_lower [] = false
  next_lower (c ∷ s) = u.is_lower c

  -- Whether a new fragment begins at `curr`.
  unfoldable pub breaks : ℕ → ℕ → Text → Bool
  unfolding next_lower
  breaks prev curr rest =
      (u.is_lower prev && u.is_upper curr)
      || (u.is_digit prev && not (u.is_digit curr))
      || (not (u.is_digit prev) && u.is_digit curr)
      || (u.is_upper prev && u.is_upper curr && next_lower rest)

  -- The loop of `splitIdentifier`; the second argument is `runes[start:i]`.
  unfoldable pub split_from : ℕ → Text → Text → List Text
  split_from prev fragment [] = flush fragment
  split_from prev fragment (curr ∷ rest) =
      let under = flush fragment ++ split_from curr [] rest in
      let fresh = split_from curr (curr ∷ []) rest in
      let broken = flush fragment ++ split_from curr (curr ∷ []) rest in
      let longer = split_from curr (fragment ++ curr ∷ []) rest in
      if curr == b'_'
      then under
      else if prev == b'_'
      then fresh
      else if breaks prev curr rest
      then broken
      else longer

  -- `splitIdentifier`
  unfoldable pub split_identifier : Text → List Text
  unfolding split_from
  split_identifier [] = []
  split_identifier (c ∷ s) = split_from c (c ∷ []) s

  is_word : ℕ → Bool
  is_word r = u.is_letter r || u.is_digit r || r == b'_'

  -- `strings.FieldsFunc`: the longest runs of word runes.
  fields : Text → Text → List Text
  unfolding is_word emit_run
  fields run [] = emit_run run
  fields run (r ∷ s) =
      let inside = fields (run ++ r ∷ []) s in
      let outside = fields [] s in if is_word r then inside else emit_run run ++ outside

  lower : Text → Text
  lower [] = []
  lower (r ∷ s) = u.to_lower r ∷ lower s

  -- The fragments of a token that differ from it.
  extra : Text → List Text → List Text
  unfolding lower
  extra token [] = []
  extra token (f ∷ fs) =
      let rest = extra token fs in
      if text_eq (lower f) [] || text_eq (lower f) token then rest else lower f ∷ rest

  expand : List Text → List Text
  unfolding extra split_identifier lower
  expand [] = []
  expand (token ∷ tokens) =
      lower token ∷ extra (lower token) (split_identifier token) ++ expand tokens

  -- `tokenize`
  unfoldable pub tokenize : Text → List Text
  unfolding fields expand
  tokenize text = expand (fields [] text)

abbrev pub letters : Text → Text
letters = keep (λ c. not (c == b'_'))

-- What holds in the loop of the runes from `start` on: behind an underscore they add nothing, and
-- else no underscore is among them.
data IsFragment (prev : ℕ) (fragment : Text) : Type 0 where
  inside : (prev == b'_') ≡ false → Lacks b'_' fragment → IsFragment prev fragment
  under :
      (prev == b'_') ≡ true
      → letters fragment ≡ []
      → flatten (flush fragment) ≡ []
      → IsFragment prev fragment

letters_id : (s : Text) → Lacks b'_' s → letters s ≡ s
letters_id [] h = refl
letters_id (c ∷ s) h = ground (arith, letters_id s h.1)

trim_left_id : (s : Text) → Lacks b'_' s → trim_left s ≡ s
unfolding trim_left
trim_left_id [] h = refl
trim_left_id (c ∷ s) h = ground arith

trim_right_id : (s : Text) → Lacks b'_' s → trim_right s ≡ s
unfolding trim_right
trim_right_id [] h = refl
trim_right_id (c ∷ []) h = ground arith
trim_right_id (c ∷ d ∷ s) h = rw (trim_right_id (d ∷ s) h.1)

trim_id : (s : Text) → Lacks b'_' s → trim s ≡ s
unfolding trim
trim_id s h = rw (trim_left_id s h, trim_right_id s h)

flatten-emit_run : (s : Text) → flatten (emit_run s) ≡ s
unfolding flatten emit_run
flatten-emit_run [] = refl
flatten-emit_run (c ∷ s) = append-nil (c ∷ s)

flatten-flush_plain : (s : Text) → Lacks b'_' s → flatten (flush s) ≡ letters s
unfolding flush
flatten-flush_plain s h = rw (trim_id s h, flatten-emit_run s) (sym (letters_id s h))

flatten-flush : (prev : ℕ) (s : Text) → IsFragment prev s → flatten (flush s) ≡ letters s
flatten-flush prev s (inside e h) = flatten-flush_plain s h
flatten-flush prev s (under e h k) = k ∙ sym h

flatten_append : (xs ys : List Text) → flatten (xs ++ ys) ≡ flatten xs ++ flatten ys
unfolding flatten
flatten_append [] ys = refl
flatten_append (x ∷ xs) ys =
    rw (flatten_append xs ys) (sym (append_assoc x (flatten xs) (flatten ys)))

letters_append : (s t : Text) → letters (s ++ t) ≡ letters s ++ letters t
letters_append [] t = refl
letters_append (c ∷ s) t = elim (Bool-cases (c == b'_')) [
  | inl e ↦ rw e (letters_append s t)
  | inr e ↦ rw e (ap (◌∷◌ c) (letters_append s t))
]

Lacks-snoc : (s : Text) (c : ℕ) → Lacks b'_' s → (c == b'_') ≡ false → Lacks b'_' (s ++ c ∷ [])
Lacks-snoc [] c h e = ground arith
Lacks-snoc (d ∷ s) c h e = (h.0, Lacks-snoc s c h.1 e)

module _ (u : Unicode) where
  split_from-letters :
      (prev : ℕ) (fragment rest : Text)
      → IsFragment prev fragment
      → flatten (split_from u prev fragment rest) ≡ letters fragment ++ letters rest
  unfolding split_from
  split_from-letters prev fragment [] f =
      flatten-flush prev fragment f ∙ sym (append-nil (letters fragment))
  split_from-letters prev fragment (curr ∷ rest) f = elim (Bool-cases (curr == b'_')) [
    | inl e ↦
        rw
          (
            e,
            flatten_append (flush fragment) (split_from u curr [] rest),
            flatten-flush prev fragment f,
          )
          (ap (◌++◌ (letters fragment)) (
            split_from-letters curr [] rest
              (under e refl (unfold flush trim trim_left trim_right flatten emit_run in refl))))
    | inr e ↦ rw e (elim f [
      | under d h k ↦
          rw (d, h)
            (split_from-letters curr (curr ∷ []) rest (inside e (ground arith, tt)) ∙ rw e refl)
      | inside d h ↦ rw d (elim (Bool-cases (breaks u prev curr rest)) [
        | inl b ↦
            rw
              (
                b,
                flatten_append (flush fragment) (split_from u curr (curr ∷ []) rest),
                flatten-flush_plain fragment h,
              )
              (ap (◌++◌ (letters fragment)) (
                split_from-letters curr (curr ∷ []) rest (inside e (ground arith, tt)) ∙ rw e refl))
        | inr b ↦ rw b (
            split_from-letters curr (fragment ++ curr ∷ []) rest
              (inside e (Lacks-snoc fragment curr h e))
            ∙ rw (letters_append fragment (curr ∷ []), e)
                (append_assoc (letters fragment) (curr ∷ []) (letters rest)))
      ])
    ])
  ]

  -- No rune of an identifier but its underscores is lost, moved or doubled when it is split: the
  -- fragments, put together, are the identifier without its underscores, for every classification
  -- of runes.
  pub split_identifier-letters : (s : Text) → flatten (split_identifier u s) ≡ letters s
  unfolding split_identifier flatten
  split_identifier-letters [] = refl
  split_identifier-letters (c ∷ s) = elim (Bool-cases (c == b'_')) [
    | inl e ↦
        split_from-letters c (c ∷ []) s (
          under e (rw e refl)
            (rw ((==_iff c b'_').0 e) (unfold flush trim trim_left trim_right emit_run in refl)))
        ∙ rw e refl
    | inr e ↦ split_from-letters c (c ∷ []) s (inside e (ground arith, tt)) ∙ rw e refl
  ]

-- What a test has to see through.
unfoldable pub tokens_code : Unit {0}
unfolding trim_left trim_right emit_run trim flush next_lower breaks split_from
tokens_code = tt
