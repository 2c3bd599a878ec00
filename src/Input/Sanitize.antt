-- ===== src/Input/Sanitize.antt =====
-- What the sanitised texts and the clamped numbers are like.
use vector_mcp_go.Base.{
  ℕ, zero, suc, ◌≤◌, ◌≡◌, ◌↔◌, ◌⊎◌, refl, ap, true, false, [], ◌∷◌, length, take, any, ◌==◌, arith,
  All, Bool-cases, inl, inr, length-take, take_of_length-le,
}
use vector_mcp_go.Base.Int.{ℤ, pos, negsuc, ◌≤ℤ◌}
use vector_mcp_go.Base.Text.{Text}
use vector_mcp_go.Input.{
  byte_length, truncate, is_control, strip_control, sanitize_query, validate_search_query, passed,
  validate_limit, default_max, unicode_printable, is_printable, strip_non_printable,
}

length-le-byte_length : (s : Text) → length s ≤ byte_length s
unfolding byte_length
length-le-byte_length [] = omega arith
length-le-byte_length (r ∷ s) = ground (arith, length-le-byte_length s)

-- The test on the bytes lets through no text with too many runes.
truncate-take : (q : Text) (n : ℕ) → truncate q (pos (suc n)) ≡ take (suc n) q
unfolding truncate
truncate-take q n = ground (arith, length-le-byte_length q, take_of_length-le (suc n) q)

-- A rune from the space on, a tab, a line feed or a carriage return.
abbrev pub IsClean : ℕ → Type 0
IsClean r = (0x20 ≤ r) ⊎ ((r ≡ 9) ⊎ ((r ≡ 10) ⊎ (r ≡ 13)))

kept-IsClean : (r : ℕ) → is_control r ≡ false → IsClean r
kept-IsClean r c = ground arith

IsClean-kept : (r : ℕ) → IsClean r → ((r == 0) ≡ false) × (is_control r ≡ false)
IsClean-kept r h = ground arith

strip_control-IsClean : (s : Text) → All IsClean (strip_control s)
unfolding strip_control
strip_control-IsClean [] = tt
strip_control-IsClean (r ∷ s) = elim (Bool-cases (r == 0)) [
  | inl e ↦ rw e (strip_control-IsClean s)
  | inr e ↦ elim (Bool-cases (is_control r)) [
    | inl c ↦ rw (e, c) (strip_control-IsClean s)
    | inr c ↦ rw (e, c) (kept-IsClean r c, strip_control-IsClean s)
  ]
]

length-strip_control : (s : Text) → length (strip_control s) ≤ length s
unfolding strip_control
length-strip_control [] = omega arith
length-strip_control (r ∷ s) = ground (arith, length-strip_control s)

any-nul : (s : Text) → All IsClean s → any (λ r. r == 0) s ≡ false
any-nul [] h = refl
any-nul (r ∷ s) h = rw (IsClean-kept r h.0).0 (any-nul s h.1)

strip_control_id : (s : Text) → All IsClean s → strip_control s ≡ s
unfolding strip_control
strip_control_id [] h = refl
strip_control_id (r ∷ s) h =
    rw ((IsClean-kept r h.0).0, (IsClean-kept r h.0).1) (ap (◌∷◌ r) (strip_control_id s h.1))

-- A limit on the number of runes; none where it is not positive.
abbrev pub Fits : Text → ℤ → Type 0
Fits s (pos (suc n)) = length s ≤ suc n
Fits s (pos zero) = Unit
Fits s (negsuc n) = Unit

-- `SanitizeQuery` leaves no rune below the space but tabs, line feeds and carriage returns, and no more
-- runes than a positive limit allows.
pub sanitize_query-IsClean :
    (q : Text) (n : ℤ) → All IsClean (sanitize_query q n) × Fits (sanitize_query q n) n
unfolding sanitize_query
sanitize_query-IsClean q (pos (suc n)) = (
  strip_control-IsClean (truncate q (pos (suc n))),
  rw (truncate-take q n)
      (omega (arith, length-strip_control (take (suc n) q), length-take (suc n) q)),
)
sanitize_query-IsClean q (pos zero) = (strip_control-IsClean (truncate q (pos zero)), tt)
sanitize_query-IsClean q (negsuc n) = (strip_control-IsClean (truncate q (negsuc n)), tt)

truncate_id : (s : Text) (n : ℤ) → Fits s n → truncate s n ≡ s
unfolding truncate
truncate_id s (pos (suc n)) h = ground arith
truncate_id s (pos zero) h = refl
truncate_id s (negsuc n) h = refl

-- A query that is clean and fits is left as it is, so to sanitise twice is to sanitise once.
pub sanitize_query_idem :
    (q : Text) (n : ℤ) → sanitize_query (sanitize_query q n) n ≡ sanitize_query q n
sanitize_query_idem q n =
    let (clean, fits) = sanitize_query-IsClean q n in
    unfold sanitize_query in
    rw (truncate_id (strip_control (truncate q n)) n fits)
      (strip_control_id (strip_control (truncate q n)) clean)

-- What `SanitizeQuery` returns passes `ValidateSearchQuery` at the same limit.
pub validate-sanitize_query :
    (q : Text) (n : ℤ) → validate_search_query (sanitize_query q n) n ≡ passed
validate-sanitize_query q n =
    let (clean, fits) = sanitize_query-IsClean q n in accepted (sanitize_query q n) n clean fits
  where
    accepted : (s : Text) (n : ℤ) → All IsClean s → Fits s n → validate_search_query s n ≡ passed
    accepted s (pos (suc n)) clean fits =
        unfold validate_search_query in ground (arith, any-nul s clean)
    accepted s (pos zero) clean fits =
        unfold validate_search_query in ground (arith, any-nul s clean)
    accepted s (negsuc n) clean fits =
        unfold validate_search_query in ground (arith, any-nul s clean)

-- `ValidateLimit` returns a number from 1 up to the maximum, 1000 if none is given; and it returns
-- its argument exactly if that lies in this range.
pub validate_limit_lem :
    (limit max_limit : ℤ)
    → (pos 1 ≤ℤ validate_limit limit max_limit)
      × (validate_limit limit max_limit ≤ℤ default_max max_limit (pos 1000))
      × ((validate_limit limit max_limit ≡ limit)
          ↔ ((pos 1 ≤ℤ limit) × (limit ≤ℤ default_max max_limit (pos 1000))))
unfolding validate_limit
validate_limit_lem limit max_limit = ground arith

is_printable-strip : (s : Text) → is_printable (strip_non_printable s) ≡ true
unfolding is_printable strip_non_printable
is_printable-strip [] = refl
is_printable-strip (r ∷ s) = elim (Bool-cases (unicode_printable r)) [
  | inl e ↦ rw (e, e) (is_printable-strip s)
  | inr e ↦ rw e (is_printable-strip s)
]

strip_id : (s : Text) → is_printable s ≡ true → strip_non_printable s ≡ s
unfolding is_printable strip_non_printable
strip_id [] h = refl
strip_id (r ∷ s) h = ground (arith, strip_id s)

-- `StripNonPrintable` returns a printable text, and changes exactly the texts that are not.
pub strip_non_printable_lem :
    (s : Text)
    → (is_printable (strip_non_printable s) ≡ true)
      × ((strip_non_printable s ≡ s) ↔ (is_printable s ≡ true))
strip_non_printable_lem s =
    (is_printable-strip s, ((λ e. rw e at (is_printable-strip s)), strip_id s))
