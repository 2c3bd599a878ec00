-- ===== src/Input.antt =====
-- internal/security/input/validation.go. A text is its runes; `byte_length` is the length of their
-- UTF-8 encoding, which is what `len` gives in Go.
pub mod Sanitize
pub mod Regex
mod Tests
use vector_mcp_go.Base.{
  ℕ, zero, suc, ◌+◌, ◌-◌, ◌*◌, Bool, true, false, ◌&&◌, ◌||◌, not, Option, none, some, List, [],
  ◌∷◌, ◌++◌, length, take, keep, any, ltb, leb, ◌==◌, if◌then◌else◌, max,
}
use vector_mcp_go.Base.Int.{ℤ, pos, negsuc, ltb_ℤ, ◌+ℤ◌, ◌-ℤ◌}
use vector_mcp_go.Base.Text.{Text, text_eq}

-- The bytes of a rune's encoding.
abbrev pub rune_length : ℕ → ℕ
rune_length r = if ltb r 0x80 then 1 else if ltb r 0x800 then 2 else if ltb r 0x10000 then 3 else 4

-- `len(s)`
unfoldable pub byte_length : Text → ℕ
byte_length [] = 0
byte_length (r ∷ s) = rune_length r + byte_length s

pub data InputError : Type 0 where
  pattern_too_long pattern_too_complex invalid_characters input_too_long : InputError
  empty_input input_too_short : InputError

pub data Check : Type 0 where
  passed : Check
  refused : InputError → Check

abbrev pub is_control : ℕ → Bool
is_control r = ltb r 0x20 && not (r == b'\t') && not (r == b'\n') && not (r == b'\r')

-- The first `maxLength` runes, where it is positive.
unfoldable pub truncate : Text → ℤ → Text
unfolding byte_length
truncate query (negsuc n) = query
truncate query (pos zero) = query
truncate query (pos (suc n)) =
    if ltb (suc n) (byte_length query)
    then (if ltb (suc n) (length query) then take (suc n) query else query)
    else query

-- The loop of `SanitizeQuery`.
unfoldable pub strip_control : Text → Text
strip_control [] = []
strip_control (r ∷ s) =
    let rest = strip_control s in if r == 0 then rest else if is_control r then rest else r ∷ rest

-- `SanitizeQuery`, whose error is always nil.
unfoldable pub sanitize_query : Text → ℤ → Text
unfolding truncate strip_control
sanitize_query query max_length = strip_control (truncate query max_length)

-- `ValidateSearchQuery`
unfoldable pub validate_search_query : Text → ℤ → Check
validate_search_query query (pos (suc n)) =
    if ltb (suc n) (length query)
    then refused input_too_long
    else if any (λ r. r == 0) query
    then refused invalid_characters
    else passed
validate_search_query query max_length =
    if any (λ r. r == 0) query then refused invalid_characters else passed

-- `ClampInt`, and `ClampInt64`, whose body is the same.
unfoldable pub clamp_int : ℤ → ℤ → ℤ → ℤ
clamp_int value low high = if ltb_ℤ value low then low else if ltb_ℤ high value then high else value

-- `ValidateTopK`
unfoldable pub validate_top_k : ℤ → ℤ
unfolding clamp_int
validate_top_k top_k = clamp_int top_k (pos 1) (pos 1000)

abbrev pub default_max : ℤ → ℤ → ℤ
default_max max_limit default = if ltb_ℤ (pos 0) max_limit then max_limit else default

-- `ValidateLimit`
unfoldable pub validate_limit : ℤ → ℤ → ℤ
unfolding clamp_int
validate_limit limit max_limit = clamp_int limit (pos 1) (default_max max_limit (pos 1000))

-- `ValidateOffset`
unfoldable pub validate_offset : ℤ → ℤ → ℤ
unfolding clamp_int
validate_offset offset max_offset = clamp_int offset (pos 0) (default_max max_offset (pos 100000))

-- `TruncateRuneSafe`
unfoldable pub truncate_rune_safe : Text → ℕ → Text
truncate_rune_safe s max_runes = if leb (length s) max_runes then s else take max_runes s

-- `TruncateRuneSafeWithSuffix`
unfoldable pub truncate_rune_safe_with_suffix : Text → ℕ → Text → Text
truncate_rune_safe_with_suffix s max_runes suffix =
    if leb (length s) max_runes then s else take max_runes s ++ suffix

-- `unicodePrintable`
unfoldable pub unicode_printable : ℕ → Bool
unicode_printable r =
    if leb 0x20 r && leb r 0x7E
    then true
    else if leb 0xA0 r && leb r 0xFF
    then true
    else leb 0x100 r && leb r 0xFFFF

-- `IsPrintable`
unfoldable pub is_printable : Text → Bool
is_printable [] = true
is_printable (r ∷ s) =
    let rest = is_printable s in if not (unicode_printable r) then false else rest

-- `StripNonPrintable`
unfoldable pub strip_non_printable : Text → Text
strip_non_printable [] = []
strip_non_printable (r ∷ s) =
    let rest = strip_non_printable s in if unicode_printable r then r ∷ rest else rest

pub record RegexValidator : Type 0 where
  pub max_length : ℕ
  pub max_repetition : ℕ
  pub max_nesting : ℤ
  pub max_alternation : ℕ

-- `DefaultRegexValidator`
unfoldable pub default_regex_validator : RegexValidator
default_regex_validator = record {
  max_length = 1000;
  max_repetition = 3;
  max_nesting = pos 5;
  max_alternation = 20;
}

-- `strings.Count(s, c)` of one ASCII character
unfoldable pub count_char : ℕ → Text → ℕ
count_char c [] = 0
count_char c (r ∷ s) = (if r == c then 1 else 0) + count_char c s

abbrev pub is_quantifier : ℕ → Bool
is_quantifier r = r == b'+' || r == b'*' || r == b'?'

unfoldable pub starts_quantified : Text → Bool
starts_quantified [] = false
starts_quantified (r ∷ s) = is_quantifier r

-- Behind an opening parenthesis: whether a quantifier stands before the next closing one, and
-- another right behind that; `quantified` is whether one has been seen.
unfoldable pub group_repeats : Bool → Text → Bool
unfolding starts_quantified
group_repeats quantified [] = false
group_repeats quantified (r ∷ s) =
    let rest = group_repeats (quantified || is_quantifier r) s in
    if r == b')' then quantified && starts_quantified s else rest

-- A match of `\([^)]*[+*?][^)]*\)[+*?]` somewhere in the text.
unfoldable pub nested_quantifier : Text → Bool
unfolding group_repeats
nested_quantifier [] = false
nested_quantifier (r ∷ s) = (r == b'(' && group_repeats false s) || nested_quantifier s

unfoldable pub repetition_count : Text → ℕ
unfolding count_char
repetition_count s = count_char b'+' s + count_char b'*' s + count_char b'?' s + count_char b'{' s

-- The loop over the runes, with `depth` and `maxDepth`.
unfoldable pub nesting : Text → ℤ → ℤ → ℤ
nesting [] depth max_depth = max_depth
nesting (r ∷ s) depth max_depth =
    let up = depth +ℤ pos 1 in
    let opened = nesting s up (if ltb_ℤ max_depth up then up else max_depth) in
    let closed = nesting s (depth -ℤ pos 1) max_depth in
    let same = nesting s depth max_depth in
    if r == b'(' then opened else if r == b')' then closed else same

-- `RegexValidator.Validate`
unfoldable pub validate_regex : RegexValidator → Text → Check
validate_regex v pattern =
    if ltb v.max_length (byte_length pattern)
    then refused pattern_too_long
    else if nested_quantifier pattern
    then refused pattern_too_complex
    else if ltb (v.max_repetition * 10) (repetition_count pattern)
    then refused pattern_too_complex
    else if ltb v.max_alternation (count_char b'|' pattern)
    then refused pattern_too_complex
    else if ltb_ℤ v.max_nesting (nesting pattern (pos 0) (pos 0))
    then refused pattern_too_complex
    else passed

-- What a test has to see through.
unfoldable pub regex_code : Unit {0}
unfolding byte_length count_char starts_quantified group_repeats nested_quantifier repetition_count
    nesting
regex_code = tt
