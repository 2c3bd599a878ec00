-- ===== src/Input/Tests.antt =====
-- Runs of internal/security/input/validation.go, and its theorems at them.
use vector_mcp_go.Base.{◌+◌, ◌≤◌, ◌≡◌, refl, false, any, arith, ◌&&◌, [], ◌++◌, All}
use vector_mcp_go.Base.Int.{pos, ◌+ℤ◌, ◌-ℤ◌}
use vector_mcp_go.Base.Text.{Text, codes}
use vector_mcp_go.Input.{
  passed, refused, pattern_too_complex, sanitize_query, RegexValidator, count_char, validate_regex,
  regex_code,
}
use vector_mcp_go.Input.Sanitize.{IsClean, Fits, sanitize_query-IsClean}
use vector_mcp_go.Input.Regex.{is_repeating, validate_regex_sound}

abbrev noisy : Text
noisy = codes "find\u{7}\tfoo"

sanitize_query-IsClean_example :
    All IsClean (sanitize_query noisy (pos 6)) × Fits (sanitize_query noisy (pos 6)) (pos 6)
sanitize_query-IsClean_example = sanitize_query-IsClean noisy (pos 6)

abbrev small_limits : RegexValidator
small_limits = record {
  max_length = 20;
  max_repetition = 3;
  max_nesting = pos 2;
  max_alternation = 1;
}

refuses_nested : validate_regex small_limits (codes "(a+)+") ≡ refused pattern_too_complex
unfolding validate_regex regex_code
refuses_nested = refl

accepts_plain : validate_regex small_limits (codes "(a" ++ codes "|b)c*") ≡ passed
unfolding validate_regex regex_code ◌+ℤ◌
accepts_plain = refl

validate_regex_sound_example :
    ((any is_repeating (codes "a|b") && is_repeating b'c') ≡ false)
    × (count_char b'(' (codes "(") ≤ 2 + count_char b')' (codes "("))
validate_regex_sound_example =
    validate_regex_sound small_limits [] (codes "a|b") (codes "*") b'c' 2 refl
      (omega arith, (omega arith, (omega arith, tt))) accepts_plain

-- A group that holds a group with a repetition, and a group repeated a number of times, pass.
accepts_nested : validate_regex small_limits (codes "((a+)b)+") ≡ passed
unfolding validate_regex regex_code ◌+ℤ◌ ◌-ℤ◌
accepts_nested = refl

accepts_counted : validate_regex small_limits (codes "(a+){9}") ≡ passed
unfolding validate_regex regex_code ◌+ℤ◌ ◌-ℤ◌
accepts_counted = refl
