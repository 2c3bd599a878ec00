-- ===== src/RateLimit/Tests.antt =====
-- Runs of internal/security/ratelimit/tokenbucket.go, with natural numbers for the floats and one token
-- to the nanosecond.
use vector_mcp_go.Base.{ℕ, ◌≡◌, refl, List, [], ◌∷◌, leb, All, arith}
use vector_mcp_go.Base.Floats.{naturals}
use vector_mcp_go.Base.Int.{pos, pos_part}
use vector_mcp_go.Base.Text.{codes}
use vector_mcp_go.RateLimit.{
  Amounts, new_token_bucket, allow_n, refilled, Request, default_key_func,
}
use vector_mcp_go.RateLimit.Bound.{IsRounded, Within, Fits, run, run-Within, run-at_once}

abbrev counted : Amounts
counted = record { floats = naturals; of_ℤ = pos_part; at_least = λ a b. leb b a; seconds = λ d. d }

counted-IsRounded : IsRounded counted 1 (pos 3)
counted-IsRounded = record {
  IsNumber = λ a. Unit;
  number-of_ℤ = tt;
  number-refill = λ t d h. tt;
  number-sub = λ t n h. tt;
  total = λ a b h k e. ground arith;
  not-less = λ a b h. ground arith;
  reflexive = λ a h. ground arith;
  transitive = λ a b c h k. ground arith;
  monotone = λ m n h. ground arith;
  add-ge = λ t d h. ground arith;
  sub-le = λ t n h. ground arith;
  sub-ge = λ t n h k. ground arith;
  sub-exact = λ t m n h k e j. ground arith;
  add-none = λ t h. omega arith;
}

abbrev calls : List (ℕ × ℕ)
calls = (100, 2) ∷ (100, 2) ∷ (101, 2) ∷ []

granted_two : (run counted calls (new_token_bucket counted 100 1 (pos 3))).1 ≡ 2 ∷ 2 ∷ []
unfolding allow_n new_token_bucket refilled
granted_two = refl

run-Within_example :
    Within counted 1
      (pos 3)
      counted-IsRounded
      (run counted calls (new_token_bucket counted 100 1 (pos 3))).0.tokens
    × All
        (Fits counted 1 (pos 3) counted-IsRounded)
        (run counted calls (new_token_bucket counted 100 1 (pos 3))).1
run-Within_example = run-Within counted 1 (pos 3) counted-IsRounded calls 100 (omega arith)

run-at_once_example : Fits counted 1 (pos 3) counted-IsRounded 2
unfolding allow_n new_token_bucket refilled
run-at_once_example = run-at_once counted 1 (pos 3) counted-IsRounded (2 ∷ 2 ∷ []) 100 (omega arith)

abbrev forwarded : Request
forwarded = record {
  x_forwarded_for = codes "10.0.0.7, 10.0.0.1";
  x_api_key = [];
  remote_addr = codes "10.0.0.1:80";
}

forwarded_key : default_key_func forwarded ≡ codes "10.0.0.7"
unfolding default_key_func
forwarded_key = refl
