-- ===== src/RateLimit.antt =====
-- internal/security/ratelimit/tokenbucket.go: `TokenBucket`, the keys and the clean-up of `Middleware`.
--
-- float64 is the parameter `Amounts`, with the conversion of an `int`, the test `>=` and the seconds of
-- a duration. A time is a number of nanoseconds; the clock is monotonic, as that of `time.Now` is, so no
-- reading is before `last_update`. Each operation of a bucket holds its lock from its first read to its
-- last write, and is one step. `Handler`, which looks a bucket up under one lock and asks it under
-- another, is left out with `WaitN`, which sleeps.
pub mod Bound
pub mod Clients
mod Tests
use vector_mcp_go.Base.{
  ℕ, zero, suc, ◌+◌, ◌-◌, ◌*◌, Bool, true, false, Option, none, some, List, [], ◌∷◌, ◌++◌, length,
  ltb, leb, ◌==◌, if◌then◌else◌,
}
use vector_mcp_go.Base.Floats.{Floats}
use vector_mcp_go.Base.Int.{ℤ, pos}
use vector_mcp_go.Base.Text.{Text, codes}

pub record Amounts : Type 1 where
  pub floats : Floats
  pub of_ℤ : ℤ → floats.F
  -- `a >= b`
  pub at_least : floats.F → floats.F → Bool
  -- `Duration.Seconds`, of nanoseconds
  pub seconds : ℕ → floats.F

module _ (amounts : Amounts) where
  open amounts use {floats, of_ℤ, at_least, seconds}
  open floats use {F, add, sub, mul, less}

  pub record TokenBucket : Type 0 where
    pub rate : F
    pub burst : ℤ
    pub tokens : F
    pub last_update : ℕ

  -- `NewTokenBucket`, which starts full.
  unfoldable pub new_token_bucket : ℕ → F → ℤ → TokenBucket
  new_token_bucket now rate burst = record {
    rate = rate;
    burst = burst;
    tokens = of_ℤ burst;
    last_update = now;
  }

  -- The tokens at a time, capped at the size of the bucket.
  unfoldable pub refilled : ℕ → TokenBucket → F
  refilled now tb =
      let tokens = add tb.tokens (mul (seconds (now - tb.last_update)) tb.rate) in
      if less (of_ℤ tb.burst) tokens then of_ℤ tb.burst else tokens

  -- `AllowN`
  unfoldable pub allow_n : ℕ → ℤ → TokenBucket → TokenBucket × Bool
  unfolding refilled
  allow_n now n tb =
      let tokens = refilled now tb in
      if at_least tokens (of_ℤ n)
      then (record tb { tokens = sub tokens (of_ℤ n); last_update = now }, true)
      else (record tb { tokens = tokens; last_update = now }, false)

  -- `Allow`
  abbrev pub allow : ℕ → TokenBucket → TokenBucket × Bool
  allow now tb = allow_n now (pos 1) tb

  -- `Remaining`, which leaves the bucket as it is.
  unfoldable pub remaining : ℕ → TokenBucket → F
  unfolding refilled
  remaining now tb = refilled now tb

  -- `Reset`
  unfoldable pub reset : ℕ → TokenBucket → TokenBucket
  reset now tb = record tb { tokens = of_ℤ tb.burst; last_update = now }

-- What `DefaultKeyFunc` reads of a request; a header that is missing is empty.
pub record Request : Type 0 where
  pub x_forwarded_for : Text
  pub x_api_key : Text
  pub remote_addr : Text

-- The part in front of the first comma.
unfoldable pub first_in_chain : Text → Text
first_in_chain [] = []
first_in_chain (c ∷ s) = let rest = first_in_chain s in if c == b',' then [] else c ∷ rest

-- `DefaultKeyFunc`
unfoldable pub default_key_func : Request → Text
unfolding first_in_chain
default_key_func r = elim r.x_forwarded_for [ [] ↦ r.remote_addr | c ∷ s ↦ first_in_chain (c ∷ s) ]

-- The key of `APIKeyRateLimit`.
unfoldable pub api_key_func : Request → Text
unfolding default_key_func
api_key_func r = elim r.x_api_key [
  | [] ↦ codes "ip:" ++ default_key_func r
  | c ∷ s ↦ codes "apikey:" ++ c ∷ s
]

-- The key of `GlobalRateLimit`.
unfoldable pub global_key_func : Request → Text
global_key_func r = codes "global"

module _ (amounts : Amounts) where
  open amounts use {floats}
  open floats use {F}

  pub record Middleware (R K : Type 0) : Type 0 where
    pub buckets : List (K × TokenBucket amounts)
    pub rate : F
    pub burst : ℤ
    pub key_func : R → K

  -- `Cleanup`
  unfoldable pub keep_recent :
      {K : Type 0} → ℕ → ℕ → List (K × TokenBucket amounts) → List (K × TokenBucket amounts)
  keep_recent now max_age [] = []
  keep_recent now max_age ((key, bucket) ∷ rest) =
      let kept = keep_recent now max_age rest in
      if ltb max_age (now - bucket.last_update) then kept else (key, bucket) ∷ kept

  unfoldable pub cleanup : {R K : Type 0} → ℕ → ℕ → Middleware R K → Middleware R K
  unfolding keep_recent
  cleanup now max_age m = record m { buckets = keep_recent now max_age m.buckets }
