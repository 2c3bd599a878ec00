-- ===== src/Base/Floats.antt =====
-- The floating-point operations that the program uses. Nothing is assumed of them here; a lemma that
-- needs an order names what it needs.
use Prim.Native.Nat.{ℕ, ◌+◌, ◌-◌, ◌*◌, ◌/◌}
use native.Mathlib.Omega.{arith}
use vector_mcp_go.Base.Tests.{ltb, if◌then◌else◌}
use mathlib.Core.Bool.{Bool, true, false}
use mathlib.Core.Path.{◌≡◌}

pub record Floats : Type 1 where
  pub F : Type 0
  pub of_int : ℕ → F
  pub add : F → F → F
  pub sub : F → F → F
  pub mul : F → F → F
  pub div : F → F → F
  pub log : F → F
  -- A decimal constant of the source: a number of hundredths.
  pub hundredths : ℕ → F
  -- `a < b`
  pub less : F → F → Bool

-- What sorting needs of `<`. It holds among numbers other than NaN.
pub record IsOrder (fl : Floats) : Type 0 where
  pub asymmetric : (a b : fl.F) → fl.less a b ≡ true → fl.less b a ≡ false
  pub transitive : (a b c : fl.F) → fl.less a b ≡ false → fl.less b c ≡ false → fl.less a c ≡ false

-- Natural numbers for the floats, at which the tests run.
abbrev pub naturals : Floats
naturals = record {
  F = ℕ;
  of_int = λ n. n;
  add = λ a b. a + b;
  sub = λ a b. a - b;
  mul = λ a b. a * b;
  div = λ a b. if ltb 0 b then a / b else 0;
  log = λ a. a;
  hundredths = λ n. n;
  less = ltb;
}

pub naturals-IsOrder : IsOrder naturals
naturals-IsOrder = record {
  asymmetric = λ a b h. ground arith;
  transitive = λ a b c h k. ground arith;
}
