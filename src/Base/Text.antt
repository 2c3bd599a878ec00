-- ===== src/Base/Text.antt =====
-- Texts as lists of numbers: bytes, or code points where the program ranges over runes.
use Prim.Native.Char.{code}
use Prim.Native.Nat.{ℕ}
use Prim.Native.String.{String}
use mathlib.Core.Bool.{Bool, true, false, ◌&&◌, true≢false}
use mathlib.Core.List.{List, [], ◌∷◌}
use mathlib.Core.Logic.{◌↔◌, ◌≢◌}
use mathlib.Core.Path.{◌≡◌, refl, sym, ◌∙◌}
use native.Mathlib.Omega.{arith}
use vector_mcp_go.Base.Lists.{All}
use vector_mcp_go.Base.Tests.{◌==◌, does}

abbrev pub Text : Type 0
Text = List ℕ

-- The code points of a literal: its bytes, since every literal here is ASCII.
abbrev pub codes : String → Text
codes String.[] = []
codes (String.◌∷◌ c s) = code c ∷ codes s

-- `s == t`.
abbrev pub text_eq : Text → Text → Bool
text_eq [] [] = true
text_eq [] (d ∷ t) = false
text_eq (c ∷ s) [] = false
text_eq (c ∷ s) (d ∷ t) = c == d && text_eq s t

pub text_eq→eq : (s t : Text) → text_eq s t ≡ true → s ≡ t
text_eq→eq [] [] h = refl
text_eq→eq [] (d ∷ t) h = cc
text_eq→eq (c ∷ s) [] h = cc
text_eq→eq (c ∷ s) (d ∷ t) h = ground (arith, text_eq→eq s t)

pub text_eq_refl : (s : Text) → text_eq s s ≡ true
text_eq_refl [] = refl
text_eq_refl (c ∷ s) = ground (arith, text_eq_refl s)

pub text_eq_iff : (s t : Text) → (text_eq s t ≡ true) ↔ (s ≡ t)
text_eq_iff s t = (text_eq→eq s t, λ e. rw e (text_eq_refl t))

-- `strings.HasPrefix(s, p)`.
abbrev pub has_prefix : Text → Text → Bool
has_prefix s [] = true
has_prefix [] (d ∷ p) = false
has_prefix (c ∷ s) (d ∷ p) = c == d && has_prefix s p

abbrev pub Lacks : ℕ → Text → Type 0
Lacks b = All (λ c. c ≢ b)

abbrev pub decide_by {ℓ} : {P : Type ℓ} (b : Bool) → (b ≡ true → P) → (b ≡ false → ¬ P) → Dec P
decide_by true p q = yes (p refl)
decide_by false p q = no (q refl)

pub does-decide_by {ℓ} :
    {P : Type ℓ} (b : Bool) (p : b ≡ true → P) (q : b ≡ false → ¬ P) → does (decide_by b p q) ≡ b
does-decide_by true p q = refl
does-decide_by false p q = refl

abbrev pub text_dec : Discrete Text
text_dec s t =
    decide_by (text_eq s t) (text_eq→eq s t) (λ e h. true≢false (sym ((text_eq_iff s t).1 h) ∙ e))

pub does-text_dec : (s t : Text) → does (text_dec s t) ≡ text_eq s t
does-text_dec s t =
    does-decide_by (text_eq s t) (text_eq→eq s t)
      (λ e h. true≢false (sym ((text_eq_iff s t).1 h) ∙ e))
