-- ===== src/Base/Maps.antt =====
-- Go maps as association lists, over keys with a decidable equality. The order of the entries is
-- one that a range over the map may take.
use Prim.Native.Nat.{◌+◌}
use mathlib.Core.Bool.{Bool, true, false}
use mathlib.Core.List.{List, [], ◌∷◌}
use mathlib.Core.Option.{Option, none, some}
use mathlib.Core.Path.{◌≡◌, refl}
use native.Mathlib.Omega.{arith}
use vector_mcp_go.Base.Lists.{length, All}
use vector_mcp_go.Base.Tests.{does, if◌then◌else◌}

module _ {ℓ κ} {K : Type ℓ} {V : Type κ} (dec : Discrete K) where
  -- `v, ok := m[k]`
  abbrev pub find : K → List (K × V) → Option V
  find k [] = none
  find k ((j, v) ∷ m) = if does (dec j k) then some v else find k m

  -- `_, ok := m[k]`
  abbrev pub has : K → List (K × V) → Bool
  has k [] = false
  has k ((j, v) ∷ m) = if does (dec j k) then true else has k m

  -- `delete(m, k)`
  abbrev pub del : K → List (K × V) → List (K × V)
  del k [] = []
  del k ((j, v) ∷ m) = if does (dec j k) then del k m else (j, v) ∷ del k m

  -- `m[k] = v`
  abbrev pub put : K → V → List (K × V) → List (K × V)
  put k v m = (k, v) ∷ del k m

  -- No key occurs twice, as in every map.
  abbrev pub Distinct : List (K × V) → Type 0
  Distinct [] = Unit
  Distinct ((j, v) ∷ m) = (has j m ≡ false) × Distinct m

  pub find-del :
      (k q : K) (m : List (K × V)) → find q (del k m) ≡ (if does (dec k q) then none else find q m)
  find-del k q [] = ground arith
  find-del k q ((j, v) ∷ m) = ground (arith, find-del k q m)

  pub has-del :
      (k q : K) (m : List (K × V)) → has q (del k m) ≡ (if does (dec k q) then false else has q m)
  has-del k q [] = ground arith
  has-del k q ((j, v) ∷ m) = ground (arith, has-del k q m)

  pub find-put :
      (k q : K) (v : V) (m : List (K × V))
      → find q (put k v m) ≡ (if does (dec k q) then some v else find q m)
  find-put k q v m = ground (arith, find-del k q m)

  pub has-put :
      (k q : K) (v : V) (m : List (K × V))
      → has q (put k v m) ≡ (if does (dec k q) then true else has q m)
  has-put k q v m = ground (arith, has-del k q m)

  pub del-absent : (k : K) (m : List (K × V)) → has k m ≡ false → del k m ≡ m
  del-absent k [] h = refl
  del-absent k ((j, v) ∷ m) h = ground (arith, del-absent k m)

  pub length-del :
      (k : K) (m : List (K × V))
      → Distinct m
      → length (del k m) + (if has k m then 1 else 0) ≡ length m
  length-del k [] d = refl
  length-del k ((j, v) ∷ m) d = ground (arith, length-del k m d.1, del-absent k m)

  pub Distinct-del : (k : K) (m : List (K × V)) → Distinct m → Distinct (del k m)
  Distinct-del k [] d = tt
  Distinct-del k ((j, v) ∷ m) d = ground (arith, Distinct-del k m d.1, has-del k j m)

  pub Distinct-put : (k : K) (v : V) (m : List (K × V)) → Distinct m → Distinct (put k v m)
  Distinct-put k v m d = ground (arith, has-del k k m, Distinct-del k m d)

  pub find-has : (k : K) (m : List (K × V)) → has k m ≡ true → (v : V) × (find k m ≡ some v)
  find-has k [] h = cc
  find-has k ((j, v) ∷ m) h =
      elim (dec j k)
          as (λ d.
            (if does d then true else has k m) ≡ true
            → (w : V) × ((if does d then some v else find k m) ≡ some w)) [
              | yes _ ↦ λ _. (v, refl)
              | no _ ↦ λ h'. find-has k m h'
            ]
        h

  pub find-none : (k : K) (m : List (K × V)) → has k m ≡ false → find k m ≡ none
  find-none k [] h = refl
  find-none k ((j, v) ∷ m) h = ground (arith, find-none k m)

  pub has-none : (k : K) (m : List (K × V)) → find k m ≡ none → has k m ≡ false
  has-none k [] h = refl
  has-none k ((j, v) ∷ m) h = ground (arith, has-none k m)

  pub has-of_find : (k : K) (m : List (K × V)) (v : V) → find k m ≡ some v → has k m ≡ true
  has-of_find k [] v h = cc
  has-of_find k ((j, w) ∷ m) v h = ground (arith, has-of_find k m v)

  pub nil_of_has : (m : List (K × V)) → ((q : K) → has q m ≡ false) → m ≡ []
  nil_of_has [] h = refl
  nil_of_has ((j, v) ∷ m) h = ground (arith, h j)

  module _ {μ} (P : K × V → Type μ) where
    pub All-del : (k : K) (m : List (K × V)) → All P m → All P (del k m)
    All-del k [] h = tt
    All-del k ((j, v) ∷ m) h = ground (arith, All-del k m h.1)
