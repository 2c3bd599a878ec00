-- ===== src/Store/Filters.antt =====
-- What `keep` and `any` do one after the other: the lemmas behind filtering the collection.
use vector_mcp_go.Base.{
  ◌≤◌, ◌≡◌, ◌≢◌, refl, ap, Bool, true, false, ◌&&◌, ◌||◌, not, List, [], ◌∷◌, map, length, any,
  keep, All, Bool-cases, inl, inr, arith,
}

pub and_again : (a b : Bool) → (a && b) ≡ true → (a && (b && a)) ≡ true
and_again true true h = refl
and_again true false h = cc
and_again false b h = cc

pub and_swap : (a b : Bool) → (a && b) ≡ false → (b && a) ≡ false
and_swap true true h = h
and_swap true false h = refl
and_swap false true h = refl
and_swap false false h = refl

pub and_false : (a : Bool) → (a && false) ≡ false
and_false true = refl
and_false false = refl

module _ {ℓ} {A : Type ℓ} where
  pub cons-ne-nil : (x : A) (xs : List A) → (x ∷ xs) ≢ []
  cons-ne-nil x xs e = cc

  pub nil_of_length : (xs : List A) → length xs ≡ 0 → xs ≡ []
  nil_of_length [] h = refl
  nil_of_length (x ∷ xs) h = absurd (omega arith)

  pub length-keep : (p : A → Bool) (xs : List A) → length (keep p xs) ≤ length xs
  length-keep p [] = omega arith
  length-keep p (x ∷ xs) = ground (arith, length-keep p xs)

  pub keep-keep : (p q : A → Bool) (xs : List A) → keep p (keep q xs) ≡ keep (λ x. q x && p x) xs
  keep-keep p q [] = refl
  keep-keep p q (x ∷ xs) = elim (Bool-cases (q x)) [
    | inl e ↦ rw (e, keep-keep p q xs) refl
    | inr e ↦ rw e (keep-keep p q xs)
  ]

  pub keep-not-keep-not :
      (p q : A → Bool) (xs : List A)
      → keep (λ x. not (p x)) (keep (λ x. not (q x)) xs) ≡ keep (λ x. not (q x || p x)) xs
  keep-not-keep-not p q [] = refl
  keep-not-keep-not p q (x ∷ xs) = elim (Bool-cases (q x)) [
    | inl e ↦ rw e (keep-not-keep-not p q xs)
    | inr e ↦ rw (e, keep-not-keep-not p q xs) refl
  ]

  pub keep-true : (xs : List A) → keep (λ x. true) xs ≡ xs
  keep-true [] = refl
  keep-true (x ∷ xs) = ap (◌∷◌ x) (keep-true xs)

  pub keep_ext : (p q : A → Bool) (xs : List A) → All (λ x. p x ≡ q x) xs → keep p xs ≡ keep q xs
  keep_ext p q [] h = refl
  keep_ext p q (x ∷ xs) h = rw (h.0, keep_ext p q xs h.1) refl

module _ {ℓ κ} {A : Type ℓ} {B : Type κ} (f : A → B) (p : B → Bool) where
  pub any-map : (xs : List A) → any p (map f xs) ≡ any (λ x. p (f x)) xs
  any-map [] = refl
  any-map (x ∷ xs) = ap (◌||◌ (p (f x))) (any-map xs)

module _ {ℓ} {A : Type ℓ} where
  -- Each element of `xs` that passes a test shows that one of `ys` does.
  pub All-within :
      (xs ys : List A)
      → ((p : A → Bool) → any p xs ≡ true → any p ys ≡ true)
      → All (λ x. (p : A → Bool) → p x ≡ true → any p ys ≡ true) xs
  All-within [] ys h = tt
  All-within (x ∷ xs) ys h = (
    λ p e. h p (rw e refl),
    All-within xs ys (λ p e.
        h p (rw e (elim (p x) as (λ b. (b || true) ≡ true) [ true ↦ refl | false ↦ refl ]))),
  )

  pub All-any : (xs : List A) → All (λ x. (p : A → Bool) → p x ≡ true → any p xs ≡ true) xs
  All-any xs = All-within xs xs (λ p e. e)

  pub any_none : (p : A → Bool) → ((x : A) → p x ≡ false) → (xs : List A) → any p xs ≡ false
  any_none p h [] = refl
  any_none p h (x ∷ xs) = rw (h x) (any_none p h xs)

  pub any-keep : (p q : A → Bool) (xs : List A) → any p (keep q xs) ≡ any (λ x. q x && p x) xs
  any-keep p q [] = refl
  any-keep p q (x ∷ xs) = elim (Bool-cases (q x)) [
    | inl e ↦ rw e (ap (◌||◌ (p x)) (any-keep p q xs))
    | inr e ↦ rw e (any-keep p q xs)
  ]

module _ {ℓ κ μ} {A : Type ℓ} {P : A → Type κ} {Q : A → Type μ} (f : (x : A) → P x → Q x) where
  pub All-imp : (xs : List A) → All P xs → All Q xs
  All-imp [] h = tt
  All-imp (x ∷ xs) h = (f x h.0, All-imp xs h.1)
