-- ===== src/RateLimit/Bound.antt =====
-- What a bucket holds and grants, whatever the rounding.
use vector_mcp_go.Base.{
  ℕ, ◌+◌, ◌-◌, ◌≡◌, refl, ap, ◌∙◌, map, arith, Bool, true, false, List, [], ◌∷◌, All, if◌then◌else◌,
  Bool-cases, inl, inr,
}
use vector_mcp_go.Base.Int.{ℤ, pos, ◌≤ℤ◌}
use vector_mcp_go.RateLimit.{Amounts, TokenBucket, new_token_bucket, refilled, allow_n}

-- What IEEE 754 rounding keeps, of values that are numbers, those but NaN, -Inf and -0: the order is
-- total, conversion and `+` keep it, and a difference is no greater than what was taken from. A bucket
-- holds fewer than 2 ^ 53 tokens, so that a whole number of them is taken away exactly. The rate is
-- finite and not negative.
pub record IsRounded (amounts : Amounts) (rate : amounts.floats.F) (burst : ℤ) : Type 1 where
  pub IsNumber : amounts.floats.F → Type 0
  pub number-of_ℤ : IsNumber (amounts.of_ℤ burst)
  pub number-refill :
      (t : amounts.floats.F) (d : ℕ)
      → IsNumber t
      → IsNumber (amounts.floats.add t (amounts.floats.mul (amounts.seconds d) rate))
  pub number-sub :
      (t : amounts.floats.F) (n : ℤ) → IsNumber t → IsNumber (amounts.floats.sub t (amounts.of_ℤ n))
  pub total :
      (a b : amounts.floats.F)
      → IsNumber a
      → IsNumber b
      → amounts.floats.less a b ≡ false
      → amounts.at_least a b ≡ true
  pub not-less :
      (a b : amounts.floats.F) → amounts.at_least a b ≡ true → amounts.floats.less a b ≡ false
  pub reflexive : (a : amounts.floats.F) → IsNumber a → amounts.at_least a a ≡ true
  pub transitive :
      (a b c : amounts.floats.F)
      → amounts.at_least a b ≡ true
      → amounts.at_least b c ≡ true
      → amounts.at_least a c ≡ true
  pub monotone : (m n : ℤ) → m ≤ℤ n → amounts.at_least (amounts.of_ℤ n) (amounts.of_ℤ m) ≡ true
  pub add-ge :
      (t : amounts.floats.F) (d : ℕ)
      → IsNumber t
      → amounts.at_least (amounts.floats.add t (amounts.floats.mul (amounts.seconds d) rate)) t
        ≡ true
  pub sub-le :
      (t : amounts.floats.F) (n : ℕ)
      → IsNumber t
      → amounts.at_least t (amounts.floats.sub t (amounts.of_ℤ (pos n))) ≡ true
  pub sub-ge :
      (t : amounts.floats.F) (n : ℤ)
      → IsNumber t
      → amounts.at_least t (amounts.of_ℤ n) ≡ true
      → amounts.at_least (amounts.floats.sub t (amounts.of_ℤ n)) (amounts.of_ℤ (pos 0)) ≡ true
  pub sub-exact :
      (t : amounts.floats.F) (m n : ℕ)
      → IsNumber t
      → amounts.at_least (amounts.of_ℤ burst) t ≡ true
      → amounts.at_least t (amounts.of_ℤ (pos n)) ≡ true
      → amounts.at_least (amounts.floats.sub t (amounts.of_ℤ (pos n))) (amounts.of_ℤ (pos m)) ≡ true
      → amounts.at_least t (amounts.of_ℤ (pos (n + m))) ≡ true
  pub add-none :
      (t : amounts.floats.F)
      → IsNumber t
      → amounts.floats.add t (amounts.floats.mul (amounts.seconds 0) rate) ≡ t

module _ (amounts : Amounts) where
  open amounts use {floats, of_ℤ, at_least, seconds}
  open floats use {F, add, mul}

  -- The calls of `AllowN`, each at a time and for a number of tokens: the bucket after them, and the
  -- numbers that were granted.
  abbrev pub run : List (ℕ × ℕ) → TokenBucket amounts → TokenBucket amounts × List ℕ
  run [] tb = (tb, [])
  run ((now, n) ∷ calls) tb =
      let (tb', allowed) = allow_n amounts now (pos n) tb in
      let (tb'', granted) = run calls tb' in (tb'', if allowed then n ∷ granted else granted)

  module _ (rate : F) (burst : ℤ) (rounded : IsRounded amounts rate burst) where
    open rounded use {
      IsNumber, number-of_ℤ, number-refill, number-sub, total, reflexive, transitive, monotone,
      not-less, add-ge, sub-le, sub-ge, sub-exact, add-none,
    }

    -- An amount between none and a full bucket.
    abbrev pub Within : F → Type 0
    Within t = (at_least t (of_ℤ (pos 0)) ≡ true) × (at_least (of_ℤ burst) t ≡ true)

    abbrev IsFilled : TokenBucket amounts → Type 0
    IsFilled tb = (tb.rate ≡ rate) × (tb.burst ≡ burst) × IsNumber tb.tokens × Within tb.tokens

    capped :
        (t : F)
        → pos 0 ≤ℤ burst
        → IsNumber t
        → at_least t (of_ℤ (pos 0)) ≡ true
        → let c = if floats.less (of_ℤ burst) t then of_ℤ burst else t in IsNumber c × Within c
    capped t room h k = elim (Bool-cases (floats.less (of_ℤ burst) t)) [
      | inl e ↦
          rw e (number-of_ℤ, (monotone (pos 0) burst room, reflexive (of_ℤ burst) number-of_ℤ))
      | inr e ↦ rw e (h, (k, total (of_ℤ burst) t number-of_ℤ h e))
    ]

    refilled-Within :
        (now : ℕ) (tb : TokenBucket amounts)
        → pos 0 ≤ℤ burst
        → IsFilled tb
        → IsNumber (refilled amounts now tb) × Within (refilled amounts now tb)
    unfolding refilled
    refilled-Within now tb room (r, b, number, (least, most)) =
        let d = now - tb.last_update in
        rw (r, b)
          (capped (add tb.tokens (mul (seconds d) rate)) room (number-refill tb.tokens d number)
            (transitive _ tb.tokens _ (add-ge tb.tokens d number) least))

    -- One call leaves the bucket within its bounds, and grants no more than it can hold.
    allow_n-IsFilled :
        (now n : ℕ) (tb : TokenBucket amounts)
        → pos 0 ≤ℤ burst
        → IsFilled tb
        → IsFilled (allow_n amounts now (pos n) tb).0
          × ((allow_n amounts now (pos n) tb).1 ≡ true
              → at_least (of_ℤ burst) (of_ℤ (pos n)) ≡ true)
    unfolding allow_n
    allow_n-IsFilled now n tb room f =
        let t = refilled amounts now tb in
        let (number, (least, most)) = refilled-Within now tb room f in
        elim (Bool-cases (at_least t (of_ℤ (pos n)))) [
          | inl e ↦ rw e (
            (
              f.0,
              f.1,
              number-sub t (pos n) number,
              (sub-ge t (pos n) number e, transitive _ t _ most (sub-le t n number)),
            ),
            λ _. transitive _ t _ most e,
          )
          | inr e ↦ rw e ((f.0, f.1, number, (least, most)), λ h. cc)
        ]

    -- The numbers that a bucket can hold.
    abbrev pub Fits : ℕ → Type 0
    Fits n = at_least (of_ℤ burst) (of_ℤ (pos n)) ≡ true

    run-IsFilled :
        (calls : List (ℕ × ℕ)) (tb : TokenBucket amounts)
        → pos 0 ≤ℤ burst
        → IsFilled tb
        → Within (run calls tb).0.tokens × All Fits (run calls tb).1
    run-IsFilled [] tb room f = (f.3, tt)
    run-IsFilled ((now, n) ∷ calls) tb room f =
        let (left, fits) = allow_n-IsFilled now n tb room f in
        let (end, granted) = run-IsFilled calls (allow_n amounts now (pos n) tb).0 room left in
        elim (Bool-cases (allow_n amounts now (pos n) tb).1) [
          | inl e ↦ rw e (end, (fits e, granted))
          | inr e ↦ rw e (end, granted)
        ]

    -- Where the rounding keeps the order and the bucket's size is not negative, calls of `AllowN` for
    -- numbers that are not negative, at whatever times, leave a bucket that started full between empty
    -- and full, and none of them is granted more tokens than the bucket can hold.
    pub run-Within :
        (calls : List (ℕ × ℕ)) (start : ℕ)
        → pos 0 ≤ℤ burst
        → let after = run calls (new_token_bucket amounts start rate burst) in
          Within after.0.tokens × All Fits after.1
    unfolding new_token_bucket
    run-Within calls start room =
        run-IsFilled calls (new_token_bucket amounts start rate burst) room (
          refl,
          refl,
          number-of_ℤ,
          (monotone (pos 0) burst room, reflexive (of_ℤ burst) number-of_ℤ),
        )

    abbrev pub sum : List ℕ → ℕ
    sum [] = 0
    sum (n ∷ ns) = n + sum ns

    sum-if :
        (b : Bool) (n : ℕ) (ns : List ℕ)
        → sum (if b then n ∷ ns else ns) ≡ (if b then n + sum ns else sum ns)
    sum-if true n ns = refl
    sum-if false n ns = refl

    refilled-now :
        (tb : TokenBucket amounts) → IsFilled tb → refilled amounts tb.last_update tb ≡ tb.tokens
    unfolding refilled
    refilled-now tb (r, b, number, (least, most)) =
        let none_since : tb.last_update - tb.last_update ≡ 0 = omega arith in
        rw (none_since, r, b, add-none tb.tokens number, not-less (of_ℤ burst) tb.tokens most) refl

    allow_n-last_update :
        (now n : ℕ) (tb : TokenBucket amounts)
        → (allow_n amounts now (pos n) tb).0.last_update ≡ now
    unfolding allow_n
    allow_n-last_update now n tb = ground arith

    -- What a call at the time of the last one grants was in the bucket beside what it leaves.
    allow_n-paid :
        (n m : ℕ) (tb : TokenBucket amounts)
        → IsFilled tb
        → at_least (allow_n amounts tb.last_update (pos n) tb).0.tokens (of_ℤ (pos m)) ≡ true
        → at_least tb.tokens
            (of_ℤ (pos (if (allow_n amounts tb.last_update (pos n) tb).1 then n + m else m)))
          ≡ true
    unfolding allow_n
    allow_n-paid n m tb f =
        rw (refilled-now tb f) (elim (Bool-cases (at_least tb.tokens (of_ℤ (pos n)))) [
          | inl e ↦ rw e (λ h. sub-exact tb.tokens m n f.2 f.3.1 e h)
          | inr e ↦ rw e (λ h. h)
        ])

    run-paid :
        (ns : List ℕ) (tb : TokenBucket amounts)
        → pos 0 ≤ℤ burst
        → IsFilled tb
        → at_least tb.tokens (of_ℤ (pos (sum (run (map (λ n. (tb.last_update, n)) ns) tb).1)))
          ≡ true
    run-paid [] tb room f = f.3.0
    run-paid (n ∷ ns) tb room f =
        let (tb', allowed) = allow_n amounts tb.last_update (pos n) tb in
        let left = (allow_n-IsFilled tb.last_update n tb room f).0 in
        let granted = (run (map (λ n. (tb.last_update, n)) ns) tb').1 in
        let rest : at_least tb'.tokens (of_ℤ (pos (sum granted))) ≡ true =
          rw (allow_n-last_update tb.last_update n tb) at (run-paid ns tb' room left) in
        ap (λ k. at_least tb.tokens (of_ℤ (pos k))) (sum-if allowed n granted)
        ∙ allow_n-paid n (sum granted) tb f rest

    -- Where the rounding keeps the order and takes whole tokens away exactly, and the bucket's size is not
    -- negative, a bucket that started full grants to calls of `AllowN` that come at once, for numbers
    -- that are not negative, no more tokens in all than it can hold.
    pub run-at_once :
        (ns : List ℕ) (start : ℕ)
        → pos 0 ≤ℤ burst
        → Fits (sum (run (map (λ n. (start, n)) ns) (new_token_bucket amounts start rate burst)).1)
    unfolding new_token_bucket
    run-at_once ns start room =
        run-paid ns (new_token_bucket amounts start rate burst) room (
          refl,
          refl,
          number-of_ℤ,
          (monotone (pos 0) burst room, reflexive (of_ℤ burst) number-of_ℤ),
        )
