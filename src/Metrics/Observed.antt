-- ===== src/Metrics/Observed.antt =====
-- internal/observability/metrics/prometheus.go: what a histogram says of the values it was given.
use vector_mcp_go.Base.{
  ℕ, suc, ◌+◌, ◌<◌, ◌≡◌, refl, sym, ap, ◌∙◌, true, false, List, [], ◌∷◌, map, length, keep, All,
  if◌then◌else◌, Bool-cases, inl, inr, arith,
}
use vector_mcp_go.Base.Text.{Text}
use vector_mcp_go.Metrics.{
  Numbers, Histogram, width, increment, plus_int64, zero_counts, new_histogram, count_in, observe,
  cumulated,
}
use vector_mcp_go.Store.{Metadata}

abbrev total : List ℕ → ℕ
total [] = 0
total (c ∷ cs) = c + total cs

increment-suc : (n : ℕ) → n + 1 < width → increment n ≡ suc n
unfolding increment
increment-suc n h = omega arith

plus_exact : (a b : ℕ) → a + b < width → plus_int64 a b ≡ a + b
unfolding plus_int64
plus_exact a b h = omega arith

plus_suc : (a b : ℕ) → a + b + 1 < width → plus_int64 (suc a) b ≡ suc (a + b)
unfolding plus_int64
plus_suc a b h = omega arith

plus_suc_right : (a b : ℕ) → a + b + 1 < width → plus_int64 a (suc b) ≡ suc (a + b)
unfolding plus_int64
plus_suc_right a b h = omega arith

-- What the order of the buckets needs of `<=`.
pub record IsTransitive (numbers : Numbers) : Type 0 where
  pub transitive :
      (a b c : numbers.floats.F)
      → numbers.at_most a b ≡ true
      → numbers.at_most b c ≡ true
      → numbers.at_most a c ≡ true

module _ (numbers : Numbers) where
  open numbers use {floats, at_most}
  open floats use {F, of_int}

  -- Each bucket is at most those after it.
  abbrev pub Sorted : List F → Type 0
  Sorted [] = Unit
  Sorted (b ∷ bs) = All (λ c. at_most b c ≡ true) bs × Sorted bs

  -- How many of the values are at most the bucket.
  abbrev pub within : List F → F → ℕ
  within vs b = length (keep (λ v. at_most v b) vs)

  -- The histogram after the values, the last one first.
  abbrev pub observed : List F → Histogram numbers → Histogram numbers
  observed [] h = h
  observed (v ∷ vs) h = observe numbers v (observed vs h)

  -- As many counts as buckets, and one.
  abbrev Fit : List F → List ℕ → Type 0
  Fit bs [] = ⊥
  Fit [] (c ∷ cs) = cs ≡ []
  Fit (b ∷ bs) (c ∷ cs) = Fit bs cs

  Fit-zero : (bs : List F) → Fit bs (zero_counts numbers bs)
  Fit-zero [] = refl
  Fit-zero (b ∷ bs) = Fit-zero bs

  count_in-Fit : (v : F) (bs : List F) (cs : List ℕ) → Fit bs cs → Fit bs (count_in numbers v bs cs)
  unfolding count_in
  count_in-Fit v bs [] h = absurd h
  count_in-Fit v [] (c ∷ cs) h = h
  count_in-Fit v (b ∷ bs) (c ∷ cs) h = elim (Bool-cases (at_most v b)) [
    | inl e ↦ rw e h
    | inr e ↦ rw e (count_in-Fit v bs cs h)
  ]

  total-count_in :
      (v : F) (bs : List F) (cs : List ℕ)
      → Fit bs cs
      → total cs + 1 < width
      → total (count_in numbers v bs cs) ≡ suc (total cs)
  unfolding count_in
  total-count_in v bs [] h k = absurd h
  total-count_in v [] (c ∷ cs) h k = rw (increment-suc c (omega arith)) (omega arith)
  total-count_in v (b ∷ bs) (c ∷ cs) h k = elim (Bool-cases (at_most v b)) [
    | inl e ↦ rw (e, increment-suc c (omega arith)) (omega arith)
    | inr e ↦ rw e (omega (arith, total-count_in v bs cs h (omega arith)))
  ]

  -- The cumulative counts, with one more in each bucket that the value is within.
  abbrev raised : F → List (F × ℕ) → List (F × ℕ)
  raised v [] = []
  raised v ((b, n) ∷ bs) = (b, if at_most v b then suc n else n) ∷ raised v bs

  raised_all :
      (v : F) (bs : List F) (acc : ℕ) (cs : List ℕ)
      → acc + total cs + 1 < width
      → All (λ b. at_most v b ≡ true) bs
      → ((cumulated numbers (suc acc) bs cs).0 ≡ raised v (cumulated numbers acc bs cs).0)
        × ((cumulated numbers (suc acc) bs cs).1 ≡ suc (cumulated numbers acc bs cs).1)
  unfolding cumulated
  raised_all v bs acc [] k h = (refl, refl)
  raised_all v [] acc (c ∷ cs) k h =
      (refl, rw (plus_suc acc c (omega arith), plus_exact acc c (omega arith)) refl)
  raised_all v (b ∷ bs) acc (c ∷ cs) k h =
      let rest = raised_all v bs (acc + c) cs (omega arith) h.1 in
      rw (plus_suc acc c (omega arith), plus_exact acc c (omega arith), h.0)
        (ap (◌∷◌ (b, suc (acc + c))) rest.0, rest.1)

  module _ (order : IsTransitive numbers) where
    above :
        (v b : F) (bs : List F)
        → at_most v b ≡ true
        → All (λ c. at_most b c ≡ true) bs
        → All (λ c. at_most v c ≡ true) bs
    above v b [] e h = tt
    above v b (c ∷ bs) e h = (order.transitive v b c e h.0, above v b bs e h.1)

    count_in-other :
        (v b : F) (bs : List F) (c : ℕ) (cs : List ℕ)
        → at_most v b ≡ false
        → count_in numbers v (b ∷ bs) (c ∷ cs) ≡ c ∷ count_in numbers v bs cs
    unfolding count_in
    count_in-other v b bs c cs e = rw e refl

    cumulated-cons :
        (acc : ℕ) (b : F) (bs : List F) (c : ℕ) (cs : List ℕ)
        → acc + c < width
        → cumulated numbers acc (b ∷ bs) (c ∷ cs) ≡ (
          (b, acc + c) ∷ (cumulated numbers (acc + c) bs cs).0,
          (cumulated numbers (acc + c) bs cs).1,
        )
    unfolding cumulated
    cumulated-cons acc b bs c cs h = rw (plus_exact acc c h) refl

    cumulated-count_in :
        (v : F) (bs : List F) (acc : ℕ) (cs : List ℕ)
        → Fit bs cs
        → Sorted bs
        → acc + total cs + 1 < width
        → ((cumulated numbers acc bs (count_in numbers v bs cs)).0
            ≡ raised v (cumulated numbers acc bs cs).0)
          × ((cumulated numbers acc bs (count_in numbers v bs cs)).1
              ≡ suc (cumulated numbers acc bs cs).1)
    unfolding cumulated count_in
    cumulated-count_in v bs acc [] f s k = absurd f
    cumulated-count_in v [] acc (c ∷ cs) f s k = (
      refl,
      rw
          (
            increment-suc c (omega arith),
            plus_suc_right acc c (omega arith),
            plus_exact acc c (omega arith),
          )
          refl,
    )
    cumulated-count_in v (b ∷ bs) acc (c ∷ cs) f s k = elim (Bool-cases (at_most v b)) [
      | inl e ↦
          let rest = raised_all v bs (acc + c) cs (omega arith) (above v b bs e s.0) in
          rw
            (
              e,
              increment-suc c (omega arith),
              plus_suc_right acc c (omega arith),
              plus_exact acc c (omega arith),
            )
            (ap (◌∷◌ (b, suc (acc + c))) rest.0, rest.1)
      | inr e ↦
          let rest = cumulated-count_in v bs (acc + c) cs f s.1 (omega arith) in
          let new =
            ap (cumulated numbers acc (b ∷ bs)) (count_in-other v b bs c cs e)
            ∙ cumulated-cons acc b bs c (count_in numbers v bs cs) (omega arith) in
          let old = cumulated-cons acc b bs c cs (omega arith) in
          (
            ap (λ x. x.0) new
                ∙ ap (◌∷◌ (b, acc + c)) rest.0
                ∙ sym (
                    ap (λ x. raised v x.0) old
                    ∙ ap
                        (λ t.
                          (b, if t then suc (acc + c) else acc + c)
                          ∷ raised v (cumulated numbers (acc + c) bs cs).0)
                        e),
            ap (λ x. x.1) new ∙ rest.1 ∙ sym (ap (λ x. suc x.1) old),
          )
    ]

    raised-within :
        (v : F) (vs bs : List F)
        → raised v (map (λ b. (b, within vs b)) bs) ≡ map (λ b. (b, within (v ∷ vs) b)) bs
    raised-within v vs [] = refl
    raised-within v vs (b ∷ bs) = elim (Bool-cases (at_most v b)) [
      | inl e ↦ rw (e, raised-within v vs bs) refl
      | inr e ↦ rw (e, raised-within v vs bs) refl
    ]

    cumulated-zero :
        (bs : List F)
        → cumulated numbers 0 bs (zero_counts numbers bs) ≡ (map (λ b. (b, within [] b)) bs, 0)
    unfolding cumulated plus_int64
    cumulated-zero [] = refl
    cumulated-zero (b ∷ bs) = rw (cumulated-zero bs) refl

    total-zero : (bs : List F) → total (zero_counts numbers bs) ≡ 0
    total-zero [] = refl
    total-zero (b ∷ bs) = omega (arith, total-zero bs)

    observed-Fit :
        (vs : List F) (name help : Text) (labels : Metadata) (bs : List F)
        → length vs < width
        → let h = observed vs (new_histogram numbers name help labels bs) in
          (h.buckets ≡ bs) × Fit bs h.counts × (total h.counts ≡ length vs) × (h.count ≡ length vs)
    unfolding observe
    observed-Fit [] name help labels bs k = (refl, Fit-zero bs, total-zero bs, refl)
    observed-Fit (v ∷ vs) name help labels bs k =
        let h = observed vs (new_histogram numbers name help labels bs) in
        let ih = observed-Fit vs name help labels bs (omega arith) in
        (
          ih.0,
          rw ih.0 (count_in-Fit v bs h.counts ih.1),
          rw ih.0 (total-count_in v bs h.counts ih.1 (omega (arith, ih.2)) ∙ ap suc ih.2),
          increment-suc h.count (omega (arith, ih.3)) ∙ ap suc ih.3,
        )

    -- After fewer than 2 ^ 64 values, whatever they are and in whatever order they came, a histogram
    -- with increasing buckets prints for each bucket how many of the values are at most its bound,
    -- for the last one how many there were, and the same number as its count.
    pub observed-cumulated :
        (vs : List F) (name help : Text) (labels : Metadata) (bs : List F)
        → Sorted bs
        → length vs < width
        → let h = observed vs (new_histogram numbers name help labels bs) in
          (cumulated numbers 0 h.buckets h.counts ≡ (map (λ b. (b, within vs b)) bs, length vs))
          × (h.count ≡ length vs)
    unfolding observe
    observed-cumulated [] name help labels bs s k = (cumulated-zero bs, refl)
    observed-cumulated (v ∷ vs) name help labels bs s k =
        let h = observed vs (new_histogram numbers name help labels bs) in
        let fit = observed-Fit vs name help labels bs (omega arith) in
        let ih = observed-cumulated vs name help labels bs s (omega arith) in
        let before : cumulated numbers 0 bs h.counts ≡ (map (λ b. (b, within vs b)) bs, length vs) =
          rw fit.0 at ih.0 in
        let step = cumulated-count_in v bs 0 h.counts fit.1 s (omega (arith, fit.2)) in
        (
          rw fit.0 (λ i. (
            (step.0 ∙ ap (λ x. raised v x.0) before ∙ raised-within v vs bs) i,
            (step.1 ∙ ap (λ x. suc x.1) before) i,
          )),
          (observed-Fit (v ∷ vs) name help labels bs k).3,
        )
