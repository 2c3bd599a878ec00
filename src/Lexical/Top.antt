-- ===== src/Lexical/Top.antt =====
-- The selection of the best results.
use mathlib.Core.List.Perm
use mathlib.Core.List.{Perm}
use mathlib.Core.Path.{subst}
use vector_mcp_go.Base.{
  ℕ, zero, suc, ◌+◌, ◌≤◌, ◌<◌, ◌≡◌, refl, sym, ap, ◌∙◌, true, false, Option, none, some, length,
  List, [], ◌∷◌, get_elem?, get_or, set, All, All-set, arith, Bool-cases, inl, inr,
}
use vector_mcp_go.Base.Floats.{Floats, IsOrder}
use vector_mcp_go.Lexical.{max_from, swap_head, after_top, partial_sort}

irreflexive : (fl : Floats) → IsOrder fl → (a : fl.F) → fl.less a a ≡ false
irreflexive fl order a = elim (Bool-cases (fl.less a a)) [
  | inl e ↦ order.asymmetric a a e
  | inr e ↦ e
]

length-set {ℓ} : {A : Type ℓ} (xs : List A) (n : ℕ) (a : A) → length (set xs n a) ≡ length xs
length-set [] n a = refl
length-set (x ∷ xs) zero a = refl
length-set (x ∷ xs) (suc n) a = ap suc (length-set xs n a)

module _ (fl : Floats) {D : Type 0} where
  max_from_better :
      (best r : D × fl.F) (i j : ℕ) (rs : List (D × fl.F))
      → fl.less best.1 r.1 ≡ true
      → max_from fl best i j (r ∷ rs) ≡ max_from fl r j (suc j) rs
  unfolding max_from
  max_from_better best r i j rs e = rw e

  max_from_kept :
      (best r : D × fl.F) (i j : ℕ) (rs : List (D × fl.F))
      → fl.less best.1 r.1 ≡ false
      → max_from fl best i j (r ∷ rs) ≡ max_from fl best i (suc j) rs
  unfolding max_from
  max_from_kept best r i j rs e = rw e

module _ (fl : Floats) (order : IsOrder fl) {D : Type 0} where
  open fl use {F, less}
  open order use {asymmetric, transitive}

  -- No result has a better score than this one.
  abbrev pub Best : D × F → List (D × F) → Type 0
  Best r = All (λ s. less r.1 s.1 ≡ false)

  max_from-Best :
      (best : D × F) (i j : ℕ) (rs : List (D × F))
      → (less (max_from fl best i j rs).0.1 best.1 ≡ false) × Best (max_from fl best i j rs).0 rs
  max_from-Best best i j [] = unfold max_from in (irreflexive fl order best.1, tt)
  max_from-Best best i j (r ∷ rs) = elim (Bool-cases (less best.1 r.1)) [
    | inl e ↦
        let (over, all) = max_from-Best r j (suc j) rs in
        subst (λ m. (less m.0.1 best.1 ≡ false) × Best m.0 (r ∷ rs))
          (sym (max_from_better fl best r i j rs e))
          (transitive _ r.1 best.1 over (asymmetric best.1 r.1 e), (over, all))
    | inr e ↦
        let (over, all) = max_from-Best best i (suc j) rs in
        subst (λ m. (less m.0.1 best.1 ≡ false) × Best m.0 (r ∷ rs))
          (sym (max_from_kept fl best r i j rs e)) (over, (transitive _ best.1 r.1 over e, all))
  ]

  next :
      (all : List (D × F)) (j : ℕ) (r : D × F) (rs : List (D × F))
      → ((n : ℕ) → get_elem? all (j + n) ≡ get_elem? (r ∷ rs) n)
      → (n : ℕ) → get_elem? all (suc j + n) ≡ get_elem? rs n
  next all j r rs k n = ap (get_elem? all) (shift j n) ∙ k (suc n)
    where
      shift : (j n : ℕ) → suc j + n ≡ j + suc n
      shift j n = omega arith

  next_0 : (r : D × F) (rs : List (D × F)) (n : ℕ) → get_elem? (r ∷ rs) (1 + n) ≡ get_elem? rs n
  next_0 r rs n = ap (get_elem? (r ∷ rs)) (one n)
    where
      one : (n : ℕ) → 1 + n ≡ suc n
      one n = omega arith

  max_from-get :
      (all : List (D × F)) (best : D × F) (i j : ℕ) (rs : List (D × F))
      → get_elem? all i ≡ some best
      → ((n : ℕ) → get_elem? all (j + n) ≡ get_elem? rs n)
      → get_elem? all (max_from fl best i j rs).1 ≡ some (max_from fl best i j rs).0
  max_from-get all best i j [] h k = unfold max_from in h
  max_from-get all best i j (r ∷ rs) h k = elim (Bool-cases (less best.1 r.1)) [
    | inl e ↦ rw (max_from_better fl best r i j rs e) (
        max_from-get all r j (suc j) rs (ap (get_elem? all) (omega arith) ∙ k 0)
          (next all j r rs k))
    | inr e ↦
        rw (max_from_kept fl best r i j rs e)
          (max_from-get all best i (suc j) rs h (next all j r rs k))
  ]

  swap-tail :
      (r : D × F) (rs : List (D × F)) (n : ℕ) (b : D × F)
      → get_elem? rs n ≡ some b
      → (get_or rs n r ≡ b) × Perm (b ∷ set rs n r) (r ∷ rs)
  swap-tail r [] n b h = cc
  swap-tail r (s ∷ rs) zero b h = let e : s ≡ b = cc in (e, rw (← e) (Perm.swap r s rs))
  swap-tail r (s ∷ rs) (suc n) b h =
      let (e, p) = swap-tail r rs n b h in
      (e, Perm.trans (Perm.swap s b (set rs n r)) (Perm.trans (Perm.cons s p) (Perm.swap r s rs)))

  swap_head-Perm :
      (r : D × F) (rs : List (D × F)) (n : ℕ) (b : D × F)
      → get_elem? (r ∷ rs) n ≡ some b
      → ((swap_head fl r rs n).0 ≡ b) × Perm (b ∷ (swap_head fl r rs n).1) (r ∷ rs)
  unfolding swap_head
  swap_head-Perm r rs zero b h = let e : r ≡ b = cc in (e, rw (← e) (Perm.refl (r ∷ rs)))
  swap_head-Perm r rs (suc n) b h = swap-tail r rs n b h

  Best-get_or :
      (b r : D × F) (rs : List (D × F)) (n : ℕ)
      → less b.1 r.1 ≡ false
      → Best b rs
      → less b.1 (get_or rs n r).1 ≡ false
  Best-get_or b r [] n h hs = h
  Best-get_or b r (s ∷ rs) zero h hs = hs.0
  Best-get_or b r (s ∷ rs) (suc n) h hs = Best-get_or b r rs n h hs.1

  Best-swap_head :
      (b r : D × F) (rs : List (D × F)) (n : ℕ)
      → less b.1 r.1 ≡ false
      → Best b rs
      → (less b.1 (swap_head fl r rs n).0.1 ≡ false) × Best b (swap_head fl r rs n).1
  unfolding swap_head
  Best-swap_head b r rs zero h hs = (h, hs)
  Best-swap_head b r rs (suc n) h hs =
      (Best-get_or b r rs n h hs, All-set (λ s. less b.1 s.1 ≡ false) rs n r hs h)

  -- No result of a sort that does not panic has a better score than this one.
  abbrev BestOf : D × F → Option (List (D × F)) → Type 0
  BestOf r none = Unit
  BestOf r (some rs) = Best r rs

  BestOf-after_top :
      (b top : D × F) (o : Option (List (D × F)))
      → less b.1 top.1 ≡ false
      → BestOf b o
      → BestOf b (after_top fl top o)
  BestOf-after_top b top none h k = tt
  BestOf-after_top b top (some rs) h k = (h, k)

  Best-partial_sort :
      (b : D × F) (k : ℕ) (rs : List (D × F)) → Best b rs → BestOf b (partial_sort fl k rs)
  unfolding partial_sort
  Best-partial_sort b zero rs h = h
  Best-partial_sort b (suc k) [] h = tt
  Best-partial_sort b (suc k) (r ∷ rs) h =
      let n = (max_from fl r 0 1 rs).1 in
      let (top, rest) = Best-swap_head b r rs n h.0 h.1 in
      BestOf-after_top b (swap_head fl r rs n).0 (partial_sort fl k (swap_head fl r rs n).1) top
        (Best-partial_sort b k (swap_head fl r rs n).1 rest)

  length-swap_head :
      (r : D × F) (rs : List (D × F)) (n : ℕ) → length (swap_head fl r rs n).1 ≡ length rs
  unfolding swap_head
  length-swap_head r rs zero = refl
  length-swap_head r rs (suc n) = length-set rs n r

  -- Each of the first `k` results is at least as good as every one behind it.
  abbrev pub TopFirst : ℕ → List (D × F) → Type 0
  TopFirst zero rs = Unit
  TopFirst (suc k) [] = Unit
  TopFirst (suc k) (r ∷ rs) = Best r rs × TopFirst k rs

  -- What a partial sort leaves, or why it panics.
  abbrev pub TopSorted : ℕ → List (D × F) → Option (List (D × F)) → Type 0
  TopSorted k rs none = length rs < k
  TopSorted k rs (some sorted) = (k ≤ length rs) × TopFirst k sorted × Perm sorted rs

  TopSorted-after_top :
      (k : ℕ) (r b : D × F) (rs rest : List (D × F)) (o : Option (List (D × F)))
      → length rest ≡ length rs
      → Perm (b ∷ rest) (r ∷ rs)
      → BestOf b o
      → TopSorted k rest o
      → TopSorted (suc k) (r ∷ rs) (after_top fl b o)
  TopSorted-after_top k r b rs rest none e p h t = omega arith
  TopSorted-after_top k r b rs rest (some sorted) e p h (few, top, perm) =
      (omega arith, (h, top), Perm.trans (Perm.cons b perm) p)

  -- Where `<` on the scores is an order, `partialSort` panics only where there are fewer than `k`
  -- results; otherwise it puts the `k` best results first, in order, and only moves results.
  pub partial_sort-TopFirst : (k : ℕ) (rs : List (D × F)) → TopSorted k rs (partial_sort fl k rs)
  unfolding partial_sort
  partial_sort-TopFirst zero rs = (omega arith, tt, Perm.refl rs)
  partial_sort-TopFirst (suc k) [] = omega arith
  partial_sort-TopFirst (suc k) (r ∷ rs) =
      let m = max_from fl r 0 1 rs in
      let (over, all) = max_from-Best r 0 1 rs in
      let at : get_elem? (r ∷ rs) m.1 ≡ some m.0 =
        max_from-get (r ∷ rs) r 0 1 rs refl (next_0 r rs) in
      let (top, perm) = swap_head-Perm r rs m.1 m.0 at in
      let rest = (swap_head fl r rs m.1).1 in
      rw top (
        TopSorted-after_top k r m.0 rs rest (partial_sort fl k rest) (length-swap_head r rs m.1)
          perm (Best-partial_sort m.0 k rest (Best-swap_head m.0 r rs m.1 over all).1)
          (partial_sort-TopFirst k rest))
