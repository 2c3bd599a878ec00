-- ===== src/Store/Asked.antt =====
-- internal/db/store.go: `SearchWithScore` returns, and what it returns was asked for.
use vector_mcp_go.Base.{
  ℕ, zero, suc, ◌≤◌, ◌<◌, ◌≡◌, refl, sym, ◌∙◌, Bool, true, false, ◌&&◌, ◌||◌, not, List, [], ◌∷◌,
  ◌++◌, map, length, length-take, length-map, take, any, keep, ltb, ◌==◌, if◌then◌else◌, Bool-cases,
  inl, inr, arith,
}
use vector_mcp_go.Base.Int.{pos}
use vector_mcp_go.Base.Text.{Text, codes, text_eq}
use vector_mcp_go.Store.{
  Metadata, field, Document, ok, document, Collection, matches, IsCollection, Store, Found,
}
use vector_mcp_go.Store.Filters.{and_false, any-map}
use vector_mcp_go.Store.Search.{
  category_filter, project_filter, query_projects, all_results, boosted, search_with_score, IsSort,
  of_category, of_projects, is_asked,
}

module _ {ℓ} {A : Type ℓ} where
  pub any-take : (p : A → Bool) (n : ℕ) (xs : List A) → any p xs ≡ false → any p (take n xs) ≡ false
  any-take p zero xs h = refl
  any-take p (suc n) [] h = refl
  any-take p (suc n) (x ∷ xs) h = ground (arith, any-take p n xs)

  any-append :
      (p : A → Bool) (xs ys : List A)
      → any p xs ≡ false
      → any p ys ≡ false
      → any p (xs ++ ys) ≡ false
  any-append p [] ys h k = k
  any-append p (x ∷ xs) ys h k = ground (arith, any-append p xs ys)

  any-false :
      (p q : A → Bool)
      → ((x : A) → p x ≡ true → q x ≡ true)
      → (xs : List A) → any q xs ≡ false
      → any p xs ≡ false
  any-false p q h [] e = refl
  any-false p q h (x ∷ xs) e = ground (arith, h x, any-false p q h xs)

  any-keep-not : (p : A → Bool) (xs : List A) → any (λ x. not (p x)) (keep p xs) ≡ false
  any-keep-not p [] = refl
  any-keep-not p (x ∷ xs) = elim (Bool-cases (p x)) [
    | inl e ↦ rw (e, e) (any-keep-not p xs)
    | inr e ↦ rw e (any-keep-not p xs)
  ]

not_or : (a b : Bool) → not (a || b) ≡ true → not a ≡ true
not_or true b h = h
not_or false b h = refl

not_or_right : (a b : Bool) → not (a || b) ≡ true → not b ≡ true
not_or_right true b h = cc
not_or_right false b h = h

and_true : (a : Bool) → (a && true) ≡ a
and_true true = refl
and_true false = refl

module _ {V : Type 0} (category : Text) (d : Document V) where
  -- What the filter by category lets pass.
  category_filter-of_category : matches (category_filter category) d ≡ of_category category d
  category_filter-of_category = elim (Bool-cases (text_eq category [])) [
    | inl e ↦ rw e refl
    | inr e ↦ rw e (and_true (text_eq (field (codes "category") d.metadata) category))
  ]

  -- What one of the filters by project lets pass.
  project_filter-is_asked :
      (ids : List Text)
      → any (λ q. matches (project_filter category q) d) ids
        ≡ of_category category d && of_projects ids d
  project_filter-is_asked [] = sym (and_false (of_category category d))
  project_filter-is_asked (q ∷ ids) =
      rw (category_filter-of_category, project_filter-is_asked ids)
        (both (text_eq (field (codes "project_id") d.metadata) q) (of_category category d)
          (of_projects ids d))
    where
      both : (a c r : Bool) → (a && c || c && r) ≡ (c && (a || r))
      both true true r = refl
      both false true r = refl
      both true false r = refl
      both false false r = refl

module _ (col : Collection) (laws : IsCollection col) (sorts : IsSort col) where
  open col use {floats, Vector, State, docs, count, query, sort_records}

  -- A record that the search did not ask for.
  abbrev pub is_stray : Text → List Text → Found col → Bool
  is_stray category ids r = not (is_asked category ids (document r))

  pub any-category_filter :
      (category : Text) (rs : List (Found col))
      → any (is_stray category []) rs
        ≡ any (λ r. not (matches (category_filter category) (document r))) rs
  any-category_filter category rs i =
      any (λ r. not (sym (category_filter-of_category category (document r)) i)) rs

  pub any-project_filter :
      (category q : Text) (ids : List Text) (rs : List (Found col))
      → any (is_stray category (q ∷ ids)) rs
        ≡ any (λ r. not (any (λ q. matches (project_filter category q) (document r)) (q ∷ ids))) rs
  any-project_filter category q ids rs i =
      any (λ r. not (sym (project_filter-is_asked category (document r) (q ∷ ids)) i)) rs

  pub query-matches :
      (s : State) (e : Vector) (n : ℕ) (filter : Metadata)
      → 0 < n
      → n ≤ count s
      → (rs : List (Found col)) × (query s e n filter ≡ ok rs)
        × (length rs ≤ n)
        × (any (λ r. not (matches filter (document r))) rs ≡ false)
  query-matches s e n filter h k = (
    take n (laws.ranked s e filter),
    laws.query-ok s e n filter h (omega (arith, laws.count-docs s)),
    omega (arith, length-take n (laws.ranked s e filter)),
    any-take (λ r. not (matches filter (document r))) n (laws.ranked s e filter)
        (sym (any-map document (λ d. not (matches filter d)) (laws.ranked s e filter))
          ∙ laws.any-ranked s e filter (λ d. not (matches filter d))
          ∙ any-keep-not (matches filter) (docs s)),
  )

  pub query_projects-asked :
      (s : State) (e : Vector) (n : ℕ) (category : Text) (ids : List Text)
      → 0 < n
      → n ≤ count s
      → (rs : List (Found col)) × (query_projects col e n category ids s ≡ ok rs)
        × (any (λ r. not (any (λ q. matches (project_filter category q) (document r)) ids)) rs
            ≡ false)
  unfolding query_projects query-matches
  query_projects-asked s e n category [] h k = ([], refl, refl)
  query_projects-asked s e n category (q ∷ ids) h k =
      let (rs, er, _, stray) = query-matches s e n (project_filter category q) h k in
      let (more, em, strays) = query_projects-asked s e n category ids h k in
      (
        rs ++ more,
        rw (er, em, query_projects) refl,
        any-append
            (λ r. not (any (λ q'. matches (project_filter category q') (document r)) (q ∷ ids))) rs
            more
            (any-false
              (λ r. not (any (λ q'. matches (project_filter category q') (document r)) (q ∷ ids)))
              (λ r. not (matches (project_filter category q) (document r)))
              (λ r.
                not_or (matches (project_filter category q) (document r))
                  (any (λ q'. matches (project_filter category q') (document r)) ids))
              rs stray)
            (any-false
              (λ r. not (any (λ q'. matches (project_filter category q') (document r)) (q ∷ ids)))
              (λ r. not (any (λ q'. matches (project_filter category q') (document r)) ids))
              (λ r.
                not_or_right (matches (project_filter category q) (document r))
                  (any (λ q'. matches (project_filter category q') (document r)) ids))
              more strays),
      )

  all_results-asked :
      (s : State) (e : Vector) (n : ℕ) (category : Text) (ids : List Text)
      → 0 < n
      → n ≤ count s
      → (rs : List (Found col)) × (all_results col e n category ids s ≡ ok rs)
        × (length rs ≤ n)
        × (any (is_stray category ids) rs ≡ false)
  unfolding all_results
  all_results-asked s e n category [] h k =
      let (rs, er, few, stray) = query-matches s e n (category_filter category) h k in
      (rs, er, few, any-category_filter category rs ∙ stray)
  all_results-asked s e n category (q ∷ ids) h k =
      let (rs, er, stray) = query_projects-asked s e n category (q ∷ ids) h k in
      (
        take n (sort_records rs),
        rw er refl,
        omega (arith, length-take n (sort_records rs)),
        any-take (is_stray category (q ∷ ids)) n (sort_records rs) (
            sorts.any-sort (is_stray category (q ∷ ids)) rs
            ∙ any-project_filter category q ids rs
            ∙ stray),
      )

  -- Over a collection that behaves as chromem-go documents, and with a sort that only moves
  -- records, `SearchWithScore` for at most `n` records succeeds: it returns at most `n` records, as
  -- many scores, and no record but of the asked projects and category.
  pub search_with_score_lem :
      (s : Store col) (e : Vector) (n : ℕ) (category : Text) (ids : List Text)
      → (found : List (Found col) × List floats.F) × (search_with_score col e (pos n) ids category s
          ≡ ok found)
        × (length found.0 ≤ n)
        × (length found.1 ≡ length found.0)
        × (any (is_stray category ids) found.0 ≡ false)
  unfolding search_with_score
  search_with_score_lem s e n category ids = elim (Bool-cases (n == 0 || count s.collection == 0)) [
    | inl z ↦ rw z (([], []), refl, omega arith, refl, refl)
    | inr z ↦
        let top = if ltb (count s.collection) n then count s.collection else n in
        let (rs, er, few, stray) =
          all_results-asked s.collection e top category ids (ground arith) (ground arith) in
        rw (z, er)
          (
            (sort_records (map (boosted col) rs), map (λ r. (boosted col r).similarity) rs),
            refl,
            ground (arith, sorts.length-sort (map (boosted col) rs), length-map (boosted col) rs),
            length-map (λ r. (boosted col r).similarity) rs
                ∙ sym (sorts.length-sort (map (boosted col) rs) ∙ length-map (boosted col) rs),
            sorts.any-sort (is_stray category ids) (map (boosted col) rs)
                ∙ any-map (boosted col) (is_stray category ids) rs
                ∙ unfold boosted in stray,
          )
  ]
