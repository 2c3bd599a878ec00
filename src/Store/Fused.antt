-- ===== src/Store/Fused.antt =====
-- internal/db/store.go: `HybridSearch` returns, and what it returns was asked for.
use vector_mcp_go.Base.{
  ℕ, ◌*◌, ◌/◌, ◌≤◌, ◌≡◌, refl, sym, ap, ◌∙◌, Bool, true, false, ◌||◌, Option, none, some, List, [],
  ◌∷◌, map, length, length-take, length-map, take, any, leb, does, ◌==◌, if◌then◌else◌, Bool-cases,
  inl, inr, arith,
}
use vector_mcp_go.Base.Int.{pos}
use vector_mcp_go.Base.Maps.{find, put, del}
use vector_mcp_go.Base.Text.{Text, text_dec}
use vector_mcp_go.Lexical.{search_index}
use vector_mcp_go.Store.{ok, Collection, IsCollection, Store, Found}
use vector_mcp_go.Store.Asked.{
  any-take, is_stray, any-category_filter, any-project_filter, query-matches, query_projects-asked,
  search_with_score_lem,
}
use vector_mcp_go.Store.Filters.{any-map}
use vector_mcp_go.Store.Hybrid.{
  Ranking, expanded, add_records, boost_of, rank_all, fuse, combine, hybrid_search,
}
use vector_mcp_go.Store.Readers.{map_reply}
use vector_mcp_go.Store.Search.{
  category_filter, query_projects, search_vectors, scored_by, lexical_record, lexical_search,
  IsSort,
}

or_head : (a b : Bool) → (a || b) ≡ false → a ≡ false
or_head true b h = cc
or_head false b h = refl

or_tail : (a b : Bool) → (a || b) ≡ false → b ≡ false
or_tail true b h = cc
or_tail false b h = h

or_none : (a b : Bool) → a ≡ false → b ≡ false → (a || b) ≡ false
or_none a b h k = rw (h, k) refl

chosen :
    {V : Type 0} (p : V → Bool) (b : Bool) (w v : V) (o : Option V)
    → p w ≡ false
    → (if b then some w else o) ≡ some v
    → (o ≡ some v → p v ≡ false)
    → p v ≡ false
chosen p true w v o h e f = let same : w ≡ v = cc in sym (ap p same) ∙ h
chosen p false w v o h e f = f e

-- A value of a map none of whose values passes a test does not pass it.
find-none_of :
    {V : Type 0} (p : V → Bool) (k : Text) (m : List (Text × V)) (v : V)
    → any (λ e. p e.1) m ≡ false
    → find text_dec k m ≡ some v
    → p v ≡ false
find-none_of p k [] v h e = cc
find-none_of p k ((j, w) ∷ m) v h e =
    chosen p (does (text_dec j k)) w v (find text_dec k m) (or_head (p w) _ h) e
      (find-none_of p k m v (or_tail (p w) _ h))

any-del_none :
    {V : Type 0} (p : V → Bool) (k : Text) (m : List (Text × V))
    → any (λ e. p e.1) m ≡ false
    → any (λ e. p e.1) (del text_dec k m) ≡ false
any-del_none p k [] h = refl
any-del_none p k ((j, w) ∷ m) h = ground (arith, any-del_none p k m)

module _ (col : Collection) (p : Found col → Bool) where
  open col use {floats}
  open floats use {F, mul}

  scored_by-none :
      ((r : Found col) → p (lexical_record col r) ≡ p r)
      → (hits : List (Text × F)) (rs : List (Found col)) → any p rs ≡ false
      → any (λ m. p m.0) (scored_by col hits rs) ≡ false
  unfolding scored_by
  scored_by-none same hits [] h = refl
  scored_by-none same hits (r ∷ rs) h =
      step (find text_dec r.id hits) (scored_by-none same hits rs (or_tail (p r) _ h))
    where
      step :
          (o : Option F)
          → any (λ m. p m.0) (scored_by col hits rs) ≡ false
          → any
              (λ m. p m.0)
              (elim o [
                | none ↦ scored_by col hits rs
                | some score ↦ (lexical_record col r, score) ∷ scored_by col hits rs
              ])
            ≡ false
      step none ih = ih
      step (some score) ih = or_none (p (lexical_record col r)) _ (same r ∙ or_head (p r) _ h) ih

  module _ (ranking : Ranking col) where
    add_records-none :
        (rs : List (Found col)) (m : List (Text × Found col))
        → any p rs ≡ false
        → any (λ e. p e.1) m ≡ false
        → any (λ e. p e.1) (add_records col ranking rs m) ≡ false
    unfolding add_records
    add_records-none [] m h k = k
    add_records-none (r ∷ rs) m h k =
        add_records-none rs (put text_dec r.id r m) (ground arith)
          (ground (arith, any-del_none p r.id m))

    rank_all-none :
        (scores : List (Text × F)) (m : List (Text × Found col))
        → any (λ e. p e.1) m ≡ false
        → any (λ s. p s.0) (rank_all col ranking scores m) ≡ false
    unfolding rank_all
    rank_all-none [] m h = refl
    rank_all-none ((id, score) ∷ scores) m h =
        step (find text_dec id m) refl (rank_all-none scores m h)
      where
        step :
            (o : Option (Found col))
            → find text_dec id m ≡ o
            → any (λ s. p s.0) (rank_all col ranking scores m) ≡ false
            → any
                (λ s. p s.0)
                (elim o [
                  | none ↦ rank_all col ranking scores m
                  | some r ↦ (r, mul score (boost_of col ranking r)) ∷ rank_all col ranking scores m
                ])
              ≡ false
        step none e ih = ih
        step (some r) e ih = or_none (p r) _ (find-none_of p id m r h e) ih

    fuse-none :
        (query : Text) (vector lexical : List (Found col))
        → any p vector ≡ false
        → any p lexical ≡ false
        → any (λ s. p s.0) (fuse col ranking query vector lexical) ≡ false
    unfolding fuse
    fuse-none query vector lexical h k = rank_all-none _ _ (
        add_records-none lexical (add_records col ranking vector []) k
          (add_records-none vector [] h refl))

module _ (col : Collection) (laws : IsCollection col) (sorts : IsSort col) where
  open col use {floats, Vector, count, dummy, sort_scored, tokens}

  search_vectors-asked :
      (s : Store col) (e : Vector) (n : ℕ) (category : Text) (ids : List Text)
      → (rs : List (Found col)) × (search_vectors col e (pos n) ids category s ≡ ok rs)
        × (any (is_stray col laws sorts category ids) rs ≡ false)
  unfolding search_vectors
  search_vectors-asked s e n category ids = elim (Bool-cases (n == 0)) [
    | inl z ↦ rw z ([], refl, refl)
    | inr z ↦
        let (found, ef, _, _, stray) = search_with_score_lem col laws sorts s e n category ids in
        rw (z, ef) (found.0, refl, stray)
  ]

  -- What a search asks for does not depend on what `LexicalSearch` leaves unset.
  stray-lexical_record :
      (category : Text) (ids : List Text) (r : Found col)
      → is_stray col laws sorts category ids (lexical_record col r)
        ≡ is_stray col laws sorts category ids r
  stray-lexical_record category [] r = refl
  stray-lexical_record category (q ∷ ids) r = refl

  lexical_results :
      (s : Store col) (category : Text) (ids : List Text)
      → (count s.collection == 0) ≡ false
      → (rs : List (Found col)) × (elim ids [
        | [] ↦ col.query s.collection dummy (count s.collection) (category_filter category)
        | project_id ∷ more ↦
            query_projects col dummy (count s.collection) category (project_id ∷ more) s.collection
      ]
          ≡ ok rs)
        × (any (is_stray col laws sorts category ids) rs ≡ false)
  lexical_results s category [] h =
      let (rs, er, _, stray) =
        query-matches col laws sorts s.collection dummy (count s.collection)
          (category_filter category) (ground arith) (omega arith) in
      (rs, er, any-category_filter col laws sorts category rs ∙ stray)
  lexical_results s category (q ∷ ids) h =
      let (rs, er, stray) =
        query_projects-asked col laws sorts s.collection dummy (count s.collection) category
          (q ∷ ids) (ground arith) (omega arith) in
      (rs, er, any-project_filter col laws sorts category q ids rs ∙ stray)

  -- What is left of the results of a lexical search for `n` records.
  abbrev best : ℕ → List (Text × floats.F) → List (Found col) → List (Found col)
  best n hits rs = map (λ m. m.0) (take n (sort_scored (scored_by col hits rs)))

  from_hits :
      (s : Store col) (n : ℕ) (category : Text) (ids : List Text) (hits : List (Text × floats.F))
      → (count s.collection == 0) ≡ false
      → (rs : List (Found col)) × (elim hits [
        | [] ↦ ok []
        | hit ∷ hits ↦ map_reply col (best n (hit ∷ hits)) (elim ids [
          | [] ↦ col.query s.collection dummy (count s.collection) (category_filter category)
          | project_id ∷ more ↦
              query_projects col dummy
                (count s.collection)
                category
                (project_id ∷ more)
                s.collection
        ])
      ]
          ≡ ok rs)
        × (any (is_stray col laws sorts category ids) rs ≡ false)
  from_hits s n category ids [] h = ([], refl, refl)
  from_hits s n category ids (hit ∷ hits) h =
      let (rs, er, stray) = lexical_results s category ids h in
      let scored = scored_by col (hit ∷ hits) rs in
      (
        best n (hit ∷ hits) rs,
        ap (map_reply col (best n (hit ∷ hits))) er,
        any-map (λ m. m.0) (is_stray col laws sorts category ids) (take n (sort_scored scored))
            ∙ any-take (λ m. is_stray col laws sorts category ids m.0) n (sort_scored scored)
                (sorts.any-sort_scored (λ m. is_stray col laws sorts category ids m.0) scored
                  ∙ scored_by-none col (is_stray col laws sorts category ids)
                      (stray-lexical_record category ids) (hit ∷ hits) rs stray),
      )

  lexical_search-asked :
      (text : Text) (s : Store col) (n : ℕ) (category : Text) (ids : List Text)
      → (rs : List (Found col)) × (lexical_search col text (pos n) ids category s ≡ ok rs)
        × (any (is_stray col laws sorts category ids) rs ≡ false)
  unfolding lexical_search
  lexical_search-asked text s n category ids =
      elim (Bool-cases (n == 0 || count s.collection == 0)) [
        | inl z ↦ rw z ([], refl, refl)
        | inr z ↦ rw z (
            from_hits s n category ids
              (search_index floats text_dec text_dec s.bm25 (tokens text)
                (pos (if leb n (count s.collection / 3) then n * 3 else count s.collection)))
              (or_tail (n == 0) (count s.collection == 0) z))
      ]

  -- Over a collection that behaves as chromem-go documents, and with sorts that only move records,
  -- `HybridSearch` for at most `n` records succeeds: it returns at most `n` records, and none but
  -- of the asked projects and category, whatever the ranks, the weights and the boosts are.
  pub hybrid_search_lem :
      (ranking : Ranking col) (query : Text) (s : Store col) (e : Vector) (n : ℕ) (category : Text)
      (ids : List Text)
      → (rs : List (Found col)) × (hybrid_search col ranking query e (pos n) ids category s ≡ ok rs)
        × (length rs ≤ n)
        × (any (is_stray col laws sorts category ids) rs ≡ false)
  unfolding hybrid_search combine
  hybrid_search_lem ranking query s e n category ids = elim (Bool-cases (n == 0)) [
    | inl z ↦ rw z ([], refl, omega arith, refl)
    | inr z ↦
        let (vector, ev, strayv) = search_vectors-asked s e (expanded n) category ids in
        let (lexical, el, strayl) = lexical_search-asked query s (expanded n) category ids in
        let ranked = sort_scored (fuse col ranking query vector lexical) in
        rw (z, ev, el)
          (
            map (λ m. m.0) (take n ranked),
            refl,
            omega (arith, length-map (λ m. m.0) (take n ranked), length-take n ranked),
            any-map (λ m. m.0) (is_stray col laws sorts category ids) (take n ranked)
                ∙ any-take (λ m. is_stray col laws sorts category ids m.0) n ranked
                    (sorts.any-sort_scored (λ m. is_stray col laws sorts category ids m.0)
                        (fuse col ranking query vector lexical)
                      ∙ fuse-none col (is_stray col laws sorts category ids) ranking query vector
                          lexical strayv strayl),
          )
  ]
