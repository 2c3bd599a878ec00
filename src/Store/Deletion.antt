-- ===== src/Store/Deletion.antt =====
-- internal/db/store.go: what deletion takes away, from the collection and from the BM25 index.
use vector_mcp_go.Base.{
  ◌≡◌, ◌≢◌, refl, sym, ap, ◌∙◌, Bool, true, false, ◌&&◌, not, none, List, [], ◌∷◌, map,
  take_of_length-le, any, keep, All, ◌==◌, if◌then◌else◌, Bool-cases, inl, inr, arith, if_same,
}
use vector_mcp_go.Base.Maps.{find}
use vector_mcp_go.Base.Text.{
  Text, codes, text_eq, text_eq→eq, text_eq_refl, text_dec, does-text_dec,
}
use vector_mcp_go.Lexical.{Index, remove}
use vector_mcp_go.Lexical.Documents.{IsValid, remove_lem, remove-doc_len}
use vector_mcp_go.Lexical.View.{frequency}
use vector_mcp_go.Store.Filters.{
  All-any, All-imp, and_again, and_false, and_swap, any-keep, any-map, any_none, cons-ne-nil,
  keep-not-keep-not, keep-true, keep_ext, length-keep, nil_of_length,
}
use vector_mcp_go.Store.{
  Metadata, field, Document, ok, document, Collection, matches, IsCollection, Store, Found, unindex,
  delete_by_filter, is_under, delete_under, delete_by_prefix,
}

module _ (col : Collection) where
  open col use {floats, Vector, State, Err, dummy, docs, count, query, delete}

  -- Whether a record has this name.
  abbrev pub has_id : Text → Document Vector → Bool
  has_id q d = text_eq d.id q

  unindex-doc_len :
      (q : Text) (rs : List (Found col)) (idx : Index floats.F Text Text)
      → find text_dec q (unindex col rs idx).doc_len
        ≡ (if any (has_id q) (map document rs) then none else find text_dec q idx.doc_len)
  unfolding unindex
  unindex-doc_len q [] idx = refl
  unindex-doc_len q (r ∷ rs) idx =
      unindex-doc_len q rs (remove floats text_dec text_dec r.id idx)
      ∙ rw (remove-doc_len floats text_dec text_dec r.id q idx, does-text_dec r.id q)
          (elim (Bool-cases (text_eq r.id q)) [
            | inl e ↦ rw e (if_same (any (has_id q) (map document rs)) none)
            | inr e ↦ rw e refl
          ])

  unindex-frequency :
      (q t : Text) (rs : List (Found col)) (idx : Index floats.F Text Text)
      → IsValid floats text_dec text_dec idx
      → IsValid floats text_dec text_dec (unindex col rs idx)
        × (frequency text_dec text_dec (unindex col rs idx).postings t q ≡ (
            if any (has_id q) (map document rs)
            then none
            else frequency text_dec text_dec idx.postings t q))
  unfolding unindex
  unindex-frequency q t [] idx v = (v, refl)
  unindex-frequency q t (r ∷ rs) idx v =
      let (valid, gone, _) = remove_lem floats text_dec text_dec r.id q t idx v in
      let (later, frequencies) =
        unindex-frequency q t rs (remove floats text_dec text_dec r.id idx) valid in
      (
        later,
        frequencies
            ∙ rw (gone, does-text_dec r.id q)
                (elim (Bool-cases (text_eq r.id q)) [
                  | inl e ↦ rw e (if_same (any (has_id q) (map document rs)) none)
                  | inr e ↦ rw e refl
                ]),
      )

  module _ (laws : IsCollection col) where
    pub query-all :
        (filter : Metadata) (s : State)
        → (count s == 0) ≡ false
        → query s dummy (count s) filter ≡ ok (laws.ranked s dummy filter)
    query-all filter s h =
        laws.query-ok s dummy (count s) filter (ground (arith, laws.count-docs s))
          (omega (arith, laws.count-docs s))
        ∙ ap ok (
            take_of_length-le (count s) (laws.ranked s dummy filter) (
              omega (
                arith,
                laws.count-docs s,
                laws.length-ranked s dummy filter,
                length-keep (matches filter) (docs s),
              )))

    -- What a deletion by a filter does to the collection and to the lengths of the lexical index.
    pub docs-delete_by_filter :
        (filter : Metadata) (s : Store col) (q : Text)
        → filter ≢ []
        → (docs (delete_by_filter col filter s).0.collection
            ≡ keep (λ d. not (matches filter d)) (docs s.collection))
          × ((delete_by_filter col filter s).1 ≡ none)
          × (find text_dec q (delete_by_filter col filter s).0.bm25.doc_len ≡ (
              if any (has_id q) (keep (matches filter) (docs s.collection))
              then none
              else find text_dec q s.bm25.doc_len))
    unfolding delete_by_filter
    docs-delete_by_filter filter s q some_field = elim (Bool-cases (count s.collection == 0)) [
      | inl e ↦
          rw (e, nil_of_length (docs s.collection) (ground (arith, laws.count-docs s.collection)))
            (refl, refl, refl)
      | inr e ↦
          rw (e, query-all filter s.collection e)
            (
              laws.docs-delete filter s.collection some_field,
              laws.delete-ok filter s.collection some_field,
              unindex-doc_len q (laws.ranked s.collection dummy filter) s.bm25
                  ∙ rw (laws.any-ranked s.collection dummy filter (has_id q)) refl,
            )
    ]

    postings-delete_by_filter :
        (filter : Metadata) (s : Store col) (q t : Text)
        → IsValid floats text_dec text_dec s.bm25
        → IsValid floats text_dec text_dec (delete_by_filter col filter s).0.bm25
          × (frequency text_dec text_dec (delete_by_filter col filter s).0.bm25.postings t q ≡ (
              if any (has_id q) (keep (matches filter) (docs s.collection))
              then none
              else frequency text_dec text_dec s.bm25.postings t q))
    unfolding delete_by_filter
    postings-delete_by_filter filter s q t valid = elim (Bool-cases (count s.collection == 0)) [
      | inl e ↦
          rw (e, nil_of_length (docs s.collection) (ground (arith, laws.count-docs s.collection)))
            (valid, refl)
      | inr e ↦
          let (later, gone) =
            unindex-frequency q t (laws.ranked s.collection dummy filter) s.bm25 valid in
          rw (e, query-all filter s.collection e)
            (later, gone ∙ rw (laws.any-ranked s.collection dummy filter (has_id q)) refl)
    ]

    -- Over a collection that behaves as chromem-go documents, and with a valid lexical index, deleting
    -- by a filter that asks for some field succeeds and takes away exactly the documents that pass it;
    -- in the lexical index, which stays valid, it takes exactly their names out of the lengths and out
    -- of the postings of every term.
    pub delete_by_filter_lem :
        (filter : Metadata) (s : Store col) (q t : Text)
        → filter ≢ []
        → IsValid floats text_dec text_dec s.bm25
        → (docs (delete_by_filter col filter s).0.collection
            ≡ keep (λ d. not (matches filter d)) (docs s.collection))
          × ((delete_by_filter col filter s).1 ≡ none)
          × (find text_dec q (delete_by_filter col filter s).0.bm25.doc_len ≡ (
              if any (has_id q) (keep (matches filter) (docs s.collection))
              then none
              else find text_dec q s.bm25.doc_len))
          × IsValid floats text_dec text_dec (delete_by_filter col filter s).0.bm25
          × (frequency text_dec text_dec (delete_by_filter col filter s).0.bm25.postings t q ≡ (
              if any (has_id q) (keep (matches filter) (docs s.collection))
              then none
              else frequency text_dec text_dec s.bm25.postings t q))
    delete_by_filter_lem filter s q t some_field valid =
        let (held, fine, lengths) = docs-delete_by_filter filter s q some_field in
        let (later, gone) = postings-delete_by_filter filter s q t valid in
        (held, fine, lengths, later, gone)

    module _ (prefix project_id : Text) where
      abbrev in_project : Document Vector → Bool
      in_project d = matches ((codes "project_id", project_id) ∷ []) d

      abbrev pub path_of : Document Vector → Text
      path_of d = field (codes "path") d.metadata

      -- Whether the loop deletes `d` when it comes to the result `e`.
      abbrev sweeps : Document Vector → Document Vector → Bool
      sweeps d e =
          is_under prefix (path_of e)
          && matches ((codes "path", path_of e) ∷ (codes "project_id", project_id) ∷ []) d

      abbrev after_delete : Found col → Store col → Store col
      after_delete r s = record {
        collection =
            (delete ((codes "path", path_of (document r)) ∷ (codes "project_id", project_id) ∷ [])
              s.collection).0;
        bm25 = remove floats text_dec text_dec r.id s.bm25;
      }

      delete_under-docs :
          (rs : List (Found col)) (s : Store col)
          → (docs (delete_under col prefix project_id rs s).0.collection
              ≡ keep (λ d. not (any (λ r. sweeps d (document r)) rs)) (docs s.collection))
            × ((delete_under col prefix project_id rs s).1 ≡ none)
      unfolding delete_under
      delete_under-docs [] s = (sym (keep-true (docs s.collection)), refl)
      delete_under-docs (r ∷ rs) s = elim (Bool-cases (is_under prefix (path_of (document r)))) [
        | inl e ↦
            rw
              (
                e,
                laws.delete-ok
                    ((codes "path", path_of (document r)) ∷ (codes "project_id", project_id) ∷ [])
                    s.collection (cons-ne-nil _ _),
              )
              (
                (delete_under-docs rs (after_delete r s)).0
                    ∙ rw
                        (laws.docs-delete
                          ((codes "path", path_of (document r))
                            ∷ (codes "project_id", project_id)
                            ∷ [])
                          s.collection (cons-ne-nil _ _))
                        (keep-not-keep-not (λ d. any (λ x. sweeps d (document x)) rs)
                          (matches (
                            (codes "path", path_of (document r))
                            ∷ (codes "project_id", project_id)
                            ∷ []))
                          (docs s.collection)),
                (delete_under-docs rs (after_delete r s)).1,
              )
        | inr e ↦ rw e (delete_under-docs rs s)
      ]

      sweeps_self :
          (d : Document Vector)
          → (in_project d && is_under prefix (path_of d)) ≡ true
          → (in_project d && sweeps d d) ≡ true
      sweeps_self d h =
          rw (text_eq_refl (path_of d)) (and_again (in_project d) (is_under prefix (path_of d)) h)

      sweeps_other :
          (d e : Document Vector)
          → (in_project d && is_under prefix (path_of d)) ≡ false
          → sweeps d e ≡ false
      sweeps_other d e h = elim (Bool-cases (text_eq (path_of d) (path_of e))) [
        | inl k ↦
            rw (k, ← text_eq→eq (path_of d) (path_of e) k)
              (and_swap (in_project d) (is_under prefix (path_of d)) h)
        | inr k ↦ rw k (and_false (is_under prefix (path_of e)))
      ]

      -- Whether some hit deletes `d`, for a document of the collection: exactly those of the
      -- project whose path is the prefix or lies under it.
      swept :
          (ds : List (Document Vector))
          → All
              (λ d.
                not (any (sweeps d) (keep in_project ds))
                ≡ not (in_project d && is_under prefix (path_of d)))
              ds
      swept ds = All-imp one ds (All-any ds)
        where
          one :
              (d : Document Vector)
              → ((p : Document Vector → Bool) → p d ≡ true → any p ds ≡ true)
              → not (any (sweeps d) (keep in_project ds))
                ≡ not (in_project d && is_under prefix (path_of d))
          one d h = elim (Bool-cases (in_project d && is_under prefix (path_of d))) [
            | inl e ↦
                rw
                  (
                    any-keep (sweeps d) in_project ds,
                    e,
                    h (λ x. in_project x && sweeps d x) (sweeps_self d e),
                  )
                  refl
            | inr e ↦
                rw (e, any_none (sweeps d) (λ x. sweeps_other d x e) (keep in_project ds)) refl
          ]

      found :
          (s : Store col) (d : Document Vector)
          → any
              (λ r. sweeps d (document r))
              (laws.ranked s.collection dummy ((codes "project_id", project_id) ∷ []))
            ≡ any (sweeps d) (keep in_project (docs s.collection))
      found s d =
          sym (
            any-map document (sweeps d)
              (laws.ranked s.collection dummy ((codes "project_id", project_id) ∷ [])))
          ∙ laws.any-ranked s.collection dummy ((codes "project_id", project_id) ∷ []) (sweeps d)

      -- Over a collection that behaves as chromem-go documents, deleting by a prefix succeeds and
      -- leaves exactly the documents that are not of the project or whose path is neither the
      -- prefix nor begins with the prefix and a slash, in whatever order the hits come, and
      -- although each deletion is by path.
      pub delete_by_prefix_lem :
          (s : Store col)
          → (docs (delete_by_prefix col prefix project_id s).0.collection
              ≡ keep (λ d. not (in_project d && is_under prefix (path_of d))) (docs s.collection))
            × ((delete_by_prefix col prefix project_id s).1 ≡ none)
      unfolding delete_by_prefix
      delete_by_prefix_lem s = elim (Bool-cases (count s.collection == 0)) [
        | inl e ↦
            rw (e, nil_of_length (docs s.collection) (ground (arith, laws.count-docs s.collection)))
              (refl, refl)
        | inr e ↦
            rw (e, query-all ((codes "project_id", project_id) ∷ []) s.collection e)
              (
                (delete_under-docs
                      (laws.ranked s.collection dummy ((codes "project_id", project_id) ∷ [])) s).0
                    ∙ ap (λ p. keep p (docs s.collection)) (λ i d. not (found s d i))
                    ∙ keep_ext (λ d. not (any (sweeps d) (keep in_project (docs s.collection))))
                        (λ d. not (in_project d && is_under prefix (path_of d))) (docs s.collection)
                        (swept (docs s.collection)),
                (delete_under-docs
                    (laws.ranked s.collection dummy ((codes "project_id", project_id) ∷ [])) s).1,
              )
      ]
