-- ===== src/Store/Status.antt =====
-- internal/db/store.go: what is written is what is read: a project's status, and the readers that
-- filter.
use mathlib.Core.Bool.{true≢false}
use vector_mcp_go.Base.{
  ◌≡◌, ◌≢◌, refl, sym, ap, ◌∙◌, true, not, none, List, [], ◌∷◌, ◌++◌, map, length, take, any, keep,
  Bool-cases, inl, inr, arith,
}
use vector_mcp_go.Base.Text.{Text, codes, text_eq, text_eq→eq, text_eq_refl}
use vector_mcp_go.Store.{
  Metadata, Document, ok, document, Collection, matches, write, IsCollection, Store, Found, insert,
  delete_by_filter, status_filter, status_record, set_status, get_status, first_of,
}
use vector_mcp_go.Store.Deletion.{docs-delete_by_filter}
use vector_mcp_go.Store.Filters.{cons-ne-nil, length-keep}

module _ (col : Collection) (laws : IsCollection col) where
  open col use {floats, Vector, State, Err, dummy, docs, count, query, add_documents, delete}

  -- A name taken away or a status: nothing of the project's status is left beside the new one.
  keep-cleared :
      (filter : Metadata) (id : Text) (ds : List (Document Vector))
      → keep
          (matches filter)
          (keep (λ e. not (text_eq e.id id)) (keep (λ d. not (matches filter d)) ds))
        ≡ []
  keep-cleared filter id [] = refl
  keep-cleared filter id (d ∷ ds) = elim (Bool-cases (matches filter d)) [
    | inl e ↦ rw e (keep-cleared filter id ds)
    | inr e ↦ elim (Bool-cases (text_eq d.id id)) [
      | inl k ↦ rw (e, k) (keep-cleared filter id ds)
      | inr k ↦ rw (e, k, e) (keep-cleared filter id ds)
    ]
  ]

  status_record-matches :
      (project_id status : Text)
      → matches (status_filter col project_id) (status_record col project_id status) ≡ true
  unfolding status_filter
  status_record-matches project_id status = rw (text_eq_refl project_id) refl

  first_of-one :
      (c : Text) (rs : List (Found col))
      → length rs ≡ 1
      → any (λ d. text_eq d.content c) (map document rs) ≡ true
      → first_of col (λ r. r.content) (ok (take 1 rs)) ≡ (c, none)
  first_of-one c [] h e = cc
  first_of-one c (r ∷ []) h e = elim (Bool-cases (text_eq r.content c)) [
    | inl k ↦ rw (text_eq→eq r.content c k) refl
    | inr k ↦ absurd (true≢false (sym e ∙ rw k refl))
  ]
  first_of-one c (r ∷ q ∷ rs) h e = absurd (omega arith)

  -- A query for one result, where one document passes the filter.
  pub query-one :
      (filter : Metadata) (s : State) (d : Document Vector)
      → keep (matches filter) (docs s) ≡ d ∷ []
      → first_of col (λ r. r.content) (query s dummy 1 filter) ≡ (d.content, none)
  query-one filter s d h =
      rw
        (laws.query-ok s dummy 1 filter (omega arith)
          (omega (arith, length-keep (matches filter) (docs s), ap length h)))
        (first_of-one d.content (laws.ranked s dummy filter)
          (laws.length-ranked s dummy filter ∙ ap length h)
          (laws.any-ranked s dummy filter (λ e. text_eq e.content d.content)
            ∙ rw (h, text_eq_refl d.content) refl))

  asks : (project_id : Text) → status_filter col project_id ≢ []
  unfolding status_filter
  asks project_id = cons-ne-nil _ _

  set_status-insert :
      (project_id status : Text) (s : Store col)
      → set_status col project_id status s
        ≡ insert col
            (status_record col project_id status ∷ [])
            (delete_by_filter col (status_filter col project_id) s).0
  unfolding set_status
  set_status-insert project_id status s =
      rw
        (
          (docs-delete_by_filter col laws (status_filter col project_id) s [] (asks project_id)).1,
          set_status,
        )
        refl

  -- Over a collection that behaves as chromem-go documents, writing a project's status succeeds and
  -- is read back, whatever status records were there; the collection then holds the new record and
  -- all it held before but the project's status records and a record of the same name.
  pub set_status_lem :
      (project_id status : Text) (s : Store col)
      → ((set_status col project_id status s).1 ≡ none)
        × (get_status col project_id (set_status col project_id status s).0 ≡ (status, none))
        × (docs (set_status col project_id status s).0.collection
            ≡ status_record col project_id status
              ∷ keep
                  (λ d. not (text_eq d.id (codes "status:" ++ project_id)))
                  (keep (λ d. not (matches (status_filter col project_id) d)) (docs s.collection)))
  unfolding get_status insert
  set_status_lem project_id status s =
      let cleared =
        docs-delete_by_filter col laws (status_filter col project_id) s [] (asks project_id) in
      let new = status_record col project_id status in
      let held =
        laws.docs-add new (delete_by_filter col (status_filter col project_id) s).0.collection
        ∙ ap (write (new ∷ [])) cleared.0 in
      rw (set_status-insert project_id status s) (
        laws.add-ok new (delete_by_filter col (status_filter col project_id) s).0.collection,
        query-one (status_filter col project_id)
            (add_documents (new ∷ [])
              (delete_by_filter col (status_filter col project_id) s).0.collection).0
            new
            (rw (held, status_record-matches project_id status)
              (ap (◌∷◌ new) (
                keep-cleared (status_filter col project_id) (codes "status:" ++ project_id)
                  (docs s.collection)))),
        held,
      )
