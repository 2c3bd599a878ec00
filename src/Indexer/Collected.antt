-- ===== src/Indexer/Collected.antt =====
-- internal/indexer/scanner.go: what a run of `collectResults` leaves in the store of one file.
use vector_mcp_go.Base.{
  ℕ, suc, ◌≡◌, refl, ◌∙◌, Bool, true, false, ◌&&◌, ◌||◌, not, ◌⊎◌, inl, inr, List, [], ◌∷◌, any,
  length, leb, Bool-cases,
}
use vector_mcp_go.Base.Text.{Text, text_eq, text_eq→eq}
use vector_mcp_go.Indexer.Held.{
  is_stored, is_outdated, is_bad, IsCurrent, any-append, or_none, or_none_head, or_none_tail,
  or_true, delete_by_path-outdated, delete_by_path-stored, delete_by_path-fresh,
  set_status-outdated, set_status-stored, insert-outdated, insert-stored,
}
use vector_mcp_go.Indexer.Made.{is_spoilt, is_own}
use vector_mcp_go.Indexer.Run.{
  Run, replace_file, flush_full, collect_one, flush_rest, collect_results,
}
use vector_mcp_go.Indexer.{Host, FileResult}
use vector_mcp_go.Store.{Document, Collection, IsCollection, Store, insert, set_status}

pub or_left : (a b : Bool) → a ≡ true → (a || b) ≡ true
or_left a b h = rw h refl

or_right : (a b : Bool) → b ≡ true → (a || b) ≡ true
or_right a b h = rw h (or_true a)

or_rest : (a b : Bool) → a ≡ false → (a || b) ≡ true → b ≡ true
or_rest true b h k = cc
or_rest false b h k = k

or_swap : (a b c : Bool) → (a || b) ≡ true → ((a || c) || b) ≡ true
or_swap true b c h = refl
or_swap false b c h = rw h (or_true c)

has_stored : (x i q s : Bool) → (x || (i && (q && not s))) ≡ false → (i && q) ≡ true → s ≡ true
has_stored x i q true h e = refl
has_stored true i q false h e = cc
has_stored false true true false h e = cc
has_stored false true false false h e = cc
has_stored false false q false h e = cc

and_head : (a b : Bool) → (a && b) ≡ true → a ≡ true
and_head true b h = refl
and_head false b h = cc

and_tail : (a b : Bool) → (a && b) ≡ true → b ≡ true
and_tail true b h = h
and_tail false b h = cc

module _ (col : Collection) (host : Host col) (path hash : Text) (laws : IsCollection col) where
  open col use {Vector, docs}
  open host use {root}

  abbrev Batch : Type 0
  Batch = List (Document Vector)

  abbrev stored : List (Document Vector) → Bool
  stored ds = any (is_stored col host path hash) ds

  abbrev outdated : List (Document Vector) → Bool
  outdated ds = any (is_outdated col host path hash) ds

  abbrev bad : List (Document Vector) → Bool
  bad ds = any (is_bad col host path hash) ds

  -- The file record is in the store or in the batch that will be written to it.
  abbrev pub IsReady : Store col × Batch → Type 0
  IsReady (store, batch) =
      (outdated (docs store.collection) ≡ false)
      × ((stored batch || stored (docs store.collection)) ≡ true)

  replace_file-bad :
      (r : FileResult Vector) (store : Store col) (batch : Batch)
      → is_spoilt col host path hash r ≡ false
      → bad batch ≡ false
      → bad (replace_file col host r (store, batch)).1 ≡ false
  unfolding replace_file
  replace_file-bad r store batch h k = elim (Bool-cases r.indexed) [
    | inl e ↦ rw e (
        any-append (is_bad col host path hash) batch r.records
        ∙ or_none (bad batch) (bad r.records) k (or_none_head (bad r.records) _ h))
    | inr e ↦ rw e k
  ]

  pub spoilt-stored :
      (r : FileResult Vector)
      → is_spoilt col host path hash r ≡ false
      → is_own col host path hash r ≡ true
      → stored r.records ≡ true
  spoilt-stored r h e =
      has_stored (bad r.records) r.indexed (text_eq r.rel_path path) (stored r.records) h e

  replace_file-own :
      (r : FileResult Vector) (store : Store col) (batch : Batch)
      → is_spoilt col host path hash r ≡ false
      → is_own col host path hash r ≡ true
      → IsReady (replace_file col host r (store, batch))
  unfolding replace_file
  replace_file-own r store batch h e =
      rw
        (
          and_head r.indexed (text_eq r.rel_path path) e,
          text_eq→eq r.rel_path path (and_tail r.indexed (text_eq r.rel_path path) e),
          any-append (is_stored col host path hash) batch r.records,
          spoilt-stored r h e,
        )
        (
          delete_by_path-fresh col host path hash laws store,
          or_left (stored batch || true) _ (or_true (stored batch)),
        )

  replace_file-IsReady :
      (r : FileResult Vector) (store : Store col) (batch : Batch)
      → is_spoilt col host path hash r ≡ false
      → IsReady (store, batch)
      → IsReady (replace_file col host r (store, batch))
  unfolding replace_file
  replace_file-IsReady r store batch h k = elim (Bool-cases r.indexed) [
    | inl e ↦ elim (Bool-cases (text_eq r.rel_path path)) [
      | inl q ↦ replace_file-own r store batch h (rw (e, q) refl)
      | inr q ↦ rw e (
        delete_by_path-outdated col host path hash laws r.rel_path store k.0,
        rw
            (
              any-append (is_stored col host path hash) batch r.records,
              delete_by_path-stored col host path hash laws r.rel_path store q,
            )
            (or_swap (stored batch) (stored (docs store.collection)) (stored r.records) k.1),
      )
    ]
    | inr e ↦ rw e k
  ]

  pub insert-IsCurrent :
      (d : Document Vector) (ds : Batch) (store : Store col)
      → bad (d ∷ ds) ≡ false
      → IsReady (store, d ∷ ds)
      → IsCurrent col host path hash (docs (insert col (d ∷ ds) store).0.collection)
  insert-IsCurrent d ds store h k = (
    insert-outdated col host path hash laws d ds store h k.0,
    insert-stored col host path hash laws d ds store h k.1,
  )

  flush_full-IsReady :
      (store : Store col) (batch : Batch)
      → bad batch ≡ false
      → IsReady (store, batch)
      → IsReady (flush_full col host (store, batch))
  unfolding flush_full
  flush_full-IsReady store [] h k = k
  flush_full-IsReady store (d ∷ ds) h k = elim (Bool-cases (leb 50 (length (d ∷ ds)))) [
    | inl e ↦ rw e (insert-IsCurrent d ds store h k)
    | inr e ↦ rw e k
  ]

  flush_full-bad :
      (store : Store col) (batch : Batch)
      → bad batch ≡ false
      → bad (flush_full col host (store, batch)).1 ≡ false
  unfolding flush_full
  flush_full-bad store batch h = elim (Bool-cases (leb 50 (length batch))) [
    | inl e ↦ rw e refl
    | inr e ↦ rw e h
  ]

  set_status-IsReady :
      (status : Text) (store : Store col) (batch : Batch)
      → IsReady (store, batch)
      → IsReady ((set_status col root status store).0, batch)
  set_status-IsReady status store batch k = (
    set_status-outdated col host path hash laws status store k.0,
    elim (Bool-cases (stored batch)) [
      | inl e ↦ or_left (stored batch) _ e
      | inr e ↦
          or_right (stored batch) _ (
            set_status-stored col host path hash laws status store (or_rest (stored batch) _ e k.1))
    ],
  )

  flush_rest-IsCurrent :
      (run : Run col) (batch : Batch)
      → bad batch ≡ false
      → IsReady (run.store, batch)
      → IsCurrent col host path hash (docs (flush_rest col host (run, batch)).store.collection)
  unfolding flush_rest
  flush_rest-IsCurrent run [] h k = k
  flush_rest-IsCurrent run (d ∷ ds) h k = insert-IsCurrent d ds run.store h k

  collect_one-IsReady :
      (total processed : ℕ) (r : FileResult Vector) (run : Run col) (batch : Batch)
      → bad batch ≡ false
      → is_spoilt col host path hash r ≡ false
      → (IsReady (run.store, batch)) ⊎ (is_own col host path hash r ≡ true)
      → IsReady (
        (collect_one col host total processed r (run, batch)).0.store,
        (collect_one col host total processed r (run, batch)).1,
      )
  unfolding collect_one
  collect_one-IsReady total processed r run batch h k ready =
      let (store, next) = replace_file col host r (run.store, batch) in
      set_status-IsReady _ (flush_full col host (store, next)).0
        (flush_full col host (store, next)).1
        (flush_full-IsReady store next (replace_file-bad r run.store batch k h) (elim ready [
          | inl e ↦ replace_file-IsReady r run.store batch k e
          | inr e ↦ replace_file-own r run.store batch k e
        ]))

  collect_one-bad :
      (total processed : ℕ) (r : FileResult Vector) (run : Run col) (batch : Batch)
      → bad batch ≡ false
      → is_spoilt col host path hash r ≡ false
      → bad (collect_one col host total processed r (run, batch)).1 ≡ false
  unfolding collect_one
  collect_one-bad total processed r run batch h k =
      let (store, next) = replace_file col host r (run.store, batch) in
      flush_full-bad store next (replace_file-bad r run.store batch k h)

  -- Where no result spoils what is known of the file, and either the store knows it already or one
  -- of the results is its own, the store knows it after the run, at whatever place that result
  -- comes and however the records fall into batches.
  pub collect_results-IsCurrent :
      (total processed : ℕ) (rs : List (FileResult Vector)) (run : Run col) (batch : Batch)
      → bad batch ≡ false
      → any (is_spoilt col host path hash) rs ≡ false
      → (IsReady (run.store, batch)) ⊎ (any (is_own col host path hash) rs ≡ true)
      → IsCurrent col host path hash
          (docs (collect_results col host total processed rs (run, batch)).store.collection)
  unfolding collect_results
  collect_results-IsCurrent total processed [] run batch h k (inl ready) =
      flush_rest-IsCurrent run batch h ready
  collect_results-IsCurrent total processed [] run batch h k (inr e) = cc
  collect_results-IsCurrent total processed (r ∷ rs) run batch h k ready =
      let (next, rest) = collect_one col host total (suc processed) r (run, batch) in
      let whole = or_none_head (is_spoilt col host path hash r) _ k in
      collect_results-IsCurrent total (suc processed) rs next rest
        (collect_one-bad total (suc processed) r run batch h whole)
        (or_none_tail (is_spoilt col host path hash r) _ k)
        (elim ready [
          | inl e ↦ inl (collect_one-IsReady total (suc processed) r run batch h whole (inl e))
          | inr e ↦ elim (Bool-cases (is_own col host path hash r)) [
            | inl o ↦ inl (collect_one-IsReady total (suc processed) r run batch h whole (inr o))
            | inr o ↦ inr (or_rest (is_own col host path hash r) _ o e)
          ]
        ])
