-- ===== src/Indexer/Mapping.antt =====
-- internal/indexer/scanner.go and internal/db/store.go: what a run reads back of a file, through
-- `GetPathHashMapping` and `GetFileHash`.
use mathlib.Core.Bool.{true≢false}
use vector_mcp_go.Base.{
  ◌≡◌, refl, sym, ap, ◌∙◌, Bool, true, false, ◌&&◌, ◌||◌, not, ◌⊎◌, inl, inr, Option, none, some,
  List, [], ◌∷◌, map, any, take, ◌==◌, Bool-cases, Option-cases, arith,
}
use vector_mcp_go.Base.Maps.{find, has, put, find-put, has-none}
use vector_mcp_go.Base.Text.{Text, codes, text_eq, text_eq→eq, text_dec, does-text_dec}
use vector_mcp_go.Indexer.Held.{
  is_meta, is_stored, is_outdated, IsCurrent, any-keep_all, any-keep_none, or_none_head,
  or_none_tail, third_false,
}
use vector_mcp_go.Indexer.Run.{mapping_of}
use vector_mcp_go.Indexer.{Host, meta_id}
use vector_mcp_go.Store.Deletion.{query-all}
use vector_mcp_go.Store.Filters.{and_false, any-keep, any_none, nil_of_length}
use vector_mcp_go.Store.Readers.{put_fields, path_hash, get_path_hash_mapping, fetch, map_reply}
use vector_mcp_go.Store.{
  Metadata, field, Document, failed, ok, document, Collection, matches, IsCollection, Store, Found,
  first_of, get_file_hash,
}

pub or_left_or : (a b : Bool) → (a || b) ≡ true → (a ≡ true) ⊎ (b ≡ true)
or_left_or true b h = inl refl
or_left_or false b h = inr h

rest_of : {P : Type 0} (b : Bool) → (b ≡ true) ⊎ P → b ≡ false → P
rest_of true c h = absurd (true≢false h)
rest_of false (inl e) h = absurd (true≢false (sym e))
rest_of false (inr p) h = p

-- A file record of the path passes the filter of the mapping.
filter_again :
    (i p a b c q : Bool)
    → ((b && (c && true)) && (i && (p && ((a && (b && (c && true))) && q))))
      ≡ (i && (p && ((a && (b && (c && true))) && q)))
filter_again i p a true true q = refl
filter_again true true true true false q = refl
filter_again true true false true false q = refl
filter_again true false a true false q = refl
filter_again false p a true false q = refl
filter_again true true true false c q = refl
filter_again true true false false c q = refl
filter_again true false a false c q = refl
filter_again false p a false c q = refl

-- Among what passes the filter, a record of this path that is not outdated has this hash.
hash_settled :
    (a b c q : Bool)
    → a ≡ true
    → not (b && (c && true)) ≡ false
    → ((a && (b && (c && true))) && not q) ≡ false
    → q ≡ true
hash_settled true true true true h k l = refl
hash_settled true true true false h k l = cc
hash_settled true true false q h k l = cc
hash_settled true false c q h k l = cc
hash_settled false b c q h k l = cc

pub not_and : (m : Bool) → (m && not m) ≡ false
not_and true = refl
not_and false = refl

meta_again : (i p m q : Bool) → (m && (i && (p && (m && q)))) ≡ (i && (p && (m && q)))
meta_again i p true q = refl
meta_again true true false q = refl
meta_again true false false q = refl
meta_again false p false q = refl

meta_settled : (m q : Bool) → not m ≡ false → (m && not q) ≡ false → q ≡ true
meta_settled true true h k = refl
meta_settled true false h k = cc
meta_settled false q h k = cc

module _ (col : Collection) where
  open col use {Vector, dummy, count}

  pub path_hash-none :
      (r : Found col) → find text_dec (codes "path") r.metadata ≡ none → path_hash col r ≡ none
  unfolding path_hash
  path_hash-none r e = rw (e, path_hash) refl

  pub path_hash-some :
      (r : Found col) (q : Text)
      → find text_dec (codes "path") r.metadata ≡ some q
      → path_hash col r ≡ some (q, field (codes "hash") r.metadata)
  unfolding path_hash
  path_hash-some r q e = rw (e, path_hash) refl

  pub put_fields-one :
      (r : Found col) (m : Metadata) (o : Option (Text × Text))
      → path_hash col r ≡ o
      → put_fields col (path_hash col) (r ∷ []) m
        ≡ elim o [ none ↦ m | some kv ↦ put text_dec kv.0 kv.1 m ]
  put_fields-one r m o h = ap (λ x. elim x [ none ↦ m | some kv ↦ put text_dec kv.0 kv.1 m ]) h

  pub fetch-all :
      (laws : IsCollection col) (filter : Metadata) (s : Store col)
      → (count s.collection == 0) ≡ false
      → fetch col filter s ≡ ok (laws.ranked s.collection dummy filter)
  unfolding fetch
  fetch-all laws filter s h = rw (h, query-all col laws filter s.collection h) refl

module _ (col : Collection) (host : Host col) where
  open host use {root}

  abbrev pub mapping_filter : Metadata
  mapping_filter = (codes "project_id", root) ∷ (codes "type", codes "file_meta") ∷ []

  pub mapping_of-fetched :
      (rs : List (Found col)) (s : Store col)
      → fetch col mapping_filter s ≡ ok rs
      → mapping_of col host s ≡ put_fields col (path_hash col) rs []
  unfolding mapping_of get_path_hash_mapping
  mapping_of-fetched rs s h =
      ap
        (λ found. elim (map_reply col (λ rs. put_fields col (path_hash col) rs []) found) [
          | failed _ ↦ []
          | ok mapping ↦ mapping
        ])
        h

module _ (col : Collection) (host : Host col) (path hash : Text) where
  open col use {Vector, State, docs, dummy, count}
  open host use {root}

  abbrev not_asked : Document Vector → Bool
  not_asked d = not (matches (mapping_filter col host) d)

  is_stored-path :
      (d : Document Vector)
      → text_eq (field (codes "path") d.metadata) path ≡ false
      → is_stored col host path hash d ≡ false
  is_stored-path d h =
      rw h (
        third_false (text_eq d.id (meta_id col host path)) (has text_dec (codes "path") d.metadata))

  -- One more result keeps the entry of the path, or writes it.
  put_one :
      (r : Found col) (m : Metadata)
      → is_outdated col host path hash (document r) ≡ false
      → not_asked (document r) ≡ false
      → (is_stored col host path hash (document r) ≡ true) ⊎ (find text_dec path m ≡ some hash)
      → find text_dec path (put_fields col (path_hash col) (r ∷ []) m) ≡ some hash
  put_one r m o a c = elim (Option-cases (find text_dec (codes "path") r.metadata)) [
    | inl e ↦ rw (put_fields-one col r m none (path_hash-none col r e)) (
        rest_of (is_stored col host path hash (document r)) c (
          rw (has-none text_dec (codes "path") r.metadata e)
            (and_false (text_eq r.id (meta_id col host path)))))
    | inr (q, e) ↦
        rw
          (
            put_fields-one col r m (some (q, field (codes "hash") r.metadata))
                (path_hash-some col r q e),
            find-put text_dec q path (field (codes "hash") r.metadata) m,
            does-text_dec q path,
          )
          (elim (Bool-cases (text_eq q path)) [
            | inl k ↦ rw k (
                ap some (
                  text_eq→eq (field (codes "hash") r.metadata) hash (
                    hash_settled (text_eq (field (codes "path") r.metadata) path)
                      (text_eq (field (codes "project_id") r.metadata) root)
                      (text_eq (field (codes "type") r.metadata) (codes "file_meta"))
                      (text_eq (field (codes "hash") r.metadata) hash) (rw e k) a o)))
            | inr k ↦ rw k (
                rest_of (is_stored col host path hash (document r)) c
                  (is_stored-path (document r) (rw e k)))
          ])
  ]

  put_fields-find :
      (rs : List (Found col)) (m : Metadata)
      → any (is_outdated col host path hash) (map document rs) ≡ false
      → any not_asked (map document rs) ≡ false
      → (any (is_stored col host path hash) (map document rs) ≡ true)
        ⊎ (find text_dec path m ≡ some hash)
      → find text_dec path (put_fields col (path_hash col) rs m) ≡ some hash
  put_fields-find [] m o a (inl e) = cc
  put_fields-find [] m o a (inr e) = e
  put_fields-find (r ∷ rs) m o a c =
      let whole = or_none_head (is_outdated col host path hash (document r)) _ o in
      let here = or_none_head (not_asked (document r)) _ a in
      put_fields-find rs (put_fields col (path_hash col) (r ∷ []) m)
        (or_none_tail (is_outdated col host path hash (document r)) _ o)
        (or_none_tail (not_asked (document r)) _ a)
        (elim c [
          | inl e ↦ elim (or_left_or (is_stored col host path hash (document r)) _ e) [
            | inl k ↦ inr (put_one r m whole here (inl k))
            | inr k ↦ inl k
          ]
          | inr e ↦ inr (put_one r m whole here (inr e))
        ])

  module _ (laws : IsCollection col) where
    ranked-outdated :
        (filter : Metadata) (s : State)
        → any (is_outdated col host path hash) (docs s) ≡ false
        → any (is_outdated col host path hash) (map document (laws.ranked s dummy filter)) ≡ false
    ranked-outdated filter s h =
        laws.any-ranked s dummy filter (is_outdated col host path hash)
        ∙ any-keep_none (is_outdated col host path hash) (matches filter) (docs s) h

    ranked-not_asked :
        (s : State)
        → any not_asked (map document (laws.ranked s dummy (mapping_filter col host))) ≡ false
    ranked-not_asked s =
        laws.any-ranked s dummy (mapping_filter col host) not_asked
        ∙ any-keep not_asked (matches (mapping_filter col host)) (docs s)
        ∙ any_none (λ d. matches (mapping_filter col host) d && not_asked d)
            (λ d. not_and (matches (mapping_filter col host) d)) (docs s)

    ranked-stored :
        (s : State)
        → any (is_stored col host path hash) (docs s) ≡ true
        → any
            (is_stored col host path hash)
            (map document (laws.ranked s dummy (mapping_filter col host)))
          ≡ true
    ranked-stored s h =
        laws.any-ranked s dummy (mapping_filter col host) (is_stored col host path hash)
        ∙ any-keep_all (is_stored col host path hash) (matches (mapping_filter col host))
            (λ d.
              filter_again (text_eq d.id (meta_id col host path))
                (has text_dec (codes "path") d.metadata)
                (text_eq (field (codes "path") d.metadata) path)
                (text_eq (field (codes "project_id") d.metadata) root)
                (text_eq (field (codes "type") d.metadata) (codes "file_meta"))
                (text_eq (field (codes "hash") d.metadata) hash))
            (docs s)
        ∙ h

    not_empty :
        (s : State) → any (is_stored col host path hash) (docs s) ≡ true → (count s == 0) ≡ false
    not_empty s h = elim (Bool-cases (count s == 0)) [
      | inl e ↦ absurd (
          true≢false (
            sym h
            ∙ ap (λ ds. any (is_stored col host path hash) ds)
                (nil_of_length (docs s) (ground (arith, laws.count-docs s)))))
      | inr e ↦ e
    ]

    -- What a run reads back of a file that the store knows by a hash is that hash, whatever order
    -- the query ranks the records in.
    pub mapping_of-IsCurrent :
        (s : Store col)
        → IsCurrent col host path hash (docs s.collection)
        → find text_dec path (mapping_of col host s) ≡ some hash
    mapping_of-IsCurrent s h =
        ap (find text_dec path) (
          mapping_of-fetched col host (laws.ranked s.collection dummy (mapping_filter col host)) s
            (fetch-all col laws (mapping_filter col host) s (not_empty s.collection h.1)))
        ∙ put_fields-find (laws.ranked s.collection dummy (mapping_filter col host)) []
            (ranked-outdated (mapping_filter col host) s.collection h.0)
            (ranked-not_asked s.collection) (inl (ranked-stored s.collection h.1))

    first_of-current :
        (rs : List (Found col))
        → any (λ d. not (is_meta col host path hash d)) (map document rs) ≡ false
        → any (is_outdated col host path hash) (map document rs) ≡ false
        → any (is_stored col host path hash) (map document rs) ≡ true
        → first_of col (λ r. field (codes "hash") r.metadata) (ok (take 1 rs)) ≡ (hash, none)
    first_of-current [] h k l = cc
    first_of-current (r ∷ rs) h k l =
        ap (λ v. (v, none))
          (text_eq→eq (field (codes "hash") r.metadata) hash (
            meta_settled (is_meta col host path hash (document r)) _
              (or_none_head (not (is_meta col host path hash (document r))) _ h)
              (or_none_head (is_outdated col host path hash (document r)) _ k)))

    -- The hash of the file, asked for by its path.
    pub get_file_hash-IsCurrent :
        (s : Store col)
        → IsCurrent col host path hash (docs s.collection)
        → get_file_hash col path root s ≡ (hash, none)
    unfolding get_file_hash
    get_file_hash-IsCurrent s h =
        let filter : Metadata =
          (codes "path", path)
          ∷ (codes "project_id", root)
          ∷ (codes "type", codes "file_meta")
          ∷ [] in
        ap (first_of col (λ r. field (codes "hash") r.metadata)) (
          laws.query-ok s.collection dummy 1 filter (omega arith)
            (ground (arith, laws.count-docs s.collection, not_empty s.collection h.1)))
        ∙ first_of-current (laws.ranked s.collection dummy filter)
            (laws.any-ranked s.collection dummy filter (λ d. not (is_meta col host path hash d))
              ∙ any-keep (λ d. not (is_meta col host path hash d)) (matches filter)
                  (docs s.collection)
              ∙ any_none (λ d. matches filter d && not (is_meta col host path hash d))
                  (λ d. not_and (is_meta col host path hash d)) (docs s.collection))
            (ranked-outdated filter s.collection h.0)
            (laws.any-ranked s.collection dummy filter (is_stored col host path hash)
              ∙ any-keep_all (is_stored col host path hash) (matches filter)
                  (λ d.
                    meta_again (text_eq d.id (meta_id col host path))
                      (has text_dec (codes "path") d.metadata) (is_meta col host path hash d)
                      (text_eq (field (codes "hash") d.metadata) hash))
                  (docs s.collection)
              ∙ h.1)
