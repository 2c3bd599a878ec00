-- ===== src/Indexer/Unique.antt =====
-- internal/indexer/scanner.go: the store that a run finds, where each name stands once and a file
-- record stands under its name, and what its hash mapping then says.
use mathlib.Core.Bool.{true≢false}
use vector_mcp_go.Base.{
  ◌≡◌, refl, sym, ap, ◌∙◌, Bool, true, false, ◌&&◌, ◌||◌, not, ◌⊎◌, inl, inr, none, some,
  if◌then◌else◌, List, [], ◌∷◌, ◌++◌, map, any, keep, All, All-keep, ◌==◌, Bool-cases, Option-cases,
}
use vector_mcp_go.Base.Maps.{find, has, find-put, has-of_find}
use vector_mcp_go.Base.Text.{
  Text, codes, text_eq, text_eq→eq, text_eq_refl, text_dec, does-text_dec,
}
use vector_mcp_go.Indexer.Held.{
  is_meta, is_stored, is_outdated, IsCurrent, any-keep_none, or_none, or_true,
}
use vector_mcp_go.Indexer.Mapping.{
  mapping_filter, fetch-all, mapping_of-fetched, path_hash-none, path_hash-some, put_fields-one,
  or_left_or,
}
use vector_mcp_go.Indexer.Run.{mapping_of}
use vector_mcp_go.Indexer.{Host, meta_id}
use vector_mcp_go.Store.Filters.{and_false, any-keep, any_none}
use vector_mcp_go.Store.Readers.{put_fields, path_hash, fetch}
use vector_mcp_go.Store.Status.{set_status_lem}
use vector_mcp_go.Store.{
  Metadata, field, Document, ok, document, Collection, matches, IsCollection, Store, Found,
  status_filter, set_status,
}

pub any_imp :
    {A : Type 0} (P : A → Type 0) (p q : A → Bool)
    → ((x : A) → P x → p x ≡ true → q x ≡ true)
    → (xs : List A) → All P xs
    → any p xs ≡ true
    → any q xs ≡ true
any_imp P p q f [] a h = h
any_imp P p q f (x ∷ xs) a h = elim (or_left_or (p x) (any p xs) h) [
  | inl e ↦ rw (f x a.0 e) refl
  | inr e ↦ elim (Bool-cases (q x)) [ inl k ↦ rw k refl | inr k ↦ rw k (any_imp P p q f xs a.1 e) ]
]

pub any_none_of :
    {A : Type 0} (P : A → Type 0) (p q : A → Bool)
    → ((x : A) → P x → p x ≡ true → q x ≡ true)
    → (xs : List A) → All P xs
    → any q xs ≡ false
    → any p xs ≡ false
any_none_of P p q f xs a h = elim (Bool-cases (any p xs)) [
  | inl e ↦ absurd (true≢false (sym (any_imp P p q f xs a e) ∙ h))
  | inr e ↦ e
]

named_part : (m i : Bool) → (not m || i) ≡ true → m ≡ true → i ≡ true
named_part true i h k = h
named_part false i h k = cc

not_self : (b : Bool) → (not b && b) ≡ false
not_self true = refl
not_self false = refl

any-keep-not : {A : Type 0} (p : A → Bool) (xs : List A) → any p (keep (λ x. not (p x)) xs) ≡ false
any-keep-not p xs =
    any-keep p (λ x. not (p x)) xs ∙ any_none (λ x. not (p x) && p x) (λ x. not_self (p x)) xs

if_true : {A : Type 0} (b : Bool) (x y : A) → b ≡ true → (if b then x else y) ≡ x
if_true true x y h = refl
if_true false x y h = cc

if_false : {A : Type 0} (b : Bool) (x y : A) → b ≡ false → (if b then x else y) ≡ y
if_false true x y h = cc
if_false false x y h = refl

-- A stored record has the hash.
stored_settled : (i p m q : Bool) → (i && (p && (m && q))) ≡ true → (m && not q) ≡ false
stored_settled i p true true h = refl
stored_settled i p false q h = refl
stored_settled true true true false h = cc
stored_settled true false true false h = cc
stored_settled false p true false h = cc

or_rest : (a b : Bool) → a ≡ false → (a || b) ≡ true → b ≡ true
or_rest true b h k = cc
or_rest false b h k = k

pub and_intro : (a b : Bool) → a ≡ true → b ≡ true → (a && b) ≡ true
and_intro a b h k = rw (h, k) refl

and_head : (a b : Bool) → (a && b) ≡ true → a ≡ true
and_head true b h = refl
and_head false b h = cc

and_tail : (a b : Bool) → (a && b) ≡ true → b ≡ true
and_tail true b h = h
and_tail false b h = cc

-- No two documents have the same name.
abbrev pub DistinctIds : {V : Type 0} → List (Document V) → Type 0
DistinctIds [] = Unit
DistinctIds (d ∷ ds) = (any (λ e. text_eq e.id d.id) ds ≡ false) × DistinctIds ds

DistinctIds-keep :
    {V : Type 0} (p : Document V → Bool) (ds : List (Document V))
    → DistinctIds ds
    → DistinctIds (keep p ds)
DistinctIds-keep p [] h = tt
DistinctIds-keep p (d ∷ ds) h = elim (Bool-cases (p d)) [
  | inl e ↦ rw e (any-keep_none (λ x. text_eq x.id d.id) p ds h.0, DistinctIds-keep p ds h.1)
  | inr e ↦ rw e (DistinctIds-keep p ds h.1)
]

module _ (col : Collection) (host : Host col) where
  open col use {Vector, docs, dummy, State, count}
  open host use {root}

  -- A file record of the project stands under the name of its path.
  abbrev pub is_named : Document Vector → Bool
  is_named d =
      not (matches (mapping_filter col host) d)
      || text_eq d.id (meta_id col host (field (codes "path") d.metadata))

  abbrev pub IsUnique : List (Document Vector) → Type 0
  IsUnique ds = DistinctIds ds × All (λ d. is_named d ≡ true) ds

  pub set_status-IsUnique :
      (laws : IsCollection col) (status : Text) (s : Store col)
      → IsUnique (docs s.collection)
      → IsUnique (docs (set_status col root status s).0.collection)
  set_status-IsUnique laws status s h = rw (set_status_lem col laws root status s).2 (
    (
      any-keep-not {A = Document Vector} (λ d. text_eq d.id (codes "status:" ++ root))
          (keep (λ d. not (matches (status_filter col root) d)) (docs s.collection)),
      DistinctIds-keep _ _ (DistinctIds-keep _ _ h.0),
    ),
    (
      rw (and_false (text_eq root root)) refl,
      All-keep (λ d. is_named d ≡ true) _ _
          (All-keep (λ d. is_named d ≡ true) _ (docs s.collection) h.1),
    ),
  )

  module _ (path hash : Text) where
    -- A record that gives the path this hash in the mapping.
    abbrev is_known : Document Vector → Bool
    is_known d =
        has text_dec (codes "path") d.metadata
        && (text_eq (field (codes "path") d.metadata) path
            && text_eq (field (codes "hash") d.metadata) hash)

    abbrev in_mapping : Document Vector → Bool
    in_mapping d = matches (mapping_filter col host) d && is_known d

    put_one-find :
        (r : Found col) (m : Metadata) (q : Text)
        → find text_dec (codes "path") r.metadata ≡ some q
        → find text_dec path (put_fields col (path_hash col) (r ∷ []) m) ≡ (
            if text_eq q path then some (field (codes "hash") r.metadata) else find text_dec path m)
    put_one-find r m q e =
        ap (find text_dec path) (
          put_fields-one col r m (some (q, field (codes "hash") r.metadata))
            (path_hash-some col r q e))
        ∙ find-put text_dec q path (field (codes "hash") r.metadata) m
        ∙ rw (does-text_dec q path) refl

    hash_found : (v : Text) → some v ≡ some hash → text_eq v hash ≡ true
    hash_found v h = let e : v ≡ hash = cc in rw e (text_eq_refl hash)

    put_one-origin :
        (r : Found col) (m : Metadata)
        → find text_dec path (put_fields col (path_hash col) (r ∷ []) m) ≡ some hash
        → (is_known (document r) ≡ true) ⊎ (find text_dec path m ≡ some hash)
    put_one-origin r m h = elim (Option-cases (find text_dec (codes "path") r.metadata)) [
      | inl e ↦
          inr (
            ap (find text_dec path) (sym (put_fields-one col r m none (path_hash-none col r e)))
            ∙ h)
      | inr (q, e) ↦ elim (Bool-cases (text_eq q path)) [
        | inl k ↦ inl (
            and_intro (has text_dec (codes "path") r.metadata) _
              (has-of_find text_dec (codes "path") r.metadata q e)
              (and_intro (text_eq (field (codes "path") r.metadata) path) _ (rw e k) (
                hash_found (field (codes "hash") r.metadata)
                  (sym (put_one-find r m q e ∙ if_true (text_eq q path) _ _ k) ∙ h))))
        | inr k ↦ inr (sym (put_one-find r m q e ∙ if_false (text_eq q path) _ _ k) ∙ h)
      ]
    ]

    put_fields-origin :
        (rs : List (Found col)) (m : Metadata)
        → find text_dec path (put_fields col (path_hash col) rs m) ≡ some hash
        → (any is_known (map document rs) ≡ true) ⊎ (find text_dec path m ≡ some hash)
    put_fields-origin [] m h = inr h
    put_fields-origin (r ∷ rs) m h =
        elim (put_fields-origin rs (put_fields col (path_hash col) (r ∷ []) m) h) [
          | inl e ↦ inl (rw e (or_true (is_known (document r))))
          | inr e ↦ elim (put_one-origin r m e) [ inl k ↦ inl (rw k refl) | inr k ↦ inr k ]
        ]

    named-id :
        (d : Document Vector)
        → is_named d ≡ true
        → matches (mapping_filter col host) d ≡ true
        → text_eq (field (codes "path") d.metadata) path ≡ true
        → text_eq d.id (meta_id col host path) ≡ true
    named-id d n m a =
        ap (λ q. text_eq d.id (meta_id col host q))
          (sym (text_eq→eq (field (codes "path") d.metadata) path a))
        ∙ named_part (matches (mapping_filter col host) d) _ n m

    in_mapping-stored :
        (d : Document Vector)
        → is_named d ≡ true
        → in_mapping d ≡ true
        → is_stored col host path hash d ≡ true
    in_mapping-stored d n h =
        let m = and_head (matches (mapping_filter col host) d) (is_known d) h in
        let k = and_tail (matches (mapping_filter col host) d) (is_known d) h in
        let has_path = and_head (has text_dec (codes "path") d.metadata) _ k in
        let rest = and_tail (has text_dec (codes "path") d.metadata) _ k in
        let a = and_head (text_eq (field (codes "path") d.metadata) path) _ rest in
        let q = and_tail (text_eq (field (codes "path") d.metadata) path) _ rest in
        and_intro (text_eq d.id (meta_id col host path)) _ (named-id d n m a) (
          and_intro (has text_dec (codes "path") d.metadata) _ has_path (
            and_intro (is_meta col host path hash d) _
              (and_intro (text_eq (field (codes "path") d.metadata) path) _ a m) q))

    outdated-id :
        (d : Document Vector)
        → is_named d ≡ true
        → is_outdated col host path hash d ≡ true
        → text_eq d.id (meta_id col host path) ≡ true
    outdated-id d n h =
        let both = and_head (is_meta col host path hash d) _ h in
        named-id d n (and_tail (text_eq (field (codes "path") d.metadata) path) _ both)
          (and_head (text_eq (field (codes "path") d.metadata) path) _ both)

    same_id :
        (x d : Document Vector)
        → text_eq x.id (meta_id col host path) ≡ true
        → text_eq d.id (meta_id col host path) ≡ true
        → text_eq x.id d.id ≡ true
    same_id x d h k =
        rw (text_eq→eq x.id (meta_id col host path) h, text_eq→eq d.id (meta_id col host path) k)
          (text_eq_refl (meta_id col host path))

    stored-outdated :
        (ds : List (Document Vector))
        → IsUnique ds
        → any (is_stored col host path hash) ds ≡ true
        → any (is_outdated col host path hash) ds ≡ false
    stored-outdated [] u h = refl
    stored-outdated (d ∷ ds) u h = elim (Bool-cases (is_stored col host path hash d)) [
      | inl e ↦
          or_none (is_outdated col host path hash d) _
            (stored_settled (text_eq d.id (meta_id col host path))
              (has text_dec (codes "path") d.metadata) (is_meta col host path hash d)
              (text_eq (field (codes "hash") d.metadata) hash) e)
            (any_none_of (λ x. is_named x ≡ true) (is_outdated col host path hash)
              (λ x. text_eq x.id d.id) (λ x n o. same_id x d (outdated-id x n o) (and_head _ _ e))
              ds u.1.1 u.0.0)
      | inr e ↦
          let rest = or_rest (is_stored col host path hash d) _ e h in
          or_none (is_outdated col host path hash d) _
            (elim (Bool-cases (is_outdated col host path hash d)) [
              | inl o ↦ absurd (
                  true≢false (
                    sym (
                      any_imp (λ x. is_named x ≡ true) (is_stored col host path hash)
                        (λ x. text_eq x.id d.id)
                        (λ x n k. same_id x d (and_head _ _ k) (outdated-id d u.1.0 o)) ds u.1.1
                        rest)
                    ∙ u.0.0))
              | inr o ↦ o
            ])
            (stored-outdated ds (u.0.1, u.1.1) rest)
    ]

    none-some : {v : Text} → ¬ (none ≡ some v)
    none-some e = cc

    fetch-empty :
        (s : Store col)
        → (count s.collection == 0) ≡ true
        → fetch col (mapping_filter col host) s ≡ ok []
    unfolding fetch
    fetch-empty s e = rw e refl

    known-IsCurrent :
        (laws : IsCollection col) (s : Store col)
        → IsUnique (docs s.collection)
        → any is_known (map document (laws.ranked s.collection dummy (mapping_filter col host)))
          ≡ true
        → IsCurrent col host path hash (docs s.collection)
    known-IsCurrent laws s u k =
        let st =
          any_imp (λ x. is_named x ≡ true) in_mapping (is_stored col host path hash)
            in_mapping-stored (docs s.collection) u.1
            (sym (any-keep is_known (matches (mapping_filter col host)) (docs s.collection))
              ∙ sym (laws.any-ranked s.collection dummy (mapping_filter col host) is_known)
              ∙ k) in
        (stored-outdated (docs s.collection) u st, st)

    -- In a store where each name stands once and each file record of the project under the name of
    -- its path, what the mapping says of a file is what the store knows of it.
    pub find-IsCurrent :
        (laws : IsCollection col) (s : Store col)
        → IsUnique (docs s.collection)
        → find text_dec path (mapping_of col host s) ≡ some hash
        → IsCurrent col host path hash (docs s.collection)
    find-IsCurrent laws s u h = elim (Bool-cases (count s.collection == 0)) [
      | inl e ↦ absurd (
          none-some (
            sym (ap (find text_dec path) (mapping_of-fetched col host [] s (fetch-empty s e))) ∙ h))
      | inr e ↦
          let rs = laws.ranked s.collection dummy (mapping_filter col host) in
          elim (put_fields-origin rs [] (
            sym (
              ap (find text_dec path) (
                mapping_of-fetched col host rs s
                  (fetch-all col laws (mapping_filter col host) s e)))
            ∙ h)) [ inl k ↦ known-IsCurrent laws s u k | inr k ↦ absurd (none-some k) ]
    ]
