-- ===== src/Indexer/Held.antt =====
-- internal/indexer/scanner.go: what the store holds of one file, and that the operations of a run
-- on other files leave it.
use vector_mcp_go.Base.{
  ◌≡◌, refl, ap, ◌∙◌, Bool, true, false, ◌&&◌, ◌||◌, not, List, [], ◌∷◌, ◌++◌, any, keep,
  Bool-cases, inl, inr,
}
use vector_mcp_go.Base.Maps.{has}
use vector_mcp_go.Base.Text.{Text, codes, text_eq, text_eq→eq, text_dec}
use vector_mcp_go.Indexer.{Host, meta_id}
use vector_mcp_go.Store.Deletion.{docs-delete_by_filter}
use vector_mcp_go.Store.Filters.{and_false, any-keep, any_none, cons-ne-nil}
use vector_mcp_go.Store.Status.{set_status_lem}
use vector_mcp_go.Store.{
  field, Document, Collection, matches, write, IsCollection, Store, delete_by_path, status_filter,
  status_record, set_status, insert,
}

pub or_none : (a b : Bool) → a ≡ false → b ≡ false → (a || b) ≡ false
or_none a b h k = rw (h, k) refl

pub or_none_head : (a b : Bool) → (a || b) ≡ false → a ≡ false
or_none_head true b h = cc
or_none_head false b h = refl

pub or_none_tail : (a b : Bool) → (a || b) ≡ false → b ≡ false
or_none_tail true b h = cc
or_none_tail false b h = h

and_not_none : (a b : Bool) → (a && not b) ≡ false → b ≡ false → a ≡ false
and_not_none true true h k = cc
and_not_none true false h k = h
and_not_none false b h k = refl

-- A record that passes a filter on its path and project does not survive deletion by that filter.
pub filtered_out :
    (a b c d : Bool) → (not (a && (b && true)) && ((a && (b && (c && true))) && d)) ≡ false
filtered_out true true c d = refl
filtered_out true false c d = refl
filtered_out false b c d = refl

-- The third of three fields decides.
pub third_false : (a b : Bool) → (a && (b && false)) ≡ false
third_false true b = and_false b
third_false false b = refl

unmet : (m i p : Bool) → (m && (i && (p && false))) ≡ (i && (p && false))
unmet m true true = and_false m
unmet m true false = and_false m
unmet m false p = and_false m

pub or_true : (b : Bool) → (b || true) ≡ true
or_true true = refl
or_true false = refl

module _ {A : Type 0} where
  pub any_ext : (p q : A → Bool) → ((x : A) → p x ≡ q x) → (xs : List A) → any p xs ≡ any q xs
  any_ext p q h xs = ap (λ f. any f xs) (λ i x. h x i)

  pub any-append : (p : A → Bool) (xs ys : List A) → any p (xs ++ ys) ≡ any p xs || any p ys
  any-append p [] ys = refl
  any-append p (x ∷ xs) ys = elim (Bool-cases (p x)) [
    | inl e ↦ rw e refl
    | inr e ↦ rw e (any-append p xs ys)
  ]

  -- What passes a test that no dropped element passes is still there.
  pub any-keep_all :
      (p q : A → Bool)
      → ((x : A) → (q x && p x) ≡ p x)
      → (xs : List A) → any p (keep q xs) ≡ any p xs
  any-keep_all p q h xs = any-keep p q xs ∙ any_ext (λ x. q x && p x) p h xs

  pub any-keep_none : (p q : A → Bool) (xs : List A) → any p xs ≡ false → any p (keep q xs) ≡ false
  any-keep_none p q [] h = refl
  any-keep_none p q (x ∷ xs) h = elim (Bool-cases (q x)) [
    | inl e ↦ rw e (
        or_none (p x) (any p (keep q xs)) (or_none_head (p x) (any p xs) h)
          (any-keep_none p q xs (or_none_tail (p x) (any p xs) h)))
    | inr e ↦ rw e (any-keep_none p q xs (or_none_tail (p x) (any p xs) h))
  ]

module _ {V : Type 0} where
  pub any-write_none :
      (p : Document V → Bool) (new held : List (Document V))
      → any p new ≡ false
      → any p held ≡ false
      → any p (write new held) ≡ false
  any-write_none p [] held h k = k
  any-write_none p (d ∷ new) held h k =
      any-write_none p new (d ∷ keep (λ e. not (text_eq e.id d.id)) held)
        (or_none_tail (p d) (any p new) h)
        (or_none (p d) (any p (keep (λ e. not (text_eq e.id d.id)) held))
          (or_none_head (p d) (any p new) h)
          (any-keep_none p (λ e. not (text_eq e.id d.id)) held k))

module _ (col : Collection) (host : Host col) (path hash : Text) where
  open col use {Vector, docs}
  open host use {root}

  -- A file record of this path, in the project.
  abbrev pub is_meta : Document Vector → Bool
  is_meta =
      matches
        ((codes "path", path) ∷ (codes "project_id", root) ∷ (codes "type", codes "file_meta") ∷ [])

  -- A file record of this path with another hash.
  abbrev pub is_outdated : Document Vector → Bool
  is_outdated d = is_meta d && not (text_eq (field (codes "hash") d.metadata) hash)

  -- The file record of this path, under its name and with this hash.
  abbrev pub is_stored : Document Vector → Bool
  is_stored d =
      text_eq d.id (meta_id col host path)
      && (has text_dec (codes "path") d.metadata
          && (is_meta d && text_eq (field (codes "hash") d.metadata) hash))

  -- A record that would take the place of the file record without being it, or that contradicts it.
  abbrev pub is_bad : Document Vector → Bool
  is_bad d = is_outdated d || (text_eq d.id (meta_id col host path) && not (is_stored d))

  -- The store knows the file by this hash, and by no other.
  abbrev pub IsCurrent : List (Document Vector) → Type 0
  IsCurrent ds = (any is_outdated ds ≡ false) × (any is_stored ds ≡ true)

  -- A document of another name, written over what there is, leaves the file record.
  is_stored-other :
      (d x : Document Vector)
      → text_eq d.id (meta_id col host path) ≡ false
      → (not (text_eq x.id d.id) && is_stored x) ≡ is_stored x
  is_stored-other d x h = elim (Bool-cases (text_eq x.id d.id)) [
    | inl e ↦ rw (e, text_eq→eq x.id d.id e, h) refl
    | inr e ↦ rw e refl
  ]

  is_bad-id :
      (d : Document Vector)
      → is_bad d ≡ false
      → is_stored d ≡ false
      → text_eq d.id (meta_id col host path) ≡ false
  is_bad-id d h k =
      and_not_none (text_eq d.id (meta_id col host path)) (is_stored d)
        (or_none_tail (is_outdated d) (text_eq d.id (meta_id col host path) && not (is_stored d)) h)
        k

  pub any-bad : (ds : List (Document Vector)) → any is_bad ds ≡ false → any is_outdated ds ≡ false
  any-bad [] h = refl
  any-bad (d ∷ ds) h =
      or_none (is_outdated d) (any is_outdated ds)
        (or_none_head (is_outdated d) _ (or_none_head (is_bad d) (any is_bad ds) h))
        (any-bad ds (or_none_tail (is_bad d) (any is_bad ds) h))

  any-write_stored :
      (new held : List (Document Vector))
      → any is_bad new ≡ false
      → (any is_stored new || any is_stored held) ≡ true
      → any is_stored (write new held) ≡ true
  any-write_stored [] held h k = k
  any-write_stored (d ∷ new) held h k =
      any-write_stored new (d ∷ keep (λ e. not (text_eq e.id d.id)) held)
        (or_none_tail (is_bad d) (any is_bad new) h)
        (elim (Bool-cases (is_stored d)) [
          | inl e ↦ rw e (or_true (any is_stored new))
          | inr e ↦
              rw
                (
                  e,
                  any-keep_all is_stored (λ x. not (text_eq x.id d.id))
                      (λ x.
                        is_stored-other d x
                          (is_bad-id d (or_none_head (is_bad d) (any is_bad new) h) e))
                      held,
                )
                (rw e at k)
        ])

  module _ (laws : IsCollection col) where
    delete_by_path-docs :
        (other : Text) (s : Store col)
        → docs (delete_by_path col other root s).0.collection
          ≡ keep
              (λ d. not (matches ((codes "path", other) ∷ (codes "project_id", root) ∷ []) d))
              (docs s.collection)
    unfolding delete_by_path
    delete_by_path-docs other s =
        (docs-delete_by_filter col laws ((codes "path", other) ∷ (codes "project_id", root) ∷ []) s
          [] (cons-ne-nil _ _)).0

    is_stored-path :
        (other : Text) (d : Document Vector)
        → text_eq other path ≡ false
        → (not (matches ((codes "path", other) ∷ (codes "project_id", root) ∷ []) d) && is_stored d)
          ≡ is_stored d
    is_stored-path other d h = elim (Bool-cases (text_eq (field (codes "path") d.metadata) other)) [
      | inl e ↦
          rw (ap (λ t. text_eq t path) (text_eq→eq (field (codes "path") d.metadata) other e) ∙ h) (
            unmet _ (text_eq d.id (meta_id col host path)) (has text_dec (codes "path") d.metadata))
      | inr e ↦ rw e refl
    ]

    -- No deletion by path brings an outdated record back.
    pub delete_by_path-outdated :
        (other : Text) (s : Store col)
        → any is_outdated (docs s.collection) ≡ false
        → any is_outdated (docs (delete_by_path col other root s).0.collection) ≡ false
    delete_by_path-outdated other s h =
        rw (delete_by_path-docs other s) (any-keep_none is_outdated _ (docs s.collection) h)

    -- Deleting another path leaves the file record of this one.
    pub delete_by_path-stored :
        (other : Text) (s : Store col)
        → text_eq other path ≡ false
        → any is_stored (docs (delete_by_path col other root s).0.collection)
          ≡ any is_stored (docs s.collection)
    delete_by_path-stored other s h =
        rw (delete_by_path-docs other s)
          (any-keep_all is_stored _ (λ d. is_stored-path other d h) (docs s.collection))

    -- Deleting the path leaves no outdated record of it.
    pub delete_by_path-fresh :
        (s : Store col)
        → any is_outdated (docs (delete_by_path col path root s).0.collection) ≡ false
    delete_by_path-fresh s = rw (delete_by_path-docs path s) (
        any-keep is_outdated _ (docs s.collection)
        ∙ any_none _
            (λ d.
              filtered_out (text_eq (field (codes "path") d.metadata) path)
                (text_eq (field (codes "project_id") d.metadata) root)
                (text_eq (field (codes "type") d.metadata) (codes "file_meta"))
                (not (text_eq (field (codes "hash") d.metadata) hash)))
            (docs s.collection))

    is_stored-status :
        (d : Document Vector)
        → (not (matches (status_filter col root) d) && is_stored d) ≡ is_stored d
    unfolding status_filter
    is_stored-status d =
        elim (Bool-cases (text_eq (field (codes "type") d.metadata) (codes "project_status"))) [
          | inl e ↦
              rw
                (
                  ap (λ t. text_eq t (codes "file_meta"))
                      (text_eq→eq (field (codes "type") d.metadata) (codes "project_status") e),
                  third_false (text_eq (field (codes "path") d.metadata) path)
                      (text_eq (field (codes "project_id") d.metadata) root),
                )
                (unmet _ (text_eq d.id (meta_id col host path))
                  (has text_dec (codes "path") d.metadata))
          | inr e ↦ rw e refl
        ]

    is_stored-name :
        (d : Document Vector)
        → (not (text_eq d.id (codes "status:" ++ root)) && is_stored d) ≡ is_stored d
    is_stored-name d = elim (Bool-cases (text_eq d.id (codes "status:" ++ root))) [
      | inl e ↦ rw (e, text_eq→eq d.id (codes "status:" ++ root) e) refl
      | inr e ↦ rw e refl
    ]

    -- A new status of the project leaves what the store knows of the file.
    pub set_status-outdated :
        (status : Text) (s : Store col)
        → any is_outdated (docs s.collection) ≡ false
        → any is_outdated (docs (set_status col root status s).0.collection) ≡ false
    set_status-outdated status s h = rw (set_status_lem col laws root status s).2 (
        or_none (is_outdated (status_record col root status)) _
          (rw (third_false (text_eq [] path) (text_eq root root)) refl)
          (any-keep_none is_outdated _ (keep _ (docs s.collection))
            (any-keep_none is_outdated _ (docs s.collection) h)))

    pub set_status-stored :
        (status : Text) (s : Store col)
        → any is_stored (docs s.collection) ≡ true
        → any is_stored (docs (set_status col root status s).0.collection) ≡ true
    set_status-stored status s h =
        rw
          (
            (set_status_lem col laws root status s).2,
            any-keep_all is_stored _ is_stored-name
                (keep (λ d. not (matches (status_filter col root) d)) (docs s.collection)),
            any-keep_all is_stored _ is_stored-status (docs s.collection),
            h,
          )
          (or_true (is_stored (status_record col root status)))

    pub insert-outdated :
        (d : Document Vector) (ds : List (Document Vector)) (s : Store col)
        → any is_bad (d ∷ ds) ≡ false
        → any is_outdated (docs s.collection) ≡ false
        → any is_outdated (docs (insert col (d ∷ ds) s).0.collection) ≡ false
    unfolding insert
    insert-outdated d ds s h k = rw (laws.docs-added d ds s.collection) (
        any-write_none is_outdated (laws.ordered s.collection (d ∷ ds)) (docs s.collection)
          (laws.any-ordered s.collection (d ∷ ds) is_outdated ∙ any-bad (d ∷ ds) h) k)

    pub insert-stored :
        (d : Document Vector) (ds : List (Document Vector)) (s : Store col)
        → any is_bad (d ∷ ds) ≡ false
        → (any is_stored (d ∷ ds) || any is_stored (docs s.collection)) ≡ true
        → any is_stored (docs (insert col (d ∷ ds) s).0.collection) ≡ true
    unfolding insert
    insert-stored d ds s h k = rw (laws.docs-added d ds s.collection) (
        any-write_stored (laws.ordered s.collection (d ∷ ds)) (docs s.collection)
          (laws.any-ordered s.collection (d ∷ ds) is_bad ∙ h)
          (rw (laws.any-ordered s.collection (d ∷ ds) is_stored) k))
