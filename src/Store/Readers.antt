-- ===== src/Store/Readers.antt =====
-- internal/db/store.go: the functions that read the collection by a filter.
use vector_mcp_go.Base.{Option, none, some, List, [], ◌∷◌, map, keep, ◌==◌, if◌then◌else◌}
use vector_mcp_go.Base.Maps.{find, put}
use vector_mcp_go.Base.Text.{Text, codes, text_dec}
use vector_mcp_go.Store.{
  Metadata, field, Document, Reply, failed, ok, document, Collection, is_under, Found, Store,
}

module _ (col : Collection) where
  open col use {floats, Vector, State, Err, dummy, count, query}

  -- All documents that pass the filter: the query that the readers below share.
  unfoldable pub fetch : Metadata → Store col → Reply Err (List (Found col))
  fetch filter s =
      if count s.collection == 0
      then ok []
      else query s.collection dummy (count s.collection) filter

  abbrev pub map_reply : {A B : Type 0} → (A → B) → Reply Err A → Reply Err B
  map_reply f (failed e) = failed e
  map_reply f (ok a) = ok (f a)

  abbrev pub put_fields :
      (Found col → Option (Text × Text)) → List (Found col) → Metadata → Metadata
  put_fields f [] m = m
  put_fields f (r ∷ rs) m =
      put_fields f rs (elim (f r) [ none ↦ m | some kv ↦ put text_dec kv.0 kv.1 m ])

  unfoldable pub path_hash : Found col → Option (Text × Text)
  path_hash r = elim (find text_dec (codes "path") r.metadata) [
    | none ↦ none
    | some path ↦ some (path, field (codes "hash") r.metadata)
  ]

  unfoldable pub get_path_hash_mapping : Text → Store col → Reply Err Metadata
  unfolding path_hash
  get_path_hash_mapping project_id s =
      map_reply (λ rs. put_fields path_hash rs [])
        (fetch ((codes "project_id", project_id) ∷ (codes "type", codes "file_meta") ∷ []) s)

  project_status : Found col → Option (Text × Text)
  project_status r = elim (find text_dec (codes "project_id") r.metadata) [
    | none ↦ none
    | some project_id ↦ some (project_id, r.content)
  ]

  unfoldable pub get_all_statuses : Store col → Reply Err Metadata
  unfolding project_status
  get_all_statuses s =
      map_reply (λ rs. put_fields project_status rs [])
        (fetch ((codes "type", codes "project_status") ∷ []) s)

  unfoldable pub get_by_path : Text → Text → Store col → Reply Err (List (Document Vector))
  get_by_path path project_id s =
      map_reply (map document)
        (fetch ((codes "path", path) ∷ (codes "project_id", project_id) ∷ []) s)

  unfoldable pub get_by_prefix : Text → Text → Store col → Reply Err (List (Document Vector))
  get_by_prefix prefix project_id s =
      map_reply
        (λ rs. map document (keep (λ r. is_under prefix (field (codes "path") r.metadata)) rs))
        (fetch ((codes "project_id", project_id) ∷ []) s)

  unfoldable pub get_all_records : Store col → Reply Err (List (Document Vector))
  get_all_records s = map_reply (map document) (fetch [] s)

  -- `GetAllMetadata`: a record's name and metadata.
  unfoldable pub get_all_metadata : Store col → Reply Err (List (Text × Metadata))
  get_all_metadata s = map_reply (map (λ r. (r.id, r.metadata))) (fetch [] s)
