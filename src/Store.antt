-- ===== src/Store.antt =====
-- internal/db/store.go: the store of records, a chromem-go collection beside the BM25 index.
--
-- chromem-go is a parameter (`Collection`): its operations on a state of its own, and, for the
-- proofs, the documents it holds and what its documentation says of each operation (`IsCollection`).
-- An operation that fails hands back the state it leaves and its error. `strings.TrimSpace`,
-- `json.Unmarshal`, the tokenizer and `sort.Slice` are parameters too. The memo table
-- `parsedCache`, the tracing spans and the context are left out.
pub mod Filters
pub mod Deletion
pub mod Status
pub mod Readers
pub mod Search
pub mod Asked
pub mod Hybrid
pub mod Fused
pub mod Listed
mod Tests
use vector_mcp_go.Base.{
  ℕ, zero, suc, ◌+◌, ◌-◌, ◌*◌, ◌/◌, ◌≤◌, ◌<◌, ◌≡◌, ◌≢◌, Bool, true, false, ◌&&◌, ◌||◌, not, Option,
  none, some, List, [], ◌∷◌, ◌++◌, map, length, take, any, keep, leb, ltb, ◌==◌, if◌then◌else◌,
}
use vector_mcp_go.Base.Floats.{Floats}
use vector_mcp_go.Base.Int.{ℤ, pos, negsuc}
use vector_mcp_go.Base.Maps.{find, has, del, put}
use vector_mcp_go.Base.Text.{Text, codes, text_eq, text_dec, has_prefix}
use vector_mcp_go.Lexical.{Index, new_index, remove, add_document, search_index, or_else}

abbrev pub Metadata : Type 0
Metadata = List (Text × Text)

-- `metadata[key]`, which is empty where it is missing.
abbrev pub field : Text → Metadata → Text
field key m = or_else (find text_dec key m) []

-- `chromem.Document`
pub record Document (V : Type 0) : Type 0 where
  pub id : Text
  pub content : Text
  pub embedding : V
  pub metadata : Metadata

-- `Record`, and `chromem.Result`, which has the same fields.
pub record Record (V F : Type 0) : Type 0 where
  pub id : Text
  pub content : Text
  pub embedding : V
  pub metadata : Metadata
  pub similarity : F

pub data Reply (Err A : Type 0) : Type 0 where
  failed : Err → Reply Err A
  ok : A → Reply Err A

abbrev pub document : {V F : Type 0} → Record V F → Document V
document r = record {
  id = r.id;
  content = r.content;
  embedding = r.embedding;
  metadata = r.metadata;
}

-- What the store calls of chromem-go and of the packages around it.
pub record Collection : Type 1 where
  pub floats : Floats
  pub Vector : Type 0
  pub State : Type 0
  pub Err : Type 0
  -- `make([]float32, s.Dimension)`
  pub dummy : Vector
  -- `Record.Embedding` where nothing sets it.
  pub nil_vector : Vector
  pub docs : State → List (Document Vector)
  pub count : State → ℕ
  pub query : State → Vector → ℕ → Metadata → Reply Err (List (Record Vector floats.F))
  pub add_documents : List (Document Vector) → State → State × Option Err
  pub delete : Metadata → State → State × Option Err
  pub trim_space : Text → Text
  pub parse_array : Text → Option (List Text)
  pub parse_float : Text → Option floats.F
  pub tokens : Text → List Text
  pub sort_records : List (Record Vector floats.F) → List (Record Vector floats.F)
  pub sort_scored :
      List (Record Vector floats.F × floats.F) → List (Record Vector floats.F × floats.F)

-- A document passes a filter that asks for these fields.
abbrev pub has_fields : Metadata → Metadata → Bool
has_fields [] m = true
has_fields ((key, value) ∷ filter) m = text_eq (field key m) value && has_fields filter m

abbrev pub matches : {V : Type 0} → Metadata → Document V → Bool
matches filter d = has_fields filter d.metadata

-- A document of the same name is written over.
abbrev pub write : {V : Type 0} → List (Document V) → List (Document V) → List (Document V)
write [] held = held
write (d ∷ new) held = write new (d ∷ keep (λ e. not (text_eq e.id d.id)) held)

-- What chromem-go documents: a query for at most as many results as there are documents ranks the
-- documents that pass the filter and hands back the first of them; deletion by a filter that asks
-- for something takes the documents that pass it away; a document is written over the one of its
-- name, and several are written in some order.
pub record IsCollection (col : Collection) : Type 0 where
  pub count-docs : (s : col.State) → col.count s ≡ length (col.docs s)
  pub ranked : col.State → col.Vector → Metadata → List (Record col.Vector col.floats.F)
  pub length-ranked :
      (s : col.State) (e : col.Vector) (filter : Metadata)
      → length (ranked s e filter) ≡ length (keep (matches filter) (col.docs s))
  pub any-ranked :
      (s : col.State) (e : col.Vector) (filter : Metadata) (p : Document col.Vector → Bool)
      → any p (map document (ranked s e filter)) ≡ any p (keep (matches filter) (col.docs s))
  pub query-ok :
      (s : col.State) (e : col.Vector) (n : ℕ) (filter : Metadata)
      → 0 < n
      → n ≤ length (col.docs s)
      → col.query s e n filter ≡ ok (take n (ranked s e filter))
  pub docs-delete :
      (filter : Metadata) (s : col.State)
      → filter ≢ []
      → col.docs (col.delete filter s).0 ≡ keep (λ d. not (matches filter d)) (col.docs s)
  pub delete-ok : (filter : Metadata) (s : col.State) → filter ≢ [] → (col.delete filter s).1 ≡ none
  pub docs-add :
      (d : Document col.Vector) (s : col.State)
      → col.docs (col.add_documents (d ∷ []) s).0 ≡ write (d ∷ []) (col.docs s)
  -- The order in which the workers of `AddDocuments` write.
  pub ordered : col.State → List (Document col.Vector) → List (Document col.Vector)
  pub any-ordered :
      (s : col.State) (ds : List (Document col.Vector)) (p : Document col.Vector → Bool)
      → any p (ordered s ds) ≡ any p ds
  pub docs-added :
      (d : Document col.Vector) (ds : List (Document col.Vector)) (s : col.State)
      → col.docs (col.add_documents (d ∷ ds) s).0 ≡ write (ordered s (d ∷ ds)) (col.docs s)
  pub add-ok : (d : Document col.Vector) (s : col.State) → (col.add_documents (d ∷ []) s).1 ≡ none

-- `path == prefix || strings.HasPrefix(path, prefix+"/")`
abbrev pub is_under : Text → Text → Bool
is_under prefix path = text_eq path prefix || has_prefix path (prefix ++ b'/' ∷ [])

module _ (col : Collection) where
  open col use {
    floats, Vector, State, Err, dummy, count, query, add_documents, delete, trim_space, parse_array,
    parse_float, tokens, sort_records, sort_scored,
  }

  abbrev pub Found : Type 0
  Found = Record Vector floats.F

  -- `Store`, less `Dimension`, which `dummy` has, and the memo table.
  pub record Store : Type 0 where
    pub collection : State
    pub bm25 : Index floats.F Text Text

  -- `appendField`
  unfoldable pub append_field : Text → Text → Text
  append_field built value =
      let trimmed = trim_space value in
      if text_eq trimmed []
      then built
      else if text_eq built []
      then trimmed
      else built ++ b' ' ∷ trimmed

  append_fields : Text → List Text → Text
  unfolding append_field
  append_fields built [] = built
  append_fields built (value ∷ values) = append_fields (append_field built value) values

  -- One key of the loop over "symbols" and "calls".
  append_array : Text → Text → Text
  unfolding append_fields append_field
  append_array built raw = if text_eq raw [] then built else elim (or_else (parse_array raw) []) [
    | [] ↦ append_field built raw
    | value ∷ values ↦ append_fields built (value ∷ values)
  ]

  unfoldable pub lexical_document_text : Text → Metadata → Text
  unfolding append_array append_field append_fields
  lexical_document_text content m =
      let built =
        append_fields [] (content ∷ field (codes "name") m ∷ field (codes "path") m ∷ []) in
      append_array (append_array built (field (codes "symbols") m)) (field (codes "calls") m)

  -- `s.bm25.Add` for each of them.
  unfoldable pub index_documents :
      List (Document Vector) → Index floats.F Text Text → Index floats.F Text Text
  unfolding lexical_document_text
  index_documents [] idx = idx
  index_documents (d ∷ ds) idx = index_documents ds (
      add_document floats text_dec text_dec d.id
        (tokens (lexical_document_text d.content d.metadata)) idx)

  -- `s.bm25.Remove` for each of them.
  unfoldable pub unindex : List Found → Index floats.F Text Text → Index floats.F Text Text
  unindex [] idx = idx
  unindex (r ∷ rs) idx = unindex rs (remove floats text_dec text_dec r.id idx)

  unfoldable pub rebuild_lexical_index : Store → Reply Err Store
  unfolding index_documents
  rebuild_lexical_index s =
      if count s.collection == 0
      then ok s
      else elim (query s.collection dummy (count s.collection) []) [
        | failed e ↦ failed e
        | ok rs ↦ ok (record {
          collection = s.collection;
          bm25 = index_documents (map document rs) (new_index floats text_dec text_dec);
        })
      ]

  unfoldable pub delete_by_filter : Metadata → Store → Store × Option Err
  delete_by_filter filter s =
      if count s.collection == 0
      then (s, none)
      else elim (query s.collection dummy (count s.collection) filter) [
        | failed e ↦ (s, some e)
        | ok rs ↦ (
          record { collection = (delete filter s.collection).0; bm25 = unindex rs s.bm25 },
          (delete filter s.collection).1,
        )
      ]

  -- `Insert`
  unfoldable pub insert : List (Document Vector) → Store → Store × Option Err
  insert records s = (
    record {
      collection = (add_documents records s.collection).0;
      bm25 = index_documents records s.bm25;
    },
    (add_documents records s.collection).1,
  )

  unfoldable pub delete_by_path : Text → Text → Store → Store × Option Err
  delete_by_path path project_id =
      delete_by_filter ((codes "path", path) ∷ (codes "project_id", project_id) ∷ [])

  unfoldable pub clear_project : Text → Store → Store × Option Err
  clear_project project_id = delete_by_filter ((codes "project_id", project_id) ∷ [])

  -- The loop of `DeleteByPrefix`.
  unfoldable pub delete_under : Text → Text → List Found → Store → Store × Option Err
  delete_under prefix project_id [] s = (s, none)
  delete_under prefix project_id (r ∷ rs) s =
      let path = field (codes "path") r.metadata in
      let (c, e) =
        delete ((codes "path", path) ∷ (codes "project_id", project_id) ∷ []) s.collection in
      let next : Store = record {
        collection = c;
        bm25 = remove floats text_dec text_dec r.id s.bm25;
      } in
      let skipped = delete_under prefix project_id rs s in
      let deleted = delete_under prefix project_id rs next in
      if is_under prefix path
      then elim e [ some err ↦ (next, some err) | none ↦ deleted ]
      else skipped

  unfoldable pub delete_by_prefix : Text → Text → Store → Store × Option Err
  delete_by_prefix prefix project_id s =
      if count s.collection == 0
      then (s, none)
      else elim (query s.collection dummy (count s.collection)
          ((codes "project_id", project_id) ∷ [])) [
            | failed e ↦ (s, some e)
            | ok rs ↦ delete_under prefix project_id rs s
          ]

  unfoldable pub status_filter : Text → Metadata
  status_filter project_id =
      (codes "type", codes "project_status") ∷ (codes "project_id", project_id) ∷ []

  -- The record that `SetStatus` inserts.
  abbrev pub status_record : Text → Text → Document Vector
  status_record project_id status = record {
    id = codes "status:" ++ project_id;
    content = status;
    embedding = dummy;
    metadata = (codes "type", codes "project_status") ∷ (codes "project_id", project_id) ∷ [];
  }

  unfoldable pub set_status : Text → Text → Store → Store × Option Err
  unfolding status_filter
  set_status project_id status s =
      let (cleared, e) = delete_by_filter (status_filter project_id) s in
      elim e [
        | some err ↦ (cleared, some err)
        | none ↦ insert (status_record project_id status ∷ []) cleared
      ]

  -- The text of the first result, or the empty text and the error.
  abbrev pub first_of : (Found → Text) → Reply Err (List Found) → Text × Option Err
  first_of text (failed e) = ([], some e)
  first_of text (ok []) = ([], none)
  first_of text (ok (r ∷ rs)) = (text r, none)

  unfoldable pub get_status : Text → Store → Text × Option Err
  unfolding status_filter
  get_status project_id s =
      first_of (λ r. r.content) (query s.collection dummy 1 (status_filter project_id))

  unfoldable pub get_file_hash : Text → Text → Store → Text × Option Err
  get_file_hash path project_id s =
      first_of (λ r. field (codes "hash") r.metadata)
        (query s.collection dummy 1 (
          (codes "path", path)
          ∷ (codes "project_id", project_id)
          ∷ (codes "type", codes "file_meta")
          ∷ []))
