-- ===== src/Indexer.antt =====
-- internal/indexer/scanner.go: from the files of a project to the records of the store.
--
-- What the indexer calls outside of the repository is the parameter `Host`: the file system, the
-- hash, the PDF reader, the embedding model, the formatting of numbers and JSON, and the order in
-- which the results of the worker goroutines arrive. The chunker is a parameter as well, which
-- may panic. A `Result` is a value: the goroutines of `processIndexing` share nothing but the two
-- channels, so a run is the results of `ProcessFile` in the order of their arrival.
pub mod Scan
pub mod Run
pub mod Discovery
pub mod Held
pub mod Made
pub mod Collected
pub mod Mapping
pub mod Unique
pub mod Fresh
pub mod Again
mod Tests
use vector_mcp_go.Base.{
  ℕ, suc, ◌+◌, Bool, true, false, ◌||◌, Option, none, some, List, [], ◌∷◌, ◌++◌, map, any,
  if◌then◌else◌,
}
use vector_mcp_go.Base.Int.{ℤ}
use vector_mcp_go.Base.Text.{Text, codes, text_eq}
use vector_mcp_go.Chunk.{Chunk}
use vector_mcp_go.Lexical.{or_else}
use vector_mcp_go.Store.{Metadata, Document, Reply, failed, ok, Collection}

-- What `filepath.Walk` goes through: `unreadable` is an entry whose `Lstat` or listing fails.
mutual
  pub data Entry : Type 0 where
    file : Text → Entry
    dir : Text → Entries → Entry
    unreadable : Text → Entry

  pub data Entries : Type 0 where
    end : Entries
    and_then : Entry → Entries → Entries

pub record Host (col : Collection) : Type 0 where
  -- `opts.Config.ProjectRoot`
  pub root : Text
  -- `filepath.Rel(root, path)`
  pub filepath_rel : Text → Text → Option Text
  pub ext : Text → Text
  pub base : Text → Text
  pub join : Text → Text → Text
  pub to_lower : Text → Text
  pub contains : Text → Text → Bool
  pub equal_fold : Text → Text → Bool
  -- The entries under the root, in the order of the walk.
  pub listing : Reply Text Entries
  pub exists : Text → Bool
  -- `ignore.CompileIgnoreFile`
  pub compile_ignore_file : Text → Option (Text → Bool)
  pub read_file : Text → Reply Text Text
  -- `pdf.Open` and its pages: `none` for a null page.
  pub pdf_pages : Text → Reply Text (List (Option (Reply Text Text)))
  pub sha256_hex : Text → Text
  pub mod_time : Text → Option ℤ
  pub now : ℤ
  pub format_int : ℤ → Text
  pub itoa : ℕ → Text
  -- `fmt.Sprintf("%.1f", x)` and `fmt.Sprintf("%.2f", x)`
  pub format_one : col.floats.F → Text
  pub format_two : col.floats.F → Text
  pub marshal_list : List Text → Text
  pub marshal_map : Metadata → Text
  pub store_error : col.Err → Text
  pub embed_batch : List Text → Reply Text (List col.Vector)
  pub embed : Text → Reply Text col.Vector
  -- `CreateChunks`: `none` where it panics.
  pub create_chunks : Text → Text → Option (List (Chunk col.floats.F))

-- `Result`
pub record FileResult (V : Type 0) : Type 0 where
  pub indexed : Bool
  pub skipped : Bool
  pub err : Text
  pub rel_path : Text
  pub records : List (Document V)

module _ (col : Collection) (host : Host col) where
  open col use {floats, Vector, dummy}
  open floats use {F, of_int, hundredths}
  open host use {
    root, filepath_rel, ext, base, to_lower, contains, read_file, pdf_pages, sha256_hex, mod_time,
    now, format_int, itoa, format_one, format_two, marshal_list, marshal_map, embed_batch, embed,
    create_chunks,
  }

  -- `config.GetRelativePath(path, opts.Config.ProjectRoot)`
  unfoldable pub get_relative_path : Text → Text
  get_relative_path path = or_else (filepath_rel root path) path

  unfoldable pub get_hash : Text → Reply Text Text
  get_hash path = elim (read_file path) [
    | failed e ↦ failed e
    | ok content ↦ ok (sha256_hex content)
  ]

  -- `currentHash, _ := GetHash(path)`
  unfoldable pub current_hash : Text → Text
  unfolding get_hash
  current_hash path = elim (get_hash path) [ failed _ ↦ [] | ok h ↦ h ]

  page_texts : List (Option (Reply Text Text)) → Text
  page_texts [] = []
  page_texts (none ∷ pages) = page_texts pages
  page_texts (some (failed _) ∷ pages) = page_texts pages
  page_texts (some (ok text) ∷ pages) = text ++ b'\n' ∷ page_texts pages

  read_pdf_content : Text → Reply Text Text
  unfolding page_texts
  read_pdf_content path = elim (pdf_pages path) [
    | failed e ↦ failed (codes "failed to parse pdf: " ++ e)
    | ok pages ↦ ok (page_texts pages)
  ]

  unfoldable pub read_file_content : Text → Reply Text Text
  unfolding read_pdf_content page_texts
  read_file_content path =
      if text_eq (to_lower (ext path)) (codes ".pdf") then read_pdf_content path else read_file path

  unfoldable pub get_file_updated_at : Text → Text
  get_file_updated_at path = format_int (or_else (mod_time path) now)

  unfoldable pub get_file_category : Text → Text
  get_file_category path =
      let suffix = to_lower (ext path) in
      if text_eq suffix (codes ".pdf")
        || text_eq suffix (codes ".md")
        || text_eq suffix (codes ".txt")
      then codes "document"
      else codes "code"

  unfoldable pub get_priority : Text → F
  get_priority rel_path =
      let lower = to_lower rel_path in
      if contains lower (codes "adr/")
        || contains lower (codes "architecture")
        || text_eq (base lower) (codes "architecture.md")
      then hundredths 150
      else of_int 1

  unfoldable pub embed_sequentially : List Text → List Vector
  embed_sequentially [] = []
  embed_sequentially (text ∷ texts) = elim (embed text) [
    | failed _ ↦ embed_sequentially texts
    | ok emb ↦ emb ∷ embed_sequentially texts
  ]

  -- What the records of one file share.
  pub record FileFacts : Type 0 where
    pub rel_path : Text
    pub category : Text
    pub updated_at : Text
    pub hash : Text
    pub priority : F

  first_symbol : List Text → Text
  first_symbol [] = []
  first_symbol (symbol ∷ symbols) = symbol

  abbrev pub chunk_id : Text → ℕ → Text
  chunk_id rel_path i = codes "chunk:" ++ root ++ b':' ∷ rel_path ++ b':' ∷ itoa i

  unfoldable pub create_chunk_record : FileFacts → Chunk F → ℕ → Vector → Document Vector
  unfolding first_symbol
  create_chunk_record facts chunk i emb = record {
    id = chunk_id facts.rel_path i;
    content = chunk.content;
    embedding = emb;
    metadata =
        (codes "path", facts.rel_path)
        ∷ (codes "project_id", root)
        ∷ (codes "category", facts.category)
        ∷ (codes "updated_at", facts.updated_at)
        ∷ (codes "hash", facts.hash)
        ∷ (codes "relationships", marshal_list chunk.relationships)
        ∷ (codes "symbols", marshal_list chunk.symbols)
        ∷ (codes "parent_symbol", chunk.parent_symbol)
        ∷ (codes "type", codes "chunk")
        ∷ (codes "name", first_symbol chunk.symbols)
        ∷ (codes "calls", marshal_list chunk.calls)
        ∷ (codes "priority", format_one facts.priority)
        ∷ (codes "function_score", format_two chunk.function_score)
        ∷ (codes "docstring", chunk.docstring)
        ∷ (codes "structural_metadata", marshal_map chunk.structural_metadata)
        ∷ (codes "start_line", itoa chunk.start_line)
        ∷ (codes "end_line", itoa chunk.end_line)
        ∷ [];
  }

  abbrev pub meta_id : Text → Text
  meta_id rel_path = codes "filemeta:" ++ root ++ b':' ∷ rel_path

  unfoldable pub create_file_meta_record : Text → Text → Text → Document Vector
  create_file_meta_record rel_path updated_at hash = record {
    id = meta_id rel_path;
    content = [];
    embedding = dummy;
    metadata =
        (codes "type", codes "file_meta")
        ∷ (codes "path", rel_path)
        ∷ (codes "project_id", root)
        ∷ (codes "hash", hash)
        ∷ (codes "updated_at", updated_at)
        ∷ [];
  }

  unfoldable pub add_file_meta_only : Text → Text → Text → List (Document Vector)
  unfolding create_file_meta_record
  add_file_meta_only rel_path updated_at hash =
      create_file_meta_record rel_path updated_at hash ∷ []

  -- The loop that pairs chunk and embedding by their index and ends at the shorter list.
  unfoldable pub chunk_records :
      FileFacts → ℕ → List (Chunk F) → List Vector → List (Document Vector)
  unfolding create_chunk_record
  chunk_records facts i [] embs = []
  chunk_records facts i (chunk ∷ chunks) [] = []
  chunk_records facts i (chunk ∷ chunks) (emb ∷ embs) =
      create_chunk_record facts chunk i emb ∷ chunk_records facts (suc i) chunks embs

  -- The embeddings of the texts, in one batch or, where that fails, one by one.
  unfoldable pub embeddings : List Text → List Vector
  unfolding embed_sequentially
  embeddings texts = elim (embed_batch texts) [
    | failed _ ↦ embed_sequentially texts
    | ok embs ↦ embs
  ]

  -- `prepareRecords`, which never returns an error.
  unfoldable pub prepare_records : FileFacts → List (Chunk F) → List (Document Vector)
  unfolding embeddings chunk_records create_file_meta_record add_file_meta_only
  prepare_records facts [] = add_file_meta_only facts.rel_path facts.updated_at facts.hash
  prepare_records facts (chunk ∷ chunks) =
      let embs = embeddings (map (λ c. c.contextual_string) (chunk ∷ chunks)) in
      chunk_records facts 0 (chunk ∷ chunks) embs
      ++ create_file_meta_record facts.rel_path facts.updated_at facts.hash ∷ []

  abbrev pub file_facts : Text → Text → FileFacts
  file_facts path hash = record {
    rel_path = get_relative_path path;
    category = get_file_category path;
    updated_at = get_file_updated_at path;
    hash = hash;
    priority = get_priority (get_relative_path path);
  }

  -- `Result{}`, which `ProcessFile` returns where a panic was recovered.
  abbrev pub empty_result : FileResult Vector
  empty_result = record { indexed = false; skipped = false; err = []; rel_path = []; records = [] }

  abbrev pub failed_result : Text → Text → FileResult Vector
  failed_result rel_path e = record {
    indexed = false;
    skipped = false;
    err = e;
    rel_path = rel_path;
    records = [];
  }

  abbrev pub indexed_result : Text → List (Document Vector) → FileResult Vector
  indexed_result rel_path records = record {
    indexed = true;
    skipped = false;
    err = [];
    rel_path = rel_path;
    records = records;
  }

  -- From the chunks on; `none` is a panic of the chunker.
  unfoldable pub chunked_result : Text → Text → Option (List (Chunk F)) → FileResult Vector
  unfolding get_relative_path prepare_records
  chunked_result path hash none = empty_result
  chunked_result path hash (some chunks) =
      indexed_result (get_relative_path path) (prepare_records (file_facts path hash) chunks)

  -- From the content on.
  unfoldable pub read_result : Text → Text → Reply Text Text → FileResult Vector
  unfolding chunked_result get_relative_path
  read_result path hash (failed e) = failed_result (get_relative_path path) e
  read_result path hash (ok content) =
      chunked_result path hash (create_chunks content (get_relative_path path))

  unfoldable pub process_file : Text → Text → FileResult Vector
  unfolding read_file_content read_result
  process_file path hash = read_result path hash (read_file_content path)
