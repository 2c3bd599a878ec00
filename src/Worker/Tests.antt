-- ===== src/Worker/Tests.antt =====
-- internal/worker/worker.go at a project without files.
use vector_mcp_go.Base.{◌+◌, false, none, some, [], ◌∷◌, ◌++◌, map}
use vector_mcp_go.Base.Int.{pos}
use vector_mcp_go.Base.Text.{Text, codes, text_eq}
use vector_mcp_go.Indexer.{end, Host}
use vector_mcp_go.Store.Listed.{listed}
use vector_mcp_go.Store.{failed, ok}
use vector_mcp_go.Worker.{Shared}

abbrev empty_project : Text → Host listed
empty_project path = record {
  root = path;
  filepath_rel = λ root path. none;
  ext = λ path. [];
  base = λ path. path;
  join = λ a b. a ++ b'/' ∷ b;
  to_lower = λ text. text;
  contains = λ text part. false;
  equal_fold = text_eq;
  listing = ok end;
  exists = λ path. false;
  compile_ignore_file = λ path. none;
  read_file = λ path. ok [];
  pdf_pages = λ path. failed [];
  sha256_hex = λ content. content;
  mod_time = λ path. none;
  now = pos 0;
  format_int = λ n. codes "0";
  itoa = λ n. (b'0' + n) ∷ [];
  format_one = λ x. codes "1.0";
  format_two = λ x. codes "1.00";
  marshal_list = λ xs. codes "[]";
  marshal_map = λ m. codes "{}";
  store_error = λ e. [];
  embed_batch = λ texts. ok (map (λ t. 1) texts);
  embed = λ text. ok 1;
  create_chunks = λ text path. some [];
}

abbrev empty_shared : Shared listed
empty_shared = record {
  store = ok (record {
    collection = [];
    bm25 = record { postings = []; doc_len = []; doc_count = 0; avg_len = 0 };
  });
  progress = [];
}
