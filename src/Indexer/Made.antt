-- ===== src/Indexer/Made.antt =====
-- internal/indexer/scanner.go: the records that `ProcessFile` makes of a file.
use vector_mcp_go.Base.{
  ℕ, suc, ◌≡◌, refl, ◌∙◌, Bool, true, false, ◌&&◌, ◌||◌, not, ◌⊎◌, Option, none, some, List, [],
  ◌∷◌, ◌++◌, map, any, Bool-cases, inl, inr, arith,
}
use vector_mcp_go.Base.Text.{Text, text_eq, text_eq_refl}
use vector_mcp_go.Chunk.{Chunk}
use vector_mcp_go.Indexer.Held.{is_stored, is_bad, any-append, or_none, or_true, third_false}
use vector_mcp_go.Indexer.{
  Host, FileFacts, FileResult, meta_id, create_chunk_record, create_file_meta_record, chunk_records,
  embeddings, add_file_meta_only, prepare_records, file_facts, get_relative_path, process_file,
  read_file_content, chunked_result, read_result,
}
use vector_mcp_go.Store.Filters.{and_false}
use vector_mcp_go.Store.{Document, Reply, failed, ok, Collection}

text_eq_cancel : (r s t : Text) → text_eq (r ++ s) (r ++ t) ≡ text_eq s t
text_eq_cancel [] s t = refl
text_eq_cancel (c ∷ r) s t = ground (arith, text_eq_cancel r s t)

settled :
    (a b : Bool)
    → (a && not b) ≡ false
    → ((a && true) && not b || a && not (a && ((a && true) && b))) ≡ false
settled true true h = refl
settled true false h = cc
settled false b h = refl

settled_hash : (a b : Bool) → a ≡ true → (a && not b) ≡ false → b ≡ true
settled_hash true true h k = refl
settled_hash true false h k = cc
settled_hash false b h k = cc

module _ (col : Collection) (host : Host col) (path hash : Text) where
  open col use {Vector, floats}
  open floats use {F}
  open host use {root, read_file, create_chunks}

  create_chunk_record-bad :
      (facts : FileFacts col host) (c : Chunk F) (i : ℕ) (emb : Vector)
      → is_bad col host path hash (create_chunk_record col host facts c i emb) ≡ false
  unfolding create_chunk_record
  create_chunk_record-bad facts c i emb =
      rw (third_false (text_eq facts.rel_path path) (text_eq root root)) refl

  chunk_records-bad :
      (facts : FileFacts col host) (i : ℕ) (chunks : List (Chunk F)) (embs : List Vector)
      → any (is_bad col host path hash) (chunk_records col host facts i chunks embs) ≡ false
  unfolding chunk_records
  chunk_records-bad facts i [] embs = refl
  chunk_records-bad facts i (c ∷ chunks) [] = refl
  chunk_records-bad facts i (c ∷ chunks) (emb ∷ embs) =
      or_none (is_bad col host path hash (create_chunk_record col host facts c i emb)) _
        (create_chunk_record-bad facts c i emb) (chunk_records-bad facts (suc i) chunks embs)

  meta_id-eq : (q : Text) → text_eq (meta_id col host q) (meta_id col host path) ≡ text_eq q path
  meta_id-eq q = text_eq_cancel root (b':' ∷ q) (b':' ∷ path)

  meta-stored :
      (q t k : Text)
      → text_eq q path ≡ true
      → text_eq k hash ≡ true
      → is_stored col host path hash (create_file_meta_record col host q t k) ≡ true
  unfolding create_file_meta_record
  meta-stored q t k h e = rw (meta_id-eq q, h, e, text_eq_refl root) refl

  meta-bad :
      (q t k : Text)
      → (text_eq q path && not (text_eq k hash)) ≡ false
      → is_bad col host path hash (create_file_meta_record col host q t k) ≡ false
  unfolding create_file_meta_record
  meta-bad q t k h =
      rw (meta_id-eq q, text_eq_refl root) (settled (text_eq q path) (text_eq k hash) h)

  abbrev meta_record : FileFacts col host → Document Vector
  meta_record facts = create_file_meta_record col host facts.rel_path facts.updated_at facts.hash

  prepare_records-bad :
      (facts : FileFacts col host) (chunks : List (Chunk F))
      → (text_eq facts.rel_path path && not (text_eq facts.hash hash)) ≡ false
      → any (is_bad col host path hash) (prepare_records col host facts chunks) ≡ false
  unfolding prepare_records add_file_meta_only
  prepare_records-bad facts [] h =
      or_none (is_bad col host path hash (meta_record facts)) false
        (meta-bad facts.rel_path facts.updated_at facts.hash h) refl
  prepare_records-bad facts (c ∷ chunks) h =
      any-append (is_bad col host path hash)
        (chunk_records col host facts 0 (c ∷ chunks)
          (embeddings col host (map (λ c. c.contextual_string) (c ∷ chunks))))
        (meta_record facts ∷ [])
      ∙ or_none _ _
          (chunk_records-bad facts 0 (c ∷ chunks)
            (embeddings col host (map (λ c. c.contextual_string) (c ∷ chunks))))
          (or_none (is_bad col host path hash (meta_record facts)) false
            (meta-bad facts.rel_path facts.updated_at facts.hash h) refl)

  prepare_records-stored :
      (facts : FileFacts col host) (chunks : List (Chunk F))
      → text_eq facts.rel_path path ≡ true
      → text_eq facts.hash hash ≡ true
      → any (is_stored col host path hash) (prepare_records col host facts chunks) ≡ true
  unfolding prepare_records add_file_meta_only
  prepare_records-stored facts [] h e =
      rw (meta-stored facts.rel_path facts.updated_at facts.hash h e) refl
  prepare_records-stored facts (c ∷ chunks) h e =
      any-append (is_stored col host path hash)
        (chunk_records col host facts 0 (c ∷ chunks)
          (embeddings col host (map (λ c. c.contextual_string) (c ∷ chunks))))
        (meta_record facts ∷ [])
      ∙ rw (meta-stored facts.rel_path facts.updated_at facts.hash h e) (or_true _)

  -- A result that would spoil what the store knows of the file: a bad record, or the file itself
  -- without its file record.
  abbrev pub is_spoilt : FileResult Vector → Bool
  is_spoilt r =
      any (is_bad col host path hash) r.records
      || (r.indexed
          && (text_eq r.rel_path path && not (any (is_stored col host path hash) r.records)))

  -- The result of a file indexed under this path.
  abbrev pub is_own : FileResult Vector → Bool
  is_own r = r.indexed && text_eq r.rel_path path

  or_and_none : (a b : Bool) → (b ≡ false) ⊎ (a ≡ true) → (b && not a) ≡ false
  or_and_none a b (inl e) = rw e refl
  or_and_none a b (inr e) = rw e (and_false b)

  own_case :
      (other k : Text) (chunks : List (Chunk F))
      → (text_eq (get_relative_path col host other) path && not (text_eq k hash)) ≡ false
      → (text_eq (get_relative_path col host other) path ≡ false)
        ⊎ (any
              (is_stored col host path hash)
              (prepare_records col host (file_facts col host other k) chunks)
            ≡ true)
  own_case other k chunks h = elim (Bool-cases (text_eq (get_relative_path col host other) path)) [
    | inl e ↦ inr (
        prepare_records-stored (file_facts col host other k) chunks e
          (settled_hash (text_eq (get_relative_path col host other) path) (text_eq k hash) e h))
    | inr e ↦ inl e
  ]

  chunked_result-spoilt :
      (other k : Text) (chunks : Option (List (Chunk F)))
      → (text_eq (get_relative_path col host other) path && not (text_eq k hash)) ≡ false
      → is_spoilt (chunked_result col host other k chunks) ≡ false
  unfolding chunked_result
  chunked_result-spoilt other k none h = refl
  chunked_result-spoilt other k (some chunks) h =
      or_none _ _ (prepare_records-bad (file_facts col host other k) chunks h) (
        or_and_none
          (any (is_stored col host path hash)
            (prepare_records col host (file_facts col host other k) chunks))
          (text_eq (get_relative_path col host other) path) (own_case other k chunks h))

  read_result-spoilt :
      (other k : Text) (content : Reply Text Text)
      → (text_eq (get_relative_path col host other) path && not (text_eq k hash)) ≡ false
      → is_spoilt (read_result col host other k content) ≡ false
  unfolding read_result
  read_result-spoilt other k (failed e) h = refl
  read_result-spoilt other k (ok text) h =
      chunked_result-spoilt other k (create_chunks text (get_relative_path col host other)) h

  -- A file's result does not spoil what is known of this path, unless it is of this path with
  -- another hash.
  pub process_file-spoilt :
      (other k : Text)
      → (text_eq (get_relative_path col host other) path && not (text_eq k hash)) ≡ false
      → is_spoilt (process_file col host other k) ≡ false
  unfolding process_file
  process_file-spoilt other k h = read_result-spoilt other k (read_file_content col host other) h

module _ (col : Collection) (host : Host col) where
  open col use {floats}
  open floats use {F}
  open host use {create_chunks}

  chunked_result-path :
      (path hash : Text) (chunks : Option (List (Chunk F)))
      → (chunked_result col host path hash chunks).indexed ≡ true
      → (chunked_result col host path hash chunks).rel_path ≡ get_relative_path col host path
  unfolding chunked_result
  chunked_result-path path hash none h = cc
  chunked_result-path path hash (some chunks) h = refl

  read_result-path :
      (path hash : Text) (content : Reply Text Text)
      → (read_result col host path hash content).indexed ≡ true
      → (read_result col host path hash content).rel_path ≡ get_relative_path col host path
  unfolding read_result
  read_result-path path hash (failed e) h = cc
  read_result-path path hash (ok text) h =
      chunked_result-path path hash (create_chunks text (get_relative_path col host path)) h

  -- An indexed result carries the relative path of its file.
  pub process_file-path :
      (path hash : Text)
      → (process_file col host path hash).indexed ≡ true
      → (process_file col host path hash).rel_path ≡ get_relative_path col host path
  unfolding process_file
  process_file-path path hash h = read_result-path path hash (read_file_content col host path) h

  chunked_result-err :
      (path hash : Text) (chunks : Option (List (Chunk F)))
      → (chunked_result col host path hash chunks).err ≡ []
  unfolding chunked_result
  chunked_result-err path hash none = refl
  chunked_result-err path hash (some chunks) = refl

  read_result-err :
      (path hash : Text) (content : Reply Text Text)
      → (read_result col host path hash content).indexed ≡ true
      → (read_result col host path hash content).err ≡ []
  unfolding read_result
  read_result-err path hash (failed e) h = cc
  read_result-err path hash (ok text) h =
      chunked_result-err path hash (create_chunks text (get_relative_path col host path))

  -- An indexed result has no error.
  pub process_file-err :
      (path hash : Text)
      → (process_file col host path hash).indexed ≡ true
      → (process_file col host path hash).err ≡ []
  unfolding process_file
  process_file-err path hash h = read_result-err path hash (read_file_content col host path) h
