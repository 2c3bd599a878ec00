-- ===== src/Store/Listed.antt =====
-- A collection that is a list of documents, at which the theorems on internal/db/store.go and on its
-- clients run.
use vector_mcp_go.Base.{
  ℕ, ◌≡◌, refl, ap, Bool, ◌&&◌, ◌||◌, not, none, List, [], ◌∷◌, map, length, length-map, take, any,
  keep, ltb, leb, if◌then◌else◌, arith,
}
use vector_mcp_go.Base.Floats.{naturals}
use vector_mcp_go.Store.Search.{IsSort}
use vector_mcp_go.Store.{
  Document, Record, ok, failed, document, Collection, matches, write, IsCollection,
}

abbrev pub found_as : Document ℕ → Record ℕ ℕ
found_as d = record {
  id = d.id;
  content = d.content;
  embedding = d.embedding;
  metadata = d.metadata;
  similarity = 1;
}

abbrev pub listed : Collection
listed = record {
  floats = naturals;
  Vector = ℕ;
  State = List (Document ℕ);
  Err = Unit {0};
  dummy = 0;
  nil_vector = 0;
  docs = λ s. s;
  count = λ s. length s;
  query = λ s e n filter.
      if ltb 0 n && leb n (length s)
      then ok (take n (map found_as (keep (matches filter) s)))
      else failed tt;
  add_documents = λ new s. (write new s, none);
  delete = λ filter s. (keep (λ d. not (matches filter d)) s, none);
  trim_space = λ s. s;
  parse_array = λ s. none;
  parse_float = λ s. none;
  tokens = λ s. s ∷ [];
  sort_records = λ rs. rs;
  sort_scored = λ rs. rs;
}

any-found_as :
    (p : Document ℕ → Bool) (ds : List (Document ℕ))
    → any p (map document (map found_as ds)) ≡ any p ds
any-found_as p [] = refl
any-found_as p (d ∷ ds) = ap (◌||◌ (p d)) (any-found_as p ds)

pub listed-IsCollection : IsCollection listed
listed-IsCollection = record {
  count-docs = λ s. refl;
  ranked = λ s e filter. map found_as (keep (matches filter) s);
  length-ranked = λ s e filter. length-map found_as (keep (matches filter) s);
  any-ranked = λ s e filter p. any-found_as p (keep (matches filter) s);
  query-ok = λ s e n filter h k. ground arith;
  docs-delete = λ filter s h. refl;
  delete-ok = λ filter s h. refl;
  docs-add = λ d s. refl;
  ordered = λ s ds. ds;
  any-ordered = λ s ds p. refl;
  docs-added = λ d ds s. refl;
  add-ok = λ d s. refl;
}

pub listed-IsSort : IsSort listed
listed-IsSort = record {
  length-sort = λ rs. refl;
  any-sort = λ p rs. refl;
  any-sort_scored = λ p rs. refl;
}
