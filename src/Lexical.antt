-- ===== src/Lexical.antt =====
-- internal/db/lexical/bm25.go: the BM25 inverted index.
--
-- Terms and document names are of any types with decidable equality; Go has strings for both. The
-- maps are association lists, the float operations a parameter, and each operation is one step
-- under the lock. `Add` and `Search` take the tokens that `tokenize` (Lexical/Tokens) makes.
pub mod View
pub mod Documents
pub mod Top
pub mod Tokens
mod Tests
use vector_mcp_go.Base.{
  ℕ, zero, suc, ◌+◌, ◌-◌, Bool, true, false, Option, none, some, List, [], ◌∷◌, ◌++◌, map, length,
  take, get_or, set, ltb, ◌==◌, if◌then◌else◌,
}
use vector_mcp_go.Base.Floats.{Floats}
use vector_mcp_go.Base.Int.{ℤ, pos, negsuc}
use vector_mcp_go.Base.Maps.{find, has, del, put}

pub record Index (F D T : Type 0) : Type 0 where
  pub postings : List (T × List (D × ℕ))
  pub doc_len : List (D × ℕ)
  pub doc_count : ℕ
  pub avg_len : F

abbrev pub or_else {ℓ} : {A : Type ℓ} → Option A → A → A
or_else none d = d
or_else (some a) d = a

module _ {D T : Type 0} (doc : Discrete D) (term : Discrete T) where
  -- `idx.postings[t]`, which is empty where it is missing.
  abbrev pub posts : T → List (T × List (D × ℕ)) → List (D × ℕ)
  posts t m = or_else (find term t m) []

  -- The loop of `removeLocked` over the postings.
  unfoldable pub strip : D → List (T × List (D × ℕ)) → List (T × List (D × ℕ))
  strip d [] = []
  strip d ((t, ps) ∷ m) =
      let rest = strip d m in
      elim (del doc d ps) [ [] ↦ rest | p ∷ filtered ↦ (t, p ∷ filtered) ∷ rest ]

  -- `for _, t := range tokens { tf[t]++ }`
  unfoldable pub count_terms : List T → List (T × ℕ) → List (T × ℕ)
  count_terms [] tf = tf
  count_terms (t ∷ tokens) tf = count_terms tokens (put term t (or_else (find term t tf) 0 + 1) tf)

  -- `for term, count := range tf { idx.postings[term] = append(…) }`
  unfoldable pub add_postings : D → List (T × ℕ) → List (T × List (D × ℕ)) → List (T × List (D × ℕ))
  add_postings d [] m = m
  add_postings d ((t, count) ∷ tf) m =
      add_postings d tf (put term t (posts t m ++ (d, count) ∷ []) m)

module _ (fl : Floats) {D T : Type 0} (doc : Discrete D) (term : Discrete T) where
  open fl use {F, of_int, add, sub, mul, div, log, hundredths, less}

  -- `NewIndex`
  unfoldable pub new_index : Index F D T
  new_index = record { postings = []; doc_len = []; doc_count = 0; avg_len = of_int 0 }

  -- `removeLocked`; the lock is held by the callers `Add` and `Remove`.
  unfoldable pub remove : D → Index F D T → Index F D T
  remove d idx = elim (find doc d idx.doc_len) [
    | none ↦ idx
    | some old_len ↦
        let count = idx.doc_count - 1 in
        let total = sub (mul idx.avg_len (of_int (count + 1))) (of_int old_len) in
        record {
          postings = strip doc term d idx.postings;
          doc_len = del doc d idx.doc_len;
          doc_count = count;
          avg_len = if ltb 0 count then div total (of_int count) else of_int 0;
        }
  ]

  unfoldable pub add_tokens : D → List T → Index F D T → Index F D T
  add_tokens d tokens idx =
      let count = idx.doc_count + 1 in
      let total = mul idx.avg_len (of_int (count - 1)) in
      record {
        postings = add_postings doc term d (count_terms doc term tokens []) idx.postings;
        doc_len = put doc d (length tokens) idx.doc_len;
        doc_count = count;
        avg_len = div (add total (of_int (length tokens))) (of_int count);
      }

  -- `Add`
  unfoldable pub add_document : D → List T → Index F D T → Index F D T
  add_document d [] idx = idx
  add_document d (t ∷ tokens) idx = add_tokens d (t ∷ tokens) (remove d idx)

  -- `Size`
  abbrev pub size : Index F D T → ℕ
  size idx = idx.doc_count

  -- The scores of one term's postings, added up by document.
  unfoldable pub score_posts : F → F → List (D × ℕ) → List (D × ℕ) → List (D × F) → List (D × F)
  score_posts idf avg doc_len [] scores = scores
  score_posts idf avg doc_len ((d, n) ∷ ps) scores =
      let dl = of_int (or_else (find doc d doc_len) 0) in
      let tf = of_int n in
      let spread = add (sub (hundredths 100) (hundredths 75)) (div (mul (hundredths 75) dl) avg) in
      let norm =
        div (mul tf (add (hundredths 120) (hundredths 100)))
          (add tf (mul (hundredths 120) spread)) in
      let total = add (or_else (find doc d scores) (of_int 0)) (mul idf norm) in
      score_posts idf avg doc_len ps (put doc d total scores)

  inverse_frequency : ℕ → ℕ → F
  inverse_frequency count df = log (
      add
        (div (add (sub (of_int count) (of_int df)) (hundredths 50))
          (add (of_int df) (hundredths 50)))
        (of_int 1))

  -- The loop of `Search` over the query's terms.
  unfoldable pub score_terms : Index F D T → List T → List (D × F) → List (D × F)
  unfolding score_posts inverse_frequency
  score_terms idx [] scores = scores
  score_terms idx (t ∷ terms) scores = score_terms idx terms (elim (find term t idx.postings) [
    | none ↦ scores
    | some ps ↦
        score_posts (inverse_frequency idx.doc_count (length ps)) idx.avg_len idx.doc_len ps scores
  ])

module _ (fl : Floats) {D : Type 0} where
  open fl use {F, less}

  -- The inner loop of `partialSort`: the greatest score from here on, and its index.
  unfoldable pub max_from : D × F → ℕ → ℕ → List (D × F) → (D × F) × ℕ
  max_from best max_idx j [] = (best, max_idx)
  max_from best max_idx j (r ∷ rs) =
      max_from (if less best.1 r.1 then r else best) (if less best.1 r.1 then j else max_idx)
        (suc j) rs

  -- `results[i], results[maxIdx] = results[maxIdx], results[i]`, for the results from `i` on
  unfoldable pub swap_head : D × F → List (D × F) → ℕ → (D × F) × List (D × F)
  swap_head r rs zero = (r, rs)
  swap_head r rs (suc n) = (get_or rs n r, set rs n r)

  -- `partialSort`; `none` stands for its panic at an index out of range.
  abbrev pub after_top : D × F → Option (List (D × F)) → Option (List (D × F))
  after_top top none = none
  after_top top (some rest) = some (top ∷ rest)

  unfoldable pub partial_sort : ℕ → List (D × F) → Option (List (D × F))
  partial_sort zero results = some results
  partial_sort (suc k) [] = none
  partial_sort (suc k) (r ∷ rs) =
      let (top, rest) = swap_head r rs (max_from r 0 1 rs).1 in after_top top (partial_sort k rest)

-- `Search`, whose sort does not panic, since it asks for no more than there are results.
unfoldable pub search_index :
    (fl : Floats) {D T : Type 0}
    → Discrete D
    → Discrete T
    → Index fl.F D T
    → List T
    → ℤ
    → List (D × fl.F)
search_index fl doc term idx terms (negsuc n) = []
search_index fl doc term idx [] (pos n) = []
search_index fl doc term idx (t ∷ terms) (pos n) =
    if idx.doc_count == 0
    then []
    else (let results = score_terms fl doc term idx (t ∷ terms) [] in
        let k = if ltb (length results) n then length results else n in
        elim (partial_sort fl k results) [ none ↦ [] | some sorted ↦ take k sorted ])
