-- ===== src/Lexical/Tests.antt =====
-- Runs of internal/db/lexical/bm25.go, with natural numbers for the floats and for the terms.
use mathlib.Core.List.{flatten}
use vector_mcp_go.Base.{
  ℕ, ◌+◌, ◌≡◌, refl, ◌&&◌, ◌||◌, some, List, [], ◌∷◌, leb, arith, if◌then◌else◌, ℕ_discrete,
}
use vector_mcp_go.Base.Floats.{naturals, naturals-IsOrder}
use vector_mcp_go.Base.Maps.{find}
use vector_mcp_go.Base.Text.{codes}
use vector_mcp_go.Lexical.{Index, add_document, partial_sort, swap_head, max_from}
use vector_mcp_go.Lexical.View.{frequency, occurrences}
use vector_mcp_go.Lexical.Documents.{IsValid, positive, add_document_lem, add_document-IsValid}
use vector_mcp_go.Lexical.Top.{TopSorted, partial_sort-TopFirst}
use vector_mcp_go.Lexical.Tokens.{
  Unicode, tokens_code, split_identifier, split_identifier-letters, letters,
}

-- Document 1 has the term 7 twice and the term 8 once; document 2 has the term 7 once.
abbrev two_documents : Index ℕ ℕ ℕ
two_documents = record {
  postings = (7, (1, 2) ∷ (2, 1) ∷ []) ∷ (8, (1, 1) ∷ []) ∷ [];
  doc_len = (1, 3) ∷ (2, 1) ∷ [];
  doc_count = 2;
  avg_len = 2;
}

two_documents-IsValid : IsValid naturals ℕ_discrete ℕ_discrete two_documents
unfolding ℕ_discrete
two_documents-IsValid = record {
  distinct_postings = (refl, (refl, tt));
  distinct_docs = (refl, (refl, tt));
  counted = refl;
  posted = λ t d h. ground arith;
}

add_document_lem_example :
    (frequency ℕ_discrete ℕ_discrete
        (add_document naturals ℕ_discrete ℕ_discrete 2 (8 ∷ 8 ∷ []) two_documents).postings
        8
        2
      ≡ positive naturals ℕ_discrete ℕ_discrete (occurrences ℕ_discrete 8 (8 ∷ 8 ∷ [])))
    × (find ℕ_discrete 2
          (add_document naturals ℕ_discrete ℕ_discrete 2 (8 ∷ 8 ∷ []) two_documents).doc_len
        ≡ some 2)
unfolding ℕ_discrete
add_document_lem_example =
    add_document_lem naturals ℕ_discrete ℕ_discrete 2 2 8 8 (8 ∷ []) two_documents
      two_documents-IsValid

add_document-IsValid_example :
    IsValid naturals ℕ_discrete ℕ_discrete
      (add_document naturals ℕ_discrete ℕ_discrete 2 (8 ∷ 8 ∷ []) two_documents)
add_document-IsValid_example =
    add_document-IsValid naturals ℕ_discrete ℕ_discrete 2 (8 ∷ 8 ∷ []) two_documents
      two_documents-IsValid

abbrev scored : List (ℕ × ℕ)
scored = (1, 5) ∷ (2, 9) ∷ (3, 7) ∷ []

best_two : partial_sort naturals 2 scored ≡ some ((2, 9) ∷ (3, 7) ∷ (1, 5) ∷ [])
unfolding partial_sort swap_head max_from
best_two = refl

partial_sort-TopFirst_example :
    TopSorted naturals naturals-IsOrder 2 scored (partial_sort naturals 2 scored)
partial_sort-TopFirst_example = partial_sort-TopFirst naturals naturals-IsOrder 2 scored

abbrev ascii : Unicode
ascii = record {
  is_letter = λ r. (leb b'a' r && leb r b'z') || (leb b'A' r && leb r b'Z');
  is_digit = λ r. leb b'0' r && leb r b'9';
  is_lower = λ r. leb b'a' r && leb r b'z';
  is_upper = λ r. leb b'A' r && leb r b'Z';
  to_lower = λ r. if leb b'A' r && leb r b'Z' then r + 32 else r;
}

splits_identifier :
    split_identifier ascii (codes "parseJSONFile2")
    ≡ codes "parse" ∷ codes "JSON" ∷ codes "File" ∷ codes "2" ∷ []
unfolding split_identifier tokens_code
splits_identifier = refl

split_identifier-letters_example :
    flatten (split_identifier ascii (codes "_maxHTTP_size2")) ≡ letters (codes "_maxHTTP_size2")
split_identifier-letters_example = split_identifier-letters ascii (codes "_maxHTTP_size2")
