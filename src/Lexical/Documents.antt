-- ===== src/Lexical/Documents.antt =====
-- What `Add` and `Remove` do to the table of term frequencies.
use vector_mcp_go.Base.{
  ℕ, ◌≡◌, refl, ◌∙◌, false, Option, none, some, List, [], ◌∷◌, length, ◌==◌, if◌then◌else◌, does,
  arith, Option-cases, inl, inr,
}
use vector_mcp_go.Base.Floats.{Floats}
use vector_mcp_go.Base.Maps.{
  find, has, Distinct, find-del, find-put, has-del, has-put, del-absent, length-del, Distinct-del,
  Distinct-put, has-of_find, has-none,
}
use vector_mcp_go.Lexical.{Index, count_terms, remove, add_tokens, add_document}
use vector_mcp_go.Lexical.View.{
  occurrences, frequency, frequency-strip, frequency-add_postings, find-count_terms,
  Distinct-count_terms, Distinct-add_postings, Distinct-strip, plus, given,
}

module _ (fl : Floats) {D T : Type 0} (doc : Discrete D) (term : Discrete T) where
  pub record IsValid (idx : Index fl.F D T) : Type 0 where
    pub distinct_postings : Distinct term idx.postings
    pub distinct_docs : Distinct doc idx.doc_len
    pub counted : idx.doc_count ≡ length idx.doc_len
    -- Only documents of the index are posted.
    pub posted :
        (t : T) (d : D) → has doc d idx.doc_len ≡ false → frequency doc term idx.postings t d ≡ none

  remove-frequency :
      (d q : D) (t : T) (idx : Index fl.F D T)
      → IsValid idx
      → frequency doc term (remove fl doc term d idx).postings t q
        ≡ (if does (doc d q) then none else frequency doc term idx.postings t q)
  unfolding remove
  remove-frequency d q t idx v = elim (Option-cases (find doc d idx.doc_len)) [
    | inl e ↦ rw (e, remove) (absent e)
    | inr (n, e) ↦ rw (e, remove) (frequency-strip doc term d t q idx.postings v.distinct_postings)
  ]
    where
      absent :
          find doc d idx.doc_len ≡ none
          → frequency doc term idx.postings t q
            ≡ (if does (doc d q) then none else frequency doc term idx.postings t q)
      absent e =
          elim (doc d q)
            as (λ x.
              frequency doc term idx.postings t q
              ≡ (if does x then none else frequency doc term idx.postings t q)) [
                | yes same ↦ rw (← same) (v.posted t d (has-none doc d idx.doc_len e))
                | no other ↦ refl
              ]

  pub remove-doc_len :
      (d q : D) (idx : Index fl.F D T)
      → find doc q (remove fl doc term d idx).doc_len
        ≡ (if does (doc d q) then none else find doc q idx.doc_len)
  unfolding remove
  remove-doc_len d q idx = elim (Option-cases (find doc d idx.doc_len)) [
    | inl e ↦ rw (e, remove) (ground arith)
    | inr (n, e) ↦ rw (e, remove) (find-del doc d q idx.doc_len)
  ]

  remove-IsValid : (d : D) (idx : Index fl.F D T) → IsValid idx → IsValid (remove fl doc term d idx)
  unfolding remove
  remove-IsValid d idx v = elim (Option-cases (find doc d idx.doc_len)) [
    | inl e ↦ rw (e, remove) v
    | inr (n, e) ↦
        rw (e, remove)
          (record {
            distinct_postings = Distinct-strip doc term d idx.postings v.distinct_postings;
            distinct_docs = Distinct-del doc d idx.doc_len v.distinct_docs;
            counted = ground (
              arith,
              v.counted,
              length-del doc d idx.doc_len v.distinct_docs,
              has-of_find doc d idx.doc_len n,
            );
            posted = λ t q h.
                frequency-strip doc term d t q idx.postings v.distinct_postings
                ∙ ground (arith, v.posted t q, has-del doc d q idx.doc_len);
          })
  ]

  -- On a valid index, `Remove` keeps the invariant, and takes exactly the document's own
  -- frequencies and length away.
  pub remove_lem :
      (d q : D) (t : T) (idx : Index fl.F D T)
      → IsValid idx
      → IsValid (remove fl doc term d idx)
        × (frequency doc term (remove fl doc term d idx).postings t q
            ≡ (if does (doc d q) then none else frequency doc term idx.postings t q))
        × (find doc q (remove fl doc term d idx).doc_len
            ≡ (if does (doc d q) then none else find doc q idx.doc_len))
  remove_lem d q t idx v =
      (remove-IsValid d idx v, remove-frequency d q t idx v, remove-doc_len d q idx)

  -- A frequency as the postings hold it: none where the term does not occur.
  abbrev pub positive : ℕ → Option ℕ
  positive n = if n == 0 then none else some n

  add_tokens-frequency :
      (d q : D) (t : T) (tokens : List T) (idx : Index fl.F D T)
      → frequency doc term idx.postings t d ≡ none
      → frequency doc term (add_tokens fl doc term d tokens idx).postings t q ≡ (
          if does (doc d q)
          then positive (occurrences term t tokens)
          else frequency doc term idx.postings t q)
  unfolding add_tokens
  add_tokens-frequency d q t tokens idx h =
      frequency-add_postings doc term d t q (count_terms doc term tokens []) idx.postings
        (Distinct-count_terms doc term tokens [] tt)
      ∙ unfold given plus in ground (arith, find-count_terms doc term t tokens [], h)

  -- After `Add` with tokens to a valid index the document is posted under each term as often as the
  -- term occurs in the tokens, whatever was posted for it before; its length is recorded, and every
  -- other document is as it was.
  pub add_document_lem :
      (d q : D) (t u : T) (tokens : List T) (idx : Index fl.F D T)
      → IsValid idx
      → (frequency doc term (add_document fl doc term d (u ∷ tokens) idx).postings t q ≡ (
          if does (doc d q)
          then positive (occurrences term t (u ∷ tokens))
          else frequency doc term idx.postings t q))
        × (find doc q (add_document fl doc term d (u ∷ tokens) idx).doc_len
            ≡ (if does (doc d q) then some (length (u ∷ tokens)) else find doc q idx.doc_len))
  unfolding add_document
  add_document_lem d q t u tokens idx v = (
    add_tokens-frequency d q t (u ∷ tokens) (remove fl doc term d idx)
          (remove-frequency d d t idx v ∙ ground arith)
        ∙ ground (arith, remove-frequency d q t idx v),
    unfold add_tokens in
        find-put doc d q (length (u ∷ tokens)) (remove fl doc term d idx).doc_len
        ∙ ground (arith, remove-doc_len d q idx),
  )

  add_tokens-IsValid :
      (d : D) (tokens : List T) (idx : Index fl.F D T)
      → IsValid idx
      → has doc d idx.doc_len ≡ false
      → IsValid (add_tokens fl doc term d tokens idx)
  add_tokens-IsValid d tokens idx v h =
      unfold add_tokens in
      record {
        distinct_postings =
            Distinct-add_postings doc term d (count_terms doc term tokens []) idx.postings
              v.distinct_postings;
        distinct_docs = Distinct-put doc d (length tokens) idx.doc_len v.distinct_docs;
        counted = ground (arith, v.counted, del-absent doc d idx.doc_len h);
        posted = λ t q k.
            unfold add_tokens in
            add_tokens-frequency d q t tokens idx (v.posted t d h)
            ∙ ground (arith, v.posted t q, has-put doc d q (length tokens) idx.doc_len);
      }

  -- On a valid index, `Add` keeps the invariant: no term and no document is recorded twice, the
  -- count is the number of recorded lengths, and only recorded documents are posted.
  pub add_document-IsValid :
      (d : D) (tokens : List T) (idx : Index fl.F D T)
      → IsValid idx
      → IsValid (add_document fl doc term d tokens idx)
  unfolding add_document
  add_document-IsValid d [] idx v = v
  add_document-IsValid d (u ∷ tokens) idx v =
      add_tokens-IsValid d (u ∷ tokens) (remove fl doc term d idx) (remove-IsValid d idx v)
        (has-none doc d (remove fl doc term d idx).doc_len (remove-doc_len d d idx ∙ ground arith))
