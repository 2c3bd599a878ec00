-- ===== src/Lexical/View.antt =====
-- The index as a table of term frequencies, and its invariant.
use vector_mcp_go.Base.{
  ℕ, ◌+◌, ◌≡◌, refl, sym, ap, ◌∙◌, false, Option, none, some, List, [], ◌∷◌, ◌++◌, ◌==◌,
  if◌then◌else◌, does, arith,
}
use vector_mcp_go.Base.Maps.{
  find, has, del, put, Distinct, find-del, find-put, find-none, Distinct-put,
}
use vector_mcp_go.Lexical.{or_else, posts, strip, count_terms, add_postings}

module _ {T : Type 0} (term : Discrete T) where
  -- How often a term occurs.
  unfoldable pub occurrences : T → List T → ℕ
  occurrences t [] = 0
  occurrences t (u ∷ us) = (if does (term u t) then 1 else 0) + occurrences t us

module _ {D T : Type 0} (doc : Discrete D) (term : Discrete T) where
  -- The frequency of a term in a document, as the postings give it.
  abbrev pub frequency : List (T × List (D × ℕ)) → T → D → Option ℕ
  frequency m t d = find doc d (posts doc term t m)

  has-strip :
      (t : T) (d : D) (m : List (T × List (D × ℕ)))
      → has term t m ≡ false
      → has term t (strip doc term d m) ≡ false
  unfolding strip
  has-strip t d [] h = refl
  has-strip t d ((u, ps) ∷ m) h = ground (arith, has-strip t d m)

  pub Distinct-strip :
      (d : D) (m : List (T × List (D × ℕ))) → Distinct term m → Distinct term (strip doc term d m)
  unfolding strip
  Distinct-strip d [] h = tt
  Distinct-strip d ((u, ps) ∷ m) h = ground (arith, Distinct-strip d m, has-strip u d m)

  strip-empty :
      (d : D) (u : T) (ps : List (D × ℕ)) (m : List (T × List (D × ℕ)))
      → del doc d ps ≡ []
      → strip doc term d ((u, ps) ∷ m) ≡ strip doc term d m
  unfolding strip
  strip-empty d u ps m e = rw (e, strip)

  strip-left :
      (d : D) (u : T) (ps : List (D × ℕ)) (m : List (T × List (D × ℕ))) (p : D × ℕ)
      (l : List (D × ℕ))
      → del doc d ps ≡ p ∷ l
      → strip doc term d ((u, ps) ∷ m) ≡ (u, p ∷ l) ∷ strip doc term d m
  unfolding strip
  strip-left d u ps m p l e = rw (e, strip)

  frequency-strip_cons :
      (d : D) (t : T) (q : D) (u : T) (ps l : List (D × ℕ)) (m : List (T × List (D × ℕ)))
      → has term u m ≡ false
      → del doc d ps ≡ l
      → frequency (strip doc term d m) t q ≡ (if does (doc d q) then none else frequency m t q)
      → frequency (strip doc term d ((u, ps) ∷ m)) t q
        ≡ (if does (doc d q) then none else frequency ((u, ps) ∷ m) t q)
  frequency-strip_cons d t q u ps [] m h e ih = elim (term u t) [
    | yes same ↦
        rw (strip-empty d u ps m e)
          (ih ∙ ground (arith, sym (find-del doc d q ps), ap (find doc q) e, find-none term t m))
    | no other ↦ rw (strip-empty d u ps m e) (ih ∙ ground arith)
  ]
  frequency-strip_cons d t q u ps (p ∷ l) m h e ih =
      rw (strip-left d u ps m p l e) (ground (arith, ih, find-del doc d q ps, ap (find doc q) e))

  -- To strip a document from the postings is to remove its frequencies, and no others.
  pub frequency-strip :
      (d : D) (t : T) (q : D) (m : List (T × List (D × ℕ)))
      → Distinct term m
      → frequency (strip doc term d m) t q ≡ (if does (doc d q) then none else frequency m t q)
  frequency-strip d t q [] h = unfold strip in ground arith
  frequency-strip d t q ((u, ps) ∷ m) h =
      frequency-strip_cons d t q u ps (del doc d ps) m h.0 refl (frequency-strip d t q m h.1)

  unfoldable pub plus : ℕ → Option ℕ → Option ℕ
  plus n o = if n == 0 then o else some (or_else o 0 + n)

  pub find-count_terms :
      (t : T) (tokens : List T) (tf : List (T × ℕ))
      → find term t (count_terms doc term tokens tf)
        ≡ plus (occurrences term t tokens) (find term t tf)
  unfolding count_terms plus occurrences
  find-count_terms t [] tf = refl
  find-count_terms t (u ∷ tokens) tf =
      find-count_terms t tokens (put term u (or_else (find term u tf) 0 + 1) tf)
      ∙ ground (arith, find-del term u t tf)

  pub Distinct-count_terms :
      (tokens : List T) (tf : List (T × ℕ))
      → Distinct term tf
      → Distinct term (count_terms doc term tokens tf)
  unfolding count_terms
  Distinct-count_terms [] tf h = h
  Distinct-count_terms (u ∷ tokens) tf h =
      Distinct-count_terms tokens (put term u (or_else (find term u tf) 0 + 1) tf)
        (Distinct-put term u (or_else (find term u tf) 0 + 1) tf h)

  pub Distinct-add_postings :
      (d : D) (tf : List (T × ℕ)) (m : List (T × List (D × ℕ)))
      → Distinct term m
      → Distinct term (add_postings doc term d tf m)
  unfolding add_postings
  Distinct-add_postings d [] m h = h
  Distinct-add_postings d ((t, c) ∷ tf) m h =
      Distinct-add_postings d tf (put term t (posts doc term t m ++ (d, c) ∷ []) m)
        (Distinct-put term t (posts doc term t m ++ (d, c) ∷ []) m h)

  find-append :
      (q d : D) (c : ℕ) (ps : List (D × ℕ))
      → find doc q (ps ++ (d, c) ∷ [])
        ≡ elim (find doc q ps) [ some k ↦ some k | none ↦ if does (doc d q) then some c else none ]
  find-append q d c [] = refl
  find-append q d c ((e, k) ∷ ps) = ground (arith, find-append q d c ps)

  -- The frequency that a document gets, where it had none.
  unfoldable pub given : D → D → Option ℕ → Option ℕ → Option ℕ
  given d q new old = elim old [ some k ↦ some k | none ↦ if does (doc d q) then new else none ]

  pub frequency-add_postings :
      (d : D) (t : T) (q : D) (tf : List (T × ℕ)) (m : List (T × List (D × ℕ)))
      → Distinct term tf
      → frequency (add_postings doc term d tf m) t q ≡ given d q (find term t tf) (frequency m t q)
  unfolding add_postings given
  frequency-add_postings d t q [] m h = ground arith
  frequency-add_postings d t q ((u, c) ∷ tf) m h =
      frequency-add_postings d t q tf (put term u (posts doc term u m ++ (d, c) ∷ []) m) h.1
      ∙ ground (
        arith,
        find-put term u t (posts doc term u m ++ (d, c) ∷ []) m,
        find-append q d c (posts doc term u m),
        find-none term t tf,
      )
