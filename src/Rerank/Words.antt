-- ===== src/Rerank/Words.antt =====
-- internal/embedding/reranker.go: what `tokenize` cuts a text into.
use mathlib.Core.List.{flatten}
use vector_mcp_go.Base.{
  ◌≡◌, ◌≢◌, refl, sym, ap, ◌∙◌, false, not, List, [], ◌∷◌, ◌++◌, keep, All, All-append, append-nil,
  append_assoc, Bool-cases, inl, inr,
}
use vector_mcp_go.Base.Text.{Text}
use vector_mcp_go.Rerank.{is_blank, emit_word, words_from, words}

-- A word: bytes that are not blank, at least one of them.
abbrev pub IsWord : Text → Type 0
IsWord w = (w ≢ []) × All (λ c. is_blank c ≡ false) w

emit_word-IsWord : (w : Text) → All (λ c. is_blank c ≡ false) w → All IsWord (emit_word w)
unfolding emit_word
emit_word-IsWord [] h = tt
emit_word-IsWord (c ∷ w) h = ((cc, h), tt)

flatten-emit_word : (w : Text) → flatten (emit_word w) ≡ w
unfolding emit_word flatten
flatten-emit_word [] = refl
flatten-emit_word (c ∷ w) = append-nil (c ∷ w)

flatten_append : (xs ys : List Text) → flatten (xs ++ ys) ≡ flatten xs ++ flatten ys
unfolding flatten
flatten_append [] ys = refl
flatten_append (x ∷ xs) ys =
    rw (flatten_append xs ys) (sym (append_assoc x (flatten xs) (flatten ys)))

words_from-IsWord : (w s : Text) → All (λ c. is_blank c ≡ false) w → All IsWord (words_from w s)
unfolding words_from
words_from-IsWord w [] h = emit_word-IsWord w h
words_from-IsWord w (c ∷ s) h = elim (Bool-cases (is_blank c)) [
  | inl e ↦ rw e (
      All-append IsWord (emit_word w) (words_from [] s) (emit_word-IsWord w h)
        (words_from-IsWord [] s tt))
  | inr e ↦ rw e (
      words_from-IsWord (w ++ c ∷ []) s (All-append (λ d. is_blank d ≡ false) w (c ∷ []) h (e, tt)))
]

flatten-words_from : (w s : Text) → flatten (words_from w s) ≡ w ++ keep (λ c. not (is_blank c)) s
unfolding words_from
flatten-words_from w [] = flatten-emit_word w ∙ sym (append-nil w)
flatten-words_from w (c ∷ s) = elim (Bool-cases (is_blank c)) [
  | inl e ↦
      rw (e, flatten_append (emit_word w) (words_from [] s), flatten-emit_word w)
        (ap (◌++◌ w) (flatten-words_from [] s))
  | inr e ↦ rw e (
      flatten-words_from (w ++ c ∷ []) s ∙ append_assoc w (c ∷ []) (keep (λ d. not (is_blank d)) s))
]

-- `tokenize` cuts a text into words that are not empty and hold no blank, and keeps every byte that
-- is not blank, in order.
pub words_lem :
    (text : Text)
    → All IsWord (words text) × (flatten (words text) ≡ keep (λ c. not (is_blank c)) text)
unfolding words
words_lem text = (words_from-IsWord [] text tt, flatten-words_from [] text)
