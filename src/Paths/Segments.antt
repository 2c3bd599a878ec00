-- ===== src/Paths/Segments.antt =====
-- What the elements of a path are like.
use mathlib.Core.List.{reverse, reverse-append}
use vector_mcp_go.Base.{
  ℕ, Bool, true, false, List, [], ◌∷◌, ◌==◌, ◌≡◌, ◌≢◌, arith, All, All-append, ◌||◌, Bool-cases,
  inl, inr,
}
use vector_mcp_go.Base.Text.{Text, text_eq, text_eq→eq, text_eq_refl, Lacks}
use vector_mcp_go.Paths.{
  separator, dot, dot_dot, is_abs, split_path, push_element, pop_element, resolve, segments,
  cons_head,
}

-- An element of a cleaned path: not empty, without a separator, and not ".".
abbrev pub IsElement : Text → Type 0
IsElement s = (s ≢ []) × Lacks separator s × (s ≢ dot)

cons_head-Lacks :
    (c : ℕ) (ss : List Text)
    → c ≢ separator
    → All (Lacks separator) ss
    → All (Lacks separator) (cons_head c ss)
unfolding cons_head
cons_head-Lacks c [] h hs = ((h, tt), tt)
cons_head-Lacks c (s ∷ ss) h hs = ((h, hs.0), hs.1)

pub split_path-Lacks : (p : Text) → All (Lacks separator) (split_path p)
unfolding split_path
split_path-Lacks [] = (tt, tt)
split_path-Lacks (c ∷ p) = elim (Bool-cases (c == separator)) [
  | inl e ↦ rw e (tt, split_path-Lacks p)
  | inr e ↦ rw e (cons_head-Lacks c (split_path p) (ground arith) (split_path-Lacks p))
]

-- What holds of the elements that `Clean` keeps.
module _ {κ} (P : Text → Type κ) where
  All-reverse : (xs : List Text) → All P xs → All P (reverse xs)
  All-reverse [] h = h
  All-reverse (x ∷ xs) h =
      rw (reverse-append (x ∷ []) xs)
        (All-append P (reverse xs) (x ∷ []) (All-reverse xs h.1) (h.0, tt))

  module _ (rooted : Bool) (up : rooted ≡ false → P dot_dot) where
    All-pop : (stack : List Text) → All P stack → All P (pop_element rooted stack)
    unfolding pop_element
    All-pop [] h = elim (Bool-cases rooted) [
      | inl e ↦ rw (e, pop_element) tt
      | inr e ↦ rw (e, pop_element) (up e, tt)
    ]
    All-pop (t ∷ stack) h = elim (Bool-cases (text_eq t dot_dot)) [
      | inl e ↦ rw e (rw (text_eq→eq t dot_dot e) at h.0, h)
      | inr e ↦ rw e h.1
    ]

    module _ (keep : (s : Text) → Lacks separator s → s ≢ [] → s ≢ dot → s ≢ dot_dot → P s) where
      All-push :
          (s : Text) (stack : List Text)
          → Lacks separator s
          → All P stack
          → All P (push_element rooted s stack)
      unfolding push_element
      All-push s stack ls h = elim (Bool-cases (text_eq s [] || text_eq s dot)) [
        | inl e ↦ rw e h
        | inr e ↦ elim (Bool-cases (text_eq s dot_dot)) [
          | inl d ↦ rw (e, d) (All-pop stack h)
          | inr d ↦
              rw (e, d)
                (
                  keep s ls (ground (arith, text_eq_refl s)) (ground (arith, text_eq_refl s))
                      (ground (arith, text_eq_refl s)),
                  h,
                )
        ]
      ]

      All-resolve :
          (ss stack : List Text)
          → All (Lacks separator) ss
          → All P stack
          → All P (resolve rooted stack ss)
      unfolding resolve
      All-resolve [] stack hs h = All-reverse stack h
      All-resolve (s ∷ ss) stack hs h =
          All-resolve ss (push_element rooted s stack) hs.1 (All-push s stack hs.0 h)

pub segments-IsElement : (p : Text) → All IsElement (segments p)
unfolding segments
segments-IsElement p =
    All-resolve IsElement (is_abs p) (λ _. (cc, omega arith, cc)) (λ s l ne nd _. (ne, l, nd))
      (split_path p) [] (split_path-Lacks p) tt

-- A rooted path has no `..` left.
pub segments-no_up : (p : Text) → is_abs p ≡ true → All (λ s. s ≢ dot_dot) (segments p)
unfolding segments
segments-no_up p h =
    All-resolve (λ s. s ≢ dot_dot) (is_abs p) (λ e. cc) (λ s l ne nd nu. nu) (split_path p) []
      (split_path-Lacks p) tt
