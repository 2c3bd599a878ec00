-- ===== src/PathGuard/Within.antt =====
-- What `ValidatePath` guarantees of the path that it returns.
use vector_mcp_go.Base.{
  ℕ, zero, suc, ◌≤◌, ◌<◌, true, false, some, List, [], ◌∷◌, ◌++◌, if◌then◌else◌, ◌≡◌, ◌≢◌, refl, ap,
  ◌∙◌, arith, All, length, Bool-cases, Option-cases, ◌⊎◌, inl, inr, ltb,
}
use vector_mcp_go.Base.Text.{Text, text_eq, text_eq→eq, text_eq_refl, has_prefix, Lacks}
use vector_mcp_go.Paths.{
  separator, dot, dot_dot, is_abs, split_path, join_path, segments, clean, join, abs, rel,
  rel_elements, strip_common, climb, or_dot,
}
use vector_mcp_go.Paths.Prefix.{Extends, has_prefix-Extends, close, join_path-ne-nil}
use vector_mcp_go.Paths.Segments.{IsElement, segments-IsElement, segments-no_up}
use vector_mcp_go.PathGuard.{
  Result, granted, denied, path_too_deep, >>=-granted, FileSystem, Validator, is_within_base,
  count_parts, check_depth, resolve_to_full_path, evaluate, check_security_constraints,
  validate_path,
}

is_abs-join_path : (ss : List Text) → All IsElement ss → is_abs (or_dot (join_path ss)) ≡ false
unfolding is_abs or_dot join_path
is_abs-join_path [] h = refl
is_abs-join_path ([] ∷ ss) h = absurd (h.0.0 refl)
is_abs-join_path ((c ∷ s) ∷ []) h = ground arith
is_abs-join_path ((c ∷ s) ∷ t ∷ ss) h = ground arith

-- To clean a path does not change whether it is absolute.
pub is_abs-clean : (p : Text) → is_abs (clean p) ≡ is_abs p
unfolding clean
is_abs-clean p = elim (Bool-cases (is_abs p)) [
  | inl e ↦ rw e (unfold is_abs in refl)
  | inr e ↦ rw e (is_abs-join_path (segments p) (segments-IsElement p))
]

is_abs-join : (a b : Text) → is_abs a ≡ true → is_abs (join a b) ≡ true
unfolding join
is_abs-join [] b h = absurd (unfold is_abs in ground arith)
is_abs-join (c ∷ a) [] h = is_abs-clean (c ∷ a) ∙ h
is_abs-join (c ∷ a) (d ∷ b) h = is_abs-clean _ ∙ unfold is_abs in h

has_prefix_refl : (s : Text) → has_prefix s s ≡ true
has_prefix_refl [] = refl
has_prefix_refl (c ∷ s) = ground (arith, has_prefix_refl s)

-- A path passes `isWithinBase` only if its elements begin with those of the base.
pub is_within_base-Extends :
    (v : Validator) (p : Text)
    → is_abs v.base_path ≡ true
    → is_abs p ≡ true
    → is_within_base v p ≡ true
    → Extends (segments p) (segments v.base_path)
unfolding is_within_base
is_within_base-Extends v p hb hp h = elim (Bool-cases (text_eq (clean p) (clean v.base_path))) [
  | inl e ↦ (has_prefix-Extends p v.base_path hp hb).0 (
      rw (text_eq→eq (clean p) (clean v.base_path) e) (has_prefix_refl (close (clean v.base_path))))
  | inr e ↦ (has_prefix-Extends p v.base_path hp hb).0 (ground arith)
]

split-append : (s t : Text) → Lacks separator s → split_path (s ++ separator ∷ t) ≡ s ∷ split_path t
unfolding split_path
split-append [] t h = ground arith
split-append (c ∷ s) t h = ground (arith, split-append s t h.1)

split-element : (s : Text) → Lacks separator s → split_path s ≡ s ∷ []
unfolding split_path
split-element [] h = refl
split-element (c ∷ s) h = ground (arith, split-element s h.1)

count-join_path :
    (s : Text) (ss : List Text)
    → IsElement s
    → All IsElement ss
    → count_parts (split_path (join_path (s ∷ ss))) ≡ length (s ∷ ss)
unfolding join_path count_parts
count-join_path s [] h hs =
    rw (split-element s h.1) (ground (arith, text_eq→eq s [], text_eq→eq s dot))
count-join_path s (t ∷ ss) h hs =
    rw (split-append s (join_path (t ∷ ss)) h.1)
      (ground (arith, text_eq→eq s [], text_eq→eq s dot, count-join_path t ss hs.0 hs.1))

strip_common-append : (bs rest : List Text) → strip_common bs (bs ++ rest) ≡ ([], rest)
unfolding strip_common
strip_common-append [] rest = refl
strip_common-append (b ∷ bs) rest = rw (text_eq_refl b, strip_common-append bs rest)

or_dot-ne-nil : (t : Text) → t ≢ [] → or_dot t ≡ t
unfolding or_dot
or_dot-ne-nil [] h = absurd (h refl)
or_dot-ne-nil (c ∷ t) h = refl

count-or_dot :
    (ss : List Text)
    → All IsElement ss
    → count_parts (split_path (or_dot (join_path ss))) ≡ length ss
count-or_dot [] h = unfold or_dot join_path split_path count_parts in refl
count-or_dot (s ∷ ss) h =
    ap (λ t. count_parts (split_path t))
      (or_dot-ne-nil (join_path (s ∷ ss)) (join_path-ne-nil s ss h.0.0))
    ∙ count-join_path s ss h.0 h.1

All-rest : (bs rest : List Text) → All IsElement (bs ++ rest) → All IsElement rest
All-rest [] rest h = h
All-rest (b ∷ bs) rest h = All-rest bs rest h.1

-- Below the base, `checkDepth` compares the number of elements under it with the limit.
check_depth-le :
    (v : Validator) (p : Text) (rest : List Text)
    → is_abs v.base_path ≡ true
    → is_abs p ≡ true
    → segments p ≡ segments v.base_path ++ rest
    → check_depth v p ≡ granted tt
    → length rest ≤ v.options.max_path_depth
unfolding check_depth
check_depth-le v p rest hb hp e h =
    within v.options.max_path_depth (length rest) (rw (found, check_depth, count) at h)
  where
    within :
        (m n : ℕ)
        → ◌≡◌ {A = Result (Unit {0})}
            (if ltb m n then denied path_too_deep else granted tt)
            (granted tt)
        → n ≤ m
    within m n h = ground arith

    found : rel v.base_path p ≡ some (or_dot (join_path rest))
    found = unfold rel rel_elements climb in rw (hb, hp, e, strip_common-append)

    count : count_parts (split_path (or_dot (join_path rest))) ≡ length rest
    count =
        count-or_dot rest (All-rest (segments v.base_path) rest (rw e at (segments-IsElement p)))

evaluate-is_abs :
    (fs : FileSystem) (full : Text)
    → is_abs full ≡ true
    → ((p q : Text) → is_abs p ≡ true → fs.eval_symlinks p ≡ some q → is_abs q ≡ true)
    → is_abs (evaluate fs full) ≡ true
unfolding evaluate
evaluate-is_abs fs full h stays = elim (Option-cases (fs.eval_symlinks (abs fs.cwd full))) [
  | inl e ↦ rw (e, evaluate) here
  | inr (q, e) ↦ rw (e, evaluate) (stays (abs fs.cwd full) q here e)
]
  where
    here : is_abs (abs fs.cwd full) ≡ true
    here = unfold abs in rw h (is_abs-clean full ∙ h)

resolve-is_abs :
    (v : Validator) (target full : Text)
    → is_abs v.base_path ≡ true
    → resolve_to_full_path v target ≡ granted full
    → is_abs full ≡ true
unfolding resolve_to_full_path
resolve-is_abs v target full hb h = ground (arith, is_abs-join v.base_path (clean target))

-- The tests that a returned path has passed.
constraints-passed :
    (fs : FileSystem) (v : Validator) (full r : Text)
    → check_security_constraints fs v full ≡ granted r
    → (r ≡ evaluate fs full)
      × (is_within_base v r ≡ true)
      × (0 < v.options.max_path_depth → check_depth v r ≡ granted tt)
unfolding check_security_constraints
constraints-passed fs v full r h = ground arith

limit-cases : (n : ℕ) {k : ℕ} → (0 < n → k ≤ n) → (n ≡ 0) ⊎ (k ≤ n)
limit-cases zero h = inl refl
limit-cases (suc n) h = inr (h (omega arith))

-- What `ValidatePath` returns lies within the base directory: it is absolute, its elements are
-- those of the base and then others, no `..` is left among them, and there are at most as many
-- under the base as the limit on the depth allows, if one is set. The base is absolute, as
-- `NewValidator` makes it, and resolving symbolic links keeps an absolute path absolute.
pub validate_path-within :
    (fs : FileSystem) (v : Validator) (target r : Text)
    → is_abs v.base_path ≡ true
    → ((p q : Text) → is_abs p ≡ true → fs.eval_symlinks p ≡ some q → is_abs q ≡ true)
    → validate_path fs v target ≡ granted r
    → (is_abs r ≡ true)
      × ((rest : List Text) × (segments r ≡ segments v.base_path ++ rest)
          × ((v.options.max_path_depth ≡ 0) ⊎ (length rest ≤ v.options.max_path_depth)))
      × All (λ s. s ≢ dot_dot) (segments r)
unfolding validate_path
validate_path-within fs v [] r hb stays h = absurd (ground arith)
validate_path-within fs v (c ∷ target) r hb stays h =
    let (full, e, h') =
      >>=-granted (resolve_to_full_path v (c ∷ target)) (check_security_constraints fs v) h in
    let (same, inside, deep) = constraints-passed fs v full r h' in
    let abs_r : is_abs r ≡ true =
      rw same (evaluate-is_abs fs full (resolve-is_abs v (c ∷ target) full hb e) stays) in
    let (rest, eq) = is_within_base-Extends v r hb abs_r inside in
    (
      abs_r,
      (
        rest,
        eq,
        limit-cases v.options.max_path_depth (λ p. check_depth-le v r rest hb abs_r eq (deep p)),
      ),
      segments-no_up r abs_r,
    )
