-- ===== src/Paths.antt =====
-- Go's path/filepath on Unix, as far as the program calls it: `Clean`, `Join`, `Abs`, `Rel`, `Ext`.
-- A path is its bytes. `Clean` is written over the elements of the path, by its four documented
-- rules; the standard library is not part of the repository.
pub mod Segments
pub mod Prefix
use vector_mcp_go.Base.{
  ℕ, zero, suc, Bool, true, false, ◌&&◌, ◌||◌, not, ◌≡◌, refl, Option, none, some, List, [], ◌∷◌,
  ◌++◌, map, ◌==◌, if◌then◌else◌, any,
}
use mathlib.Core.List.{reverse}
use mathlib.Core.Option
use vector_mcp_go.Base.Text.{Text, codes, text_eq, has_prefix}

abbrev pub separator : ℕ
separator = b'/'

abbrev pub dot : Text
dot = codes "."

abbrev pub dot_dot : Text
dot_dot = codes ".."

unfoldable pub is_abs : Text → Bool
is_abs [] = false
is_abs (c ∷ p) = c == separator

cons_head : ℕ → List Text → List Text
cons_head c [] = (c ∷ []) ∷ []
cons_head c (s ∷ ss) = (c ∷ s) ∷ ss

-- `strings.Split(p, "/")`
unfoldable pub split_path : Text → List Text
unfolding cons_head
split_path [] = [] ∷ []
split_path (c ∷ p) = if c == separator then [] ∷ split_path p else cons_head c (split_path p)

-- `strings.Join(ss, "/")`
unfoldable pub join_path : List Text → Text
join_path [] = []
join_path (s ∷ []) = s
join_path (s ∷ t ∷ ss) = s ++ separator ∷ join_path (t ∷ ss)

-- `..` removes the element before it; at the root it goes away, and else it stays.
unfoldable pub pop_element : Bool → List Text → List Text
pop_element true [] = []
pop_element false [] = dot_dot ∷ []
pop_element rooted (t ∷ stack) = if text_eq t dot_dot then dot_dot ∷ t ∷ stack else stack

unfoldable pub push_element : Bool → Text → List Text → List Text
unfolding pop_element
push_element rooted s stack =
    if text_eq s [] || text_eq s dot
    then stack
    else if text_eq s dot_dot
    then pop_element rooted stack
    else s ∷ stack

unfoldable pub resolve : Bool → List Text → List Text → List Text
unfolding push_element
resolve rooted stack [] = reverse stack
resolve rooted stack (s ∷ ss) = resolve rooted (push_element rooted s stack) ss

-- The elements of the cleaned path.
unfoldable pub segments : Text → List Text
unfolding resolve split_path is_abs
segments p = resolve (is_abs p) [] (split_path p)

unfoldable pub or_dot : Text → Text
or_dot [] = dot
or_dot (c ∷ p) = c ∷ p

-- `filepath.Clean`
unfoldable pub clean : Text → Text
clean p = if is_abs p then separator ∷ join_path (segments p) else or_dot (join_path (segments p))

-- `filepath.Join` of two elements
unfoldable pub join : Text → Text → Text
join [] [] = []
join [] (c ∷ q) = clean (c ∷ q)
join (c ∷ p) [] = clean (c ∷ p)
join (c ∷ p) (d ∷ q) = clean ((c ∷ p) ++ separator ∷ d ∷ q)

-- `filepath.Abs`, in the working directory `cwd`
unfoldable pub abs : Text → Text → Text
abs cwd p = if is_abs p then clean p else join cwd p

-- The rest of two lists of elements, behind what they begin with in common.
unfoldable pub strip_common : List Text → List Text → List Text × List Text
strip_common [] ts = ([], ts)
strip_common (b ∷ bs) [] = (b ∷ bs, [])
strip_common (b ∷ bs) (t ∷ ts) =
    let rest = strip_common bs ts in if text_eq b t then rest else (b ∷ bs, t ∷ ts)

unfoldable pub climb : List Text → List Text × List Text → Option (List Text)
climb [] ([], ts) = some ts
climb ups ([], ts) = some (ups ++ ts)
climb ups (b ∷ bs, ts) = if text_eq b dot_dot then none else climb (dot_dot ∷ ups) (bs, ts)

-- The elements of `filepath.Rel(base, targ)`; `none` stands for its error.
unfoldable pub rel_elements : Text → Text → Option (List Text)
rel_elements base targ =
    if is_abs base
    then (if is_abs targ then climb [] (strip_common (segments base) (segments targ)) else none)
    else (if is_abs targ then none else climb [] (strip_common (segments base) (segments targ)))

-- `filepath.Rel`
unfoldable pub rel : Text → Text → Option Text
rel base targ = Option.map (λ es. or_dot (join_path es)) (rel_elements base targ)

-- What a test has to see through.
unfoldable pub paths_code : Unit {0}
unfolding segments clean join abs rel rel_elements strip_common climb or_dot join_path
paths_code = tt

clean_dots : clean (codes "/a/./b//../c/") ≡ codes "/a/c"
unfolding paths_code
clean_dots = refl

rel_sibling : rel (codes "/a/b") (codes "/a/c/d") ≡ some (codes "../c/d")
unfolding paths_code
rel_sibling = refl
