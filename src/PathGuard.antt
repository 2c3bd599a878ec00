-- ===== src/PathGuard.antt =====
-- internal/security/pathguard/sanitizer.go: `Validator` and `SanitizeFilename`. A path is its bytes.
-- The file system and the working directory are parameters.
pub mod Within
pub mod Symlinks
pub mod Filename
mod Tests
use vector_mcp_go.Base.{
  ℕ, zero, suc, ◌+◌, Bool, true, false, ◌&&◌, ◌||◌, not, Option, none, some, List, [], ◌∷◌, ◌++◌,
  length, take, ltb, ◌==◌, if◌then◌else◌, ◌≡◌, refl,
}
use vector_mcp_go.Base.Text.{Text, codes, text_eq, has_prefix}
use vector_mcp_go.Paths.{separator, is_abs, split_path, clean, join, abs, rel, dot}
use vector_mcp_go.Paths.Prefix.{close}

pub data PathError : Type 0 where
  path_traversal symlink_denied path_too_deep invalid_path : PathError
  base_missing base_not_dir stat_failed rel_failed not_found : PathError

-- The pair of a value and an error that a function returns.
pub data Result (A : Type 0) : Type 0 where
  denied : PathError → Result A
  granted : A → Result A

-- Go on with the value, `if err != nil { return "", err }` before.
infixl 5 ◌>>=◌ ◌>>◌
abbrev pub ◌>>=◌ : {A B : Type 0} → Result A → (A → Result B) → Result B
denied error >>= next = denied error
granted value >>= next = next value

abbrev pub ◌>>◌ : {B : Type 0} → Result (Unit {0}) → Result B → Result B
denied error >> next = denied error
granted _ >> next = next

pub >>=-granted :
    {A B : Type 0} {b : B} (m : Result A) (next : A → Result B)
    → (m >>= next) ≡ granted b
    → (a : A) × (m ≡ granted a) × (next a ≡ granted b)
>>=-granted (denied error) next h = cc
>>=-granted (granted value) next h = (value, refl, h)

-- `os.Lstat`, as far as it is looked at.
pub data Lstat : Type 0 where
  symlink other missing failed : Lstat

-- `os.Stat`, as far as it is looked at.
pub data Stat : Type 0 where
  directory file absent : Stat

pub record FileSystem : Type 0 where
  pub cwd : Text
  pub lstat : Text → Lstat
  pub stat : Text → Stat
  pub eval_symlinks : Text → Option Text

pub record Options : Type 0 where
  pub allow_symlinks : Bool
  pub max_path_depth : ℕ
  pub allow_absolute : Bool

unfoldable pub default_options : Options
default_options = record { allow_symlinks = false; max_path_depth = 20; allow_absolute = true }

pub record Validator : Type 0 where
  pub base_path : Text
  pub options : Options

-- `isWithinBase`
unfoldable pub is_within_base : Validator → Text → Bool
is_within_base v path =
    if text_eq (clean path) (clean v.base_path)
    then true
    else has_prefix (close (clean path)) (close (clean v.base_path))

-- The parts that are not empty and not ".".
unfoldable pub count_parts : List Text → ℕ
count_parts [] = 0
count_parts (p ∷ ps) =
    let rest = count_parts ps in
    if not (text_eq p []) && not (text_eq p dot) then suc rest else rest

-- `checkDepth`
unfoldable pub check_depth : Validator → Text → Result (Unit {0})
unfolding count_parts
check_depth v path = elim (rel v.base_path path) [
  | none ↦ denied rel_failed
  | some r ↦
      if ltb v.options.max_path_depth (count_parts (split_path r))
      then denied path_too_deep
      else granted tt
]

-- `resolveToFullPath`
unfoldable pub resolve_to_full_path : Validator → Text → Result Text
resolve_to_full_path v target =
    let p = clean target in
    if is_abs p
    then (if not v.options.allow_absolute then denied path_traversal else granted p)
    else granted (join v.base_path p)

module _ (fs : FileSystem) where
  -- The loop of `checkSymlinks` over the parts, with `current`.
  unfoldable pub check_parts : Text → List Text → Result (Unit {0})
  check_parts current [] = granted tt
  check_parts current (part ∷ parts) =
      let skip = check_parts current parts in
      let current' = join current part in
      let rest = check_parts current' parts in
      if text_eq part []
      then skip
      else if text_eq current' []
      then rest
      else elim (fs.lstat current') [
        | Lstat.symlink ↦ denied symlink_denied
        | Lstat.other ↦ rest
        | Lstat.missing ↦ rest
        | Lstat.failed ↦ denied stat_failed
      ]

  -- `checkSymlinks`
  unfoldable pub check_symlinks : Text → Result (Unit {0})
  unfolding check_parts
  check_symlinks path = check_parts [] (split_path path)

  -- The path that the constraints are checked on.
  unfoldable pub evaluate : Text → Text
  evaluate full = elim (fs.eval_symlinks (abs fs.cwd full)) [ none ↦ abs fs.cwd full | some p ↦ p ]

  -- `checkSecurityConstraints`
  unfoldable pub check_security_constraints : Validator → Text → Result Text
  check_security_constraints v full =
      let evaluated = evaluate full in
      (if not v.options.allow_symlinks then check_symlinks full else granted tt)
      >> (if not (is_within_base v evaluated) then denied path_traversal else granted tt)
      >> (if ltb 0 v.options.max_path_depth then check_depth v evaluated else granted tt)
      >> granted evaluated

  -- `Validator.ValidatePath`
  unfoldable pub validate_path : Validator → Text → Result Text
  validate_path v target =
      if text_eq target []
      then denied invalid_path
      else do full ← resolve_to_full_path v target; check_security_constraints v full

  -- `NewValidator`
  unfoldable pub new_validator : Text → Options → Result Validator
  new_validator base_path opts =
      let base = abs fs.cwd base_path in
      elim (fs.stat base) [
        | Stat.absent ↦ denied base_missing
        | Stat.file ↦ denied base_not_dir
        | Stat.directory ↦ granted (record { base_path = base; options = opts })
      ]

  -- `ValidatePathExists`
  unfoldable pub validate_path_exists : Validator → Text → Result Text
  validate_path_exists v target = do
    resolved ← validate_path v target
    elim (fs.stat resolved) [ Stat.absent ↦ denied not_found | _ ↦ granted resolved ]

-- The function `ValidatePath`, and `IsSafePath`.
unfoldable pub validate_in : FileSystem → Text → Text → Result Text
validate_in fs base target = do v ← new_validator fs base default_options; validate_path fs v target

unfoldable pub is_safe_path : FileSystem → Text → Text → Bool
is_safe_path fs base target = elim (validate_in fs base target) [
  | granted r ↦ not (text_eq r [])
  | denied _ ↦ false
]

-- What a test has to see through.
unfoldable pub guard_code : Unit {0}
unfolding is_within_base count_parts check_depth resolve_to_full_path check_parts check_symlinks
    evaluate check_security_constraints
guard_code = tt
