-- ===== src/Resolver.antt =====
-- internal/indexer/resolver.go: the aliases and workspaces by which an import is resolved.
--
-- A text is its runes. The file system, JSON, path/filepath and `strings.TrimSpace` are parameters
-- (`Project`). The maps of aliases and workspaces are lists, gone through in their order.
pub mod Stripped
pub mod Resolved
mod Tests
use vector_mcp_go.Base.{
  ℕ, zero, suc, ◌+◌, ◌-◌, ◌%◌, Bool, true, false, ◌&&◌, ◌||◌, not, Option, none, some, List, [],
  ◌∷◌, ◌++◌, length, drop, ◌==◌, if◌then◌else◌,
}
use vector_mcp_go.Base.Maps.{find, put}
use vector_mcp_go.Base.Text.{Text, codes, text_eq, text_dec, has_prefix}

-- The flags of `stripJSONC`.
pub record Flags : Type 0 where
  pub in_string : Bool
  pub in_line_comment : Bool
  pub in_block_comment : Bool

abbrev pub in_code : Bool → Flags
in_code inside = record { in_string = inside; in_line_comment = false; in_block_comment = false }

abbrev pub in_line : Flags
in_line = record { in_string = false; in_line_comment = true; in_block_comment = false }

abbrev pub in_block : Flags
in_block = record { in_string = false; in_line_comment = false; in_block_comment = true }

-- The loop that counts the backslashes back from a rune, over the runes before it, last first.
unfoldable pub backslashes : Text → ℕ
backslashes [] = 0
backslashes (c ∷ before) = if c == b'\\' then suc (backslashes before) else 0

-- `inString` after a rune that is not in a comment.
unfoldable pub toggled : Text → Bool → ℕ → Bool
unfolding backslashes
toggled before inside c =
    if c == b'"' then (if backslashes before % 2 == 0 then not inside else inside) else inside

-- The loop of `stripJSONC`, with the runes that it has passed, last first.
unfoldable pub scan : Text → Flags → Text → Text
unfolding toggled backslashes
scan before f [] = []
scan before f (c ∷ []) =
    if f.in_line_comment
    then (if c == b'\n' then c ∷ [] else [])
    else if f.in_block_comment
    then []
    else c ∷ []
scan before f (c ∷ d ∷ s) =
    let inside = toggled before f.in_string c in
    let line_over = scan (c ∷ before) (record f { in_line_comment = false }) (d ∷ s) in
    let next = scan (c ∷ before) f (d ∷ s) in
    let block_over = scan (d ∷ c ∷ before) (record f { in_block_comment = false }) s in
    let line_begins =
      scan (d ∷ c ∷ before) (record f { in_string = inside; in_line_comment = true }) s in
    let block_begins =
      scan (d ∷ c ∷ before) (record f { in_string = inside; in_block_comment = true }) s in
    let kept = scan (c ∷ before) (record f { in_string = inside }) (d ∷ s) in
    if f.in_line_comment
    then (if c == b'\n' then c ∷ line_over else next)
    else if f.in_block_comment
    then (if c == b'*' && d == b'/' then block_over else next)
    else if not inside && (c == b'/' && d == b'/')
    then line_begins
    else if not inside && (c == b'/' && d == b'*')
    then block_begins
    else c ∷ kept

unfoldable pub strip_jsonc : Text → Text
unfolding scan
strip_jsonc input = scan [] (in_code false) input

-- `strings.TrimSuffix(s, "*")`
unfoldable pub trim_star : Text → Text
trim_star [] = []
trim_star (c ∷ []) = if c == b'*' then [] else c ∷ []
trim_star (c ∷ d ∷ s) = c ∷ trim_star (d ∷ s)

-- `strings.TrimPrefix(s, p)`
unfoldable pub trim_prefix : Text → Text → Text
trim_prefix p s = if has_prefix s p then drop (length p) s else s

-- `strings.Trim(s, "'\"")`, from the left and from the right.
unfoldable pub trim_quotes_left : Text → Text
trim_quotes_left [] = []
trim_quotes_left (c ∷ s) = if c == b'\'' || c == b'"' then trim_quotes_left s else c ∷ s

unfoldable pub trim_quotes_right : Text → Text
trim_quotes_right [] = []
trim_quotes_right (c ∷ s) = elim (trim_quotes_right s) [
  | [] ↦ if c == b'\'' || c == b'"' then [] else c ∷ []
  | d ∷ t ↦ c ∷ d ∷ t
]

-- `strings.Split(content, "\n")`
unfoldable pub split_lines : Text → List Text
split_lines [] = [] ∷ []
split_lines (c ∷ s) = elim (split_lines s) [
  | [] ↦ []
  | line ∷ lines ↦ if c == b'\n' then [] ∷ line ∷ lines else (c ∷ line) ∷ lines
]

pub record Project : Type 0 where
  pub read_file : Text → Option Text
  pub join : Text → Text → Text
  pub trim_space : Text → Text
  -- `compilerOptions.paths`: `none` where the text is not JSON.
  pub parse_paths : Text → Option (List (Text × List Text))
  pub parse_workspaces : Text → Option (List Text)
  -- The name in a package.json, empty where it has none.
  pub parse_name : Text → Option Text
  pub glob : Text → List Text
  -- `filepath.Rel(root, filepath.Dir(match))`, empty where it fails.
  pub rel_dir : Text → Text → Text

pub record WorkspaceResolver : Type 0 where
  pub project_root : Text
  pub path_aliases : List (Text × Text)
  pub workspaces : List (Text × Text)

module _ (project : Project) where
  open project use {
    read_file, join, trim_space, parse_paths, parse_workspaces, parse_name, glob, rel_dir,
  }

  -- The loop over the targets of the aliases.
  unfoldable pub add_aliases : List (Text × List Text) → List (Text × Text) → List (Text × Text)
  unfolding trim_star trim_prefix
  add_aliases [] aliases = aliases
  add_aliases ((alias, []) ∷ paths) aliases = add_aliases paths aliases
  add_aliases ((alias, target ∷ targets) ∷ paths) aliases =
      add_aliases paths
        (put text_dec (trim_star alias) (trim_prefix (codes "./") (trim_star target)) aliases)

  unfoldable pub parse_ts_config : WorkspaceResolver → WorkspaceResolver
  unfolding strip_jsonc add_aliases
  parse_ts_config r = elim (read_file (join r.project_root (codes "tsconfig.json"))) [
    | none ↦ r
    | some data_text ↦ elim (parse_paths (strip_jsonc data_text)) [
      | none ↦ r
      | some paths ↦ record r { path_aliases = add_aliases paths r.path_aliases }
    ]
  ]

  -- One match of `findNestedPackages`.
  add_package : Text → Text → List (Text × Text) → List (Text × Text)
  add_package root match workspaces = elim (read_file match) [
    | none ↦ workspaces
    | some text ↦ elim (parse_name text) [
      | none ↦ workspaces
      | some name ↦
          if text_eq name [] then workspaces else put text_dec name (rel_dir root match) workspaces
    ]
  ]

  add_packages : Text → List Text → List (Text × Text) → List (Text × Text)
  unfolding add_package
  add_packages root [] workspaces = workspaces
  add_packages root (match ∷ matches) workspaces =
      add_packages root matches (add_package root match workspaces)

  unfoldable pub find_nested_packages : Text → WorkspaceResolver → WorkspaceResolver
  unfolding add_packages
  find_nested_packages pattern_text r = record r {
    workspaces =
        add_packages r.project_root
          (glob (join (join r.project_root pattern_text) (codes "package.json"))) r.workspaces;
  }

  find_all : List Text → WorkspaceResolver → WorkspaceResolver
  unfolding find_nested_packages
  find_all [] r = r
  find_all (p ∷ ps) r = find_all ps (find_nested_packages p r)

  -- The patterns of pnpm-workspace.yaml: the items after the line of the packages.
  unfoldable pub pnpm_patterns : Bool → List Text → List Text
  unfolding trim_prefix trim_quotes_left trim_quotes_right
  pnpm_patterns in_packages [] = []
  pnpm_patterns in_packages (line ∷ lines) =
      let trimmed = trim_space line in
      let after = pnpm_patterns true lines in
      let rest = pnpm_patterns in_packages lines in
      if has_prefix trimmed (codes "packages:")
      then after
      else if in_packages && has_prefix trimmed (codes "- ")
      then trim_quotes_left (trim_quotes_right (trim_prefix (codes "- ") trimmed)) ∷ rest
      else rest

  pnpm_packages : WorkspaceResolver → WorkspaceResolver
  unfolding find_all pnpm_patterns split_lines
  pnpm_packages r = elim (read_file (join r.project_root (codes "pnpm-workspace.yaml"))) [
    | none ↦ r
    | some content ↦ find_all (pnpm_patterns false (split_lines content)) r
  ]

  json_packages : WorkspaceResolver → WorkspaceResolver
  unfolding find_all
  json_packages r = elim (read_file (join r.project_root (codes "package.json"))) [
    | none ↦ r
    | some content ↦ elim (parse_workspaces content) [
      | none ↦ r
      | some patterns ↦ find_all patterns r
    ]
  ]

  unfoldable pub parse_all_workspaces : WorkspaceResolver → WorkspaceResolver
  unfolding pnpm_packages json_packages
  parse_all_workspaces r = json_packages (pnpm_packages r)

  unfoldable pub init_resolver : Text → WorkspaceResolver
  unfolding parse_ts_config parse_all_workspaces
  init_resolver root =
      parse_all_workspaces
        (parse_ts_config (record { project_root = root; path_aliases = []; workspaces = [] }))

  unfoldable pub resolve_alias : Text → List (Text × Text) → Option Text
  unfolding trim_prefix
  resolve_alias path [] = none
  resolve_alias path ((alias, target) ∷ aliases) =
      let rest = resolve_alias path aliases in
      if has_prefix path alias then some (join target (trim_prefix alias path)) else rest

  unfoldable pub resolve_workspace : Text → List (Text × Text) → Option Text
  unfolding trim_prefix
  resolve_workspace path [] = none
  resolve_workspace path ((name, dir) ∷ workspaces) =
      let rest = resolve_workspace path workspaces in
      if text_eq path name
      then some dir
      else if has_prefix path (name ++ b'/' ∷ [])
      then some (join dir (trim_prefix (name ++ b'/' ∷ []) path))
      else rest

  unfoldable pub resolve : Text → WorkspaceResolver → Option Text
  unfolding resolve_alias resolve_workspace
  resolve path r = elim (resolve_alias path r.path_aliases) [
    | none ↦ resolve_workspace path r.workspaces
    | some found ↦ some found
  ]
