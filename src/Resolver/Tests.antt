-- ===== src/Resolver/Tests.antt =====
-- internal/indexer/resolver.go at a text with comments and a project of two packages.
use vector_mcp_go.Base.{◌≡◌, refl, false, none, some, [], ◌∷◌, ◌++◌, if◌then◌else◌}
use vector_mcp_go.Base.Text.{Text, codes, text_eq}
use vector_mcp_go.Resolver.{
  Project, WorkspaceResolver, strip_jsonc, resolve, init_resolver, resolve_alias, resolve_workspace,
  scan, toggled, backslashes, trim_prefix,
}
use vector_mcp_go.Resolver.Stripped.{strip, out_of_comment, strip_jsonc-strip}
use vector_mcp_go.Resolver.Resolved.{Answers, resolve-Answers}

-- A line of JSON with two comments, one of them after a string with an escaped quote.
abbrev commented : Text
commented = codes "{\"a\\\"//b\": /* c */ 1} // d"

stripped : strip_jsonc commented ≡ codes "{\"a\\\"//b\":  1} "
unfolding strip_jsonc scan toggled backslashes
stripped = refl

strip_jsonc-strip_example : strip_jsonc commented ≡ strip (out_of_comment false false) commented
strip_jsonc-strip_example = strip_jsonc-strip commented

-- A project with the alias @/ of src/ and the package ui in packages/ui.
abbrev small_project : Project
small_project = record {
  read_file = λ path.
      if text_eq path (codes "/r/tsconfig.json")
      then some []
      else if text_eq path (codes "/r/package.json")
      then some []
      else if text_eq path (codes "/r/packages/ui/package.json")
      then some []
      else none;
  join = λ a b. a ++ codes "/" ++ b;
  trim_space = λ s. s;
  parse_paths = λ s. some ((codes "@/*", codes "./src/*" ∷ []) ∷ []);
  parse_workspaces = λ s. some (codes "packages/*" ∷ []);
  parse_name = λ s. some (codes "ui");
  glob = λ s. codes "/r/packages/ui/package.json" ∷ [];
  rel_dir = λ root match. codes "packages/ui";
}

abbrev small_resolver : WorkspaceResolver
small_resolver = record {
  project_root = codes "/r";
  path_aliases = (codes "@/", codes "src/") ∷ [];
  workspaces = (codes "ui", codes "packages/ui") ∷ [];
}

initialised : init_resolver small_project (codes "/r") ≡ small_resolver
unfolding init_resolver
initialised = refl

resolve-Answers_example :
    Answers small_project (codes "ui/button") small_resolver (some (codes "packages/ui/button"))
unfolding resolve resolve_alias resolve_workspace trim_prefix
resolve-Answers_example = resolve-Answers small_project (codes "ui/button") small_resolver
