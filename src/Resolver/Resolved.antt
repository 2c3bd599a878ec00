-- ===== src/Resolver/Resolved.antt =====
-- internal/indexer/resolver.go: what `Resolve` finds, whichever order the maps are gone through.
use vector_mcp_go.Base.{
  ◌≡◌, refl, true, false, Option, none, some, List, [], ◌∷◌, ◌++◌, All, Bool-cases, ◌⊎◌, inl, inr,
}
use vector_mcp_go.Base.Text.{Text, text_eq, text_eq→eq, has_prefix}
use vector_mcp_go.Resolver.{
  Project, WorkspaceResolver, trim_prefix, resolve_alias, resolve_workspace, resolve,
}

-- No alias begins the path.
abbrev pub NoAlias : Text → List (Text × Text) → Type 0
NoAlias path = All (λ a. has_prefix path a.0 ≡ false)

-- No workspace is the path or a directory that it begins with.
abbrev pub NoWorkspace : Text → List (Text × Text) → Type 0
NoWorkspace path =
    All (λ w. (text_eq path w.0 ≡ false) × (has_prefix path (w.0 ++ b'/' ∷ []) ≡ false))

module _ (project : Project) where
  -- Some alias begins the path, and its target with what is left of the path is `x`.
  abbrev pub ByAlias : Text → Text → List (Text × Text) → Type 0
  ByAlias path x [] = ⊥
  ByAlias path x ((alias, target) ∷ aliases) =
      ((has_prefix path alias ≡ true) × (x ≡ project.join target (trim_prefix alias path)))
      ⊎ ByAlias path x aliases

  -- Some workspace is the path and its directory is `x`, or the path goes on below it.
  abbrev pub ByWorkspace : Text → Text → List (Text × Text) → Type 0
  ByWorkspace path x [] = ⊥
  ByWorkspace path x ((name, dir) ∷ workspaces) =
      ((path ≡ name) × (x ≡ dir))
      ⊎ ((has_prefix path (name ++ b'/' ∷ []) ≡ true)
          × (x ≡ project.join dir (trim_prefix (name ++ b'/' ∷ []) path)))
      ⊎ ByWorkspace path x workspaces

  abbrev pub Answers : Text → WorkspaceResolver → Option Text → Type 0
  Answers path r none = NoAlias path r.path_aliases × NoWorkspace path r.workspaces
  Answers path r (some x) =
      ByAlias path x r.path_aliases
      ⊎ (NoAlias path r.path_aliases × ByWorkspace path x r.workspaces)

  abbrev AliasAnswers : Text → List (Text × Text) → Option Text → Type 0
  AliasAnswers path aliases none = NoAlias path aliases
  AliasAnswers path aliases (some x) = ByAlias path x aliases

  abbrev WorkspaceAnswers : Text → List (Text × Text) → Option Text → Type 0
  WorkspaceAnswers path workspaces none = NoWorkspace path workspaces
  WorkspaceAnswers path workspaces (some x) = ByWorkspace path x workspaces

  AliasAnswers-cons :
      (path alias target : Text) (aliases : List (Text × Text)) (o : Option Text)
      → has_prefix path alias ≡ false
      → AliasAnswers path aliases o
      → AliasAnswers path ((alias, target) ∷ aliases) o
  AliasAnswers-cons path alias target aliases none e h = (e, h)
  AliasAnswers-cons path alias target aliases (some x) e h = inr h

  WorkspaceAnswers-cons :
      (path name dir : Text) (workspaces : List (Text × Text)) (o : Option Text)
      → text_eq path name ≡ false
      → has_prefix path (name ++ b'/' ∷ []) ≡ false
      → WorkspaceAnswers path workspaces o
      → WorkspaceAnswers path ((name, dir) ∷ workspaces) o
  WorkspaceAnswers-cons path name dir workspaces none e k h = ((e, k), h)
  WorkspaceAnswers-cons path name dir workspaces (some x) e k h = inr (inr h)

  resolve_alias-AliasAnswers :
      (path : Text) (aliases : List (Text × Text))
      → AliasAnswers path aliases (resolve_alias project path aliases)
  unfolding resolve_alias
  resolve_alias-AliasAnswers path [] = tt
  resolve_alias-AliasAnswers path ((alias, target) ∷ aliases) =
      elim (Bool-cases (has_prefix path alias)) [
        | inl e ↦ rw e (inl (e, rw e refl))
        | inr e ↦ rw e (
            AliasAnswers-cons path alias target aliases (resolve_alias project path aliases) e
              (resolve_alias-AliasAnswers path aliases))
      ]

  resolve_workspace-WorkspaceAnswers :
      (path : Text) (workspaces : List (Text × Text))
      → WorkspaceAnswers path workspaces (resolve_workspace project path workspaces)
  unfolding resolve_workspace
  resolve_workspace-WorkspaceAnswers path [] = tt
  resolve_workspace-WorkspaceAnswers path ((name, dir) ∷ workspaces) =
      elim (Bool-cases (text_eq path name)) [
        | inl e ↦ rw e (inl (text_eq→eq path name e, refl))
        | inr e ↦ elim (Bool-cases (has_prefix path (name ++ b'/' ∷ []))) [
          | inl k ↦ rw (e, k) (inr (inl (k, rw k refl)))
          | inr k ↦
              rw (e, k)
                (WorkspaceAnswers-cons path name dir workspaces
                  (resolve_workspace project path workspaces) e k
                  (resolve_workspace-WorkspaceAnswers path workspaces))
        ]
      ]

  no_alias :
      (path : Text) (r : WorkspaceResolver) (o : Option Text)
      → NoAlias path r.path_aliases
      → WorkspaceAnswers path r.workspaces o
      → Answers path r o
  no_alias path r none h k = (h, k)
  no_alias path r (some x) h k = inr (h, k)

  answered :
      (path : Text) (r : WorkspaceResolver) (o : Option Text)
      → AliasAnswers path r.path_aliases o
      → Answers path r
          (elim o [ none ↦ resolve_workspace project path r.workspaces | some found ↦ some found ])
  answered path r (some x) h = inl h
  answered path r none h =
      no_alias path r (resolve_workspace project path r.workspaces) h
        (resolve_workspace-WorkspaceAnswers path r.workspaces)

  -- `Resolve` fails exactly where no alias begins the import and no workspace is it or is followed by
  -- a slash in it. Where it answers, the answer is the target of such an alias joined with the rest of
  -- the import; only where there is none, it comes from such a workspace.
  pub resolve-Answers :
      (path : Text) (r : WorkspaceResolver) → Answers path r (resolve project path r)
  unfolding resolve
  resolve-Answers path r =
      answered path r (resolve_alias project path r.path_aliases)
        (resolve_alias-AliasAnswers path r.path_aliases)
