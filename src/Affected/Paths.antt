-- ===== src/Affected/Paths.antt =====
-- crates/nxr-affected/src/paths.rs: paths, and the declared roots that they may match. The globs are those
-- of the globset library: a pattern may be refused, a set of patterns may be refused, and a set matches.
use nxr.Base.{
  Bool, true, false, ◌||◌, List, [], ◌∷◌, Option, none, some, String, if◌then◌else◌, get_or,
}
use Prim.Native.String.{◌++◌ as str_append}
use nxr.Base.Order.{string_ord, eqb}
use nxr.Base.Texts.{trim, is_nothing}
use nxr.Base.Texts.{strip_prefix, starts_with}
use nxr.Affected.Text.{
  slashed, trim_slashes, has_parent_dir, is_absolute, extension, eq_ignore_ascii_case, has_meta,
  before_meta,
}

-- What is called of globset, with the messages of its errors.
pub record Globs : Type 0 where
  pub new_error : String → Option String
  pub build_error : List String → Option String
  pub is_match : List String → String → Bool

pub data PathRootError : Type 0 where
  invalid_glob : (glob message : String) → PathRootError
  invalid_repo_path : (path : String) → PathRootError

pub data Result {ℓ} (A : Type ℓ) : Type ℓ where
  ok : A → Result A
  err : PathRootError → Result A

infixl 5 ◌>>=◌
abbrev pub ◌>>=◌ {ℓ κ} : {A : Type ℓ} {B : Type κ} → Result A → (A → Result B) → Result B
ok a >>= f = f a
err e >>= f = err e

unfoldable pub normalize_relative_path : String → String
normalize_relative_path path =
    let trimmed = trim path in slashed (get_or (strip_prefix trimmed "./") trimmed)

unfoldable pub is_global_invalidation_path : String → Bool
is_global_invalidation_path path =
    let normalized = normalize_relative_path path in
    eqb normalized "flake.nix"
    || eqb normalized "flake.lock"
    || (elim (extension normalized) [ none ↦ false | some ext ↦ eq_ignore_ascii_case ext "nix" ])

unfoldable pub looks_like_glob : String → Bool
looks_like_glob root = has_meta root

unfoldable pub literal_path_prefix : String → String
literal_path_prefix root =
    let normalized = normalize_relative_path root in
    trim_slashes (if looks_like_glob normalized then before_meta normalized else normalized)

unfoldable pub prefix_overlap : String → String → Bool
prefix_overlap left right =
    eqb left right
    || starts_with left (str_append right "/")
    || starts_with right (str_append left "/")

unfoldable pub any_overlap : String → List String → Bool
any_overlap prefix [] = false
any_overlap prefix (changed ∷ changes) =
    prefix_overlap (normalize_relative_path changed) prefix || any_overlap prefix changes

unfoldable pub any_root_overlaps : List String → List String → Bool
any_root_overlaps [] changes = false
any_root_overlaps (root ∷ roots) changes =
    is_nothing (literal_path_prefix root)
    || any_overlap (literal_path_prefix root) changes
    || any_root_overlaps roots changes

unfoldable pub roots_may_overlap_changes : List String → List String → Bool
roots_may_overlap_changes [] changes = false
roots_may_overlap_changes (root ∷ roots) [] = false
roots_may_overlap_changes (root ∷ roots) (changed ∷ changes) =
    any_root_overlaps (root ∷ roots) (changed ∷ changes)

unfoldable pub validate_repo_relative_root : String → Result (Unit {0})
validate_repo_relative_root root =
    if is_nothing root || is_absolute root || has_parent_dir root
    then err (invalid_repo_path root)
    else ok tt

unfoldable pub check_glob : Globs → String → Result (Unit {0})
check_glob globs root = elim (globs.new_error root) [
  | none ↦ ok tt
  | some message ↦ err (invalid_glob root message)
]

unfoldable pub validate_path_roots : Globs → List String → Result (Unit {0})
validate_path_roots globs [] = ok tt
validate_path_roots globs (root ∷ roots) =
    let normalized = normalize_relative_path root in
    validate_repo_relative_root normalized >>= λ _.
    (if looks_like_glob normalized then check_glob globs normalized else ok tt) >>= λ _.
    validate_path_roots globs roots

-- The patterns among the roots, each compiled.
unfoldable pub collect_globs : Globs → List String → Result (List String)
collect_globs globs [] = ok []
collect_globs globs (root ∷ roots) =
    let normalized = normalize_relative_path root in
    let rest = collect_globs globs roots in
    if looks_like_glob normalized
    then (check_glob globs normalized >>= λ _. rest >>= λ patterns. ok (normalized ∷ patterns))
    else rest

unfoldable pub compile_globset : Globs → List String → Result (List String)
compile_globset globs roots = collect_globs globs roots >>= λ patterns. elim patterns [
  | [] ↦ ok []
  | first ∷ rest ↦ elim (globs.build_error (first ∷ rest)) [
    | none ↦ ok (first ∷ rest)
    | some message ↦ err (invalid_glob "*" message)
  ]
]

-- The empty set matches nothing.
unfoldable pub set_is_match : Globs → List String → String → Bool
set_is_match globs [] path = false
set_is_match globs (first ∷ rest) path = globs.is_match (first ∷ rest) path

unfoldable pub overlaps_root : String → List String → Bool
overlaps_root changed [] = false
overlaps_root changed (root ∷ roots) =
    prefix_overlap changed (normalize_relative_path root) || overlaps_root changed roots

unfoldable pub path_matches_roots : Globs → String → List String → Result Bool
path_matches_roots globs changed [] = ok false
path_matches_roots globs changed (root ∷ roots) =
    let normalized = normalize_relative_path changed in
    validate_path_roots globs (root ∷ roots) >>= λ _.
    if overlaps_root normalized (root ∷ roots)
    then ok true
    else compile_globset globs (root ∷ roots) >>= λ patterns.
        ok (set_is_match globs patterns normalized)
