-- ===== src/Bin/DepsCheck.antt =====
-- bin/dandori-deps-check/src/main.rs. What `cargo metadata` prints, what is on the disk and what
-- the crate syn parses are given. A function that pushes its messages gives their list.
pub mod Walk
pub mod Imports
pub mod Laws
use dandori.Base.{
  ℕ, String, Bool, true, false, ◌&&◌, Option, none, some, List, [], ◌∷◌, ◌++◌, is_nil, str_eq, any,
  if◌then◌else◌, Result, ok, err, ◌>>=◌,
}
use dandori.Base.Text.{append}
use dandori.Base.Maps.{insert_key, key_at}
use dandori.Bin.DepsCheck.Walk.{Entries, collect_rs_files}
use dandori.Bin.DepsCheck.Imports.{UseTree, imports_of, path_starts_with, join_path}

pub record Dependency : Type 0 where
  pub name : String

pub record Package : Type 0 where
  pub name : String
  pub dependencies : List Dependency

-- `for x in xs { … }`, whose messages stand one after another.
unfoldable pub flat_map {ℓ κ} : {A : Type ℓ} {B : Type κ} → (A → List B) → List A → List B
flat_map f [] = []
flat_map f (x ∷ xs) = f x ++ flat_map f xs

-- A package whose name comes twice keeps its later entry.
unfoldable pub collect_packages :
    List Package → List (String × List Dependency) → List (String × List Dependency)
unfolding insert_key
collect_packages [] packages = packages
collect_packages (p ∷ ps) packages = collect_packages ps (insert_key p.name p.dependencies packages)

unfoldable pub depends_on : String → Option (List Dependency) → Bool
unfolding any
depends_on name none = false
depends_on name (some deps) = any (λ d. str_eq d.name name) deps

abbrev pub foundation : List String
foundation = "dandori-domain" ∷ "dandori-contract" ∷ "dandori-policy" ∷ "dandori-observability" ∷ []

abbrev pub capability : List String
capability =
    "dandori-store" ∷ "dandori-graph" ∷ "dandori-workflow" ∷ "dandori-sync-github"
    ∷ "dandori-orchestrator" ∷ "dandori-app-services" ∷ []

abbrev pub transport : List String
transport = "dandori-api" ∷ "dandori-mcp" ∷ "dandori-worker" ∷ []

abbrev pub forbidden_transport : List String
forbidden_transport = "dandori-domain" ∷ "dandori-store" ∷ "dandori-orchestrator" ∷ []

unfoldable pub foundation_message : String → String → String
foundation_message lower upper =
    append "foundation crate '"
      (append lower (append "' depends on capability crate '" (append upper "'")))

unfoldable pub transport_message : String → String → String
transport_message lower upper =
    append "transport crate '" (append lower (append "' depends directly on '" (append upper "'")))

module _ (message : String → String → String)
    (deps_by_package : List (String × List Dependency)) where
  -- The inner loop, for a crate and the crates that it must not depend on.
  unfoldable pub check_crate : List String → String → List String
  unfolding depends_on key_at flat_map
  check_crate forbidden crate_name =
      flat_map
        (λ other.
          if depends_on other (key_at crate_name deps_by_package)
          then message crate_name other ∷ []
          else [])
        forbidden

unfoldable pub check_dependencies : List Package → List String
unfolding check_crate collect_packages flat_map foundation_message transport_message
check_dependencies packages =
    let deps = collect_packages packages [] in
    flat_map (check_crate foundation_message deps capability) foundation
    ++ flat_map (check_crate transport_message deps forbidden_transport) transport

-- A crate's name and directory, and the prefixes that its imports must not have.
pub record Scan : Type 0 where
  pub crate_name : String
  pub dir : String
  pub forbidden_prefixes : List (List String)

abbrev pub one_each : List String → List (List String)
one_each [] = []
one_each (name ∷ names) = (name ∷ []) ∷ one_each names

abbrev pub transport_forbidden : List (List String)
transport_forbidden = one_each ("sqlx" ∷ "dandori_store" ∷ "dandori_domain" ∷ "dandori_policy" ∷ [])

abbrev pub foundation_forbidden : List (List String)
foundation_forbidden =
    one_each ("dandori_store" ∷ "dandori_app_services" ∷ "dandori_orchestrator" ∷ "sqlx" ∷ [])

abbrev pub scan : List (List String) → String → String → Scan
scan forbidden crate_name dir = record {
  crate_name = crate_name;
  dir = dir;
  forbidden_prefixes = forbidden;
}

abbrev pub scans : List Scan
scans =
    scan transport_forbidden "dandori-api" "bin/dandori-api/src"
    ∷ scan transport_forbidden "dandori-mcp" "bin/dandori-mcp/src"
    ∷ scan transport_forbidden "dandori-worker" "bin/dandori-worker/src"
    ∷ scan foundation_forbidden "dandori-domain" "crates/dandori-domain/src"
    ∷ scan foundation_forbidden "dandori-contract" "crates/dandori-contract/src"
    ∷ scan foundation_forbidden "dandori-policy" "crates/dandori-policy/src"
    ∷ scan foundation_forbidden "dandori-observability" "crates/dandori-observability/src"
    ∷ scan (one_each ("sqlx" ∷ [])) "dandori-app-services" "crates/dandori-app-services/src"
    ∷ scan (one_each ("sqlx" ∷ [])) "dandori-auth" "crates/dandori-auth/src"
    ∷ []

-- The disk: what lies below a directory, if it exists; a file's text, if it can be read; and the
-- `use` items of a source text in the order in which the visitor meets them, if it parses.
pub record Sources : Type 0 where
  pub below : String → Option Entries
  pub read_to_string : String → Option String
  pub parse_file : String → Option (List UseTree)

unfoldable pub import_message : String → String → List String → String
unfolding join_path
import_message crate_name file imported = append crate_name (
    append ": "
      (append file (append " imports forbidden path `" (append (join_path imported) "`"))))

unfoldable pub parse_message : String → String → String
parse_message crate_name file = append crate_name (append ": failed to parse " file)

unfoldable pub check_import : Scan → String → List String → List String
unfolding flat_map path_starts_with import_message
check_import s file imported =
    flat_map
      (λ forbidden.
        if path_starts_with imported forbidden
        then import_message s.crate_name file imported ∷ []
        else [])
      s.forbidden_prefixes

unfoldable pub check_parsed : Scan → String → Option (List UseTree) → List String
unfolding flat_map check_import imports_of parse_message
check_parsed s file none = parse_message s.crate_name file ∷ []
check_parsed s file (some ast) = flat_map (check_import s file) (imports_of ast)

unfoldable pub check_file : Sources → Scan → String → List String
unfolding check_parsed
check_file src s file = elim (src.read_to_string file) [
  | none ↦ []
  | some source ↦ check_parsed s file (src.parse_file source)
]

-- `fuel` bounds the walk over the directories.
unfoldable pub scan_crate : ℕ → Sources → Scan → Option (List String)
unfolding collect_rs_files flat_map check_file
scan_crate fuel src s = elim (collect_rs_files fuel (src.below s.dir)) [
  | none ↦ none
  | some files ↦ some (flat_map (check_file src s) files)
]

unfoldable pub check_source_imports : ℕ → Sources → List Scan → Option (List String)
unfolding scan_crate
check_source_imports fuel src [] = some []
check_source_imports fuel src (s ∷ ss) =
    let rest = check_source_imports fuel src ss in
    elim (scan_crate fuel src s) [
      | none ↦ none
      | some messages ↦ elim rest [ none ↦ none | some later ↦ some (messages ++ later) ]
    ]

-- `main`: the messages, where the metadata can be read.
unfoldable pub run_check :
    ℕ → Result (List Package) String → Sources → Option (Result (List String) String)
unfolding check_dependencies check_source_imports
run_check fuel (err e) src = some (err e)
run_check fuel (ok packages) src = elim (check_source_imports fuel src scans) [
  | none ↦ none
  | some messages ↦ some (ok (check_dependencies packages ++ messages))
]
