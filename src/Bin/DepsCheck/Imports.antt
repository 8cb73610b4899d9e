-- ===== src/Bin/DepsCheck/Imports.antt =====
-- bin/dandori-deps-check/src/main.rs: the paths that `use` items import.
pub mod Laws
use dandori.Base.{
  ℕ, String, Bool, true, false, List, [], ◌∷◌, ◌++◌, length, ltb, str_eq, if◌then◌else◌, ◌&&◌,
}
use dandori.Base.Text.{append}

-- syn's `UseTree`; a name is an identifier.
mutual
  pub data UseTree : Type 0 where
    path : String → UseTree → UseTree
    name : String → UseTree
    rename : String → String → UseTree
    glob : UseTree
    group : UseTrees → UseTree

  pub data UseTrees : Type 0 where
    none : UseTrees
    more : UseTree → UseTrees → UseTrees

-- `out` stands behind the prefix here, as it does in the source.
unfoldable mutual
  pub collect_use_tree : UseTree → List String → List (List String) → List (List String)
  collect_use_tree (path ident tree) prefix out = collect_use_tree tree (prefix ++ ident ∷ []) out
  collect_use_tree (name ident) prefix out = out ++ (prefix ++ ident ∷ []) ∷ []
  collect_use_tree (rename ident as_name) prefix out = out ++ (prefix ++ ident ∷ []) ∷ []
  collect_use_tree glob prefix out = out ++ prefix ∷ []
  collect_use_tree (group items) prefix out = collect_use_trees items prefix out

  pub collect_use_trees : UseTrees → List String → List (List String) → List (List String)
  collect_use_trees none prefix out = out
  collect_use_trees (more item items) prefix out =
      collect_use_trees items prefix (collect_use_tree item prefix out)

-- The visitor, over the `use` items of a file.
unfoldable pub visit_uses : List UseTree → List (List String) → List (List String)
unfolding collect_use_tree
visit_uses [] paths = paths
visit_uses (tree ∷ trees) paths = visit_uses trees (collect_use_tree tree [] paths)

unfoldable pub imports_of : List UseTree → List (List String)
unfolding visit_uses
imports_of trees = visit_uses trees []

-- `imported.iter().zip(prefix.iter()).all(…)`
unfoldable pub zip_all : List String → List String → Bool
zip_all [] prefix = true
zip_all (a ∷ as') [] = true
zip_all (a ∷ as') (b ∷ bs) = str_eq a b && zip_all as' bs

unfoldable pub path_starts_with : List String → List String → Bool
unfolding zip_all
path_starts_with imported prefix =
    if ltb (length imported) (length prefix) then false else zip_all imported prefix

-- `imported.join("::")`
unfoldable pub join_path : List String → String
join_path [] = ""
join_path (p ∷ []) = p
join_path (p ∷ q ∷ rest) = append p (append "::" (join_path (q ∷ rest)))
