-- ===== src/Bin/DepsCheck/Imports/Laws.antt =====
-- bin/dandori-deps-check/src/main.rs: the collector against the paths of a tree.
use mathlib.Core.List.{append-nil, append_assoc, map-append}
use dandori.Base.{
  String, true, false, List, [], ◌∷◌, ◌++◌, map, arith, ◌≡◌, ◌↔◌, refl, sym, ap, ◌∙◌, str_eq,
  eq_iff, ◌&&◌,
}
use dandori.Bin.DepsCheck.Imports.{
  UseTree, path, name, rename, glob, group, UseTrees, more, collect_use_tree, collect_use_trees,
  visit_uses, imports_of, zip_all, path_starts_with,
}

-- The paths that a tree imports: a rename counts under its first name, a glob as what stands
-- before it.
unfoldable mutual
  pub paths_of : UseTree → List (List String)
  paths_of (path ident tree) = map (λ p. ident ∷ p) (paths_of tree)
  paths_of (name ident) = (ident ∷ []) ∷ []
  paths_of (rename ident as_name) = (ident ∷ []) ∷ []
  paths_of glob = [] ∷ []
  paths_of (group items) = paths_of_all items

  pub paths_of_all : UseTrees → List (List String)
  paths_of_all UseTrees.none = []
  paths_of_all (more item items) = paths_of item ++ paths_of_all items

unfoldable pub paths_of_uses : List UseTree → List (List String)
unfolding paths_of
paths_of_uses [] = []
paths_of_uses (tree ∷ trees) = paths_of tree ++ paths_of_uses trees

abbrev behind : List String → List String → List String
behind prefix p = prefix ++ p

map-behind :
    (prefix : List String) (ident : String) (ps : List (List String))
    → map (behind (prefix ++ ident ∷ [])) ps ≡ map (behind prefix) (map (λ p. ident ∷ p) ps)
map-behind prefix ident [] = refl
map-behind prefix ident (p ∷ ps) = simp (append_assoc, map-behind prefix ident ps)

map-behind-nil : (ps : List (List String)) → map (behind []) ps ≡ ps
map-behind-nil [] = refl
map-behind-nil (p ∷ ps) = ap (λ rest. p ∷ rest) (map-behind-nil ps)

mutual
  unfolding collect_use_tree paths_of

  collect-paths_of :
      (tree : UseTree) (prefix : List String) (out : List (List String))
      → collect_use_tree tree prefix out ≡ out ++ map (behind prefix) (paths_of tree)
  collect-paths_of (path ident tree) prefix out =
      collect-paths_of tree (prefix ++ ident ∷ []) out
      ∙ ap (λ ps. out ++ ps) (map-behind prefix ident (paths_of tree))
  collect-paths_of (name ident) prefix out = refl
  collect-paths_of (rename ident as_name) prefix out = refl
  collect-paths_of glob prefix out = ap (λ p. out ++ p ∷ []) (sym (append-nil prefix))
  collect-paths_of (group items) prefix out = collect-paths_of_all items prefix out

  collect-paths_of_all :
      (items : UseTrees) (prefix : List String) (out : List (List String))
      → collect_use_trees items prefix out ≡ out ++ map (behind prefix) (paths_of_all items)
  collect-paths_of_all UseTrees.none prefix out = sym (append-nil out)
  collect-paths_of_all (more item items) prefix out =
      collect-paths_of_all items prefix (collect_use_tree item prefix out)
      ∙ rw (collect-paths_of item prefix out) (simp (append_assoc, map-append))

visit-paths_of_uses :
    (trees : List UseTree) (paths : List (List String))
    → visit_uses trees paths ≡ paths ++ paths_of_uses trees
unfolding visit_uses paths_of_uses
visit-paths_of_uses [] paths = sym (append-nil paths)
visit-paths_of_uses (tree ∷ trees) paths =
    visit-paths_of_uses trees (collect_use_tree tree [] paths)
    ∙ rw (collect-paths_of tree [] paths, map-behind-nil (paths_of tree)) (simp append_assoc)

-- The visitor collects exactly the paths of the trees, in order.
pub imports_of-paths_of_uses : (trees : List UseTree) → imports_of trees ≡ paths_of_uses trees
unfolding imports_of
imports_of-paths_of_uses trees = visit-paths_of_uses trees []

path_starts_with-cons :
    (a b : String) (as' bs : List String)
    → path_starts_with (a ∷ as') (b ∷ bs) ≡ (str_eq a b && path_starts_with as' bs)
unfolding path_starts_with zip_all
path_starts_with-cons a b as' bs = ground arith

starts_nil : (b : String) (bs : List String) → path_starts_with [] (b ∷ bs) ≡ false
unfolding path_starts_with
starts_nil b bs = ground arith

starts_any : (imported : List String) → path_starts_with imported [] ≡ true
unfolding path_starts_with zip_all
starts_any [] = refl
starts_any (a ∷ as') = ground arith

-- What stands behind the prefix.
rest_behind :
    (imported prefix : List String)
    → path_starts_with imported prefix ≡ true
    → (rest : List String) × (imported ≡ prefix ++ rest)
rest_behind imported [] h = (imported, refl)
rest_behind [] (b ∷ bs) h =
    let e : path_starts_with [] (b ∷ bs) ≡ false = starts_nil b bs in absurd (cc)
rest_behind (a ∷ as') (b ∷ bs) h =
    let (rest, e) = rest_behind as' bs (ground (arith, path_starts_with-cons a b as' bs)) in
    (rest, ground (arith, path_starts_with-cons a b as' bs, eq_iff a b))

path_starts_with-append :
    (prefix rest : List String) → path_starts_with (prefix ++ rest) prefix ≡ true
path_starts_with-append [] rest = starts_any rest
path_starts_with-append (b ∷ bs) rest =
    path_starts_with-cons b b (bs ++ rest) bs
    ∙ ground (arith, eq_iff b b, path_starts_with-append bs rest)

-- A path starts with a prefix exactly if it is the prefix with something behind it.
pub path_starts_with_iff :
    (imported prefix : List String)
    → (path_starts_with imported prefix ≡ true)
      ↔ ((rest : List String) × (imported ≡ prefix ++ rest))
path_starts_with_iff imported prefix =
    (rest_behind imported prefix, λ (rest, e). rw e (path_starts_with-append prefix rest))
