-- ===== src/Bin/DepsCheck/Walk.antt =====
-- bin/dandori-deps-check/src/main.rs, `collect_rs_files`: the walk over the directories below one.
pub mod Laws
use dandori.Base.{
  ℕ, zero, suc, String, Bool, true, false, not, ◌&&◌, Option, none, some, List, [], ◌∷◌, ◌++◌,
  is_nil, str_eq, if◌then◌else◌,
}
use dandori.Base.Text.{split, is_empty}

-- What a directory holds, in the order of `read_dir`: paths of files and directories. One that
-- cannot be read holds nothing here.
pub data Entries : Type 0 where
  nil : Entries
  file : String → Entries → Entries
  directory : Entries → Entries → Entries

last_part : String → List String → String
last_part default [] = default
last_part default (p ∷ ps) = last_part p ps

abbrev has_stem : List String → Bool
has_stem [] = false
has_stem (p ∷ []) = false
has_stem (p ∷ q ∷ []) = not (is_empty p)
has_stem (p ∷ q ∷ r ∷ rest) = true

-- `path.extension() == Some("rs")`: what stands behind the last dot of the file's name, if
-- something stands before it.
unfoldable pub is_rs : String → Bool
unfolding split last_part is_empty
is_rs path =
    let parts = split "." (last_part "" (split "/" path)) in
    has_stem parts && str_eq (last_part "" parts) "rs"

-- `stack.push` of the directories among the entries, and `files.push` of the sources among them.
unfoldable pub push_directories : Entries → List Entries → List Entries
push_directories nil stack = stack
push_directories (file path rest) stack = push_directories rest stack
push_directories (directory inner rest) stack = push_directories rest (inner ∷ stack)

unfoldable pub rs_entries : Entries → List String
unfolding is_rs
rs_entries nil = []
rs_entries (file path rest) =
    let later = rs_entries rest in if is_rs path then path ∷ later else later
rs_entries (directory inner rest) = rs_entries rest

-- `while let Some(current) = stack.pop()`; the top of the stack is the head of the list.
unfoldable pub walk : ℕ → List Entries → List String → Option (List String)
unfolding push_directories rs_entries
walk zero stack files = none
walk (suc fuel) [] files = some files
walk (suc fuel) (current ∷ stack) files =
    walk fuel (push_directories current stack) (files ++ rs_entries current)

-- `none` is a directory that does not exist.
unfoldable pub collect_rs_files : ℕ → Option Entries → Option (List String)
unfolding walk
collect_rs_files fuel none = some []
collect_rs_files fuel (some below) = walk fuel (below ∷ []) []
