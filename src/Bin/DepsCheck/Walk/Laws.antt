-- ===== src/Bin/DepsCheck/Walk/Laws.antt =====
-- bin/dandori-deps-check/src/main.rs, `collect_rs_files`: the walk ends, and misses nothing.
use dandori.Base.{
  ℕ, zero, suc, ◌+◌, ◌≤◌, ◌<◌, String, Bool, Option, none, some, List, [], ◌∷◌, ◌++◌, if◌then◌else◌,
  arith, ◌≡◌, refl, count_if,
}
use dandori.Bin.DepsCheck.Walk.{
  Entries, nil, file, directory, is_rs, push_directories, rs_entries, walk, collect_rs_files,
}

-- The Rust sources at any depth, by recursion on the tree.
unfoldable pub sources_below : Entries → List String
sources_below nil = []
sources_below (file path rest) =
    let later = sources_below rest in if is_rs path then path ∷ later else later
sources_below (directory inner rest) = sources_below inner ++ sources_below rest

-- The directories at any depth.
unfoldable pub directories : Entries → ℕ
directories nil = 0
directories (file path rest) = directories rest
directories (directory inner rest) = suc (directories inner + directories rest)

unfoldable pub sources_in : Option Entries → List String
unfolding sources_below
sources_in none = []
sources_in (some entries) = sources_below entries

-- The rounds of the loop, with the one that finds the stack empty.
unfoldable pub rounds : Option Entries → ℕ
unfolding directories
rounds none = 0
rounds (some entries) = directories entries + 2

stack_size : List Entries → ℕ
stack_size [] = 0
stack_size (e ∷ es) = suc (directories e + stack_size es)

module _ {ℓ} {A : Type ℓ} (p : A → Bool) where
  pub count_if-append : (xs ys : List A) → count_if p (xs ++ ys) ≡ count_if p xs + count_if p ys
  unfolding count_if
  count_if-append [] ys = omega arith
  count_if-append (x ∷ xs) ys = ground (arith, count_if-append xs ys)

stack_size-push :
    (e : Entries) (stack : List Entries)
    → stack_size (push_directories e stack) ≡ directories e + stack_size stack
unfolding stack_size push_directories directories
stack_size-push nil stack = omega arith
stack_size-push (file path rest) stack = stack_size-push rest stack
stack_size-push (directory inner rest) stack = omega (arith, stack_size-push rest (inner ∷ stack))

module _ (p : String → Bool) where
  count_stack : List Entries → ℕ
  count_stack [] = 0
  count_stack (e ∷ es) = count_if p (sources_below e) + count_stack es

  count_stack-push :
      (e : Entries) (stack : List Entries)
      → count_if p (rs_entries e) + count_stack (push_directories e stack)
        ≡ count_if p (sources_below e) + count_stack stack
  unfolding count_stack push_directories rs_entries sources_below count_if
  count_stack-push nil stack = omega arith
  count_stack-push (file path rest) stack = ground (arith, count_stack-push rest stack)
  count_stack-push (directory inner rest) stack = omega (
    arith,
    count_stack-push rest (inner ∷ stack),
    count_if-append p (sources_below inner) (sources_below rest),
  )

-- The loop ends, with each source as often as it stands on the stack or below it.
walk_total :
    (fuel : ℕ) (stack : List Entries) (files : List String)
    → stack_size stack < fuel
    → (found : List String) × (walk fuel stack files ≡ some found)
      × ((p : String → Bool) → count_if p found ≡ count_if p files + count_stack p stack)
unfolding walk stack_size count_stack
walk_total zero stack files h = absurd (omega arith)
walk_total (suc fuel) [] files h = (files, refl, λ p. omega arith)
walk_total (suc fuel) (e ∷ stack) files h =
    let (found, e', same) =
      walk_total fuel (push_directories e stack) (files ++ rs_entries e)
        (omega (arith, stack_size-push e stack)) in
    (
      found,
      e',
      λ p.
          omega (arith, same p, count_if-append p files (rs_entries e), count_stack-push p e stack),
    )

-- With a round for each directory, the walk ends and finds every Rust source below the directory,
-- as often as it is there, and nothing else.
pub collect_rs_files-total :
    (fuel : ℕ) (below : Option Entries)
    → rounds below ≤ fuel
    → 0 < fuel
    → (found : List String) × (collect_rs_files fuel below ≡ some found)
      × ((p : String → Bool) → count_if p found ≡ count_if p (sources_in below))
unfolding collect_rs_files rounds sources_in stack_size count_stack count_if
collect_rs_files-total fuel none h q = ([], refl, λ p. refl)
collect_rs_files-total fuel (some e) h q =
    let (found, e', same) = walk_total fuel (e ∷ []) [] (omega arith) in
    (found, e', λ p. omega (arith, same p))
