-- ===== src/Bin/DepsCheck/Laws.antt =====
-- bin/dandori-deps-check/src/main.rs: when the check passes.
use dandori.Base.{
  ℕ, ◌≤◌, ◌<◌, String, Bool, true, false, not, Option, none, some, List, [], ◌∷◌, ◌++◌, arith, ◌≡◌,
  ◌↔◌, refl, sym, ap, ◌∙◌, ok, All, is_nil, count_if, if◌then◌else◌, Bool-cases, inl, inr, ◌⊎◌,
  ◌==◌,
}
use dandori.Base.Maps.{key_at}
use dandori.Bin.DepsCheck.{
  Package, flat_map, collect_packages, depends_on, foundation, capability, transport,
  forbidden_transport, foundation_message, transport_message, check_crate, check_dependencies, Scan,
  scans, Sources, check_import, check_parsed, check_file, scan_crate, check_source_imports,
  run_check,
}
use dandori.Bin.DepsCheck.Walk.Laws.{sources_in, rounds, collect_rs_files-total}
use dandori.Bin.DepsCheck.Imports.{UseTree, path_starts_with}
use dandori.Bin.DepsCheck.Imports.Laws.{
  paths_of_uses, imports_of-paths_of_uses, path_starts_with_iff,
}

iff_trans {ℓ κ ι} : {A : Type ℓ} {B : Type κ} {C : Type ι} → (A ↔ B) → (B ↔ C) → A ↔ C
iff_trans f g = (λ a. g.0 (f.0 a), λ c. f.1 (g.1 c))

iff_pair {ℓ κ ι ν} :
    {A : Type ℓ} {B : Type κ} {C : Type ι} {D : Type ν} → (A ↔ B) → (C ↔ D) → (A × C) ↔ (B × D)
iff_pair f g = (λ h. (f.0 h.0, g.0 h.1), λ h. (f.1 h.0, g.1 h.1))

append-nil_iff {ℓ} : {A : Type ℓ} (xs ys : List A) → (xs ++ ys ≡ []) ↔ ((xs ≡ []) × (ys ≡ []))
append-nil_iff [] ys = (λ h. (refl, h), λ h. h.1)
append-nil_iff (x ∷ xs) ys = (λ h. absurd (ground arith), λ h. absurd (ground arith))

module _ {ℓ κ ι} {A : Type ℓ} {B : Type κ} (f : A → List B) (P : A → Type ι)
    (each : (x : A) → (f x ≡ []) ↔ P x) where
  -- A loop gives no message exactly if no round of it does.
  flat_map-nil_iff : (xs : List A) → (flat_map f xs ≡ []) ↔ All P xs
  unfolding flat_map
  flat_map-nil_iff [] = (λ h. tt, λ h. refl)
  flat_map-nil_iff (x ∷ xs) = (
    λ h.
        let (here, later) = (append-nil_iff (f x) (flat_map f xs)).0 h in
        ((each x).0 here, (flat_map-nil_iff xs).0 later),
    λ h. (append-nil_iff (f x) (flat_map f xs)).1 ((each x).1 h.0, (flat_map-nil_iff xs).1 h.1),
  )

one_if {ℓ} : {A : Type ℓ} (b : Bool) (a : A) → ((if b then a ∷ [] else []) ≡ []) ↔ (b ≡ false)
one_if true a = (λ h. absurd (ground arith), λ h. absurd (ground arith))
one_if false a = (λ h. refl, λ h. refl)

-- No crate of the first list depends on one of the second.
abbrev pub IsLayered : List Package → List String → List String → Type 0
IsLayered packages uppers = All (λ crate.
    All (λ other. depends_on other (key_at crate (collect_packages packages [])) ≡ false) uppers)

module _ (message : String → String → String) (packages : List Package) (uppers : List String) where
  layer-nil_iff :
      (crates : List String)
      → (flat_map (check_crate message (collect_packages packages []) uppers) crates ≡ [])
        ↔ IsLayered packages uppers crates
  unfolding check_crate
  layer-nil_iff =
      flat_map-nil_iff (check_crate message (collect_packages packages []) uppers)
        (λ crate.
          All (λ other. depends_on other (key_at crate (collect_packages packages [])) ≡ false)
            uppers)
        (λ crate.
          flat_map-nil_iff _
            (λ other. depends_on other (key_at crate (collect_packages packages [])) ≡ false)
            (λ other.
              one_if (depends_on other (key_at crate (collect_packages packages [])))
                (message crate other))
            uppers)

check_dependencies-nil_iff :
    (packages : List Package)
    → (check_dependencies packages ≡ []) ↔ (
        IsLayered packages capability foundation × IsLayered packages forbidden_transport transport)
unfolding check_dependencies
check_dependencies-nil_iff packages = iff_trans (append-nil_iff _ _) (
    iff_pair (layer-nil_iff foundation_message packages capability foundation)
      (layer-nil_iff transport_message packages forbidden_transport transport))

-- An import that no prefix forbids.
abbrev pub IsFree : List (List String) → List String → Type 0
IsFree forbidden imported =
    All (λ prefix. ¬ ((rest : List String) × (imported ≡ prefix ++ rest))) forbidden

abbrev pub IsCleanParsed : Scan → Option (List UseTree) → Type 0
IsCleanParsed s none = ⊥
IsCleanParsed s (some ast) = All (IsFree s.forbidden_prefixes) (paths_of_uses ast)

abbrev pub IsCleanText : Sources → Scan → Option String → Type 0
IsCleanText src s none = Unit
IsCleanText src s (some source) = IsCleanParsed s (src.parse_file source)

-- A file that can be read parses, and imports nothing that is forbidden.
abbrev pub IsClean : Sources → Scan → String → Type 0
IsClean src s path = IsCleanText src s (src.read_to_string path)

not_true :
    (imported prefix : List String)
    → (path_starts_with imported prefix ≡ false)
      ↔ (¬ ((rest : List String) × (imported ≡ prefix ++ rest)))
not_true imported prefix = (
  λ h found. let e = (path_starts_with_iff imported prefix).1 found in absurd (cc),
  λ h. elim (Bool-cases (path_starts_with imported prefix)) [
    | inl e ↦ absurd (h ((path_starts_with_iff imported prefix).0 e))
    | inr e ↦ e
  ],
)

check_import-nil_iff :
    (s : Scan) (file : String) (imported : List String)
    → (check_import s file imported ≡ []) ↔ IsFree s.forbidden_prefixes imported
unfolding check_import
check_import-nil_iff s file imported =
    flat_map-nil_iff _ (λ prefix. ¬ ((rest : List String) × (imported ≡ prefix ++ rest)))
      (λ prefix. iff_trans (one_if (path_starts_with imported prefix) _) (not_true imported prefix))
      s.forbidden_prefixes

check_parsed-nil_iff :
    (s : Scan) (file : String) (ast : Option (List UseTree))
    → (check_parsed s file ast ≡ []) ↔ IsCleanParsed s ast
unfolding check_parsed
check_parsed-nil_iff s file none = (λ h. absurd (ground arith), λ h. absurd h)
check_parsed-nil_iff s file (some ast) = rw (imports_of-paths_of_uses ast) (
    flat_map-nil_iff (check_import s file) (IsFree s.forbidden_prefixes)
      (check_import-nil_iff s file) (paths_of_uses ast))

check_text-nil_iff :
    (src : Sources) (s : Scan) (file : String) (text : Option String)
    → (elim text [ none ↦ [] | some source ↦ check_parsed s file (src.parse_file source) ] ≡ [])
      ↔ IsCleanText src s text
check_text-nil_iff src s file none = (λ h. tt, λ h. refl)
check_text-nil_iff src s file (some source) = check_parsed-nil_iff s file (src.parse_file source)

check_file-nil_iff :
    (src : Sources) (s : Scan) (file : String) → (check_file src s file ≡ []) ↔ IsClean src s file
unfolding check_file
check_file-nil_iff src s file = check_text-nil_iff src s file (src.read_to_string file)

List-cases {ℓ} : {A : Type ℓ} (xs : List A) → (xs ≡ []) ⊎ ((x : A) × (ys : List A) × (xs ≡ x ∷ ys))
List-cases [] = inl refl
List-cases (x ∷ xs) = inr (x, xs, refl)

-- A loop gives no message exactly if none of its elements has one, however often they stand.
module _ {ℓ κ} {A : Type ℓ} {B : Type κ} (f : A → List B) where
  has_message : A → Bool
  has_message x = not (is_nil (f x))

  flat_map-count_if : (xs : List A) → is_nil (flat_map f xs) ≡ (count_if has_message xs == 0)
  unfolding flat_map count_if has_message
  flat_map-count_if [] = refl
  flat_map-count_if (x ∷ xs) = elim (List-cases (f x)) [
    | inl e ↦ rw e (flat_map-count_if xs)
    | inr (b, bs, e) ↦ rw e (ground arith)
  ]

  flat_map-same_nil :
      (xs ys : List A)
      → ((p : A → Bool) → count_if p xs ≡ count_if p ys)
      → is_nil (flat_map f xs) ≡ is_nil (flat_map f ys)
  flat_map-same_nil xs ys same =
      flat_map-count_if xs ∙ (ap (λ n. n == 0) (same has_message) ∙ sym (flat_map-count_if ys))

is_nil_iff {ℓ} : {A : Type ℓ} (xs ys : List A) → is_nil xs ≡ is_nil ys → (xs ≡ []) ↔ (ys ≡ [])
is_nil_iff [] [] h = (λ e. refl, λ e. refl)
is_nil_iff [] (y ∷ ys) h = absurd (cc)
is_nil_iff (x ∷ xs) [] h = absurd (cc)
is_nil_iff (x ∷ xs) (y ∷ ys) h = (λ e. absurd (ground arith), λ e. absurd (ground arith))

module _ (fuel : ℕ) (src : Sources) where
  abbrev pub IsCleanCrate : Scan → Type 0
  IsCleanCrate s = All (IsClean src s) (sources_in (src.below s.dir))

  abbrev pub IsEnough : Scan → Type 0
  IsEnough s = rounds (src.below s.dir) ≤ fuel

  scan_crate-total :
      (s : Scan)
      → 0 < fuel
      → IsEnough s
      → (messages : List String) × (scan_crate fuel src s ≡ some messages)
        × ((messages ≡ []) ↔ IsCleanCrate s)
  unfolding scan_crate
  scan_crate-total s q h =
      let (found, e, same) = collect_rs_files-total fuel (src.below s.dir) h q in
      (
        flat_map (check_file src s) found,
        rw (e, scan_crate) refl,
        iff_trans
            (is_nil_iff _ _
              (flat_map-same_nil (check_file src s) found (sources_in (src.below s.dir)) same))
            (flat_map-nil_iff (check_file src s) (IsClean src s) (check_file-nil_iff src s)
              (sources_in (src.below s.dir))),
      )

  check_source_imports-total :
      (ss : List Scan)
      → 0 < fuel
      → All IsEnough ss
      → (messages : List String) × (check_source_imports fuel src ss ≡ some messages)
        × ((messages ≡ []) ↔ All IsCleanCrate ss)
  unfolding check_source_imports
  check_source_imports-total [] q h = ([], refl, (λ e. tt, λ e. refl))
  check_source_imports-total (s ∷ ss) q h =
      let (here, e, iff) = scan_crate-total s q h.0 in
      let (later, e', iff') = check_source_imports-total ss q h.1 in
      (
        here ++ later,
        rw (e, e', check_source_imports) refl,
        iff_trans (append-nil_iff here later) (iff_pair iff iff'),
      )

  -- With a round of the walk for each directory the check ends, and it has nothing to say exactly
  -- if no foundation crate depends on a capability crate, no transport on the three that are
  -- forbidden to it, and every Rust source below the scanned directories that can be read parses
  -- and imports, at any depth of its `use` trees, no path behind a forbidden prefix.
  pub run_check-passes :
      (packages : List Package)
      → 0 < fuel
      → All IsEnough scans
      → (messages : List String) × (run_check fuel (ok packages) src ≡ some (ok messages))
        × ((messages ≡ []) ↔ (
            (IsLayered packages capability foundation
              × IsLayered packages forbidden_transport transport)
            × All IsCleanCrate scans))
  unfolding run_check
  run_check-passes packages q h =
      let (messages, e, iff) = check_source_imports-total scans q h in
      (
        check_dependencies packages ++ messages,
        rw (e, run_check) refl,
        iff_trans (append-nil_iff (check_dependencies packages) messages)
            (iff_pair (check_dependencies-nil_iff packages) iff),
      )
