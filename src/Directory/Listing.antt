-- ===== src/Directory/Listing.antt =====
-- What `list_files` lists.
use easyforetell.Prelude.{
  ℕ, zero, suc, ◌+◌, ◌-◌, ◌<◌, ◌≡◌, refl, sym, ap, ◌∙◌, Bool, true, List, [], ◌∷◌, ◌++◌,
  append_assoc, append-nil, map, Option, none, some, arith, length, length-append, take, set,
  replicate, ltb, lt→ltb, not_lt→ltb, Bool-cases, inl, inr, if◌then◌else◌,
}
use easyforetell.Memory.{Bytes}
use easyforetell.StringLists.{StringList, init_string_list, dup_string}
use easyforetell.StringLists.Fill.{set-next}
use easyforetell.Config.{path_max}
use easyforetell.Directory.{
  LibDirectory, max_num_files, has_extension, directory_prefix, end_list, is_file, list_entries,
  list_files,
}

set-none :
    (files : List Bytes) (rest : StringList)
    → set (map some files ++ none ∷ rest) (length files) none ≡ map some files ++ none ∷ rest
set-none [] rest = refl
set-none (f ∷ files) rest = ap (λ k. some f ∷ k) (set-none files rest)

-- A list with these files, then NULLs.
abbrev pub listed : List Bytes → StringList
listed files = map some files ++ replicate (max_num_files - length files) none

unchanged :
    (files : List Bytes) (left : ℕ)
    → length files + left ≡ max_num_files
    → end_list (length files) (map some files ++ replicate left none)
      ≡ map some files ++ replicate left none
unfolding end_list
unchanged files zero e = rw (not_lt→ltb (length files) max_num_files (omega arith))
unchanged files (suc left) e =
    rw (lt→ltb (length files) max_num_files (omega arith)) (set-none files (replicate left none))

ended :
    (files : List Bytes) (left : ℕ)
    → length files + left ≡ max_num_files
    → ◌≡◌ {A = Option (Option StringList)}
        (some (some (end_list (length files) (map some files ++ replicate left none))))
        (some (some (listed (files ++ []))))
ended files left e =
    ap (λ k. some (some k)) (unchanged files left e)
    ∙ ap (λ k. some (some (map some files ++ replicate k none))) {x = left} (omega (arith, e))
    ∙ ap (λ k. some (some (listed k))) (sym (append-nil files))

module _ (lib : LibDirectory) where
  open lib use {opendir, regular}

  -- The files of these entries, under the directory's name.
  unfoldable pub matching : Bytes → Bytes → List Bytes → List Bytes
  matching prefix ext [] = []
  matching prefix ext (name ∷ names) =
      let rest = matching prefix ext names in
      if has_extension ext name
      then (if is_file lib (prefix ++ name) then (prefix ++ name) ∷ rest else rest)
      else rest

  -- Each entry with the extension fits `filename`.
  abbrev pub AllFit : Bytes → Bytes → List Bytes → Type 0
  AllFit prefix ext [] = Unit {0}
  AllFit prefix ext (name ∷ names) = (length (prefix ++ name) < path_max) × AllFit prefix ext names

  list_entries_lem :
      (allocated : ℕ → Bool) (prefix ext : Bytes) (names : List Bytes) (files : List Bytes)
      (left : ℕ)
      → ((i : ℕ) → allocated i ≡ true)
      → AllFit prefix ext names
      → length files + left ≡ max_num_files
      → list_entries lib allocated prefix ext names
          (length files)
          (map some files ++ replicate left none)
        ≡ some (some (listed (files ++ take left (matching prefix ext names))))
  unfolding list_entries matching dup_string
  list_entries_lem allocated prefix ext [] files zero ok fit e = ended files zero e
  list_entries_lem allocated prefix ext [] files (suc left) ok fit e = ended files (suc left) e
  list_entries_lem allocated prefix ext (name ∷ names) files zero ok fit e =
      rw (not_lt→ltb (length files) max_num_files (omega arith), list_entries) (ended files zero e)
  list_entries_lem allocated prefix ext (name ∷ names) files (suc left) ok fit e =
      elim (Bool-cases (has_extension ext name)) [
        | inr other ↦
            rw (room, list_entries, other)
              (list_entries_lem allocated prefix ext names files (suc left) ok fit.1 e)
        | inl ends ↦ elim (Bool-cases (is_file lib (prefix ++ name))) [
          | inr no_file ↦
              rw (room, list_entries, ends, fits, no_file)
                (list_entries_lem allocated prefix ext names files (suc left) ok fit.1 e)
          | inl file ↦
              rw
                (room, list_entries, ends, fits, file, copied, set-next files left (prefix ++ name))
                (ap
                    (λ k.
                      list_entries lib allocated prefix ext names k
                        (map some (files ++ (prefix ++ name) ∷ []) ++ replicate left none))
                    {x = length files + 1}
                    (omega (arith, length-append files ((prefix ++ name) ∷ [])))
                  ∙ list_entries_lem allocated prefix ext names (files ++ (prefix ++ name) ∷ [])
                      left ok fit.1 (omega (arith, length-append files ((prefix ++ name) ∷ [])))
                  ∙ ap (λ k. some (some (listed k)))
                      (append_assoc files ((prefix ++ name) ∷ [])
                        (take left (matching prefix ext names))))
        ]
      ]
    where
      room : ltb (length files) max_num_files ≡ true
      room = lt→ltb (length files) max_num_files (omega arith)

      fits : ltb (length (prefix ++ name)) path_max ≡ true
      fits = lt→ltb (length (prefix ++ name)) path_max fit.0

      copied : dup_string (allocated (length files)) (prefix ++ name) ≡ some (prefix ++ name)
      copied = rw (ok (length files))

  -- If the directory opens, every allocation succeeds, and the name of the directory with its
  -- separator and with each of its entries is shorter than PATH_MAX, then `list_files` gives the
  -- first MAX_NUM_FILES regular files that end with the extension and are longer than it, each
  -- with the directory in front, in the order of the directory, and then NULLs up to
  -- MAX_NUM_FILES places.
  pub list_files_lem :
      (allocated : ℕ → Bool) (dir ext prefix : Bytes) (names : List Bytes)
      → ((i : ℕ) → allocated i ≡ true)
      → opendir dir ≡ some names
      → directory_prefix dir ≡ some prefix
      → AllFit prefix ext names
      → list_files lib true allocated dir (some ext)
        ≡ some (some (listed (take max_num_files (matching prefix ext names))))
  unfolding list_files init_string_list
  list_files_lem allocated dir ext prefix names ok opened named fit =
      rw (opened, list_files, named)
        (list_entries_lem allocated prefix ext names [] max_num_files ok fit refl)
