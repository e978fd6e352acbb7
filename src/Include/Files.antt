-- ===== src/Include/Files.antt =====
-- Which actions the daemon has after loading its include directory.
use easyforetell.Prelude.{
  ℕ, ◌-◌, ◌≤◌, ◌≡◌, refl, ap, ◌∙◌, Bool, true, List, [], ◌∷◌, ◌++◌, map, Option, none, some, arith,
  length, length-take, take, inl, inr, ◌⊎◌, ltb, not_lt→ltb, if◌then◌else◌,
}
use easyforetell.Memory.{Bytes, codes}
use easyforetell.Config.{LibConfig}
use easyforetell.Actions.{Action, null, action, create_actions}
use easyforetell.Directory.{LibDirectory, max_num_files, directory_prefix}
use easyforetell.Directory.Listing.{listed, matching, AllFit, list_files_lem}
use easyforetell.Include.{
  names_of, Included, exits, included, with_actions, load_files, load_include,
}

names_of-full : (files : List Bytes) → names_of (map some files ++ []) ≡ none
unfolding names_of
names_of-full [] = refl
names_of-full (file ∷ files) = rw (names_of-full files)

module _ (lib : LibConfig) (directory : LibDirectory) (fuel : ℕ) (allocated : ℕ → Bool) where
  open lib use {Config}
  open directory use {opendir}

  -- The actions of all files but the last, which is passed over if it does not name a cache of the
  -- version; if it does, `actions` is written past its end.
  abbrev pub without_last : List Action → List Bytes → Option (Config × Bytes) → Option Included
  without_last acts files none = some (included (some (map action acts ++ null ∷ [])) files)
  without_last acts files (some read) = none

-- A directory that opens, with names that fit their buffer, where every allocation succeeds.
module _ (lib : LibConfig) (directory : LibDirectory) (fuel : ℕ) (allocated : ℕ → Bool) where
  open directory use {opendir}

  pub record Opens (dir prefix : Bytes) (names : List Bytes) : Type 0 where
    pub ok : (i : ℕ) → allocated i ≡ true
    pub opened : opendir dir ≡ some names
    pub named : directory_prefix dir ≡ some prefix
    pub fit : AllFit directory prefix (codes ".conf") names

  load_include-listed :
      (dir prefix : Bytes) (names files : List Bytes) (b : Bool)
      → Opens dir prefix names
      → matching directory prefix (codes ".conf") names ≡ files
      → load_include lib directory fuel allocated true b dir
        ≡ load_files lib directory fuel allocated b (listed (take max_num_files files))
  unfolding load_include directory_prefix
  load_include-listed [] prefix names files b o found = let e = o.named in absurd (cc)
  load_include-listed (c ∷ cs) prefix names files b o found =
      rw
        (list_files_lem directory allocated (c ∷ cs) (codes ".conf") prefix names o.ok o.opened
          o.named o.fit)
        (ap (λ k. load_files lib directory fuel allocated b (listed (take max_num_files k))) found)

  -- For such an include directory with any files of the extension .conf: without one the daemon
  -- exits, and with MAX_NUM_FILES or more of them, where the array of actions would be allocated
  -- or not, it reads past the list of files.
  pub load_include-bounds :
      (dir prefix : Bytes) (names files : List Bytes) (b : Bool)
      → Opens dir prefix names
      → matching directory prefix (codes ".conf") names ≡ files
      → (length files ≡ 0) ⊎ (max_num_files ≤ length files)
      → load_include lib directory fuel allocated true b dir
        ≡ (if ltb (length files) 1 then some exits else none)
  unfolding load_files with_actions names_of create_actions
  load_include-bounds dir prefix names [] b o found h =
      load_include-listed dir prefix names [] b o found
  load_include-bounds dir prefix names (file ∷ files) b o found h =
      let all = file ∷ files in
      let many : max_num_files ≤ length all = elim h [ inl e ↦ absurd (omega arith) | inr l ↦ l ] in
      let count : max_num_files - length (take max_num_files all) ≡ 0 =
        omega (arith, length-take max_num_files all) in
      load_include-listed dir prefix names all b o found
      ∙ rw (count, names_of-full (take max_num_files all), not_lt→ltb (length all) 1 (omega arith))
