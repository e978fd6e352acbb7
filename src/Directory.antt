-- ===== src/Directory.antt =====
-- src/file_utils.c: the files of a directory that have an extension. Texts are lists of bytes
-- without their NUL; the size of `filename` is checked where a text is written to it.
pub mod Listing
mod Tests
use easyforetell.Prelude.{
  ℕ, zero, suc, ◌+◌, ◌-◌, Bool, true, false, ◌&&◌, List, [], ◌∷◌, ◌++◌, Option, none, some, ◌>>=◌,
  ltb, if◌then◌else◌, length, drop, set,
}
use easyforetell.Memory.{Bytes, codes, equal}
use easyforetell.StringLists.{StringList, init_string_list, dup_string}
use easyforetell.Config.{path_max}

-- What the operating system tells: the names that `readdir` gives for a directory, which may fail
-- to open, and whether the file of a name, which may fail to open too, is a regular one.
pub record LibDirectory : Type 0 where
  pub opendir : Bytes → Option (List Bytes)
  pub regular : Bytes → Option Bool

abbrev pub max_num_files : ℕ
max_num_files = 32

-- The test of the name's length and of its end.
unfoldable pub has_extension : Bytes → Bytes → Bool
unfolding equal
has_extension ext name =
    ltb (length ext) (length name) && equal (drop (length name - length ext) name) ext

-- `filename` up to `dir_length`. The comparison reads in front of an empty name.
unfoldable pub directory_prefix : Bytes → Option Bytes
unfolding equal
directory_prefix [] = none
directory_prefix (c ∷ cs) =
    let dir = c ∷ cs in
    let prefix = if equal (drop (length dir - 1) dir) (codes "/") then dir else dir ++ codes "/" in
    if ltb (length prefix) path_max then some prefix else none

-- What follows the loop: the NULL behind the files, if there is a place for it.
unfoldable pub end_list : ℕ → StringList → StringList
end_list i file_list = if ltb i max_num_files then set file_list i none else file_list

module _ (lib : LibDirectory) where
  open lib use {opendir, regular}

  unfoldable pub is_file : Bytes → Bool
  is_file filename = elim (regular filename) [ none ↦ false | some res ↦ res ]

  -- The loop over the entries that are left. The outer `none` is a write past `filename`; the
  -- result is NULL after a failed allocation.
  unfoldable pub list_entries :
      (ℕ → Bool) → Bytes → Bytes → List Bytes → ℕ → StringList → Option (Option StringList)
  list_entries allocated prefix ext [] i file_list = some (some (end_list i file_list))
  list_entries allocated prefix ext (name ∷ names) i file_list = elim (ltb i max_num_files) [
    | false ↦ some (some (end_list i file_list))
    | true ↦ elim (has_extension ext name) [
      | false ↦ list_entries allocated prefix ext names i file_list
      | true ↦ elim (ltb (length (prefix ++ name)) path_max) [
        | false ↦ none
        | true ↦ elim (is_file (prefix ++ name)) [
          | false ↦ list_entries allocated prefix ext names i file_list
          | true ↦ elim (dup_string (allocated i) (prefix ++ name)) [
            | none ↦ some none
            | some copy ↦
                list_entries allocated prefix ext names (i + 1) (set file_list i (some copy))
          ]
        ]
      ]
    ]
  ]

  -- `none` as the extension is NULL.
  unfoldable pub list_files : Bool → (ℕ → Bool) → Bytes → Option Bytes → Option (Option StringList)
  list_files list_allocated allocated dir_pathname none = some none
  list_files list_allocated allocated dir_pathname (some ext) = elim (opendir dir_pathname) [
    | none ↦ some none
    | some names ↦ elim (init_string_list list_allocated max_num_files) [
      | none ↦ some none
      | some file_list ↦ do
        prefix ← directory_prefix dir_pathname
        list_entries allocated prefix ext names 0 file_list
    ]
  ]
