-- ===== src/Directory/Tests.antt =====
-- A directory with two files of the extension, one of them not a regular one.
use easyforetell.Prelude.{
  ℕ, ◌≡◌, refl, Bool, true, false, List, [], ◌∷◌, some, if◌then◌else◌, arith, take,
}
use easyforetell.Memory.{Bytes, codes, equal}
use easyforetell.Directory.{
  LibDirectory, list_files, list_entries, has_extension, directory_prefix, end_list, is_file,
}
use easyforetell.Directory.Listing.{listed, matching, list_files_lem}
use easyforetell.StringLists.{init_string_list, dup_string}

abbrev names : List Bytes
names = codes "." ∷ codes ".." ∷ codes "a.conf" ∷ codes "b.conf" ∷ codes "notes" ∷ []

abbrev lib : LibDirectory
lib = record {
  opendir = λ dir. some names;
  regular = λ name. if equal name (codes "etc/b.conf") then some false else some true;
}

abbrev allocated : ℕ → Bool
allocated i = true

prefix_lem : directory_prefix (codes "etc") ≡ some (codes "etc/")
unfolding directory_prefix
prefix_lem = refl

list_files_lem_example :
    list_files lib true allocated (codes "etc") (some (codes ".conf"))
    ≡ some (some (listed (take 32 (matching lib (codes "etc/") (codes ".conf") names))))
list_files_lem_example =
    list_files_lem lib allocated (codes "etc") (codes ".conf") (codes "etc/") names (λ i. refl) refl
      prefix_lem (omega arith)

one_file :
    list_files lib true allocated (codes "etc") (some (codes ".conf"))
    ≡ some (some (listed (codes "etc/a.conf" ∷ [])))
unfolding equal list_files list_entries has_extension directory_prefix end_list is_file
    init_string_list dup_string
one_file = refl
