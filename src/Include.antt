-- ===== src/Include.antt =====
-- src/queral.c, the part of `main` that loads the files of the include directory. Texts are lists of
-- bytes without their NUL.
pub mod Loading
pub mod Files
mod Tests
use easyforetell.Prelude.{
  ℕ, zero, suc, ◌+◌, Bool, List, [], ◌∷◌, Option, none, some, ◌>>=◌, ltb, if◌then◌else◌,
}
use easyforetell.Memory.{Bytes, codes}
use easyforetell.StringLists.{StringList, destroy_string_list}
use easyforetell.Config.{LibConfig}
use easyforetell.Actions.{Slot, create_actions, load_action}
use easyforetell.Directory.{LibDirectory, list_files}

-- The texts of a list up to its first NULL, which `create_actions` counts; `none` is a read past the
-- list's end.
unfoldable pub names_of : StringList → Option (List Bytes)
names_of [] = none
names_of (none ∷ list) = some []
names_of (some t ∷ list) = do ts ← names_of list; some (t ∷ ts)

-- The daemon goes on with `actions`, having freed these names; or it exits.
pub data Included : Type 0 where
  exits : Included
  included : Option (List Slot) → List Bytes → Included

abbrev default_conf_file_extension : Bytes
default_conf_file_extension = codes ".conf"

abbrev pub queral_version : Bytes
queral_version = codes "1.0"

module _ (lib : LibConfig) (directory : LibDirectory) (fuel : ℕ) (allocated : ℕ → Bool) where
  -- The loop over the files that are left, from place `i` on: the array and the last `i`.
  -- `load_action` never returns -1.
  unfoldable pub load_each : StringList → ℕ → List Slot → Option (List Slot × ℕ)
  load_each [] i actions = none
  load_each (none ∷ files) i actions = some (actions, i)
  load_each (some file ∷ files) i actions = do
    (actions', res) ← load_action lib fuel allocated actions file i queral_version
    load_each files (i + 1) actions'

  -- With what `create_actions` returned.
  unfoldable pub with_actions : StringList → Option (List Slot) → Option Included
  with_actions include_files none = some exits
  with_actions include_files (some actions) = do
    (loaded, i) ← load_each include_files 0 actions
    some (included (some loaded) (destroy_string_list include_files i))

  -- From `create_actions` on; `actions_allocated` is what its malloc does.
  unfoldable pub load_files : Bool → StringList → Option Included
  load_files actions_allocated include_files = do
    names ← names_of include_files
    with_actions include_files (create_actions actions_allocated names)

  -- With an empty name of the directory, or where the files cannot be listed, `actions` stays NULL.
  unfoldable pub load_include : Bool → Bool → Bytes → Option Included
  load_include list_allocated actions_allocated [] = some (included none [])
  load_include list_allocated actions_allocated (c ∷ cs) = do
    listed ←
        list_files directory list_allocated allocated (c ∷ cs) (some default_conf_file_extension)
    elim listed [
      | none ↦ some (included none [])
      | some include_files ↦ load_files actions_allocated include_files
    ]
