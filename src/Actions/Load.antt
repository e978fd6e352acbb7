-- ===== src/Actions/Load.antt =====
-- Loading the files of the include directory into the array that `create_actions` makes.
use easyforetell.Prelude.{
  ℕ, ◌+◌, ◌≡◌, ◌≤◌, ap, ◌∙◌, Bool, List, none, some, arith, length, length-set, ltb, not_lt→ltb,
  set, inl, inr, Bool-cases,
}
use easyforetell.Memory.{Bytes, codes}
use easyforetell.Config.{LibConfig, load_config, check_version, read_string}
use easyforetell.Actions.{
  Slot, action, create_action, end_after, read_name, load_named, load_action, argument_max_length,
}

module _ (lib : LibConfig) (fuel : ℕ) (allocated : ℕ → Bool) where
  open lib use {Config}

  -- A file of the right version with a name for its cache.
  pub record Loads (file version name : Bytes) : Type 0 where
    pub cfg : Config
    pub opened : load_config lib file ≡ some cfg
    pub checked : check_version lib cfg version ≡ some version
    pub named : read_string lib cfg (codes "cache.name") argument_max_length ≡ some name

  read_name_lem :
      (file version name : Bytes) (l : Loads file version name)
      → read_name lib fuel allocated file version ≡ some (l.cfg, name)
  unfolding read_name
  read_name_lem file version name l = rw (l.opened, l.checked, l.named)

  -- Loading a file of the right version with a name for its cache at the last place of the array
  -- of actions accesses the array past its end.
  pub load_action-past_end :
      (actions : List Slot) (file version name : Bytes) (index : ℕ)
      → Loads file version name
      → index + 1 ≡ length actions
      → load_action lib fuel allocated actions file index version ≡ none
  unfolding load_action load_named create_action end_after
  load_action-past_end actions file version name index l last =
      ap (load_named lib fuel allocated actions index) (read_name_lem file version name l)
      ∙ elim (Bool-cases (ltb (length name) argument_max_length)) [
        | inl short ↦ rw (
          short,
          not_lt→ltb (index + 1)
              (length (
                set actions index
                  (action (record { name = name; refresh_list = none; count = 0 }))))
              (omega (
                arith,
                length-set actions index
                    (action (record { name = name; refresh_list = none; count = 0 })),
              )),
        )
        | inr long ↦ rw long
      ]

  -- Loading a file of the right version whose name for its cache is accepted by `read_string` and
  -- has at least ARGUMENT_MAX_LENGTH bytes writes past the end of the name of the action.
  pub load_action-long_name :
      (actions : List Slot) (file version name : Bytes) (index : ℕ)
      → Loads file version name
      → argument_max_length ≤ length name
      → load_action lib fuel allocated actions file index version ≡ none
  unfolding load_action load_named create_action
  load_action-long_name actions file version name index l long =
      ap (load_named lib fuel allocated actions index) (read_name_lem file version name l)
      ∙ rw (not_lt→ltb (length name) argument_max_length long)
