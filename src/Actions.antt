-- ===== src/Actions.antt =====
-- src/action.c: the actions that the files of the include directory define. The array of actions
-- ends at the first NULL.
pub mod Find
pub mod Load
mod Tests
use easyforetell.Prelude.{
  ℕ, zero, suc, ◌+◌, Bool, true, false, List, [], ◌∷◌, ◌++◌, Option, none, some, ◌>>=◌, ltb,
  if◌then◌else◌, length, replicate, set,
}
use easyforetell.Logger.{Logged, log_info}
use easyforetell.Memory.{Bytes, codes, equal}
use easyforetell.StringLists.{StringList, destroy_string_list}
use easyforetell.Config.{LibConfig, load_config, check_version, read_string, read_variable_list}
use easyforetell.Replace.{read_url_list}

-- `action_t`
pub record Action : Type 0 where
  pub name : Bytes
  pub refresh_list : Option StringList
  pub count : ℕ

-- A place of the array; malloc leaves garbage in it.
pub data Slot : Type 0 where
  garbage null : Slot
  action : Action → Slot

abbrev pub argument_max_length : ℕ
argument_max_length = 256

abbrev pub variable_max_count : ℕ
variable_max_count = 32

abbrev pub url_max_count : ℕ
url_max_count = 32

-- The array has a place for each file, and none for the NULL at its end.
unfoldable pub create_actions : Bool → List Bytes → Option (List Slot)
create_actions allocated [] = none
create_actions allocated (file ∷ files) =
    if allocated then some (null ∷ replicate (length files) garbage) else none

-- strcpy into `name[ARGUMENT_MAX_LENGTH]`; a failed malloc faults in the log line of `load_action`.
unfoldable pub create_action : Bool → Bytes → Option Action
create_action allocated name =
    let made =
      if allocated then some (record { name = name; refresh_list = none; count = 0 }) else none in
    if ltb (length name) argument_max_length then made else none

-- `if (actions[index + 1]) actions[index + 1] = NULL`: whatever is there, it is NULL after it.
-- `none` is an access past the array.
unfoldable pub end_after : List Slot → ℕ → Option (List Slot)
end_after actions next = if ltb next (length actions) then some (set actions next null) else none

-- The texts of a refresh list that `destroy_actions` frees; a list that is NULL has no texts.
unfoldable pub refresh_texts : Option StringList → ℕ → List Bytes
refresh_texts none count = []
refresh_texts (some list) count = destroy_string_list list count

-- What `destroy_actions` frees, up to the first NULL.
unfoldable pub destroy_actions : List Slot → Option (List Bytes)
unfolding refresh_texts
destroy_actions [] = none
destroy_actions (garbage ∷ slots) = none
destroy_actions (null ∷ slots) = some []
destroy_actions (action a ∷ slots) = do
  freed ← destroy_actions slots
  some (a.name ∷ (refresh_texts a.refresh_list a.count ++ freed))

-- The loop of `find_action`: it reads up to the action or the first NULL.
unfoldable pub find_action : List Slot → Bytes → Option (Option Action)
find_action [] name = none
find_action (garbage ∷ slots) name = none
find_action (null ∷ slots) name = some none
find_action (action a ∷ slots) name =
    let rest = find_action slots name in if equal a.name name then some (some a) else rest

-- `load_action` at the name of its action
unfoldable pub log_loading : Bytes → Option Logged
log_loading name = log_info (codes "Loading cache configuration: '" ++ (name ++ codes "'"))

module _ (lib : LibConfig) (fuel : ℕ) (allocated : ℕ → Bool) where
  open lib use {Config}

  -- From `read_variable_list` on, with the new action at `index`.
  unfoldable pub load_urls : Config → List Slot → ℕ → Action → Option (List Slot × Bool)
  load_urls cfg actions index a = do
    (variables, variable_count) ← read_variable_list lib true allocated cfg 0 variable_max_count
    elim variables [
      | none ↦ some (actions, false)
      | some variable_list ↦ do
        (urls, count) ←
            read_url_list lib fuel true allocated cfg a.count url_max_count variable_list
              variable_count
        let a' = record a { refresh_list = urls; count = count }
        some (set actions index (action a'), true)
    ]

  -- The readings at the front of `load_action`: the configuration and the cache's name.
  unfoldable pub read_name : Bytes → Bytes → Option (Config × Bytes)
  read_name include_file version = do
    cfg ← load_config lib include_file
    v ← check_version lib cfg version
    str ← read_string lib cfg (codes "cache.name") argument_max_length
    some (cfg, str)

  unfoldable pub load_named : List Slot → ℕ → Option (Config × Bytes) → Option (List Slot × Bool)
  load_named actions index none = some (actions, false)
  load_named actions index (some (cfg, str)) = do
    a ← create_action true str
    ended ← end_after (set actions index (action a)) (index + 1)
    logged ← log_loading a.name
    load_urls cfg ended index a

  -- `load_action`, where malloc gives the array of a list and the action; true is its result 1 and
  -- false its result 0.
  unfoldable pub load_action : List Slot → Bytes → ℕ → Bytes → Option (List Slot × Bool)
  load_action actions include_file index version =
      load_named actions index (read_name include_file version)
