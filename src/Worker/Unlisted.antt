-- ===== src/Worker/Unlisted.antt =====
-- From an include file with too many pages to the UPDATE of its action.
use easyforetell.Prelude.{
  ℕ, ◌-◌, ◌<◌, ◌≡◌, refl, Bool, true, List, none, some, arith, length, lt→ltb, set,
}
use easyforetell.Memory.{Bytes, codes}
use easyforetell.StringLists.{StringList}
use easyforetell.Queue.{buffer_size}
use easyforetell.Config.{LibConfig, read_variable_list}
use easyforetell.Replace.{read_url_list}
use easyforetell.Actions.{Action, Slot, action, load_urls, variable_max_count, url_max_count}
use easyforetell.Worker.{update_action}
use easyforetell.Worker.Refresh.{update_action-null_list}

module _ (lib : LibConfig) (fuel : ℕ) (allocated : ℕ → Bool) where
  open lib use {Config, Setting, config_lookup, config_setting_length}

  too_many_pages :
      (cfg : Config) (setting : Setting) (n : ℕ) (variables : StringList) (count : ℕ)
      → config_lookup cfg (codes "cache.pages") ≡ some setting
      → url_max_count < config_setting_length setting
      → read_url_list lib fuel true allocated cfg n url_max_count variables count
        ≡ some (none, config_setting_length setting)
  unfolding read_url_list
  too_many_pages cfg setting n variables count e over =
      rw (e, read_url_list, lt→ltb url_max_count (config_setting_length setting) over)

  -- For an include file whose variables can be read and whose cache.pages has more than
  -- URL_MAX_COUNT elements, `load_action` from the reading of the variables on succeeds, and it
  -- stores an action on which an UPDATE job reads through a NULL pointer.
  pub load_urls-null_list :
      (cfg : Config) (setting : Setting) (actions : List Slot) (index : ℕ) (a : Action)
      (variables : StringList) (count : ℕ) (new_command : Bytes)
      → read_variable_list lib true allocated cfg 0 variable_max_count
        ≡ some (some variables, count)
      → config_lookup cfg (codes "cache.pages") ≡ some setting
      → url_max_count < config_setting_length setting
      → length new_command ≡ buffer_size
      → (a' : Action) × (load_urls lib fuel allocated cfg actions index a
          ≡ some (set actions index (action a'), true))
        × (update_action new_command a' ≡ none)
  unfolding load_urls
  load_urls-null_list cfg setting actions index a variables count new_command e f over size =
      let a' : Action = record a { refresh_list = none; count = config_setting_length setting } in
      (
        a',
        rw (e, too_many_pages cfg setting a.count variables count f over),
        update_action-null_list new_command a' (config_setting_length setting - 1) size refl
            (omega (arith, over)),
      )
