-- ===== src/Actions/Tests.antt =====
-- The array of actions at work.
use easyforetell.Prelude.{
  ℕ, ◌≡◌, refl, Bool, true, [], ◌∷◌, some, none, arith, replicate, if◌then◌else◌,
}
use easyforetell.Memory.{Bytes, codes, equal}
use easyforetell.Config.{LibConfig, load_config, check_version, read_string}
use easyforetell.Actions.{Action, garbage, null, action, find_action, destroy_actions, load_action}
use easyforetell.Actions.Find.{first_named, find_action_lem, all_texts, destroy_actions_lem}
use easyforetell.Actions.Load.{Loads, load_action-past_end, load_action-long_name}

abbrev pages : Action
pages = record {
  name = codes "pages";
  refresh_list = some (some (codes "u") ∷ none ∷ []);
  count = 2;
}

find_action_lem_example :
    find_action (action pages ∷ null ∷ garbage ∷ []) (codes "pages")
    ≡ some (first_named (codes "pages") (pages ∷ []))
find_action_lem_example = find_action_lem (pages ∷ []) (garbage ∷ []) (codes "pages")

destroy_actions_lem_example :
    destroy_actions (action pages ∷ null ∷ garbage ∷ []) ≡ some (all_texts (pages ∷ []))
destroy_actions_lem_example = destroy_actions_lem (pages ∷ []) (garbage ∷ [])

-- Every file holds the version and this name.
abbrev naming : Bytes → LibConfig
naming name = record {
  Config = Unit {0};
  Setting = Unit {0};
  config_read_file = λ path. some tt;
  config_lookup = λ cfg path. none;
  config_lookup_string =
      λ cfg path. if equal path (codes "version") then some (codes "1.0") else some name;
  config_lookup_int = λ cfg path. none;
  config_setting_length = λ setting. 0;
  config_setting_get_elem = λ setting i. setting;
  config_setting_lookup_string = λ setting path. none;
  config_setting_lookup_int = λ setting path. none;
}

abbrev allocated : ℕ → Bool
allocated i = true

naming-Loads :
    (name : Bytes)
    → read_string (naming name) tt (codes "cache.name") 256 ≡ some name
    → Loads (naming name) 5 allocated (codes "a.conf") (codes "1.0") name
unfolding load_config check_version equal
naming-Loads name e = record { cfg = tt; opened = refl; checked = refl; named = e }

short_name : read_string (naming (codes "pages")) tt (codes "cache.name") 256 ≡ some (codes "pages")
unfolding read_string equal
short_name = refl

long_name :
    read_string (naming (replicate 256 b'a')) tt (codes "cache.name") 256
    ≡ some (replicate 256 b'a')
unfolding read_string equal
long_name = refl

load_action-past_end_example :
    load_action (naming (codes "pages")) 5 allocated (null ∷ []) (codes "a.conf") 0 (codes "1.0")
    ≡ none
load_action-past_end_example =
    load_action-past_end (naming (codes "pages")) 5 allocated (null ∷ []) (codes "a.conf")
      (codes "1.0") (codes "pages") 0 (naming-Loads (codes "pages") short_name) refl

load_action-long_name_example :
    load_action
      (naming (replicate 256 b'a'))
      5
      allocated
      (null ∷ garbage ∷ [])
      (codes "a.conf")
      0
      (codes "1.0")
    ≡ none
load_action-long_name_example =
    load_action-long_name (naming (replicate 256 b'a')) 5 allocated (null ∷ garbage ∷ [])
      (codes "a.conf") (codes "1.0") (replicate 256 b'a') 0
      (naming-Loads (replicate 256 b'a') long_name) (omega arith)
