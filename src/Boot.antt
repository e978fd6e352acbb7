-- ===== src/Boot.antt =====
-- src/queral.c, `main` from its arguments up to `daemonize`, and `exit_`. Allocation is told by
-- Booleans; the other log lines are left out.
pub mod Configured
pub mod Usage
mod Tests
use easyforetell.Prelude.{ℕ, Bool, false, List, [], ◌∷◌, ◌++◌, Option, none, some, ◌>>=◌}
use easyforetell.Memory.{Bytes, codes}
use easyforetell.Logger.{Logged, log_info}
use easyforetell.StringLists.{StringList, destroy_string_list}
use easyforetell.Config.{LibConfig, load_config, check_version, read_memcached_servers}
use easyforetell.Config.Settings.{Settings, load_settings}
use easyforetell.Actions.{Slot, destroy_actions}
use easyforetell.Directory.{LibDirectory}
use easyforetell.Include.{Included, exits, included, queral_version, load_include}
use easyforetell.Options.{Options, Given, options, usage, overflow, load_options}

-- What `main` has when it becomes a daemon.
pub record Booted : Type 0 where
  pub given : Options
  pub settings : Settings
  pub memcached_servers : StringList
  pub server_count : ℕ
  pub actions : Option (List Slot)

-- It ends in `exit_`, which frees these texts, or goes on.
pub data Boot : Type 0 where
  ends : List Bytes → Boot
  boots : Booted → Boot

-- CONFIG_FILENAME
abbrev default_config_filename : Bytes
default_config_filename = codes "/etc/queral.conf"

-- The options before the command line is read.
abbrev pub defaults : Options
defaults = record { verbose = false; config_filename = default_config_filename }

-- `usage`, for the program's name
unfoldable pub show_usage : Bytes → Option Logged
show_usage program = log_info (codes "Usage: " ++ (program ++ codes " [-f config] [-v]"))

-- Nothing is freed through NULL.
unfoldable pub free_actions : Option (List Slot) → Option (List Bytes)
free_actions none = some []
free_actions (some actions) = destroy_actions actions

unfoldable pub free_servers : Option StringList → ℕ → List Bytes
free_servers none server_count = []
free_servers (some servers) server_count = destroy_string_list servers server_count

unfoldable pub exit_ : Option StringList → ℕ → Option (List Slot) → Option Boot
exit_ memcached_servers server_count actions = do
  freed ← free_actions actions
  some (ends (freed ++ free_servers memcached_servers server_count))

module _ (lib : LibConfig) (directory : LibDirectory) (fuel : ℕ) (allocated : ℕ → Bool)
    (servers_allocated files_allocated actions_allocated : Bool) where
  open lib use {Config}

  -- "Load secondary configuration"
  unfoldable pub load_secondary : Options → Settings → StringList → ℕ → Option Boot
  load_secondary given settings servers server_count = do
    secondary ←
        load_include lib directory fuel allocated files_allocated actions_allocated
          settings.include_dir
    elim secondary [
      | exits ↦ exit_ (some servers) server_count none
      | included actions freed ↦ some (
          boots (record {
            given = given;
            settings = settings;
            memcached_servers = servers;
            server_count = server_count;
            actions = actions;
          }))
    ]

  -- With what `read_memcached_servers` returned.
  unfoldable pub with_list : Options → Settings → Option StringList → ℕ → Option Boot
  with_list given settings none server_count = exit_ none server_count none
  with_list given settings (some servers) server_count =
      load_secondary given settings servers server_count

  -- With a configuration of the version.
  unfoldable pub with_version : Options → Config → Option Bytes → Option Boot
  with_version given cfg none = exit_ none 0 none
  with_version given cfg (some version) = do
    (servers, server_count) ← read_memcached_servers lib servers_allocated allocated cfg 0
    with_list given (load_settings lib cfg) servers server_count

  unfoldable pub with_config : Options → Option Config → Option Boot
  with_config given none = exit_ none 0 none
  with_config given (some cfg) = with_version given cfg (check_version lib cfg queral_version)

  unfoldable pub with_options : Bytes → Given → Option Boot
  with_options program overflow = none
  with_options program usage = do shown ← show_usage program; exit_ none 0 none
  with_options program (options given) = with_config given (load_config lib given.config_filename)

  -- On `argv`; without a program's name there are no arguments either.
  unfoldable pub boot : List Bytes → Option Boot
  boot [] = with_options [] (load_options [] false defaults)
  boot (program ∷ args) = with_options program (load_options args false defaults)
