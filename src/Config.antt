-- ===== src/Config.antt =====
-- src/config_utils.c: the readers of the configuration. libconfig is a parameter: what it finds at
-- a path. Texts are lists of bytes without their NUL.
pub mod Settings
mod Tests
use easyforetell.Prelude.{
  ℕ, zero, suc, ◌+◌, Bool, true, false, not, ◌&&◌, List, [], ◌∷◌, ◌++◌, Option, none, some, ltb,
  leb, if◌then◌else◌, length, ℤ, ◌>>=◌,
}
use easyforetell.Prelude.Int.{is_negative, ltb_ℤ, show}
use easyforetell.Memory.{Bytes, codes, equal, index_of}
use easyforetell.StringLists.{StringList, Entry, fault, skip, text, init_string_list, fill}

-- What the readers call of libconfig, on a configuration that is loaded.
pub record LibConfig : Type 1 where
  pub Config : Type 0
  pub Setting : Type 0
  pub config_read_file : Bytes → Option Config
  pub config_lookup : Config → Bytes → Option Setting
  pub config_lookup_string : Config → Bytes → Option Bytes
  pub config_lookup_int : Config → Bytes → Option ℤ
  pub config_setting_length : Setting → ℕ
  pub config_setting_get_elem : Setting → ℕ → Setting
  pub config_setting_lookup_string : Setting → Bytes → Option Bytes
  pub config_setting_lookup_int : Setting → Bytes → Option ℤ

-- PATH_MAX of <limits.h>
abbrev pub path_max : ℕ
path_max = 4096

abbrev pub max_key_prefix_length : ℕ
max_key_prefix_length = 13

abbrev pub max_line_length : ℕ
max_line_length = 256

-- A text below a length; where it fails the reader returns -1.
unfoldable pub shorter : ℕ → Option Bytes → Option Bytes
shorter limit none = none
shorter limit (some value) = if leb limit (length value) then none else some value

module _ (lib : LibConfig) where
  open lib use {
    Config, Setting, config_read_file, config_lookup, config_lookup_string, config_lookup_int,
    config_setting_length, config_setting_get_elem, config_setting_lookup_string,
    config_setting_lookup_int,
  }

  -- `none` is the result -1.
  unfoldable pub load_config : Bytes → Option Config
  load_config cfg_filename = config_read_file cfg_filename

  -- The result 1 is the version, -1 is `none`.
  unfoldable pub check_version : Config → Bytes → Option Bytes
  check_version cfg expected = do
    version ← config_lookup_string cfg (codes "version")
    if equal expected version then some version else none

  unfoldable pub read_pidfile_filename : Config → Option Bytes
  unfolding shorter
  read_pidfile_filename cfg = shorter path_max (config_lookup_string cfg (codes "pidfile.filename"))

  unfoldable pub read_socket_filename : Config → Option Bytes
  unfolding shorter
  read_socket_filename cfg = shorter path_max (config_lookup_string cfg (codes "socket.filename"))

  -- `workers_count < 0L` compares the pointer, which is not negative: the -1 below it never comes.
  unfoldable pub read_workers_count : Config → Option ℤ
  read_workers_count cfg = config_lookup_int cfg (codes "worker.threads")

  -- As above, the comparison is of the pointer.
  unfoldable pub read_worker_contention : Config → Option ℤ
  read_worker_contention cfg = config_lookup_int cfg (codes "worker.contention")

  unfoldable pub read_memcached_expiration : Config → Option ℤ
  read_memcached_expiration cfg = do
    value ← config_lookup_int cfg (codes "memcached.expiration")
    if is_negative value then none else some value

  unfoldable pub read_memcached_key_prefix : Config → Option Bytes
  unfolding shorter
  read_memcached_key_prefix cfg =
      shorter max_key_prefix_length (config_lookup_string cfg (codes "memcached.key.prefix"))

  unfoldable pub read_include_dir : Config → Option Bytes
  unfolding shorter
  read_include_dir cfg = shorter path_max (config_lookup_string cfg (codes "include_dir"))

  unfoldable pub read_string : Config → Bytes → ℕ → Option Bytes
  read_string cfg key max_length = do
    value ← config_lookup_string cfg key
    if ltb max_length (length value) then none else some value

  unfoldable pub read_int : Config → Bytes → ℤ → ℤ → Option ℤ
  read_int cfg key min max = do
    read_value ← config_lookup_int cfg key
    if ltb_ℤ read_value min && ltb_ℤ max read_value then none else some read_value

  -- sprintf into `tmp[MAX_LINE_LENGTH]`
  abbrev pub in_line : Bytes → Entry
  in_line t = if ltb (length t) max_line_length then text t else fault

  unfoldable pub server_entry : Setting → ℕ → Entry
  server_entry setting i =
      let server = config_setting_get_elem setting i in
      elim (config_setting_lookup_string server (codes "hostname")) [
        | none ↦ skip
        | some hostname ↦ elim (config_setting_lookup_int server (codes "port")) [
          | none ↦ skip
          | some port ↦ in_line (hostname ++ (b':' ∷ show port))
        ]
      ]

  unfoldable pub variable_entry : Setting → ℕ → Entry
  variable_entry setting i =
      let variable = config_setting_get_elem setting i in
      elim (config_setting_lookup_string variable (codes "name")) [
        | none ↦ skip
        | some name ↦ elim (config_setting_lookup_string variable (codes "value")) [
          | none ↦ skip
          | some value ↦ elim (index_of b' ' name) [
            | some found ↦ skip
            | none ↦ in_line (b'$' ∷ (name ++ (b' ' ∷ value)))
          ]
        ]
      ]

  -- The list and `*server_count`. `list_allocated` and `allocated` tell which malloc succeeds.
  unfoldable pub read_memcached_servers :
      Bool → (ℕ → Bool) → Config → ℕ → Option (Option StringList × ℕ)
  read_memcached_servers list_allocated allocated cfg server_count =
      elim (config_lookup cfg (codes "memcached.servers")) [
        | none ↦ some (none, server_count)
        | some setting ↦ do
          let count = config_setting_length setting
          list ←
              fill allocated (server_entry setting) 0 count 0
                (init_string_list list_allocated count)
          some (list, count)
      ]

  unfoldable pub read_variable_list :
      Bool → (ℕ → Bool) → Config → ℕ → ℕ → Option (Option StringList × ℕ)
  read_variable_list list_allocated allocated cfg variable_count maximum_count =
      elim (config_lookup cfg (codes "cache.variables")) [
        | none ↦ some (none, variable_count)
        | some setting ↦
            let count = config_setting_length setting in
            let filled = do
              list ←
                  fill allocated (variable_entry setting) 0 count 0
                    (init_string_list list_allocated count)
              some (list, count)
            in if ltb maximum_count count then some (none, count) else filled
      ]
