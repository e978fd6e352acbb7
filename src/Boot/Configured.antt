-- ===== src/Boot/Configured.antt =====
-- What the configuration makes of the daemon and its workers.
use easyforetell.Prelude.{
  ℕ, zero, suc, ◌+◌, ◌-◌, ◌<◌, ◌≡◌, ◌≢◌, refl, Bool, true, false, List, [], ◌∷◌, ◌++◌, map, Option,
  none, some, arith, length, replicate, ltb, lt→ltb, not_lt→ltb, Bool-cases, Option-cases, inl, inr,
}
use easyforetell.Prelude.Int.{show}
use easyforetell.Memory.{Bytes, codes, equal}
use easyforetell.StringLists.{Entry, fault, skip, text, init_string_list}
use easyforetell.StringLists.Fill.{and_then, complete, fill_lem, length-complete}
use easyforetell.Config.{
  LibConfig, path_max, max_line_length, load_config, check_version, server_entry, in_line,
  read_memcached_servers,
}
use easyforetell.Config.Settings.{AreBounded, load_settings, load_settings-AreBounded}
use easyforetell.Actions.{Slot}
use easyforetell.Directory.{LibDirectory}
use easyforetell.Include.{included, queral_version, load_include}
use easyforetell.Options.{options, load_options}
use easyforetell.Start.{LibStart, garbage, curl_init, start_worker}
use easyforetell.Start.Connected.{NoneEmpty, outcome, servers_after, add_all, start_worker_lem}
use easyforetell.Boot.{
  Booted, boots, defaults, load_secondary, with_list, with_version, with_config, with_options, boot,
}

-- The command line `-f path`.
file_option :
    (path : Bytes)
    → length path < path_max
    → load_options (codes "-f" ∷ path ∷ []) false defaults
      ≡ options (record { verbose = false; config_filename = path })
unfolding load_options equal
file_option path h = rw (load_options, lt→ltb (length path) path_max h) refl

module _ (lib : LibConfig) (start : LibStart) where
  open lib use {
    Config, Setting, config_lookup, config_setting_length, config_setting_get_elem,
    config_setting_lookup_string, config_setting_lookup_int,
  }

  -- An element's text has at least its colon.
  abbrev IsNamed : Entry → Type 0
  IsNamed (text t) = equal t (codes "") ≡ false
  IsNamed skip = Unit {0}
  IsNamed fault = Unit {0}

  colon : (hostname rest : Bytes) → equal (hostname ++ b':' ∷ rest) (codes "") ≡ false
  unfolding equal
  colon [] rest = refl
  colon (c ∷ cs) rest = refl

  in_line-IsNamed : (t : Bytes) → equal t (codes "") ≡ false → IsNamed (in_line lib t)
  in_line-IsNamed t h = elim (Bool-cases (ltb (length t) max_line_length)) [
    | inl fits ↦ rw fits h
    | inr over ↦ rw over tt
  ]

  server_entry-IsNamed : (setting : Setting) (i : ℕ) → IsNamed (server_entry lib setting i)
  unfolding server_entry
  server_entry-IsNamed setting i =
      let server = config_setting_get_elem setting i in
      elim (Option-cases (config_setting_lookup_string server (codes "hostname"))) [
        | inl unnamed ↦ rw (unnamed, server_entry) tt
        | inr (hostname, e) ↦
            elim (Option-cases (config_setting_lookup_int server (codes "port"))) [
              | inl no_port ↦ rw (e, server_entry, no_port) tt
              | inr (port, f) ↦
                  rw (e, server_entry, f)
                    (in_line-IsNamed (hostname ++ b':' ∷ show port) (colon hostname (show port)))
            ]
      ]

  and_then-NoneEmpty :
      (e : Entry) (ts : List Bytes)
      → IsNamed e
      → NoneEmpty start ts
      → NoneEmpty start (and_then e ts)
  and_then-NoneEmpty fault ts h more = more
  and_then-NoneEmpty skip ts h more = more
  and_then-NoneEmpty (text t) ts h more = (h, more)

  servers-NoneEmpty :
      (setting : Setting) (i left : ℕ)
      → NoneEmpty start (complete (server_entry lib setting) i left)
  unfolding complete
  servers-NoneEmpty setting i zero = tt
  servers-NoneEmpty setting i (suc left) =
      and_then-NoneEmpty (server_entry lib setting i)
        (complete (server_entry lib setting) (i + 1) left) (server_entry-IsNamed setting i)
        (servers-NoneEmpty setting (i + 1) left)

  -- The complete servers that are configured.
  abbrev pub configured : Setting → List Bytes
  configured setting = complete (server_entry lib setting) 0 (config_setting_length setting)

  module _ (allocated : ℕ → Bool) (ok : (i : ℕ) → allocated i ≡ true) (cfg : Config)
      (setting : Setting) (found : config_lookup cfg (codes "memcached.servers") ≡ some setting)
      (some_server : 0 < config_setting_length setting)
      (safe : (i : ℕ) → server_entry lib setting i ≢ fault) where
    read_memcached_servers_lem :
        read_memcached_servers lib true allocated cfg 0
        ≡ some (
          some (
              map some (configured setting)
              ++ replicate (config_setting_length setting - length (configured setting)) none),
          config_setting_length setting,
        )
    unfolding read_memcached_servers init_string_list
    read_memcached_servers_lem =
        let count = config_setting_length setting in
        rw (
          found,
          read_memcached_servers,
          not_lt→ltb count 1 (omega arith),
          fill_lem allocated (server_entry lib setting) ok safe 0 count count [] (omega arith),
        )

    module _ (directory : LibDirectory) (fuel : ℕ) where
      abbrev pub booted : Bytes → Option (List Slot) → Booted
      booted path actions = record {
        given = record { verbose = false; config_filename = path };
        settings = load_settings lib cfg;
        memcached_servers =
            map some (configured setting)
            ++ replicate (config_setting_length setting - length (configured setting)) none;
        server_count = config_setting_length setting;
        actions = actions;
      }

      -- What `main` has when it becomes a daemon with this configuration.
      pub boot_lem :
          (program path : Bytes) (actions : Option (List Slot)) (freed : List Bytes)
          → length path < path_max
          → load_config lib path ≡ some cfg
          → check_version lib cfg queral_version ≡ some queral_version
          → load_include lib directory fuel allocated true true (load_settings lib cfg).include_dir
            ≡ some (included actions freed)
          → boot lib directory fuel allocated true true true (program ∷ codes "-f" ∷ path ∷ [])
            ≡ some (boots (booted path actions))
      unfolding boot with_options with_config with_version with_list load_secondary
      boot_lem program path actions freed short opened checked loaded = rw (
        file_option path short,
        with_options,
        opened,
        with_config,
        checked,
        with_version,
        read_memcached_servers_lem,
        loaded,
      )

      -- Started with -f and a name shorter than PATH_MAX, where every allocation succeeds, with a
      -- configuration that loads, has the daemon's version, lists at least one element under
      -- memcached.servers, none of them longer than its line, and whose include directory loads:
      -- `main` gets as far as `daemonize` with settings within their bounds and the actions of
      -- the include directory; and a worker started with its servers adds the complete ones among
      -- the configured elements to its client, in order, and goes on to its loop, or returns if
      -- one of them cannot be parsed or added.
      pub boot-start_worker :
          (program path : Bytes) (actions : Option (List Slot)) (freed : List Bytes)
          (memory : Option Bytes)
          → length path < path_max
          → load_config lib path ≡ some cfg
          → check_version lib cfg queral_version ≡ some queral_version
          → load_include lib directory fuel allocated true true (load_settings lib cfg).include_dir
            ≡ some (included actions freed)
          → (b : Booted) × (boot lib directory fuel allocated true true true
                (program ∷ codes "-f" ∷ path ∷ [])
              ≡ some (boots b))
            × AreBounded b.settings
            × (b.actions ≡ actions)
            × (start_worker start memory (some b.memcached_servers) b.server_count
                ≡ outcome start
                    (curl_init start memory).0
                    (servers_after start garbage (configured setting))
                    (add_all start start.memcached_create (configured setting)))
      boot-start_worker program path actions freed memory short opened checked loaded =
          let ts = configured setting in
          let count = config_setting_length setting in
          let room = length-complete (server_entry lib setting) 0 count in
          (
            booted path actions,
            boot_lem program path actions freed short opened checked loaded,
            load_settings-AreBounded lib cfg,
            refl,
            start_worker_lem start memory ts (count - length ts) count
                (servers-NoneEmpty setting 0 count) (omega arith) some_server,
          )
