-- ===== src/Launch/Configured.antt =====
-- From the command line and the configuration to the loop of the socket worker.
use easyforetell.Prelude.{
  ℕ, suc, ◌<◌, ◌≤◌, ◌≡◌, ◌≢◌, refl, Bool, true, List, [], ◌∷◌, Option, none, some, length, pos,
  subst,
}
use easyforetell.Memory.{Bytes, codes}
use easyforetell.StringLists.{fault}
use easyforetell.Config.{LibConfig, path_max, load_config, check_version, server_entry}
use easyforetell.Config.Settings.{
  IsAtMost, load_settings, load_settings-AreBounded, workers_setting, max_workers,
}
use easyforetell.Actions.{Slot}
use easyforetell.Directory.{LibDirectory}
use easyforetell.Include.{included, queral_version, load_include}
use easyforetell.Start.{LibStart}
use easyforetell.Boot.{Booted}
use easyforetell.Boot.Configured.{booted, boot_lem}
use easyforetell.Launch.{Machine, main}
use easyforetell.Launch.Started.{AllSucceed, Launched, launch_lem}

-- The lemmas on the configured servers are about a worker's start too; any will do here.
abbrev no_start : LibStart
no_start = record {
  Memc = Unit {0};
  Servers = Unit {0};
  Handle = Unit {0};
  memcached_create = tt;
  memcached_servers_parse = λ t. none;
  memcached_server_push = λ m t. (m, true);
  curl_easy_init = none;
}

module _ (lib : LibConfig) (allocated : ℕ → Bool) (ok : (i : ℕ) → allocated i ≡ true) where
  open lib use {Config, Setting, config_lookup, config_setting_length}

  -- Started with -f and a name shorter than PATH_MAX, where every allocation succeeds, with a
  -- configuration that loads, has the daemon's version, lists at least one element under
  -- memcached.servers, none of them longer than its line, gives at least one worker, and whose
  -- include directory loads; and where in the child of the fork no call of the operating system
  -- fails, the process has at least 5 and fewer than 2^32 descriptors and its number fewer than
  -- 16 digits, and no regular file stands at the name of the pipe: `main` reaches the loop of the
  -- socket worker with the settings and the actions loaded, at most MAX_WORKERS workers, numbered
  -- from 0, each in a thread that blocks all signals, the main thread blocking what it did
  -- before; `ev_loop_new` is called with exactly the descriptors 0 to 4 open, the pipe being 4;
  -- the pid file holds the digits of the process number with a NUL; SIGTERM, SIGINT and SIGHUP
  -- are handled; nothing is cached and the queue is empty; and the state is the first one that
  -- the daemon of System reaches.
  pub main-Launched :
      (cfg : Config) (setting : Setting) (directory : LibDirectory) (fuel : ℕ)
      (program path : Bytes) (actions : Option (List Slot)) (freed : List Bytes) (machine : Machine)
      (n pid m : ℕ)
      → config_lookup cfg (codes "memcached.servers") ≡ some setting
      → 0 < config_setting_length setting
      → ((i : ℕ) → server_entry lib setting i ≢ fault)
      → length path < path_max
      → load_config lib path ≡ some cfg
      → check_version lib cfg queral_version ≡ some queral_version
      → load_include lib directory fuel allocated true true (load_settings lib cfg).include_dir
        ≡ some (included actions freed)
      → workers_setting lib cfg ≡ pos (suc n)
      → AllSucceed machine pid m
      → (b : Booted) × (b.settings ≡ load_settings lib cfg)
        × (b.actions ≡ actions)
        × (suc n ≤ max_workers)
        × Launched machine b (suc n) pid m (
            main lib directory fuel allocated true true true machine
              (program ∷ codes "-f" ∷ path ∷ []))
  unfolding main load_settings
  main-Launched cfg setting directory fuel program path actions freed machine n pid m found
        some_server safe short opened checked loaded count h =
      let b =
        booted lib no_start allocated ok cfg setting found some_server safe directory fuel path
          actions in
      let e =
        boot_lem lib no_start allocated ok cfg setting found some_server safe directory fuel program
          path actions freed short opened checked loaded in
      (
        b,
        refl,
        refl,
        subst (IsAtMost max_workers) count (load_settings-AreBounded lib cfg).workers,
        rw e (launch_lem machine b pid m h n count),
      )
