-- ===== src/Launch/Tests.antt =====
-- A daemon with two workers, and what goes wrong before its loop and behind it.
use easyforetell.Prelude.{
  ℕ, ◌+◌, ◌≤◌, ◌≡◌, ◌≢◌, ◌↔◌, refl, Bool, true, false, [], ◌∷◌, ◌++◌, Option, none, some, arith,
  replicate, if◌then◌else◌, ℤ, pos,
}
use easyforetell.Prelude.Int.{show, digits_on}
use easyforetell.Memory.{codes, equal}
use easyforetell.StringLists.{fault}
use easyforetell.Config.{
  LibConfig, load_config, check_version, server_entry, shorter, read_include_dir,
  read_workers_count,
}
use easyforetell.Config.Settings.{load_settings, workers_setting, max_workers}
use easyforetell.Actions.{Action}
use easyforetell.Actions.Find.{all_texts}
use easyforetell.Queue.{indices, fifo_init}
use easyforetell.Queue.Ring.{Holding}
use easyforetell.Queue.Run.{fifo_init-Holding}
use easyforetell.Directory.{LibDirectory}
use easyforetell.Include.{included, queral_version, load_include}
use easyforetell.Daemon.{open_file}
use easyforetell.Daemon.Descriptors.{succeeding}
use easyforetell.Pipe.{Node, regular, is_regular}
use easyforetell.Boot.{Booted, ends, boots}
use easyforetell.Launch.{Machine, default, exits, launch, end_main, main}
use easyforetell.Launch.Started.{AllSucceed, Launched, launch_lem}
use easyforetell.Launch.Outcome.{Failed, array}
use easyforetell.Launch.Ended.{all_created, launch-exits, end_main_lem}
use easyforetell.Launch.Configured.{main-Launched}

-- Two servers, and `threads` workers.
abbrev lib : ℤ → LibConfig
lib threads = record {
  Config = Unit {0};
  Setting = ℕ;
  config_read_file = λ path. some tt;
  config_lookup = λ cfg path. some 0;
  config_lookup_string =
      λ cfg path. if equal path (codes "version") then some (codes "1.0") else none;
  config_lookup_int =
      λ cfg path. if equal path (codes "worker.threads") then some threads else none;
  config_setting_length = λ setting. 2;
  config_setting_get_elem = λ setting i. i;
  config_setting_lookup_string = λ setting path. some ((b'a' + setting) ∷ []);
  config_setting_lookup_int = λ setting path. some (pos 1);
}

abbrev directory : LibDirectory
directory = record { opendir = λ dir. none; regular = λ name. none }

abbrev allocated : ℕ → Bool
allocated i = true

safe : (i : ℕ) → server_entry (lib (pos 2)) 0 i ≢ fault
unfolding server_entry show
safe i e = absurd (cc)

opened : load_config (lib (pos 2)) (codes "q.conf") ≡ some tt
unfolding load_config
opened = refl

checked : check_version (lib (pos 2)) tt queral_version ≡ some queral_version
unfolding check_version equal
checked = refl

loaded :
    load_include
      (lib (pos 2))
      directory
      5
      allocated
      true
      true
      (load_settings (lib (pos 2)) tt).include_dir
    ≡ some (included none [])
unfolding load_include load_settings read_include_dir shorter equal
loaded = refl

two : workers_setting (lib (pos 2)) tt ≡ pos 2
unfolding workers_setting read_workers_count equal
two = refl

-- Sixteen descriptors, and at the name of the pipe what is given.
abbrev machine : Option Node → (ℕ → ℕ) → Machine
machine at_name error = record {
  os = succeeding 4711 (some 16);
  fuel = 17;
  fds = replicate 16 true;
  ev_loop_new = λ fds. (open_file true fds).1;
  signals = record { sigterm = default; sigint = default; sighup = default };
  mask = λ signo. false;
  lstat = true;
  unlink = true;
  mkfifo = true;
  open_fifo = true;
  at_name = at_name;
  pool_allocated = true;
  error = error;
  block = λ i. replicate 255 7;
  read_buffer = replicate 255 7;
  cache_buffer = replicate 255 7;
  filename_allocated = true;
}

abbrev no_error : ℕ → ℕ
no_error i = 0

succeeds : AllSucceed (machine none no_error) 4711 11
unfolding show digits_on is_regular
succeeds = record {
  rlim_max = some 16;
  os = refl;
  limited = refl;
  small = omega arith;
  table = refl;
  enough = omega arith;
  short = omega arith;
  looks = refl;
  removes = refl;
  makes = refl;
  opens = refl;
  free = refl;
  pool = refl;
  name = refl;
  threads = λ i. refl;
  blocks = λ i. refl;
  read_size = refl;
  cache_size = refl;
}

main-Launched_example :
    (b : Booted) × (b.settings ≡ load_settings (lib (pos 2)) tt)
    × (b.actions ≡ none)
    × (2 ≤ max_workers)
    × Launched (machine none no_error) b 2 4711 11 (
        main
          (lib (pos 2))
          directory
          5
          allocated
          true
          true
          true
          (machine none no_error)
          (codes "queral" ∷ codes "-f" ∷ codes "q.conf" ∷ []))
main-Launched_example =
    main-Launched (lib (pos 2)) allocated (λ i. refl) tt 0 directory 5 (codes "queral")
      (codes "q.conf") none [] (machine none no_error) 1 4711 11 refl (omega arith) safe
      (omega arith) opened checked loaded two succeeds

abbrev pages : Action
pages = record { name = codes "pages"; refresh_list = some (some (codes "u") ∷ []); count = 1 }

-- With one action, one of two servers, and the settings of a configuration.
abbrev one_action : ℤ → Booted
one_action threads = record {
  given = record { verbose = false; config_filename = codes "q.conf" };
  settings = load_settings (lib threads) tt;
  memcached_servers = some (codes "a:1") ∷ none ∷ [];
  server_count = 2;
  actions = array (some (pages ∷ []));
}

launch-exits_example : Failed (machine (some regular) no_error) (one_action (pos 2)) ↔ (
    launch (machine (some regular) no_error) (boots (one_action (pos 2)))
    ≡ some (exits (ends (all_texts (pages ∷ []) ++ codes "a:1" ∷ []))))
launch-exits_example =
    launch-exits (machine (some regular) no_error) (one_action (pos 2)) (some (pages ∷ []))
      (codes "a:1" ∷ []) 1 refl refl (omega arith)

two_workers : (one_action (pos 2)).settings.workers_count ≡ pos 2
unfolding load_settings workers_setting read_workers_count equal
two_workers = refl

launched :
    Launched
      (machine none no_error)
      (one_action (pos 2))
      2
      4711
      11
      (launch (machine none no_error) (boots (one_action (pos 2))))
launched = launch_lem (machine none no_error) (one_action (pos 2)) 4711 11 succeeds 1 two_workers

empty-Holding : Holding (fifo_init (λ i. replicate 255 7) 2) []
empty-Holding = fifo_init-Holding (λ i. replicate 255 7) 2 (λ i. refl) (omega arith)

end_main_lem_example : end_main launched.running (fifo_init (λ i. replicate 255 7) 2) ≡ (
    if all_created no_error 0 2
    then some (
      indices 0 2,
      record {
        queue_blocks = [];
        action_texts = all_texts (pages ∷ []);
        server_texts = codes "a:1" ∷ [];
      },
    )
    else none)
end_main_lem_example =
    end_main_lem (machine none no_error) (one_action (pos 2)) (some (pages ∷ [])) (codes "a:1" ∷ [])
      1 refl refl (omega arith) launched.running 2 (fifo_init (λ i. replicate 255 7) 2) []
      launched.runs two_workers empty-Holding

-- The second thread is not created.
joined : all_created (λ i. i) 0 2 ≡ false
unfolding all_created
joined = refl
