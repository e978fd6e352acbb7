-- ===== src/Boot/Tests.antt =====
-- A configuration with two servers and no include directory.
use easyforetell.Prelude.{
  ℕ, ◌+◌, ◌≡◌, ◌≢◌, refl, Bool, true, List, [], ◌∷◌, ◌++◌, none, some, arith, if◌then◌else◌, pos,
}
use easyforetell.Prelude.Int.{show}
use easyforetell.Memory.{Bytes, codes, equal}
use easyforetell.StringLists.{fault}
use easyforetell.Config.{
  LibConfig, load_config, check_version, server_entry, shorter, read_include_dir,
}
use easyforetell.Config.Settings.{AreBounded, load_settings}
use easyforetell.Directory.{LibDirectory}
use easyforetell.Include.{included, queral_version, load_include}
use easyforetell.Start.{LibStart, garbage, curl_init, start_worker}
use easyforetell.Start.Connected.{outcome, servers_after, add_all}
use easyforetell.StringLists.Fill.{complete}
use easyforetell.Boot.{Booted, boots, boot}
use easyforetell.Boot.Configured.{configured, boot-start_worker}

-- The servers are a:1 and b:1.
abbrev lib : LibConfig
lib = record {
  Config = Unit {0};
  Setting = ℕ;
  config_read_file = λ path. some tt;
  config_lookup = λ cfg path. some 0;
  config_lookup_string =
      λ cfg path. if equal path (codes "version") then some (codes "1.0") else none;
  config_lookup_int = λ cfg path. none;
  config_setting_length = λ setting. 2;
  config_setting_get_elem = λ setting i. i;
  config_setting_lookup_string = λ setting path. some ((b'a' + setting) ∷ []);
  config_setting_lookup_int = λ setting path. some (pos 1);
}

abbrev directory : LibDirectory
directory = record { opendir = λ dir. none; regular = λ name. none }

-- The client is the list of the servers that were added.
abbrev start : LibStart
start = record {
  Memc = List Bytes;
  Servers = Bytes;
  Handle = Unit {0};
  memcached_create = [];
  memcached_servers_parse = λ t. some t;
  memcached_server_push = λ m t. (m ++ t ∷ [], true);
  curl_easy_init = some tt;
}

abbrev allocated : ℕ → Bool
allocated i = true

safe : (i : ℕ) → server_entry lib 0 i ≢ fault
unfolding server_entry show
safe i e = absurd (cc)

opened : load_config lib (codes "q.conf") ≡ some tt
unfolding load_config
opened = refl

checked : check_version lib tt queral_version ≡ some queral_version
unfolding check_version equal
checked = refl

loaded :
    load_include lib directory 5 allocated true true (load_settings lib tt).include_dir
    ≡ some (included none [])
unfolding load_include load_settings read_include_dir shorter equal
loaded = refl

boot-start_worker_example :
    (b : Booted) × (boot lib directory 5 allocated true true true
        (codes "queral" ∷ codes "-f" ∷ codes "q.conf" ∷ [])
      ≡ some (boots b))
    × AreBounded b.settings
    × (b.actions ≡ none)
    × (start_worker start none (some b.memcached_servers) b.server_count
        ≡ outcome start
            (curl_init start none).0
            (servers_after start garbage (configured lib start 0))
            (add_all start start.memcached_create (configured lib start 0)))
boot-start_worker_example =
    boot-start_worker lib start allocated (λ i. refl) tt 0 refl (omega arith) safe directory 5
      (codes "queral") (codes "q.conf") none [] none (omega arith) opened checked loaded

added : add_all start [] (configured lib start 0) ≡ some (codes "a:1" ∷ codes "b:1" ∷ [])
unfolding add_all complete server_entry show
added = refl
