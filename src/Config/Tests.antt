-- ===== src/Config/Tests.antt =====
-- The readers on a small configuration.
use easyforetell.Prelude.{◌≡◌, refl, none, some, if◌then◌else◌, pos, negsuc}
use easyforetell.Memory.{codes, equal}
use easyforetell.Config.{LibConfig, read_int}
use easyforetell.Config.Settings.{
  AreBounded, load_settings, load_settings-AreBounded, load_settings-negative, read_int-accepts,
}

-- A configuration with the numbers of `worker.threads` and `worker.contention` below 0 and one
-- other number at every other path.
abbrev lib : LibConfig
lib = record {
  Config = Unit {0};
  Setting = Unit {0};
  config_read_file = λ path. some tt;
  config_lookup = λ cfg path. none;
  config_lookup_string =
      λ cfg path. if equal path (codes "version") then some (codes "1.0") else some (codes "text");
  config_lookup_int = λ cfg path.
      if equal path (codes "worker.threads")
      then some (negsuc 2)
      else if equal path (codes "worker.contention")
      then some (negsuc 0)
      else some (pos 70);
  config_setting_length = λ setting. 0;
  config_setting_get_elem = λ setting i. setting;
  config_setting_lookup_string = λ setting path. none;
  config_setting_lookup_int = λ setting path. none;
}

load_settings-AreBounded_example : AreBounded (load_settings lib tt)
load_settings-AreBounded_example = load_settings-AreBounded lib tt

threads : lib.config_lookup_int tt (codes "worker.threads") ≡ some (negsuc 2)
unfolding equal
threads = refl

contention : lib.config_lookup_int tt (codes "worker.contention") ≡ some (negsuc 0)
unfolding equal
contention = refl

load_settings-negative_example :
    ((load_settings lib tt).workers_count ≡ negsuc 2)
    × ((load_settings lib tt).worker_contention ≡ negsuc 0)
load_settings-negative_example = load_settings-negative lib tt 2 0 threads contention

other : lib.config_lookup_int tt (codes "size") ≡ some (pos 70)
unfolding equal
other = refl

-- 70 is accepted between 1 and 5.
read_int-accepts_example : read_int lib tt (codes "size") (pos 1) (pos 5) ≡ some (pos 70)
read_int-accepts_example =
    read_int-accepts lib tt (codes "size") (pos 1) (pos 5) (pos 70) refl other
