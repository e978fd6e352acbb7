-- ===== src/Sleep/Tests.antt =====
-- Sleeps with a contention of 100 milliseconds, and with one of -1.
use easyforetell.Prelude.{ℕ, ◌+◌, ◌*◌, ◌≤◌, ◌<◌, ◌≡◌, refl, some, none, pos, negsuc}
use easyforetell.Config.{LibConfig}
use easyforetell.Config.Settings.{load_settings}
use easyforetell.Sleep.{chosen, Timespec, milli_sleep, sleep_millis}
use easyforetell.Sleep.Bounds.{sleep_millis_lem, sleep_millis-faults}

sleep_millis_lem_example :
    (millis : ℕ) × (t : Timespec) × (sleep_millis 1234 (pos 100) ≡ some (millis, t))
    × (millis ≤ 100)
    × (t.tv_nsec < 1000000000)
    × (t.tv_sec * 1000000000 + t.tv_nsec ≡ millis * 1000000)
sleep_millis_lem_example = sleep_millis_lem 1234 100

-- Every number of the configuration is -1.
abbrev lib : LibConfig
lib = record {
  Config = Unit {0};
  Setting = Unit {0};
  config_read_file = λ path. some tt;
  config_lookup = λ cfg path. none;
  config_lookup_string = λ cfg path. none;
  config_lookup_int = λ cfg path. some (negsuc 0);
  config_setting_length = λ setting. 0;
  config_setting_get_elem = λ setting i. setting;
  config_setting_lookup_string = λ setting path. none;
  config_setting_lookup_int = λ setting path. none;
}

sleep_millis-faults_example : sleep_millis 1234 (load_settings lib tt).worker_contention ≡ none
sleep_millis-faults_example = sleep_millis-faults lib tt 1234 refl

a_second : sleep_millis 1500 (pos 2000) ≡ some (1500, record { tv_sec = 1; tv_nsec = 500000000 })
unfolding sleep_millis chosen milli_sleep
a_second = refl
