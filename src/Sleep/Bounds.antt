-- ===== src/Sleep/Bounds.antt =====
-- The bounds of a sleep, and the setting that ends the daemon at its first job.
use easyforetell.Prelude.{ℕ, ◌+◌, ◌*◌, ◌%◌, ◌≤◌, ◌<◌, ◌≡◌, refl, arith, none, some, pos, negsuc, ap}
use native.Mathlib.Nat.{mod-lt}
use easyforetell.Memory.{codes}
use easyforetell.Config.{LibConfig, read_worker_contention}
use easyforetell.Config.Settings.{
  load_settings, contention_setting, at_most_or, max_worker_contention_millis,
}
use easyforetell.Sleep.{chosen, Timespec, milli_sleep, sleep_millis}

-- For a contention that is not negative, whatever `rand` returns, `sleep_millis` gives at most
-- the contention, and the time that it sleeps has fewer than 10^9 nanoseconds and is that many
-- milliseconds.
pub sleep_millis_lem :
    (random base : ℕ)
    → (millis : ℕ) × (t : Timespec) × (sleep_millis random (pos base) ≡ some (millis, t))
      × (millis ≤ base)
      × (t.tv_nsec < 1000000000)
      × (t.tv_sec * 1000000000 + t.tv_nsec ≡ millis * 1000000)
unfolding sleep_millis chosen milli_sleep
sleep_millis_lem random base =
    let h : random % (base + 1) < base + 1 = mod-lt random {m = base + 1} (omega arith) in
    (
      random % (base + 1),
      milli_sleep (random % (base + 1)),
      refl,
      omega (arith, h),
      omega arith,
      omega arith,
    )

module _ (lib : LibConfig) where
  open lib use {Config, config_lookup_int}

  -- If libconfig finds -1 at worker.contention, the setting that `main` loads makes the sleep of
  -- a worker divide by zero.
  pub sleep_millis-faults :
      (cfg : Config) (random : ℕ)
      → config_lookup_int cfg (codes "worker.contention") ≡ some (negsuc 0)
      → sleep_millis random (load_settings lib cfg).worker_contention ≡ none
  unfolding sleep_millis chosen load_settings contention_setting read_worker_contention
  sleep_millis-faults cfg random e =
      ap (λ k. sleep_millis random (at_most_or max_worker_contention_millis (pos 100) k)) e
