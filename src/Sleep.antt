-- ===== src/Sleep.antt =====
-- src/sleep_utils.c: how long a worker sleeps after a job. `rand` is a parameter.
pub mod Bounds
mod Tests
use easyforetell.Prelude.{
  ℕ, zero, suc, ◌+◌, ◌-◌, ◌*◌, ◌/◌, ◌%◌, Option, none, some, ℤ, pos, negsuc, ◌>>=◌,
}

-- `rand () % (base + 1)` for what `rand` returned. A remainder has the sign of its left side, so
-- only the size of `base + 1` counts; by 0 it is a fault.
unfoldable pub chosen : ℕ → ℤ → Option ℕ
chosen random (pos base) = some (random % (base + 1))
chosen random (negsuc zero) = none
chosen random (negsuc (suc base)) = some (random % suc base)

-- `req` of `milli_sleep`
pub record Timespec : Type 0 where
  pub tv_sec : ℕ
  pub tv_nsec : ℕ

unfoldable pub milli_sleep : ℕ → Timespec
milli_sleep millis_to_sleep =
    let secs = millis_to_sleep / 1000 in
    let millisecs = millis_to_sleep - secs * 1000 in
    record { tv_sec = secs; tv_nsec = millisecs * 1000000 }

-- The result and what it sleeps.
unfoldable pub sleep_millis : ℕ → ℤ → Option (ℕ × Timespec)
sleep_millis random base = do
  millis_to_sleep ← chosen random base
  some (millis_to_sleep, milli_sleep millis_to_sleep)
