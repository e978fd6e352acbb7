-- ===== src/Config/Settings.antt =====
-- src/queral.c, the part of `main` that reads the daemon's settings, and what they are bounded by.
use easyforetell.Prelude.{
  ℕ, ◌≤◌, ◌<◌, ◌≡◌, refl, false, Option, none, some, arith, ltb, ap, ◌>>=◌, if◌then◌else◌, length,
  ℤ, pos, negsuc, Bool-cases, inl, inr, ◌&&◌,
}
use easyforetell.Prelude.Int.{is_negative, ltb_ℤ}
use easyforetell.Memory.{Bytes, codes}
use easyforetell.Config.{
  LibConfig, shorter, path_max, max_key_prefix_length, read_pidfile_filename, read_socket_filename,
  read_workers_count, read_worker_contention, read_memcached_expiration, read_memcached_key_prefix,
  read_include_dir, read_int,
}

abbrev pub default_fifo_filename : Bytes
default_fifo_filename = codes "/var/run/queral/queral.fifo"

abbrev pub default_pidfile_filename : Bytes
default_pidfile_filename = codes "/var/run/queral/queral.pid"

abbrev pub default_memcached_key_prefix : Bytes
default_memcached_key_prefix = codes "__memc_"

abbrev pub default_memcache_expiration_seconds : ℤ
default_memcache_expiration_seconds = pos 7200

abbrev pub default_workers : ℤ
default_workers = pos 2

abbrev pub default_worker_contention_millis : ℤ
default_worker_contention_millis = pos 100

abbrev pub max_workers : ℕ
max_workers = 8

abbrev pub max_worker_contention_millis : ℕ
max_worker_contention_millis = 600000

pub record Settings : Type 0 where
  pub pidfile_filename : Bytes
  pub fifo_filename : Bytes
  pub workers_count : ℤ
  pub worker_contention : ℤ
  pub expiration : ℤ
  pub key_prefix : Bytes
  pub include_dir : Bytes

abbrev pub or_default {ℓ} : {A : Type ℓ} → Option A → A → A
or_default none d = d
or_default (some a) d = a

abbrev pub at_most : ℕ → ℤ → ℤ
at_most max n = if ltb_ℤ (pos max) n then pos max else n

-- The number read, at most `max`, or the default.
abbrev pub at_most_or : ℕ → ℤ → Option ℤ → ℤ
at_most_or max default none = default
at_most_or max default (some n) = at_most max n

module _ (lib : LibConfig) where
  open lib use {Config}

  unfoldable pub workers_setting : Config → ℤ
  unfolding read_workers_count
  workers_setting cfg = at_most_or max_workers default_workers (read_workers_count lib cfg)

  unfoldable pub contention_setting : Config → ℤ
  unfolding read_worker_contention
  contention_setting cfg =
      at_most_or max_worker_contention_millis default_worker_contention_millis
        (read_worker_contention lib cfg)

  -- `include_dir` is empty where none is configured.
  unfoldable pub load_settings : Config → Settings
  load_settings cfg = record {
    pidfile_filename = or_default (read_pidfile_filename lib cfg) default_pidfile_filename;
    fifo_filename = or_default (read_socket_filename lib cfg) default_fifo_filename;
    workers_count = workers_setting cfg;
    worker_contention = contention_setting cfg;
    expiration = or_default (read_memcached_expiration lib cfg) default_memcache_expiration_seconds;
    key_prefix = or_default (read_memcached_key_prefix lib cfg) default_memcached_key_prefix;
    include_dir = or_default (read_include_dir lib cfg) (codes "");
  }

shorter-lt :
    (limit : ℕ) (o : Option Bytes) (d : Bytes)
    → length d < limit
    → length (or_default (shorter limit o) d) < limit
unfolding shorter
shorter-lt limit none d h = h
shorter-lt limit (some v) d h = ground arith

-- `n` is at most `max`.
abbrev pub IsAtMost : ℕ → ℤ → Type 0
IsAtMost max (pos n) = n ≤ max
IsAtMost max (negsuc n) = Unit {0}

at_most-IsAtMost : (max : ℕ) (n : ℤ) → IsAtMost max (at_most max n)
at_most-IsAtMost max (pos n) = elim (Bool-cases (ltb max n)) [
  | inl over ↦ rw over (omega arith)
  | inr within ↦ rw within (ground arith)
]
at_most-IsAtMost max (negsuc n) = tt

at_most_or-IsAtMost : (max n : ℕ) (o : Option ℤ) → n ≤ max → IsAtMost max (at_most_or max (pos n) o)
at_most_or-IsAtMost max n none h = h
at_most_or-IsAtMost max n (some v) h = at_most-IsAtMost max v

-- What `read_memcached_expiration` makes of the number read, with its default.
kept-not_negative :
    (o : Option ℤ)
    → is_negative (or_default (o >>= λ n. if is_negative n then none else some n) (pos 7200))
      ≡ false
kept-not_negative none = refl
kept-not_negative (some (pos n)) = refl
kept-not_negative (some (negsuc n)) = refl

not_both :
    (min max value : ℤ) → ltb_ℤ max min ≡ false → (ltb_ℤ value min && ltb_ℤ max value) ≡ false
not_both (pos a) (pos b) (pos c) h = ground arith
not_both (pos a) (pos b) (negsuc c) h = refl
not_both (pos a) (negsuc b) (pos c) h = absurd (ground arith)
not_both (pos a) (negsuc b) (negsuc c) h = absurd (ground arith)
not_both (negsuc a) (pos b) (pos c) h = refl
not_both (negsuc a) (pos b) (negsuc c) h = ground arith
not_both (negsuc a) (negsuc b) (pos c) h = refl
not_both (negsuc a) (negsuc b) (negsuc c) h = ground arith

-- Whatever is configured: each text that `main` copies fits its buffer with its NUL, there are at
-- most MAX_WORKERS workers and the contention is at most MAX_WORKER_CONTENTION_MILLIS, and the
-- expiration is not negative.
pub record AreBounded (s : Settings) : Type 0 where
  pub pidfile : length s.pidfile_filename < path_max
  pub fifo : length s.fifo_filename < path_max
  pub directory : length s.include_dir < path_max
  pub prefix : length s.key_prefix < max_key_prefix_length
  pub workers : IsAtMost max_workers s.workers_count
  pub contention : IsAtMost max_worker_contention_millis s.worker_contention
  pub expiration : is_negative s.expiration ≡ false

module _ (lib : LibConfig) where
  open lib use {Config, config_lookup_string, config_lookup_int}

  -- Whatever libconfig finds, the settings that `main` loads are within bounds: the name of the
  -- pid file, the name of the pipe and the include directory are shorter than PATH_MAX and the
  -- key prefix is shorter than MAX_KEY_PREFIX_LENGTH, so that each fits its buffer with its NUL;
  -- the number of workers is at most MAX_WORKERS, the contention at most
  -- MAX_WORKER_CONTENTION_MILLIS, and the expiration is not negative.
  pub load_settings-AreBounded : (cfg : Config) → AreBounded (load_settings lib cfg)
  unfolding load_settings workers_setting contention_setting read_workers_count
      read_worker_contention read_memcached_expiration read_pidfile_filename read_socket_filename
      read_memcached_key_prefix read_include_dir
  load_settings-AreBounded cfg = record {
    pidfile =
        shorter-lt path_max (config_lookup_string cfg (codes "pidfile.filename"))
          default_pidfile_filename (omega arith);
    fifo =
        shorter-lt path_max (config_lookup_string cfg (codes "socket.filename"))
          default_fifo_filename (omega arith);
    directory =
        shorter-lt path_max (config_lookup_string cfg (codes "include_dir")) (codes "")
          (omega arith);
    prefix =
        shorter-lt max_key_prefix_length (config_lookup_string cfg (codes "memcached.key.prefix"))
          default_memcached_key_prefix (omega arith);
    workers =
        at_most_or-IsAtMost max_workers 2 (config_lookup_int cfg (codes "worker.threads"))
          (omega arith);
    contention =
        at_most_or-IsAtMost max_worker_contention_millis 100
          (config_lookup_int cfg (codes "worker.contention")) (omega arith);
    expiration = kept-not_negative (config_lookup_int cfg (codes "memcached.expiration"));
  }

  -- A negative number at worker.threads and one at worker.contention are taken as they are
  -- configured.
  pub load_settings-negative :
      (cfg : Config) (m n : ℕ)
      → config_lookup_int cfg (codes "worker.threads") ≡ some (negsuc m)
      → config_lookup_int cfg (codes "worker.contention") ≡ some (negsuc n)
      → ((load_settings lib cfg).workers_count ≡ negsuc m)
        × ((load_settings lib cfg).worker_contention ≡ negsuc n)
  unfolding load_settings workers_setting contention_setting read_workers_count
      read_worker_contention
  load_settings-negative cfg m n e f = (
    ap (at_most_or max_workers (pos 2)) e,
    ap (at_most_or max_worker_contention_millis (pos 100)) f,
  )

  -- With a least number that is at most the greatest, `read_int` rejects no number that libconfig
  -- finds, in the range or not.
  pub read_int-accepts :
      (cfg : Config) (key : Bytes) (min max value : ℤ)
      → ltb_ℤ max min ≡ false
      → config_lookup_int cfg key ≡ some value
      → read_int lib cfg key min max ≡ some value
  unfolding read_int
  read_int-accepts cfg key min max value ordered e = rw (e, not_both min max value ordered) refl
