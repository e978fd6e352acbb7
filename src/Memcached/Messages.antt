-- ===== src/Memcached/Messages.antt =====
-- What the calls on a record log of its key.
use easyforetell.Prelude.{
  ◌+◌, ◌≤◌, ◌<◌, ◌≡◌, refl, Bool, true, false, ◌++◌, Option, none, some, arith, length,
  length-append, ℤ,
}
use easyforetell.Memory.{Bytes, codes}
use easyforetell.Memory.Laws.{Holds, Holds-c_str}
use easyforetell.Logger.{info, warning, log_info, log_warning}
use easyforetell.Logger.Laws.{text-fits, text-overflows}
use easyforetell.Memcached.{
  LibMemcached, error_length, log_updated, log_not_stored, log_deleted, log_not_deleted,
  override_result, delete_result, memcached_override_record, memcached_delete_record,
}

delete_result-some :
    (key : Bytes) (error : Option Bytes)
    → length key + error_length error < 215
    → (b : Bool) × (delete_result key false error ≡ some b)
unfolding delete_result log_deleted log_not_deleted log_info
delete_result-some key none short = (
  true,
  rw (text-fits info (codes "Cache: ") key (codes ", deleted") (omega (arith, short))) refl,
)
delete_result-some key (some error) short = (
  false,
  rw
      (text-fits info (codes "Failed to delete record '") key (codes "' on memcached: " ++ error)
        (omega (arith, short, length-append (codes "' on memcached: ") error)))
      refl,
)

override_result-some :
    (key : Bytes) (error : Option Bytes)
    → length key + error_length error < 215
    → (b : Bool) × (override_result key error ≡ some b)
unfolding override_result log_updated log_not_stored log_info log_warning
override_result-some key none short = (
  true,
  rw (text-fits info (codes "Cache: ") key (codes ", updated") (omega (arith, short))) refl,
)
override_result-some key (some error) short = (
  false,
  rw
      (text-fits warning (codes "Failed to store record '") key (codes "' on memcached: " ++ error)
        (omega (arith, short, length-append (codes "' on memcached: ") error)))
      refl,
)

module _ (lib : LibMemcached) where
  open lib use {Memc, memcached_set, memcached_delete, longest_error, set-short, delete-short}

  -- With a key that the log lines have room for.
  pub delete_record-runs :
      (memc : Memc) {b key : Bytes}
      → Holds b key
      → length key + longest_error < 215
      → (res : Bool) × (memcached_delete_record lib memc b false
          ≡ some ((memcached_delete memc key).0, res))
  unfolding memcached_delete_record
  delete_record-runs memc {key = key} h short =
      let (res, e) =
        delete_result-some key (memcached_delete memc key).1
          (omega (arith, short, delete-short memc key)) in
      (res, rw (Holds-c_str h, e) refl)

  pub override_record-runs :
      (memc : Memc) {b key v value : Bytes} (expiration : ℤ)
      → Holds b key
      → Holds v value
      → length key + longest_error < 215
      → (res : Bool) × (memcached_override_record lib memc b v expiration
          ≡ some ((memcached_set memc key value expiration).0, res))
  unfolding memcached_override_record
  override_record-runs memc {key = key} {value = value} expiration h hv short =
      let (res, e) =
        override_result-some key (memcached_set memc key value expiration).1
          (omega (arith, short, set-short memc key value expiration)) in
      (res, rw (Holds-c_str h, Holds-c_str hv, e) refl)

  -- A record that cannot be deleted, as where there was none before, is logged past the logger's
  -- buffer if its key has 215 bytes or more, whatever the text of the error.
  delete_record-overflows :
      (memc : Memc) {b key : Bytes} (error : Bytes)
      → Holds b key
      → (memcached_delete memc key).1 ≡ some error
      → 215 ≤ length key
      → memcached_delete_record lib memc b false ≡ none
  unfolding memcached_delete_record delete_result log_not_deleted log_info
  delete_record-overflows memc {key = key} error h failed long =
      rw
        (
          Holds-c_str h,
          failed,
          text-overflows info (codes "Failed to delete record '") key
              (codes "' on memcached: " ++ error)
              (omega (arith, long, length-append (codes "' on memcached: ") error)),
        )
        refl

  -- A record that is stored is logged past the logger's buffer if its key has 240 bytes or more.
  override_record-overflows :
      (memc : Memc) {b key v value : Bytes} (expiration : ℤ)
      → Holds b key
      → Holds v value
      → (memcached_set memc key value expiration).1 ≡ none
      → 240 ≤ length key
      → memcached_override_record lib memc b v expiration ≡ none
  unfolding memcached_override_record override_result log_updated log_info
  override_record-overflows memc {key = key} expiration h hv stored long =
      rw
        (
          Holds-c_str h,
          Holds-c_str hv,
          stored,
          text-overflows info (codes "Cache: ") key (codes ", updated") (omega (arith, long)),
        )
        refl
