-- ===== src/Memcached.antt =====
-- src/memcached_client.c: storing and deleting a record. libmemcached is a parameter.
pub mod Store
pub mod Messages
use easyforetell.Prelude.{ℕ, ◌≤◌, Bool, true, false, ◌++◌, Option, none, some, ◌>>=◌, length, ℤ}
use easyforetell.Memory.{Bytes, c_str, codes}
use easyforetell.Logger.{Logged, log_info, log_warning}

-- How many bytes the text of an error has, if there is one.
abbrev pub error_length : Option Bytes → ℕ
error_length none = 0
error_length (some error) = length error

-- A connected client, and what the calls make of it: `none` is MEMCACHED_SUCCESS or
-- MEMCACHED_BUFFERED, otherwise it is the text that `memcached_strerror` has for the result. These
-- texts are fixed; the longest has `longest_error` bytes.
pub record LibMemcached : Type 1 where
  pub Memc : Type 0
  pub memcached_set : Memc → Bytes → Bytes → ℤ → Memc × Option Bytes
  pub memcached_delete : Memc → Bytes → Memc × Option Bytes
  pub longest_error : ℕ
  pub set-short :
      (memc : Memc) (key value : Bytes) (expiration : ℤ)
      → error_length (memcached_set memc key value expiration).1 ≤ longest_error
  pub delete-short :
      (memc : Memc) (key : Bytes) → error_length (memcached_delete memc key).1 ≤ longest_error

unfoldable pub log_updated : Bytes → Option Logged
log_updated key = log_info (codes "Cache: " ++ (key ++ codes ", updated"))

unfoldable pub log_not_stored : Bytes → Bytes → Option Logged
log_not_stored key error =
    log_warning (codes "Failed to store record '" ++ (key ++ (codes "' on memcached: " ++ error)))

unfoldable pub log_deleted : Bytes → Option Logged
log_deleted key = log_info (codes "Cache: " ++ (key ++ codes ", deleted"))

unfoldable pub log_not_deleted : Bool → Bytes → Bytes → Option Logged
log_not_deleted true key error =
    log_warning (codes "Failed to delete record '" ++ (key ++ (codes "' on memcached: " ++ error)))
log_not_deleted false key error =
    log_info (codes "Failed to delete record '" ++ (key ++ (codes "' on memcached: " ++ error)))

-- What is logged of a call on a key, and whether it succeeded.
unfoldable pub override_result : Bytes → Option Bytes → Option Bool
override_result key none = do logged ← log_updated key; some true
override_result key (some error) = do logged ← log_not_stored key error; some false

unfoldable pub delete_result : Bytes → Bool → Option Bytes → Option Bool
delete_result key log_error none = do logged ← log_deleted key; some true
delete_result key log_error (some error) = do
  logged ← log_not_deleted log_error key error
  some false

module _ (lib : LibMemcached) where
  open lib use {Memc, memcached_set, memcached_delete}

  -- The key and the value go up to their NUL; true is the result 1 and false -1, and `none` an
  -- access outside a buffer, the logger's among them.
  unfoldable pub memcached_override_record : Memc → Bytes → Bytes → ℤ → Option (Memc × Bool)
  memcached_override_record memc key value expiration = do
    k ← c_str key
    v ← c_str value
    res ← override_result k (memcached_set memc k v expiration).1
    some ((memcached_set memc k v expiration).0, res)

  unfoldable pub memcached_delete_record : Memc → Bytes → Bool → Option (Memc × Bool)
  memcached_delete_record memc key log_error = do
    k ← c_str key
    res ← delete_result k log_error (memcached_delete memc k).1
    some ((memcached_delete memc k).0, res)
