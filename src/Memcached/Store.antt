-- ===== src/Memcached/Store.antt =====
-- Servers that keep what a client sends them, seen as a map from keys to values.
use easyforetell.Prelude.{◌<◌, ◌≡◌, length, Option, none, some, if◌then◌else◌, ℤ}
use easyforetell.Memory.{Bytes, equal}
use easyforetell.Memcached.{LibMemcached}

-- A key that libmemcached takes: not empty, and shorter than MEMCACHED_MAX_KEY without its NUL.
pub record IsKey (key : Bytes) : Type 0 where
  pub some_byte : 0 < length key
  pub short : length key < 250

-- What libmemcached documents of a get behind a set or a delete, where the servers are up and keep
-- the record until it expires.
pub record Store (lib : LibMemcached) : Type 0 where
  pub lookup : lib.Memc → Bytes → Option Bytes
  pub lookup-set :
      (memc : lib.Memc) (key value : Bytes) (expiration : ℤ) (asked : Bytes)
      → IsKey key
      → lookup (lib.memcached_set memc key value expiration).0 asked
        ≡ (if equal asked key then some value else lookup memc asked)
  pub lookup-delete :
      (memc : lib.Memc) (key asked : Bytes)
      → IsKey key
      → lookup (lib.memcached_delete memc key).0 asked
        ≡ (if equal asked key then none else lookup memc asked)
