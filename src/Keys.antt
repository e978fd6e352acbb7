-- ===== src/Keys.antt =====
-- src/memcached_client.c, `create_key`, and the key's buffer in `worker_thread` of src/queral.c.
pub mod Laws
mod Tests
use easyforetell.Prelude.{
  ℕ, ◌+◌, ◌-◌, Bool, true, false, ◌&&◌, Option, none, some, ◌>>=◌, ltb, leb, if◌then◌else◌,
}
use easyforetell.Memory.{Bytes, strlen, strcpy, strcat}

-- The result -1, or 1 with the buffer after it.
pub data Keyed : Type 0 where
  failed : Keyed
  created : Bytes → Keyed

-- `max_key` is MEMCACHED_MAX_KEY of libmemcached; `none` among the arguments is NULL.
unfoldable pub create_key :
    (max_key : ℕ) → Option Bytes → ℕ → Option Bytes → Option Bytes → Option Keyed
create_key max_key (some out) out_len (some prefix) (some url) = do
  prefix_length ← strlen prefix
  url_length ← strlen url
  let key_length = prefix_length + url_length
  let joined = do front ← strcpy out 0 prefix; whole ← strcat front url; some (created whole)
  if ltb key_length max_key && leb key_length out_len then joined else some failed
create_key max_key _ out_len _ _ = some failed
