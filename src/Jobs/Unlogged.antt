-- ===== src/Jobs/Unlogged.antt =====
-- src/queral.c, `worker_thread`: jobs whose text does not fit into the logger's buffer.
use easyforetell.Prelude.{◌≤◌, ◌≡◌, refl, Option, none, some, length}
use easyforetell.Memory.{Bytes, c_str}
use easyforetell.Command.{update, undefined}
use easyforetell.Curl.{MemoryStruct}
use easyforetell.Memcached.{LibMemcached}
use easyforetell.Jobs.{Worker, Globals, find_in, update_found, update_job, operate}
use easyforetell.Jobs.Logged.{log_unknown-overflows, log_undefined-overflows}

module _ (lib : LibMemcached)
    (perform : Bytes → MemoryStruct → Option (MemoryStruct × Option Bytes)) (globals : Globals)
    (w : Worker (lib.Memc)) where
  -- A worker that is told to update what no action has as its name, a name of 215 bytes or more,
  -- writes past the logger's buffer.
  operate-unknown-overflows :
      (name : Bytes)
      → c_str w.job ≡ some name
      → find_in globals.actions name ≡ some none
      → 215 ≤ length name
      → operate lib perform globals update w ≡ none
  unfolding operate update_job update_found
  operate-unknown-overflows name named missing long =
      rw (named, missing, named, log_unknown-overflows name long) refl

  -- A worker that is given a command that is none, of 224 bytes or more, writes past the logger's
  -- buffer.
  operate-undefined-overflows :
      (command : Bytes)
      → c_str w.command ≡ some command
      → 224 ≤ length command
      → operate lib perform globals undefined w ≡ none
  unfolding operate
  operate-undefined-overflows command commanded long =
      rw (commanded, log_undefined-overflows command long) refl
