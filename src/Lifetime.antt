-- ===== src/Lifetime.antt =====
-- src/queral.c, `main` around its loop: what it prepares for the socket worker and the workers, and
-- what it frees once they have ended. The threads, libev and the mutex are left out.
pub mod Service
mod Tests
use easyforetell.Prelude.{ℕ, Bool, true, List, ◌++◌, Option, none, some, ◌>>=◌}
use easyforetell.Memory.{Bytes}
use easyforetell.StringLists.{StringList, destroy_string_list}
use easyforetell.Actions.{Slot}
use easyforetell.Queue.{Queue, fifo_init, fifo_destroy}
use easyforetell.Socket.{State, clear}
use easyforetell.Boot.{free_actions}

abbrev pub queue_capacity : ℕ
queue_capacity = 256

-- From `fifo_init` to `ev_io_start`, with the buffers of the global `socket_worker` and what malloc
-- leaves in the blocks of the queue.
unfoldable pub prepare : (ℕ → Bytes) → Bytes → Bytes → Option State
prepare block read_buffer cache_buffer = do
  cleared ← clear cache_buffer
  some (
    record { read_buffer = read_buffer; cache_buffer = cleared; looping = true; linked = true },
    record { should_run = true; url_count = 0; queue = fifo_init block queue_capacity },
  )

-- What `main` frees after its loop: blocks of the queue, and texts of the actions and servers.
pub record Freed : Type 0 where
  pub queue_blocks : List ℕ
  pub action_texts : List Bytes
  pub server_texts : List Bytes

unfoldable pub clean_up : Queue → Option (List Slot) → StringList → ℕ → Option Freed
clean_up queue actions memcached_servers server_count = do
  let blocks = fifo_destroy queue
  texts ← free_actions actions
  some (record {
    queue_blocks = blocks;
    action_texts = texts;
    server_texts = destroy_string_list memcached_servers server_count;
  })
