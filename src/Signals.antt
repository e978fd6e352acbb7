-- ===== src/Signals.antt =====
-- src/queral.c, `signal_handler`: how the daemon is told to stop. The lock around the case and the
-- logging are left out.
pub mod Shutdown
mod Tests
use easyforetell.Prelude.{Bool, true, false, List, [], ◌∷◌, if◌then◌else◌}
use easyforetell.Memory.{Bytes, codes}
use easyforetell.Socket.{Shared}

-- The signals that the handler tells apart.
pub data Signal : Type 0 where
  sigterm sigint sighup other : Signal

-- The case SIGINT, which SIGTERM falls through to.
unfoldable pub stop : Bool → Shared → Shared × List Bytes
stop active shared =
    (record shared { should_run = false }, if active then codes "QUIT" ∷ [] else [])

-- The shared state after it, and the texts that it passes to `write_fifo`; `active` is whether the
-- watcher of the pipe is.
unfoldable pub signal_handler : Signal → Bool → Shared → Shared × List Bytes
signal_handler sigterm active shared = stop active shared
signal_handler sigint active shared = stop active shared
signal_handler sighup active shared = (shared, [])
signal_handler other active shared = (shared, [])
