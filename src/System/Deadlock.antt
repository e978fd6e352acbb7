-- ===== src/System/Deadlock.antt =====
-- A signal inside a critical section of the main thread.
use easyforetell.System.{System}
