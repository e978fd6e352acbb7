-- ===== src/Socket/Handed.antt =====
-- The calls of `fifo_enqueue` that a callback makes, one for each line.
use easyforetell.Prelude.{◌+◌, ◌<◌, ◌≡◌, List, [], ◌∷◌, ◌++◌, some, length}
use easyforetell.Memory.{Bytes}
use easyforetell.Memory.Laws.{Holds}
use easyforetell.Queue.{Queue, buffer_size, stored, refused, fifo_enqueue}
use easyforetell.Socket.{Shared}

-- The shared state and the texts of its queue before and after the calls; a call that is refused is
-- the last one.
pub data Hands : Shared → List Bytes → Shared → List Bytes → Type 0 where
  stops : {s : Shared} {ts : List Bytes} → Hands s ts s ts
  refuses :
      {s : Shared} {ts : List Bytes} (cut line : Bytes)
      → Holds cut line
      → length line < buffer_size
      → fifo_enqueue s.queue cut ≡ some (s.queue, refused)
      → Hands s ts s ts
  stores :
      {s s' : Shared} {ts ts' : List Bytes} (cut line : Bytes) (q : Queue)
      → Holds cut line
      → length line < buffer_size
      → fifo_enqueue s.queue cut ≡ some (q, stored)
      → Hands
          (record { should_run = s.should_run; url_count = s.url_count + 1; queue = q })
          (ts ++ line ∷ [])
          s'
          ts'
      → Hands s ts s' ts'
