-- ===== src/Queue.antt =====
-- src/queue.c: the bounded queue of jobs, a ring of `capacity` blocks of BUFFER_SIZE bytes. Each
-- function holds the queue's mutex from its first line to its last, so each is one step.
pub mod Fifo
pub mod Ring
pub mod Run
mod Tests
use easyforetell.Prelude.{
  ℕ, zero, suc, ◌+◌, ◌-◌, ◌%◌, Bool, true, false, ◌&&◌, List, [], ◌∷◌, ◌++◌, Option, none, some,
  ◌>>=◌, if◌then◌else◌, length, leb, ltb, ◌==◌, get_elem?, set,
}
use easyforetell.Memory.{Bytes, strlen, read_at, write_at}

-- BUFFER_SIZE
abbrev pub buffer_size : ℕ
buffer_size = 255

-- `fifo_queue_t`, without its mutex
pub record Queue : Type 0 where
  pub buffer : List Bytes
  pub capacity : ℕ
  pub occupied : ℕ
  pub begin : ℕ
  pub end : ℕ

-- `*res`: 1 and -1
pub data Res : Type 0 where
  stored refused : Res

-- The loop of `fifo_init`. What malloc returns is `block i`.
unfoldable pub blocks : (ℕ → Bytes) → ℕ → ℕ → List Bytes
blocks block i zero = []
blocks block i (suc left) = block i ∷ blocks block (i + 1) left

unfoldable pub fifo_init : (ℕ → Bytes) → ℕ → Queue
fifo_init block capacity = record {
  buffer = blocks block 0 capacity;
  capacity = capacity;
  occupied = 0;
  begin = 0;
  end = 0;
}

-- `sizeof (new_element)`: the size of a pointer
abbrev pub pointer_size : ℕ
pointer_size = 8

-- memcpy of a text with its NUL to the front of a block
unfoldable pub copy_text : Bytes → Bytes → Option Bytes
copy_text block text = do n ← strlen text; d ← read_at text 0 (n + 1); write_at block 0 d

unfoldable pub fifo_enqueue : Queue → Bytes → Option (Queue × Res)
fifo_enqueue q new_element =
    let store = do
      block ← get_elem? q.buffer q.begin
      block' ← copy_text block new_element
      some (
        record q {
          buffer = set q.buffer q.begin block';
          occupied = q.occupied + 1;
          begin = (q.begin + 1) % q.capacity;
        },
        stored,
      )
    in if leb pointer_size buffer_size && ltb q.occupied q.capacity
      then store
      else some (q, refused)

-- The queue and the buffer `next_element` after it. On an empty queue only the parameter is set to
-- NULL: the caller's buffer stays as it is.
unfoldable pub fifo_dequeue : Queue → Bytes → Option (Queue × Bytes)
fifo_dequeue q next_element =
    let fetched = do
      block ← get_elem? q.buffer q.end
      next ← copy_text next_element block
      some (record q { end = (q.end + 1) % q.capacity; occupied = q.occupied - 1 }, next)
    in if ltb 0 q.occupied then fetched else some (q, next_element)

-- `fifo_destroy`: the elements of `buffer` that it frees, in order
unfoldable pub indices : ℕ → ℕ → List ℕ
indices i zero = []
indices i (suc left) = i ∷ indices (i + 1) left

unfoldable pub fifo_destroy : Queue → List ℕ
fifo_destroy q = if q.occupied == 0 then [] else indices 0 q.capacity
