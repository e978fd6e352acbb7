-- ===== src/Socket.antt =====
-- src/queral.c, the socket worker: `socket_cb` cuts what it reads from the fifo into lines, and
-- hands each line to the workers through the queue.
pub mod Lines
pub mod Buffers
pub mod Handed
pub mod Texts
pub mod Rounds
pub mod Parse
pub mod Callback
pub mod Stream
pub mod Limits
mod Tests
use easyforetell.Prelude.{
  ℕ, zero, suc, ◌+◌, ◌-◌, Bool, true, false, not, List, [], ◌∷◌, ◌++◌, Option, none, some, ◌>>=◌,
  if◌then◌else◌, length, ltb, replicate, drop,
}
use easyforetell.Memory.{Bytes, strlen, strcpy, strncat, strchr, write_at}
use easyforetell.Queue.{Queue, buffer_size, Res, stored, refused, fifo_enqueue}

-- The globals that the threads share under `mutex`, with the queue.
pub record Shared : Type 0 where
  pub should_run : Bool
  pub url_count : ℕ
  pub queue : Queue

-- `socket_worker_t`: its buffers, whether its loop still runs, and whether its fifo is linked
pub record Socket : Type 0 where
  pub read_buffer : Bytes
  pub cache_buffer : Bytes
  pub looping : Bool
  pub linked : Bool

abbrev pub State : Type 0
State = Socket × Shared

-- `memset(b, '\0', BUFFER_SIZE)`
unfoldable pub clear : Bytes → Option Bytes
clear b = write_at b 0 (replicate buffer_size 0)

-- How a round of the `while` ends: in a `return`, or with a new `found`.
pub data Round : Type 0 where
  returned : State → Round
  again : State → Option ℕ → Round

-- "Restore the buffers and repeat the search"; strcpy moves the text down byte by byte.
unfoldable pub restore : Bytes → ℕ → ℕ → Option (Bytes × Option ℕ)
restore read found buffer_length = do
  n ← strlen read
  let shift = do
    read' ← strcpy read 0 (drop (found + 1) read)
    found' ← strchr read' b'\n'
    some (read', found')
  let emptied = do read' ← clear read; some (read', none)
  if ltb buffer_length n then shift else emptied

-- From `fifo_enqueue` to the end of the round, on its result.
unfoldable pub queued : Socket → Shared → ℕ → ℕ → Queue × Res → Option Round
queued s shared found buffer_length (q, refused) = do
  cache ← clear s.cache_buffer
  some (returned (record s { cache_buffer = cache }, record shared { queue = q }))
queued s shared found buffer_length (q, stored) = do
  (read, found') ← restore s.read_buffer found buffer_length
  cache ← clear s.cache_buffer
  some (
      again
        (
          record s { read_buffer = read; cache_buffer = cache },
          record shared { queue = q; url_count = shared.url_count + 1 },
        )
        found')

-- A round, where the newline found is at offset `found` of the read buffer.
unfoldable pub round : State → ℕ → Option Round
round (s, shared) found = do
  whole ← strlen s.read_buffer
  rest ← strlen (drop found s.read_buffer)
  let buffer_length = whole - rest + 1
  cached ← strlen s.cache_buffer
  let overflow = do
    cache ← clear s.cache_buffer
    some (returned (record s { cache_buffer = cache }, shared))
  let line = do
    joined ← strncat s.cache_buffer s.read_buffer buffer_length
    n ← strlen joined
    cut ← write_at joined (n - 1) (0 ∷ [])
    r ← fifo_enqueue shared.queue cut
    queued (record s { cache_buffer = cut }) shared found buffer_length r
  if ltb buffer_size (cached + buffer_length) then overflow else line

-- What follows the loop: the rest of the read buffer goes to the cache buffer.
unfoldable pub keep_rest : State → Option State
keep_rest (s, shared) = do
  n ← strlen s.read_buffer
  let kept = do
    cache ← strcpy s.cache_buffer 0 s.read_buffer
    some (record s { cache_buffer = cache }, shared)
  if ltb 0 n then kept else some (s, shared)

-- The loop, on fuel; `none` is also the end of the fuel.
unfoldable pub rounds : ℕ → State → Option ℕ → Option State
rounds fuel st none = keep_rest st
rounds zero st (some found) = none
rounds (suc fuel) st (some found) = do
  r ← round st found
  elim r [ returned st' ↦ some st' | again st' found' ↦ rounds fuel st' found' ]

-- `socket_cb` from `strchr` on. A read buffer holds fewer lines than bytes.
unfoldable pub take_lines : State → Option State
take_lines (s, shared) = do found ← strchr s.read_buffer b'\n'; rounds buffer_size (s, shared) found

-- `read`: an error, the end of the file, or some bytes
pub data Input : Type 0 where
  failed closed : Input
  bytes : Bytes → Input

unfoldable pub received : State → Input → Option State
received st failed = some st
received st closed = some st
received (s, shared) (bytes data_read) = do
  filled ← write_at s.read_buffer 0 data_read
  ended ← write_at filled (length data_read) (0 ∷ [])
  take_lines (record s { read_buffer = ended }, shared)

-- `should_socket_worker_run`: on the way out it closes the loop and wakes each worker once.
unfoldable pub should_socket_worker_run : ℕ → State → State × Bool
should_socket_worker_run workers_count (s, shared) =
    if shared.should_run then ((s, shared), true) else (
      (
        record s { looping = false; linked = false },
        record shared { url_count = shared.url_count + workers_count },
      ),
      false,
    )

unfoldable pub socket_cb : ℕ → State → Input → Option State
socket_cb workers_count st input =
    let (st', run) = should_socket_worker_run workers_count st in
    if run then received st' input else some st'
