-- ===== src/Socket/Callback.antt =====
-- One whole call of `socket_cb`.
use easyforetell.Prelude.{
  ℕ, ◌+◌, ◌<◌, ◌≡◌, ap, ◌∙◌, List, [], ◌∷◌, ◌++◌, some, arith, length, length-append, append-nil,
  drop, length-drop, subst, true,
}
use easyforetell.Memory.{Bytes, write_at}
use easyforetell.Memory.Laws.{IsText, Holds, write_text, write_at-fits}
use easyforetell.Queue.{buffer_size}
use easyforetell.Queue.Ring.{Holding}
use easyforetell.Socket.{State, bytes, received, take_lines, should_socket_worker_run, socket_cb}
use easyforetell.Socket.Lines.{split_lines}
use easyforetell.Socket.Texts.{Ready}
use easyforetell.Socket.Parse.{Took, FitsCache, deliver, take_lines_lem}

-- The socket worker between two callbacks.
pub record Idle (st : State) (c : Bytes) (ts : List Bytes) : Type 0 where
  pub read_size : length st.0.read_buffer ≡ buffer_size
  pub cache : Holds st.0.cache_buffer c
  pub cache_size : length st.0.cache_buffer ≡ buffer_size
  pub queue : Holding st.1.queue ts
  pub running : st.1.should_run ≡ true

-- While the daemon runs the check at the head of `socket_cb` changes nothing.
still_running :
    (workers_count : ℕ) (st : State)
    → st.1.should_run ≡ true
    → should_socket_worker_run workers_count st ≡ (st, true)
unfolding should_socket_worker_run
still_running workers_count st e = rw e

filled_lem :
    (b d : Bytes)
    → IsText d
    → length d < length b
    → (b' b'' : Bytes) × (write_at b 0 d ≡ some b')
      × (write_at b' (length d) (0 ∷ []) ≡ some b'')
      × Holds b'' d
      × (length b'' ≡ length b)
filled_lem b d hd room =
    let (b'', w, held, n) =
      write_text d (drop (length d) b) [] hd tt (omega (arith, length-drop (length d) b)) in
    (
      d ++ drop (length d) b,
      b'',
      write_at-fits b 0 d (omega arith)
          ∙ ap (λ k. some (d ++ drop k b)) {x = 0 + length d} (omega arith),
      w,
      subst (Holds b'') (append-nil d) held,
      omega (arith, n, length-append d (drop (length d) b), length-drop (length d) b),
    )

abbrev pub with_read : State → Bytes → State
with_read st b = (
  record {
    read_buffer = b;
    cache_buffer = st.0.cache_buffer;
    looping = st.0.looping;
    linked = st.0.linked;
  },
  st.1,
)

-- What `read` returned stands in the read buffer when the search for lines begins.
pub socket_cb_filled :
    (workers_count : ℕ) {st : State} {c : Bytes} {ts : List Bytes} (d : Bytes)
    → Idle st c ts
    → IsText d
    → length d < buffer_size
    → (b : Bytes) × (socket_cb workers_count st (bytes d) ≡ take_lines (with_read st b))
      × Ready (with_read st b) d c ts
unfolding socket_cb received
socket_cb_filled workers_count {st} d v hd short =
    let (_, b, w, w', held, n) = filled_lem st.0.read_buffer d hd (omega (arith, v.read_size)) in
    (
      b,
      rw (still_running workers_count st v.running, w, w'),
      record {
        read = held;
        read_size = n ∙ v.read_size;
        cache = v.cache;
        cache_size = v.cache_size;
        queue = v.queue;
      },
    )

-- One callback of a running socket worker on a text without NUL bytes and shorter than
-- BUFFER_SIZE, whose first line with its newline and the cached text are together shorter than
-- BUFFER_SIZE, ends within its buffers with the state that `deliver` describes: the lines go to
-- the queue in order, the first behind the cached text, until the queue is full; the others are
-- then dropped and nothing is cached; otherwise the text behind the last newline is cached, or,
-- with no newline, the text read replaces the cached text, and an empty text behind the last
-- newline leaves the cache empty.
pub socket_cb_lem :
    (workers_count : ℕ) {st : State} {c : Bytes} {ts : List Bytes} (d : Bytes)
    → Idle st c ts
    → IsText d
    → length d < buffer_size
    → FitsCache c d
    → Took st ts
        (socket_cb workers_count st (bytes d))
        (deliver st.1.queue.capacity ts (split_lines d).0 (split_lines d).1 c)
socket_cb_lem workers_count {st} d v hd short fits =
    let (b, e, ready) = socket_cb_filled workers_count d v hd short in
    let got = take_lines_lem {st = with_read st b} ready fits in
    record {
      after = got.after;
      runs = e ∙ got.runs;
      read_size = got.read_size;
      cache = got.cache;
      cache_size = got.cache_size;
      queue = got.queue;
      counted = got.counted;
      capacity = got.capacity;
      running = got.running;
      handed = got.handed;
    }
