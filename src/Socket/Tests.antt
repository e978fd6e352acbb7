-- ===== src/Socket/Tests.antt =====
-- `socket_cb` at work, and the theorems at inputs that meet their hypotheses.
use easyforetell.Prelude.{
  ℕ, ◌≡◌, ◌+◌, refl, ◌++◌, [], ◌∷◌, length, some, none, Option, true, replicate, arith,
  length-append, length-replicate, get_or, inl, inr,
}
use easyforetell.Memory.{
  Bytes, codes, strlen, read_at, write_at, c_str, index_of, strncat, strcpy, strchr,
}
use easyforetell.Memory.Laws.{IsText, Holds-text}
use easyforetell.Queue.{fifo_init, blocks, fifo_enqueue, copy_text}
use easyforetell.Queue.Run.{fifo_init-Holding}
use easyforetell.Socket.{
  State, bytes, socket_cb, received, take_lines, rounds, round, queued, restore, keep_rest, clear,
  should_socket_worker_run,
}
use easyforetell.Socket.Lines.{split_lines}
use easyforetell.Socket.Parse.{Took, deliver}
use easyforetell.Socket.Callback.{Idle, socket_cb_lem}
use easyforetell.Socket.Stream.{callbacks, callbacks_stream, Streamed}
use easyforetell.Socket.Limits.{socket_cb-replaces_cache, socket_cb-overflows, socket_cb-drops}

abbrev block : ℕ → Bytes
block i = replicate 255 0

-- The worker with the text `c` cached and `capacity` free blocks in the queue.
abbrev waiting : Bytes → ℕ → ℕ → State
waiting c pad capacity = (
  record {
    read_buffer = replicate 255 0;
    cache_buffer = c ++ 0 ∷ replicate pad 0;
    looping = true;
    linked = true;
  },
  record { should_run = true; url_count = 0; queue = fifo_init block capacity },
)

waiting-Idle : (c : Bytes) (pad : ℕ) → IsText c → length c + pad ≡ 254 → Idle (waiting c pad 4) c []
unfolding fifo_init
waiting-Idle c pad hc e = record {
  read_size = refl;
  cache = Holds-text c (replicate pad 0) hc;
  cache_size = omega (arith, length-append c (0 ∷ replicate pad 0), length-replicate {A = ℕ} pad 0);
  queue = fifo_init-Holding block 4 (λ i. refl) (omega arith);
  running = refl;
}

-- The texts in the blocks of the queue that are in use, how many are counted, and the cached text.
seen : Option State → Option (Option Bytes × ℕ × ℕ × Option Bytes)
seen none = none
seen (some (s, shared)) = some (
  c_str (get_or shared.queue.buffer 0 []),
  shared.queue.occupied,
  shared.url_count,
  c_str s.cache_buffer,
)

two_reads :
    seen (callbacks 2 (waiting [] 254 4) (codes "FETCH a" ∷ codes "b\nCA" ∷ []))
    ≡ some (some (codes "FETCH ab"), 1, 1, some (codes "CA"))
unfolding seen callbacks socket_cb received take_lines rounds round queued restore keep_rest clear
    should_socket_worker_run fifo_init blocks fifo_enqueue copy_text strlen read_at write_at c_str
    strncat strcpy strchr
two_reads = refl

-- The first part of a line that comes in three reads is lost.
three_reads :
    seen (callbacks 2 (waiting [] 254 4) (codes "FETCH a" ∷ codes "b" ∷ codes "c\n" ∷ []))
    ≡ some (some (codes "bc"), 1, 1, some [])
unfolding seen callbacks socket_cb received take_lines rounds round queued restore keep_rest clear
    should_socket_worker_run fifo_init blocks fifo_enqueue copy_text strlen read_at write_at c_str
    strncat strcpy strchr
three_reads = refl

callbacks_stream_example :
    Streamed
      (waiting [] 254 4)
      []
      (split_lines (codes "FETCH ab\nCA"))
      (callbacks 2 (waiting [] 254 4) (codes "FETCH a" ∷ codes "b\nCA" ∷ []))
unfolding split_lines index_of fifo_init
callbacks_stream_example =
    callbacks_stream 2 (codes "FETCH a" ∷ codes "b\nCA" ∷ []) (waiting-Idle [] 254 tt refl) refl
      (
        omega arith,
        omega arith,
        (λ i e. absurd (ground arith)),
        inr refl,
        (omega arith, omega arith, (λ i e. ground arith), inl tt, tt),
      )
      (omega arith)

socket_cb_lem_example :
    Took
      (waiting [] 254 4)
      []
      (socket_cb 2 (waiting [] 254 4) (bytes (codes "A\nB")))
      (deliver 4 [] (split_lines (codes "A\nB")).0 (split_lines (codes "A\nB")).1 [])
unfolding index_of fifo_init
socket_cb_lem_example =
    socket_cb_lem 2 (codes "A\nB") (waiting-Idle [] 254 tt refl) (omega arith) (omega arith)
      λ i e. ground arith

socket_cb-replaces_cache_example :
    (st' : State) × (socket_cb 2 (waiting (codes "FETCH a") 247 4) (bytes (codes "b")) ≡ some st')
    × Idle st' (codes "b") []
    × (st'.1.url_count ≡ 0)
unfolding index_of
socket_cb-replaces_cache_example =
    socket_cb-replaces_cache 2 (codes "b") (waiting-Idle (codes "FETCH a") 247 (omega arith) refl)
      (omega arith) (omega arith) (omega arith) refl

-- 250 bytes cached and a line of four: with its newline it fills the 255 bytes.
abbrev long : Bytes
long = replicate 250 b'x'

socket_cb-overflows_example : socket_cb 2 (waiting long 4 4) (bytes (codes "abcd\n")) ≡ none
unfolding index_of
socket_cb-overflows_example =
    socket_cb-overflows 2 (codes "abcd\n") 4 (waiting-Idle long 4 (omega arith) refl) (omega arith)
      (omega arith) refl refl

socket_cb-drops_example :
    (st' : State) × (socket_cb 2 (waiting long 4 4) (bytes (codes "abcde\nFETCH x\n")) ≡ some st')
    × Idle st' [] []
    × (st'.1 ≡ (waiting long 4 4).1)
unfolding index_of
socket_cb-drops_example =
    socket_cb-drops 2 (codes "abcde\nFETCH x\n") 5 (waiting-Idle long 4 (omega arith) refl)
      (omega arith) (omega arith) refl (omega arith)
