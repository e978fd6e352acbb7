-- ===== src/Lifetime/Service.antt =====
-- The socket worker from its start on, and what is freed at the end.
use easyforetell.Prelude.{
  concat, ℕ, ◌≤◌, ◌≡◌, refl, List, [], ◌∷◌, ◌++◌, map, Option, none, some, arith, length, replicate,
  true,
}
use easyforetell.Memory.{Bytes}
use easyforetell.StringLists.Fill.{destroy_string_list-filled}
use easyforetell.Actions.{Action}
use easyforetell.Actions.Find.{ended_by, all_texts, destroy_actions_lem}
use easyforetell.Queue.{Queue, buffer_size, indices, fifo_destroy, fifo_init}
use easyforetell.Queue.Ring.{Holding}
use easyforetell.Queue.Run.{fifo_init-Holding}
use easyforetell.Socket.{State}
use easyforetell.Socket.Buffers.{clear_lem}
use easyforetell.Socket.Lines.{split_lines}
use easyforetell.Socket.Callback.{Idle}
use easyforetell.Socket.Stream.{callbacks, IsWellCut, callbacks_stream}
use easyforetell.Boot.{free_actions}
use easyforetell.Lifetime.{queue_capacity, prepare, clean_up}

-- The state that `main` prepares.
pub record Prepared (block : ℕ → Bytes) (o : Option State) : Type 0 where
  pub state : State
  pub runs : o ≡ some state
  pub idle : Idle state [] []
  pub shared :
      state.1 ≡ record { should_run = true; url_count = 0; queue = fifo_init block queue_capacity }
  capacity : state.1.queue.capacity ≡ queue_capacity
  nothing : state.1.url_count ≡ 0

pub prepare-Idle :
    (block : ℕ → Bytes) (read_buffer cache_buffer : Bytes)
    → ((i : ℕ) → length (block i) ≡ buffer_size)
    → length read_buffer ≡ buffer_size
    → length cache_buffer ≡ buffer_size
    → Prepared block (prepare block read_buffer cache_buffer)
unfolding prepare fifo_init
prepare-Idle block read_buffer cache_buffer sizes read_size cache_size =
    let (cleared, e, held, size) = clear_lem cache_buffer cache_size in
    record {
      state = (
        record { read_buffer = read_buffer; cache_buffer = cleared; looping = true; linked = true },
        record { should_run = true; url_count = 0; queue = fifo_init block queue_capacity },
      );
      runs = rw e;
      idle = record {
        read_size = read_size;
        cache = held;
        cache_size = size;
        queue = fifo_init-Holding block queue_capacity sizes (omega arith);
        running = refl;
      };
      shared = refl;
      capacity = refl;
      nothing = refl;
    }

-- With blocks and buffers of BUFFER_SIZE bytes of any content, `main` prepares a socket worker
-- that, for reads cut as `IsWellCut` allows with at most QUEUE_CAPACITY complete lines and with
-- no worker in between, puts exactly the lines of what it reads into the queue, in order, counts
-- them in `url_count` and caches the text behind the last newline.
pub prepare-callbacks :
    (block : ℕ → Bytes) (read_buffer cache_buffer : Bytes) (workers_count : ℕ) (ds : List Bytes)
    → ((i : ℕ) → length (block i) ≡ buffer_size)
    → length read_buffer ≡ buffer_size
    → length cache_buffer ≡ buffer_size
    → IsWellCut [] ds
    → length (split_lines (concat ds)).0 ≤ queue_capacity
    → (st st' : State) × (prepare block read_buffer cache_buffer ≡ some st)
      × (callbacks workers_count st ds ≡ some st')
      × Idle st' (split_lines (concat ds)).1 (split_lines (concat ds)).0
      × (st'.1.url_count ≡ length (split_lines (concat ds)).0)
unfolding split_lines
prepare-callbacks block read_buffer cache_buffer workers_count ds sizes read_size cache_size cut
      room =
    let p = prepare-Idle block read_buffer cache_buffer sizes read_size cache_size in
    let s = callbacks_stream workers_count ds p.idle refl cut (omega (arith, p.capacity)) in
    (p.state, s.after, p.runs, s.runs, s.idle, omega (arith, s.counted, p.nothing))

-- The blocks that `fifo_destroy` frees: none of an empty queue.
abbrev pub freed_blocks : List Bytes → ℕ → List ℕ
freed_blocks [] capacity = []
freed_blocks (t ∷ ts) capacity = indices 0 capacity

pub fifo_destroy_lem :
    (q : Queue) (ts : List Bytes) → Holding q ts → fifo_destroy q ≡ freed_blocks ts q.capacity
unfolding fifo_destroy
fifo_destroy_lem q [] v = ground (arith, v.counted)
fifo_destroy_lem q (t ∷ ts) v = ground (arith, v.counted)

-- At its end `main` frees every action with its name and the texts of its refresh list, in order
-- and each once, and all texts of the list of servers, whose count is at least their number; of
-- the queue it frees all blocks in order if a line is left in it, and none if it is empty.
pub clean_up_lem :
    (q : Queue) (waiting : List Bytes) (acts : List Action) (servers : List Bytes) (n count : ℕ)
    → Holding q waiting
    → length servers ≤ count
    → clean_up q (some (ended_by acts [])) (map some servers ++ replicate n none) count
      ≡ some (record {
        queue_blocks = freed_blocks waiting q.capacity;
        action_texts = all_texts acts;
        server_texts = servers;
      })
unfolding clean_up free_actions
clean_up_lem q waiting acts servers n count v few = rw (
  fifo_destroy_lem q waiting v,
  destroy_actions_lem acts [],
  destroy_string_list-filled servers n count few,
)
