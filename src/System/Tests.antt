-- ===== src/System/Tests.antt =====
-- A daemon with two workers that takes a line, serves it, and stops.
use easyforetell.Prelude.{ℕ, ◌≡◌, ◌⊎◌, refl, true, false, [], ◌∷◌, ◌++◌, some, arith, replicate}
use easyforetell.Memory.{Bytes, codes}
use easyforetell.Queue.{Queue, stored, fifo_init, fifo_enqueue}
use easyforetell.Queue.Ring.{Holding, fifo_enqueue-stored}
use easyforetell.Queue.Run.{fifo_init-Holding}
use easyforetell.Memory.Laws.{Holds-text}
use easyforetell.Jobs.{idle, take_job}
use easyforetell.System.{
  System, Step, enter, close, accept, interrupt, outside, inside, init, Reach, start, later,
}
use easyforetell.System.Kept.{Sound}
use easyforetell.System.Workers.{Oldest}
use easyforetell.System.Invariant.{Reach-Sound}
use easyforetell.System.Service.{next_job, Steps, workers_leave}
use easyforetell.Memory.{index_of}
use easyforetell.Socket.{State, bytes, socket_cb}
use easyforetell.Socket.Lines.{split_lines}
use easyforetell.Socket.Parse.{deliver}
use easyforetell.Socket.Callback.{Idle}
use easyforetell.System.Callbacks.{between, socket_cb-Steps}
use easyforetell.Prelude.{Option, none, pos}
use easyforetell.Curl.{MemoryStruct}
use easyforetell.Memcached.{LibMemcached}
use easyforetell.Jobs.{Worker, Globals}
use easyforetell.Jobs.Loop.{Serves}
use easyforetell.Command.Parse.{short-FitsJob}
use easyforetell.System.Drain.{Drained, all_served}
use easyforetell.System.Turns.{turn-Step}

abbrev block : ℕ → Bytes
block i = replicate 255 0

abbrev fresh : System
fresh = init block 4

entered : Reach 2 block 4 (record fresh { main = inside })
unfolding init
entered = later start (enter refl refl)

-- The queue with one line.
abbrev line : Bytes
line = codes "FETCH abc"

filled :
    (q : Queue) × (fifo_enqueue (fifo_init block 4) (codes "FETCH abc" ++ 0 ∷ [])
      ≡ some (q, stored))
    × Holding q (line ∷ [])
    × (q.capacity ≡ 4)
unfolding fifo_init
filled =
    fifo_enqueue-stored (fifo_init-Holding block 4 (λ i. refl) (omega arith))
      (Holds-text line [] (ground arith)) (omega arith) (omega arith)

abbrev with_line : System
with_line = record {
  shared = record { should_run = true; url_count = 1; queue = filled.0 };
  main = outside;
  looping = true;
  left = 0;
  accepted = line ∷ [];
  served = [];
}

accepted_line : Reach 2 block 4 with_line
unfolding init
accepted_line = later entered (
    accept (line ++ 0 ∷ []) line filled.0 refl refl (Holds-text line [] (ground arith))
      (omega arith) filled.1)

Reach-Sound_example : Sound 2 with_line
Reach-Sound_example = Reach-Sound (λ i. refl) (omega arith) accepted_line

abbrev job : Bytes
job = replicate 255 0

next_job_example :
    ((take_job with_line.shared job ≡ some idle) × (with_line.accepted ≡ with_line.served))
    ⊎ Oldest 2 with_line job
next_job_example = next_job job (λ i. refl) (omega arith) accepted_line refl refl

-- The daemon after SIGTERM and the callback that follows it.
abbrev ended : System
ended = record {
  shared = record { should_run = false; url_count = 3; queue = filled.0 };
  main = outside;
  looping = false;
  left = 0;
  accepted = line ∷ [];
  served = [];
}

closed : Reach 2 block 4 ended
closed =
    later (later (later accepted_line (interrupt refl)) (enter refl refl)) (close refl refl refl)

workers_leave_example :
    (t : System) × Steps 2 ended t
    × (t.left ≡ 2)
    × (t.shared.queue ≡ ended.shared.queue)
    × (t.looping ≡ false)
workers_leave_example = workers_leave (λ i. refl) (omega arith) closed refl

-- A socket worker with nothing cached, as it starts.
abbrev listening : State
listening = (
  record {
    read_buffer = replicate 255 0;
    cache_buffer = replicate 255 0;
    looping = true;
    linked = true;
  },
  (init block 4).shared,
)

listening-Idle : Idle listening [] []
unfolding init
listening-Idle = record {
  read_size = refl;
  cache = Holds-text [] (replicate 254 0) tt;
  cache_size = refl;
  queue = fifo_init-Holding block 4 (λ i. refl) (omega arith);
  running = refl;
}

socket_cb-Steps_example :
    (st' : State) × (socket_cb 2 listening (bytes (codes "A\nB\nC")) ≡ some st')
    × Steps 2 (between listening.1 0 [] []) (between st'.1 0 [] (codes "A" ∷ codes "B" ∷ []))
unfolding init split_lines index_of deliver fifo_init
socket_cb-Steps_example =
    socket_cb-Steps 2 0 [] (codes "A\nB\nC") listening-Idle (omega arith) (omega arith)
      λ i e. ground arith

-- A memcached that keeps nothing, and a libcurl that fetches nothing.
abbrev no_cache : LibMemcached
no_cache = record {
  Memc = Unit {0};
  memcached_set = λ memc key value expiration. (tt, none);
  memcached_delete = λ memc key. (tt, none);
  longest_error = 25;
  set-short = λ memc key value expiration. omega arith;
  delete-short = λ memc key. omega arith;
}

abbrev perform : Bytes → MemoryStruct → Option (MemoryStruct × Option Bytes)
perform url mem = some (mem, some (codes "Timeout was reached"))

abbrev globals : Globals
globals = record { max_key = 251; key_prefix = codes "k_"; expiration = pos 7200; actions = none }

abbrev worker : Worker (Unit {0})
worker = record {
  buffer = record { memory = []; size = 0; enabled = false };
  memc = tt;
  job = job;
  command = job;
  key = [];
  new_command = job;
  lines = [];
}

turn-Step_example :
    (v : Serves no_cache perform globals with_line.shared worker line []) × Step 2 with_line
      (record with_line {
        shared = record { should_run = true; url_count = 0; queue = v.queue };
        served = line ∷ [];
      })
turn-Step_example =
    turn-Step no_cache perform globals worker line [] (λ i. refl) (omega arith) accepted_line refl
      (omega arith) refl refl refl refl (short-FitsJob 255 line (omega arith))

all_served_example : (t : System) × Drained 2 with_line t
all_served_example = all_served (λ i. refl) (omega arith) (omega arith) accepted_line refl (λ e. cc)
