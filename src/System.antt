-- ===== src/System.antt =====
-- The threads of the daemon together (src/queral.c): the main thread, which runs the socket worker
-- and the signal handler, and the workers. `mutex` makes each critical section one step of its
-- thread; signals are blocked in the workers, so only the main thread is interrupted.
pub mod Kept
pub mod Sections
pub mod Workers
pub mod Invariant
pub mod Service
pub mod Deadlock
pub mod Callbacks
pub mod Turns
pub mod Drain
mod Tests
use easyforetell.Prelude.{
  ℕ, suc, ◌+◌, ◌-◌, ◌<◌, ◌≡◌, Bool, true, false, List, [], ◌∷◌, ◌++◌, Option, some, length,
  >>=-eq-some,
}
use easyforetell.Memory.{Bytes, c_str}
use easyforetell.Memory.Laws.{Holds}
use easyforetell.Queue.{Queue, buffer_size, Res, stored, refused, fifo_init, fifo_enqueue}
use easyforetell.Socket.{Shared}
use easyforetell.Jobs.{Take, done, taken, take_job}

-- Where the main thread is: outside the critical sections of the socket worker, inside one, or in
-- the signal handler that interrupted one and waits for `mutex`.
pub data Main : Type 0 where
  outside inside blocked : Main

-- Whether the main thread holds `mutex`: inside a critical section, interrupted or not.
abbrev pub holds_mutex : Main → Bool
holds_mutex outside = false
holds_mutex inside = true
holds_mutex blocked = true

-- `looping` is whether the loop of the socket worker still runs, `left` how many workers have left
-- theirs. The lines that the queue took and the jobs that the workers got are kept, in order.
pub record System : Type 0 where
  pub shared : Shared
  pub main : Main
  pub looping : Bool
  pub left : ℕ
  pub accepted : List Bytes
  pub served : List Bytes

-- `n` is `workers_count`. The workers lock `mutex` where the main thread does not hold it; that is
-- outside. What is in the pipe is no part of the state: the socket worker may enter a critical
-- section at any time, which allows more than the program does.
pub data Step (n : ℕ) (s : System) : System → Type 0 where
  -- `pthread_mutex_lock` of the socket worker
  enter : s.main ≡ outside → s.looping ≡ true → Step n s (record s { main = inside })
  -- `should_socket_worker_run`, where the daemon runs
  goes_on :
      s.main ≡ inside
      → s.looping ≡ true
      → s.shared.should_run ≡ true
      → Step n s (record s { main = outside })
  -- the same, where it ends
  close :
      s.main ≡ inside
      → s.looping ≡ true
      → s.shared.should_run ≡ false
      → Step n s (record s {
        main = outside;
        looping = false;
        shared = record {
          should_run = false;
          url_count = s.shared.url_count + n;
          queue = s.shared.queue;
        };
      })
  -- the line in a buffer for the queue, which takes it
  accept :
      (cut line : Bytes) (q : Queue)
      → s.main ≡ inside
      → s.looping ≡ true
      → Holds cut line
      → length line < buffer_size
      → fifo_enqueue s.shared.queue cut ≡ some (q, stored)
      → Step n s (record s {
        main = outside;
        accepted = s.accepted ++ line ∷ [];
        shared = record {
          should_run = s.shared.should_run;
          url_count = s.shared.url_count + 1;
          queue = q;
        };
      })
  -- or refuses it
  refuse :
      (cut line : Bytes) (q : Queue)
      → s.main ≡ inside
      → s.looping ≡ true
      → Holds cut line
      → length line < buffer_size
      → fifo_enqueue s.shared.queue cut ≡ some (q, refused)
      → Step n s (record s {
        main = outside;
        shared = record {
          should_run = s.shared.should_run;
          url_count = s.shared.url_count;
          queue = q;
        };
      })
  -- SIGTERM or SIGINT outside the critical sections
  interrupt :
      s.main ≡ outside
      → Step n s (record s {
        shared = record {
          should_run = false;
          url_count = s.shared.url_count;
          queue = s.shared.queue;
        };
      })
  -- the same inside one: the handler is at `pthread_mutex_lock`
  interrupt_inside : s.main ≡ inside → Step n s (record s { main = blocked })
  -- it returns once `mutex` is free, and the section goes on behind the handler
  lock_returns :
      s.main ≡ blocked
      → holds_mutex s.main ≡ false
      → Step n s (record s {
        main = inside;
        shared = record {
          should_run = false;
          url_count = s.shared.url_count;
          queue = s.shared.queue;
        };
      })
  -- a worker with this buffer gets a job
  take :
      (job job' line : Bytes) (shared : Shared)
      → s.main ≡ outside
      → s.left < n
      → length job ≡ buffer_size
      → take_job s.shared job ≡ some (taken shared job')
      → c_str job' ≡ some line
      → Step n s (record s { shared = shared; served = s.served ++ line ∷ [] })
  -- a worker leaves its loop
  leave :
      (job : Bytes) (shared : Shared)
      → s.main ≡ outside
      → s.left < n
      → length job ≡ buffer_size
      → take_job s.shared job ≡ some (done shared)
      → Step n s (record s { shared = shared; left = s.left + 1 })

-- The daemon with its threads just started and the queue prepared.
unfoldable pub init : (ℕ → Bytes) → ℕ → System
init block capacity = record {
  shared = record { should_run = true; url_count = 0; queue = fifo_init block capacity };
  main = outside;
  looping = true;
  left = 0;
  accepted = [];
  served = [];
}

pub data Reach (n : ℕ) (block : ℕ → Bytes) (capacity : ℕ) : System → Type 0 where
  start : Reach n block capacity (init block capacity)
  later : {s t : System} → Reach n block capacity s → Step n s t → Reach n block capacity t
