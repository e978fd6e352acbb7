-- ===== src/Launch/Started.antt =====
-- What `main` starts when nothing fails.
use easyforetell.Prelude.{
  ℕ, zero, suc, ◌+◌, ◌<◌, ◌≡◌, refl, ap, ◌∙◌, true, false, List, [], ◌∷◌, ◌++◌, Option, some, arith,
  length, replicate, pos,
}
use easyforetell.Prelude.Int.{show}
use easyforetell.Memory.{Bytes}
use easyforetell.Queue.{buffer_size}
use easyforetell.Socket.Callback.{Idle}
use easyforetell.Daemon.{Descriptors, open_file, lowest, limit, daemonize}
use easyforetell.Daemon.Descriptors.{succeeding, running, daemonize_lem}
use easyforetell.Pipe.{pipe, Mask, is_regular, unlinked, make_fifo, create_fifo, create_thread}
use easyforetell.Boot.{Booted, boots}
use easyforetell.Lifetime.{queue_capacity}
use easyforetell.Lifetime.Service.{prepare-Idle}
use easyforetell.System.{Reach, start, init}
use easyforetell.System.Callbacks.{between}
use easyforetell.Launch.{
  Dispositions, handled, Thread, Machine, Looping, Launch, loops, install_handlers, create_workers,
  create_pool, copy_filename, with_fifo, with_daemon, launch,
}

abbrev all_signals : Mask
all_signals signo = true

-- Workers from number `i` on, each with a thread that blocks all signals.
abbrev pub numbered : ℕ → ℕ → List Thread
numbered i zero = []
numbered i (suc left) =
    record { worker_id = i; thread_id = some all_signals } ∷ numbered (i + 1) left

create_workers_lem :
    (error : ℕ → ℕ) (mask : Mask) (i left : ℕ)
    → ((k : ℕ) → error k ≡ 0)
    → create_workers error mask i left ≡ (numbered i left, mask)
unfolding create_workers create_thread
create_workers_lem error mask i zero ok = refl
create_workers_lem error mask i (suc left) ok =
    rw (ok i, create_workers_lem error mask (i + 1) left ok) refl

-- No call fails in the child of the fork, which has the process number `pid` and 5 + m descriptors;
-- whatever stands at the name of the pipe is no regular file; and the memory is large enough.
pub record AllSucceed (machine : Machine) (pid m : ℕ) : Type 0 where
  pub rlim_max : Option ℕ
  pub os : machine.os ≡ succeeding pid rlim_max
  pub limited : limit rlim_max ≡ 5 + m
  pub small : 5 + m < 4294967296
  pub table : length machine.fds ≡ 5 + m
  pub enough : 5 + m < machine.fuel
  pub short : length (show (pos pid)) < 16
  pub looks : machine.lstat ≡ true
  pub removes : machine.unlink ≡ true
  pub makes : machine.mkfifo ≡ true
  pub opens : machine.open_fifo ≡ true
  pub free : is_regular machine.at_name ≡ false
  pub pool : machine.pool_allocated ≡ true
  pub name : machine.filename_allocated ≡ true
  pub threads : (i : ℕ) → machine.error i ≡ 0
  pub blocks : (i : ℕ) → length (machine.block i) ≡ buffer_size
  pub read_size : length machine.read_buffer ≡ buffer_size
  pub cache_size : length machine.cache_buffer ≡ buffer_size

abbrev all_handled : Dispositions
all_handled = record { sigterm = handled; sigint = handled; sighup = handled }

-- The daemon with `n` workers when its loop starts.
pub record Launched (machine : Machine) (b : Booted) (n pid m : ℕ) (o : Option Launch)
    : Type 0 where
  pub running : Looping
  pub runs : o ≡ some (loops running)
  pub booted : running.booted ≡ b
  pub fds : running.fds ≡ machine.ev_loop_new (replicate 5 true ++ replicate m false)
  pub socket : running.socket ≡ 4
  pub pidfile : running.pidfile ≡ some (show (pos pid) ++ 0 ∷ [])
  pub fifo : running.fifo ≡ some pipe
  pub name : running.fifo_filename ≡ b.settings.fifo_filename
  pub signals : running.signals ≡ all_handled
  pub threads : running.threads ≡ numbered 0 n
  pub mask : running.mask ≡ machine.mask
  pub idle : Idle running.state [] []
  pub reached : Reach n machine.block queue_capacity (between running.state.1 0 [] [])

module _ (machine : Machine) (b : Booted) (pid m : ℕ) (h : AllSucceed machine pid m) where
  daemonized :
      daemonize machine.os machine.fuel b.settings.pidfile_filename machine.fds
      ≡ some (running pid (suc m))
  daemonized = rw h.os (
      daemonize_lem pid b.settings.pidfile_filename h.short machine.fuel (suc m) h.rlim_max
        machine.fds (omega (arith, h.limited)) (omega (arith, h.small)) (omega (arith, h.table))
        (omega (arith, h.enough)))

  opened :
      open_file machine.open_fifo (replicate 4 true ++ replicate (suc m) false)
      ≡ (some 4, replicate 5 true ++ replicate m false)
  unfolding open_file lowest
  opened = rw h.opens refl

  made :
      create_fifo
        (record {
          lstat = machine.lstat;
          unlink = machine.unlink;
          mkfifo = machine.mkfifo;
          opened = some 4;
        })
        machine.at_name
      ≡ (some pipe, some 4)
  unfolding create_fifo unlinked make_fifo
  made = rw (h.looks, h.free, h.removes, h.makes) refl

  pooled :
      (n : ℕ)
      → b.settings.workers_count ≡ pos (suc n)
      → create_pool machine.pool_allocated machine.error machine.mask b.settings.workers_count
        ≡ some (numbered 0 (suc n), machine.mask)
  unfolding create_pool
  pooled n count =
      rw (count, h.pool)
        (ap some (create_workers_lem machine.error machine.mask 0 (suc n) h.threads))

  named :
      copy_filename machine.filename_allocated b.settings.fifo_filename
      ≡ some b.settings.fifo_filename
  unfolding copy_filename
  named = rw h.name refl

  abbrev pub table : Descriptors
  table = replicate 5 true ++ replicate m false

  abbrev pub pid_text : Option Bytes
  pid_text = some (show (pos pid) ++ 0 ∷ [])

  with_pipe :
      with_daemon machine b (running pid (suc m))
      ≡ with_fifo machine b table pid_text (some pipe, some 4)
  unfolding with_daemon
  with_pipe =
      ap
        (λ (k : Option ℕ × Descriptors). with_fifo machine b k.1 pid_text (
          create_fifo
            (record {
              lstat = machine.lstat;
              unlink = machine.unlink;
              mkfifo = machine.mkfifo;
              opened = k.0;
            })
            machine.at_name))
        opened
      ∙ ap (with_fifo machine b table pid_text) made

  -- Up to the pool.
  pub launch-with_fifo :
      launch machine (boots b) ≡ with_fifo machine b table pid_text (some pipe, some 4)
  unfolding launch
  launch-with_fifo = rw daemonized with_pipe

  pub launch_lem :
      (n : ℕ)
      → b.settings.workers_count ≡ pos (suc n)
      → Launched machine b (suc n) pid m (launch machine (boots b))
  unfolding with_fifo install_handlers init
  launch_lem n count =
      let p =
        prepare-Idle machine.block machine.read_buffer machine.cache_buffer h.blocks h.read_size
          h.cache_size in
      record {
        running = record {
          booted = b;
          fds = machine.ev_loop_new table;
          pidfile = pid_text;
          fifo = some pipe;
          socket = 4;
          signals = all_handled;
          threads = numbered 0 (suc n);
          mask = machine.mask;
          fifo_filename = b.settings.fifo_filename;
          state = p.state;
        };
        runs = rw (launch-with_fifo, with_fifo, pooled n count, p.runs, named) refl;
        booted = refl;
        fds = refl;
        socket = refl;
        pidfile = refl;
        fifo = refl;
        name = refl;
        signals = refl;
        threads = refl;
        mask = refl;
        idle = p.idle;
        reached = rw p.shared start;
      }
