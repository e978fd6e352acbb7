-- ===== src/Launch.antt =====
-- src/queral.c, `main` from `daemonize` to the loop of the socket worker, and from there to its end.
-- What the operating system and malloc answer, and the descriptors of libev, are parameters;
-- curl_thread_init, what else libev does and the configuration, which `destroy_config` gives back
-- to libconfig, are left out.
pub mod Started
pub mod Outcome
pub mod Ended
pub mod Shortage
pub mod Configured
mod Tests
use easyforetell.Prelude.{
  ℕ, zero, suc, ◌+◌, Bool, true, false, List, [], ◌∷◌, Option, none, some, ◌>>=◌, if◌then◌else◌, ℤ,
  pos, negsuc,
}
use easyforetell.Memory.{Bytes}
use easyforetell.Queue.{Queue}
use easyforetell.Socket.{State}
use easyforetell.Daemon.{
  Descriptors, Os, Daemonized, exited, refused, started, open_file, daemonize,
}
use easyforetell.Pipe.{Node, Calls, Mask, create_fifo, create_thread}
use easyforetell.Config.{LibConfig}
use easyforetell.Directory.{LibDirectory}
use easyforetell.Boot.{Booted, Boot, ends, boots, exit_, boot}
use easyforetell.Lifetime.{Freed, prepare, clean_up}

-- What a process does at a signal.
pub data Disposition : Type 0 where
  default ignored handled : Disposition

-- At SIGTERM, SIGINT and SIGHUP; `handled` is by `signal_handler`.
pub record Dispositions : Type 0 where
  pub sigterm : Disposition
  pub sigint : Disposition
  pub sighup : Disposition

-- "Install signal handlers"
unfoldable pub install_handlers : Dispositions → Dispositions
install_handlers signals =
    let signals' = record signals { sigterm = handled } in
    let signals'' = record signals' { sigint = handled } in record signals'' { sighup = handled }

-- A worker of the pool with its entry of `thread_ids`: the signals that the thread blocks, or `none`
-- where pthread_create failed and the entry is never set.
pub record Thread : Type 0 where
  pub worker_id : ℕ
  pub thread_id : Option Mask

-- The loop that creates them from `i` on, and the signals that the main thread blocks behind it.
-- `error` is what pthread_create returns.
unfoldable pub create_workers : (ℕ → ℕ) → Mask → ℕ → ℕ → List Thread × Mask
create_workers error mask i zero = ([], mask)
create_workers error mask i (suc left) =
    let (thread, mask') = create_thread (error i) mask in
    let (threads, mask'') = create_workers error mask' (i + 1) left in
    (record { worker_id = i; thread_id = thread } ∷ threads, mask'')

-- The pool of `workers_count` workers. `thread_ids` has that many elements, at least one as C wants
-- it of an array, and no test follows the malloc of the pool.
unfoldable pub create_pool : Bool → (ℕ → ℕ) → Mask → ℤ → Option (List Thread × Mask)
create_pool allocated error mask (negsuc n) = none
create_pool allocated error mask (pos zero) = none
create_pool allocated error mask (pos (suc n)) =
    if allocated then some (create_workers error mask 0 (suc n)) else none

-- `strcpy (socket_worker.fifo_filename, fifo_filename)`, after a malloc without a test.
unfoldable pub copy_filename : Bool → Bytes → Option Bytes
copy_filename allocated fifo_filename = if allocated then some fifo_filename else none

-- What `main` meets: the system calls of `daemonize` with fuel for its loop, those of `create_fifo`,
-- the process before, the descriptors that libev's
-- `ev_loop_new` opens, the file at the name of the pipe, and the memory of the queue's blocks and of
-- `socket_worker`.
pub record Machine : Type 0 where
  pub os : Os
  pub fuel : ℕ
  pub fds : Descriptors
  pub ev_loop_new : Descriptors → Descriptors
  pub signals : Dispositions
  pub mask : Mask
  pub lstat : Bool
  pub unlink : Bool
  pub mkfifo : Bool
  pub open_fifo : Bool
  pub at_name : Option Node
  pub pool_allocated : Bool
  pub error : ℕ → ℕ
  pub block : ℕ → Bytes
  pub read_buffer : Bytes
  pub cache_buffer : Bytes
  pub filename_allocated : Bool

-- The daemon when its loop starts, with libev's descriptors in the table.
pub record Looping : Type 0 where
  pub booted : Booted
  pub fds : Descriptors
  pub pidfile : Option Bytes
  pub fifo : Option Node
  pub socket : ℕ
  pub signals : Dispositions
  pub threads : List Thread
  pub mask : Mask
  pub fifo_filename : Bytes
  pub state : State

-- `main` exits with what `exit_` frees, exits as the parent of the fork, or runs the loop.
pub data Launch : Type 0 where
  exits : Boot → Launch
  parent_exits : Launch
  loops : Looping → Launch

module _ (machine : Machine) where
  -- `exit_` with all that was loaded
  unfoldable pub exit_all : Booted → Option Launch
  exit_all b = do
    freed ← exit_ (some b.memcached_servers) b.server_count b.actions
    some (exits freed)

  -- With what `create_fifo` left at the name and returned.
  unfoldable pub with_fifo :
      Booted → Descriptors → Option Bytes → Option Node × Option ℕ → Option Launch
  with_fifo b fds pidfile (fifo, none) = exit_all b
  with_fifo b fds pidfile (fifo, some socket) = do
    (threads, mask) ←
        create_pool machine.pool_allocated machine.error machine.mask b.settings.workers_count
    state ← prepare machine.block machine.read_buffer machine.cache_buffer
    fifo_filename ← copy_filename machine.filename_allocated b.settings.fifo_filename
    some (
        loops (record {
          booted = b;
          fds = machine.ev_loop_new fds;
          pidfile = pidfile;
          fifo = fifo;
          socket = socket;
          signals = install_handlers (record machine.signals { sighup = ignored });
          threads = threads;
          mask = mask;
          fifo_filename = fifo_filename;
          state = state;
        }))

  -- With what `daemonize` made of the process; `open` takes the lowest free descriptor.
  unfoldable pub with_daemon : Booted → Daemonized → Option Launch
  with_daemon b exited = some parent_exits
  with_daemon b refused = exit_all b
  with_daemon b (started fds pidfile) =
      let (fd, fds') = open_file machine.open_fifo fds in
      let calls : Calls = record {
        lstat = machine.lstat;
        unlink = machine.unlink;
        mkfifo = machine.mkfifo;
        opened = fd;
      } in
      with_fifo b fds' pidfile (create_fifo calls machine.at_name)

  -- On what the first part of `main` came to.
  unfoldable pub launch : Boot → Option Launch
  launch (ends texts) = some (exits (ends texts))
  launch (boots b) = do
    daemon ← daemonize machine.os machine.fuel b.settings.pidfile_filename machine.fds
    with_daemon b daemon

-- "Wait for all threads to terminate"; to join an entry that was never set is a fault.
unfoldable pub join_threads : List Thread → Option (List ℕ)
join_threads [] = some []
join_threads (thread ∷ threads) = do
  joined ← thread.thread_id
  others ← join_threads threads
  some (thread.worker_id ∷ others)

-- From the end of the loop on, with the queue as the threads left it: the workers joined, and what
-- is freed.
unfoldable pub end_main : Looping → Queue → Option (List ℕ × Freed)
end_main running queue = do
  joined ← join_threads running.threads
  freed ←
      clean_up queue running.booted.actions running.booted.memcached_servers
        running.booted.server_count
  some (joined, freed)

-- `main` up to its loop, with what it loads as in Boot.
module _ (lib : LibConfig) (directory : LibDirectory) (fuel : ℕ) (allocated : ℕ → Bool)
    (servers_allocated files_allocated actions_allocated : Bool) (machine : Machine) where
  unfoldable pub main : List Bytes → Option Launch
  main args = do
    b ← boot lib directory fuel allocated servers_allocated files_allocated actions_allocated args
    launch machine b
