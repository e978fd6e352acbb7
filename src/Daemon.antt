-- ===== src/Daemon.antt =====
-- src/daemon_utils.c: how the process becomes a daemon. What the calls of the operating system
-- return is a parameter; a call that opens a file gives the lowest descriptor that is free.
pub mod Descriptors
mod Tests
use easyforetell.Prelude.{
  ℕ, zero, suc, ◌+◌, ◌%◌, Bool, true, false, ◌&&◌, List, [], ◌∷◌, ◌++◌, Option, none, some, ◌>>=◌,
  ltb, if◌then◌else◌, length, set, ℤ, pos, ◌==◌,
}
use easyforetell.Prelude.Int.{show}
use easyforetell.Memory.{Bytes, codes}
use easyforetell.Logger.{log_error, log_info}

-- The descriptors below the process's limit, and whether each is open.
abbrev pub Descriptors : Type 0
Descriptors = List Bool

pub data Fork : Type 0 where
  failed parent child : Fork

-- fcntl with F_SETLK: success, EACCES or EAGAIN, or another error
pub data Lock : Type 0 where
  locked busy broken : Lock

-- The results of the calls. `rlim_max` is none after an error of getrlimit, and some none is
-- RLIM_INFINITY; a Boolean is whether the call succeeds.
pub record Os : Type 0 where
  pub rlim_max : Option (Option ℕ)
  pub fork : Fork
  pub setsid : Bool
  pub sigaction : Bool
  pub chdir : Bool
  pub open_stdin : Bool
  pub open_stdout : Bool
  pub open_stderr : Bool
  pub open_lock : Bool
  pub lockfile : Lock
  pub getpid : ℕ

-- The lowest free descriptor, taken.
unfoldable pub lowest : Descriptors → Option (ℕ × Descriptors)
lowest [] = none
lowest (false ∷ fds) = some (0, true ∷ fds)
lowest (true ∷ fds) = do (fd, fds') ← lowest fds; some (suc fd, true ∷ fds')

-- open; `none` is its result -1
unfoldable pub open_file : Bool → Descriptors → Option ℕ × Descriptors
open_file false fds = (none, fds)
open_file true fds = elim (lowest fds) [ none ↦ (none, fds) | some (fd, fds') ↦ (some fd, fds') ]

-- How `already_running` ends: whether it says so, the descriptors, and what it writes to the file.
pub record Running : Type 0 where
  pub already : Bool
  pub fds : Descriptors
  pub written : Option Bytes

-- sprintf into `buf[16]`, and write of the text with its NUL
unfoldable pub write_pid : Os → Descriptors → Option Running
write_pid os fds =
    let buf = show (pos os.getpid) in
    if ltb (length buf) 16
    then some (record { already = false; fds = fds; written = some (buf ++ 0 ∷ []) })
    else none

-- Behind `open`, with its descriptor. After another error of the lock the file stays open.
unfoldable pub lock_opened : Os → ℕ → Descriptors → Option Running
lock_opened os fd fds = elim os.lockfile [
  | locked ↦ write_pid os fds
  | busy ↦ some (record { already = true; fds = set fds fd false; written = none })
  | broken ↦ do
    logged ← log_error (codes "Failed to lock the daemon")
    some (record { already = true; fds = fds; written = none })
]

unfoldable pub already_running : Os → Bytes → Descriptors → Option Running
already_running os lock_file fds =
    let (fd, fds') = open_file os.open_lock fds in
    elim fd [
      | some fd ↦ lock_opened os fd fds'
      | none ↦ do
        logged ← log_error (codes "Failed to open the lock file: '" ++ (lock_file ++ codes "'"))
        some (record { already = true; fds = fds'; written = none })
    ]

-- `close(i)` for an `unsigned int` of 32 bits below `rlim_max`, of 64 bits. `none` is the end of
-- the fuel.
unfoldable pub close_all : ℕ → ℕ → ℕ → Descriptors → Option Descriptors
close_all zero rlim_max i fds = none
close_all (suc fuel) rlim_max i fds = elim (ltb i rlim_max) [
  | false ↦ some fds
  | true ↦ close_all fuel rlim_max ((i + 1) % 4294967296) (set fds i false)
]

-- The parent's exit, the result -1, or the daemon with its descriptors and what is in its pid file.
pub data Daemonized : Type 0 where
  exited : Daemonized
  refused : Daemonized
  started : Descriptors → Option Bytes → Daemonized

-- A log line and the result -1.
abbrev refuse : Bytes → Option Daemonized
refuse text = do logged ← log_error text; some refused

-- The comparison of a descriptor with the one expected.
abbrev is_fd : ℕ → Option ℕ → Bool
is_fd n none = false
is_fd n (some fd) = fd == n

-- From the lock file on.
unfoldable pub lock_daemon : Os → Bytes → Descriptors → Option Daemonized
lock_daemon os pidfile fds = do
  running ← already_running os pidfile fds
  elim running.already [
    | true ↦ refuse (codes "Failed to run or daemon already running")
    | false ↦ do
      logged ← log_info (codes "Daemon started")
      some (started running.fds running.written)
  ]

-- The standard descriptors, after all others are closed.
unfoldable pub open_standard : Os → Bytes → Descriptors → Option Daemonized
open_standard os pidfile fds =
    let (fd0, fds0) = open_file os.open_stdin fds in
    let (fd1, fds1) = open_file os.open_stdout fds0 in
    let (fd2, fds2) = open_file os.open_stderr fds1 in
    elim (is_fd 0 fd0 && is_fd 1 fd1 && is_fd 2 fd2) [
      | true ↦ lock_daemon os pidfile fds2
      | false ↦ refuse (codes "Standard file descriptors were not opened as expected")
    ]

-- From the closing of the descriptors on.
unfoldable pub close_and_open : Os → ℕ → Bytes → ℕ → Descriptors → Option Daemonized
close_and_open os fuel pidfile rlim_max fds = do
  closed ← close_all fuel rlim_max 0 fds
  open_standard os pidfile closed

-- RLIM_INFINITY is taken as 1024.
abbrev pub limit : Option ℕ → ℕ
limit none = 1024
limit (some n) = n

-- From `sigaction` on.
unfoldable pub detach : Os → ℕ → Bytes → Option ℕ → Descriptors → Option Daemonized
detach os fuel pidfile rlim_max fds = elim os.sigaction [
  | false ↦ refuse (codes "Failed to ignore SIGHUP")
  | true ↦ elim os.chdir [
    | false ↦ refuse (codes "Failed to change the working directory to: '/'")
    | true ↦ close_and_open os fuel pidfile (limit rlim_max) fds
  ]
]

unfoldable pub daemonize : Os → ℕ → Bytes → Descriptors → Option Daemonized
daemonize os fuel pidfile fds = elim os.rlim_max [
  | none ↦ refuse (codes "Failed to get file limit")
  | some rlim_max ↦ elim os.fork [
    | failed ↦ refuse (codes "Failed to fork a new process")
    | parent ↦ some exited
    | child ↦ elim os.setsid [
      | false ↦ refuse (codes "Failed to create a new SID for the child process")
      | true ↦ detach os fuel pidfile rlim_max fds
    ]
  ]
]
