-- ===== src/Daemon/Descriptors.antt =====
-- The descriptors of the daemon, and when the loop that closes the others ends.
use easyforetell.Prelude.{
  ℕ, zero, suc, ◌+◌, ◌%◌, ◌≤◌, ◌<◌, ◌≡◌, refl, ap, ◌∙◌, Bool, true, false, [], ◌∷◌, ◌++◌,
  append-nil, Option, none, some, arith, length, replicate, set, lt→ltb, not_lt→ltb, pos,
}
use easyforetell.Prelude.Int.{show}
use easyforetell.Memory.{Bytes}
use easyforetell.Logger.{log_info, log_text}
use easyforetell.Daemon.{
  Descriptors, Os, child, locked, open_file, lowest, write_pid, lock_opened, already_running,
  close_all, Daemonized, started, lock_daemon, open_standard, close_and_open, detach, daemonize,
  limit,
}

set-closed :
    (i : ℕ) (x : Bool) (rest : Descriptors)
    → set (replicate i false ++ x ∷ rest) i false ≡ replicate (suc i) false ++ rest
set-closed zero x rest = refl
set-closed (suc i) x rest = ap (λ k. false ∷ k) (set-closed i x rest)

close_all_lem :
    (fuel i n : ℕ) (rest : Descriptors)
    → i + length rest ≡ n
    → n < 4294967296
    → length rest < fuel
    → close_all fuel n i (replicate i false ++ rest) ≡ some (replicate n false)
unfolding close_all
close_all_lem zero i n rest e small h = absurd (omega arith)
close_all_lem (suc fuel) i n [] e small h =
    rw (not_lt→ltb i n (omega arith), close_all, append-nil (replicate i false))
      (ap (λ k. some (replicate k false)) {x = i} (omega (arith, e)))
close_all_lem (suc fuel) i n (x ∷ rest) e small h =
    rw (lt→ltb i n (omega arith), close_all, set-closed i x rest)
      (ap (λ k. close_all fuel n k (replicate (suc i) false ++ rest)) {x = (i + 1) % 4294967296}
          {y = suc i} (omega arith)
        ∙ close_all_lem fuel (suc i) n rest (omega arith) small (omega arith))

pub close_all-endless :
    (fuel rlim_max i : ℕ) (fds : Descriptors)
    → 4294967296 ≤ rlim_max
    → i < 4294967296
    → close_all fuel rlim_max i fds ≡ none
unfolding close_all
close_all-endless zero n i fds large h = refl
close_all-endless (suc fuel) n i fds large h =
    rw (lt→ltb i n (omega arith), close_all)
      (close_all-endless fuel n ((i + 1) % 4294967296) (set fds i false) large (omega arith))

-- The operating system to the child of the fork, where every call succeeds and the lock is free.
abbrev pub succeeding : ℕ → Option ℕ → Os
succeeding pid rlim_max = record {
  rlim_max = some rlim_max;
  fork = child;
  setsid = true;
  sigaction = true;
  chdir = true;
  open_stdin = true;
  open_stdout = true;
  open_stderr = true;
  open_lock = true;
  lockfile = locked;
  getpid = pid;
}

-- The standard descriptors and the lock file, and the process's number in it.
abbrev pub running : ℕ → ℕ → Daemonized
running pid others =
    started (true ∷ true ∷ true ∷ true ∷ replicate others false) (some (show (pos pid) ++ 0 ∷ []))

module _ (pid : ℕ) (pidfile : Bytes) (short : length (show (pos pid)) < 16) where
  open_standard_lem :
      (m : ℕ) (rlim_max : Option ℕ)
      → open_standard (succeeding pid rlim_max) pidfile (replicate (suc (suc (suc (suc m)))) false)
        ≡ some (running pid m)
  unfolding open_standard open_file lowest lock_daemon already_running lock_opened write_pid
      log_info log_text
  open_standard_lem m rlim_max = rw (lt→ltb (length (show (pos pid))) 16 short)

  -- In the child of the fork, where every call succeeds and the lock is free, with a limit of at
  -- least 4 and below 2^32 descriptors (1024 where it is infinite), any of them open, and a
  -- process number of fewer than 16 digits, `daemonize` ends, the loop that closes the
  -- descriptors in at most one round more than there are descriptors, and starts the daemon with
  -- exactly the descriptors 0, 1, 2 and 3 open and the digits of the process number with a NUL in
  -- the pid file.
  pub daemonize_lem :
      (fuel m : ℕ) (rlim_max : Option ℕ) (fds : Descriptors)
      → limit rlim_max ≡ 4 + m
      → 4 + m < 4294967296
      → length fds ≡ 4 + m
      → 4 + m < fuel
      → daemonize (succeeding pid rlim_max) fuel pidfile fds ≡ some (running pid m)
  unfolding daemonize detach close_and_open
  daemonize_lem fuel m rlim_max fds f small size enough =
      let closed : close_all fuel (limit rlim_max) 0 fds
          ≡ some (replicate (suc (suc (suc (suc m)))) false) =
        close_all_lem fuel 0 (limit rlim_max) fds (omega arith) (omega arith) (omega arith)
        ∙ ap (λ k. some (replicate k false)) {x = limit rlim_max} {y = suc (suc (suc (suc m)))}
            (omega (arith, f)) in
      rw closed (open_standard_lem m rlim_max)
