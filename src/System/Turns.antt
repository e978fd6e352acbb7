-- ===== src/System/Turns.antt =====
-- A turn of a worker as a step of the daemon.
use easyforetell.Prelude.{
  ℕ, ◌-◌, ◌<◌, ◌≡◌, sym, ap, ◌∙◌, true, List, [], ◌∷◌, ◌++◌, Option, arith, length, subst,
}
use mathlib.Core.List.{append_cancel_left}
use easyforetell.Memory.{Bytes}
use easyforetell.Memory.Laws.{Holds-c_str}
use easyforetell.Command.Meaning.{FitsJob}
use easyforetell.Queue.{buffer_size}
use easyforetell.Queue.Ring.{Holding}
use easyforetell.Curl.{MemoryStruct}
use easyforetell.Memcached.{LibMemcached}
use easyforetell.Jobs.{Worker, Globals}
use easyforetell.Jobs.Loop.{Serves, turn-Serves}
use easyforetell.System.{System, Step, outside, take, Reach}
use easyforetell.System.Workers.{running_count}
use easyforetell.System.Invariant.{Reach-Sound}

module _ (lib : LibMemcached)
    (perform : Bytes → MemoryStruct → Option (MemoryStruct × Option Bytes))
    (globals : Globals) where
  open lib use {Memc}

  -- In every reachable state in which the daemon runs, the main thread is outside its critical
  -- sections, not all workers have left, and the oldest line that is not served can be trimmed
  -- within BUFFER_SIZE bytes as `FitsJob` says, a turn of a worker whose buffers `job` and
  -- `command` have BUFFER_SIZE bytes takes that line off the queue and does the operation of its
  -- command, as `parse_command` reads it, on the worker with the argument of `parse_command` in
  -- `job` and all but `job` and `command` as before; and taking the line is a step of the daemon
  -- to the state with the queue that the turn leaves, `url_count` lowered by one and the line
  -- served.
  pub turn-Step :
      {n capacity : ℕ} {block : ℕ → Bytes} {s : System} (w : Worker Memc) (t : Bytes)
      (ts : List Bytes)
      → ((i : ℕ) → length (block i) ≡ buffer_size)
      → 0 < capacity
      → Reach n block capacity s
      → s.main ≡ outside
      → s.left < n
      → s.shared.should_run ≡ true
      → s.accepted ≡ s.served ++ t ∷ ts
      → length w.job ≡ buffer_size
      → length w.command ≡ buffer_size
      → FitsJob buffer_size t
      → (v : Serves lib perform globals s.shared w t ts) × Step n s (record s {
        shared = record {
          should_run = s.shared.should_run;
          url_count = s.shared.url_count - 1;
          queue = v.queue;
        };
        served = s.served ++ t ∷ [];
      })
  turn-Step {s = s} w t ts sizes pos r free few on next job command short =
      let sound = Reach-Sound sizes pos r in
      let waiting : sound.waiting ≡ t ∷ ts =
        append_cancel_left s.served sound.waiting (t ∷ ts) (sym sound.order ∙ next) in
      let holds = subst (Holding s.shared.queue) waiting sound.holds in
      let more : 0 < s.shared.url_count =
        omega (arith, running_count sound w.job job on, ap length waiting) in
      let v = turn-Serves lib perform globals s.shared w t ts holds more on job command short in
      (v, take w.job v.got t _ free few job v.took (Holds-c_str v.held))
