-- ===== src/Jobs/Loop.antt =====
-- A turn of the worker's loop takes the oldest job.
use easyforetell.Prelude.{
  ◌-◌, ◌<◌, ◌≡◌, refl, sym, subst, ◌∙◌, true, List, ◌∷◌, Option, some, ◌>>=◌, arith, length,
  not_lt→ltb,
}
use easyforetell.Memory.{Bytes}
use easyforetell.Memory.Laws.{Holds, length-Holds}
use easyforetell.Queue.{Queue, buffer_size}
use easyforetell.Queue.Ring.{Holding, fifo_dequeue-oldest}
use easyforetell.Command.Meaning.{parse_command, FitsJob}
use easyforetell.Command.Parse.{get_command_lem}
use easyforetell.Socket.{Shared}
use easyforetell.Curl.{MemoryStruct}
use easyforetell.Memcached.{LibMemcached}
use easyforetell.Jobs.{Worker, Globals, works, turn, taken, take_job, work, operate}

pub oldest_short :
    {q : Queue} {t : Bytes} {ts : List Bytes} → Holding q (t ∷ ts) → length t < buffer_size
oldest_short {q} v = omega (arith, length-Holds v.texts.0, v.block_size q.end v.end_in)

module _ (lib : LibMemcached)
    (perform : Bytes → MemoryStruct → Option (MemoryStruct × Option Bytes))
    (globals : Globals) where
  open lib use {Memc}

  -- A turn on the job `t`: the queue without it, and the worker that serves it.
  pub record Serves (shared : Shared) (w : Worker Memc) (t : Bytes) (ts : List Bytes) : Type 0 where
    pub queue : Queue
    pub served : Worker Memc
    -- What the thread takes while it holds the mutex
    pub got : Bytes
    pub took :
        take_job shared w.job
        ≡ some (taken (record shared { queue = queue; url_count = shared.url_count - 1 }) got)
    pub held : Holds got t
    pub runs : turn lib perform globals shared w ≡ (do
      w' ← operate lib perform globals (parse_command t).0 served
      some (works (record shared { queue = queue; url_count = shared.url_count - 1 }) w'))
    pub rest : Holding queue ts
    pub argument : Holds served.job (parse_command t).1
    pub size : length served.job ≡ length w.job
    pub command : length served.command ≡ length w.command
    pub memc : served.memc ≡ w.memc
    pub buffer : served.buffer ≡ w.buffer
    pub key : served.key ≡ w.key
    pub new_command : served.new_command ≡ w.new_command
    pub lines : served.lines ≡ w.lines

  -- A turn of a worker whose buffers `job` and `command` have BUFFER_SIZE bytes, where the daemon
  -- runs, `url_count` is above 0 and the queue holds a job of less than half BUFFER_SIZE bytes
  -- and then others, takes that job off the queue, lowers `url_count` by one, and does the
  -- operation of the job's command, as `parse_command` reads it, on the worker with the argument
  -- of `parse_command` in `job` and all but `job` and `command` as before.
  pub turn-Serves :
      (shared : Shared) (w : Worker Memc) (t : Bytes) (ts : List Bytes)
      → Holding shared.queue (t ∷ ts)
      → 0 < shared.url_count
      → shared.should_run ≡ true
      → length w.job ≡ buffer_size
      → length w.command ≡ buffer_size
      → FitsJob buffer_size t
      → Serves shared w t ts
  unfolding turn take_job work
  turn-Serves shared w t ts v count on job command fits =
      let (queue, job', e, v', held, kept, _) =
        fifo_dequeue-oldest w.job v (omega (arith, job, oldest_short v)) in
      let p =
        get_command_lem w.command job' held (subst (λ k. FitsJob k t) (sym (kept ∙ job)) fits)
          (omega (arith, kept)) in
      record {
        queue = queue;
        served = record w { job = p.job; command = p.command };
        got = job';
        took = rw (not_lt→ltb shared.url_count 1 (omega arith), on, e);
        held = held;
        runs = rw (not_lt→ltb shared.url_count 1 (omega arith), on, e, p.runs) refl;
        rest = v';
        argument = p.text;
        size = p.size ∙ kept;
        command = p.command_kept;
        memc = refl;
        buffer = refl;
        key = refl;
        new_command = refl;
        lines = refl;
      }
