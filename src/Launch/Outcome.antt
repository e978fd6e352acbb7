-- ===== src/Launch/Outcome.antt =====
-- What `launch` may come to.
use easyforetell.Prelude.{
  ℕ, zero, suc, ◌≤◌, ◌≡◌, refl, List, [], ◌++◌, map, Option, none, some, ◌>>=◌, >>=-eq-some,
  Option-cases, length, replicate, ℤ, pos, negsuc, inl, inr, Bool-cases, sym,
}
use easyforetell.Memory.{Bytes}
use easyforetell.StringLists.Fill.{destroy_string_list-filled}
use easyforetell.Actions.{Action, Slot}
use easyforetell.Actions.Find.{ended_by, all_texts, destroy_actions_lem}
use easyforetell.Daemon.{Descriptors, Daemonized, exited, refused, started, open_file, daemonize}
use easyforetell.Pipe.{Node, Mask, create_fifo}
use easyforetell.Boot.{Booted, ends, boots, free_actions, free_servers, exit_}
use easyforetell.Lifetime.{prepare}
use easyforetell.Launch.{
  Thread, Machine, Looping, Launch, exits, parent_exits, loops, create_workers, create_pool,
  copy_filename, ignored, install_handlers, exit_all, with_fifo, with_daemon, launch,
}

-- The array of the actions, ended by NULL, or no array; and the texts in it.
abbrev pub array : Option (List Action) → Option (List Slot)
array none = none
array (some acts) = some (ended_by acts [])

abbrev pub array_texts : Option (List Action) → List Bytes
array_texts none = []
array_texts (some acts) = all_texts acts

pub free_actions_lem :
    (acts : Option (List Action)) → free_actions (array acts) ≡ some (array_texts acts)
unfolding free_actions
free_actions_lem none = refl
free_actions_lem (some acts) = destroy_actions_lem acts []

-- What `create_fifo` leaves at the name of the pipe and returns, with the descriptors of the daemon.
abbrev pub fifo_of : Machine → Descriptors → Option Node × Option ℕ
fifo_of machine fds =
    create_fifo
      (record {
        lstat = machine.lstat;
        unlink = machine.unlink;
        mkfifo = machine.mkfifo;
        opened = (open_file machine.open_fifo fds).0;
      })
      machine.at_name

-- The process does not become a daemon, or has no pipe.
pub data Failed (machine : Machine) (b : Booted) : Type 0 where
  no_daemon :
      daemonize machine.os machine.fuel b.settings.pidfile_filename machine.fds ≡ some refused
      → Failed machine b
  no_fifo :
      (fds : Descriptors) (pidfile : Option Bytes)
      → daemonize machine.os machine.fuel b.settings.pidfile_filename machine.fds
        ≡ some (started fds pidfile)
      → (fifo_of machine fds).1 ≡ none
      → Failed machine b

module _ (machine : Machine) (b : Booted) (acts : Option (List Action)) (servers : List Bytes)
    (k : ℕ) (loaded : b.actions ≡ array acts)
    (listed : b.memcached_servers ≡ map some servers ++ replicate k none)
    (few : length servers ≤ b.server_count) where
  abbrev pub freed : Option Launch
  freed = some (exits (ends (array_texts acts ++ servers)))

  exit_all_lem : exit_all machine b ≡ freed
  unfolding exit_all exit_ free_servers
  exit_all_lem = rw (
    loaded,
    listed,
    free_actions_lem acts,
    destroy_string_list-filled servers k b.server_count few,
  )

  without_fifo :
      (fds : Descriptors) (pidfile : Option Bytes) (made : Option Node × Option ℕ)
      → made.1 ≡ none
      → with_fifo machine b fds pidfile made ≡ freed
  unfolding with_fifo
  without_fifo fds pidfile (fifo, none) e = exit_all_lem
  without_fifo fds pidfile (fifo, some socket) e = absurd (cc)

  pub Failed-exits : Failed machine b → launch machine (boots b) ≡ freed
  unfolding launch with_daemon
  Failed-exits (no_daemon e) = rw (e, with_daemon) exit_all_lem
  Failed-exits (no_fifo fds pidfile e f) =
      rw (e, with_daemon)
        (without_fifo (open_file machine.open_fifo fds).1 pidfile (fifo_of machine fds) f)

  -- The loop runs, with the workers of the pool.
  pub record Pooled (running : Looping) : Type 0 where
    pub booted : running.booted ≡ b
    pub last : ℕ
    pub count : b.settings.workers_count ≡ pos (suc last)
    pub threads : running.threads ≡ (create_workers machine.error machine.mask 0 (suc last)).0

  -- What `launch` may come to.
  pub data Outcome (t : Launch) : Type 0 where
    parent : t ≡ parent_exits → Outcome t
    failed : Failed machine b → some t ≡ freed → Outcome t
    runs : (running : Looping) → some t ≡ some (loops running) → Pooled running → Outcome t

  pool-count :
      (n : ℤ) (threads : List Thread) (mask : Mask)
      → create_pool machine.pool_allocated machine.error machine.mask n ≡ some (threads, mask)
      → (last : ℕ) × (n ≡ pos (suc last))
        × (threads ≡ (create_workers machine.error machine.mask 0 (suc last)).0)
  unfolding create_pool
  pool-count (negsuc n) threads mask e = absurd (cc)
  pool-count (pos zero) threads mask e = absurd (cc)
  pool-count (pos (suc n)) threads mask e = elim (Bool-cases machine.pool_allocated) [
    | inl given ↦ let f = rw given at e in (n, refl, cc)
    | inr refused_it ↦ let f = rw refused_it at e in absurd (cc)
  ]

  -- From the pool on.
  abbrev looping : Descriptors → Option Bytes → Option Node → ℕ → List Thread → Mask → Option Launch
  looping fds pidfile fifo socket threads mask = do
    state ← prepare machine.block machine.read_buffer machine.cache_buffer
    fifo_filename ← copy_filename machine.filename_allocated b.settings.fifo_filename
    some (
        loops (record {
          booted = b;
          fds = machine.ev_loop_new fds;
          pidfile = pidfile;
          fifo = fifo;
          socket = socket;
          signals = install_handlers (record machine.signals { sighup = ignored });
          threads = threads;
          mask = mask;
          fifo_filename = fifo_filename;
          state = state;
        }))

  looping-Outcome :
      (fds : Descriptors) (pidfile : Option Bytes) (fifo : Option Node) (socket last : ℕ)
      (threads : List Thread) (mask : Mask) (t : Launch)
      → b.settings.workers_count ≡ pos (suc last)
      → threads ≡ (create_workers machine.error machine.mask 0 (suc last)).0
      → looping fds pidfile fifo socket threads mask ≡ some t
      → Outcome t
  looping-Outcome fds pidfile fifo socket last threads mask t count same e =
      elim (Option-cases (prepare machine.block machine.read_buffer machine.cache_buffer)) [
        | inl unprepared ↦ let f = rw unprepared at e in absurd (cc)
        | inr (state, prepared) ↦
            elim (Option-cases
              (copy_filename machine.filename_allocated b.settings.fifo_filename)) [
                | inl unnamed ↦ let f = rw (prepared, unnamed) at e in absurd (cc)
                | inr (name, copied) ↦
                    runs _ (sym (rw (prepared, copied) at e))
                      (record { booted = refl; last = last; count = count; threads = same })
              ]
      ]

  with_fifo-Outcome :
      (fds : Descriptors) (pidfile : Option Bytes) (made : Option Node × Option ℕ) (t : Launch)
      → (made.1 ≡ none → Failed machine b)
      → with_fifo machine b fds pidfile made ≡ some t
      → Outcome t
  unfolding with_fifo
  with_fifo-Outcome fds pidfile (fifo, none) t why e =
      failed (why refl) (let g = exit_all_lem in cc)
  with_fifo-Outcome fds pidfile (fifo, some socket) t why e =
      elim (Option-cases
        (create_pool machine.pool_allocated machine.error machine.mask b.settings.workers_count)) [
          | inl no_pool ↦ let f = rw no_pool at e in absurd (cc)
          | inr ((threads, mask), pooled) ↦
              let f = rw pooled at e in
              let (last, count, same) = pool-count b.settings.workers_count threads mask pooled in
              looping-Outcome fds pidfile fifo socket last threads mask t count same f
        ]

  with_daemon-Outcome :
      (daemon : Daemonized) (t : Launch)
      → daemonize machine.os machine.fuel b.settings.pidfile_filename machine.fds ≡ some daemon
      → with_daemon machine b daemon ≡ some t
      → Outcome t
  unfolding with_daemon
  with_daemon-Outcome exited t d e = parent (cc)
  with_daemon-Outcome refused t d e = failed (no_daemon d) (let g = exit_all_lem in cc)
  with_daemon-Outcome (started fds pidfile) t d e =
      with_fifo-Outcome (open_file machine.open_fifo fds).1 pidfile (fifo_of machine fds) t
        (no_fifo fds pidfile d) e

  pub launch-Outcome : (t : Launch) → launch machine (boots b) ≡ some t → Outcome t
  unfolding launch
  launch-Outcome t e = let (daemon, d, e') = >>=-eq-some _ _ e in with_daemon-Outcome daemon t d e'
