-- ===== src/Signals/Shutdown.antt =====
-- From the signal to the last worker.
use easyforetell.Prelude.{
  ℕ, ◌+◌, ◌-◌, ◌≡◌, refl, ap, ◌∙◌, true, false, List, [], ◌∷◌, Option, none, some, ◌>>=◌, arith,
  length, not_lt→ltb,
}
use easyforetell.Memory.{Bytes}
use easyforetell.Socket.{Shared, Socket, State, Input, socket_cb, should_socket_worker_run}
use easyforetell.Queue.{Queue}
use easyforetell.Curl.{MemoryStruct}
use easyforetell.Memcached.{LibMemcached}
use easyforetell.Jobs.{Worker, Globals, waits, leaves, works, turn, take_job, work}
use easyforetell.Signals.{sigterm, signal_handler, stop}

module _ (lib : LibMemcached)
    (perform : Bytes → MemoryStruct → Option (MemoryStruct × Option Bytes))
    (globals : Globals) where
  open lib use {Memc}

  -- A turn of each of these workers, in this order; `none` if one of them does not leave its loop.
  unfoldable pub leave_all : List (Worker Memc) → Shared → Option Shared
  leave_all [] shared = some shared
  leave_all (w ∷ ws) shared = do
    t ← turn lib perform globals shared w
    elim t [ waits ↦ none | leaves shared' ↦ leave_all ws shared' | works shared' w' ↦ none ]

  -- The shared state while the daemon stops.
  abbrev stopping : ℕ → Queue → Shared
  stopping n q = record { should_run = false; url_count = n; queue = q }

  leave_all_lem :
      (ws : List (Worker Memc)) (q : Queue) (m n : ℕ)
      → m ≡ n + length ws
      → leave_all ws (stopping m q) ≡ some (stopping n q)
  unfolding leave_all turn take_job work
  leave_all_lem [] q m n count = ap (λ k. some (stopping k q)) (count ∙ omega arith)
  leave_all_lem (w ∷ ws) q m n count =
      rw (not_lt→ltb m 1 (omega (arith, count)))
        (leave_all_lem ws q (m - 1) n (omega (arith, count)))

  -- After SIGTERM, where the watcher of the pipe is active, the next callback of the socket
  -- worker, whatever it reads, ends its loop and unlinks the pipe, and then a turn of each
  -- worker, in any order of the workers, makes it leave its loop, after which `url_count` and the
  -- queue are as they were before the signal.
  pub shutdown :
      (s : Socket) (shared : Shared) (ws : List (Worker Memc)) (input : Input)
      → (st : State) × (socket_cb (length ws) (s, (signal_handler sigterm true shared).0) input
          ≡ some st)
        × (st.0.looping ≡ false)
        × (st.0.linked ≡ false)
        × (leave_all ws st.1 ≡ some (record shared { should_run = false }))
  unfolding socket_cb should_socket_worker_run signal_handler stop
  shutdown s shared ws input = (
    (
      record s { looping = false; linked = false },
      record { should_run = false; url_count = shared.url_count + length ws; queue = shared.queue },
    ),
    refl,
    refl,
    refl,
    leave_all_lem ws shared.queue (shared.url_count + length ws) shared.url_count refl,
  )
