-- ===== src/Signals/Tests.antt =====
-- Two workers that leave their loops after SIGTERM.
use easyforetell.Prelude.{arith, ◌≡◌, true, false, [], ◌∷◌, Option, some, none, replicate, pos}
use easyforetell.Memory.{Bytes, codes, literal}
use easyforetell.Queue.{fifo_init}
use easyforetell.Socket.{Shared, Socket, State, bytes, socket_cb}
use easyforetell.Curl.{MemoryStruct}
use easyforetell.Memcached.{LibMemcached}
use easyforetell.Jobs.{Worker, Globals}
use easyforetell.Signals.{sigterm, signal_handler}
use easyforetell.Signals.Shutdown.{leave_all, shutdown}

abbrev nothing_kept : LibMemcached
nothing_kept = record {
  Memc = Unit {0};
  memcached_set = λ memc key value expiration. (tt, none);
  memcached_delete = λ memc key. (tt, none);
  longest_error = 25;
  set-short = λ memc key value expiration. omega arith;
  delete-short = λ memc key. omega arith;
}

abbrev perform : Bytes → MemoryStruct → Option (MemoryStruct × Option Bytes)
perform url mem = some (mem, none)

abbrev globals : Globals
globals = record { max_key = 251; key_prefix = literal "k_"; expiration = pos 7200; actions = none }

abbrev worker : Worker (Unit {0})
worker = record {
  buffer = record { memory = []; size = 0; enabled = false };
  memc = tt;
  job = replicate 255 0;
  command = replicate 255 0;
  key = replicate 250 0;
  new_command = replicate 255 0;
  lines = [];
}

abbrev socket : Socket
socket = record {
  read_buffer = replicate 255 0;
  cache_buffer = replicate 255 0;
  looping = true;
  linked = true;
}

abbrev shared : Shared
shared = record { should_run = true; url_count = 3; queue = fifo_init (λ i. replicate 255 0) 4 }

shutdown_example :
    (st : State) × (socket_cb 2
        (socket, (signal_handler sigterm true shared).0)
        (bytes (codes "QUIT"))
      ≡ some st)
    × (st.0.looping ≡ false)
    × (st.0.linked ≡ false)
    × (leave_all nothing_kept perform globals (worker ∷ worker ∷ []) st.1
        ≡ some (record shared { should_run = false }))
shutdown_example =
    shutdown nothing_kept perform globals socket shared (worker ∷ worker ∷ [])
      (bytes (codes "QUIT"))
