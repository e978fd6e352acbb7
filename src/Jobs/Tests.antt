-- ===== src/Jobs/Tests.antt =====
-- A worker at a CACHE job, and a turn of its loop.
use easyforetell.Prelude.{
  concat, ℕ, ◌≡◌, refl, true, false, List, [], ◌∷◌, Option, none, some, arith, length-replicate,
  replicate, pos,
}
use easyforetell.Memory.{Bytes, codes, literal}
use easyforetell.Memory.Laws.{Holds-text}
use easyforetell.Queue.{Queue, stored, fifo_init, fifo_enqueue}
use easyforetell.Queue.Ring.{Holding, fifo_enqueue-stored}
use easyforetell.Queue.Run.{fifo_init-Holding}
use easyforetell.Socket.{Shared}
use easyforetell.Curl.{MemoryStruct, transfer, receive}
use easyforetell.Memcached.{LibMemcached}
use easyforetell.Jobs.{Worker, Globals, cache_job}
use easyforetell.Jobs.Cache.{Cached, cache_job_lem}
use easyforetell.Command.Parse.{short-FitsJob}
use easyforetell.Jobs.Loop.{Serves, turn-Serves}

-- A cache of one record.
abbrev one_record : LibMemcached
one_record = record {
  Memc = Option (Bytes × Bytes);
  memcached_set = λ memc key value expiration. (some (key, value), none);
  memcached_delete = λ memc key. (none, none);
  longest_error = 25;
  set-short = λ memc key value expiration. omega arith;
  delete-short = λ memc key. omega arith;
}

abbrev pieces : List Bytes
pieces = codes "<ht" ∷ codes "ml>" ∷ []

-- Every url has this page.
abbrev perform : Bytes → MemoryStruct → Option (MemoryStruct × Option Bytes)
perform url mem = transfer (codes "Failed writing received data") (receive pieces mem)

abbrev globals : Globals
globals = record { max_key = 251; key_prefix = literal "k_"; expiration = pos 7200; actions = none }

abbrev idle : Bytes → Worker (Option (Bytes × Bytes))
idle job = record {
  buffer = record { memory = replicate 102400 7; size = 0; enabled = false };
  memc = none;
  job = job;
  command = replicate 255 0;
  key = replicate 250 7;
  new_command = replicate 255 0;
  lines = [];
}

cache_job_lem_example :
    Cached
      (Option (Bytes × Bytes))
      (idle (literal "abc"))
      (some (codes "k_abc", concat pieces))
      (cache_job one_record perform globals (idle (literal "abc")))
cache_job_lem_example =
    cache_job_lem one_record perform globals (idle (literal "abc")) pieces
      (codes "Failed writing received data") 102399 refl (Holds-text (codes "k_") [] (ground arith))
      (Holds-text (codes "abc") [] (ground arith)) (omega (arith, length-replicate {A = ℕ} 250 7))
      (omega arith) (omega (arith, length-replicate {A = ℕ} 102400 7)) (λ mem. refl) (ground arith)
      (omega arith) (omega arith)

abbrev block : ℕ → Bytes
block i = replicate 255 0

-- The queue with one job.
one_job :
    (q' : Queue) × (fifo_enqueue (fifo_init block 2) (literal "FETCH abc") ≡ some (q', stored))
    × Holding q' (codes "FETCH abc" ∷ [])
    × (q'.capacity ≡ 2)
unfolding fifo_init
one_job =
    fifo_enqueue-stored (fifo_init-Holding block 2 (λ i. refl) (omega arith))
      (Holds-text (codes "FETCH abc") [] (ground arith)) (omega arith) (omega arith)

abbrev shared : Queue → Shared
shared q = record { should_run = true; url_count = 1; queue = q }

turn-Serves_example :
    Serves one_record perform globals
      (shared one_job.0)
      (idle (replicate 255 0))
      (codes "FETCH abc")
      []
turn-Serves_example =
    turn-Serves one_record perform globals (shared one_job.0) (idle (replicate 255 0))
      (codes "FETCH abc") [] one_job.2 (omega arith) refl refl refl
      (short-FitsJob 255 (codes "FETCH abc") (omega arith))
