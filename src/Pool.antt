-- ===== src/Pool.antt =====
-- src/queral.c, the workers of the pool side by side on the same servers: the loop of `worker_thread`
-- cut where other threads come between, at the end of its critical section and behind the call that
-- deletes the old record.
pub mod Turn
pub mod Pending
pub mod Facts
pub mod Invariant
pub mod Moves
pub mod Service
pub mod Finish
pub mod Unordered
mod Tests
use easyforetell.Prelude.{
  ℕ, ◌+◌, ◌*◌, Bool, true, false, List, [], ◌∷◌, ◌++◌, Option, none, some, ◌>>=◌, ◌-◌, ◌≡◌,
}
use easyforetell.Memory.{Bytes, c_str}
use easyforetell.Command.{Command, fetch, cache, update, undefined, get_command}
use easyforetell.Socket.{Shared}
use easyforetell.Keys.{Keyed, failed, created, create_key}
use easyforetell.Curl.{MemoryStruct, curl_fetch_url}
use easyforetell.Memcached.{LibMemcached, memcached_delete_record}
use easyforetell.Jobs.{Worker, Globals, Take, idle, done, taken, take_job, operate, store_page}

module _ (lib : LibMemcached) where
  open lib use {Memc}

  -- Where a thread is: at the head of its loop; with the key of a CACHE job, at
  -- `memcached_delete_record`; behind that, at `curl_fetch_url`; or out of its loop.
  pub data Place : Type 0 where
    at_head : Worker Memc → Place
    at_delete : Worker Memc → Place
    at_fetch : Worker Memc → Place
    gone : Place

  -- How many moves a thread is away from the head of its loop.
  abbrev pub weight : Place → ℕ
  weight (at_head w) = 0
  weight (at_delete w) = 2
  weight (at_fetch w) = 1
  weight gone = 0

  -- The records on the servers are the client of whichever worker calls.
  abbrev pub on : Memc → Worker Memc → Worker Memc
  on servers w = record w { memc = servers }

  -- A CACHE job up to its key.
  unfoldable pub keyed_place : Worker Memc → Keyed → Place
  keyed_place w failed = at_head w
  keyed_place w (created key) = at_delete (record w { key = key })

  -- The threads, what they share under `mutex`, and the records on the servers.
  pub record Pool : Type 0 where
    pub shared : Shared
    pub servers : Memc
    pub places : List Place

  -- How many moves all threads are away from the heads of their loops, and with the lines of the
  -- queue from their end.
  abbrev pub total : List Place → ℕ
  total [] = 0
  total (place ∷ places) = weight place + total places

  abbrev pub left : Pool → ℕ
  left pool = total pool.places + 3 * pool.shared.url_count

module _ (lib : LibMemcached)
    (perform : Bytes → MemoryStruct → Option (MemoryStruct × Option Bytes))
    (globals : Globals) where
  open lib use {Memc}

  -- The switch, on the worker with its command and argument.
  unfoldable pub begin : Memc → Command → Worker Memc → Option (Memc × Place lib)
  begin servers cache w = do
    keyed ←
        create_key globals.max_key (some w.key) (globals.max_key - 1) (some globals.key_prefix)
          (some w.job)
    some (servers, keyed_place lib w keyed)
  begin servers code w = do
    w' ← operate lib perform globals code (on lib servers w)
    some (w'.memc, at_head w')

  -- With what the critical section came to.
  unfoldable pub begin_job : Shared → Memc → Worker Memc → Take → Option (Shared × Memc × Place lib)
  begin_job shared servers w idle = some (shared, servers, at_head w)
  begin_job shared servers w (done shared') = some (shared', servers, gone)
  begin_job shared servers w (taken shared' job) = do
    (command, job', code) ← get_command w.command job
    (servers', place) ← begin servers code (record w { job = job'; command = command })
    some (shared', servers', place)

  -- What a thread does until another may come between.
  unfoldable pub advance : Shared → Memc → Place lib → Option (Shared × Memc × Place lib)
  advance shared servers (at_head w) = do t ← take_job shared w.job; begin_job shared servers w t
  advance shared servers (at_delete w) = do
    (servers', deleted) ← memcached_delete_record lib servers w.key false
    some (shared, servers', at_fetch w)
  advance shared servers (at_fetch w) = do
    url ← c_str w.job
    (buffer, ok) ←
        curl_fetch_url perform
          (record { memory = w.buffer.memory; size = w.buffer.size; enabled = true }) url
    w' ← store_page lib perform globals (record w { buffer = buffer; memc = servers }) ok
    some (shared, w'.memc, at_head w')
  advance shared servers gone = some (shared, servers, gone)

  -- One of the threads goes on.
  pub data Move (s : Pool lib) : Pool lib → Type 0 where
    goes :
        (before after : List (Place lib)) (place place' : Place lib) (shared' : Shared)
        (servers' : Memc)
        → s.places ≡ before ++ place ∷ after
        → advance s.shared s.servers place ≡ some (shared', servers', place')
        → Move s
            (record { shared = shared'; servers = servers'; places = before ++ place' ∷ after })

  -- Some steps, one after another, whichever thread each is of.
  pub data Run : Pool lib → Pool lib → Type 0 where
    stay : {s : Pool lib} → Run s s
    step : {s t u : Pool lib} → Move s t → Run t u → Run s u
