-- ===== src/Jobs.antt =====
-- src/queral.c, `worker_thread`: the switch over the commands and a turn of the loop. libcurl's
-- transfer and libmemcached are parameters.
pub mod Cache
pub mod Loop
pub mod Logged
mod Unlogged
pub mod Pages
pub mod Sample
pub mod Refreshed
mod Tests
mod Scenarios
use easyforetell.Prelude.{
  ℕ, zero, suc, ◌+◌, ◌-◌, Bool, true, false, List, [], ◌∷◌, ◌++◌, Option, none, some, ◌>>=◌, ltb,
  if◌then◌else◌, ℤ,
}
use easyforetell.Memory.{Bytes, c_str}
use easyforetell.Queue.{fifo_dequeue}
use easyforetell.Command.{Command, fetch, cache, update, undefined, get_command}
use easyforetell.Socket.{Shared}
use easyforetell.Actions.{Slot, Action, find_action}
use easyforetell.Keys.{Keyed, failed, created, create_key}
use easyforetell.Curl.{MemoryStruct, curl_fetch_url}
use easyforetell.Memcached.{LibMemcached, memcached_override_record, memcached_delete_record}
use easyforetell.Worker.{update_action}
use easyforetell.Jobs.Logged.{log_unknown, log_undefined}
use easyforetell.Sleep.{sleep_millis}

-- `worker_t` with the buffers of the thread, and the texts that it passed to `write_fifo`.
pub record Worker (Memc : Type 0) : Type 0 where
  pub buffer : MemoryStruct
  pub memc : Memc
  pub job : Bytes
  pub command : Bytes
  pub key : Bytes
  pub new_command : Bytes
  pub lines : List Bytes

-- What the workers are given: MEMCACHED_MAX_KEY, the settings and the actions (NULL is `none`).
pub record Globals : Type 0 where
  pub max_key : ℕ
  pub key_prefix : Bytes
  pub expiration : ℤ
  pub actions : Option (List Slot)

-- `find_action` with its test of the array
unfoldable pub find_in : Option (List Slot) → Bytes → Option (Option Action)
find_in none name = some none
find_in (some actions) name = find_action actions name

-- What a thread finds while it holds `mutex`: nothing, so that it waits; the end of the daemon; or
-- a job, in its buffer.
pub data Take : Type 0 where
  idle : Take
  done : Shared → Take
  taken : Shared → Bytes → Take

-- From `pthread_mutex_lock` to `pthread_mutex_unlock`, on the thread's buffer `job`
unfoldable pub take_job : Shared → Bytes → Option Take
take_job shared job =
    let fetched = do
      (queue, job') ← fifo_dequeue shared.queue job
      some (taken (record shared { queue = queue; url_count = shared.url_count - 1 }) job')
    in if ltb shared.url_count 1
      then some idle
      else if shared.should_run
      then fetched
      else some (done (record shared { url_count = shared.url_count - 1 }))

module _ (lib : LibMemcached)
    (perform : Bytes → MemoryStruct → Option (MemoryStruct × Option Bytes))
    (globals : Globals) where
  open lib use {Memc}

  unfoldable pub fetch_job : Worker Memc → Option (Worker Memc)
  fetch_job w = do
    url ← c_str w.job
    (buffer, ok) ←
        curl_fetch_url perform
          (record { memory = w.buffer.memory; size = w.buffer.size; enabled = false }) url
    some (record w { buffer = buffer })

  -- "Update memcached servers", if the page came.
  unfoldable pub store_page : Worker Memc → Bool → Option (Worker Memc)
  store_page w false = some w
  store_page w true = do
    (memc, stored) ← memcached_override_record lib w.memc w.key w.buffer.memory globals.expiration
    some (record w { memc = memc })

  -- From `memcached_delete_record` on, with the key.
  unfoldable pub renew : Worker Memc → Option (Worker Memc)
  renew w = do
    (memc, deleted) ← memcached_delete_record lib w.memc w.key false
    url ← c_str w.job
    (buffer, ok) ←
        curl_fetch_url perform
          (record { memory = w.buffer.memory; size = w.buffer.size; enabled = true }) url
    store_page (record w { memc = memc; buffer = buffer }) ok

  unfoldable pub with_key : Worker Memc → Keyed → Option (Worker Memc)
  with_key w failed = some w
  with_key w (created key) = renew (record w { key = key })

  unfoldable pub cache_job : Worker Memc → Option (Worker Memc)
  cache_job w = do
    keyed ←
        create_key globals.max_key (some w.key) (globals.max_key - 1) (some globals.key_prefix)
          (some w.job)
    with_key w keyed

  unfoldable pub update_found : Worker Memc → Option Action → Option (Worker Memc)
  update_found w none = do name ← c_str w.job; logged ← log_unknown name; some w
  update_found w (some action) = do
    lines ← update_action w.new_command action
    some (record w { lines = w.lines ++ lines })

  -- What is left in `new_command` is overwritten before it is read again.
  unfoldable pub update_job : Worker Memc → Option (Worker Memc)
  update_job w = do name ← c_str w.job; found ← find_in globals.actions name; update_found w found

  unfoldable pub operate : Command → Worker Memc → Option (Worker Memc)
  operate fetch w = fetch_job w
  operate cache w = cache_job w
  operate update w = update_job w
  operate undefined w = do command ← c_str w.command; logged ← log_undefined command; some w

  -- A turn of the loop: the thread waits, leaves the loop, or does a job.
  pub data Turn : Type 0 where
    waits : Turn
    leaves : Shared → Turn
    works : Shared → Worker Memc → Turn

  -- "Operate with job", on what the thread has taken.
  unfoldable pub work : Worker Memc → Take → Option Turn
  work w idle = some waits
  work w (done shared) = some (leaves shared)
  work w (taken shared job) = do
    (command, job', code) ← get_command w.command job
    w' ← operate code (record w { job = job'; command = command })
    some (works shared w')

  unfoldable pub turn : Shared → Worker Memc → Option Turn
  turn shared w = do t ← take_job shared w.job; work w t

  -- The loop of the thread until it waits or leaves, with `fuel` turns; `none` is also their end.
  -- Behind each job it sleeps; `random` is what `rand` returns.
  unfoldable pub work_on : ℤ → (ℕ → ℕ) → ℕ → Shared → Worker Memc → Option (Shared × Worker Memc)
  work_on contention random zero shared w = none
  work_on contention random (suc fuel) shared w = do
    t ← turn shared w
    elim t [
      | waits ↦ some (shared, w)
      | leaves shared' ↦ some (shared', w)
      | works shared' w' ↦ do
        slept ← sleep_millis (random fuel) contention
        work_on contention random fuel shared' w'
    ]
