-- ===== src/Jobs/Refreshed.antt =====
-- From an UPDATE job to the cache: the worker, the pipe, the socket worker, the queue and the worker
-- again.
use easyforetell.Prelude.{
  concat, ℕ, suc, ◌≤◌, ◌≡◌, refl, List, [], ◌++◌, map, Option, some, arith, length, pos,
}
use easyforetell.Memory.{Bytes}
use easyforetell.Memory.Laws.{Holds, Holds-c_str}
use easyforetell.StringLists.{StringList}
use easyforetell.Actions.{Action}
use easyforetell.Actions.Find.{ended_by, first_named, find_action_lem}
use easyforetell.Queue.{buffer_size}
use easyforetell.Socket.{State}
use easyforetell.Socket.Callback.{Idle}
use easyforetell.Socket.Stream.{callbacks, IsWellCut}
use easyforetell.Curl.{MemoryStruct}
use easyforetell.Memcached.{LibMemcached}
use easyforetell.Memcached.Store.{Store}
use easyforetell.Worker.Refresh.{AreShort, cache_line, update_action_lem}
use easyforetell.Worker.Feedback.{AreSingleLines, update_action-callbacks, length-jobs}
use easyforetell.Jobs.{Worker, Globals, find_in, update_found, update_job, work_on}
use easyforetell.Jobs.Pages.{AreSized, AreCacheable, Served, work_on_lem}

module _ (lib : LibMemcached)
    (perform : Bytes → MemoryStruct → Option (MemoryStruct × Option Bytes)) (globals : Globals)
    {prefix : Bytes} (hp : Holds globals.key_prefix prefix) (web : Bytes → List Bytes)
    (store : Store lib) where
  open lib use {Memc}

  update_job_lem :
      (w : Worker Memc) (name : Bytes) (acts : List Action) (a : Action) (ts : List Bytes)
      (tail : StringList)
      → Holds w.job name
      → globals.actions ≡ some (ended_by acts [])
      → first_named name acts ≡ some a
      → length w.new_command ≡ buffer_size
      → a.refresh_list ≡ some (map some ts ++ tail)
      → a.count ≡ length ts
      → AreShort 6 ts
      → update_job lib perform globals w ≡ some (record w { lines = w.lines ++ map cache_line ts })
  unfolding update_job find_in update_found
  update_job_lem w name acts a ts tail named array found size listed counted short = rw (
    Holds-c_str named,
    array,
    find_action_lem acts [] name,
    found,
    update_found,
    update_action_lem w.new_command a ts tail size listed counted short,
  )

  -- Let a worker have an UPDATE job that names an action, the first of its name, whose `count` is
  -- the number of its urls. Each url is one line, is not empty, begins and ends with no space,
  -- and has at most 247 bytes without a NUL; with the key prefix it is shorter than the key's
  -- array and, with the longest text that `memcached_strerror` has, shorter than 215 bytes; and
  -- curl_easy_perform delivers its document to `write_callback` in pieces, without NUL bytes and
  -- together shorter than BUFFER_MEMORY_SIZE. The buffers of the worker have the sizes of their
  -- declarations, the servers are a map in which `set` and `delete` do what libmemcached
  -- documents for keys shorter than MEMCACHED_MAX_KEY, and the contention is not negative. The
  -- socket worker runs with nothing cached, nothing counted, and an empty queue with room for the
  -- urls. Then the job writes a line for each url to the pipe; the callbacks of the socket worker
  -- on what it wrote, cut into reads in any way that `IsWellCut` allows, end without an access
  -- outside a buffer; and the worker then works on, in at most one turn more than there are urls,
  -- until it waits with the queue empty, and leaves in the map the document of each url under the
  -- key prefix and the url, and every other record as it was.
  pub update-pages :
      {st : State} (workers_count : ℕ) (w : Worker Memc) (name : Bytes) (acts : List Action)
      (a : Action) (ts : List Bytes) (tail : StringList) (ds : List Bytes) (random : ℕ → ℕ)
      (contention : ℕ)
      → Holds w.job name
      → globals.actions ≡ some (ended_by acts [])
      → first_named name acts ≡ some a
      → length w.new_command ≡ buffer_size
      → AreSized globals.max_key w
      → a.refresh_list ≡ some (map some ts ++ tail)
      → a.count ≡ length ts
      → AreShort 6 ts
      → AreSingleLines ts
      → AreCacheable lib perform globals hp web ts
      → Idle st [] []
      → st.1.url_count ≡ 0
      → length ts ≤ st.1.queue.capacity
      → concat ds ≡ concat (map cache_line ts)
      → IsWellCut [] ds
      → (w' : Worker Memc) × (st' : State) × (update_job lib perform globals w ≡ some w')
        × (w'.lines ≡ w.lines ++ map cache_line ts)
        × (callbacks workers_count st ds ≡ some st')
        × Served lib perform globals hp web store st'.1 w' ts
            (work_on lib perform globals (pos contention) random (suc (length ts)) st'.1 w')
  update-pages {st} workers_count w name acts a ts tail ds random contention named array found size
        sized listed counted short single cacheable v none_counted room read cut =
      let w' : Worker Memc = record w { lines = w.lines ++ map cache_line ts } in
      let s =
        update_action-callbacks workers_count w.new_command a ts tail (map cache_line ts) ds size
          listed counted short single
          (update_action_lem w.new_command a ts tail size listed counted short) v read cut
          (omega arith) in
      (
        w',
        s.after,
        update_job_lem w name acts a ts tail named array found size listed counted short,
        refl,
        s.runs,
        work_on_lem lib perform globals hp web store random contention s.after.1 w' ts
            (suc (length ts)) cacheable s.idle.queue
            (omega (arith, s.counted, none_counted, length-jobs ts)) s.idle.running
            (record {
              job = sized.job;
              command = sized.command;
              key = sized.key;
              block = sized.block;
            })
            (omega arith),
      )
