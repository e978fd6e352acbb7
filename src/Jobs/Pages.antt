-- ===== src/Jobs/Pages.antt =====
-- A worker that serves CACHE jobs until its queue is empty, on servers seen as a map.
use easyforetell.Prelude.{
  concat, ℕ, zero, suc, ◌+◌, ◌-◌, ◌<◌, ◌≡◌, refl, ap, ◌∙◌, subst, true, List, [], ◌∷◌, ◌++◌, map,
  Option, some, ◌>>=◌, arith, length, length-append, if◌then◌else◌, pos, Bool-cases, inl, inr,
}
use mathlib.Core.Path.{fun_ext}
use easyforetell.Memory.{Bytes, equal}
use easyforetell.Memory.Laws.{IsText, Holds}
use easyforetell.Queue.{Queue, buffer_size}
use easyforetell.Queue.Ring.{Holding}
use easyforetell.Command.{Command}
use easyforetell.Socket.{Shared}
use easyforetell.Curl.{MemoryStruct, buffer_memory_size, receive, transfer}
use easyforetell.Memcached.{LibMemcached}
use easyforetell.Memcached.Store.{Store, IsKey}
use easyforetell.Sleep.Bounds.{sleep_millis_lem}
use easyforetell.System.Sections.{take_job-idle}
use easyforetell.Worker.Commands.{IsTrimmed, parse-command, cache-FitsJob}
use easyforetell.Worker.Feedback.{cache_job_text}
use easyforetell.Jobs.{Worker, Globals, works, turn, operate, work, work_on}
use easyforetell.Jobs.Cache.{cache_job_lem}
use easyforetell.Jobs.Loop.{oldest_short, turn-Serves}

-- The map with one more record.
abbrev pub overwrite : (Bytes → Option Bytes) → Bytes → Bytes → Bytes → Option Bytes
overwrite f key page asked = if equal asked key then some page else f asked

-- The map with a record for each url, from the first to the last.
unfoldable pub with_pages :
    Bytes → (Bytes → List Bytes) → List Bytes → (Bytes → Option Bytes) → Bytes → Option Bytes
with_pages prefix web [] f = f
with_pages prefix web (t ∷ ts) f =
    with_pages prefix web ts (overwrite f (prefix ++ t) (concat (web t)))

-- The buffers of a worker.
pub record AreSized (max_key : ℕ) {Memc : Type 0} (w : Worker Memc) : Type 0 where
  pub job : length w.job ≡ buffer_size
  pub command : length w.command ≡ buffer_size
  pub key : length w.key ≡ max_key - 1
  pub block : length w.buffer.memory ≡ buffer_memory_size

module _ (lib : LibMemcached)
    (perform : Bytes → MemoryStruct → Option (MemoryStruct × Option Bytes)) (globals : Globals)
    {prefix : Bytes} (hp : Holds globals.key_prefix prefix) (web : Bytes → List Bytes) where
  open lib use {Memc}

  -- A url whose key fits its array and whose document, in the pieces that libcurl delivers, fits the
  -- block.
  pub record IsCacheable (t : Bytes) : Type 0 where
    pub trimmed : IsTrimmed t
    pub fits : length prefix + length t < globals.max_key - 1
    -- The log lines have room for the key.
    pub named : length prefix + length t + lib.longest_error < 215
    pub error : Bytes
    pub delivers : (mem : MemoryStruct) → perform t mem ≡ transfer error (receive (web t) mem)
    pub page : IsText (concat (web t))
    pub room : length (concat (web t)) < buffer_memory_size

  abbrev pub AreCacheable : List Bytes → Type 0
  AreCacheable [] = Unit {0}
  AreCacheable (t ∷ ts) = IsCacheable t × AreCacheable ts

  -- The key of a url.
  pub cacheable-IsKey : (t : Bytes) → IsCacheable t → IsKey (prefix ++ t)
  cacheable-IsKey t ok =
      let start = ap length ok.trimmed.shape in
      let whole = length-append prefix t in
      record { some_byte = omega (arith, start, whole); short = omega (arith, whole, ok.named) }

  module _ (store : Store lib) where
    open store use {lookup, lookup-set, lookup-delete}

    -- A turn on a CACHE job.
    record Turned (shared : Shared) (w : Worker Memc) (t : Bytes) (ts : List Bytes) : Type 0 where
      queue : Queue
      after : Worker Memc
      runs :
          turn lib perform globals shared w
          ≡ some (works (record shared { queue = queue; url_count = shared.url_count - 1 }) after)
      rest : Holding queue ts
      sized : AreSized globals.max_key after
      stored :
          (asked : Bytes)
          → lookup after.memc asked ≡ overwrite (lookup w.memc) (prefix ++ t) (concat (web t)) asked

    renewed-lookup :
        (memc : Memc) (key page asked : Bytes)
        → IsKey key
        → lookup
            (lib.memcached_set (lib.memcached_delete memc key).0 key page globals.expiration).0
            asked
          ≡ overwrite (lookup memc) key page asked
    renewed-lookup memc key page asked valid =
        rw
          (
            lookup-set (lib.memcached_delete memc key).0 key page globals.expiration asked valid,
            lookup-delete memc key asked valid,
          )
          (elim (Bool-cases (equal asked key)) [
            | inl same ↦ rw same refl
            | inr differs ↦ rw differs refl
          ])

    turn-Turned :
        (shared : Shared) (w : Worker Memc) (t : Bytes) (ts : List Bytes)
        → IsCacheable t
        → Holding shared.queue (cache_job_text t ∷ ts)
        → 0 < shared.url_count
        → shared.should_run ≡ true
        → AreSized globals.max_key w
        → Turned shared w t ts
    unfolding operate
    turn-Turned shared w t ts ok v count on sized =
        let job = cache_job_text t in
        let parsed = parse-command t ok.trimmed in
        let s =
          turn-Serves lib perform globals shared w job ts v count on sized.job sized.command
            (cache-FitsJob t ok.trimmed buffer_size (oldest_short v)) in
        let url : Holds s.served.job t =
          subst (λ (k : Command × Bytes). Holds s.served.job k.1) parsed s.argument in
        let c =
          cache_job_lem lib perform globals s.served (web t) ok.error 102399 refl hp url
            (ap length s.key ∙ sized.key) ok.fits
            (ap (λ (k : MemoryStruct). length k.memory) s.buffer ∙ sized.block) ok.delivers ok.page
            ok.room ok.named in
        let after : Shared = record {
          should_run = shared.should_run;
          url_count = shared.url_count - 1;
          queue = s.queue;
        } in
        record {
          queue = s.queue;
          after = c.after;
          runs =
              s.runs
              ∙ ap
                  (λ (k : Command × Bytes).
                    operate lib perform globals k.0 s.served >>= λ w'. some (works after w'))
                  parsed
              ∙ rw c.runs refl;
          rest = s.rest;
          sized = record {
            job = c.job ∙ s.size ∙ sized.job;
            command = c.command ∙ s.command ∙ sized.command;
            key = c.key ∙ ap length s.key ∙ sized.key;
            block = c.block;
          };
          stored = λ asked.
              ap (λ (k : Memc). lookup k asked)
                (c.stored
                  ∙ ap
                      (λ (k : Memc).
                        (lib.memcached_set (lib.memcached_delete k (prefix ++ t)).0 (prefix ++ t)
                          (concat (web t)) globals.expiration).0)
                      s.memc)
              ∙ renewed-lookup w.memc (prefix ++ t) (concat (web t)) asked (cacheable-IsKey t ok);
        }

    -- What a worker leaves that has served a CACHE job for each of these urls.
    pub record Served (shared : Shared) (w : Worker Memc) (ts : List Bytes)
        (o : Option (Shared × Worker Memc)) : Type 0 where
      pub shared' : Shared
      pub after : Worker Memc
      pub runs : o ≡ some (shared', after)
      pub empty : Holding shared'.queue []
      pub counted : shared'.url_count ≡ 0
      pub running : shared'.should_run ≡ true
      pub sized : AreSized globals.max_key after
      pub stored :
          (asked : Bytes) → lookup after.memc asked ≡ with_pages prefix web ts (lookup w.memc) asked

    -- Let the daemon run, and the queue hold a CACHE line for each of a list of urls, `url_count`
    -- being their number. Each url is not empty and begins and ends with no space, with the key
    -- prefix it is shorter than the key's array and, with the longest text that
    -- `memcached_strerror` has, shorter than 215 bytes, and curl_easy_perform delivers its document to
    -- `write_callback` in pieces, without NUL bytes and together shorter than BUFFER_MEMORY_SIZE.
    -- Let the buffers of a worker have the sizes of their declarations, the servers be a map in
    -- which `set` and `delete` do what libmemcached documents, and the contention not be
    -- negative. Then the worker, with more turns as fuel than there are urls, works until it
    -- waits, without an access outside a buffer, whatever `rand` returns; the queue is then
    -- empty, `url_count` 0, and the map is what it was with the document of each url, from the
    -- first to the last, under the key prefix and the url.
    pub work_on_lem :
        (random : ℕ → ℕ) (contention : ℕ) (shared : Shared) (w : Worker Memc) (ts : List Bytes)
        (fuel : ℕ)
        → AreCacheable ts
        → Holding shared.queue (map cache_job_text ts)
        → shared.url_count ≡ length ts
        → shared.should_run ≡ true
        → AreSized globals.max_key w
        → length ts < fuel
        → Served shared w ts (work_on lib perform globals (pos contention) random fuel shared w)
    unfolding work_on with_pages turn work
    work_on_lem random contention shared w ts zero ok v count on sized enough = absurd (omega arith)
    work_on_lem random contention shared w [] (suc fuel) ok v count on sized enough = record {
      shared' = shared;
      after = w;
      runs = rw (take_job-idle shared w.job count) refl;
      empty = v;
      counted = count;
      running = on;
      sized = sized;
      stored = λ asked. refl;
    }
    work_on_lem random contention shared w (t ∷ ts) (suc fuel) ok v count on sized enough =
        let d =
          turn-Turned shared w t (map cache_job_text ts) ok.0 v (omega (arith, count)) on sized in
        let left : Shared = record {
          should_run = shared.should_run;
          url_count = shared.url_count - 1;
          queue = d.queue;
        } in
        let (millis, req, slept, _, _, _) = sleep_millis_lem (random fuel) contention in
        let r =
          work_on_lem random contention left d.after ts fuel ok.1 d.rest (omega (arith, count)) on
            d.sized (omega (arith, enough)) in
        record {
          shared' = r.shared';
          after = r.after;
          runs = rw (d.runs, slept) r.runs;
          empty = r.empty;
          counted = r.counted;
          running = r.running;
          sized = r.sized;
          stored = λ asked.
              r.stored asked ∙ ap (λ f. with_pages prefix web ts f asked) (fun_ext d.stored);
        }
