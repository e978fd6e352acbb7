-- ===== src/Pool/Finish.antt =====
-- The pool goes on until its queue is empty and no url is under way.
use easyforetell.Prelude.{
  ℕ, zero, suc, ◌+◌, ◌*◌, ◌≤◌, ◌<◌, ◌≡◌, refl, ap, true, List, [], ◌∷◌, ◌++◌, map, Option, arith,
  length, length-append,
}
use native.Mathlib.Decide.{dec_lt}
use easyforetell.Memory.{Bytes}
use easyforetell.Memory.Laws.{Holds}
use easyforetell.Queue.Ring.{Holding}
use easyforetell.Socket.{Shared}
use easyforetell.Curl.{MemoryStruct}
use easyforetell.Memcached.{LibMemcached}
use easyforetell.Memcached.Store.{Store}
use easyforetell.Jobs.{Worker, Globals}
use easyforetell.Jobs.Pages.{AreCacheable, with_pages}
use easyforetell.Worker.Feedback.{cache_job_text}
use easyforetell.Pool.{Place, weight, total, left, Pool, goes, Run, stay, step}
use easyforetell.Pool.Moves.{total-append, moved}
use easyforetell.Pool.Service.{IsSound, waiting_pool, AreAllSized, reached-Sound, pool-records}

module _ (lib : LibMemcached) where
  -- A thread that has something to do, among at least one.
  record Chosen (places : List (Place lib)) (counted' : ℕ) : Type 0 where
    before : List (Place lib)
    after : List (Place lib)
    place : Place lib
    same : places ≡ before ++ place ∷ after
    busy : 0 < weight lib place + 3 * counted'

  choose :
      (places : List (Place lib)) (counted' : ℕ)
      → 0 < length places
      → 0 < total lib places + 3 * counted'
      → Chosen places counted'
  choose [] c some_thread more = absurd (omega arith)
  choose (p ∷ ps) c some_thread more = elim (dec_lt 0 (weight lib p + 3 * c)) [
    | yes h ↦ record { before = []; after = ps; place = p; same = refl; busy = h }
    | no h ↦ elim (dec_lt 0 (length ps)) [
      | yes others ↦
          let k = choose ps c others (omega arith) in
          record {
            before = p ∷ k.before;
            after = k.after;
            place = k.place;
            same = ap (λ q. p ∷ q) k.same;
            busy = k.busy;
          }
      | no alone ↦ absurd (omega (arith, ap (total lib) (no_places ps (omega arith))))
    ]
  ]
    where
      no_places : (ps : List (Place lib)) → length ps ≡ 0 → ps ≡ []
      no_places [] e = refl
      no_places (p ∷ ps) e = absurd (omega (arith, e))

module _ (lib : LibMemcached)
    (perform : Bytes → MemoryStruct → Option (MemoryStruct × Option Bytes))
    (globals : Globals) where
  append-Run :
      {s t u : Pool lib}
      → Run lib perform globals s t
      → Run lib perform globals t u
      → Run lib perform globals s u
  append-Run stay more = more
  append-Run (step st steps) more = step st (append-Run steps more)

  length-places : {s t : Pool lib} → Run lib perform globals s t → length t.places ≡ length s.places
  length-places stay = refl
  length-places (step (goes before after place place' shared servers e runs) steps) = omega (
    arith,
    length-places steps,
    ap length e,
    length-append before (place ∷ after),
    length-append before (place' ∷ after),
  )

module _ (lib : LibMemcached)
    (perform : Bytes → MemoryStruct → Option (MemoryStruct × Option Bytes)) (globals : Globals)
    {prefix : Bytes} (hp : Holds globals.key_prefix prefix) (web : Bytes → List Bytes)
    (store : Store lib) where
  open lib use {Memc}
  open store use {lookup}

  module _ (shared : Shared) (servers : Memc) (ws : List (Worker Memc)) (ts : List Bytes)
      (ok : AreCacheable lib perform globals hp web ts)
      (holds : Holding shared.queue (map cache_job_text ts))
      (counted : shared.url_count ≡ length ts) (running : shared.should_run ≡ true)
      (sized : AreAllSized lib perform globals hp web store ws) where
    abbrev records : Bytes → Option Bytes
    records = with_pages prefix web ts (lookup servers)

    finish :
        (k : ℕ) (s : Pool lib)
        → IsSound lib perform globals hp web store records s
        → left lib s ≤ k
        → 0 < length s.places
        → (t : Pool lib) × Run lib perform globals s t × (left lib t ≡ 0)
    finish zero s v few some_thread = (s, stay, omega (arith, few))
    finish (suc k) s v few some_thread = elim (dec_lt 0 (left lib s)) [
      | no nothing ↦ (s, stay, omega arith)
      | yes more ↦
          let c = choose lib s.places s.shared.url_count some_thread more in
          let m =
            moved lib perform globals hp web store records s c.before c.after c.place v c.same in
          let next : Pool lib = record {
            shared = m.shared;
            servers = m.servers;
            places = c.before ++ m.place' ∷ c.after;
          } in
          let (t, steps, ended) =
            finish k next m.sound
              (omega (
                arith,
                few,
                m.less,
                c.busy,
                ap (total lib) c.same,
                total-append lib perform globals hp web store records c.before c.after c.place,
                total-append lib perform globals hp web store records c.before c.after m.place',
              ))
              (omega (arith, length-append c.before (m.place' ∷ c.after))) in
          (
            t,
            step (goes c.before c.after c.place m.place' m.shared m.servers c.same m.runs) steps,
            ended,
          )
    ]

    -- Let any number of workers stand at the heads of their loops with buffers of the sizes of
    -- their declarations, the daemon run, and the queue hold a CACHE line for each of a list of
    -- urls, `url_count` being their number. Each url is not empty and begins and ends with no
    -- space, with the key prefix it is shorter than the key's array and, with the longest text
    -- that `memcached_strerror` has, shorter than 215 bytes, and curl_easy_perform delivers its
    -- document to `write_callback` in pieces, without NUL bytes and together shorter than
    -- BUFFER_MEMORY_SIZE. The servers, which all workers share, are a map in which `set` and
    -- `delete` do what libmemcached documents for keys shorter than MEMCACHED_MAX_KEY. With at
    -- least one worker: from every state to which moves of the workers lead, in any interleaving,
    -- some moves lead to a state in which the queue is empty and every worker is at the head of
    -- its loop, and the map is what it was at the start with the document of each url under the
    -- key prefix and the url.
    pub pool-finishes :
        {s : Pool lib}
        → 0 < length ws
        → Run lib perform globals
            (waiting_pool lib perform globals hp web store shared servers ws)
            s
        → (t : Pool lib) × Run lib perform globals s t
          × (left lib t ≡ 0)
          × ((asked : Bytes)
              → lookup t.servers asked ≡ with_pages prefix web ts (lookup servers) asked)
    pool-finishes {s} some_worker steps =
        let (t, more, ended) =
          finish (left lib s) s
            (reached-Sound lib perform globals hp web store shared servers ws ts ok holds counted
              running sized steps)
            (omega arith)
            (omega (arith, length-places lib perform globals steps, length-heads ws)) in
        (
          t,
          more,
          ended,
          pool-records lib perform globals hp web store shared servers ws ts ok holds counted
              running sized (append-Run lib perform globals steps more) ended,
        )
      where
        length-heads :
            (ws : List (Worker Memc))
            → length (waiting_pool lib perform globals hp web store shared servers ws).places
              ≡ length ws
        length-heads [] = refl
        length-heads (w ∷ ws) = ap suc (length-heads ws)
