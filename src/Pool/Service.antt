-- ===== src/Pool/Service.antt =====
-- The pool from CACHE lines in the queue to the records of their pages, in any interleaving.
use easyforetell.Prelude.{
  ◌≤◌, ◌≡◌, refl, sym, ap, subst, true, false, List, [], ◌∷◌, ◌++◌, map, Option, arith, length,
}
use easyforetell.Memory.{Bytes}
use easyforetell.Memory.Laws.{Holds}
use easyforetell.Queue.Ring.{Holding}
use easyforetell.Socket.{Shared}
use easyforetell.Curl.{MemoryStruct}
use easyforetell.Memcached.{LibMemcached}
use easyforetell.Memcached.Store.{Store}
use easyforetell.Jobs.{Worker, Globals}
use easyforetell.Jobs.Pages.{AreSized, AreCacheable, with_pages}
use easyforetell.System.Service.{no_texts}
use easyforetell.Worker.Feedback.{cache_job_text}
use easyforetell.Pool.{Place, at_head, total, left, Pool, Move, goes, Run, stay, step}
use easyforetell.Pool.Pending.{is_for, with_pages-AreKnown, with_pages-others}
use easyforetell.Pool.Facts.{head, deleting, fetching}
use easyforetell.Pool.Moves.{Under, no_thread, thread, Sound, total-append, moved, Move-Sound}

module _ (lib : LibMemcached)
    (perform : Bytes → MemoryStruct → Option (MemoryStruct × Option Bytes)) (globals : Globals)
    {prefix : Bytes} (hp : Holds globals.key_prefix prefix) (web : Bytes → List Bytes)
    (store : Store lib) where
  open lib use {Memc}
  open store use {lookup}

  module _ (final : Bytes → Option Bytes) where
    abbrev pub IsSound : Pool lib → Type 0
    IsSound = Sound lib perform globals hp web store final

    Run-Sound : {s t : Pool lib} → Run lib perform globals s t → IsSound s → IsSound t
    Run-Sound stay v = v
    Run-Sound (step st more) v =
        Run-Sound more (Move-Sound lib perform globals hp web store final st v)

    -- With no move left no url is under way.
    no_moves :
        {places : List (Place lib)} {us : List Bytes}
        → Under lib perform globals hp web store final places us
        → total lib places ≡ 0
        → us ≡ []
    no_moves no_thread e = refl
    no_moves (thread (head sized) under) e = no_moves under (omega (arith, e))
    no_moves (thread (deleting busy) under) e = absurd (omega (arith, e))
    no_moves (thread (fetching busy) under) e = absurd (omega (arith, e))

  -- Workers at the heads of their loops.
  abbrev pub waiting_pool : Shared → Memc → List (Worker Memc) → Pool lib
  waiting_pool shared servers ws = record {
    shared = shared;
    servers = servers;
    places = map at_head ws;
  }

  abbrev pub AreAllSized : List (Worker Memc) → Type 0
  AreAllSized [] = Unit {0}
  AreAllSized (w ∷ ws) = AreSized globals.max_key w × AreAllSized ws

  Under-waiting :
      (final : Bytes → Option Bytes) (ws : List (Worker Memc))
      → AreAllSized ws
      → Under lib perform globals hp web store final (map at_head ws) []
  Under-waiting final [] sized = no_thread
  Under-waiting final (w ∷ ws) sized = thread (head sized.0) (Under-waiting final ws sized.1)

  module _ (shared : Shared) (servers : Memc) (ws : List (Worker Memc)) (ts : List Bytes)
      (ok : AreCacheable lib perform globals hp web ts)
      (holds : Holding shared.queue (map cache_job_text ts))
      (counted : shared.url_count ≡ length ts) (running : shared.should_run ≡ true)
      (sized : AreAllSized ws) where
    abbrev records : Bytes → Option Bytes
    records = with_pages prefix web ts (lookup servers)

    pub reached-Sound :
        {s : Pool lib}
        → Run lib perform globals (waiting_pool shared servers ws) s
        → IsSound records s
    reached-Sound steps = Run-Sound records steps (record {
      us = [];
      rest = ts;
      under = Under-waiting records ws sized;
      waiting = record {
        holds = holds;
        counted = counted;
        running = running;
        cacheable = ok;
        known = with_pages-AreKnown prefix web ts (lookup servers);
      };
      stored = λ asked a b c. with_pages-others prefix web ts (lookup servers) asked c;
    })

    -- Let any number of workers stand at the heads of their loops with buffers of the sizes of
    -- their declarations, the daemon run, and the queue hold a CACHE line for each of a list of
    -- urls, `url_count` being their number. Each url is not empty and begins and ends with no
    -- space, with the key prefix it is shorter than the key's array and, with the longest text
    -- that `memcached_strerror` has, shorter than 215 bytes, and curl_easy_perform delivers its
    -- document to `write_callback` in pieces, without NUL bytes and together shorter than
    -- BUFFER_MEMORY_SIZE. The servers, which all workers share, are a map in which `set` and
    -- `delete` do what libmemcached documents for keys shorter than MEMCACHED_MAX_KEY. Then in
    -- every state to which moves of the workers lead, in any interleaving, each of the workers
    -- can move without an access outside a buffer, and no more moves are left after it than
    -- before.
    pub pool-safe :
        {s : Pool lib} (before after : List (Place lib)) (place : Place lib)
        → Run lib perform globals (waiting_pool shared servers ws) s
        → s.places ≡ before ++ place ∷ after
        → (t : Pool lib) × Move lib perform globals s t × (left lib t ≤ left lib s)
    pool-safe {s} before after place steps e =
        let m =
          moved lib perform globals hp web store records s before after place (reached-Sound steps)
            e in
        (
          record { shared = m.shared; servers = m.servers; places = before ++ m.place' ∷ after },
          goes before after place m.place' m.shared m.servers e m.runs,
          omega (
            arith,
            m.less,
            ap (total lib) e,
            total-append lib perform globals hp web store records before after place,
            total-append lib perform globals hp web store records before after m.place',
          ),
        )

    -- Let any number of workers stand at the heads of their loops with buffers of the sizes of
    -- their declarations, the daemon run, and the queue hold a CACHE line for each of a list of
    -- urls, `url_count` being their number. Each url is not empty and begins and ends with no
    -- space, with the key prefix it is shorter than the key's array and, with the longest text
    -- that `memcached_strerror` has, shorter than 215 bytes, and curl_easy_perform delivers its
    -- document to `write_callback` in pieces, without NUL bytes and together shorter than
    -- BUFFER_MEMORY_SIZE. The servers, which all workers share, are a map in which `set` and
    -- `delete` do what libmemcached documents for keys shorter than MEMCACHED_MAX_KEY. Then in
    -- every state to which moves of the workers lead, in any interleaving, and in which the queue
    -- is empty and every worker is at the head of its loop, the map is what it was at the start
    -- with the document of each url under the key prefix and the url.
    pub pool-records :
        {s : Pool lib}
        → Run lib perform globals (waiting_pool shared servers ws) s
        → left lib s ≡ 0
        → (asked : Bytes) → lookup s.servers asked ≡ with_pages prefix web ts (lookup servers) asked
    unfolding is_for
    pool-records {s} steps none_left asked =
        let v = reached-Sound steps in
        v.stored asked
          (subst (λ k. is_for prefix asked k ≡ false)
            (sym (no_moves records v.under (omega (arith, none_left)))) refl)
          refl
          (subst (λ k. is_for prefix asked k ≡ false)
            (sym (no_texts v.rest (omega (arith, none_left, v.waiting.counted)))) refl)
