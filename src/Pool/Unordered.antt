-- ===== src/Pool/Unordered.antt =====
-- The records in the end, with the order of the urls, the workers and the interleaving forgotten.
use mathlib.Core.Quot
use mathlib.Core.Quot.{Quot}
use easyforetell.Prelude.{
  ◌≡◌, refl, sym, ap, ◌∙◌, true, List, [], ◌∷◌, ◌++◌, concat, map, Option, some, length, subst,
  drop, drop-append, if◌then◌else◌, Bool-cases, inl, inr,
}
use easyforetell.Memory.{Bytes, equal}
use easyforetell.Memory.Laws.{Holds}
use easyforetell.Queue.Ring.{Holding}
use easyforetell.Socket.{Shared}
use easyforetell.Curl.{MemoryStruct}
use easyforetell.Memcached.{LibMemcached}
use easyforetell.Memcached.Store.{Store}
use easyforetell.Jobs.{Worker, Globals}
use easyforetell.Jobs.Pages.{AreCacheable, overwrite, with_pages}
use easyforetell.Worker.Feedback.{cache_job_text}
use easyforetell.Pool.{left, Pool, Run}
use easyforetell.Pool.Pending.{is_for, equal_sound}
use easyforetell.Pool.Service.{waiting_pool, AreAllSized, pool-records}

module _ (prefix : Bytes) (web : Bytes → List Bytes) where
  -- The same urls, in any order and each any number of times.
  abbrev pub SameUrls : List Bytes → List Bytes → Type 0
  SameUrls ts us = (asked : Bytes) → is_for prefix asked ts ≡ is_for prefix asked us

  -- What a set of urls is to the records.
  abbrev Urls : Type 0
  Urls = Quot SameUrls

  -- The record of a key that is that of one of the urls.
  abbrev known_page : Bytes → Option Bytes
  known_page asked = some (concat (web (drop (length prefix) asked)))

  with_pages-is_for :
      (ts : List Bytes) (f : Bytes → Option Bytes) (asked : Bytes)
      → with_pages prefix web ts f asked
        ≡ (if is_for prefix asked ts then known_page asked else f asked)
  unfolding with_pages is_for
  with_pages-is_for [] f asked = refl
  with_pages-is_for (t ∷ ts) f asked =
      let rest = with_pages-is_for ts (overwrite f (prefix ++ t) (concat (web t))) asked in
      elim (Bool-cases (equal asked (prefix ++ t))) [
        | inr differs ↦ rw (rest, differs) refl
        | inl same ↦
            let page : some (concat (web t)) ≡ known_page asked =
              ap (λ k. some (concat (web k)))
                (sym (
                  ap (drop (length prefix)) (equal_sound asked (prefix ++ t) same)
                  ∙ drop-append prefix t (length prefix) refl)) in
            elim (Bool-cases (is_for prefix asked ts)) [
              | inl again ↦ rw (rest, same, again) refl
              | inr last ↦ rw (rest, same, last) page
            ]
      ]

  pages_of : (Bytes → Option Bytes) → Bytes → Urls → Option Bytes
  pages_of f asked =
      Quot.lift (hlevel) (λ ts. with_pages prefix web ts f asked)
        (λ ts us h.
          with_pages-is_for ts f asked
          ∙ ap (λ k. if k then known_page asked else f asked) (h asked)
          ∙ sym (with_pages-is_for us f asked))

module _ (lib : LibMemcached)
    (perform : Bytes → MemoryStruct → Option (MemoryStruct × Option Bytes)) (globals : Globals)
    {prefix : Bytes} (hp : Holds globals.key_prefix prefix) (web : Bytes → List Bytes)
    (store : Store lib) (servers : lib.Memc) where
  open store use {lookup}

  -- A pool that serves these urls.
  pub record Serving (ts : List Bytes) (start : Pool lib) : Type 0 where
    pub shared : Shared
    pub ws : List (Worker lib.Memc)
    pub starts : start ≡ waiting_pool lib perform globals hp web store shared servers ws
    pub cacheable : AreCacheable lib perform globals hp web ts
    pub holds : Holding shared.queue (map cache_job_text ts)
    pub counted : shared.url_count ≡ length ts
    pub running : shared.should_run ≡ true
    pub sized : AreAllSized lib perform globals hp web store ws

  -- The records are a function of the set of urls.
  pool-pages_of :
      {ts : List Bytes} {start s : Pool lib} (asked : Bytes)
      → Serving ts start
      → Run lib perform globals start s
      → left lib s ≡ 0
      → lookup s.servers asked ≡ pages_of prefix web (lookup servers) asked (Quot.mk ts)
  unfolding pages_of
  pool-pages_of {ts} {s = s} asked v run ended =
      pool-records lib perform globals hp web store v.shared servers v.ws ts v.cacheable v.holds
        v.counted v.running v.sized (subst (λ k. Run lib perform globals k s) v.starts run) ended
        asked

  -- Two pools of workers, each as many as it likes, stand at the heads of their loops with
  -- buffers of the sizes of their declarations on servers with the same records, the daemon
  -- running. The queue of each holds a CACHE line for each of a list of urls as in
  -- `AreCacheable`, counted in `url_count`, the two lists having the same urls, in any order and
  -- each any number of times. The servers are a map in which `set` and `delete` do what
  -- libmemcached documents for keys shorter than MEMCACHED_MAX_KEY. Then whatever moves of the
  -- workers lead each pool to a state in which the queue is empty and every worker is at the head
  -- of its loop, the two have the same record at every key.
  pub pool-unordered :
      {ts us : List Bytes} {start start' s s' : Pool lib} (asked : Bytes)
      → SameUrls prefix web ts us
      → Serving ts start
      → Serving us start'
      → Run lib perform globals start s
      → Run lib perform globals start' s'
      → left lib s ≡ 0
      → left lib s' ≡ 0
      → lookup s.servers asked ≡ lookup s'.servers asked
  pool-unordered asked same v v' run run' ended ended' =
      pool-pages_of asked v run ended
      ∙ ap (pages_of prefix web (lookup servers) asked) (Quot.sound same)
      ∙ sym (pool-pages_of asked v' run' ended')
