-- ===== src/Pool/Facts.antt =====
-- What holds of a thread of the pool, of the queue and of the records while it serves CACHE jobs.
use easyforetell.Prelude.{
  ℕ, ◌+◌, ◌-◌, ◌*◌, ◌≤◌, ◌≡◌, true, false, List, [], ◌∷◌, ◌++◌, map, Option, some, length,
}
use easyforetell.Memory.{Bytes}
use easyforetell.Memory.Laws.{Holds}
use easyforetell.Queue.Ring.{Holding}
use easyforetell.Socket.{Shared}
use easyforetell.Curl.{MemoryStruct}
use easyforetell.Memcached.{LibMemcached}
use easyforetell.Memcached.Store.{Store}
use easyforetell.Jobs.{Worker, Globals}
use easyforetell.Jobs.Pages.{AreSized, IsCacheable, AreCacheable}
use easyforetell.Worker.Feedback.{cache_job_text}
use easyforetell.Pool.{Place, at_head, at_delete, at_fetch, weight}
use easyforetell.Pool.Pending.{is_for, IsKnown, AreKnown}

module _ (lib : LibMemcached)
    (perform : Bytes → MemoryStruct → Option (MemoryStruct × Option Bytes)) (globals : Globals)
    {prefix : Bytes} (hp : Holds globals.key_prefix prefix) (web : Bytes → List Bytes)
    (store : Store lib) (final : Bytes → Option Bytes) where
  open lib use {Memc, memcached_set, memcached_delete}
  open store use {lookup, lookup-set, lookup-delete}

  -- A worker with the key of its url, whose page the records have in the end.
  pub record IsBusy (w : Worker Memc) (t : Bytes) : Type 0 where
    pub sized : AreSized globals.max_key w
    pub job : Holds w.job t
    pub key : Holds w.key (prefix ++ t)
    pub cacheable : IsCacheable lib perform globals hp web t
    pub known : IsKnown prefix web final t

  -- The urls that a thread has taken and not stored: one at most.
  pub data Own : Place lib → List Bytes → Type 0 where
    head : {w : Worker Memc} → AreSized globals.max_key w → Own (at_head w) []
    deleting : {w : Worker Memc} {t : Bytes} → IsBusy w t → Own (at_delete w) (t ∷ [])
    fetching : {w : Worker Memc} {t : Bytes} → IsBusy w t → Own (at_fetch w) (t ∷ [])

  -- The queue with these urls.
  pub record Waiting (shared : Shared) (rest : List Bytes) : Type 0 where
    pub holds : Holding shared.queue (map cache_job_text rest)
    pub counted : shared.url_count ≡ length rest
    pub running : shared.should_run ≡ true
    pub cacheable : AreCacheable lib perform globals hp web rest
    pub known : AreKnown prefix web final rest

  -- A record is as in the end, but for the urls that are under way or in the queue.
  abbrev pub Stored : Memc → List Bytes → List Bytes → List Bytes → Type 0
  Stored servers others own rest =
      (asked : Bytes)
      → is_for prefix asked others ≡ false
      → is_for prefix asked own ≡ false
      → is_for prefix asked rest ≡ false
      → lookup servers asked ≡ final asked

  -- A thread among others, which has fewer moves before it than `cost`, or none.
  pub record Fine (others : List Bytes) (cost : ℕ) (shared : Shared) (servers : Memc)
      (place : Place lib) : Type 0 where
    pub own : List Bytes
    pub rest : List Bytes
    pub one : Own place own
    pub waiting : Waiting shared rest
    pub stored : Stored servers others own rest
    pub less : weight lib place + 3 * length rest ≤ cost - 1

  pub data IsFine (others : List Bytes) (cost : ℕ)
      : Option (Shared × Memc × Place lib) → Type 0 where
    fine :
        {shared : Shared} {servers : Memc} {place : Place lib}
        → Fine others cost shared servers place
        → IsFine others cost (some (shared, servers, place))
