-- ===== src/Start/Finished.antt =====
-- A worker from its start to its end.
use easyforetell.Prelude.{
  ℕ, ◌+◌, ◌<◌, ◌≡◌, refl, ap, ◌∙◌, List, [], ◌∷◌, ◌++◌, map, Option, none, some, ◌>>=◌, length,
  replicate,
}
use easyforetell.Memory.{Bytes}
use easyforetell.Start.{
  LibStart, null, curl_init, Ended, early, ended, memcached_destroy, destroy_servers, curl_destroy,
  start_worker, end_worker,
}
use easyforetell.Start.Connected.{NoneEmpty, add_all, outcome, start_worker_lem}

module _ (lib : LibStart) where
  open lib use {Memc, memcached_create}

  -- What becomes of a worker with these servers, whose client is then the given one.
  abbrev pub ending : Option Bytes → List Bytes → Option Memc → Option (Ended lib)
  ending memory [] m = none
  ending memory (t ∷ ts) none = some (early)
  ending memory (t ∷ ts) (some m) = some (ended memory (record { memc = m; servers = null }))

  at_end :
      (memory : Option Bytes) (t : Bytes) (ts : List Bytes) (m : Option Memc)
      → (outcome lib (curl_init lib memory).0 null m >>= end_worker lib) ≡ ending memory (t ∷ ts) m
  unfolding end_worker memcached_destroy destroy_servers curl_destroy curl_init
  at_end memory t ts none = refl
  at_end memory t ts (some m) = refl

  -- A thread of a worker, with a list of servers of at least one place that holds texts, none
  -- empty, and then NULLs: if the list holds a text, the thread returns at its start where one of
  -- its servers cannot be parsed or added, and otherwise goes on to its loop with these servers
  -- added to its client in order, and at its end frees its buffer and the client; if the list
  -- holds no text, it frees a pointer that was never set.
  pub end_worker_lem :
      (memory : Option Bytes) (ts : List Bytes) (n count : ℕ)
      → NoneEmpty lib ts
      → count ≡ length ts + n
      → 0 < count
      → (start_worker lib memory (some (map some ts ++ replicate n none)) count >>= end_worker lib)
        ≡ ending memory ts (add_all lib memcached_create ts)
  unfolding end_worker memcached_destroy destroy_servers curl_destroy curl_init add_all
  end_worker_lem memory [] n count h e more =
      ap (λ k. k >>= end_worker lib) (start_worker_lem lib memory [] n count h e more)
  end_worker_lem memory (t ∷ ts) n count h e more =
      ap (λ k. k >>= end_worker lib) (start_worker_lem lib memory (t ∷ ts) n count h e more)
      ∙ at_end memory t ts (add_all lib memcached_create (t ∷ ts))
