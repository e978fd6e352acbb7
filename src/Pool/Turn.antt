-- ===== src/Pool/Turn.antt =====
-- The places of a thread that nobody comes between, against the turn of its loop.
use easyforetell.Prelude.{
  ℕ, zero, suc, ◌-◌, ◌≡◌, refl, true, false, Option, none, some, ◌>>=◌, Option-cases, inl, inr,
}
use easyforetell.Memory.{Bytes, c_str}
use easyforetell.Command.{Command, cache, get_command}
use easyforetell.Socket.{Shared}
use easyforetell.Keys.{Keyed, failed, created, create_key}
use easyforetell.Curl.{MemoryStruct, curl_fetch_url}
use easyforetell.Memcached.{LibMemcached, memcached_delete_record}
use easyforetell.Jobs.{
  Worker, Globals, Turn, works, taken, take_job, operate, cache_job, with_key, renew, store_page,
  turn, work,
}
use easyforetell.Pool.{Place, at_head, at_delete, on, keyed_place, begin, begin_job, advance}

module _ (lib : LibMemcached)
    (perform : Bytes → MemoryStruct → Option (MemoryStruct × Option Bytes))
    (globals : Globals) where
  open lib use {Memc}

  -- The thread goes on to the head of its loop, in at most `fuel` moves.
  unfoldable pub to_head : ℕ → Shared → Memc → Place lib → Option (Shared × Worker Memc)
  to_head fuel shared servers (at_head w) = some (shared, on lib servers w)
  to_head zero shared servers place = none
  to_head (suc fuel) shared servers place = do
    (shared', servers', place') ← advance lib perform globals shared servers place
    to_head fuel shared' servers' place'

  -- What a thread makes of the moves that are left.
  abbrev ending : Option (Shared × Memc × Place lib) → Option (Turn lib perform globals)
  ending o = do
    (after, servers, place) ← o
    (after', w') ← to_head 3 after servers place
    some (works after' w')

  abbrev worked : Shared → Option (Worker Memc) → Option (Turn lib perform globals)
  worked shared o = do w' ← o; some (works shared w')

  renew-ending :
      (shared : Shared) (w : Worker Memc)
      → worked shared (renew lib perform globals w) ≡ ending (some (shared, w.memc, at_delete w))
  unfolding renew to_head advance
  renew-ending shared w = elim (Option-cases (memcached_delete_record lib w.memc w.key false)) [
    | inl e ↦ rw e refl
    | inr ((memc, deleted), e) ↦ elim (Option-cases (c_str w.job)) [
      | inl f ↦ rw (e, f) refl
      | inr (url, f) ↦
          elim (Option-cases (
            curl_fetch_url perform
              (record { memory = w.buffer.memory; size = w.buffer.size; enabled = true }) url)) [
                | inl g ↦ rw (e, f, g) refl
                | inr ((buffer, ok), g) ↦
                    elim (Option-cases (
                      store_page lib perform globals (record w { memc = memc; buffer = buffer })
                        ok)) [ inl h ↦ rw (e, f, g, h) refl | inr (w', h) ↦ rw (e, f, g, h) refl ]
              ]
    ]
  ]

  with_key-ending :
      (shared : Shared) (w : Worker Memc) (keyed : Keyed)
      → worked shared (with_key lib perform globals w keyed)
        ≡ ending (some (shared, w.memc, keyed_place lib w keyed))
  unfolding with_key keyed_place to_head
  with_key-ending shared w failed = refl
  with_key-ending shared w (created key) = renew-ending shared (record w { key = key })

  -- The switch.
  operate-ending :
      (shared : Shared) (w : Worker Memc) (code : Command)
      → worked shared (operate lib perform globals code w)
        ≡ ending (do
          (servers', place) ← begin lib perform globals w.memc code w
          some (shared, servers', place))
  unfolding operate cache_job begin to_head
  operate-ending shared w cache =
      elim (Option-cases (
        create_key globals.max_key (some w.key) (globals.max_key - 1) (some globals.key_prefix)
          (some w.job))) [
            | inl e ↦ rw e refl
            | inr (keyed, e) ↦ rw e (with_key-ending shared w keyed)
          ]
  operate-ending shared w code = elim (Option-cases (operate lib perform globals code w)) [
    | inl e ↦ rw e refl
    | inr (w', e) ↦ rw e refl
  ]

  -- For a worker that takes a job, the turn of its loop is the same as its moves one after
  -- another to the head of its loop, at most three behind the critical section, with nobody in
  -- between: the same shared state, the same worker, and a fault exactly where the turn has one.
  pub turn-to_head :
      (shared shared' : Shared) (w : Worker Memc) (job : Bytes)
      → take_job shared w.job ≡ some (taken shared' job)
      → turn lib perform globals shared w ≡ (do
        (after, servers, place) ← advance lib perform globals shared w.memc (at_head w)
        (after', w') ← to_head 3 after servers place
        some (works after' w'))
  unfolding turn work advance begin_job
  turn-to_head shared shared' w job took = elim (Option-cases (get_command w.command job)) [
    | inl e ↦ rw (took, work, begin_job, e) refl
    | inr ((command, job', code), e) ↦
        rw (took, work, begin_job, e)
          (operate-ending shared' (record w { job = job'; command = command }) code)
  ]
