-- ===== src/System/Sections.antt =====
-- The critical sections of the threads on a queue that holds lines.
use easyforetell.Prelude.{
  ◌-◌, ◌<◌, ◌≡◌, true, false, List, [], ◌∷◌, ◌++◌, some, arith, length, subst, lt→ltb, not_lt→ltb,
}
use native.Mathlib.Decide.{dec_lt}
use easyforetell.Memory.{Bytes}
use easyforetell.Memory.Laws.{Holds}
use easyforetell.Queue.{Queue, buffer_size, stored, refused, fifo_enqueue}
use easyforetell.Queue.Ring.{
  Holding, fifo_enqueue-stored, fifo_enqueue-refused, fifo_dequeue-oldest,
}
use easyforetell.Socket.{Shared}
use easyforetell.Jobs.{idle, done, taken, take_job}

-- What a call of `fifo_enqueue` that stores tells of the queue, and one that refuses.
module _ {q q' : Queue} {ts : List Bytes} {cut : Bytes} (line : Bytes) (v : Holding q ts) where
  pub stored-Holding :
      Holds cut line
      → length line < buffer_size
      → fifo_enqueue q cut ≡ some (q', stored)
      → Holding q' (ts ++ line ∷ [])
  stored-Holding h short e = elim (dec_lt (length ts) q.capacity) [
    | yes room ↦
        let (q₁, f, v', _) = fifo_enqueue-stored v h short room in
        let same : q₁ ≡ q' = cc in subst (λ k. Holding k (ts ++ line ∷ [])) same v'
    | no full ↦ let f = fifo_enqueue-refused v cut (omega (arith, v.fits, v.counted)) in absurd (cc)
  ]

  pub refused-Holding :
      Holds cut line
      → length line < buffer_size
      → fifo_enqueue q cut ≡ some (q', refused)
      → Holding q' ts
  refused-Holding h short e = elim (dec_lt (length ts) q.capacity) [
    | yes room ↦ let (q₁, f, v', _) = fifo_enqueue-stored v h short room in absurd (cc)
    | no full ↦
        let f = fifo_enqueue-refused v cut (omega (arith, v.fits, v.counted)) in
        let same : q ≡ q' = cc in subst (λ k. Holding k ts) same v
  ]

-- The three ways that a worker's critical section ends.
module _ (shared : Shared) (job : Bytes) where
  pub take_job-idle : shared.url_count ≡ 0 → take_job shared job ≡ some idle
  unfolding take_job
  take_job-idle e = rw (lt→ltb shared.url_count 1 (omega arith))

  pub take_job-done :
      0 < shared.url_count
      → shared.should_run ≡ false
      → take_job shared job
        ≡ some (
            done (record {
              should_run = shared.should_run;
              url_count = shared.url_count - 1;
              queue = shared.queue;
            }))
  unfolding take_job
  take_job-done more off = rw (not_lt→ltb shared.url_count 1 more, off)

  pub take_job-taken :
      {t : Bytes} {ts : List Bytes}
      → Holding shared.queue (t ∷ ts)
      → length t < length job
      → 0 < shared.url_count
      → shared.should_run ≡ true
      → (q : Queue) × (job' : Bytes) × (take_job shared job
          ≡ some (
              taken
                (record {
                  should_run = shared.should_run;
                  url_count = shared.url_count - 1;
                  queue = q;
                })
                job'))
        × Holding q ts
        × Holds job' t
        × (length job' ≡ length job)
  unfolding take_job
  take_job-taken v short more on =
      let (q, job', e, v', held, kept, _) = fifo_dequeue-oldest job v short in
      (q, job', rw (not_lt→ltb shared.url_count 1 more, on, e), v', held, kept)
