-- ===== src/System/Service.antt =====
-- What the invariant gives: the workers serve each line once and in order, and all of them leave.
use easyforetell.Prelude.{
  ℕ, zero, suc, ◌+◌, ◌-◌, ◌<◌, ◌≡◌, ◌⊎◌, refl, ap, ◌∙◌, true, false, List, [], ◌∷◌, ◌++◌,
  append-nil, some, arith, length, replicate, Bool-cases, inl, inr,
}
use native.Mathlib.Decide.{dec_lt}
use easyforetell.Memory.{Bytes}
use easyforetell.Queue.{buffer_size}
use easyforetell.Jobs.{idle, take_job}
use easyforetell.System.{System, Step, leave, Reach}
use easyforetell.System.Kept.{Sound, woken}
use easyforetell.System.Sections.{take_job-idle, take_job-done}
use easyforetell.System.Workers.{Oldest, oldest, running_count}
use easyforetell.System.Invariant.{Step-Sound, Reach-Sound}

pub no_texts : (ts : List Bytes) → length ts ≡ 0 → ts ≡ []
no_texts [] e = refl
no_texts (t ∷ ts) e = absurd (omega (arith, e))

-- In every reachable state in which the daemon runs, a worker whose buffer has BUFFER_SIZE bytes
-- either waits, and then all lines that the queue took are served, or it gets, without an access
-- outside a buffer, the oldest line that is not served yet, and `url_count` and the queue go down
-- by that line.
pub next_job :
    {n capacity : ℕ} {block : ℕ → Bytes} {s : System} (job : Bytes)
    → ((i : ℕ) → length (block i) ≡ buffer_size)
    → 0 < capacity
    → Reach n block capacity s
    → s.shared.should_run ≡ true
    → length job ≡ buffer_size
    → ((take_job s.shared job ≡ some idle) × (s.accepted ≡ s.served)) ⊎ Oldest n s job
next_job {s = s} job sizes pos r on size =
    let v = Reach-Sound sizes pos r in
    elim (dec_lt 0 s.shared.url_count) [
      | yes more ↦ inr (oldest v job size v.waiting refl on more)
      | no none_counted ↦
          let empty = no_texts v.waiting (omega (arith, running_count v job size on)) in
          inl (
            take_job-idle s.shared job (omega arith),
            v.order ∙ ap (λ k. s.served ++ k) empty ∙ append-nil s.served,
          )
    ]

-- Some steps, one after another.
pub data Steps (n : ℕ) : System → System → Type 0 where
  stay : {s : System} → Steps n s s
  step : {s t u : System} → Step n s t → Steps n t u → Steps n s u

not_running : {n : ℕ} {s : System} → Sound n s → s.looping ≡ false → s.shared.should_run ≡ false
not_running {s = s} v e = elim (Bool-cases s.shared.should_run) [
  | inl on ↦ let l = v.still_loops on in absurd (cc)
  | inr off ↦ off
]

all_leave :
    {n : ℕ} (k : ℕ) (s : System)
    → Sound n s
    → s.looping ≡ false
    → s.left + k ≡ n
    → (t : System) × Steps n s t
      × (t.left ≡ n)
      × (t.shared.queue ≡ s.shared.queue)
      × (t.looping ≡ false)
all_leave zero s v ended e = (s, stay, omega arith, refl, ended)
all_leave {n} (suc k) s v ended e =
    let job : Bytes = replicate buffer_size 0 in
    let more : 0 < s.shared.url_count = omega (arith, v.counted, ap (woken n) ended) in
    let off = not_running v ended in
    let e' : s.left + 1 + k ≡ n = omega (arith, e) in
    let st =
      leave job
        (record {
          should_run = s.shared.should_run;
          url_count = s.shared.url_count - 1;
          queue = s.shared.queue;
        })
        (v.closed ended) (omega (arith, e)) refl (take_job-done s.shared job more off) in
    let (t, steps, all, same, still) = all_leave k _ (Step-Sound st v) ended e' in
    (t, step st steps, all, same, still)

-- From every reachable state in which the socket worker's loop has ended, some steps lead to a
-- state in which all `workers_count` workers have left their loops, with the queue as it was and
-- that loop still ended.
pub workers_leave :
    {n capacity : ℕ} {block : ℕ → Bytes} {s : System}
    → ((i : ℕ) → length (block i) ≡ buffer_size)
    → 0 < capacity
    → Reach n block capacity s
    → s.looping ≡ false
    → (t : System) × Steps n s t
      × (t.left ≡ n)
      × (t.shared.queue ≡ s.shared.queue)
      × (t.looping ≡ false)
workers_leave {n} {s = s} sizes pos r ended =
    let v = Reach-Sound sizes pos r in all_leave (n - s.left) s v ended (omega (arith, v.workers))
