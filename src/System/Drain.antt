-- ===== src/System/Drain.antt =====
-- The workers serve all lines that the queue took.
use easyforetell.Prelude.{
  ℕ, zero, suc, ◌<◌, ◌≡◌, ◌≢◌, refl, sym, ap, ◌∙◌, true, ◌++◌, append-nil, arith, length, replicate,
}
use easyforetell.Memory.{Bytes}
use easyforetell.Memory.Laws.{Holds-c_str}
use easyforetell.Queue.{buffer_size}
use easyforetell.System.{System, Main, outside, inside, blocked, goes_on, take, Reach}
use easyforetell.System.Kept.{Sound}
use easyforetell.System.Workers.{oldest, running_count}
use easyforetell.System.Invariant.{Step-Sound, Reach-Sound}
use easyforetell.System.Service.{Steps, stay, step, no_texts}

-- All lines taken are served, and the daemon still runs.
pub record Drained (n : ℕ) (s t : System) : Type 0 where
  pub steps : Steps n s t
  pub served : t.served ≡ s.accepted
  pub accepted : t.accepted ≡ s.accepted
  pub counted : t.shared.url_count ≡ 0
  pub running : t.shared.should_run ≡ true

drain :
    {n : ℕ} (k : ℕ) (s : System)
    → Sound n s
    → s.main ≡ outside
    → s.shared.should_run ≡ true
    → 0 < n
    → s.shared.url_count ≡ k
    → (t : System) × Drained n s t
drain zero s v out on some_worker e =
    let job : Bytes = replicate buffer_size 0 in
    let empty = no_texts v.waiting (omega (arith, running_count v job refl on)) in
    (
      s,
      record {
        steps = stay;
        served = sym (v.order ∙ ap (λ k. s.served ++ k) empty ∙ append-nil s.served);
        accepted = refl;
        counted = e;
        running = on;
      },
    )
drain (suc k) s v out on some_worker e =
    let job : Bytes = replicate buffer_size 0 in
    let o = oldest v job refl v.waiting refl on (omega (arith, e)) in
    let st =
      take job o.got o.line _ out (omega (arith, some_worker, v.none_left on)) refl o.gets
        (Holds-c_str o.held) in
    let (t, d) = drain k _ (Step-Sound st v) out on some_worker (omega (arith, e)) in
    (
      t,
      record {
        steps = step st d.steps;
        served = d.served;
        accepted = d.accepted;
        counted = d.counted;
        running = d.running;
      },
    )

-- With at least one worker, from every reachable state in which the daemon runs and the main
-- thread does not wait in the signal handler for the mutex that it holds, some steps lead to a
-- state in which the daemon still runs, the lines that the workers got are exactly those that the
-- queue had taken, in order, and `url_count` is 0.
pub all_served :
    {n capacity : ℕ} {block : ℕ → Bytes} {s : System}
    → ((i : ℕ) → length (block i) ≡ buffer_size)
    → 0 < capacity
    → 0 < n
    → Reach n block capacity s
    → s.shared.should_run ≡ true
    → s.main ≢ blocked
    → (t : System) × Drained n s t
all_served {n} {s = s} sizes pos some_worker r on free = go s.main refl
  where
    go : (m : Main) → s.main ≡ m → (t : System) × Drained n s t
    go outside e = drain s.shared.url_count s (Reach-Sound sizes pos r) e on some_worker refl
    go blocked e = absurd (free e)
    go inside e =
        let v = Reach-Sound sizes pos r in
        let st = goes_on e (v.still_loops on) on in
        let (t, d) =
          drain s.shared.url_count (record s { main = outside }) (Step-Sound st v) refl on
            some_worker refl in
        (
          t,
          record {
            steps = step st d.steps;
            served = d.served;
            accepted = d.accepted;
            counted = d.counted;
            running = d.running;
          },
        )
