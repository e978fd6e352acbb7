-- ===== src/System/Workers.antt =====
-- What the steps of a worker keep.
use easyforetell.Prelude.{
  ℕ, ◌+◌, ◌-◌, ◌<◌, ◌≡◌, refl, sym, ap, ◌∙◌, true, false, List, [], ◌∷◌, ◌++◌, append_assoc, some,
  arith, length, subst, Bool-cases, inl, inr,
}
use native.Mathlib.Decide.{dec_lt}
use easyforetell.Memory.{Bytes, c_str}
use easyforetell.Memory.Laws.{Holds, Holds-c_str}
use easyforetell.Queue.{Queue, buffer_size}
use easyforetell.Queue.Ring.{Holding}
use easyforetell.Socket.{Shared}
use easyforetell.Jobs.{done, taken, take_job}
use easyforetell.System.{System}
use easyforetell.System.Kept.{AllShort, woken, Sound}
use easyforetell.System.Sections.{take_job-idle, take_job-done, take_job-taken}

-- With the daemon running and a counted job, a worker gets the oldest line.
pub record Oldest (n : ℕ) (s : System) (job : Bytes) : Type 0 where
  pub line : Bytes
  pub rest : List Bytes
  pub queue : Queue
  pub got : Bytes
  pub gets :
      take_job s.shared job
      ≡ some (
          taken
            (record {
              should_run = s.shared.should_run;
              url_count = s.shared.url_count - 1;
              queue = queue;
            })
            got)
  pub holds : Holding queue rest
  pub held : Holds got line
  pub short : AllShort rest
  pub order : s.accepted ≡ s.served ++ line ∷ rest
  pub counted : s.shared.url_count - 1 + s.left ≡ length rest + woken n s.looping

module _ {n : ℕ} {s : System} (v : Sound n s) (job : Bytes) (size : length job ≡ buffer_size) where
  pub running_count : s.shared.should_run ≡ true → s.shared.url_count ≡ length v.waiting
  running_count on = omega (arith, v.counted, v.none_left on, ap (woken n) (v.still_loops on))

  pub oldest :
      (ts : List Bytes)
      → v.waiting ≡ ts
      → s.shared.should_run ≡ true
      → 0 < s.shared.url_count
      → Oldest n s job
  oldest [] e on more = absurd (omega (arith, running_count on, ap length e))
  oldest (t ∷ ts) e on more =
      let holds = subst (Holding s.shared.queue) e v.holds in
      let short = subst AllShort e v.short in
      let (q, job', f, holds', held, _) =
        take_job-taken s.shared job holds (omega (arith, short.0, size)) more on in
      record {
        line = t;
        rest = ts;
        queue = q;
        got = job';
        gets = f;
        holds = holds';
        held = held;
        short = short.1;
        order = v.order ∙ ap (λ k. s.served ++ k) e;
        counted = omega (arith, v.counted, ap length e, more);
      }

  got-Sound :
      (o : Oldest n s job)
      → s.shared.should_run ≡ true
      → Sound n (record s {
        shared = record {
          should_run = s.shared.should_run;
          url_count = s.shared.url_count - 1;
          queue = o.queue;
        };
        served = s.served ++ o.line ∷ [];
      })
  got-Sound o on = record {
    waiting = o.rest;
    holds = o.holds;
    order = o.order ∙ sym (append_assoc s.served (o.line ∷ []) o.rest);
    short = o.short;
    counted = o.counted;
    workers = v.workers;
    none_left = v.none_left;
    still_loops = v.still_loops;
    closed = v.closed;
  }

  left-Sound :
      s.left < n
      → 0 < s.shared.url_count
      → s.shared.should_run ≡ false
      → Sound n (record s {
        shared = record {
          should_run = s.shared.should_run;
          url_count = s.shared.url_count - 1;
          queue = s.shared.queue;
        };
        left = s.left + 1;
      })
  left-Sound few more off = record {
    waiting = v.waiting;
    holds = v.holds;
    order = v.order;
    short = v.short;
    counted = omega (arith, v.counted);
    workers = omega (arith, few);
    none_left = λ e. cc;
    still_loops = v.still_loops;
    closed = v.closed;
  }

  pub Take-Sound :
      {job' line : Bytes} {shared : Shared}
      → take_job s.shared job ≡ some (taken shared job')
      → c_str job' ≡ some line
      → Sound n (record s { shared = shared; served = s.served ++ line ∷ [] })
  Take-Sound {job'} {line} {shared} e c = elim (dec_lt 0 s.shared.url_count) [
    | no none_counted ↦ let f = take_job-idle s.shared job (omega arith) in absurd (cc)
    | yes more ↦ elim (Bool-cases s.shared.should_run) [
      | inr off ↦ let f = take_job-done s.shared job more off in absurd (cc)
      | inl on ↦
          let o = oldest v.waiting refl on more in
          let f = o.gets in
          let g = Holds-c_str o.held in
          let same : record {
            should_run = s.shared.should_run;
            url_count = s.shared.url_count - 1;
            queue = o.queue;
          }
              ≡ shared =
            cc in
          let buffer : o.got ≡ job' = cc in
          let g' : c_str job' ≡ some o.line = ap c_str (sym buffer) ∙ g in
          let text : o.line ≡ line = cc in
          subst (λ k. Sound n (record s { shared = shared; served = s.served ++ k ∷ [] })) text
            (subst (λ k. Sound n (record s { shared = k; served = s.served ++ o.line ∷ [] })) same
              (got-Sound o on))
    ]
  ]

  pub Leave-Sound :
      {shared : Shared}
      → s.left < n
      → take_job s.shared job ≡ some (done shared)
      → Sound n (record s { shared = shared; left = s.left + 1 })
  Leave-Sound {shared} few e = elim (dec_lt 0 s.shared.url_count) [
    | no none_counted ↦ let f = take_job-idle s.shared job (omega arith) in absurd (cc)
    | yes more ↦ elim (Bool-cases s.shared.should_run) [
      | inl on ↦ let f = (oldest v.waiting refl on more).gets in absurd (cc)
      | inr off ↦
          let f = take_job-done s.shared job more off in
          let same : record {
            should_run = s.shared.should_run;
            url_count = s.shared.url_count - 1;
            queue = s.shared.queue;
          }
              ≡ shared =
            cc in
          subst (λ k. Sound n (record s { shared = k; left = s.left + 1 })) same
            (left-Sound few more off)
    ]
  ]
