-- ===== src/System/Invariant.antt =====
-- What holds in every state that the daemon reaches.
use easyforetell.Prelude.{
  ℕ, ◌<◌, ◌≡◌, refl, ap, ◌∙◌, List, [], ◌∷◌, ◌++◌, append_assoc, arith, length, length-append,
}
use easyforetell.Memory.{Bytes}
use easyforetell.Queue.{buffer_size}
use easyforetell.System.{
  System, Step, enter, goes_on, close, accept, refuse, interrupt, interrupt_inside, lock_returns,
  holds_mutex, take, leave, Reach, start, later,
}
use easyforetell.System.Kept.{AllShort, woken, Sound, Sound-init}
use easyforetell.System.Sections.{stored-Holding, refused-Holding}
use easyforetell.System.Workers.{Take-Sound, Leave-Sound}

AllShort-append :
    (ts : List Bytes) (t : Bytes) → AllShort ts → length t < buffer_size → AllShort (ts ++ t ∷ [])
AllShort-append [] t s h = (h, tt)
AllShort-append (u ∷ ts) t s h = (s.0, AllShort-append ts t s.1 h)

pub Step-Sound : {n : ℕ} {s t : System} → Step n s t → Sound n s → Sound n t
Step-Sound (enter a b) v = record {
  waiting = v.waiting;
  holds = v.holds;
  order = v.order;
  short = v.short;
  counted = v.counted;
  workers = v.workers;
  none_left = v.none_left;
  still_loops = v.still_loops;
  closed = λ e. cc;
}
Step-Sound (goes_on a b c) v = record {
  waiting = v.waiting;
  holds = v.holds;
  order = v.order;
  short = v.short;
  counted = v.counted;
  workers = v.workers;
  none_left = v.none_left;
  still_loops = v.still_loops;
  closed = λ e. refl;
}
Step-Sound {s = s} (lock_returns a free) v = let held = ap holds_mutex a in absurd (cc)
Step-Sound {s = s} (interrupt_inside a) v = record {
  waiting = v.waiting;
  holds = v.holds;
  order = v.order;
  short = v.short;
  counted = v.counted;
  workers = v.workers;
  none_left = v.none_left;
  still_loops = v.still_loops;
  closed = λ e. let o = v.closed e in cc;
}
Step-Sound (interrupt a) v = record {
  waiting = v.waiting;
  holds = v.holds;
  order = v.order;
  short = v.short;
  counted = v.counted;
  workers = v.workers;
  none_left = λ e. cc;
  still_loops = λ e. cc;
  closed = v.closed;
}
Step-Sound {n} (close a b c) v = record {
  waiting = v.waiting;
  holds = v.holds;
  order = v.order;
  short = v.short;
  counted = omega (arith, v.counted, ap (woken n) b);
  workers = v.workers;
  none_left = λ e. cc;
  still_loops = λ e. cc;
  closed = λ e. refl;
}
Step-Sound {n} {s} (accept cut line q a b h short e) v = record {
  waiting = v.waiting ++ line ∷ [];
  holds = stored-Holding line v.holds h short e;
  order = ap (λ k. k ++ line ∷ []) v.order ∙ append_assoc s.served v.waiting (line ∷ []);
  short = AllShort-append v.waiting line v.short short;
  counted = omega (arith, v.counted, length-append v.waiting (line ∷ []));
  workers = v.workers;
  none_left = v.none_left;
  still_loops = v.still_loops;
  closed = λ e. refl;
}
Step-Sound (refuse cut line q a b h short e) v = record {
  waiting = v.waiting;
  holds = refused-Holding line v.holds h short e;
  order = v.order;
  short = v.short;
  counted = v.counted;
  workers = v.workers;
  none_left = v.none_left;
  still_loops = v.still_loops;
  closed = λ e. refl;
}
Step-Sound (take job job' line shared a b size e c) v = Take-Sound v job size e c
Step-Sound (leave job shared a b size e) v = Leave-Sound v job size b e

-- In every state that the daemon reaches, with any interleaving of the main thread, the signals
-- and the workers, from a queue of capacity above 0 and blocks of BUFFER_SIZE bytes: the lines
-- that the queue took are those that the workers got, in order, and then those that the queue
-- holds; `url_count` with the workers that have left is the number of lines in the queue and,
-- once the socket worker's loop has ended, `workers_count` more; while the daemon runs no worker
-- has left and the loop runs; and once the loop has ended the main thread is in no critical
-- section.
pub Reach-Sound :
    {n capacity : ℕ} {block : ℕ → Bytes} {s : System}
    → ((i : ℕ) → length (block i) ≡ buffer_size)
    → 0 < capacity
    → Reach n block capacity s
    → Sound n s
Reach-Sound {n} {capacity} {block} sizes pos start = Sound-init n block capacity sizes pos
Reach-Sound sizes pos (later r st) = Step-Sound st (Reach-Sound sizes pos r)
