-- ===== src/System/Kept.antt =====
-- What every state of the daemon keeps.
use easyforetell.Prelude.{
  ℕ, ◌+◌, ◌≤◌, ◌<◌, ◌≡◌, refl, Bool, true, false, List, [], ◌∷◌, ◌++◌, arith, length,
}
use easyforetell.Memory.{Bytes}
use easyforetell.Queue.{buffer_size}
use easyforetell.Queue.Ring.{Holding}
use easyforetell.Queue.Run.{fifo_init-Holding}
use easyforetell.System.{outside, System, init}

abbrev pub AllShort : List Bytes → Type 0
AllShort [] = Unit {0}
AllShort (t ∷ ts) = (length t < buffer_size) × AllShort ts

-- The wake-ups that `close` adds.
abbrev pub woken : ℕ → Bool → ℕ
woken n true = 0
woken n false = n

pub record Sound (n : ℕ) (s : System) : Type 0 where
  -- The queue holds the lines that it took and no worker has got, in order.
  pub waiting : List Bytes
  pub holds : Holding s.shared.queue waiting
  pub order : s.accepted ≡ s.served ++ waiting
  pub short : AllShort waiting
  -- Each line in the queue and each wake-up is counted, but for those that a worker left by.
  pub counted : s.shared.url_count + s.left ≡ length waiting + woken n s.looping
  pub workers : s.left ≤ n
  -- While the daemon runs no worker has left, and the loop of the socket worker runs.
  pub none_left : s.shared.should_run ≡ true → s.left ≡ 0
  pub still_loops : s.shared.should_run ≡ true → s.looping ≡ true
  -- Once its loop has ended the main thread is in no critical section.
  pub closed : s.looping ≡ false → s.main ≡ outside

pub Sound-init :
    (n : ℕ) (block : ℕ → Bytes) (capacity : ℕ)
    → ((i : ℕ) → length (block i) ≡ buffer_size)
    → 0 < capacity
    → Sound n (init block capacity)
unfolding init
Sound-init n block capacity sizes pos = record {
  waiting = [];
  holds = fifo_init-Holding block capacity sizes pos;
  order = refl;
  short = tt;
  counted = omega arith;
  workers = omega arith;
  none_left = λ e. refl;
  still_loops = λ e. refl;
  closed = λ e. refl;
}
