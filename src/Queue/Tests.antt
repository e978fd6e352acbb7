-- ===== src/Queue/Tests.antt =====
-- The queue at work, and the theorems at inputs that meet their hypotheses.
use easyforetell.Prelude.{ℕ, ◌≡◌, refl, ◌++◌, [], ◌∷◌, some, none, List, replicate, arith}
use easyforetell.Memory.{Bytes, codes, strlen, read_at, write_at}
use easyforetell.Memory.Laws.{Holds-text}
use easyforetell.Queue.{fifo_init, blocks, fifo_enqueue, fifo_dequeue, copy_text}
use easyforetell.Queue.Fifo.{Request, put, get, accepted, full, got, serve}
use easyforetell.Queue.Ring.{fifo_enqueue-overflows}
use easyforetell.Queue.Run.{run, run-fifo_init, fifo_init-Holding}

abbrev block : ℕ → Bytes
block i = replicate 255 0

abbrev job : Bytes
job = replicate 255 0

abbrev script : List Request
script = put (codes "a") ∷ put (codes "b") ∷ put (codes "c") ∷ get ∷ get ∷ get ∷ []

-- The third line is refused, and the third `get` finds the queue empty.
script_runs :
    run (fifo_init block 2) job script
    ≡ some (accepted ∷ accepted ∷ full ∷ got (codes "a") ∷ got (codes "b") ∷ got (codes "b") ∷ [])
unfolding run fifo_init blocks fifo_enqueue fifo_dequeue copy_text strlen read_at write_at
script_runs = refl

run-fifo_init_example : run (fifo_init block 2) job script ≡ some (serve 2 [] [] script)
run-fifo_init_example =
    run-fifo_init block 2 job {last = []} script (λ i. refl) (omega arith)
      (Holds-text [] (replicate 254 0) tt) refl (omega arith)

-- A line of 300 bytes.
abbrev long : Bytes
long = replicate 300 b'x'

fifo_enqueue-overflows_example : fifo_enqueue (fifo_init block 2) (long ++ 0 ∷ []) ≡ none
unfolding fifo_init
fifo_enqueue-overflows_example =
    fifo_enqueue-overflows (fifo_init-Holding block 2 (λ i. refl) (omega arith))
      (Holds-text long [] (omega arith)) (omega arith) (omega arith)
