-- ===== src/Queue/Run.antt =====
-- Sequences of calls on the ring, from `fifo_init` on, against the specification.
use easyforetell.Prelude.{
  ℕ, zero, suc, ◌+◌, ◌<◌, ◌≡◌, refl, sym, ap, ◌∙◌, List, [], ◌∷◌, ◌++◌, some, arith, length, get_or,
  Option, ◌>>=◌, lt→ltb, not_lt→ltb,
}
use native.Mathlib.Decide.{dec_lt}
use native.Mathlib.Nat.{mod-eq_of_lt}
use easyforetell.Memory.{Bytes, c_str}
use easyforetell.Memory.Laws.{Holds, IsText, Holds-text, Holds-c_str}
use easyforetell.Queue.{
  Queue, buffer_size, Res, stored, refused, fifo_enqueue, fifo_dequeue, fifo_init, blocks,
}
use easyforetell.Queue.Fifo.{Request, put, get, Reply, accepted, full, got, serve}
use easyforetell.Queue.Ring.{
  Holding, fifo_enqueue-stored, fifo_enqueue-refused, fifo_dequeue-empty, fifo_dequeue-oldest,
}

abbrev pub reply : Res → Reply
reply stored = accepted
reply refused = full

-- A writer that offers texts and a reader that takes each into the buffer `job`.
unfoldable pub run : Queue → Bytes → List Request → Option (List Reply)
run q job [] = some []
run q job (put t ∷ rs) = do
  (q', r) ← fifo_enqueue q (t ++ 0 ∷ [])
  rest ← run q' job rs
  some (reply r ∷ rest)
run q job (get ∷ rs) = do
  (q', job') ← fifo_dequeue q job
  t ← c_str job'
  rest ← run q' job' rs
  some (got t ∷ rest)

-- The texts fit the blocks of the queue.
abbrev pub AllFit : List Request → Type 0
AllFit [] = Unit {0}
AllFit (put t ∷ rs) = IsText t × (length t < buffer_size) × AllFit rs
AllFit (get ∷ rs) = AllFit rs

abbrev Short : List Bytes → Type 0
Short [] = Unit {0}
Short (t ∷ ts) = (length t < buffer_size) × Short ts

Short-concat :
    (ts : List Bytes) (t : Bytes) → Short ts → length t < buffer_size → Short (ts ++ t ∷ [])
Short-concat [] t s h = (h, tt)
Short-concat (u ∷ ts) t s h = (s.0, Short-concat ts t s.1 h)

run_refines :
    (rs : List Request) {q : Queue} (job : Bytes) (ts : List Bytes) {last : Bytes}
    → Holding q ts
    → Short ts
    → Holds job last
    → length job ≡ buffer_size
    → AllFit rs
    → run q job rs ≡ some (serve q.capacity ts last rs)
unfolding run serve
run_refines [] job ts v s h n fit = refl
run_refines (put t ∷ rs) {q} job ts v s h n fit = elim (dec_lt (length ts) q.capacity) [
  | yes room ↦
      let (q', e, v', c) = fifo_enqueue-stored v (Holds-text t [] fit.0) fit.1 room in
      rw (
        e,
        run_refines rs job (ts ++ t ∷ []) v' (Short-concat ts t s fit.1) h n fit.2,
        c,
        lt→ltb (length ts) q.capacity room,
      )
  | no over ↦
      let e = fifo_enqueue-refused v (t ++ 0 ∷ []) (omega (arith, v.counted, v.fits)) in
      rw (e, run_refines rs job ts v s h n fit.2, not_lt→ltb (length ts) q.capacity (omega arith))
]
run_refines (get ∷ rs) job [] v s h n fit =
    rw (fifo_dequeue-empty job v, Holds-c_str h, run_refines rs job [] v s h n fit)
run_refines (get ∷ rs) job (t ∷ ts) v s h n fit =
    let (q', job', e, v', h', n', c) = fifo_dequeue-oldest job v (omega (arith, s.0)) in
    rw (e, Holds-c_str h', run_refines rs job' ts v' s.1 h' (n' ∙ n) fit, c)

length-blocks : (block : ℕ → Bytes) (i n : ℕ) → length (blocks block i n) ≡ n
unfolding blocks
length-blocks block i zero = refl
length-blocks block i (suc n) = ap suc (length-blocks block (i + 1) n)

get_or-blocks :
    (block : ℕ → Bytes) (i n j : ℕ) → j < n → get_or (blocks block i n) j [] ≡ block (i + j)
unfolding blocks
get_or-blocks block i zero j h = absurd (omega arith)
get_or-blocks block i (suc n) zero h = ap block (omega arith)
get_or-blocks block i (suc n) (suc j) h =
    get_or-blocks block (i + 1) n j (omega arith) ∙ ap block (omega arith)

-- `fifo_init` makes an empty queue, whatever malloc left in the blocks.
pub fifo_init-Holding :
    (block : ℕ → Bytes) (capacity : ℕ)
    → ((i : ℕ) → length (block i) ≡ buffer_size)
    → 0 < capacity
    → Holding (fifo_init block capacity) []
unfolding fifo_init
fifo_init-Holding block capacity sizes pos = record {
  size = length-blocks block 0 capacity;
  block_size = λ i h. ap length (get_or-blocks block 0 capacity i h) ∙ sizes (0 + i);
  begin_in = pos;
  end_in = pos;
  counted = refl;
  fits = omega arith;
  joins = sym (mod-eq_of_lt pos);
  texts = tt;
}

-- From `fifo_init` with a capacity above 0 and blocks of BUFFER_SIZE bytes with any content,
-- every sequence of enqueues of texts shorter than BUFFER_SIZE and of dequeues into a buffer of
-- BUFFER_SIZE bytes runs without an access outside a buffer and answers as the bounded first-in
-- first-out queue of texts does; a dequeue from the empty queue shows the text that the reader
-- had before.
pub run-fifo_init :
    (block : ℕ → Bytes) (capacity : ℕ) (job : Bytes) {last : Bytes} (rs : List Request)
    → ((i : ℕ) → length (block i) ≡ buffer_size)
    → 0 < capacity
    → Holds job last
    → length job ≡ buffer_size
    → AllFit rs
    → run (fifo_init block capacity) job rs ≡ some (serve capacity [] last rs)
unfolding fifo_init
run-fifo_init block capacity job rs sizes pos h n fit =
    run_refines rs job [] (fifo_init-Holding block capacity sizes pos) tt h n fit
