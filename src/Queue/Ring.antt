-- ===== src/Queue/Ring.antt =====
-- The ring holds the texts of a FIFO, and its operations act on them as on the FIFO.
use easyforetell.Prelude.{
  ℕ, suc, ◌+◌, ◌-◌, ◌%◌, ◌≤◌, ◌<◌, ◌≡◌, ◌≢◌, refl, sym, ap, ◌∙◌, List, [], ◌∷◌, ◌++◌, none, some,
  arith, length, length-append, get_or, set, get_or-set_self, get_or-set_ne, length-set, get_elem?,
  lt→ltb, get_elem?-eq-get_or, subst,
}
use native.Mathlib.Nat.{mod-add-mod, mod-eq_of_lt, add-zero}
use native.Mathlib.Decide.{ℕ_discrete}
use easyforetell.Memory.{Bytes}
use easyforetell.Memory.Laws.{Holds, write_text, strlen-Holds, read_at-text, write_at-faults}
use easyforetell.Queue.{Queue, copy_text, buffer_size, fifo_enqueue, fifo_dequeue, stored, refused}

-- The blocks from index `e` on, going round at `cap`, hold these texts.
abbrev pub Window : List Bytes → ℕ → ℕ → List Bytes → Type 0
Window buf cap e [] = Unit {0}
Window buf cap e (t ∷ ts) = Holds (get_or buf e []) t × Window buf cap ((e + 1) % cap) ts

pub record Holding (q : Queue) (ts : List Bytes) : Type 0 where
  pub size : length q.buffer ≡ q.capacity
  pub block_size : (i : ℕ) → i < q.capacity → length (get_or q.buffer i []) ≡ buffer_size
  pub begin_in : q.begin < q.capacity
  pub end_in : q.end < q.capacity
  pub counted : q.occupied ≡ length ts
  pub fits : q.occupied ≤ q.capacity
  pub joins : q.begin ≡ (q.end + q.occupied) % q.capacity
  pub texts : Window q.buffer q.capacity q.end ts

-- A slot that lies `k` places on, short of a whole round, is another slot.
other_slot : (cap e k : ℕ) → e < cap → 0 < k → k < cap → (e + k) % cap ≢ e
other_slot cap e k he hk kc = grind arith

-- Writing just past a window extends it.
Window-set :
    (buf : List Bytes) (cap : ℕ) (b t : Bytes) (ts : List Bytes) (e i : ℕ)
    → length buf ≡ cap
    → e < cap
    → length ts < cap
    → i ≡ (e + length ts) % cap
    → Holds b t
    → Window buf cap e ts
    → Window (set buf i b) cap e (ts ++ t ∷ [])
Window-set buf cap b t [] e i n he ht j h w =
    let here : i ≡ e = rw (j, add-zero) (mod-eq_of_lt he) in
    (subst (λ c. Holds c t) (sym (rw here (get_or-set_self buf e b [] (omega arith)))) h, tt)
Window-set buf cap b t (u ∷ ts) e i n he ht j h w = (
  subst (λ c. Holds c u)
      (sym (get_or-set_ne buf b [] (rw j (other_slot cap e (suc (length ts)) he (omega arith) ht))))
      w.0,
  Window-set buf cap b t ts ((e + 1) % cap) i n (omega arith) (omega arith) (j ∙ shift) h w.1,
)
  where
    shift : (e + suc (length ts)) % cap ≡ ((e + 1) % cap + length ts) % cap
    shift = rw mod-add-mod (ap (λ k. k % cap) (omega arith))

copy_text_lem :
    (block : Bytes) {text t : Bytes}
    → Holds text t
    → length t < length block
    → (b : Bytes) × (copy_text block text ≡ some b) × Holds b t × (length b ≡ length block)
unfolding copy_text
copy_text_lem block {text} {t} h fits =
    let (b, e, held, n) = write_text [] block t tt h.is_text fits in
    (b, rw (strlen-Holds h, read_at-text h) e, held, n)

copy_text-faults :
    (block : Bytes) {text t : Bytes}
    → Holds text t
    → length block ≤ length t
    → copy_text block text ≡ none
unfolding copy_text
copy_text-faults block {text} {t} h over =
    rw (strlen-Holds h, read_at-text h)
      (write_at-faults block 0 (t ++ 0 ∷ []) (omega (arith, length-append t (0 ∷ []))))

module _ {q : Queue} {ts : List Bytes} (v : Holding q ts) where
  slot : (i : ℕ) → i < q.capacity → get_elem? q.buffer i ≡ some (get_or q.buffer i [])
  slot i h = get_elem?-eq-get_or q.buffer i [] (omega (arith, v.size))

  abbrev extended : Bytes → Queue
  extended b = record q {
    buffer = set q.buffer q.begin b;
    occupied = q.occupied + 1;
    begin = (q.begin + 1) % q.capacity;
  }

  block_size-set :
      (b : Bytes)
      → length b ≡ buffer_size
      → (i : ℕ) → i < q.capacity
      → length (get_or (set q.buffer q.begin b) i []) ≡ buffer_size
  block_size-set b n i h = elim (ℕ_discrete q.begin i) [
    | yes same ↦
        rw (← same, get_or-set_self q.buffer q.begin b [] (omega (arith, v.size, v.begin_in))) n
    | no other ↦ rw (get_or-set_ne q.buffer b [] other) (v.block_size i h)
  ]

  extended-Holding :
      (b : Bytes) {t : Bytes}
      → Holds b t
      → length b ≡ buffer_size
      → length ts < q.capacity
      → Holding (extended b) (ts ++ t ∷ [])
  extended-Holding b {t} h n room = record {
    size = length-set q.buffer q.begin b ∙ v.size;
    block_size = block_size-set b n;
    begin_in = omega (arith, v.begin_in);
    end_in = v.end_in;
    counted = omega (arith, v.counted, length-append ts (t ∷ []));
    fits = omega (arith, v.counted);
    joins = rw (v.joins, mod-add-mod) (ap (λ k. k % q.capacity) (omega arith));
    texts =
        Window-set q.buffer q.capacity b t ts q.end q.begin v.size v.end_in room
          (v.joins ∙ ap (λ k. (q.end + k) % q.capacity) v.counted) h v.texts;
  }

  -- A text that fits a block goes behind the others while there is room.
  pub fifo_enqueue-stored :
      {e t : Bytes}
      → Holds e t
      → length t < buffer_size
      → length ts < q.capacity
      → (q' : Queue) × (fifo_enqueue q e ≡ some (q', stored))
        × Holding q' (ts ++ t ∷ [])
        × (q'.capacity ≡ q.capacity)
  unfolding fifo_enqueue
  fifo_enqueue-stored h short room =
      let block = get_or q.buffer q.begin [] in
      let size : length block ≡ buffer_size = v.block_size q.begin v.begin_in in
      let (b, c, held, n) = copy_text_lem block h (omega (arith, size)) in
      (
        extended b,
        rw (lt→ltb q.occupied q.capacity (omega (arith, v.counted)), slot q.begin v.begin_in, c),
        extended-Holding b held (n ∙ size) room,
        refl,
      )

  -- A full queue refuses, and stays as it is.
  pub fifo_enqueue-refused :
      (e : Bytes) → length ts ≡ q.capacity → fifo_enqueue q e ≡ some (q, refused)
  unfolding fifo_enqueue
  fifo_enqueue-refused e full = ground (arith, v.counted)

  -- On a queue that is not full, `fifo_enqueue` of a text of BUFFER_SIZE bytes or more writes
  -- past the end of a block.
  pub fifo_enqueue-overflows :
      {e t : Bytes}
      → Holds e t
      → buffer_size ≤ length t
      → length ts < q.capacity
      → fifo_enqueue q e ≡ none
  unfolding fifo_enqueue
  fifo_enqueue-overflows h long room = rw (
    lt→ltb q.occupied q.capacity (omega (arith, v.counted)),
    slot q.begin v.begin_in,
    copy_text-faults (get_or q.buffer q.begin []) h
        (omega (arith, v.block_size q.begin v.begin_in)),
  )

-- An empty queue leaves the caller's buffer as it was.
pub fifo_dequeue-empty :
    {q : Queue} (next : Bytes) → Holding q [] → fifo_dequeue q next ≡ some (q, next)
unfolding fifo_dequeue
fifo_dequeue-empty next v = ground (arith, v.counted)

-- Otherwise the oldest text is copied out and leaves the queue.
pub fifo_dequeue-oldest :
    {q : Queue} {t : Bytes} {ts : List Bytes} (next : Bytes)
    → Holding q (t ∷ ts)
    → length t < length next
    → (q' : Queue) × (next' : Bytes) × (fifo_dequeue q next ≡ some (q', next'))
      × Holding q' ts
      × Holds next' t
      × (length next' ≡ length next)
      × (q'.capacity ≡ q.capacity)
unfolding fifo_dequeue
fifo_dequeue-oldest {q} {t} {ts} next v room =
    let (b, c, held, n) = copy_text_lem next v.texts.0 room in
    (
      record q { end = (q.end + 1) % q.capacity; occupied = q.occupied - 1 },
      b,
      rw (lt→ltb 0 q.occupied (omega (arith, v.counted)), slot v q.end v.end_in, c),
      record {
        size = v.size;
        block_size = v.block_size;
        begin_in = v.begin_in;
        end_in = omega (arith, v.end_in);
        counted = omega (arith, v.counted);
        fits = omega (arith, v.fits);
        joins = v.joins ∙ rw mod-add-mod (ap (λ k. k % q.capacity) (omega (arith, v.counted)));
        texts = v.texts.1;
      },
      held,
      n,
      refl,
    )
