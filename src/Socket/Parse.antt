-- ===== src/Socket/Parse.antt =====
-- `socket_cb` hands over the lines of the stream, one callback after another.
use easyforetell.Prelude.{
  ℕ, zero, suc, ◌+◌, ◌<◌, ◌≡◌, refl, sym, ap, ◌∙◌, List, [], ◌∷◌, ◌++◌, Option, none, some, arith,
  length, length-append, subst, ltb, lt→ltb, not_lt→ltb, if◌then◌else◌,
}
use native.Mathlib.Decide.{dec_lt}
use easyforetell.Memory.{Bytes, index_of}
use easyforetell.Memory.Laws.{
  Holds, strlen-Holds, length-Holds, strcpy_front, strchr-Holds, index_of-lt,
}
use easyforetell.Queue.{buffer_size}
use easyforetell.Queue.Ring.{Holding}
use easyforetell.Socket.{Shared, State, rounds, keep_rest, take_lines}
use easyforetell.Socket.Handed.{Hands, stops, refuses, stores}
use easyforetell.Socket.Lines.{split_lines, first_line, no_line}
use easyforetell.Socket.Texts.{Ready}
use easyforetell.Socket.Rounds.{round-Stored, round_refused, round_call}

pub record Delivery : Type 0 where
  pub texts : List Bytes
  pub taken : ℕ
  pub cached : Bytes

-- What becomes of the lines of a text and of the text behind them, where `c` is cached: the queue,
-- how many lines it took, and what is cached next. The first line that finds the queue full ends
-- it. A text with no newline replaces what was cached.
unfoldable pub deliver : ℕ → List Bytes → List Bytes → Bytes → Bytes → Delivery
deliver capacity ts [] rest c = record {
  texts = ts;
  taken = 0;
  cached = if ltb 0 (length rest) then rest else c;
}
deliver capacity ts (l ∷ ls) rest c =
    let more = deliver capacity (ts ++ (c ++ l) ∷ []) ls rest [] in
    if ltb (length ts) capacity
    then record more { taken = more.taken + 1 }
    else record { texts = ts; taken = 0; cached = [] }

pub record Took (st : State) (ts : List Bytes) (o : Option State) (out : Delivery) : Type 0 where
  pub after : State
  pub runs : o ≡ some after
  pub read_size : length after.0.read_buffer ≡ buffer_size
  pub cache : Holds after.0.cache_buffer out.cached
  pub cache_size : length after.0.cache_buffer ≡ buffer_size
  pub queue : Holding after.1.queue out.texts
  pub counted : after.1.url_count ≡ st.1.url_count + out.taken
  pub capacity : after.1.queue.capacity ≡ st.1.queue.capacity
  pub running : after.1.should_run ≡ st.1.should_run
  pub handed : Hands st.1 ts after.1 out.texts

keep_rest_lem :
    {st : State} {r c : Bytes} {ts : List Bytes}
    → Ready st r c ts
    → Took st ts (keep_rest st) (deliver st.1.queue.capacity ts [] r c)
unfolding keep_rest deliver
keep_rest_lem {st} {r} {c} {ts} v = elim (dec_lt 0 (length r)) [
  | yes some_left ↦
      let (b, w, held, n) =
        strcpy_front st.0.cache_buffer v.read
          (omega (arith, length-Holds v.read, v.read_size, v.cache_size)) in
      let kept = lt→ltb 0 (length r) some_left in
      record {
        after = (
          record {
            read_buffer = st.0.read_buffer;
            cache_buffer = b;
            looping = st.0.looping;
            linked = st.0.linked;
          },
          st.1,
        );
        runs = rw (strlen-Holds v.read, kept, w);
        read_size = v.read_size;
        cache = rw kept held;
        cache_size = n ∙ v.cache_size;
        queue = v.queue;
        counted = omega arith;
        capacity = refl;
        running = refl;
        handed = stops;
      }
  | no none_left ↦
      let empty = not_lt→ltb 0 (length r) (omega arith) in
      record {
        after = st;
        runs = rw (strlen-Holds v.read, empty);
        read_size = v.read_size;
        cache = rw empty v.cache;
        cache_size = v.cache_size;
        queue = v.queue;
        counted = omega arith;
        capacity = refl;
        running = refl;
        handed = stops;
      }
]

-- No line, with what is cached before the first, fills the cache buffer.
abbrev pub FitsCache : Bytes → Bytes → Type 0
FitsCache c r = (i : ℕ) → index_of b'\n' r ≡ some i → length c + i + 1 < buffer_size

-- The loop, with more fuel than bytes in the read buffer, delivers its lines.
rounds_lem :
    (fuel : ℕ) (st : State) (r c : Bytes) (ts : List Bytes) (found : Option ℕ)
    → index_of b'\n' r ≡ found
    → Ready st r c ts
    → length r < fuel
    → FitsCache c r
    → Took st ts
        (rounds fuel st found)
        (deliver st.1.queue.capacity ts (split_lines r).0 (split_lines r).1 c)
unfolding rounds deliver
rounds_lem fuel st r c ts none e v enough fits = rw (no_line r e) (keep_rest_lem v)
rounds_lem zero st r c ts (some i) e v enough fits = absurd (omega arith)
rounds_lem (suc fuel) st r c ts (some i) e v enough fits =
    let l = first_line r i e in
    let room : length c + length l.line + 1 < buffer_size = omega (arith, fits i e, l.place) in
    elim (dec_lt (length ts) st.1.queue.capacity) [
      | yes space ↦
          let k = round-Stored v l room space in
          let len : length r ≡ length l.line + 1 + length l.rest =
            ap length l.shape ∙ omega (arith, length-append l.line (b'\n' ∷ l.rest)) in
          let short : length r < buffer_size = omega (arith, length-Holds v.read, v.read_size) in
          let ts' = ts ++ (c ++ l.line) ∷ [] in
          let rec =
            subst
              (λ n.
                Took k.after ts' (rounds fuel k.after (index_of b'\n' l.rest))
                  (deliver n ts' (split_lines l.rest).0 (split_lines l.rest).1 []))
              k.capacity
              (rounds_lem fuel k.after l.rest [] ts' (index_of b'\n' l.rest) refl k.ready
                (omega arith) λ j f. omega (arith, index_of-lt b'\n' l.rest f)) in
          let out =
            deliver st.1.queue.capacity ts' (split_lines l.rest).0 (split_lines l.rest).1 [] in
          let renamed : k.after.1 ≡ record {
            should_run = st.1.should_run;
            url_count = st.1.url_count + 1;
            queue = k.after.1.queue;
          } =
            λ n. record {
              should_run = k.running n;
              url_count = k.counted n;
              queue = k.after.1.queue;
            } in
          rw (k.runs, l.lines, lt→ltb (length ts) st.1.queue.capacity space)
            (record {
              after = rec.after;
              runs = rec.runs;
              read_size = rec.read_size;
              cache = rec.cache;
              cache_size = rec.cache_size;
              queue = rec.queue;
              counted = omega (arith, rec.counted, k.counted);
              capacity = rec.capacity ∙ k.capacity;
              running = rec.running ∙ k.running;
              handed =
                  stores k.cut (c ++ l.line) k.after.1.queue k.text
                    (omega (arith, length-append c l.line)) k.enqueued
                    (subst (λ h. Hands h ts' rec.after.1 out.texts) renamed rec.handed);
            })
      | no full ↦
          let (st', w, ready, same) =
            round_refused v l room (omega (arith, v.queue.fits, v.queue.counted)) in
          rw (w, l.lines, not_lt→ltb (length ts) st.1.queue.capacity (omega arith))
            (record {
              after = st';
              runs = refl;
              read_size = ready.read_size;
              cache = ready.cache;
              cache_size = ready.cache_size;
              queue = ready.queue;
              counted = ap (λ (s : Shared). s.url_count) same ∙ omega arith;
              capacity = ap (λ (s : Shared). s.queue.capacity) same;
              running = ap (λ (s : Shared). s.should_run) same;
              handed =
                  let (cut, text, e) =
                    round_call v l room (omega (arith, v.queue.fits, v.queue.counted)) in
                  subst (λ k. Hands st.1 ts k ts) (sym same)
                    (refuses cut (c ++ l.line) text (omega (arith, length-append c l.line)) e);
            })
    ]

-- `socket_cb` on a text that was read, where the first line fits behind what is cached: it always
-- ends, with no memory fault, and does what `deliver` says of the text's lines.
pub take_lines_lem :
    {st : State} {r c : Bytes} {ts : List Bytes}
    → Ready st r c ts
    → FitsCache c r
    → Took st ts
        (take_lines st)
        (deliver st.1.queue.capacity ts (split_lines r).0 (split_lines r).1 c)
unfolding take_lines
take_lines_lem {st} {r} {c} {ts} v fits = rw (strchr-Holds b'\n' v.read) (
    rounds_lem buffer_size st r c ts (index_of b'\n' r) refl v
      (omega (arith, length-Holds v.read, v.read_size)) fits)
