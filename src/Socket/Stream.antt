-- ===== src/Socket/Stream.antt =====
-- The callbacks one after another, against the lines of the whole stream.
use easyforetell.Prelude.{
  concat, ℕ, suc, ◌+◌, ◌≤◌, ◌<◌, ◌≡◌, ◌⊎◌, refl, sym, ap, ◌∙◌, List, [], ◌∷◌, ◌++◌, Option, some,
  arith, length, length-append, append_assoc, append-nil, subst, ltb, lt→ltb, inl, inr, ◌>>=◌,
  if◌then◌else◌,
}
use native.Mathlib.Numerals.{add-one}
use easyforetell.Memory.{Bytes}
use easyforetell.Memory.Laws.{IsText}
use easyforetell.Queue.{buffer_size}
use easyforetell.Socket.{State, bytes, socket_cb}
use easyforetell.Socket.Lines.{
  split_lines, join_lines, nil-join_lines, split_lines-append, split_lines-step, split_lines-rest,
}
use easyforetell.Socket.Parse.{Took, FitsCache, deliver}
use easyforetell.Socket.Callback.{Idle, socket_cb_lem}

-- `socket_cb` for each text that `read` returns, with no worker in between.
unfoldable pub callbacks : ℕ → State → List Bytes → Option State
callbacks workers_count st [] = some st
callbacks workers_count st (d ∷ ds) = do
  st' ← socket_cb workers_count st (bytes d)
  callbacks workers_count st' ds

abbrev NonEmpty : List Bytes → Type 0
NonEmpty [] = ⊥
NonEmpty (l ∷ ls) = Unit {0}

-- Each read text has a newline, or comes when nothing is cached; and its first line fits the cache
-- buffer behind what is cached.
abbrev pub IsWellCut : Bytes → List Bytes → Type 0
IsWellCut c [] = Unit {0}
IsWellCut c (d ∷ ds) =
    IsText d
    × (length d < buffer_size)
    × FitsCache c d
    × (NonEmpty (split_lines d).0 ⊎ (c ≡ []))
    × IsWellCut (split_lines (c ++ d)).1 ds

-- With room for all lines `deliver` takes them all, the first behind what was cached.
deliver_all :
    (capacity : ℕ) (ts ls : List Bytes) (rest c : Bytes)
    → NonEmpty ls ⊎ (c ≡ [])
    → length ts + length (join_lines ([], c) (ls, rest)).0 ≤ capacity
    → deliver capacity ts ls rest c ≡ record {
      texts = ts ++ (join_lines ([], c) (ls, rest)).0;
      taken = length (join_lines ([], c) (ls, rest)).0;
      cached = (join_lines ([], c) (ls, rest)).1;
    }
unfolding deliver join_lines
deliver_all capacity ts [] rest c (inl bad) room = absurd bad
deliver_all capacity ts [] rest c (inr blank) room =
    rw (blank, append-nil ts) (λ i. record { texts = ts; taken = 0; cached = last rest i })
  where
    last : (r : Bytes) → (if ltb 0 (length r) then r else []) ≡ r
    last [] = refl
    last (x ∷ r) = rw (lt→ltb 0 (suc (length r)) (omega arith))
deliver_all capacity ts (l ∷ ls) rest c h room =
    let ts' = ts ++ (c ++ l) ∷ [] in
    let ih =
      deliver_all capacity ts' ls rest [] (inr refl)
        (rw (← nil-join_lines (ls, rest)) (omega (arith, length-append ts ((c ++ l) ∷ []))))
      ∙ ap
          (λ (j : List Bytes × Bytes). record {
            texts = ts' ++ j.0;
            taken = length j.0;
            cached = j.1;
          })
          (sym (nil-join_lines (ls, rest))) in
    rw (lt→ltb (length ts) capacity (omega arith), ih)
      (λ i. record {
        texts = append_assoc ts ((c ++ l) ∷ []) ls i;
        taken = add-one (length ls) i;
        cached = rest;
      })

module _ (workers_count : ℕ) where
  -- One callback adds the lines that it completes, and caches the text behind the last newline.
  next_callback :
      {st : State} {c : Bytes} {ts : List Bytes} (d : Bytes)
      → Idle st c ts
      → split_lines c ≡ ([], c)
      → IsText d
      → length d < buffer_size
      → FitsCache c d
      → NonEmpty (split_lines d).0 ⊎ (c ≡ [])
      → length ts + length (split_lines (c ++ d)).0 ≤ st.1.queue.capacity
      → (st' : State) × (socket_cb workers_count st (bytes d) ≡ some st')
        × Idle st' (split_lines (c ++ d)).1 (ts ++ (split_lines (c ++ d)).0)
        × (st'.1.url_count ≡ st.1.url_count + length (split_lines (c ++ d)).0)
        × (st'.1.queue.capacity ≡ st.1.queue.capacity)
  next_callback {st} {c} {ts} d v clean hd short fits cut room =
      let joined : split_lines (c ++ d) ≡ join_lines ([], c) (split_lines d) =
        split_lines-append c d ∙ ap (λ k. join_lines k (split_lines d)) clean in
      let out =
        deliver_all st.1.queue.capacity ts (split_lines d).0 (split_lines d).1 c cut
          (rw joined at room) in
      let got =
        subst (Took st ts (socket_cb workers_count st (bytes d))) out
          (socket_cb_lem workers_count d v hd short fits) in
      rw joined (
        got.after,
        got.runs,
        record {
          read_size = got.read_size;
          cache = got.cache;
          cache_size = got.cache_size;
          queue = got.queue;
          running = got.running ∙ v.running;
        },
        got.counted,
        got.capacity,
      )

-- The state after some callbacks: the lines `out.0` are in the queue, the text `out.1` is cached.
pub record Streamed (st : State) (ts : List Bytes) (out : List Bytes × Bytes) (o : Option State)
    : Type 0 where
  pub after : State
  pub runs : o ≡ some after
  pub idle : Idle after out.1 (ts ++ out.0)
  pub counted : after.1.url_count ≡ st.1.url_count + length out.0

module _ (workers_count : ℕ) where
  -- Take a running socket worker between two callbacks, with a cached text that has no newline,
  -- and a sequence of texts without NUL bytes that `read` returns, each of fewer than BUFFER_SIZE
  -- bytes. Suppose that each has a newline or comes when nothing is cached, that its first line
  -- with its newline and the cached text are together shorter than BUFFER_SIZE, and that the
  -- queue has room for all lines of the cached text and the stream. Then the callbacks, with no
  -- worker in between, end without an access outside a buffer, the queue holds the lines of the
  -- whole stream in order behind what it held, `url_count` has grown by their number, and the
  -- text behind the last newline is cached.
  pub callbacks_stream :
      {st : State} {c : Bytes} {ts : List Bytes} (ds : List Bytes)
      → Idle st c ts
      → split_lines c ≡ ([], c)
      → IsWellCut c ds
      → length ts + length (split_lines (c ++ concat ds)).0 ≤ st.1.queue.capacity
      → Streamed st ts (split_lines (c ++ concat ds)) (callbacks workers_count st ds)
  unfolding callbacks
  callbacks_stream {st} {c} {ts} [] v clean cut room =
      subst (λ out. Streamed st ts out (some st)) (sym (ap split_lines (append-nil c) ∙ clean))
        (record {
          after = st;
          runs = refl;
          idle = subst (Idle st c) (sym (append-nil ts)) v;
          counted = omega arith;
        })
  callbacks_stream {st} {c} {ts} (d ∷ ds) v clean (hd, short, fits, nl, cut) room =
      let now = (split_lines (c ++ d)).0 in
      let later = split_lines ((split_lines (c ++ d)).1 ++ concat ds) in
      let whole : split_lines (c ++ (d ++ concat ds)) ≡ (now ++ later.0, later.1) =
        ap split_lines (sym (append_assoc c d (concat ds)))
        ∙ split_lines-step (c ++ d) (concat ds) in
      let count : length (split_lines (c ++ (d ++ concat ds))).0 ≡ length now + length later.0 =
        ap (λ (k : List Bytes × Bytes). length k.0) whole ∙ length-append now later.0 in
      let (st', e, v', n, same) =
        next_callback workers_count d v clean hd short fits nl (omega arith) in
      let rec =
        callbacks_stream {st = st'} ds v' (split_lines-rest (c ++ d)) cut
          (omega (arith, same, length-append ts now)) in
      subst (λ out. Streamed st ts out (callbacks workers_count st (d ∷ ds))) (sym whole)
        (record {
          after = rec.after;
          runs = rw e rec.runs;
          idle = subst (Idle rec.after later.1) (append_assoc ts now later.0) rec.idle;
          counted = omega (arith, n, rec.counted, length-append now later.0);
        })
