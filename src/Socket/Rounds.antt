-- ===== src/Socket/Rounds.antt =====
-- One round of the loop of `socket_cb` on a line, on each of its branches.
use easyforetell.Prelude.{
  ℕ, ◌+◌, ◌-◌, ◌<◌, ◌≡◌, refl, sym, List, [], ◌∷◌, ◌++◌, Option, none, some, arith, length,
  length-append, lt→ltb, not_lt→ltb,
}
use easyforetell.Memory.{Bytes, index_of}
use easyforetell.Memory.Laws.{Holds}
use easyforetell.Queue.{buffer_size, stored, refused, fifo_enqueue}
use easyforetell.Queue.Ring.{fifo_enqueue-stored, fifo_enqueue-refused}
use easyforetell.Socket.{State, Round, returned, again, queued, round}
use easyforetell.Socket.Lines.{FirstLine}
use easyforetell.Socket.Buffers.{clear_lem, strncat-overflows, restore_lem}
use easyforetell.Socket.Texts.{
  Ready, text_read, size_of, whole, rest, cached, line_lem, fits_test, whole_length, rest_length,
}

-- What a round does when the line is stored.
pub record Stored (st : State) (r line : Bytes) (ts : List Bytes) (o : Option Round) : Type 0 where
  pub after : State
  pub runs : o ≡ some (again after (index_of b'\n' r))
  pub ready : Ready after r [] (ts ++ line ∷ [])
  pub counted : after.1.url_count ≡ st.1.url_count + 1
  pub capacity : after.1.queue.capacity ≡ st.1.queue.capacity
  pub running : after.1.should_run ≡ st.1.should_run
  -- The call of `fifo_enqueue`
  pub cut : Bytes
  pub text : Holds cut line
  pub enqueued : fifo_enqueue st.1.queue cut ≡ some (after.1.queue, stored)

module _ {st : State} {r c : Bytes} {ts : List Bytes} (v : Ready st r c ts) {i : ℕ}
    (l : FirstLine r i) where
  pub round-Stored :
      length c + length l.line + 1 < buffer_size
      → length ts < st.1.queue.capacity
      → Stored st l.rest (c ++ l.line) ts (round st i)
  unfolding round queued
  round-Stored room space =
      let k = line_lem v l _ (size_of v l) room in
      let (q, e, vq, same) =
        fifo_enqueue-stored v.queue k.text (omega (arith, length-append c l.line)) space in
      let rs =
        restore_lem l.line l.rest (text_read v l) v.read_size i _ (sym l.place) (size_of v l) in
      let (cache, w, held, n) = clear_lem k.cut k.size in
      record {
        after = (
          record {
            read_buffer = rs.read;
            cache_buffer = cache;
            looping = st.0.looping;
            linked = st.0.linked;
          },
          record { should_run = st.1.should_run; url_count = st.1.url_count + 1; queue = q },
        );
        runs = rw (
          whole v l,
          rest v l,
          cached v l,
          fits_test v l _ (size_of v l) room,
          k.joins,
          k.measured,
          k.cuts,
          e,
          rs.runs,
          w,
        );
        ready = record {
          read = rs.text;
          read_size = rs.size;
          cache = held;
          cache_size = n;
          queue = vq;
        };
        counted = refl;
        capacity = same;
        running = refl;
        cut = k.cut;
        text = k.text;
        enqueued = e;
      }

  -- The call that finds the queue full.
  pub round_call :
      length c + length l.line + 1 < buffer_size
      → length ts ≡ st.1.queue.capacity
      → (cut : Bytes) × Holds cut (c ++ l.line)
        × (fifo_enqueue st.1.queue cut ≡ some (st.1.queue, refused))
  round_call room full =
      let k = line_lem v l _ (size_of v l) room in
      (k.cut, k.text, fifo_enqueue-refused v.queue k.cut full)

  -- A full queue ends the callback: the cache buffer is cleared, the rest of the input dropped.
  pub round_refused :
      length c + length l.line + 1 < buffer_size
      → length ts ≡ st.1.queue.capacity
      → (st' : State) × (round st i ≡ some (returned st')) × Ready st' r [] ts × (st'.1 ≡ st.1)
  unfolding round queued
  round_refused room full =
      let k = line_lem v l _ (size_of v l) room in
      let (cache, w, held, n) = clear_lem k.cut k.size in
      (
        (
          record {
            read_buffer = st.0.read_buffer;
            cache_buffer = cache;
            looping = st.0.looping;
            linked = st.0.linked;
          },
          st.1,
        ),
        rw (
          whole v l,
          rest v l,
          cached v l,
          fits_test v l _ (size_of v l) room,
          k.joins,
          k.measured,
          k.cuts,
          fifo_enqueue-refused v.queue k.cut full,
          w,
        ),
        record {
          read = v.read;
          read_size = v.read_size;
          cache = held;
          cache_size = n;
          queue = v.queue;
        },
        refl,
      )

  -- A line too long for the cache buffer is dropped with what was cached and what follows it.
  pub round_too_long :
      buffer_size < length c + length l.line + 1
      → (st' : State) × (round st i ≡ some (returned st')) × Ready st' r [] ts × (st'.1 ≡ st.1)
  unfolding round
  round_too_long over =
      let (cache, w, held, n) = clear_lem st.0.cache_buffer v.cache_size in
      (
        (
          record {
            read_buffer = st.0.read_buffer;
            cache_buffer = cache;
            looping = st.0.looping;
            linked = st.0.linked;
          },
          st.1,
        ),
        rw (
          whole v l,
          rest v l,
          cached v l,
          lt→ltb buffer_size (length c + (whole_length v l - rest_length v l + 1))
              (omega (arith, size_of v l)),
          w,
        ),
        record {
          read = v.read;
          read_size = v.read_size;
          cache = held;
          cache_size = n;
          queue = v.queue;
        },
        refl,
      )

  -- A line that fills the cache buffer passes the test, and the NUL behind it is written past the
  -- end of the buffer.
  pub round_overflows : length c + length l.line + 1 ≡ buffer_size → round st i ≡ none
  unfolding round
  round_overflows full = rw (
    whole v l,
    rest v l,
    cached v l,
    not_lt→ltb buffer_size (length c + (whole_length v l - rest_length v l + 1))
        (omega (arith, size_of v l)),
    strncat-overflows v.cache l.line l.rest (text_read v l).is_text _ (text_read v l) (size_of v l)
        (omega (arith, v.cache_size, size_of v l)),
  )
