-- ===== src/Socket/Limits.antt =====
-- Where `socket_cb` loses input, and where it leaves its buffers.
use easyforetell.Prelude.{
  ℕ, ◌+◌, ◌<◌, ◌≡◌, sym, ap, ◌∙◌, List, [], Option, none, some, arith, length, lt→ltb,
}
use easyforetell.Memory.{Bytes, index_of}
use easyforetell.Memory.Laws.{IsText, strchr-Holds}
use easyforetell.Queue.{buffer_size}
use easyforetell.Socket.{Shared, State, bytes, socket_cb, rounds, take_lines}
use easyforetell.Socket.Lines.{no_line, first_line}
use easyforetell.Socket.Rounds.{round_too_long, round_overflows}
use easyforetell.Socket.Parse.{deliver}
use easyforetell.Socket.Callback.{Idle, socket_cb_lem, socket_cb_filled}

-- If a running socket worker reads a text without NUL bytes and without a newline, not empty and
-- shorter than BUFFER_SIZE, the text replaces what was cached instead of being appended to it;
-- the queue and `url_count` stay as they are.
pub socket_cb-replaces_cache :
    (workers_count : ℕ) {st : State} {c : Bytes} {ts : List Bytes} (d : Bytes)
    → Idle st c ts
    → IsText d
    → length d < buffer_size
    → 0 < length d
    → index_of b'\n' d ≡ none
    → (st' : State) × (socket_cb workers_count st (bytes d) ≡ some st')
      × Idle st' d ts
      × (st'.1.url_count ≡ st.1.url_count)
unfolding deliver
socket_cb-replaces_cache workers_count {st} {c} d v hd short more e =
    let got = socket_cb_lem workers_count d v hd short λ i f. absurd (none-ne-some (sym e ∙ f)) in
    let cut = rw (no_line d e, lt→ltb 0 (length d) more) at got in
    (
      cut.after,
      cut.runs,
      record {
        read_size = cut.read_size;
        cache = cut.cache;
        cache_size = cut.cache_size;
        queue = cut.queue;
        running = cut.running ∙ v.running;
      },
      cut.counted ∙ omega arith,
    )
  where
    none-ne-some : {i : ℕ} → ◌≡◌ {A = Option ℕ} none (some i) → ⊥
    none-ne-some h = cc

module _ (workers_count : ℕ) {st : State} {c : Bytes} {ts : List Bytes} (d : Bytes) where
  -- If a running socket worker reads a text without NUL bytes, shorter than BUFFER_SIZE, whose
  -- first line with its newline is together with the cached text exactly BUFFER_SIZE bytes long,
  -- the test of the length lets it pass and `socket_cb` writes past the end of the cache buffer.
  pub socket_cb-overflows :
      (i : ℕ)
      → Idle st c ts
      → IsText d
      → length d < buffer_size
      → index_of b'\n' d ≡ some i
      → length c + i + 1 ≡ buffer_size
      → socket_cb workers_count st (bytes d) ≡ none
  unfolding take_lines rounds
  socket_cb-overflows i v hd short e full =
      let (b, run, ready) = socket_cb_filled workers_count d v hd short in
      let l = first_line d i e in
      run
      ∙ rw (strchr-Holds b'\n' ready.read, e)
          (rw (round_overflows ready l (omega (arith, l.place))))

  -- If a running socket worker reads a text without NUL bytes, shorter than BUFFER_SIZE, whose
  -- first line with its newline is together with the cached text longer than BUFFER_SIZE, then
  -- the cached text and everything that was read, later lines too, are dropped; the shared state
  -- stays as it is.
  pub socket_cb-drops :
      (i : ℕ)
      → Idle st c ts
      → IsText d
      → length d < buffer_size
      → index_of b'\n' d ≡ some i
      → buffer_size < length c + i + 1
      → (st' : State) × (socket_cb workers_count st (bytes d) ≡ some st')
        × Idle st' [] ts
        × (st'.1 ≡ st.1)
  unfolding take_lines rounds
  socket_cb-drops i v hd short e over =
      let (b, run, ready) = socket_cb_filled workers_count d v hd short in
      let l = first_line d i e in
      let (st', w, after, same) = round_too_long ready l (omega (arith, l.place)) in
      (
        st',
        run ∙ rw (strchr-Holds b'\n' ready.read, e) (rw w),
        record {
          read_size = after.read_size;
          cache = after.cache;
          cache_size = after.cache_size;
          queue = after.queue;
          running = ap (λ (s : Shared). s.should_run) same ∙ v.running;
        },
        same,
      )
