-- ===== src/Socket/Texts.antt =====
-- A line in the buffers of `socket_cb`, and the buffer that it is put together in.
use easyforetell.Prelude.{
  ℕ, ◌+◌, ◌-◌, ◌<◌, ◌≡◌, refl, sym, ap, ◌∙◌, List, [], ◌∷◌, ◌++◌, some, arith, length,
  length-append, append_assoc, subst, ltb, not_lt→ltb, drop, false, drop-append,
}
use easyforetell.Memory.{Bytes, strlen, strncat, write_at}
use easyforetell.Memory.Laws.{IsText-split, Holds, strlen-Holds}
use easyforetell.Queue.{buffer_size}
use easyforetell.Queue.Ring.{Holding}
use easyforetell.Socket.{State}
use easyforetell.Socket.Lines.{FirstLine}
use easyforetell.Socket.Buffers.{strncat_lem, cut_newline}

-- The buffers hold the texts `r` and `c`, and the queue the texts `ts`.
pub record Ready (st : State) (r c : Bytes) (ts : List Bytes) : Type 0 where
  pub read : Holds st.0.read_buffer r
  pub read_size : length st.0.read_buffer ≡ buffer_size
  pub cache : Holds st.0.cache_buffer c
  pub cache_size : length st.0.cache_buffer ≡ buffer_size
  pub queue : Holding st.1.queue ts

module _ {st : State} {r c : Bytes} {ts : List Bytes} (v : Ready st r c ts) {i : ℕ}
    (l : FirstLine r i) where
  pub text_read : Holds st.0.read_buffer (l.line ++ b'\n' ∷ l.rest)
  text_read = subst (Holds st.0.read_buffer) l.shape v.read

  abbrev pub whole_length : ℕ
  whole_length = length (l.line ++ b'\n' ∷ l.rest)

  abbrev pub rest_length : ℕ
  rest_length = length (b'\n' ∷ l.rest)

  pub size_of : whole_length - rest_length + 1 ≡ length l.line + 1
  size_of = omega (arith, length-append l.line (b'\n' ∷ l.rest))

  pub whole : strlen st.0.read_buffer ≡ some whole_length
  whole = strlen-Holds text_read

  -- The text from the newline on.
  from_newline : Holds (drop i st.0.read_buffer) (b'\n' ∷ l.rest)
  from_newline = record {
    rest = text_read.rest;
    shape =
        ap (drop i) (text_read.shape ∙ append_assoc l.line (b'\n' ∷ l.rest) (0 ∷ text_read.rest))
        ∙ drop-append l.line (b'\n' ∷ (l.rest ++ 0 ∷ text_read.rest)) i (sym l.place);
    is_text = (IsText-split l.line (b'\n' ∷ l.rest) text_read.is_text).1;
  }

  pub rest : strlen (drop i st.0.read_buffer) ≡ some rest_length
  rest = strlen-Holds from_newline

  pub cached : strlen st.0.cache_buffer ≡ some (length c)
  cached = strlen-Holds v.cache

  -- The line, with what was cached in front of it, as it goes to the queue.
  pub record Line (m : ℕ) : Type 0 where
    pub joined : Bytes
    pub cut : Bytes
    pub joins : strncat st.0.cache_buffer st.0.read_buffer m ≡ some joined
    pub measured : strlen joined ≡ some (length (c ++ l.line) + 1)
    pub cuts : write_at joined (length (c ++ l.line) + 1 - 1) (0 ∷ []) ≡ some cut
    pub text : Holds cut (c ++ l.line)
    pub size : length cut ≡ buffer_size

  pub line_lem :
      (m : ℕ) → m ≡ length l.line + 1 → length c + length l.line + 1 < buffer_size → Line m
  line_lem m e room =
      let (b, w, held, n) =
        strncat_lem v.cache l.line l.rest text_read.is_text m text_read e
          (omega (arith, v.cache_size)) in
      let held' = subst (Holds b) (sym (append_assoc c l.line (b'\n' ∷ []))) held in
      let (b', w', held'', n') = cut_newline (length (c ++ l.line) + 1) held' refl in
      record {
        joined = b;
        cut = b';
        joins = w;
        measured =
            strlen-Holds held' ∙ ap some (omega (arith, length-append (c ++ l.line) (b'\n' ∷ [])));
        cuts = w';
        text = held'';
        size = n' ∙ n ∙ v.cache_size;
      }

  pub fits_test :
      (m : ℕ)
      → m ≡ length l.line + 1
      → length c + length l.line + 1 < buffer_size
      → ltb buffer_size (length c + m) ≡ false
  fits_test m e room = not_lt→ltb buffer_size (length c + m) (omega arith)
