-- ===== src/Socket/Buffers.antt =====
-- What one round of `socket_cb` does to the texts in its two buffers.
use easyforetell.Prelude.{
  ℕ, suc, ◌+◌, ◌-◌, ◌≤◌, ◌<◌, ◌≡◌, refl, sym, ap, ◌∙◌, [], ◌∷◌, ◌++◌, Option, none, some, arith,
  length, take, drop, length-append, drop-append_add, take-append_cons, append_assoc, replicate,
  length-replicate, append-nil, subst, lt→ltb, not_lt→ltb,
}
use native.Mathlib.Decide.{dec_lt}
use easyforetell.Memory.{Bytes, index_of, strncat, write_at, c_str_at_most}
use easyforetell.Memory.Laws.{
  IsText, IsText-split, Holds, strlen-Holds, Holds-c_str, write_text, write_at-fits,
  write_at-faults, c_str_at_most-text, length-Holds, length-write_at, strchr-Holds, strcpy_front,
}
use easyforetell.Queue.{buffer_size}
use easyforetell.Socket.{clear, restore}

-- memset of a whole buffer.
module _ (b : Bytes) (n : ℕ) (size : length b ≡ suc n) where
  zeros : Bytes
  zeros = 0 ∷ (replicate n 0 ++ drop (0 + length (replicate {A = ℕ} (suc n) 0)) b)

  filled : write_at b 0 (replicate (suc n) 0) ≡ some zeros
  unfolding zeros
  filled = write_at-fits b 0 (replicate (suc n) 0) (omega (arith, length-replicate {A = ℕ} n 0))

  zeros-Holds : Holds zeros []
  unfolding zeros
  zeros-Holds = record { rest = _; shape = refl; is_text = tt }

-- A cleared buffer holds the empty text.
pub clear_lem :
    (b : Bytes)
    → length b ≡ buffer_size
    → (b' : Bytes) × (clear b ≡ some b') × Holds b' [] × (length b' ≡ buffer_size)
unfolding clear
clear_lem b n = (
  zeros b 254 n,
  filled b 254 n,
  zeros-Holds b 254 n,
  length-write_at b 0 (replicate 255 0) (filled b 254 n) ∙ n,
)

-- strncat of a line with its newline behind the text in the cache buffer.
module _ {cache c : Bytes} (hc : Holds cache c) (line r : Bytes)
    (hr : IsText (line ++ b'\n' ∷ r)) where
  abbrev text : Bytes
  text = line ++ b'\n' ∷ r

  abbrev ended : Bytes
  ended = line ++ b'\n' ∷ []

  read_line :
      {read : Bytes} (n : ℕ)
      → Holds read text
      → n ≡ length line + 1
      → c_str_at_most n read ≡ some ended
  read_line n h e =
      ap (c_str_at_most n) h.shape
      ∙ c_str_at_most-text n text h.rest h.is_text
      ∙ ap some (
          take-append_cons n line b'\n' r (omega arith)
          ∙ ap (λ k. line ++ b'\n' ∷ take k r) {x = n - length line - 1} {y = 0} (omega arith))

  ended-IsText : IsText ended
  ended-IsText = (IsText-split ended r (subst IsText (sym (append_assoc line (b'\n' ∷ []) r)) hr)).0

  sizes : length cache ≡ length c + 1 + length hc.rest
  sizes = omega (arith, ap length hc.shape, length-append c (0 ∷ hc.rest))

  -- There must be a byte left for the NUL: the test before strncat lets one byte too many pass.
  pub strncat_lem :
      {read : Bytes} (n : ℕ)
      → Holds read text
      → n ≡ length line + 1
      → length c + n < length cache
      → (b : Bytes) × (strncat cache read n ≡ some b)
        × Holds b (c ++ ended)
        × (length b ≡ length cache)
  unfolding strncat
  strncat_lem n h e room =
      let (b, w, held, size) =
        write_text c (0 ∷ hc.rest) ended hc.is_text ended-IsText
          (omega (arith, sizes, length-append line (b'\n' ∷ []))) in
      (
        b,
        rw (Holds-c_str hc, read_line n h e)
            (ap (λ k. write_at k (length c) (ended ++ 0 ∷ [])) hc.shape ∙ w),
        held,
        omega (arith, size, ap length hc.shape),
      )

  pub strncat-overflows :
      {read : Bytes} (n : ℕ)
      → Holds read text
      → n ≡ length line + 1
      → length cache ≤ length c + n
      → strncat cache read n ≡ none
  unfolding strncat
  strncat-overflows n h e over =
      rw (Holds-c_str hc, read_line n h e)
        (write_at-faults cache (length c) (ended ++ 0 ∷ [])
          (omega (arith, length-append ended (0 ∷ []), length-append line (b'\n' ∷ []))))

-- The NUL that replaces the newline at the end of a text.
pub cut_newline :
    {b s : Bytes} (n : ℕ)
    → Holds b (s ++ b'\n' ∷ [])
    → n ≡ length s + 1
    → (b' : Bytes) × (write_at b (n - 1) (0 ∷ []) ≡ some b') × Holds b' s × (length b' ≡ length b)
cut_newline {b} {s} n h e =
    let (hs, _) = IsText-split s (b'\n' ∷ []) h.is_text in
    let (b', w, held, size) = write_text s (b'\n' ∷ 0 ∷ h.rest) [] hs tt (omega arith) in
    let shape : b ≡ s ++ b'\n' ∷ 0 ∷ h.rest = h.shape ∙ append_assoc s (b'\n' ∷ []) (0 ∷ h.rest) in
    (
      b',
      ap (λ k. write_at b k (0 ∷ [])) {x = n - 1} (omega arith)
          ∙ ap (λ k. write_at k (length s) (0 ∷ [])) shape
          ∙ w,
      subst (Holds b') (append-nil s) held,
      omega (arith, size, ap length shape),
    )

-- The next line moves to the front of the read buffer, which is empty when there is none.
pub record Restored (r : Bytes) (o : Option (Bytes × Option ℕ)) : Type 0 where
  pub read : Bytes
  pub runs : o ≡ some (read, index_of b'\n' r)
  pub text : Holds read r
  pub size : length read ≡ buffer_size

module _ {read : Bytes} (line r : Bytes) (h : Holds read (line ++ b'\n' ∷ r))
    (size : length read ≡ buffer_size) where
  next_line : (i : ℕ) → i ≡ length line → Holds (drop (i + 1) read) r
  next_line i e = record {
    rest = h.rest;
    shape =
        ap (drop (i + 1)) (h.shape ∙ append_assoc line (b'\n' ∷ r) (0 ∷ h.rest))
        ∙ drop-append_add line (b'\n' ∷ (r ++ 0 ∷ h.rest)) (i + 1) 1 (omega arith);
    is_text = (IsText-split line (b'\n' ∷ r) h.is_text).1.1;
  }

  pub restore_lem :
      (i n : ℕ) → i ≡ length line → n ≡ length line + 1 → Restored r (restore read i n)
  unfolding restore index_of
  restore_lem i n ei en = elim (dec_lt 0 (length r)) [
    | yes more ↦
        let (read', w, held, size') =
          strcpy_front read (next_line i ei)
            (omega (arith, length-Holds h, length-append line (b'\n' ∷ r))) in
        record {
          read = read';
          runs = rw (
            strlen-Holds h,
            lt→ltb n (length (line ++ b'\n' ∷ r)) (omega (arith, length-append line (b'\n' ∷ r))),
            w,
            strchr-Holds b'\n' held,
          );
          text = held;
          size = size' ∙ size;
        }
    | no none_left ↦ last r refl none_left
  ]
    where
      last : (t : Bytes) → r ≡ t → ¬ (0 < length r) → Restored r (restore read i n)
      last [] e nl =
          let (read', w, held, size') = clear_lem read size in
          record {
            read = read';
            runs = rw (
              strlen-Holds h,
              not_lt→ltb n (length (line ++ b'\n' ∷ r))
                  (omega (arith, length-append line (b'\n' ∷ r))),
              w,
              e,
            );
            text = rw e held;
            size = size';
          }
      last (c ∷ t) e nl = absurd (nl (omega (arith, ap length e)))
