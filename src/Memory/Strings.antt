-- ===== src/Memory/Strings.antt =====
-- Appending to a text in a buffer: strcat and strncat, where they fit and where they do not.
use easyforetell.Prelude.{
  ℕ, ◌+◌, ◌≤◌, ◌<◌, ◌≡◌, refl, sym, ap, ◌∙◌, [], ◌∷◌, ◌++◌, Option, some, none, arith, length,
  length-append, take,
}
use easyforetell.Memory.{Bytes, strcpy, strcat, strncat, write_at}
use easyforetell.Memory.Laws.{
  IsText, Holds, Holds-c_str, write_text, write_at-faults, c_str_at_most-text,
}

-- A buffer after a write, with the text it holds and its size.
pub record Written (size : ℕ) (s : Bytes) (o : Option Bytes) : Type 0 where
  pub after : Bytes
  pub runs : o ≡ some after
  pub text : Holds after s
  pub size_kept : length after ≡ size

module _ {b p : Bytes} (h : Holds b p) (t : Bytes) (ht : IsText t) where
  write_behind :
      length p + length t < length b
      → Written (length b) (p ++ t) (write_at b (length p) (t ++ 0 ∷ []))
  write_behind room =
      let (b', w, held, size) =
        write_text p (0 ∷ h.rest) t h.is_text ht
          (omega (arith, ap length h.shape, length-append p (0 ∷ h.rest))) in
      record {
        after = b';
        runs = ap (λ k. write_at k (length p) (t ++ 0 ∷ [])) h.shape ∙ w;
        text = held;
        size_kept = size ∙ ap length (sym h.shape);
      }

  write_behind-faults : length b ≤ length p + length t → write_at b (length p) (t ++ 0 ∷ []) ≡ none
  write_behind-faults over =
      write_at-faults b (length p) (t ++ 0 ∷ []) (omega (arith, length-append t (0 ∷ [])))

module _ {b p src : Bytes} {t : Bytes} (h : Holds b p) (hs : Holds src t) where
  pub strcat_lem : length p + length t < length b → Written (length b) (p ++ t) (strcat b src)
  unfolding strcat strcpy
  strcat_lem room = rw (Holds-c_str h, Holds-c_str hs) (write_behind h t hs.is_text room)

  pub strcat-overflows : length b ≤ length p + length t → strcat b src ≡ none
  unfolding strcat strcpy
  strcat-overflows over =
      rw (Holds-c_str h, Holds-c_str hs) (write_behind-faults h t hs.is_text over)

pub strcpy-overflows :
    (b : Bytes) {src t : Bytes} → Holds src t → length b ≤ length t → strcpy b 0 src ≡ none
unfolding strcpy
strcpy-overflows b {src} {t} hs over =
    rw (Holds-c_str hs)
      (write_at-faults b 0 (t ++ 0 ∷ []) (omega (arith, length-append t (0 ∷ []))))

take-length : (t : Bytes) → take (length t) t ≡ t
take-length [] = refl
take-length (c ∷ t) = ap (λ k. c ∷ k) (take-length t)

-- strncat of a whole text, given its length
module _ {b p : Bytes} (t : Bytes) (h : Holds b p) (ht : IsText t) where
  pub strncat-whole :
      length p + length t < length b
      → Written (length b) (p ++ t) (strncat b (t ++ 0 ∷ []) (length t))
  unfolding strncat
  strncat-whole room =
      rw (Holds-c_str h, c_str_at_most-text (length t) t [] ht, take-length t)
        (write_behind h t ht room)
