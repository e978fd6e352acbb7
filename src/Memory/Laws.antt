-- ===== src/Memory/Laws.antt =====
-- What reading and writing a buffer does to the text in it.
use easyforetell.Prelude.{
  ℕ, zero, suc, ◌+◌, ◌-◌, ◌≤◌, ◌<◌, ◌≡◌, refl, sym, ap, ◌∙◌, ◌≢◌, [], ◌∷◌, ◌++◌, none, some, arith,
  leb, ◌==◌, length, take, drop, length-append, length-take, length-drop, take-append,
  take-append_cons, drop-append_add, append_assoc, le→leb, leb→le, subst, Option-cases, >>=-eq-some,
  Option-cases, Bool-cases, inl, inr,
}
use easyforetell.Memory.{
  Bytes, c_str, c_str_at_most, read_at, write_at, strlen, strchr, index_of, strcpy,
}

-- A text holds no NUL.
abbrev pub IsText : Bytes → Type 0
IsText [] = Unit {0}
IsText (c ∷ cs) = (c ≢ 0) × IsText cs

pub IsText-append : (s t : Bytes) → IsText s → IsText t → IsText (s ++ t)
IsText-append [] t hs ht = ht
IsText-append (c ∷ s) t hs ht = (hs.0, IsText-append s t hs.1 ht)

pub IsText-split : (s t : Bytes) → IsText (s ++ t) → IsText s × IsText t
IsText-split [] t h = (tt, h)
IsText-split (c ∷ s) t h = let (a, b) = IsText-split s t h.1 in ((h.0, a), b)

pub c_str-append : (s r : Bytes) → IsText s → c_str (s ++ 0 ∷ r) ≡ some s
unfolding c_str
c_str-append [] r h = refl
c_str-append (c ∷ s) r h = ground (arith, c_str-append s r h.1)

-- What a buffer with a text looks like.
pub record Holds (b s : Bytes) : Type 0 where
  pub rest : Bytes
  pub shape : b ≡ s ++ 0 ∷ rest
  pub is_text : IsText s

pub Holds-c_str : {b s : Bytes} → Holds b s → c_str b ≡ some s
Holds-c_str {b} {s} h = ap c_str h.shape ∙ c_str-append s h.rest h.is_text

Holds-cons : (c : ℕ) {b s : Bytes} → c ≢ 0 → Holds b s → Holds (c ∷ b) (c ∷ s)
Holds-cons c ne h = record {
  rest = h.rest;
  shape = ap (λ t. c ∷ t) h.shape;
  is_text = (ne, h.is_text);
}

pub c_str-Holds : (b : Bytes) {s : Bytes} → c_str b ≡ some s → Holds b s
unfolding c_str
c_str-Holds [] e = cc
c_str-Holds (c ∷ cs) {s} e = elim (Bool-cases (c == 0)) [
  | inl z ↦ record { rest = cs; shape = ground arith; is_text = ground arith }
  | inr nz ↦
      let (t, et, es) = >>=-eq-some (c_str cs) (λ t. some (c ∷ t)) (rw nz at e) in
      let same : (c ∷ t) ≡ s = cc in
      subst (Holds (c ∷ cs)) same (Holds-cons c (ground arith) (c_str-Holds cs et))
]

pub strlen-text : (s r : Bytes) → IsText s → strlen (s ++ 0 ∷ r) ≡ some (length s)
unfolding strlen
strlen-text s r h = rw (c_str-append s r h)

pub Holds-text : (s r : Bytes) → IsText s → Holds (s ++ 0 ∷ r) s
Holds-text s r h = record { rest = r; shape = refl; is_text = h }

pub strlen-Holds : {b s : Bytes} → Holds b s → strlen b ≡ some (length s)
unfolding strlen
strlen-Holds h = rw (Holds-c_str h)

pub strchr-Holds : {b s : Bytes} (c : ℕ) → Holds b s → strchr b c ≡ some (index_of c s)
unfolding strchr
strchr-Holds c h = rw (Holds-c_str h)

-- The text and its NUL fit the buffer.
pub length-Holds : {b s : Bytes} → Holds b s → length s < length b
length-Holds {b} {s} h = omega (arith, ap length h.shape, length-append s (0 ∷ h.rest))

pub c_str_at_most-text :
    (n : ℕ) (s r : Bytes) → IsText s → c_str_at_most n (s ++ 0 ∷ r) ≡ some (take n s)
unfolding c_str_at_most
c_str_at_most-text zero s r h = refl
c_str_at_most-text (suc n) [] r h = refl
c_str_at_most-text (suc n) (c ∷ s) r h = ground (arith, c_str_at_most-text n s r h.1)

pub write_at-fits :
    (b : Bytes) (k : ℕ) (d : Bytes)
    → k + length d ≤ length b
    → write_at b k d ≡ some (take k b ++ (d ++ drop (k + length d) b))
unfolding write_at
write_at-fits b k d h = rw (le→leb (k + length d) (length b) h)

pub write_at-faults :
    (b : Bytes) (k : ℕ) (d : Bytes) → length b < k + length d → write_at b k d ≡ none
unfolding write_at
write_at-faults b k d h = ground arith

pub length-write_at :
    (b : Bytes) (k : ℕ) (d : Bytes) {b' : Bytes} → write_at b k d ≡ some b' → length b' ≡ length b
unfolding write_at
length-write_at b k d {b'} e = elim (Bool-cases (leb (k + length d) (length b))) [
  | inl fits ↦
      let same : take k b ++ (d ++ drop (k + length d) b) ≡ b' = ground arith in
      omega (
        arith,
        ap length same,
        length-append (take k b) (d ++ drop (k + length d) b),
        length-append d (drop (k + length d) b),
        length-take k b,
        length-drop (k + length d) b,
        leb→le (k + length d) (length b) fits,
      )
  | inr over ↦ absurd (ground arith)
]

pub read_at-fits :
    (b : Bytes) (k n : ℕ) → k + n ≤ length b → read_at b k n ≡ some (take n (drop k b))
unfolding read_at
read_at-fits b k n h = rw (le→leb (k + n) (length b) h)

pub read_at-faults : (b : Bytes) (k n : ℕ) → length b < k + n → read_at b k n ≡ none
unfolding read_at
read_at-faults b k n h = ground arith

-- Writing a text and its NUL behind a text `p` joins the two.
module _ (p r t : Bytes) (hp : IsText p) (ht : IsText t) (room : length t < length r) where
  abbrev pub joined : Bytes
  joined = p ++ (t ++ 0 ∷ drop (length t + 1) r)

  pub write_at-joined : write_at (p ++ r) (length p) (t ++ 0 ∷ []) ≡ some joined
  write_at-joined =
      write_at-fits (p ++ r) (length p) (t ++ 0 ∷ [])
        (omega (arith, length-append p r, length-append t (0 ∷ [])))
      ∙ rw (
        take-append p r (length p) refl,
        drop-append_add p r (length p + length (t ++ 0 ∷ [])) (length t + 1)
            (omega (arith, length-append t (0 ∷ []))),
        append_assoc t (0 ∷ []) (drop (length t + 1) r),
      )

  pub write_text :
      (b' : Bytes) × (write_at (p ++ r) (length p) (t ++ 0 ∷ []) ≡ some b')
      × Holds b' (p ++ t)
      × (length b' ≡ length (p ++ r))
  write_text = (
    joined,
    write_at-joined,
    record {
      rest = drop (length t + 1) r;
      shape = sym (append_assoc p t (0 ∷ drop (length t + 1) r));
      is_text = IsText-append p t hp ht;
    },
    length-write_at _ _ _ write_at-joined,
  )

-- The bytes of a text with its NUL.
pub read_at-text : {b t : Bytes} → Holds b t → read_at b 0 (length t + 1) ≡ some (t ++ 0 ∷ [])
read_at-text {b} {t} h =
    read_at-fits b 0 (length t + 1) (omega (arith, length-Holds h))
    ∙ ap (λ k. some (take (length t + 1) k)) h.shape
    ∙ ap some (take-append_cons (length t + 1) t 0 h.rest (omega arith))
    ∙ ap (λ k. some (t ++ 0 ∷ take k h.rest)) {x = length t + 1 - length t - 1} {y = 0}
        (omega arith)

-- strcpy of a text to the front of a buffer.
pub strcpy_front :
    (b : Bytes) {src s : Bytes}
    → Holds src s
    → length s < length b
    → (b' : Bytes) × (strcpy b 0 src ≡ some b') × Holds b' s × (length b' ≡ length b)
unfolding strcpy
strcpy_front b {src} {s} h room =
    let (b', e, held, n) = write_text [] b s tt h.is_text room in
    (b', rw (Holds-c_str h) e, held, n)

pub index_of-lt : (c : ℕ) (s : Bytes) {i : ℕ} → index_of c s ≡ some i → i < length s
unfolding index_of
index_of-lt c [] e = cc
index_of-lt c (x ∷ s) e = elim (Option-cases (index_of c s)) [
  | inl no_rest ↦ ground arith
  | inr (j, f) ↦ ground (arith, index_of-lt c s f)
]
