-- ===== src/Memory/Moves.antt =====
-- memmove and strncpy of a text within a buffer.
use easyforetell.Prelude.{
  ℕ, suc, ◌+◌, ◌-◌, ◌≤◌, ◌<◌, ◌≡◌, refl, sym, ap, ◌∙◌, [], ◌∷◌, ◌++◌, none, some, arith, length,
  take, drop, length-append, length-take, length-drop, append-nil, take-suc, replicate, take-append,
  take-append_cons, take-append-drop, drop-append, append_assoc, subst,
}
use easyforetell.Memory.{Bytes, write_at, memmove, strncpy}
use easyforetell.Memory.Laws.{
  IsText, IsText-split, Holds, c_str_at_most-text, write_at-fits, length-write_at, read_at-fits,
  read_at-faults, write_text,
}

-- memmove of a text and its NUL, behind `p`, to the front of its buffer.
pub memmove_front :
    (p r s : Bytes) (n : ℕ)
    → IsText s
    → Holds r s
    → n ≤ length r
    → length s < n
    → (b' : Bytes) × (memmove (p ++ r) 0 (length p) n ≡ some b')
      × Holds b' s
      × (length b' ≡ length (p ++ r))
unfolding memmove
memmove_front p r s n hs h fits covers = (
  moved,
  rw
      (
        read_at-fits (p ++ r) (length p) n (omega (arith, length-append p r)),
        drop-append p r (length p) refl,
      )
      written,
  record { rest = take (n - length s - 1) h.rest ++ drop n (p ++ r); shape = shape; is_text = hs },
  length-write_at (p ++ r) 0 (take n r) written,
)
  where
    moved : Bytes
    moved = take n r ++ drop n (p ++ r)

    size : length (take n r) ≡ n
    size = omega (arith, length-take n r)

    written : write_at (p ++ r) 0 (take n r) ≡ some moved
    written =
        write_at-fits (p ++ r) 0 (take n r) (omega (arith, size, length-append p r))
        ∙ ap (λ k. some (take n r ++ drop k (p ++ r))) {x = 0 + length (take n r)}
            (omega (arith, size))

    shape : moved ≡ s ++ 0 ∷ (take (n - length s - 1) h.rest ++ drop n (p ++ r))
    shape =
        ap (λ t. take n t ++ drop n (p ++ r)) h.shape
        ∙ ap (λ t. t ++ drop n (p ++ r)) (take-append_cons n s 0 h.rest covers)
        ∙ append_assoc s (0 ∷ take (n - length s - 1) h.rest) (drop n (p ++ r))

-- A memmove that starts where it ends changes nothing.
pub memmove_same : (b : Bytes) (n : ℕ) → n ≤ length b → memmove b 0 0 n ≡ some b
unfolding memmove
memmove_same b n h = rw (read_at-fits b 0 n (omega arith)) (
    write_at-fits b 0 (take n b) (omega (arith, length-take n b))
    ∙ rw (same_place, take-append-drop))
  where
    same_place : 0 + length (take n b) ≡ n
    same_place = omega (arith, length-take n b)

pub memmove-faults : (b : Bytes) (to from n : ℕ) → length b < from + n → memmove b to from n ≡ none
unfolding memmove
memmove-faults b to from n h = rw (read_at-faults b from n h)

-- memmove of a text without its NUL to the front, and a NUL behind it.
pub memmove_text :
    (p s r : Bytes)
    → IsText s
    → (b' b'' : Bytes) × (memmove (p ++ (s ++ 0 ∷ r)) 0 (length p) (length s) ≡ some b')
      × (write_at b' (length s) (0 ∷ []) ≡ some b'')
      × Holds b'' s
      × (length b'' ≡ length (p ++ (s ++ 0 ∷ r)))
unfolding memmove
memmove_text p s r hs =
    let (b'', e, held, n) = write_text s over [] hs tt room in
    (
      moved,
      b'',
      rw
          (
            read_at-fits whole (length p) (length s) (omega (arith, sizes)),
            drop-append p (s ++ 0 ∷ r) (length p) refl,
            take-append s (0 ∷ r) (length s) refl,
          )
          (write_at-fits whole 0 s (omega (arith, sizes))
            ∙ ap (λ k. some (s ++ drop k whole)) {x = 0 + length s} (omega arith)),
      e,
      subst (Holds b'') (append-nil s) held,
      omega (arith, n, length-append s over, length-drop (length s) whole, sizes),
    )
  where
    whole : Bytes
    whole = p ++ (s ++ 0 ∷ r)

    over : Bytes
    over = drop (length s) whole

    moved : Bytes
    moved = s ++ over

    sizes : length whole ≡ length p + length s + 1 + length r
    sizes = omega (arith, length-append p (s ++ 0 ∷ r), length-append s (0 ∷ r))

    room : 0 < length over
    room = omega (arith, length-drop (length s) whole, sizes)

-- strncpy of the first `i + 1` bytes of a longer text, the last of them overwritten by a NUL.
pub strncpy_cut :
    (b t r : Bytes) (i n : ℕ)
    → IsText t
    → i < length t
    → n ≡ i + 1
    → n ≤ length b
    → (b' b'' : Bytes) × (strncpy b 0 (t ++ 0 ∷ r) n ≡ some b')
      × (write_at b' (n - 1) (0 ∷ []) ≡ some b'')
      × Holds b'' (take i t)
      × (length b'' ≡ length b)
unfolding strncpy
strncpy_cut b t r i n ht lt e fits =
    let (x, _, f) = take-suc i t lt in
    let split : take n t ≡ take i t ++ x ∷ [] =
      ap (λ k. take k t) {x = n} {y = suc i} (omega arith) ∙ f in
    let (b'', g, held, m) = write_text (take i t) (x ∷ drop n b) [] texts tt (omega arith) in
    (
      take i t ++ (x ∷ drop n b),
      b'',
      rw (c_str_at_most-text n t r ht, full, append-nil (take n t))
          (write_at-fits b 0 (take n t) (omega (arith, size))
            ∙ ap (λ k. some (take n t ++ drop k b)) {x = 0 + length (take n t)}
                (omega (arith, size))
            ∙ ap some
                ((ap (λ k. k ++ drop n b) split ∙ append_assoc (take i t) (x ∷ []) (drop n b)))),
      ap (λ k. write_at (take i t ++ (x ∷ drop n b)) k (0 ∷ [])) {x = n - 1} (omega (arith, word))
          ∙ g,
      subst (Holds b'') (append-nil (take i t)) held,
      omega (arith, m, length-append (take i t) (x ∷ drop n b), word, length-drop n b),
    )
  where
    size : length (take n t) ≡ n
    size = omega (arith, length-take n t)

    word : length (take i t) ≡ i
    word = omega (arith, length-take i t)

    texts : IsText (take i t)
    texts = (IsText-split (take i t) (drop i t) (subst IsText (sym (take-append-drop i t)) ht)).0

    full : replicate {A = ℕ} (n - length (take n t)) 0 ≡ []
    full = ap (λ k. replicate {A = ℕ} k 0) {x = n - length (take n t)} {y = 0} (omega (arith, size))
