-- ===== src/StringUtils/Trim.antt =====
-- What `strim` does to the text of a buffer.
use easyforetell.Prelude.{
  ℕ, zero, suc, ◌+◌, ◌≤◌, ◌<◌, ◌≡◌, refl, sym, ap, ◌∙◌, false, [], ◌∷◌, ◌++◌, some, arith, ◌==◌,
  if◌then◌else◌, length, take, drop, get_elem?, length-append, length-take, drop-append,
  append_assoc, Bool-cases, inl, inr, take-all, subst,
}
use easyforetell.Memory.{Bytes, strlen, write_at, isspace}
use easyforetell.Memory.Laws.{
  IsText, IsText-append, IsText-split, write_at-joined, length-write_at, Holds, Holds-text,
  c_str-append,
}
use easyforetell.StringUtils.{skip_spaces, back_up, strim}
use easyforetell.StringUtils.Parts.{
  leading, ltrim, rtrim, trim, AreSpaces, StartsClean, EndsClean, ltrim-split, rtrim-split,
  StartsClean-rtrim, keep,
}

skip_spaces_lem : (s r : Bytes) → skip_spaces (s ++ 0 ∷ r) ≡ some (leading s)
unfolding skip_spaces leading
skip_spaces_lem [] r = refl
skip_spaces_lem (c ∷ cs) r = elim (Bool-cases (isspace c)) [
  | inl space ↦ rw (space, skip_spaces_lem cs r)
  | inr clean ↦ rw clean
]

rtrim-concat :
    (m : Bytes) (c : ℕ) → rtrim (m ++ c ∷ []) ≡ (if isspace c then rtrim m else m ++ c ∷ [])
unfolding rtrim
rtrim-concat [] c = elim (Bool-cases (isspace c)) [ inl space ↦ rw space | inr clean ↦ rw clean ]
rtrim-concat (x ∷ m) c = elim (Bool-cases (isspace c)) [
  | inl space ↦ rw (rtrim-concat m c, space)
  | inr clean ↦ rw (rtrim-concat m c, clean) (keep_snoc m)
]
  where
    keep_snoc : (m : Bytes) → keep x (m ++ c ∷ []) ≡ x ∷ (m ++ c ∷ [])
    keep_snoc [] = refl
    keep_snoc (y ∷ m) = refl

take-suc :
    (n : ℕ) (m t : Bytes)
    → n < length m
    → (c : ℕ) × (get_elem? (m ++ t) n ≡ some c) × (take (suc n) m ≡ take n m ++ c ∷ [])
take-suc n [] t h = absurd (omega arith)
take-suc zero (x ∷ m) t h = (x, refl, refl)
take-suc (suc n) (x ∷ m) t h =
    let (c, e, f) = take-suc n m t (omega arith) in (c, e, ap (λ k. x ∷ k) f)

back_up_lem :
    (n : ℕ) (m t : Bytes) → n ≤ length m → back_up (m ++ t) n ≡ some (length (rtrim (take n m)))
unfolding back_up
back_up_lem zero m t h = unfold rtrim in refl
back_up_lem (suc n) m t h =
    let (c, e, f) = take-suc n m t h in
    elim (Bool-cases (isspace c)) [
      | inl space ↦
          rw (e, space, f, rtrim-concat (take n m) c, space) (back_up_lem n m t (omega arith))
      | inr clean ↦
          rw (e, clean, f, rtrim-concat (take n m) c, clean)
            (ap some (omega (arith, length-append (take n m) (c ∷ []), length-take n m)))
    ]

-- The buffer after `strim`, cut where the returned pointer points.
pub record Trimmed (b s : Bytes) : Type 0 where
  pub front : Bytes
  pub back : Bytes
  pub runs : strim b ≡ some (front ++ back, length front)
  pub offset : length front ≡ leading s
  pub text : Holds back (trim s)
  pub size : length (front ++ back) ≡ length b

module _ (p m r : Bytes) (hp : IsText p) (hm : IsText m)
    (counted : length p ≡ leading (p ++ m)) where
  from_front : drop (length p) (p ++ (m ++ 0 ∷ r)) ≡ m ++ 0 ∷ r
  from_front = drop-append p (m ++ 0 ∷ r) (length p) refl

  skipped : skip_spaces (p ++ (m ++ 0 ∷ r)) ≡ some (length p)
  skipped = rw (counted, ← append_assoc p m (0 ∷ r)) (skip_spaces_lem (p ++ m) r)

  measured : strlen (m ++ 0 ∷ r) ≡ some (length m)
  unfolding strlen
  measured = rw (c_str-append m r hm)

  strim_blank : m ≡ [] → strim (p ++ (m ++ 0 ∷ r)) ≡ some (p ++ (m ++ 0 ∷ r), length p)
  unfolding strim
  strim_blank e = rw (skipped, from_front, measured, e)

  module _ (x q : Bytes) (split : m ≡ x ++ q) (kept : x ≡ rtrim m) where
    cut : Bytes
    cut = p ++ (x ++ 0 ∷ drop 1 (q ++ 0 ∷ r))

    -- The NUL that `strim` writes cuts `m` behind its trimmed part.
    written : write_at (p ++ (m ++ 0 ∷ r)) (length p + length x) (0 ∷ []) ≡ some cut
    unfolding cut
    written =
        ap (λ t. write_at t (length p + length x) (0 ∷ [])) {x = p ++ (m ++ 0 ∷ r)} regroup
        ∙ ap (λ k. write_at ((p ++ x) ++ (q ++ 0 ∷ r)) k (0 ∷ [])) {x = length p + length x}
            (omega (arith, length-append p x))
        ∙ write_at-joined (p ++ x) (q ++ 0 ∷ r) [] texts tt (omega (arith, length-append q (0 ∷ r)))
        ∙ ap some (append_assoc p x (0 ∷ drop 1 (q ++ 0 ∷ r)))
      where
        regroup : p ++ (m ++ 0 ∷ r) ≡ (p ++ x) ++ (q ++ 0 ∷ r)
        regroup = rw (split, append_assoc x q (0 ∷ r), append_assoc p x (q ++ 0 ∷ r))

        texts : IsText (p ++ x)
        texts = IsText-append p x hp (IsText-split x q (subst IsText split hm)).0

    backed : back_up (m ++ 0 ∷ r) (length m) ≡ some (length x)
    backed =
        back_up_lem (length m) m (0 ∷ r) (omega arith)
        ∙ rw (take-all (length m) m (omega arith), kept)

    strim_text : (length m == 0) ≡ false → strim (p ++ (m ++ 0 ∷ r)) ≡ some (cut, length p)
    unfolding strim
    strim_text ne = rw (skipped, from_front, measured, ne, backed, written)

    size-cut : length cut ≡ length (p ++ (m ++ 0 ∷ r))
    size-cut = length-write_at _ (length p + length x) (0 ∷ []) written

module _ (s p q r : Bytes) (hs : IsText s) (e : s ≡ p ++ ltrim s) where
  parts : IsText p × IsText (ltrim s)
  parts = IsText-split p (ltrim s) (subst IsText e hs)

  Trimmed-blank : length p ≡ leading s → ltrim s ≡ [] → Trimmed (p ++ (ltrim s ++ 0 ∷ r)) s
  unfolding trim rtrim
  Trimmed-blank l blank = record {
    front = p;
    back = ltrim s ++ 0 ∷ r;
    runs = strim_blank p (ltrim s) r parts.0 parts.1 (l ∙ ap leading e) blank;
    offset = l;
    text = record { rest = r; shape = rw blank; is_text = rw blank tt };
    size = refl;
  }

  Trimmed-text :
      length p ≡ leading s
      → ltrim s ≡ trim s ++ q
      → (length (ltrim s) == 0) ≡ false
      → Trimmed (p ++ (ltrim s ++ 0 ∷ r)) s
  unfolding trim cut
  Trimmed-text l f ne = record {
    front = p;
    back = trim s ++ 0 ∷ drop 1 (q ++ 0 ∷ r);
    runs = strim_text p (ltrim s) r parts.0 parts.1 (l ∙ ap leading e) (trim s) q f refl ne;
    offset = l;
    text =
        Holds-text (trim s) (drop 1 (q ++ 0 ∷ r))
          (IsText-split (trim s) q (subst IsText f parts.1)).0;
    size = size-cut p (ltrim s) r parts.0 parts.1 (l ∙ ap leading e) (trim s) q f refl;
  }

-- `strim` never leaves the buffer, and what it returns points to the trimmed text.
pub strim-Trimmed : {b s : Bytes} → Holds b s → Trimmed b s
unfolding trim
strim-Trimmed {b} {s} h =
    let (p, e, _, l, _) = ltrim-split s in
    let (q, f, _, _) = rtrim-split (ltrim s) in
    let shape : p ++ (ltrim s ++ 0 ∷ h.rest) ≡ b =
      sym (h.shape ∙ ap (λ t. t ++ 0 ∷ h.rest) e ∙ append_assoc p (ltrim s) (0 ∷ h.rest)) in
    subst (λ t. Trimmed t s) shape
      (elim (Bool-cases (length (ltrim s) == 0)) [
        | inl blank ↦ Trimmed-blank s p q h.rest h.is_text e l (ground arith)
        | inr ne ↦ Trimmed-text s p q h.rest h.is_text e l f ne
      ])

-- `strim` on a buffer that holds a text stays inside it, keeps its size and returns a pointer to
-- a text m such that the original is p, m and q joined, p and q are all spaces, m neither begins
-- nor ends with a space, and the pointer is the length of p from the start.
pub strim_lem :
    {b s : Bytes}
    → Holds b s
    → (b' p m q : Bytes) × (strim b ≡ some (b', length p))
      × (length b' ≡ length b)
      × Holds (drop (length p) b') m
      × (s ≡ p ++ (m ++ q))
      × AreSpaces p
      × AreSpaces q
      × StartsClean m
      × EndsClean m
unfolding trim
strim_lem {b} {s} h =
    let t = strim-Trimmed h in
    let (p, e, a, n, st) = ltrim-split s in
    let (q, f, z, en) = rtrim-split (ltrim s) in
    let same : length t.front ≡ length p = t.offset ∙ sym n in
    (
      t.front ++ t.back,
      p,
      trim s,
      q,
      t.runs ∙ ap (λ k. some (t.front ++ t.back, k)) same,
      t.size,
      subst (λ k. Holds k (trim s)) (sym (drop-append t.front t.back (length p) (sym same))) t.text,
      e ∙ ap (λ k. p ++ k) f,
      a,
      z,
      StartsClean-rtrim (ltrim s) st,
      en,
    )
