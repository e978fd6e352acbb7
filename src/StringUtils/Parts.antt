-- ===== src/StringUtils/Parts.antt =====
-- The text without the spaces at its ends.
use easyforetell.Prelude.{
  ℕ, suc, ◌+◌, ◌≤◌, ◌≡◌, refl, ap, ◌∙◌, true, false, [], ◌∷◌, ◌++◌, arith, if◌then◌else◌, length,
  length-append, Bool-cases, inl, inr,
}
use easyforetell.Memory.{Bytes, isspace}

-- The spaces that a text begins with: how many, and what follows them.
unfoldable pub leading : Bytes → ℕ
leading [] = 0
leading (c ∷ cs) = if isspace c then suc (leading cs) else 0

unfoldable pub ltrim : Bytes → Bytes
ltrim [] = []
ltrim (c ∷ cs) = if isspace c then ltrim cs else c ∷ cs

abbrev pub keep : ℕ → Bytes → Bytes
keep c [] = if isspace c then [] else c ∷ []
keep c (x ∷ xs) = c ∷ x ∷ xs

unfoldable pub rtrim : Bytes → Bytes
rtrim [] = []
rtrim (c ∷ cs) = keep c (rtrim cs)

unfoldable pub trim : Bytes → Bytes
unfolding ltrim rtrim leading
trim s = rtrim (ltrim s)

abbrev pub AreSpaces : Bytes → Type 0
AreSpaces [] = Unit {0}
AreSpaces (c ∷ cs) = (isspace c ≡ true) × AreSpaces cs

abbrev pub StartsClean : Bytes → Type 0
StartsClean [] = Unit {0}
StartsClean (c ∷ _) = isspace c ≡ false

abbrev pub EndsClean : Bytes → Type 0
EndsClean [] = Unit {0}
EndsClean (c ∷ []) = isspace c ≡ false
EndsClean (c ∷ d ∷ cs) = EndsClean (d ∷ cs)

pub ltrim-split :
    (s : Bytes)
    → (p : Bytes) × (s ≡ p ++ ltrim s)
      × AreSpaces p
      × (length p ≡ leading s)
      × StartsClean (ltrim s)
unfolding ltrim leading
ltrim-split [] = ([], refl, tt, refl, tt)
ltrim-split (c ∷ cs) = elim (Bool-cases (isspace c)) [
  | inl space ↦
      let (p, e, a, l, st) = ltrim-split cs in
      rw space (c ∷ p, ap (λ t. c ∷ t) e, (space, a), ap suc l, st)
  | inr clean ↦ rw clean ([], refl, tt, refl, clean)
]

pub rtrim-split : (s : Bytes) → (q : Bytes) × (s ≡ rtrim s ++ q) × AreSpaces q × EndsClean (rtrim s)
unfolding rtrim
rtrim-split [] = ([], refl, tt, tt)
rtrim-split (c ∷ cs) = let (q, e, a, en) = rtrim-split cs in go (rtrim cs) q e a en
  where
    go :
        (m q : Bytes)
        → cs ≡ m ++ q
        → AreSpaces q
        → EndsClean m
        → (q' : Bytes) × (c ∷ cs ≡ keep c m ++ q') × AreSpaces q' × EndsClean (keep c m)
    go [] q e a en = elim (Bool-cases (isspace c)) [
      | inl space ↦ rw space (c ∷ q, ap (λ t. c ∷ t) e, (space, a), tt)
      | inr clean ↦ rw clean (q, ap (λ t. c ∷ t) e, a, clean)
    ]
    go (x ∷ xs) q e a en = (q, ap (λ t. c ∷ t) e, a, en)

pub StartsClean-rtrim : (s : Bytes) → StartsClean s → StartsClean (rtrim s)
unfolding rtrim
StartsClean-rtrim [] h = tt
StartsClean-rtrim (c ∷ cs) h = go (rtrim cs)
  where
    go : (m : Bytes) → StartsClean (keep c m)
    go [] = rw h h
    go (x ∷ xs) = h

-- `trim` takes spaces off both ends of a text, and leaves none there.
pub trim-split :
    (s : Bytes)
    → (p q : Bytes) × (s ≡ p ++ (trim s ++ q))
      × AreSpaces p
      × AreSpaces q
      × StartsClean (trim s)
      × EndsClean (trim s)
unfolding trim
trim-split s =
    let (p, e, a, _, st) = ltrim-split s in
    let (q, f, b, en) = rtrim-split (ltrim s) in
    (p, q, e ∙ ap (λ t. p ++ t) f, a, b, StartsClean-rtrim (ltrim s) st, en)

pub leading-add-trim : (s : Bytes) → leading s + length (trim s) ≤ length s
unfolding trim
leading-add-trim s =
    let (p, e, _, l, _) = ltrim-split s in
    let (q, f, _, _) = rtrim-split (ltrim s) in
    omega (
      arith,
      ap length e,
      length-append p (ltrim s),
      ap length f,
      length-append (rtrim (ltrim s)) q,
    )
