-- ===== src/Pool/Pending.antt =====
-- The urls that are still to be served, and the records that their pages will be.
use mathlib.Core.List.{append_cancel_left}
use easyforetell.Prelude.{
  ◌≡◌, refl, ap, ◌∙◌, sym, Bool, true, false, List, [], ◌∷◌, ◌++◌, concat, Option, some,
  if◌then◌else◌, Bool-cases, inl, inr, ap₂, ==_iff, ◌==◌,
}
use easyforetell.Memory.{Bytes, equal}
use easyforetell.Jobs.Pages.{overwrite, with_pages}

-- Whether a key is that of one of the urls.
unfoldable pub is_for : Bytes → Bytes → List Bytes → Bool
is_for prefix asked [] = false
is_for prefix asked (t ∷ ts) = if equal asked (prefix ++ t) then true else is_for prefix asked ts

module _ (prefix asked : Bytes) where
  pub is_for-append :
      (xs ys : List Bytes)
      → is_for prefix asked (xs ++ ys) ≡ false
      → (is_for prefix asked xs ≡ false) × (is_for prefix asked ys ≡ false)
  unfolding is_for
  is_for-append [] ys h = (refl, h)
  is_for-append (t ∷ xs) ys h = elim (Bool-cases (equal asked (prefix ++ t))) [
    | inl same ↦ let f = rw same at h in absurd (cc)
    | inr differs ↦
        let (front, back) = is_for-append xs ys (rw differs at h) in (rw differs front, back)
  ]

  pub append-is_for :
      (xs ys : List Bytes)
      → is_for prefix asked xs ≡ false
      → is_for prefix asked ys ≡ false
      → is_for prefix asked (xs ++ ys) ≡ false
  unfolding is_for
  append-is_for [] ys f g = g
  append-is_for (t ∷ xs) ys f g = elim (Bool-cases (equal asked (prefix ++ t))) [
    | inl same ↦ let k = rw same at f in absurd (cc)
    | inr differs ↦ rw differs (append-is_for xs ys (rw differs at f) g)
  ]

pub equal_sound : (a b : Bytes) → equal a b ≡ true → a ≡ b
unfolding equal
equal_sound [] [] h = refl
equal_sound [] (y ∷ b) h = absurd (cc)
equal_sound (x ∷ a) [] h = absurd (cc)
equal_sound (x ∷ a) (y ∷ b) h = elim (Bool-cases (x == y)) [
  | inl same ↦ ap₂ (λ k l. k ∷ l) ((==_iff x y).0 same) (equal_sound a b (rw same at h))
  | inr differs ↦ let f = rw differs at h in absurd (cc)
]

pub equal_refl : (a : Bytes) → equal a a ≡ true
unfolding equal
equal_refl [] = refl
equal_refl (x ∷ a) = rw ((==_iff x x).1 refl) (equal_refl a)

module _ (prefix : Bytes) (web : Bytes → List Bytes) where
  -- The record that a served url has.
  abbrev pub IsKnown : (Bytes → Option Bytes) → Bytes → Type 0
  IsKnown f t = f (prefix ++ t) ≡ some (concat (web t))

  abbrev pub AreKnown : (Bytes → Option Bytes) → List Bytes → Type 0
  AreKnown f [] = Unit {0}
  AreKnown f (t ∷ ts) = IsKnown f t × AreKnown f ts

  overwrite-IsKnown :
      (f : Bytes → Option Bytes) (t u : Bytes)
      → IsKnown f t
      → IsKnown (overwrite f (prefix ++ u) (concat (web u))) t
  overwrite-IsKnown f t u h = elim (Bool-cases (equal (prefix ++ t) (prefix ++ u))) [
    | inl same ↦
        let e : t ≡ u =
          append_cancel_left prefix t u (equal_sound (prefix ++ t) (prefix ++ u) same) in
        rw same (ap (λ k. some (concat (web k))) (sym e))
    | inr differs ↦ rw differs h
  ]

  with_pages-IsKnown :
      (ts : List Bytes) (f : Bytes → Option Bytes) (t : Bytes)
      → IsKnown f t
      → IsKnown (with_pages prefix web ts f) t
  unfolding with_pages
  with_pages-IsKnown [] f t h = h
  with_pages-IsKnown (u ∷ ts) f t h = with_pages-IsKnown ts _ t (overwrite-IsKnown f t u h)

  overwritten :
      (f : Bytes → Option Bytes) (t : Bytes)
      → IsKnown (overwrite f (prefix ++ t) (concat (web t))) t
  overwritten f t = rw (equal_refl (prefix ++ t)) refl

  -- All urls of the list have their records in the end.
  pub with_pages-AreKnown :
      (ts : List Bytes) (f : Bytes → Option Bytes) → AreKnown (with_pages prefix web ts f) ts
  unfolding with_pages
  with_pages-AreKnown [] f = tt
  with_pages-AreKnown (t ∷ ts) f =
      let f' = overwrite f (prefix ++ t) (concat (web t)) in
      (with_pages-IsKnown ts f' t (overwritten f t), with_pages-AreKnown ts f')

  -- The other records stay.
  pub with_pages-others :
      (ts : List Bytes) (f : Bytes → Option Bytes) (asked : Bytes)
      → is_for prefix asked ts ≡ false
      → f asked ≡ with_pages prefix web ts f asked
  unfolding with_pages is_for
  with_pages-others [] f asked h = refl
  with_pages-others (t ∷ ts) f asked h = elim (Bool-cases (equal asked (prefix ++ t))) [
    | inl same ↦ let k = rw same at h in absurd (cc)
    | inr differs ↦
        sym (rw differs refl)
        ∙ with_pages-others ts (overwrite f (prefix ++ t) (concat (web t))) asked (rw differs at h)
  ]
