-- ===== src/Socket/Lines.antt =====
-- The lines of a text.
use easyforetell.Prelude.{
  ℕ, ◌≡◌, refl, ap, ◌∙◌, List, [], ◌∷◌, ◌++◌, none, some, arith, if◌then◌else◌, ◌==◌, length,
  Option-cases, Bool-cases, inl, inr, append-nil, sym, false,
}
use easyforetell.Memory.{Bytes, index_of}

-- A byte in front of a text that is already cut.
abbrev pub in_front : ℕ → List Bytes × Bytes → List Bytes × Bytes
in_front x ([], rest) = ([], x ∷ rest)
in_front x (l ∷ ls, rest) = ((x ∷ l) ∷ ls, rest)

-- The lines that a newline ends, and what follows the last newline.
unfoldable pub split_lines : Bytes → List Bytes × Bytes
split_lines [] = ([], [])
split_lines (x ∷ r) =
    let cut = split_lines r in if x == b'\n' then ([] ∷ cut.0, cut.1) else in_front x cut

-- The text of a buffer, cut at its first newline.
pub record FirstLine (r : Bytes) (i : ℕ) : Type 0 where
  pub line : Bytes
  pub rest : Bytes
  pub shape : r ≡ line ++ b'\n' ∷ rest
  pub place : length line ≡ i
  pub lines : split_lines r ≡ (line ∷ (split_lines rest).0, (split_lines rest).1)

pub first_line : (r : Bytes) (i : ℕ) → index_of b'\n' r ≡ some i → FirstLine r i
unfolding index_of split_lines
first_line [] i e = cc
first_line (x ∷ r) i e = elim (Bool-cases (x == b'\n')) [
  | inl here ↦ record {
    line = [];
    rest = r;
    shape = ap (λ k. k ∷ r) (ground arith);
    place = ground arith;
    lines = rw here;
  }
  | inr later ↦ elim (Option-cases (index_of b'\n' r)) [
    | inl nowhere ↦ absurd (ground arith)
    | inr (j, f) ↦
        let l = first_line r j f in
        record {
          line = x ∷ l.line;
          rest = l.rest;
          shape = ap (λ k. x ∷ k) l.shape;
          place = ground (arith, l.place);
          lines = rw (later, l.lines);
        }
  ]
]

pub no_line : (r : Bytes) → index_of b'\n' r ≡ none → split_lines r ≡ ([], r)
unfolding index_of split_lines
no_line [] e = refl
no_line (x ∷ r) e = elim (Bool-cases (x == b'\n')) [
  | inl here ↦ absurd (ground arith)
  | inr later ↦ elim (Option-cases (index_of b'\n' r)) [
    | inl nowhere ↦ rw (later, no_line r nowhere)
    | inr (j, f) ↦ absurd (ground arith)
  ]
]

-- The lines of two texts joined.
unfoldable pub join_lines : List Bytes × Bytes → List Bytes × Bytes → List Bytes × Bytes
join_lines (ls, rest) ([], last) = (ls, rest ++ last)
join_lines (ls, rest) (m ∷ ms, last) = (ls ++ (rest ++ m) ∷ ms, last)

in_front-join_lines :
    (x : ℕ) (a b : List Bytes × Bytes) → in_front x (join_lines a b) ≡ join_lines (in_front x a) b
unfolding join_lines
in_front-join_lines x ([], rest) ([], last) = refl
in_front-join_lines x ([], rest) (m ∷ ms, last) = refl
in_front-join_lines x (l ∷ ls, rest) ([], last) = refl
in_front-join_lines x (l ∷ ls, rest) (m ∷ ms, last) = refl

newline-join_lines :
    (a b : List Bytes × Bytes)
    → ([] ∷ (join_lines a b).0, (join_lines a b).1) ≡ join_lines ([] ∷ a.0, a.1) b
unfolding join_lines
newline-join_lines (ls, rest) ([], last) = refl
newline-join_lines (ls, rest) (m ∷ ms, last) = refl

pub nil-join_lines : (b : List Bytes × Bytes) → b ≡ join_lines ([], []) b
unfolding join_lines
nil-join_lines ([], last) = refl
nil-join_lines (m ∷ ms, last) = refl

pub split_lines-append :
    (a b : Bytes) → split_lines (a ++ b) ≡ join_lines (split_lines a) (split_lines b)
unfolding split_lines
split_lines-append [] b = nil-join_lines (split_lines b)
split_lines-append (x ∷ a) b = elim (Bool-cases (x == b'\n')) [
  | inl newline ↦
      rw (newline, split_lines-append a b) (newline-join_lines (split_lines a) (split_lines b))
  | inr other ↦
      rw (other, split_lines-append a b) (in_front-join_lines x (split_lines a) (split_lines b))
]

-- What follows the last newline has none.
pub split_lines-rest : (s : Bytes) → split_lines (split_lines s).1 ≡ ([], (split_lines s).1)
unfolding split_lines
split_lines-rest [] = refl
split_lines-rest (x ∷ s) = elim (Bool-cases (x == b'\n')) [
  | inl newline ↦ rw newline (split_lines-rest s)
  | inr other ↦ rw other (go other (split_lines s) (split_lines-rest s))
]
  where
    go :
        (x == b'\n') ≡ false
        → (cut : List Bytes × Bytes) → split_lines cut.1 ≡ ([], cut.1)
        → split_lines (in_front x cut).1 ≡ ([], (in_front x cut).1)
    go other ([], rest) e = rw (other, e)
    go other (l ∷ ls, rest) e = e

regroup :
    (a b : List Bytes × Bytes)
    → join_lines a b ≡ (a.0 ++ (join_lines ([], a.1) b).0, (join_lines ([], a.1) b).1)
unfolding join_lines
regroup (ls, rest) ([], last) = λ i. (sym (append-nil ls) i, rest ++ last)
regroup (ls, rest) (m ∷ ms, last) = refl

-- The lines of a longer text are those of its first part, then those of the rest, which begins
-- with what the first part left.
pub split_lines-step :
    (a b : Bytes)
    → split_lines (a ++ b) ≡ (
      (split_lines a).0 ++ (split_lines ((split_lines a).1 ++ b)).0,
      (split_lines ((split_lines a).1 ++ b)).1,
    )
split_lines-step a b =
    split_lines-append a b
    ∙ regroup (split_lines a) (split_lines b)
    ∙ rw (split_lines-append (split_lines a).1 b, split_lines-rest a)
