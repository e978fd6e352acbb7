-- ===== src/Replace/Laws.antt =====
-- What `replace_string` does on each branch, and when `substitute_variables` never ends
-- or reads past its array.
use easyforetell.Prelude.{
  ℕ, zero, suc, ◌+◌, ◌-◌, ◌≤◌, ◌<◌, ◌≡◌, refl, sym, ap, ◌∙◌, true, false, [], ◌∷◌, ◌++◌, some,
  arith, le→leb, not_le→leb, ◌==◌, length, length-append, take, drop, take-append, drop-append,
  drop-append_add, inl, inr, Bool-cases, Option-cases,
}
use easyforetell.Memory.{Bytes, find, is_prefix}
use easyforetell.StringLists.{StringList}
use easyforetell.Replace.{
  replaced, overflow, replace_at, replace_string, token, skip_separators, with_value, running,
  replace_all, replace_variable, substitute_variables,
}

is_prefix-split : (p s : Bytes) → is_prefix p s ≡ true → s ≡ p ++ drop (length p) s
unfolding is_prefix
is_prefix-split [] s h = refl
is_prefix-split (x ∷ p) [] h = cc
is_prefix-split (x ∷ p) (y ∷ s) h = ground (arith, is_prefix-split p s)

-- A text around a match.
pub record Around (p s : Bytes) (i : ℕ) : Type 0 where
  pub front : Bytes
  pub back : Bytes
  pub shape : s ≡ front ++ (p ++ back)
  pub place : length front ≡ i

Around-here : (p s : Bytes) (i : ℕ) → is_prefix p s ≡ true → i ≡ 0 → Around p s i
Around-here p s i h e = record {
  front = [];
  back = drop (length p) s;
  shape = is_prefix-split p s h;
  place = sym e;
}

-- A match stands where `find` says.
pub find-Around : (p s : Bytes) (i : ℕ) → find p s ≡ some i → Around p s i
unfolding find
find-Around p [] i e = elim (Bool-cases (is_prefix p [])) [
  | inl here ↦ Around-here p [] i here (ground arith)
  | inr later ↦ absurd (ground arith)
]
find-Around p (x ∷ s) i e = elim (Bool-cases (is_prefix p (x ∷ s))) [
  | inl here ↦ Around-here p (x ∷ s) i here (ground arith)
  | inr later ↦ elim (Option-cases (find p s)) [
    | inl nowhere ↦ absurd (ground arith)
    | inr (j, f) ↦
        let a = find-Around p s j f in
        record {
          front = x ∷ a.front;
          back = a.back;
          shape = ap (λ k. x ∷ k) a.shape;
          place = ground (arith, a.place);
        }
  ]
]

module _ {p s : Bytes} {i : ℕ} (a : Around p s i) where
  take-front : take i s ≡ a.front
  take-front = ap (take i) a.shape ∙ take-append a.front (p ++ a.back) i (sym a.place)

  drop-back : drop (i + length p) s ≡ a.back
  drop-back =
      ap (drop (i + length p)) a.shape
      ∙ drop-append_add a.front (p ++ a.back) (i + length p) (length p) (omega (arith, a.place))
      ∙ drop-append p a.back (length p) refl

  sizes : length s ≡ i + length p + length a.back
  sizes = omega (
    arith,
    ap length a.shape,
    length-append a.front (p ++ a.back),
    length-append p a.back,
    a.place,
  )

replace_string-at :
    (original s : Bytes) (i n : ℕ) (replacement : Bytes)
    → find original s ≡ some i
    → replace_string s n original replacement ≡ replace_at n s original replacement i
unfolding replace_string
replace_string-at original s i n replacement e = rw (e, replace_string)

-- If the text has a first copy of the original at some offset, fits its buffer of `str_length`
-- bytes with its NUL, and the result of the replacement does too, then `replace_string` replaces
-- that copy and keeps what is before and behind it.
pub replace_string-replaced :
    (original s replacement : Bytes) (i n : ℕ)
    → find original s ≡ some i
    → length s < n
    → length s + length replacement < n + length original
    → (front back : Bytes) × (s ≡ front ++ (original ++ back))
      × (length front ≡ i)
      × (replace_string s n original replacement ≡ replaced (front ++ (replacement ++ back)))
unfolding replace_at
replace_string-replaced original s replacement i n e fits room =
    let a = find-Around original s i e in
    (
      a.front,
      a.back,
      a.shape,
      a.place,
      replace_string-at original s i n replacement e
          ∙ rw (
            drop-back a,
            take-front a,
            not_le→leb n i (omega (arith, sizes a)),
            not_le→leb n (i - i + length replacement + length a.back) (omega (arith, sizes a)),
            not_le→leb n (i + length replacement + length a.back) (omega (arith, sizes a)),
          ),
    )

-- If the text has a first copy of the original at some offset and fits its buffer of `str_length`
-- bytes with its NUL, and the replacement with the text behind the match is shorter than
-- `str_length` but the text in front of the match with these is not, then `replace_string` writes
-- past the end of the buffer.
pub replace_string-overflows :
    (original s replacement : Bytes) (i n : ℕ)
    → find original s ≡ some i
    → length s < n
    → length replacement + length (drop (i + length original) s) < n
    → n ≤ i + length replacement + length (drop (i + length original) s)
    → replace_string s n original replacement ≡ overflow
unfolding replace_at
replace_string-overflows original s replacement i n e fits passes over =
    let a = find-Around original s i e in
    let back = drop (i + length original) s in
    replace_string-at original s i n replacement e
    ∙ rw (
      not_le→leb n i (omega (arith, sizes a)),
      not_le→leb n (i - i + length replacement + length back) (omega arith),
      le→leb n (i + length replacement + length back) over,
    )

-- A value that is the name itself is put in place of the name again and again.
pub replace_all-endless :
    (fuel n : ℕ) (name s : Bytes) (i : ℕ)
    → find name s ≡ some i
    → length s < n
    → replace_all fuel n name name s ≡ running
unfolding replace_all
replace_all-endless zero n name s i e fits = refl
replace_all-endless (suc fuel) n name s i e fits =
    let (front, back, shape, place, run) =
      replace_string-replaced name s name i n e fits (omega arith) in
    let same : replace_string s n name name ≡ replaced s = run ∙ ap replaced (sym shape) in
    rw (same, replace_all) (replace_all-endless fuel n name s i e fits)

-- A name: no separator in it.
abbrev pub IsName : Bytes → Type 0
IsName [] = Unit {0}
IsName (c ∷ cs) = ((c == b' ') ≡ false) × IsName cs

token-name : (name rest : Bytes) → IsName name → token (name ++ b' ' ∷ rest) ≡ (name, rest)
unfolding token
token-name [] rest h = refl
token-name (c ∷ cs) rest h = rw (h.0, token-name cs rest h.1)

replace_variable-named :
    (fuel n : ℕ) (name rest str : Bytes)
    → IsName name
    → replace_variable fuel n (b'$' ∷ (name ++ b' ' ∷ rest)) str
      ≡ with_value fuel n (b'$' ∷ (name ++ b' ' ∷ rest)) (b'$' ∷ name) (skip_separators rest) str
unfolding replace_variable skip_separators
replace_variable-named fuel n name rest str h =
    ap
      (λ (k : Bytes × Bytes).
        with_value fuel n (b'$' ∷ (name ++ b' ' ∷ rest)) k.0 (skip_separators k.1) str)
      (token-name (b'$' ∷ name) rest (refl, h))

-- A first variable with an empty value, whose name has no space, in a url that names it and fits
-- its buffer with its NUL, makes `substitute_variables` run on: no amount of fuel ends it.
pub substitute_variables-endless :
    (fuel n count : ℕ) (name url : Bytes) (variables : StringList) (i : ℕ)
    → IsName name
    → find (b'$' ∷ name) url ≡ some i
    → length url < n
    → substitute_variables fuel url n (some (b'$' ∷ (name ++ b' ' ∷ [])) ∷ variables) (suc count)
      ≡ running
unfolding substitute_variables skip_separators with_value
substitute_variables-endless fuel n count name url variables i h e fits = rw (
  substitute_variables,
  replace_variable-named fuel n name [] url h,
  replace_all-endless fuel n (b'$' ∷ name) url i e fits,
)
