-- ===== src/StringLists/Fill.antt =====
-- What a filled list holds: the complete elements in order, then NULLs.
use easyforetell.Prelude.{
  ℕ, zero, suc, ◌+◌, ◌-◌, ◌≤◌, ◌≡◌, ◌≢◌, ◌⊎◌, inl, inr, refl, ap, ◌∙◌, Bool, true, List, [], ◌∷◌,
  ◌++◌, map, append_assoc, append-nil, none, some, arith, replicate, length, length-append, set,
}
use easyforetell.Memory.{Bytes}
use easyforetell.StringLists.{
  StringList, Entry, fault, skip, text, fill, dup_string, destroy_string_list,
}

abbrev pub and_then : Entry → List Bytes → List Bytes
and_then (text t) ts = t ∷ ts
and_then skip ts = ts
and_then fault ts = ts

-- The texts of the complete elements among `left` of them, from element `i` on.
unfoldable pub complete : (ℕ → Entry) → ℕ → ℕ → List Bytes
complete entry i zero = []
complete entry i (suc left) = and_then (entry i) (complete entry (i + 1) left)

-- A list with these texts and then NULLs.
abbrev pub filled : ℕ → List Bytes → StringList
filled count ts = map some ts ++ replicate (count - length ts) none

pub length-complete : (entry : ℕ → Entry) (i left : ℕ) → length (complete entry i left) ≤ left
unfolding complete
length-complete entry i zero = omega arith
length-complete entry i (suc left) = go (entry i) (length-complete entry (i + 1) left)
  where
    go :
        (e : Entry)
        → length (complete entry (i + 1) left) ≤ left
        → length (and_then e (complete entry (i + 1) left)) ≤ suc left
    go fault h = omega arith
    go skip h = omega arith
    go (text t) h = omega arith

pub set-next :
    (ts : List Bytes) (n : ℕ) (t : Bytes)
    → set (map some ts ++ replicate (suc n) none) (length ts) (some t)
      ≡ map some (ts ++ t ∷ []) ++ replicate n none
set-next [] n t = refl
set-next (u ∷ ts) n t = ap (λ k. some u ∷ k) (set-next ts n t)

Entry-cases : (e : Entry) → (e ≡ fault) ⊎ ((e ≡ skip) ⊎ ((t : Bytes) × (e ≡ text t)))
Entry-cases fault = inl refl
Entry-cases skip = inr (inl refl)
Entry-cases (text t) = inr (inr (t, refl))

-- The loop that fills a configured list, if every allocation succeeds and no element's text
-- overruns its line, has room for the elements that are left and starts behind the texts already
-- there, ends with those texts, then the texts of the complete elements in order, then NULLs up
-- to the end of the list.
pub fill_lem :
    (allocated : ℕ → Bool) (entry : ℕ → Entry)
    → ((i : ℕ) → allocated i ≡ true)
    → ((i : ℕ) → entry i ≢ fault)
    → (i left n : ℕ) (ts : List Bytes) → left ≤ n
    → fill allocated entry i left (length ts) (some (map some ts ++ replicate n none))
      ≡ some (
          some (
            map some (ts ++ complete entry i left)
            ++ replicate (n - length (complete entry i left)) none))
unfolding fill complete dup_string
fill_lem allocated entry ok safe i zero n ts h =
    rw (append-nil ts) (ap (λ k. some (some (map some ts ++ replicate k none))) (omega arith))
fill_lem allocated entry ok safe i (suc left) zero ts h = absurd (omega arith)
fill_lem allocated entry ok safe i (suc left) (suc n) ts h = elim (Entry-cases (entry i)) [
  | inl bad ↦ absurd (safe i bad)
  | inr (inl skipped) ↦
      rw (skipped, fill) (fill_lem allocated entry ok safe (i + 1) left (suc n) ts (omega arith))
  | inr (inr (t, e)) ↦
      let more = complete entry (i + 1) left in
      let ts' = ts ++ t ∷ [] in
      rw (e, fill, ok i, set-next ts n t)
        (ap (λ k. fill allocated entry (i + 1) left k (some (map some ts' ++ replicate n none)))
            {x = length ts + 1} (omega (arith, length-append ts (t ∷ [])))
          ∙ fill_lem allocated entry ok safe (i + 1) left n ts' (omega arith)
          ∙ ap (λ k. some (some (map some k ++ replicate (n - length more) none)))
              (append_assoc ts (t ∷ []) more)
          ∙ ap (λ k. some (some (map some (ts ++ t ∷ more) ++ replicate k none)))
              {x = n - length more} (omega arith))
]

-- `destroy_string_list` frees every text of such a list, so none leaks.
pub destroy_string_list-filled :
    (ts : List Bytes) (n count : ℕ)
    → length ts ≤ count
    → destroy_string_list (map some ts ++ replicate n none) count ≡ ts
unfolding destroy_string_list
destroy_string_list-filled [] zero count h = refl
destroy_string_list-filled [] (suc n) count h = refl
destroy_string_list-filled (t ∷ ts) n zero h = absurd (omega arith)
destroy_string_list-filled (t ∷ ts) n (suc count) h =
    ap (λ k. t ∷ k) (destroy_string_list-filled ts n count (omega arith))
