-- ===== src/StringLists/Tests.antt =====
-- The list readers' loop on three elements, the second of which is not complete.
use easyforetell.Prelude.{
  ℕ, zero, suc, ◌≡◌, ◌≢◌, refl, Bool, true, [], ◌∷◌, ◌++◌, map, some, none, arith, replicate,
  length, ◌-◌,
}
use easyforetell.Memory.{codes}
use easyforetell.StringLists.{Entry, fault, skip, text, fill, destroy_string_list}
use easyforetell.StringLists.Fill.{complete, fill_lem, destroy_string_list-filled}

abbrev entries : ℕ → Entry
entries zero = text (codes "a")
entries (suc zero) = skip
entries (suc (suc i)) = text (codes "b")

entries-safe : (i : ℕ) → entries i ≢ fault
entries-safe zero e = cc
entries-safe (suc zero) e = cc
entries-safe (suc (suc i)) e = cc

abbrev allocated : ℕ → Bool
allocated i = true

fill_lem_example :
    fill allocated entries 0 3 0 (some (replicate 3 none))
    ≡ some (
        some
          (map some (complete entries 0 3) ++ replicate (3 - length (complete entries 0 3)) none))
fill_lem_example = fill_lem allocated entries (λ i. refl) entries-safe 0 3 3 [] (omega arith)

two_texts : complete entries 0 3 ≡ codes "a" ∷ codes "b" ∷ []
unfolding complete
two_texts = refl

destroy_string_list-filled_example :
    destroy_string_list (some (codes "a") ∷ some (codes "b") ∷ none ∷ []) 3
    ≡ codes "a" ∷ codes "b" ∷ []
destroy_string_list-filled_example =
    destroy_string_list-filled (codes "a" ∷ codes "b" ∷ []) 1 3 (omega arith)
