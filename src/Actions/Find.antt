-- ===== src/Actions/Find.antt =====
-- `find_action` and `destroy_actions` on an array of actions that is ended by NULL.
use easyforetell.Prelude.{
  ◌≡◌, refl, List, [], ◌∷◌, ◌++◌, Option, none, some, if◌then◌else◌, inl, inr, Bool-cases,
}
use easyforetell.Memory.{Bytes, equal}
use easyforetell.Actions.{Action, Slot, null, action, find_action, destroy_actions, refresh_texts}

-- An array with these actions, the NULL behind them, and anything behind that.
abbrev pub ended_by : List Action → List Slot → List Slot
ended_by [] slots = null ∷ slots
ended_by (a ∷ acts) slots = action a ∷ ended_by acts slots

-- The first action of a name.
unfoldable pub first_named : Bytes → List Action → Option Action
first_named name [] = none
first_named name (a ∷ acts) = if equal a.name name then some a else first_named name acts

-- On an array that holds actions up to a NULL, `find_action` reads no further than the NULL and
-- returns the first action of the given name, or NULL if no action has it.
pub find_action_lem :
    (acts : List Action) (slots : List Slot) (name : Bytes)
    → find_action (ended_by acts slots) name ≡ some (first_named name acts)
unfolding find_action first_named
find_action_lem [] slots name = refl
find_action_lem (a ∷ acts) slots name = elim (Bool-cases (equal a.name name)) [
  | inl same ↦ rw same refl
  | inr other ↦ rw other (find_action_lem acts slots name)
]

unfoldable pub all_texts : List Action → List Bytes
all_texts [] = []
all_texts (a ∷ acts) = a.name ∷ (refresh_texts a.refresh_list a.count ++ all_texts acts)

-- On an array that holds actions up to a NULL, `destroy_actions` reads no further than the NULL
-- and frees every action with the texts of its refresh list, in order, each once.
pub destroy_actions_lem :
    (acts : List Action) (slots : List Slot)
    → destroy_actions (ended_by acts slots) ≡ some (all_texts acts)
unfolding destroy_actions all_texts
destroy_actions_lem [] slots = refl
destroy_actions_lem (a ∷ acts) slots = rw (destroy_actions_lem acts slots)
