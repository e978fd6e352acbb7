-- ===== src/StringLists.antt =====
-- src/string_utils.c: lists of strings of a fixed length, filled from the front; `none` is NULL.
-- What malloc returns is told by a Boolean for each call.
pub mod Fill
mod Tests
use easyforetell.Prelude.{
  ℕ, zero, suc, ◌+◌, Bool, true, false, List, [], ◌∷◌, Option, none, some, ltb, if◌then◌else◌,
  replicate, ◌>>=◌, set,
}
use easyforetell.Memory.{Bytes}

abbrev pub StringList : Type 0
StringList = List (Option Bytes)

unfoldable pub init_string_list : Bool → ℕ → Option StringList
init_string_list allocated count =
    if ltb count 1 then none else if allocated then some (replicate count none) else none

unfoldable pub dup_string : Bool → Bytes → Option Bytes
dup_string allocated str = if allocated then some str else none

-- The loop of `destroy_string_list`: the texts that it frees.
unfoldable pub destroy_string_list : StringList → ℕ → List Bytes
destroy_string_list (some t ∷ list) (suc count) = t ∷ destroy_string_list list count
destroy_string_list _ _ = []

-- One element of a configured list: what the body of the loop makes of it.
pub data Entry : Type 0 where
  fault : Entry
  skip : Entry
  text : Bytes → Entry

-- The loop that the list readers of config_utils.c share: complete elements go to the next free
-- place of the list. The outer `none` is a memory fault (the list may be NULL); the result is NULL
-- after a failed allocation.
module _ (allocated : ℕ → Bool) (entry : ℕ → Entry) where
  unfoldable pub fill : ℕ → ℕ → ℕ → Option StringList → Option (Option StringList)
  fill i zero idx list = some list
  fill i (suc left) idx list = elim (entry i) [
    | fault ↦ none
    | skip ↦ fill (i + 1) left idx list
    | text t ↦ elim list [
      | none ↦ none
      | some places ↦ elim (dup_string (allocated i) t) [
        | none ↦ some none
        | some copy ↦ fill (i + 1) left (idx + 1) (some (set places idx (some copy)))
      ]
    ]
  ]
