-- ===== src/Worker.antt =====
-- src/queral.c, `worker_thread`: what a worker does with the action of an UPDATE job.
pub mod Refresh
pub mod Commands
pub mod Feedback
pub mod Unlisted
mod Tests
use easyforetell.Prelude.{
  ℕ, zero, suc, ◌+◌, Bool, true, false, List, [], ◌∷◌, ◌++◌, Option, none, some, ◌>>=◌, leb, length,
  ◌==◌, if◌then◌else◌,
}
use easyforetell.Memory.{Bytes, codes, literal, c_str, strlen, strcpy, strcat, strncat, write_at}
use easyforetell.StringLists.{StringList}
use easyforetell.Queue.{buffer_size}
use easyforetell.Actions.{Action}

-- The loop over the refresh list: the texts that it passes to `write_fifo`. `none` is an access
-- outside a buffer or the list.
unfoldable pub refresh : Bytes → ℕ → StringList → ℕ → Option (List Bytes)
refresh new_command length1 list zero = some []
refresh new_command length1 [] (suc count) = none
refresh new_command length1 (none ∷ list) (suc count) = some []
refresh new_command length1 (some url ∷ list) (suc count) = do
  begun ← write_at new_command length1 (0 ∷ [])
  let length2 = length url
  elim (leb (length1 + length2 + 1) buffer_size) [
    | false ↦ refresh begun length1 list count
    | true ↦ do
      appended ← strncat begun (url ++ 0 ∷ []) length2
      ended ← strcat appended (literal "\n")
      line ← c_str ended
      lines ← refresh ended length1 list count
      some (line ∷ lines)
  ]

-- The list may be NULL; it is looked at only if `count` is not 0.
unfoldable pub refresh_list : Bytes → ℕ → Option StringList → ℕ → Option (List Bytes)
refresh_list new_command length1 (some list) count = refresh new_command length1 list count
refresh_list new_command length1 none zero = some []
refresh_list new_command length1 none (suc count) = none

-- The case UPDATE, on the action found.
unfoldable pub update_action : Bytes → Action → Option (List Bytes)
update_action new_command action = do
  command ← strcpy new_command 0 (literal "CACHE")
  spaced ← strcat command (literal " ")
  length1 ← strlen spaced
  refresh_list spaced length1 action.refresh_list action.count
