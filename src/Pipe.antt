-- ===== src/Pipe.antt =====
-- src/queral.c: create_fifo, write_fifo and create_thread, on what the operating system answers.
pub mod Created
use easyforetell.Prelude.{
  ℕ, Bool, true, false, ◌&&◌, Option, none, some, ◌==◌, if◌then◌else◌, length,
}
use easyforetell.Memory.{Bytes}

-- What stands at a name of the file system.
pub data Node : Type 0 where
  regular pipe other : Node

-- What the system calls do: whether `lstat` may look, `unlink` may remove and `mkfifo` may make, and
-- the descriptor that `open` gives for a pipe.
pub record Calls : Type 0 where
  pub lstat : Bool
  pub unlink : Bool
  pub mkfifo : Bool
  pub opened : Option ℕ

-- The name after `unlink`
unfoldable pub unlinked : Bool → Option Node → Option Node
unlinked true at_name = none
unlinked false at_name = at_name

-- From `mkfifo` on: the name, and the descriptor or -1. `mkfifo` fails where something stands.
unfoldable pub make_fifo : Calls → Option Node → Option Node × Option ℕ
make_fifo calls (some x) = (some x, none)
make_fifo calls none = if calls.mkfifo then (some pipe, calls.opened) else (none, none)

unfoldable pub is_regular : Option Node → Bool
is_regular (some regular) = true
is_regular _ = false

unfoldable pub create_fifo : Calls → Option Node → Option Node × Option ℕ
create_fifo calls at_name =
    if calls.lstat && is_regular at_name
    then (at_name, none)
    else make_fifo calls (unlinked calls.unlink at_name)

-- `opened` is whether `open` gives a descriptor and `res` what `write` returns; true is the result 0.
unfoldable pub write_fifo : Bool → ℕ → Bytes → Bool
write_fifo opened res str = if opened then res == length str else false

-- The signals that a thread blocks.
abbrev pub Mask : Type 0
Mask = ℕ → Bool

-- The mask of the new thread, if there is one, and that of its creator afterwards; `error` is what
-- `pthread_create` returns.
unfoldable pub create_thread : ℕ → Mask → Option Mask × Mask
create_thread error oldsigset =
    let fullsigset : Mask = λ signo. true in
    (if error == 0 then some fullsigset else none, oldsigset)
