-- ===== src/Pipe/Created.antt =====
-- What `create_fifo` leaves at the name of the pipe.
use easyforetell.Prelude.{
  ℕ, ◌≡◌, ◌⊎◌, refl, Bool, true, false, Option, none, some, inl, inr, Bool-cases,
}
use easyforetell.Pipe.{Node, pipe, Calls, unlinked, make_fifo, is_regular, create_fifo}

make_fifo_lem :
    (calls : Calls) (at_name : Option Node) (fd : ℕ)
    → (make_fifo calls at_name).1 ≡ some fd
    → (at_name ≡ none) × ((make_fifo calls at_name).0 ≡ some pipe) × (calls.opened ≡ some fd)
unfolding make_fifo
make_fifo_lem calls (some x) fd e = absurd (cc)
make_fifo_lem calls none fd e = elim (Bool-cases calls.mkfifo) [
  | inl may ↦ (refl, rw may refl, rw may at e)
  | inr may_not ↦ let f = rw may_not at e in absurd (cc)
]

was_removed :
    (may : Bool) (at_name : Option Node)
    → unlinked may at_name ≡ none
    → (at_name ≡ none) ⊎ (may ≡ true)
unfolding unlinked
was_removed true at_name e = inr refl
was_removed false at_name e = inl e

not_regular :
    (calls : Calls) (at_name : Option Node)
    → calls.lstat ≡ true
    → is_regular at_name ≡ false
    → create_fifo calls at_name ≡ make_fifo calls (unlinked calls.unlink at_name)
unfolding create_fifo
not_regular calls at_name looks free = rw (looks, free)

-- Where `lstat` may look, a descriptor from `create_fifo` is that of a new pipe: no regular file
-- stood at the name, and what stood there is removed.
pub create_fifo_lem :
    (calls : Calls) (at_name : Option Node) (fd : ℕ)
    → calls.lstat ≡ true
    → (create_fifo calls at_name).1 ≡ some fd
    → ((create_fifo calls at_name).0 ≡ some pipe)
      × (calls.opened ≡ some fd)
      × (is_regular at_name ≡ false)
      × ((at_name ≡ none) ⊎ (calls.unlink ≡ true))
unfolding create_fifo
create_fifo_lem calls at_name fd looks e = elim (Bool-cases (is_regular at_name)) [
  | inl regular_file ↦ let f = rw (create_fifo, looks, regular_file) at e in absurd (cc)
  | inr free ↦
      let same = not_regular calls at_name looks free in
      let made = make_fifo_lem calls (unlinked calls.unlink at_name) fd (rw same at e) in
      (rw same made.1, made.2, free, was_removed calls.unlink at_name made.0)
]
