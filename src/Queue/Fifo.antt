-- ===== src/Queue/Fifo.antt =====
-- The specification of the queue: a list of at most `capacity` texts, oldest first.
use easyforetell.Prelude.{ℕ, List, [], ◌∷◌, ◌++◌, ltb, if◌then◌else◌, length}
use easyforetell.Memory.{Bytes}

abbrev pub Fifo : Type 0
Fifo = List Bytes

-- What clients ask of the queue, and what they see.
pub data Request : Type 0 where
  put : Bytes → Request
  get : Request

pub data Reply : Type 0 where
  accepted : Reply
  full : Reply
  got : Bytes → Reply

module _ (capacity : ℕ) where
  -- The FIFO's answers. `last` is the text that the reader got before: a `get` from an empty
  -- queue gives it again.
  unfoldable pub serve : Fifo → Bytes → List Request → List Reply
  serve ts last [] = []
  serve ts last (put t ∷ rs) =
      let room = accepted ∷ serve (ts ++ t ∷ []) last rs in
      let none_left = full ∷ serve ts last rs in
      if ltb (length ts) capacity then room else none_left
  serve [] last (get ∷ rs) = got last ∷ serve [] last rs
  serve (t ∷ ts) last (get ∷ rs) = got t ∷ serve ts t rs
