-- ===== src/Curl/Laws.antt =====
-- The bytes that the callback collects, and the bound that it keeps.
use easyforetell.Prelude.{
  concat, ℕ, ◌+◌, ◌-◌, ◌*◌, ◌≤◌, ◌<◌, ◌≡◌, refl, sym, ap, ◌∙◌, Bool, true, false, List, [], ◌∷◌,
  ◌++◌, append_assoc, append-nil, Option, some, arith, length, length-append, length-drop, take-all,
  drop-append_add, drop, take-append, lt→ltb, not_lt→ltb, ◌==◌, subst,
}
use easyforetell.Memory.{Bytes, write_at}
use easyforetell.Memory.Laws.{read_at-fits, write_at-fits}
use easyforetell.Curl.{MemoryStruct, buffer_memory_size, wrap, write_callback, receive}

-- The block is as large as its bound and begins with the bytes `s` and a NUL; it may be of a
-- download that only fetches.
pub record Collects (mem : MemoryStruct) (s : Bytes) : Type 0 where
  pub rest : Bytes
  pub shape : mem.memory ≡ s ++ 0 ∷ rest
  pub counted : mem.size ≡ length s
  pub whole : length mem.memory ≡ buffer_memory_size
  pub on : mem.enabled ≡ true

-- A call that takes all of a piece.
pub record Takes (s piece : Bytes) (o : Option (MemoryStruct × ℕ)) : Type 0 where
  pub after : MemoryStruct
  pub runs : o ≡ some (after, length piece)
  pub collects : Collects after (s ++ piece)

write_behind :
    (p r d : Bytes)
    → length d ≤ length r
    → write_at (p ++ r) (length p) d ≡ some (p ++ (d ++ drop (length d) r))
write_behind p r d room =
    write_at-fits (p ++ r) (length p) d (omega (arith, length-append p r))
    ∙ rw
        (take-append p r (length p) refl, drop-append_add p r (length p + length d) (length d) refl)

module _ (mem : MemoryStruct) (s piece : Bytes) (c : Collects mem s)
    (room : length s + length piece < buffer_memory_size) where
  abbrev front : Bytes
  front = 0 ∷ c.rest

  abbrev tail : Bytes
  tail = drop (length piece) front

  sizes : length s + length front ≡ buffer_memory_size
  sizes = omega (arith, ap length c.shape, length-append s front, c.whole)

  copies : write_at mem.memory (length s) piece ≡ some ((s ++ piece) ++ tail)
  copies =
      ap (λ k. write_at k (length s) piece) c.shape
      ∙ write_behind s front piece (omega (arith, sizes))
      ∙ ap some (sym (append_assoc s piece tail))

  ends :
      write_at ((s ++ piece) ++ tail) (length s + length piece) (0 ∷ [])
      ≡ some ((s ++ piece) ++ 0 ∷ drop 1 tail)
  ends =
      ap (λ k. write_at ((s ++ piece) ++ tail) k (0 ∷ [])) (sym (length-append s piece))
      ∙ write_behind (s ++ piece) tail (0 ∷ [])
          (omega (arith, sizes, length-drop (length piece) front))

  write_callback_lem : Takes s piece (write_callback piece 1 (length piece) mem)
  unfolding write_callback
  write_callback_lem = record {
    after = record {
      memory = (s ++ piece) ++ 0 ∷ drop 1 tail;
      size = length s + length piece;
      enabled = mem.enabled;
    };
    runs = rw (
      c.on,
      c.counted,
      real,
      total,
      not_lt→ltb buffer_memory_size (wrap (length s + length piece + 1)) (omega arith),
      read_at-fits piece 0 (length piece) (omega arith),
      take-all (length piece) piece (omega arith),
      copies,
      ends,
    );
    collects = record {
      rest = drop 1 tail;
      shape = refl;
      counted = sym (length-append s piece);
      whole = omega (
        arith,
        length-append (s ++ piece) (0 ∷ drop 1 tail),
        length-append s piece,
        sizes,
        length-drop 1 tail,
        length-drop (length piece) front,
      );
      on = c.on;
    };
  }
    where
      real : wrap (1 * length piece) ≡ length piece
      real = omega arith

      total : wrap (length s + length piece) ≡ length s + length piece
      total = omega arith

-- A download that is taken whole.
pub record Downloads (s : Bytes) (o : Option (MemoryStruct × Bool)) : Type 0 where
  pub after : MemoryStruct
  pub runs : o ≡ some (after, true)
  pub collects : Collects after s

same-length : (n : ℕ) → (n == n) ≡ true
same-length n = ground arith

-- If a block of BUFFER_MEMORY_SIZE bytes is enabled and begins with the bytes collected so far
-- and a NUL, and the pieces of a document with what is collected stay below BUFFER_MEMORY_SIZE
-- bytes, then `write_callback` takes every piece, stays inside the block, and the block ends up
-- with what was collected, all pieces in order and a NUL, its size being their length.
pub receive_lem :
    (pieces : List Bytes) (mem : MemoryStruct) (s : Bytes)
    → Collects mem s
    → length s + length (concat pieces) < buffer_memory_size
    → Downloads (s ++ concat pieces) (receive pieces mem)
unfolding receive
receive_lem [] mem s c room = record {
  after = mem;
  runs = refl;
  collects = subst (Collects mem) (sym (append-nil s)) c;
}
receive_lem (piece ∷ pieces) mem s c room =
    let first =
      write_callback_lem mem s piece c (omega (arith, length-append piece (concat pieces))) in
    let more =
      receive_lem pieces first.after (s ++ piece) first.collects
        (omega (arith, length-append piece (concat pieces), length-append s piece)) in
    record {
      after = more.after;
      runs = rw (first.runs, same-length (length piece), more.runs);
      collects = subst (Collects more.after) (append_assoc s piece (concat pieces)) more.collects;
    }

-- If the bytes collected so far and the next piece, of fewer than 2^64 - 102401 bytes, are
-- together at least BUFFER_MEMORY_SIZE bytes, then `write_callback` changes nothing and its
-- result is not the length of the piece, so that the transfer fails.
pub receive-refuses :
    (piece : Bytes) (pieces : List Bytes) (mem : MemoryStruct) (s : Bytes)
    → Collects mem s
    → buffer_memory_size ≤ length s + length piece
    → length piece < 18446744073709551615 - buffer_memory_size
    → receive (piece ∷ pieces) mem ≡ some (mem, false)
unfolding receive write_callback
receive-refuses piece pieces mem s c over small = rw (
  c.on,
  c.counted,
  real,
  lt→ltb buffer_memory_size (wrap (length s + length piece + 1)) (omega (arith, total)),
  other,
)
  where
    real : wrap (1 * length piece) ≡ length piece
    real = omega arith

    full : length s < buffer_memory_size
    full = omega (arith, ap length c.shape, length-append s (0 ∷ c.rest), c.whole)

    total : wrap (length s + length piece + 1) ≡ length s + length piece + 1
    total = omega (arith, full)

    other : (18446744073709551615 == length piece) ≡ false
    other = ground arith
