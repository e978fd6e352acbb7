-- ===== src/StringUtils.antt =====
-- src/string_utils.c: trimming a text within its buffer.
pub mod Parts
pub mod Trim
mod Tests
use easyforetell.Prelude.{
  ℕ, zero, suc, ◌+◌, ◌-◌, Bool, true, false, ◌||◌, List, [], ◌∷◌, ◌++◌, Option, none, some, ◌>>=◌,
  leb, ltb, ◌==◌, if◌then◌else◌, length, take, drop, replicate, get_elem?,
}
use easyforetell.Memory.{Bytes, c_str, strlen, strcpy, strncpy, strstr, write_at, isspace}

-- `skip_spaces`: how far the returned pointer is from the one given
unfoldable pub skip_spaces : Bytes → Option ℕ
unfolding isspace
skip_spaces [] = none
skip_spaces (c ∷ cs) = if isspace c then (do k ← skip_spaces cs; some (suc k)) else some 0

-- The loop of `strim` that moves `end` back; `n` is `end + 1 - str`, so `end >= str` is `0 < n`.
-- The result is where the NUL goes, from `str`.
unfoldable pub back_up : Bytes → ℕ → Option ℕ
unfolding isspace
back_up str zero = some 0
back_up str (suc n) = do
  c ← get_elem? str n
  let rest = back_up str n
  if isspace c then rest else some (suc n)

-- `strim`: the buffer after it, and the offset of the pointer that it returns
unfoldable pub strim : Bytes → Option (Bytes × ℕ)
unfolding skip_spaces strlen back_up write_at
strim b = do
  k ← skip_spaces b
  size ← strlen (drop k b)
  let trimmed = do n ← back_up (drop k b) size; b' ← write_at b (k + n) (0 ∷ []); some (b', k)
  if size == 0 then some (b, k) else trimmed
