-- ===== src/Memory.antt =====
-- Buffers of bytes as C sees them, and the functions of <string.h> and <ctype.h> that the program
-- calls. A buffer is the list of all its bytes; a pointer into it is an offset, and a pointer that
-- is only read is the rest of the buffer from there. `none` is an access outside the buffer.
pub mod Laws
pub mod Moves
pub mod Strings
use Prim.Native.Char.{code}
use Prim.Native.String.{String}
use easyforetell.Prelude.{
  ℕ, zero, suc, ◌+◌, ◌-◌, Bool, true, false, ◌&&◌, ◌||◌, List, [], ◌∷◌, ◌++◌, Option, none, some,
  ◌>>=◌, leb, ltb, ◌==◌, if◌then◌else◌, length, take, drop, replicate,
}

abbrev pub Bytes : Type 0
Bytes = List ℕ

-- The bytes of an ASCII literal, without the NUL behind them.
abbrev pub codes : String → Bytes
codes String.[] = []
codes (String.◌∷◌ c s) = code c ∷ codes s

-- A string literal.
abbrev pub literal : String → Bytes
literal s = codes s ++ 0 ∷ []

-- The text up to the NUL. There may be none before the buffer ends.
unfoldable pub c_str : Bytes → Option Bytes
c_str [] = none
c_str (c ∷ cs) = if c == 0 then some [] else do s ← c_str cs; some (c ∷ s)

-- At most `n` bytes of the text: what a bounded function reads of it.
unfoldable pub c_str_at_most : ℕ → Bytes → Option Bytes
c_str_at_most zero cs = some []
c_str_at_most (suc n) [] = none
c_str_at_most (suc n) (c ∷ cs) = if c == 0 then some [] else do s ← c_str_at_most n cs; some (c ∷ s)

unfoldable pub read_at : Bytes → ℕ → ℕ → Option Bytes
read_at b k n = if leb (k + n) (length b) then some (take n (drop k b)) else none

unfoldable pub write_at : Bytes → ℕ → Bytes → Option Bytes
write_at b k d =
    if leb (k + length d) (length b) then some (take k b ++ (d ++ drop (k + length d) b)) else none

unfoldable pub strlen : Bytes → Option ℕ
unfolding c_str
strlen b = do s ← c_str b; some (length s)

-- memmove within one buffer
unfoldable pub memmove : Bytes → ℕ → ℕ → ℕ → Option Bytes
unfolding read_at write_at
memmove b to from n = do d ← read_at b from n; write_at b to d

-- strcpy of `src` to offset `k` of `b`
unfoldable pub strcpy : Bytes → ℕ → Bytes → Option Bytes
unfolding c_str write_at
strcpy b k src = do s ← c_str src; write_at b k (s ++ 0 ∷ [])

unfoldable pub strcat : Bytes → Bytes → Option Bytes
unfolding c_str strcpy
strcat b src = do t ← c_str b; strcpy b (length t) src

-- strncpy pads with NUL up to `n` bytes, and writes no NUL where the text is longer.
unfoldable pub strncpy : Bytes → ℕ → Bytes → ℕ → Option Bytes
unfolding c_str_at_most write_at
strncpy b k src n = do s ← c_str_at_most n src; write_at b k (s ++ replicate (n - length s) 0)

unfoldable pub strncat : Bytes → Bytes → ℕ → Option Bytes
unfolding c_str c_str_at_most write_at
strncat b src n = do t ← c_str b; s ← c_str_at_most n src; write_at b (length t) (s ++ 0 ∷ [])

-- The place of the first `c` in a text.
unfoldable pub index_of : ℕ → Bytes → Option ℕ
index_of c [] = none
index_of c (x ∷ xs) = if x == c then some 0 else do i ← index_of c xs; some (suc i)

-- strchr for a byte that is not NUL; the inner option is its null pointer
unfoldable pub strchr : Bytes → ℕ → Option (Option ℕ)
unfolding c_str index_of
strchr b c = do s ← c_str b; some (index_of c s)

unfoldable pub equal : Bytes → Bytes → Bool
equal [] [] = true
equal (x ∷ xs) (y ∷ ys) = x == y && equal xs ys
equal _ _ = false

unfoldable pub is_prefix : Bytes → Bytes → Bool
is_prefix [] ys = true
is_prefix (x ∷ xs) [] = false
is_prefix (x ∷ xs) (y ∷ ys) = x == y && is_prefix xs ys

-- The place of the first copy of `pat` in a text.
unfoldable pub find : Bytes → Bytes → Option ℕ
unfolding is_prefix
find pat [] = if is_prefix pat [] then some 0 else none
find pat (x ∷ xs) = if is_prefix pat (x ∷ xs) then some 0 else do i ← find pat xs; some (suc i)

unfoldable pub strstr : Bytes → Bytes → Option (Option ℕ)
unfolding c_str find
strstr b pat = do s ← c_str b; p ← c_str pat; some (find p s)

-- strcmp(a, b) == 0
unfoldable pub str_equal : Bytes → Bytes → Option Bool
unfolding c_str equal
str_equal a b = do s ← c_str a; t ← c_str b; some (equal s t)

-- isspace in the C locale
unfoldable pub isspace : ℕ → Bool
isspace c = c == b' ' || (leb 9 c && leb c 13)
