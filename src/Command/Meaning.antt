-- ===== src/Command/Meaning.antt =====
-- What the text of a job means: its command and the argument.
use easyforetell.Prelude.{ℕ, ◌+◌, ◌≤◌, ◌≡◌, none, some, Option, if◌then◌else◌, take, drop, length}
use easyforetell.Memory.{Bytes, codes, equal, index_of}
use easyforetell.StringUtils.Parts.{leading, trim}
use easyforetell.Command.{Command, fetch, cache, update, undefined}

-- The meaning of a command word.
unfoldable pub word_code : Bytes → Command
unfolding equal
word_code w =
    if equal w (codes "FETCH")
    then fetch
    else if equal w (codes "CACHE")
    then cache
    else if equal w (codes "UPDATE")
    then update
    else undefined

-- A known command word is taken off, with the spaces behind it.
unfoldable pub argument : Bytes → Bytes → Command → Bytes
argument t arg undefined = t
argument t arg _ = trim arg

unfoldable pub parse : Bytes → Option ℕ → Command × Bytes
unfolding word_code argument
parse t none = (undefined, t)
parse t (some i) = let code = word_code (take i t) in (code, argument t (drop i t) code)

-- The command and the argument of a line.
unfoldable pub parse_command : Bytes → Command × Bytes
unfolding parse index_of trim
parse_command s = let t = trim s in parse t (index_of b' ' t)

-- A text that `get_command` can trim in a job of `size` bytes: both for it and for its rest from
-- the first space on, the leading spaces and the length are together at most the size.
abbrev pub FitsJob : ℕ → Bytes → Type 0
FitsJob size s =
    (leading s + length s ≤ size)
    × ((i : ℕ)
        → index_of b' ' (trim s) ≡ some i
        → leading (drop i (trim s)) + length (drop i (trim s)) ≤ size)
