-- ===== src/Replace.antt =====
-- src/string_utils.c, `replace_string`, and src/config_utils.c, `substitute_variables` with the list
-- reader that uses it. Texts are lists of bytes without their NUL; the buffers' sizes are checked
-- where a text is written.
pub mod Laws
mod Tests
use easyforetell.Prelude.{
  ℕ, zero, suc, ◌+◌, ◌-◌, Bool, true, false, List, [], ◌∷◌, ◌++◌, Option, none, some, ◌>>=◌, ltb,
  leb, ◌==◌, if◌then◌else◌, length, take, drop,
}
use easyforetell.Memory.{Bytes, codes, find}
use easyforetell.StringLists.{StringList, Entry, fault, skip, text, init_string_list, fill}
use easyforetell.Config.{LibConfig, max_line_length}

-- The results 1, 0 and -1 of `replace_string`, and a write past the end of `buffer[str_length]`.
pub data Replaced : Type 0 where
  replaced : Bytes → Replaced
  not_found : Replaced
  refused : Replaced
  overflow : Replaced

-- The test adds `strlen(buffer) - (found - str)`, which is 0, to the lengths behind the match: the
-- text in front of it does not count.
unfoldable pub replace_at : ℕ → Bytes → Bytes → Bytes → ℕ → Replaced
replace_at str_length str original replacement found =
    let rest = drop (found + length original) str in
    if leb str_length found
    then refused
    else if leb str_length (found - found + length replacement + length rest)
    then refused
    else if leb str_length (found + length replacement + length rest)
    then overflow
    else replaced (take found str ++ (replacement ++ rest))

unfoldable pub replace_string : Bytes → ℕ → Bytes → Bytes → Replaced
unfolding replace_at
replace_string str str_length original replacement = elim (find original str) [
  | none ↦ not_found
  | some found ↦ replace_at str_length str original replacement found
]

-- The token of `strtok` at the head of a text, and the text behind the separator that ends it.
unfoldable pub token : Bytes → Bytes × Bytes
token [] = ([], [])
token (c ∷ cs) = let (t, rest) = token cs in if c == b' ' then ([], cs) else (c ∷ t, rest)

unfoldable pub skip_separators : Bytes → Bytes
skip_separators [] = []
skip_separators (c ∷ cs) = if c == b' ' then skip_separators cs else c ∷ cs

-- What a loop that may run for ever gives: a text, a memory fault, or no end within the fuel.
pub data Outcome : Type 0 where
  ended : Bytes → Outcome
  faulted : Outcome
  running : Outcome

-- The `do ... while (replaced)` of `substitute_variables`
unfoldable pub replace_all : ℕ → ℕ → Bytes → Bytes → Bytes → Outcome
replace_all zero str_length name value str = running
replace_all (suc fuel) str_length name value str = elim (replace_string str str_length name value) [
  | replaced str' ↦ replace_all fuel str_length name value str'
  | not_found ↦ ended str
  | refused ↦ ended str
  | overflow ↦ faulted
]

-- What the body of the `for` does behind `strtok` with the second token and the rest: memmove reads
-- `str_length` bytes from the token on, and the array `variable` has MAX_LINE_LENGTH.
unfoldable pub with_value : ℕ → ℕ → Bytes → Bytes → Bytes → Bytes → Outcome
with_value fuel str_length variable name [] str = replace_all fuel str_length name name str
with_value fuel str_length variable name (c ∷ cs) str =
    let moved = replace_all fuel str_length name (token (c ∷ cs)).0 str in
    if ltb max_line_length (length variable - length (c ∷ cs) + str_length) then faulted else moved

-- The body of the `for`. Without a second token `variable` still holds the name.
unfoldable pub replace_variable : ℕ → ℕ → Bytes → Bytes → Outcome
replace_variable fuel str_length variable str =
    let (name, rest) = token (skip_separators variable) in
    with_value fuel str_length variable name (skip_separators rest) str

unfoldable pub substitute_variables : ℕ → Bytes → ℕ → StringList → ℕ → Outcome
substitute_variables fuel str str_length (some variable ∷ variables) (suc variable_count) =
    elim (replace_variable fuel str_length variable str) [
      | ended str' ↦ substitute_variables fuel str' str_length variables variable_count
      | faulted ↦ faulted
      | running ↦ running
    ]
substitute_variables fuel str str_length _ _ = ended str

module _ (lib : LibConfig) where
  open lib use {
    Config, Setting, config_lookup, config_setting_length, config_setting_get_elem,
    config_setting_lookup_string,
  }

  -- strcpy into `tmp[MAX_LINE_LENGTH]` and the substitution in it; fuel that runs out counts as a
  -- fault here.
  unfoldable pub url_entry : ℕ → Setting → StringList → ℕ → ℕ → Entry
  url_entry fuel setting variables variable_count i =
      elim (config_setting_lookup_string (config_setting_get_elem setting i) (codes "url")) [
        | none ↦ skip
        | some url ↦
            let substituted : Entry =
              elim (substitute_variables fuel url max_line_length variables variable_count) [
                | ended str ↦ text str
                | faulted ↦ fault
                | running ↦ fault
              ] in
            if ltb (length url) max_line_length then substituted else fault
      ]

  unfoldable pub read_url_list :
      ℕ → Bool → (ℕ → Bool) → Config → ℕ → ℕ → StringList → ℕ → Option (Option StringList × ℕ)
  read_url_list fuel list_allocated allocated cfg url_count maximum_count variables variable_count =
      elim (config_lookup cfg (codes "cache.pages")) [
        | none ↦ some (none, url_count)
        | some setting ↦
            let count = config_setting_length setting in
            let filled = do
              list ←
                  fill allocated (url_entry fuel setting variables variable_count) 0 count 0
                    (init_string_list list_allocated count)
              some (list, count)
            in if ltb maximum_count count then some (none, count) else filled
      ]
