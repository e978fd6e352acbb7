-- ===== src/Command/Tests.antt =====
-- `get_command` at work, and the theorems at inputs that meet their hypotheses.
use easyforetell.Prelude.{ℕ, ◌≡◌, refl, ◌++◌, ◌∷◌, some, none, replicate, arith, Option, ◌>>=◌}
use easyforetell.Memory.{
  Bytes, codes, index_of, strlen, strchr, strncpy, memmove, write_at, c_str, isspace,
}
use easyforetell.Memory.Laws.{Holds, Holds-text}
use easyforetell.StringUtils.{strim}
use easyforetell.StringUtils.Parts.{leading, trim}
use easyforetell.Command.{
  get_command, with_space, named_command, dispatch, strip_job, redefine_job, command_code, Command,
  fetch, undefined,
}
use easyforetell.Command.Parse.{Parsed, get_command_lem, get_command-faults}

-- A buffer of BUFFER_SIZE bytes, the text first.
abbrev padded : Bytes → ℕ → Bytes
padded s n = s ++ 0 ∷ replicate n 0

abbrev line : Bytes
line = codes "  FETCH   http://a/ "

abbrev scratch : Bytes
scratch = replicate 255 0

-- The code and the text left in the job.
seen : Option (Bytes × Bytes × Command) → Option (Command × Bytes)
seen none = none
seen (some (_, job, code)) = do t ← c_str job; some (code, t)

fetch_line : seen (get_command scratch (padded line 234)) ≡ some (fetch, codes "http://a/")
unfolding seen get_command strip_job strim memmove strlen strchr with_space named_command strncpy
    write_at command_code dispatch redefine_job c_str
fetch_line = refl

unknown_line :
    seen (get_command scratch (padded (codes "GET x") 249)) ≡ some (undefined, codes "GET x")
unfolding seen get_command strip_job strim memmove strlen strchr with_space named_command strncpy
    write_at command_code dispatch redefine_job c_str
unknown_line = refl

line-Holds : Holds (padded line 234) line
line-Holds = Holds-text line (replicate 234 0) (omega arith)

get_command_lem_example : Parsed 255 255 line (get_command scratch (padded line 234))
unfolding leading trim index_of isspace
get_command_lem_example =
    get_command_lem scratch (padded line 234) line-Holds (omega arith, λ i e. ground arith)
      (omega arith)

-- 200 spaces and 20 bytes behind them: the copy would read 420 bytes of the 255.
abbrev indented : Bytes
indented = replicate 200 b' ' ++ replicate 20 b'x'

get_command-faults_example : get_command scratch (padded indented 34) ≡ none
unfolding leading isspace
get_command-faults_example =
    get_command-faults scratch (padded indented 34)
      (Holds-text indented (replicate 34 0) (omega arith)) (omega arith)
