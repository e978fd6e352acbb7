-- ===== src/Command.antt =====
-- src/queral.c, `get_command`: the command word of a job, and the job without it.
pub mod Strip
pub mod Meaning
pub mod Parse
mod Tests
use easyforetell.Prelude.{
  ℕ, zero, suc, ◌+◌, ◌-◌, Bool, true, false, List, [], ◌∷◌, Option, none, some, ◌>>=◌,
  if◌then◌else◌, length, drop,
}
use easyforetell.Memory.{Bytes, literal, strlen, memmove, strncpy, strchr, str_equal, write_at}
use easyforetell.StringUtils.{strim}

-- The codes FETCH, CACHE, UPDATE and UNDEFINED of queral.h.
pub data Command : Type 0 where
  fetch cache update undefined : Command

-- `memmove(job, strim(job), job_length)`
unfoldable pub strip_job : Bytes → ℕ → Option Bytes
strip_job job job_length = do (trimmed, start) ← strim job; memmove trimmed 0 start job_length

-- The block "Redefine the job", the same in each of the three cases.
unfoldable pub redefine_job : Bytes → ℕ → Option Bytes
redefine_job job command_length = do
  job_length ← strlen (drop (command_length - 1) job)
  moved ← memmove job 0 (command_length - 1) job_length
  cut ← write_at moved job_length (0 ∷ [])
  strip_job cut job_length

-- The comparisons of the command word, in their order.
unfoldable pub command_code : Bytes → Option Command
unfolding str_equal
command_code command = do
  is_fetch ← str_equal command (literal "FETCH")
  is_cache ← str_equal command (literal "CACHE")
  is_update ← str_equal command (literal "UPDATE")
  some (
      if is_fetch
      then fetch
      else if is_cache
      then cache
      else if is_update
      then update
      else undefined)

unfoldable pub dispatch : Bytes → Bytes → ℕ → Command → Option (Bytes × Bytes × Command)
dispatch command job command_length undefined = some (command, job, undefined)
dispatch command job command_length code = do
  job' ← redefine_job job command_length
  some (command, job', code)

-- The part under `if (found)`; `found` is an offset of `job`.
unfoldable pub named_command : Bytes → Bytes → ℕ → Option (Bytes × Bytes × Command)
named_command command job found = do
  whole ← strlen job
  rest ← strlen (drop found job)
  let command_length = whole - rest + 1
  copied ← strncpy command 0 job command_length
  command' ← write_at copied (command_length - 1) (0 ∷ [])
  code ← command_code command'
  dispatch command' job command_length code

unfoldable pub with_space : Bytes → Bytes → Option ℕ → Option (Bytes × Bytes × Command)
with_space command job none = some (command, job, undefined)
with_space command job (some found) = named_command command job found

-- `get_command`: the buffers `command` and `job` after it, and the code that it returns
unfoldable pub get_command : Bytes → Bytes → Option (Bytes × Bytes × Command)
get_command command job = do
  job_length ← strlen job
  stripped ← strip_job job job_length
  found ← strchr stripped b' '
  with_space command stripped found
