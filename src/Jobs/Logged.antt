-- ===== src/Jobs/Logged.antt =====
-- What worker_thread of src/queral.c logs of a text from the pipe.
use easyforetell.Prelude.{
  ◌≤◌, ◌≡◌, refl, ◌++◌, Option, none, arith, length, length-append, not_lt→ltb,
}
use easyforetell.Memory.{Bytes, codes}
use easyforetell.Logger.Laws.{text-overflows}
use easyforetell.Logger.{notice, Logged, log_buffer_size, log_notice, log_text}

-- A name of no action
unfoldable pub log_unknown : Bytes → Option Logged
log_unknown job =
    log_notice (codes "Failed to update a non-existent cache: '" ++ (job ++ codes "'"))

-- A command that is none
unfoldable pub log_undefined : Bytes → Option Logged
log_undefined command = log_notice (codes "Calling an undefined operation: " ++ command)

-- A job to update what no action has as its name is logged past the logger's buffer if the name
-- has 215 bytes or more.
pub log_unknown-overflows : (job : Bytes) → 215 ≤ length job → log_unknown job ≡ none
unfolding log_unknown log_notice
log_unknown-overflows job long =
    text-overflows notice (codes "Failed to update a non-existent cache: '") job (codes "'")
      (omega (arith, long))

-- A command that is none is logged past the logger's buffer if it has 224 bytes or more.
pub log_undefined-overflows :
    (command : Bytes) → 224 ≤ length command → log_undefined command ≡ none
unfolding log_undefined log_notice log_text
log_undefined-overflows command long =
    rw
      (not_lt→ltb (length (codes "Calling an undefined operation: " ++ command)) log_buffer_size
        (omega (arith, long, length-append (codes "Calling an undefined operation: ") command)))
      refl
