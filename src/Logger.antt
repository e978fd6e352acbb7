-- ===== src/Logger.antt =====
-- src/logger.c. What vsprintf makes of a format and its arguments is the text that a call is given.
pub mod Laws
use easyforetell.Prelude.{ℕ, Bool, true, false, Option, none, some, ltb, length, if◌then◌else◌}
use easyforetell.Memory.{Bytes}

-- The priorities of syslog that the daemon uses.
pub data Priority : Type 0 where
  info notice warning err : Priority

-- A message for syslog.
pub record Logged : Type 0 where
  pub priority : Priority
  pub message : Bytes

abbrev pub log_buffer_size : ℕ
log_buffer_size = 256

-- vsprintf into `buffer[QUERAL_LOG_BUFFER_SIZE]`, and `log_message`; `none` is a write past it.
unfoldable pub log_text : Priority → Bytes → Option Logged
log_text priority text =
    if ltb (length text) log_buffer_size
    then some (record { priority = priority; message = text })
    else none

unfoldable pub log_info : Bytes → Option Logged
unfolding log_text
log_info text = log_text info text

unfoldable pub log_notice : Bytes → Option Logged
unfolding log_text
log_notice text = log_text notice text

unfoldable pub log_warning : Bytes → Option Logged
unfolding log_text
log_warning text = log_text warning text

unfoldable pub log_error : Bytes → Option Logged
unfolding log_text
log_error text = log_text err text

-- Whether a message of a priority passes the mask that `log_init` leaves, from the mask of all.
unfoldable pub log_init : Bool → Priority → Bool
log_init true priority = true
log_init false info = false
log_init false notice = true
log_init false warning = true
log_init false err = true
