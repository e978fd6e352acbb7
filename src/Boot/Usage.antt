-- ===== src/Boot/Usage.antt =====
-- A command line that ends in -f.
use easyforetell.Prelude.{
  ℕ, ◌≤◌, ◌≡◌, refl, Bool, false, [], ◌∷◌, ◌++◌, none, arith, length, length-append, not_lt→ltb,
}
use easyforetell.Memory.{Bytes, codes, equal}
use easyforetell.Logger.{log_buffer_size, log_info, log_text}
use easyforetell.Config.{LibConfig}
use easyforetell.Directory.{LibDirectory}
use easyforetell.Options.{usage, load_options}
use easyforetell.Boot.{defaults, show_usage, with_options, boot}

dangling_option : load_options (codes "-f" ∷ []) false defaults ≡ usage
unfolding load_options equal
dangling_option = refl

too_long : (program : Bytes) → 232 ≤ length program → show_usage program ≡ none
unfolding show_usage log_info log_text
too_long program long =
    rw
      (not_lt→ltb (length (codes "Usage: " ++ (program ++ codes " [-f config] [-v]")))
        log_buffer_size (omega (arith, long, length-append program (codes " [-f config] [-v]"))))
      refl

-- Where the command line is the program's name and -f, and the name has 232 bytes or more, the
-- usage text is written past the logger's buffer.
pub show_usage-overflows :
    (lib : LibConfig) (directory : LibDirectory) (fuel : ℕ) (allocated : ℕ → Bool)
    (servers_allocated files_allocated actions_allocated : Bool) (program : Bytes)
    → 232 ≤ length program
    → boot lib directory fuel allocated servers_allocated files_allocated actions_allocated
        (program ∷ codes "-f" ∷ [])
      ≡ none
unfolding boot with_options
show_usage-overflows lib directory fuel allocated servers_allocated files_allocated
      actions_allocated program long =
    rw (dangling_option, with_options, too_long program long)
