-- ===== src/Options.antt =====
-- src/queral.c, the loop of `main` over the command line.
pub mod Words
mod Tests
use easyforetell.Prelude.{Bool, true, false, List, [], ◌∷◌, ltb, length, if◌then◌else◌}
use easyforetell.Memory.{Bytes, codes, equal}
use easyforetell.Config.{path_max}

pub record Options : Type 0 where
  pub verbose : Bool
  pub config_filename : Bytes

-- The options; the usage text and the end; or a write past `config_filename[PATH_MAX]`.
pub data Given : Type 0 where
  options : Options → Given
  usage : Given
  overflow : Given

-- The rounds that are left, with the variable `skip` and the options so far. The arguments start
-- behind the program's name.
unfoldable pub load_options : List Bytes → Bool → Options → Given
load_options [] skip o = options o
load_options (arg ∷ args) true o = load_options args false o
load_options (arg ∷ []) false o = elim (equal arg (codes "-v")) [
  | true ↦ options (record o { verbose = true })
  | false ↦ elim (equal arg (codes "-f")) [ true ↦ usage | false ↦ options o ]
]
load_options (arg ∷ (next ∷ args)) false o = elim (equal arg (codes "-v")) [
  | true ↦ load_options (next ∷ args) false (record o { verbose = true })
  | false ↦ elim (equal arg (codes "-f")) [
    | false ↦ load_options (next ∷ args) false o
    | true ↦ elim (ltb (length next) path_max) [
      | false ↦ overflow
      | true ↦ load_options (next ∷ args) true (record o { config_filename = next })
    ]
  ]
]
