-- ===== src/Options/Words.antt =====
-- The command line as a list of options, without the variable `skip`.
use easyforetell.Prelude.{
  ◌≡◌, refl, true, false, List, [], ◌∷◌, ltb, length, if◌then◌else◌, Bool-cases, inl, inr,
}
use easyforetell.Memory.{Bytes, codes, equal}
use easyforetell.Config.{path_max}
use easyforetell.Options.{Options, Given, options, usage, overflow, load_options}

-- What a word is for.
pub data Word : Type 0 where
  is_verbose is_file is_other : Word

unfoldable pub word : Bytes → Word
word arg =
    if equal arg (codes "-v")
    then is_verbose
    else if equal arg (codes "-f")
    then is_file
    else is_other

-- An option is -v, or -f with the word behind it; other words are passed over. The last -f wins.
unfoldable pub read_words : List Bytes → Options → Given
read_words [] o = options o
read_words (arg ∷ []) o = elim (word arg) [
  | is_verbose ↦ options (record o { verbose = true })
  | is_file ↦ usage
  | is_other ↦ options o
]
read_words (arg ∷ (next ∷ args)) o = elim (word arg) [
  | is_verbose ↦ read_words (next ∷ args) (record o { verbose = true })
  | is_file ↦ elim (ltb (length next) path_max) [
    | true ↦ read_words args (record o { config_filename = next })
    | false ↦ overflow
  ]
  | is_other ↦ read_words (next ∷ args) o
]

-- The loop over the command line with the variable `skip` gives the same as reading it word by
-- word: -v sets `verbose`, -f takes the word behind it, whatever that is, as the name of the
-- configuration, and the last one wins; -f at the end shows the usage; a name of PATH_MAX bytes
-- or more overruns its buffer; other words are passed over.
pub load_options_lem :
    (args : List Bytes) (o : Options) → load_options args false o ≡ read_words args o
unfolding load_options read_words word
load_options_lem [] o = refl
load_options_lem (arg ∷ []) o = elim (Bool-cases (equal arg (codes "-v"))) [
  | inl v ↦ rw (v, load_options, read_words, word)
  | inr no_v ↦ elim (Bool-cases (equal arg (codes "-f"))) [
    | inl f ↦ rw (no_v, load_options, read_words, word, f)
    | inr no_f ↦ rw (no_v, load_options, read_words, word, no_f)
  ]
]
load_options_lem (arg ∷ (next ∷ args)) o = elim (Bool-cases (equal arg (codes "-v"))) [
  | inl v ↦
      rw (v, load_options, read_words, word)
        (load_options_lem (next ∷ args) (record o { verbose = true }))
  | inr no_v ↦ elim (Bool-cases (equal arg (codes "-f"))) [
    | inr no_f ↦ rw (no_v, load_options, read_words, word, no_f) (load_options_lem (next ∷ args) o)
    | inl f ↦ elim (Bool-cases (ltb (length next) path_max)) [
      | inl fits ↦
          rw (no_v, load_options, read_words, word, f, fits)
            (load_options_lem args (record o { config_filename = next }))
      | inr long ↦ rw (no_v, load_options, read_words, word, f, long)
    ]
  ]
]
