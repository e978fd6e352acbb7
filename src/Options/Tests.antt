-- ===== src/Options/Tests.antt =====
-- A command line with both options.
use easyforetell.Prelude.{◌≡◌, refl, true, false, List, [], ◌∷◌}
use easyforetell.Memory.{Bytes, codes, equal}
use easyforetell.Options.{Options, options, usage, load_options}
use easyforetell.Options.Words.{read_words, load_options_lem}

abbrev args : List Bytes
args = codes "-f" ∷ codes "a.conf" ∷ codes "x" ∷ codes "-v" ∷ []

abbrev defaults : Options
defaults = record { verbose = false; config_filename = codes "/etc/queral.conf" }

load_options_lem_example : load_options args false defaults ≡ read_words args defaults
load_options_lem_example = load_options_lem args defaults

both :
    load_options args false defaults
    ≡ options (record { verbose = true; config_filename = codes "a.conf" })
unfolding load_options equal
both = refl

no_name : load_options (codes "-f" ∷ []) false defaults ≡ usage
unfolding load_options equal
no_name = refl
