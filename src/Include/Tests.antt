-- ===== src/Include/Tests.antt =====
-- A directory with two files, of which the first defines an action and the second is no
-- configuration.
use easyforetell.Prelude.{
  ℕ, ◌≡◌, refl, Bool, true, List, [], ◌∷◌, none, some, arith, if◌then◌else◌, replicate, inr,
}
use easyforetell.Memory.{Bytes, codes, equal}
use easyforetell.Config.{LibConfig, load_config, check_version, read_string}
use easyforetell.Actions.{Action, read_name}
use easyforetell.Directory.{LibDirectory, has_extension, directory_prefix, is_file}
use easyforetell.Directory.Listing.{matching}
use easyforetell.Include.{load_include, queral_version}
use easyforetell.Include.Files.{Opens, load_include-bounds}

abbrev names : List Bytes
names = codes "a.conf" ∷ codes "b.conf" ∷ codes "notes" ∷ []

abbrev directory : LibDirectory
directory = record { opendir = λ dir. some names; regular = λ name. some true }

-- One variable that has no name, and the page p1.
abbrev lib : LibConfig
lib = record {
  Config = Unit {0};
  Setting = Unit {0};
  config_read_file = λ path. if equal path (codes "etc/a.conf") then some tt else none;
  config_lookup = λ cfg path. some tt;
  config_lookup_string =
      λ cfg path. if equal path (codes "version") then some (codes "1.0") else some (codes "pages");
  config_lookup_int = λ cfg path. none;
  config_setting_length = λ setting. 1;
  config_setting_get_elem = λ setting i. setting;
  config_setting_lookup_string =
      λ setting path. if equal path (codes "url") then some (codes "p1") else none;
  config_setting_lookup_int = λ setting path. none;
}

abbrev allocated : ℕ → Bool
allocated i = true

abbrev pages : Action
pages = record { name = codes "pages"; refresh_list = some (some (codes "p1") ∷ []); count = 1 }

named : read_name lib 5 allocated (codes "etc/a.conf") queral_version ≡ some (tt, codes "pages")
unfolding read_name load_config check_version read_string equal
named = refl

prefix_lem : directory_prefix (codes "etc") ≡ some (codes "etc/")
unfolding directory_prefix equal
prefix_lem = refl

abbrev many : LibDirectory
many = record { opendir = λ dir. some (replicate 33 (codes "a.conf")); regular = λ name. some true }

many-Opens : Opens lib many 5 allocated (codes "etc") (codes "etc/") (replicate 33 (codes "a.conf"))
many-Opens = record { ok = λ i. refl; opened = refl; named = prefix_lem; fit = omega arith }

many_found :
    matching many (codes "etc/") (codes ".conf") (replicate 33 (codes "a.conf"))
    ≡ replicate 33 (codes "etc/a.conf")
unfolding matching has_extension is_file equal
many_found = refl

load_include-bounds_example : load_include lib many 5 allocated true true (codes "etc") ≡ none
load_include-bounds_example =
    load_include-bounds lib many 5 allocated (codes "etc") (codes "etc/")
      (replicate 33 (codes "a.conf")) (replicate 33 (codes "etc/a.conf")) true many-Opens many_found
      (inr (omega arith))
