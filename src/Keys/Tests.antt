-- ===== src/Keys/Tests.antt =====
-- The theorems on `create_key` at concrete keys.
use easyforetell.Prelude.{◌≡◌, [], some, none, arith, replicate, refl}
use easyforetell.Memory.{codes, literal}
use easyforetell.Memory.Laws.{Holds, Holds-text}
use easyforetell.Keys.{create_key}
use easyforetell.Keys.Laws.{Made, create_key_lem, create_key-overflows}

held_prefix : Holds (literal "k_") (codes "k_")
held_prefix = Holds-text (codes "k_") [] (ground arith)

held_url : Holds (literal "abc") (codes "abc")
held_url = Holds-text (codes "abc") [] (ground arith)

create_key_lem_example :
    Made 250
      (codes "k_abc")
      (create_key 251 (some (replicate 250 7)) 250 (some (literal "k_")) (some (literal "abc")))
create_key_lem_example =
    create_key_lem 251 (replicate 250 7) held_prefix held_url 250 (omega arith) (omega arith)
      (omega arith)

-- With a greatest key of 6 bytes, an array of 5.
create_key-overflows_example :
    create_key 6 (some (replicate 5 7)) 5 (some (literal "k_")) (some (literal "abc")) ≡ none
create_key-overflows_example =
    create_key-overflows 6 (replicate 5 7) held_prefix held_url refl (omega arith) (omega arith)
      (omega arith)
