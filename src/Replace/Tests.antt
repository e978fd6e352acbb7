-- ===== src/Replace/Tests.antt =====
-- `replace_string` and `substitute_variables` at work, and the theorems at inputs that meet their
-- hypotheses.
use easyforetell.Prelude.{◌≡◌, refl, [], ◌∷◌, ◌++◌, some, arith, length}
use easyforetell.Memory.{Bytes, codes, find, is_prefix}
use easyforetell.Replace.{replaced, overflow, running, replace_string, substitute_variables}
use easyforetell.Replace.Laws.{
  replace_string-replaced, replace_string-overflows, substitute_variables-endless,
}

abbrev url : Bytes
url = codes "http://$HOST/"

found_host : find (codes "$HOST") url ≡ some 7
unfolding find is_prefix
found_host = refl

replace_string-replaced_example :
    (front back : Bytes) × (url ≡ front ++ (codes "$HOST" ++ back))
    × (length front ≡ 7)
    × (replace_string url 256 (codes "$HOST") (codes "localhost")
        ≡ replaced (front ++ (codes "localhost" ++ back)))
replace_string-replaced_example =
    replace_string-replaced (codes "$HOST") url (codes "localhost") 7 256 found_host (omega arith)
      (omega arith)

-- A buffer of 14 bytes has no room for the result and its NUL.
replace_string-overflows_example : replace_string url 14 (codes "$HOST") (codes "a.test") ≡ overflow
replace_string-overflows_example =
    replace_string-overflows (codes "$HOST") url (codes "a.test") 7 14 found_host (omega arith)
      (omega arith) (omega arith)

substitute_variables-endless_example :
    substitute_variables 1000 url 256 (some (codes "$HOST ") ∷ []) 1 ≡ running
substitute_variables-endless_example =
    substitute_variables-endless 1000 256 0 (codes "HOST") url [] 7
      (refl, (refl, (refl, (refl, tt)))) found_host (omega arith)
