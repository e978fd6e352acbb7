-- ===== src/StringUtils/Tests.antt =====
-- `strim` at work, and the theorems at inputs that meet their hypotheses.
use easyforetell.Prelude.{◌≡◌, refl, ◌++◌, [], ◌∷◌, length, some, drop, arith}
use easyforetell.Memory.{Bytes, codes, literal}
use easyforetell.Memory.Laws.{Holds, Holds-text}
use easyforetell.StringUtils.{strim}
use easyforetell.StringUtils.Parts.{AreSpaces, StartsClean, EndsClean}
use easyforetell.StringUtils.Trim.{strim_lem}

strim_runs : strim (literal "  FETCH x ") ≡ some (codes "  FETCH x" ++ 0 ∷ 0 ∷ [], 2)
unfolding strim
strim_runs = refl

strim_lem_example :
    (b' p m q : Bytes) × (strim (literal "  FETCH x ") ≡ some (b', length p))
    × (length b' ≡ 11)
    × Holds (drop (length p) b') m
    × (codes "  FETCH x " ≡ p ++ (m ++ q))
    × AreSpaces p
    × AreSpaces q
    × StartsClean m
    × EndsClean m
strim_lem_example = strim_lem (Holds-text (codes "  FETCH x ") [] (omega arith))
