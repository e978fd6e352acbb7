-- ===== src/Prelude/Int.antt =====
-- Signed integers over the native numbers: a `long int` of the source.
use Prim.Native.Nat.{ℕ, zero, suc, ◌+◌, ◌/◌, ◌%◌}
use mathlib.Core.Bool.{Bool, true, false}
use mathlib.Core.List.{List, [], ◌∷◌}
use easyforetell.Prelude.Tests.{ltb, if◌then◌else◌}

-- `negsuc n` is -(n + 1).
pub data ℤ : Type 0 where
  pos : ℕ → ℤ
  negsuc : ℕ → ℤ

abbrev pub is_negative : ℤ → Bool
is_negative (pos n) = false
is_negative (negsuc n) = true

-- a < b
abbrev pub ltb_ℤ : ℤ → ℤ → Bool
ltb_ℤ (pos a) (pos b) = ltb a b
ltb_ℤ (pos a) (negsuc b) = false
ltb_ℤ (negsuc a) (pos b) = true
ltb_ℤ (negsuc a) (negsuc b) = ltb b a

-- The decimal digits of `n`, last digit first in line; a number has fewer digits than itself plus one.
unfoldable pub digits_on : ℕ → ℕ → List ℕ → List ℕ
digits_on zero n out = out
digits_on (suc fuel) n out =
    let out' = (b'0' + n % 10) ∷ out in
    let more = digits_on fuel (n / 10) out' in if ltb n 10 then out' else more

-- "%ld"
unfoldable pub show : ℤ → List ℕ
unfolding digits_on
show (pos n) = digits_on (suc n) n []
show (negsuc n) = b'-' ∷ digits_on (suc (suc n)) (suc n) []
