-- ===== src/Curl/Tests.antt =====
-- The download of a document in two pieces, into a block that is cleared.
use easyforetell.Prelude.{
  ℕ, suc, ◌≡◌, refl, true, false, [], ◌∷◌, some, arith, length-replicate, replicate,
}
use easyforetell.Memory.{codes}
use easyforetell.Curl.{MemoryStruct, receive}
use easyforetell.Curl.Laws.{Collects, Downloads, receive_lem, receive-refuses}

abbrev cleared : ℕ → MemoryStruct
cleared n = record { memory = replicate (suc n) 0; size = 0; enabled = true }

cleared-Collects : (n : ℕ) → suc n ≡ 102400 → Collects (cleared n) []
cleared-Collects n e = record {
  rest = replicate n 0;
  shape = refl;
  counted = refl;
  whole = omega (arith, length-replicate {A = ℕ} (suc n) 0);
  on = refl;
}

receive_lem_example :
    Downloads (codes "<html>") (receive (codes "<ht" ∷ codes "ml>" ∷ []) (cleared 102399))
receive_lem_example =
    receive_lem (codes "<ht" ∷ codes "ml>" ∷ []) (cleared 102399) [] (cleared-Collects 102399 refl)
      (omega arith)

-- A piece as large as the block.
receive-refuses_example :
    receive (replicate 102400 7 ∷ []) (cleared 102399) ≡ some (cleared 102399, false)
receive-refuses_example =
    receive-refuses (replicate 102400 7) [] (cleared 102399) [] (cleared-Collects 102399 refl)
      (omega (arith, length-replicate {A = ℕ} 102400 7))
      (omega (arith, length-replicate {A = ℕ} 102400 7))
