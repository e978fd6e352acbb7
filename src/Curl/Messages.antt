-- ===== src/Curl/Messages.antt =====
-- What `curl_fetch_url` logs of its url.
use easyforetell.Prelude.{
  ℕ, zero, suc, ◌+◌, ◌*◌, ◌/◌, ◌%◌, ◌≤◌, ◌<◌, ◌≡◌, refl, true, false, Bool-cases, inl, inr, [], ◌∷◌,
  ◌++◌, none, some, arith, length, length-append, ltb, lt→ltb,
}
use easyforetell.Memory.{Bytes, codes}
use easyforetell.Logger.{info, log_info}
use easyforetell.Logger.Laws.{text-fits, text-overflows}
use easyforetell.Curl.{
  MemoryStruct, buffer_memory_size, digits, log_retrieved, log_fetched, fetch_result,
}

abbrev ten_to : ℕ → ℕ
ten_to zero = 1
ten_to (suc k) = 10 * ten_to k

digits-length : (fuel k n : ℕ) → n < ten_to (suc k) → length (digits fuel n) ≤ suc k
unfolding digits
digits-length zero k n h = omega arith
digits-length (suc fuel) zero n h = rw (lt→ltb n 10 (omega (arith, h))) (omega arith)
digits-length (suc fuel) (suc k) n h = elim (Bool-cases (ltb n 10)) [
  | inl small ↦ rw small (omega arith)
  | inr big ↦
      rw (big, length-append (digits fuel (n / 10)) ((48 + n % 10) ∷ []))
        (omega (arith, digits-length fuel k (n / 10) (omega (arith, h))))
]

-- A document that came whole is logged inside the buffer.
pub fetch_result-retrieved :
    (url : Bytes) (mem : MemoryStruct)
    → length url < 215
    → mem.enabled ≡ true
    → mem.size < buffer_memory_size
    → fetch_result url mem none ≡ some (mem, true)
unfolding fetch_result log_retrieved log_info
fetch_result-retrieved url mem short on room =
    let number = digits 20 mem.size in
    let end = codes " bytes retrieved" in
    rw
      (
        on,
        text-fits info (codes "URL: ") url (codes ", succeeded, " ++ (number ++ end)) (
            omega (
              arith,
              short,
              length-append (codes ", succeeded, ") (number ++ end),
              length-append number end,
              digits-length 20 5 mem.size (omega (arith, room)),
            )),
      )
      refl

-- A page that is fetched without the buffer is logged past the logger's buffer if its url has 228
-- bytes or more.
fetch_result-overflows :
    (url memory : Bytes) (size : ℕ)
    → 228 ≤ length url
    → fetch_result url (record { memory = memory; size = size; enabled = false }) none ≡ none
unfolding fetch_result log_fetched log_info
fetch_result-overflows url memory size long =
    rw
      (text-overflows info (codes "URL: ") url (codes ", succeeded, fetch only")
        (omega (arith, long)))
      refl
