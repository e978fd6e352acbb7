-- ===== src/Curl.antt =====
-- src/curl_client.c: the buffer that a download fills. libcurl's transfer is a parameter.
pub mod Laws
pub mod Messages
mod Tests
use easyforetell.Prelude.{
  ℕ, zero, suc, ◌/◌, ◌+◌, ◌-◌, ◌*◌, ◌%◌, Bool, true, false, List, [], ◌∷◌, ◌++◌, Option, none, some,
  ◌>>=◌, ltb, if◌then◌else◌, replicate, length, ◌==◌,
}
use easyforetell.Memory.{Bytes, codes, read_at, write_at}
use easyforetell.Logger.{Logged, log_info, log_notice}

-- `memory_struct_t`
pub record MemoryStruct : Type 0 where
  pub memory : Bytes
  pub size : ℕ
  pub enabled : Bool

abbrev pub buffer_memory_size : ℕ
buffer_memory_size = 102400

-- A `size_t` of 64 bits
abbrev pub wrap : ℕ → ℕ
wrap n = n % 18446744073709551616

-- The block after it and the result; -1 is the greatest `size_t`.
unfoldable pub write_callback : Bytes → ℕ → ℕ → MemoryStruct → Option (MemoryStruct × ℕ)
write_callback ptr size nmemb mem =
    let realsize = wrap (size * nmemb) in
    let write : Option (MemoryStruct × ℕ) = do
      data_read ← read_at ptr 0 realsize
      copied ← write_at mem.memory mem.size data_read
      ended ← write_at copied (wrap (mem.size + realsize)) (0 ∷ [])
      some (record mem { memory = ended; size = wrap (mem.size + realsize) }, realsize)
    in if mem.enabled
      then (if ltb buffer_memory_size (wrap (mem.size + realsize + 1))
          then some (mem, 18446744073709551615)
          else write)
      else some (mem, realsize)

-- `%lu`, of a number with at most 20 digits
unfoldable pub digits : ℕ → ℕ → Bytes
digits zero n = []
digits (suc fuel) n =
    let front = digits fuel (n / 10) in
    if ltb n 10 then (48 + n) ∷ [] else front ++ (48 + n % 10) ∷ []

unfoldable pub log_retrieved : Bytes → ℕ → Option Logged
log_retrieved url size = log_info (
    codes "URL: "
    ++ (url ++ (codes ", succeeded, " ++ (digits 20 size ++ codes " bytes retrieved"))))

unfoldable pub log_fetched : Bytes → Option Logged
log_fetched url = log_info (codes "URL: " ++ (url ++ codes ", succeeded, fetch only"))

unfoldable pub log_not_fetched : Bytes → Bytes → Option Logged
log_not_fetched url error =
    log_notice (codes "URL: " ++ (url ++ (codes ", failed with error: " ++ error)))

-- The end of `curl_fetch_url`, from the result of the transfer on
unfoldable pub fetch_result : Bytes → MemoryStruct → Option Bytes → Option (MemoryStruct × Bool)
fetch_result url buffer none = do
  logged ← if buffer.enabled then log_retrieved url buffer.size else log_fetched url
  some (buffer, true)
fetch_result url buffer (some error) = do logged ← log_not_fetched url error; some (buffer, false)

-- `curl_fetch_url`. `perform` is what `curl_easy_perform` does with the block, through
-- `write_callback`, and `none` for CURLE_OK or the text that `curl_easy_strerror` has for its
-- result; true is the result 1 and false -1.
module _ (perform : Bytes → MemoryStruct → Option (MemoryStruct × Option Bytes)) where
  unfoldable pub curl_fetch_url : MemoryStruct → Bytes → Option (MemoryStruct × Bool)
  curl_fetch_url buffer url = do
    cleared ← write_at buffer.memory 0 (replicate buffer_memory_size 0)
    (after, error) ← perform url (record buffer { memory = cleared; size = 0 })
    fetch_result url after error

-- The calls of `write_callback` for the pieces of a document, each of its whole length; libcurl
-- stops at the first call that does not take all.
unfoldable pub receive : List Bytes → MemoryStruct → Option (MemoryStruct × Bool)
receive [] mem = some (mem, true)
receive (piece ∷ pieces) mem = do
  (mem', taken) ← write_callback piece 1 (length piece) mem
  let rest = receive pieces mem'
  if taken == length piece then rest else some (mem', false)

-- With the text of the error that libcurl gives when a call has not taken all.
unfoldable pub transfer :
    Bytes → Option (MemoryStruct × Bool) → Option (MemoryStruct × Option Bytes)
transfer error o = do (mem, ok) ← o; some (mem, if ok then none else some error)
