-- ===== src/Keys/Laws.antt =====
-- The key that `create_key` makes, and its bound.
use easyforetell.Prelude.{
  ℕ, ◌+◌, ◌-◌, ◌≤◌, ◌<◌, ◌≡◌, ◌∙◌, Option, none, some, arith, length, ◌++◌, lt→ltb, le→leb,
  not_lt→ltb,
}
use easyforetell.Memory.{Bytes}
use easyforetell.Memory.Laws.{Holds, strlen-Holds, strcpy_front}
use easyforetell.Memory.Strings.{strcat_lem, strcat-overflows}
use easyforetell.Keys.{Keyed, failed, created, create_key}

-- A call that makes the key `s`.
pub record Made (size : ℕ) (s : Bytes) (o : Option Keyed) : Type 0 where
  pub key : Bytes
  pub runs : o ≡ some (created key)
  pub text : Holds key s
  pub kept : length key ≡ size

module _ (max_key : ℕ) (out : Bytes) {prefix url p u : Bytes} (hp : Holds prefix p)
    (hu : Holds url u) where
  -- `create_key` on a prefix and a url whose lengths together are below MEMCACHED_MAX_KEY, at
  -- most `out_len` and below the size of the buffer returns 1 and leaves the prefix followed by
  -- the url in the buffer.
  pub create_key_lem :
      (out_len : ℕ)
      → length p + length u < max_key
      → length p + length u ≤ out_len
      → length p + length u < length out
      → Made (length out) (p ++ u) (create_key max_key (some out) out_len (some prefix) (some url))
  unfolding create_key
  create_key_lem out_len short within room =
      let (front, copied, held, size) = strcpy_front out hp (omega arith) in
      let joined = strcat_lem held hu (omega (arith, size)) in
      record {
        key = joined.after;
        runs = rw (
          strlen-Holds hp,
          strlen-Holds hu,
          lt→ltb (length p + length u) max_key short,
          le→leb (length p + length u) out_len within,
          copied,
          joined.runs,
        );
        text = joined.text;
        kept = joined.size_kept ∙ size;
      }

  -- With an array of MEMCACHED_MAX_KEY - 1 bytes and `out_len` its size, as in the worker's call,
  -- a prefix and a url, the url not empty, whose lengths are together MEMCACHED_MAX_KEY - 1 pass
  -- the test of `create_key`, which then writes past the end of the array.
  pub create_key-overflows :
      length out ≡ max_key - 1
      → 0 < max_key
      → length p + length u ≡ max_key - 1
      → 0 < length u
      → create_key max_key (some out) (max_key - 1) (some prefix) (some url) ≡ none
  unfolding create_key
  create_key-overflows size positive exact nonempty =
      let (front, copied, held, kept) = strcpy_front out hp (omega arith) in
      rw (
        strlen-Holds hp,
        strlen-Holds hu,
        lt→ltb (length p + length u) max_key (omega arith),
        le→leb (length p + length u) (max_key - 1) (omega arith),
        copied,
        strcat-overflows held hu (omega (arith, kept)),
      )

  -- A longer key is refused.
  pub create_key-refuses :
      (out_len : ℕ)
      → max_key ≤ length p + length u
      → create_key max_key (some out) out_len (some prefix) (some url) ≡ some failed
  unfolding create_key
  create_key-refuses out_len long =
      rw (strlen-Holds hp, strlen-Holds hu, not_lt→ltb (length p + length u) max_key long)
