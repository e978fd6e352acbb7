-- ===== src/Jobs/Cache.antt =====
-- A CACHE job from the key to the record.
use easyforetell.Prelude.{
  concat, ℕ, zero, suc, append-nil, ◌+◌, ◌-◌, ◌≤◌, ◌<◌, ◌≡◌, refl, sym, ap, ◌∙◌, true, List, [],
  ◌∷◌, ◌++◌, Option, some, arith, length, length-append, length-replicate, replicate, drop, subst,
}
use easyforetell.Memory.{Bytes, write_at}
use easyforetell.Memory.Laws.{IsText, Holds, Holds-c_str, write_at-fits}
use easyforetell.Keys.Laws.{create_key_lem}
use easyforetell.Curl.{MemoryStruct, buffer_memory_size, curl_fetch_url, receive, transfer}
use easyforetell.Curl.Laws.{Collects, Downloads, receive_lem}
use easyforetell.Memcached.{LibMemcached}
use easyforetell.Memcached.Messages.{delete_record-runs, override_record-runs}
use easyforetell.Curl.Messages.{fetch_result-retrieved}
use easyforetell.Jobs.{Worker, Globals, cache_job, with_key, renew, store_page}

drop-all : (b : Bytes) (k : ℕ) → length b ≤ k → drop k b ≡ []
drop-all [] zero h = refl
drop-all [] (suc k) h = refl
drop-all (x ∷ b) zero h = absurd (omega arith)
drop-all (x ∷ b) (suc k) h = drop-all b k (omega arith)

-- The memset of the whole block.
cleared_lem :
    (b : Bytes) (n : ℕ)
    → length b ≡ suc n
    → write_at b 0 (replicate (suc n) 0) ≡ some (0 ∷ replicate n 0)
cleared_lem b n e =
    write_at-fits b 0 (replicate (suc n) 0) (omega (arith, length-replicate {A = ℕ} (suc n) 0))
    ∙ ap some (
        ap (λ k. 0 ∷ (replicate n 0 ++ k))
          (drop-all b (0 + length (replicate {A = ℕ} (suc n) 0))
            (omega (arith, length-replicate {A = ℕ} (suc n) 0)))
        ∙ append-nil (0 ∷ replicate n 0))

abbrev block_after : (n : ℕ) → MemoryStruct
block_after n = record { memory = 0 ∷ replicate n 0; size = 0; enabled = true }

block_after-Collects : (n : ℕ) → suc n ≡ buffer_memory_size → Collects (block_after n) []
block_after-Collects n e = record {
  rest = replicate n 0;
  shape = refl;
  counted = refl;
  whole = omega (arith, length-replicate {A = ℕ} n 0);
  on = refl;
}

module _ (perform : Bytes → MemoryStruct → Option (MemoryStruct × Option Bytes)) (url : Bytes)
    (pieces : List Bytes) (error : Bytes)
    (delivers : (mem : MemoryStruct) → perform url mem ≡ transfer error (receive pieces mem))
    (short : length url < 215) where
  -- A download into an enabled block.
  pub fetched_lem :
      (memory : Bytes) (size n : ℕ)
      → suc n ≡ buffer_memory_size
      → length memory ≡ buffer_memory_size
      → length (concat pieces) < buffer_memory_size
      → Downloads
          (concat pieces)
          (curl_fetch_url perform (record { memory = memory; size = size; enabled = true }) url)
  unfolding curl_fetch_url transfer
  fetched_lem memory size n e whole room =
      let d =
        receive_lem pieces (block_after n) [] (block_after-Collects n e) (omega (arith, room)) in
      let cleared : write_at memory 0 (replicate buffer_memory_size 0) ≡ some (0 ∷ replicate n 0) =
        subst (λ k. write_at memory 0 (replicate k 0) ≡ some (0 ∷ replicate n 0)) e
          (cleared_lem memory n (whole ∙ sym e)) in
      record {
        after = d.after;
        runs =
            rw
              (
                cleared,
                delivers (block_after n),
                d.runs,
                fetch_result-retrieved url d.after short d.collects.on
                    (omega (arith, d.collects.counted, room)),
              )
              refl;
        collects = d.collects;
      }

-- What a CACHE job leaves of the record of a key.
pub record Cached (Memc : Type 0) (w : Worker Memc) (memc : Memc) (o : Option (Worker Memc))
    : Type 0 where
  pub after : Worker Memc
  pub runs : o ≡ some after
  pub stored : after.memc ≡ memc
  pub job : length after.job ≡ length w.job
  pub command : length after.command ≡ length w.command
  pub key : length after.key ≡ length w.key
  pub block : length after.buffer.memory ≡ buffer_memory_size

module _ (lib : LibMemcached)
    (perform : Bytes → MemoryStruct → Option (MemoryStruct × Option Bytes))
    (globals : Globals) where
  open lib use {Memc, memcached_set, memcached_delete}

  -- The record with the page, where the old one is deleted.
  abbrev renewed : Memc → Bytes → Bytes → Memc
  renewed memc key page =
      (memcached_set (memcached_delete memc key).0 key page globals.expiration).0

  renew_lem :
      (w : Worker Memc) {key url : Bytes} (pieces : List Bytes) (error : Bytes) (n : ℕ)
      → suc n ≡ buffer_memory_size
      → Holds w.key key
      → Holds w.job url
      → length w.buffer.memory ≡ buffer_memory_size
      → ((mem : MemoryStruct) → perform url mem ≡ transfer error (receive pieces mem))
      → IsText (concat pieces)
      → length (concat pieces) < buffer_memory_size
      → length key + lib.longest_error < 215
      → length url < 215
      → Cached Memc w (renewed w.memc key (concat pieces)) (renew lib perform globals w)
  unfolding renew store_page
  renew_lem w {key = key} {url = url} pieces error n e hk hj whole delivers page room named short =
      let d =
        fetched_lem perform url pieces error delivers short w.buffer.memory w.buffer.size n e whole
          room in
      let stored : Holds d.after.memory (concat pieces) = record {
        rest = d.collects.rest;
        shape = d.collects.shape;
        is_text = page;
      } in
      let deleted = delete_record-runs lib w.memc hk named in
      let set =
        override_record-runs lib (memcached_delete w.memc key).0 globals.expiration hk stored
          named in
      record {
        after = record w { memc = renewed w.memc key (concat pieces); buffer = d.after };
        runs = rw (deleted.1, Holds-c_str hj, d.runs, store_page, set.1) refl;
        stored = refl;
        job = refl;
        command = refl;
        key = refl;
        block = d.collects.whole;
      }

  -- Let a worker have a CACHE job that holds a url, a key's array of MEMCACHED_MAX_KEY - 1 bytes
  -- and a block of BUFFER_MEMORY_SIZE bytes, let the key prefix and the url together be shorter
  -- than the key's array and, with the longest text that `memcached_strerror` has, shorter than
  -- 215 bytes, and let curl_easy_perform deliver the pieces of a document, without NUL bytes and
  -- together shorter than BUFFER_MEMORY_SIZE, to `write_callback` in order and give CURLE_OK if
  -- all were taken. Then the job ends without an access outside a buffer, the logger's among
  -- them, and libmemcached has been asked to delete the record of the key prefix followed by the
  -- url and then to set that record to the whole document with the configured expiration.
  pub cache_job_lem :
      (w : Worker Memc) {p url : Bytes} (pieces : List Bytes) (error : Bytes) (n : ℕ)
      → suc n ≡ buffer_memory_size
      → Holds globals.key_prefix p
      → Holds w.job url
      → length w.key ≡ globals.max_key - 1
      → length p + length url < globals.max_key - 1
      → length w.buffer.memory ≡ buffer_memory_size
      → ((mem : MemoryStruct) → perform url mem ≡ transfer error (receive pieces mem))
      → IsText (concat pieces)
      → length (concat pieces) < buffer_memory_size
      → length p + length url + lib.longest_error < 215
      → Cached Memc w (renewed w.memc (p ++ url) (concat pieces)) (cache_job lib perform globals w)
  unfolding cache_job with_key
  cache_job_lem w {p = p} {url = url} pieces error n e hp hj size fits whole delivers page room
        named =
      let k =
        create_key_lem globals.max_key w.key hp hj (globals.max_key - 1) (omega arith) (omega arith)
          (omega (arith, size)) in
      let r =
        renew_lem (record w { key = k.key }) pieces error n e k.text hj whole delivers page room
          (omega (arith, named, length-append p url)) (omega (arith, named)) in
      record {
        after = r.after;
        runs = rw (k.runs) r.runs;
        stored = r.stored;
        job = r.job;
        command = r.command;
        key = r.key ∙ k.kept;
        block = r.block;
      }
