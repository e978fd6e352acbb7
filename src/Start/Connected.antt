-- ===== src/Start/Connected.antt =====
-- With which servers a worker starts.
use easyforetell.Prelude.{
  ℕ, zero, suc, ◌+◌, ◌<◌, ◌≡◌, refl, ap, ◌∙◌, true, false, List, [], ◌∷◌, ◌++◌, map, Option, none,
  some, arith, length, replicate, Bool-cases, Option-cases, inl, inr,
}
use easyforetell.Memory.{Bytes, codes, equal}
use easyforetell.Start.{
  LibStart, Pointer, garbage, null, MemcachedT, CurlT, memcached_init, memcached_connect_,
  memcached_destroy, curl_init, Started, returned, ready, give_up, connect_all, with_servers,
  start_worker, destroy_servers,
}

module _ (lib : LibStart) where
  open lib use {
    Memc, Servers, memcached_create, memcached_servers_parse, memcached_server_push, curl_easy_init,
  }

  -- The client with these servers added in order, if each can be parsed and added.
  unfoldable pub add_all : Memc → List Bytes → Option Memc
  add_all m [] = some m
  add_all m (t ∷ ts) = elim (memcached_servers_parse t) [
    | none ↦ none
    | some servers ↦ elim ((memcached_server_push m servers).1) [
      | false ↦ none
      | true ↦ add_all (memcached_server_push m servers).0 ts
    ]
  ]

  -- `servers` once the servers of this list are added: it is set by the first of them.
  abbrev pub servers_after : Pointer Servers → List Bytes → Pointer Servers
  servers_after p [] = p
  servers_after p (t ∷ ts) = null

  -- What the thread does with that client.
  abbrev pub outcome : CurlT lib → Pointer Servers → Option Memc → Option (Started lib)
  outcome curl p none = some returned
  outcome curl p (some m) = some (ready curl (record { memc = m; servers = p }))

  abbrev pub NoneEmpty : List Bytes → Type 0
  NoneEmpty [] = Unit {0}
  NoneEmpty (t ∷ ts) = (equal t (codes "") ≡ false) × NoneEmpty ts

  nulls :
      (curl : CurlT lib) (memc : MemcachedT lib) (n : ℕ)
      → connect_all lib curl memc (replicate n none) n ≡ some (ready curl memc)
  unfolding connect_all
  nulls curl memc zero = refl
  nulls curl memc (suc n) = nulls curl memc n

  null_after : (ts : List Bytes) → servers_after null ts ≡ null
  null_after [] = refl
  null_after (t ∷ ts) = refl

  module _ (memc : MemcachedT lib) (t : Bytes) where
    unparsed_lem :
        memcached_servers_parse t ≡ none
        → memcached_connect_ lib memc t ≡ (record { memc = memc.memc; servers = null }, false)
    unfolding memcached_connect_
    unparsed_lem e = rw (e, memcached_connect_)

    pushed_lem :
        (servers : Servers)
        → memcached_servers_parse t ≡ some servers
        → memcached_connect_ lib memc t ≡ (
          record { memc = (memcached_server_push memc.memc servers).0; servers = null },
          (memcached_server_push memc.memc servers).1,
        )
    unfolding memcached_connect_
    pushed_lem servers e = rw (e, memcached_connect_)

  connect_all_lem :
      (curl : CurlT lib) (p : Pointer Servers) (m : Memc) (ts : List Bytes) (n count : ℕ)
      → NoneEmpty ts
      → count ≡ length ts + n
      → connect_all lib curl
          (record { memc = m; servers = p })
          (map some ts ++ replicate n none)
          count
        ≡ outcome curl (servers_after p ts) (add_all m ts)
  unfolding connect_all give_up memcached_destroy destroy_servers add_all
  connect_all_lem curl p m [] n count h e =
      ap (connect_all lib curl (record { memc = m; servers = p }) (replicate n none))
        (e ∙ omega arith)
      ∙ nulls curl (record { memc = m; servers = p }) n
  connect_all_lem curl p m (t ∷ ts) n zero h e = absurd (omega arith)
  connect_all_lem curl p m (t ∷ ts) n (suc count) h e =
      elim (Option-cases (memcached_servers_parse t)) [
        | inl unparsed ↦ rw (
          h.0,
          connect_all,
          unparsed_lem (record { memc = m; servers = p }) t unparsed,
          unparsed,
          add_all,
          unparsed_lem (record { memc = m; servers = p }) t unparsed,
        )
        | inr (servers, parsed) ↦ elim (Bool-cases (memcached_server_push m servers).1) [
          | inr not_added ↦ rw (
            h.0,
            connect_all,
            pushed_lem (record { memc = m; servers = p }) t servers parsed,
            parsed,
            add_all,
            not_added,
            pushed_lem (record { memc = m; servers = p }) t servers parsed,
          )
          | inl added ↦
              rw
                (
                  h.0,
                  connect_all,
                  pushed_lem (record { memc = m; servers = p }) t servers parsed,
                  parsed,
                  add_all,
                  added,
                  pushed_lem (record { memc = m; servers = p }) t servers parsed,
                )
                (connect_all_lem curl null (memcached_server_push m servers).0 ts n count h.1
                    (omega arith)
                  ∙ ap (λ k. outcome curl k (add_all (memcached_server_push m servers).0 ts))
                      (null_after ts))
        ]
      ]

  -- With a list of at least one place that holds texts, none empty, and then NULLs, a worker adds
  -- these servers to its client in order and goes on to its loop with the client, if each of them
  -- can be parsed and added; otherwise the thread returns. `servers` is NULL after the first
  -- server, and garbage where there is none.
  pub start_worker_lem :
      (memory : Option Bytes) (ts : List Bytes) (n count : ℕ)
      → NoneEmpty ts
      → count ≡ length ts + n
      → 0 < count
      → start_worker lib memory (some (map some ts ++ replicate n none)) count
        ≡ outcome (curl_init lib memory).0 (servers_after garbage ts) (add_all memcached_create ts)
  unfolding start_worker with_servers curl_init memcached_init
  start_worker_lem memory ts n zero h e more = absurd (omega arith)
  start_worker_lem memory ts n (suc count) h e more =
      connect_all_lem (curl_init lib memory).0 garbage memcached_create ts n (suc count) h e
