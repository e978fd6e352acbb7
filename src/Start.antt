-- ===== src/Start.antt =====
-- src/queral.c, `worker_thread` up to its loop and behind it, with the functions of src/memcached_client.c and
-- src/curl_client.c that it calls there. libmemcached and libcurl are parameters.
pub mod Connected
pub mod Finished
mod Tests
use easyforetell.Prelude.{
  ℕ, zero, suc, ◌+◌, Bool, true, false, not, List, [], ◌∷◌, Option, none, some, ◌>>=◌, ltb,
  if◌then◌else◌,
}
use easyforetell.Memory.{Bytes, codes, equal}
use easyforetell.StringLists.{StringList}

-- What the start calls of libmemcached and libcurl.
pub record LibStart : Type 1 where
  pub Memc : Type 0
  pub Servers : Type 0
  pub Handle : Type 0
  pub memcached_create : Memc
  pub memcached_servers_parse : Bytes → Option Servers
  -- true is MEMCACHED_SUCCESS
  pub memcached_server_push : Memc → Servers → Memc × Bool
  pub curl_easy_init : Option Handle

-- A pointer of a struct that malloc gave: garbage until it is set.
pub data Pointer (A : Type 0) : Type 0 where
  garbage null : Pointer A
  to : A → Pointer A

module _ (lib : LibStart) where
  open lib use {
    Memc, Servers, Handle, memcached_create, memcached_servers_parse, memcached_server_push,
    curl_easy_init,
  }

  -- `memcached_t`
  pub record MemcachedT : Type 0 where
    pub memc : Memc
    pub servers : Pointer Servers

  -- `curl_t`, without its buffer's size and flag
  pub record CurlT : Type 0 where
    pub handle : Option Handle
    pub memory : Option Bytes

  unfoldable pub memcached_init : Memc
  memcached_init = memcached_create

  -- The record after it, and whether the result is 1.
  unfoldable pub memcached_connect_ : MemcachedT → Bytes → MemcachedT × Bool
  memcached_connect_ memc server_list = elim (memcached_servers_parse server_list) [
    | none ↦ (record { memc = memc.memc; servers = null }, false)
    | some servers ↦
        let (pushed, res) = memcached_server_push memc.memc servers in
        (record { memc = pushed; servers = null }, res)
  ]

  -- With libmemcached's `memcached_server_add`; the daemon connects by `memcached_connect_` only.
  unfoldable pub memcached_connect :
      (Memc → Bytes → ℕ → Memc × Bool) → MemcachedT → Bytes → ℕ → MemcachedT × Bool
  memcached_connect memcached_server_add memc servername port =
      let (added, res) = memcached_server_add memc.memc servername port in
      (record { memc = added; servers = memc.servers }, res)

  -- What `memcached_destroy` makes of `servers`; `none` is the freeing of a garbage pointer.
  unfoldable pub destroy_servers : Pointer Servers → Option (Pointer Servers)
  destroy_servers garbage = none
  destroy_servers null = some null
  destroy_servers (to servers) = some null

  -- `memc` stays as it is, a pointer to what is freed: only `servers` is set to NULL.
  unfoldable pub memcached_destroy : MemcachedT → Option MemcachedT
  memcached_destroy memc = do
    servers ← destroy_servers memc.servers
    some (record { memc = memc.memc; servers = servers })

  -- The result is always 1: the test `if (curl)` is of the argument, not of what
  -- `curl_easy_init` returned. `memory` is what malloc returned.
  unfoldable pub curl_init : Option Bytes → CurlT × Bool
  curl_init memory = (record { handle = curl_easy_init; memory = memory }, true)

  -- How the start ends: the thread returns, or goes on to its loop.
  pub data Started : Type 0 where
    returned : Started
    ready : CurlT → MemcachedT → Started

  -- The thread's end, once both clients are destroyed.
  unfoldable pub give_up : MemcachedT → Option Started
  give_up memc = do destroyed ← memcached_destroy memc; some returned

  -- The loop over the servers; NULL and the empty text are passed over, and a place past the end of
  -- the list is a fault.
  unfoldable pub connect_all : CurlT → MemcachedT → StringList → ℕ → Option Started
  connect_all curl memc servers zero = some (ready curl memc)
  connect_all curl memc [] (suc left) = none
  connect_all curl memc (none ∷ servers) (suc left) = connect_all curl memc servers left
  connect_all curl memc (some server ∷ servers) (suc left) = elim (equal server (codes "")) [
    | true ↦ connect_all curl memc servers left
    | false ↦
        let (memc', res) = memcached_connect_ memc server in
        elim res [ false ↦ give_up memc' | true ↦ connect_all curl memc' servers left ]
  ]

  unfoldable pub with_servers : CurlT → MemcachedT → Option StringList → ℕ → Option Started
  with_servers curl memc (some servers) (suc server_count) =
      connect_all curl memc servers (suc server_count)
  with_servers curl memc _ _ = give_up memc

  unfoldable pub start_worker : Option Bytes → Option StringList → ℕ → Option Started
  start_worker memory memcached_servers server_count =
      let (curl, res) = curl_init memory in
      elim res [
        | false ↦ some returned
        | true ↦
            with_servers curl (record { memc = memcached_init; servers = garbage })
              memcached_servers server_count
      ]

  -- What `curl_destroy` frees, besides libcurl's handle: the buffer, if malloc gave one.
  unfoldable pub curl_destroy : CurlT → Option Bytes
  curl_destroy curl = curl.memory

  -- How the thread ends: at its start, or behind its loop, with what is freed and the client then.
  pub data Ended : Type 0 where
    early : Ended
    ended : Option Bytes → MemcachedT → Ended

  -- "Frees all resources related to the thread", for a thread that went on to its loop.
  unfoldable pub end_worker : Started → Option Ended
  end_worker returned = some early
  end_worker (ready curl memc) = do
    destroyed ← memcached_destroy memc
    some (ended (curl_destroy curl) destroyed)
