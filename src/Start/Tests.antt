-- ===== src/Start/Tests.antt =====
-- A worker that starts with two servers in a list of three.
use easyforetell.Prelude.{◌≡◌, refl, true, List, [], ◌∷◌, ◌++◌, some, none, arith, map, replicate}
use easyforetell.Memory.{Bytes, codes, equal}
use easyforetell.Start.{LibStart, garbage, start_worker, curl_init, end_worker}
use easyforetell.Start.Finished.{ending, end_worker_lem}
use easyforetell.Prelude.{◌>>=◌}
use easyforetell.Start.Connected.{outcome, servers_after, add_all, NoneEmpty, start_worker_lem}

-- The client is the list of the servers that were added.
abbrev lib : LibStart
lib = record {
  Memc = List Bytes;
  Servers = Bytes;
  Handle = Unit {0};
  memcached_create = [];
  memcached_servers_parse = λ t. some t;
  memcached_server_push = λ m t. (m ++ t ∷ [], true);
  curl_easy_init = none;
}

abbrev servers : List Bytes
servers = codes "a:1" ∷ codes "b:2" ∷ []

named : NoneEmpty lib servers
unfolding equal
named = (refl, (refl, tt))

start_worker_lem_example :
    start_worker lib none (some (map some servers ++ replicate 1 none)) 3
    ≡ outcome lib
        (curl_init lib none).0
        (servers_after lib garbage servers)
        (add_all lib [] servers)
start_worker_lem_example = start_worker_lem lib none servers 1 3 named refl (omega arith)

end_worker_lem_example :
    (start_worker lib none (some (map some servers ++ replicate 1 none)) 3 >>= end_worker lib)
    ≡ ending lib none servers (add_all lib [] servers)
end_worker_lem_example = end_worker_lem lib none servers 1 3 named refl (omega arith)

-- Without a server in the list a garbage pointer is freed.
no_server : (start_worker lib none (some (none ∷ [])) 1 >>= end_worker lib) ≡ none
no_server = end_worker_lem lib none [] 1 1 tt refl (omega arith)
