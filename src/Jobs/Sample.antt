-- ===== src/Jobs/Sample.antt =====
-- Sample data for the tests: servers that are a map, an action with two pages, and a worker.
use easyforetell.Prelude.{
  ℕ, ◌≤◌, ◌≡◌, refl, false, List, [], ◌∷◌, ◌++◌, map, Option, none, some, arith, length-replicate,
  replicate, if◌then◌else◌, pos,
}
use easyforetell.Memory.{Bytes, codes, literal, isspace, equal}
use easyforetell.Memory.Laws.{Holds, Holds-text}
use easyforetell.StringUtils.Parts.{ltrim, rtrim}
use easyforetell.Actions.{Action}
use easyforetell.Actions.Find.{ended_by}
use easyforetell.Queue.{Queue, stored, fifo_init, fifo_enqueue}
use easyforetell.Queue.Ring.{Holding, fifo_enqueue-stored}
use easyforetell.Queue.Run.{fifo_init-Holding}
use easyforetell.Curl.{MemoryStruct, transfer, receive, buffer_memory_size}
use easyforetell.Memcached.{LibMemcached, error_length}
use easyforetell.Memcached.Store.{Store}
use easyforetell.Jobs.{Worker, Globals}
use easyforetell.Jobs.Pages.{AreSized, IsCacheable}

-- The result of a delete
abbrev found : Option Bytes → Option Bytes
found none = some (codes "NOT FOUND")
found (some value) = none

pub found-short : (record_found : Option Bytes) → error_length (found record_found) ≤ 25
found-short none = omega arith
found-short (some value) = omega arith

-- The client is the map itself.
abbrev pub a_map : LibMemcached
a_map = record {
  Memc = Bytes → Option Bytes;
  memcached_set = λ memc key value expiration.
      ((λ asked. if equal asked key then some value else memc asked), none);
  memcached_delete =
      λ memc key. ((λ asked. if equal asked key then none else memc asked), found (memc key));
  longest_error = 25;
  set-short = λ memc key value expiration. omega arith;
  delete-short = λ memc key. found-short (memc key);
}

abbrev pub kept : Store a_map
kept = record {
  lookup = λ memc asked. memc asked;
  lookup-set = λ memc key value expiration asked valid. refl;
  lookup-delete = λ memc key asked valid. refl;
}

-- Each url has its own page.
abbrev pub web : Bytes → List Bytes
web t = codes "<p>" ∷ t ∷ []

abbrev pub perform : Bytes → MemoryStruct → Option (MemoryStruct × Option Bytes)
perform url mem = transfer (codes "Failed writing received data") (receive (web url) mem)

abbrev pub urls : List Bytes
urls = codes "u" ∷ codes "v" ∷ []

abbrev pub pages : Action
pages = record { name = codes "pages"; refresh_list = some (map some urls ++ none ∷ []); count = 2 }

abbrev pub globals : Globals
globals = record {
  max_key = 251;
  key_prefix = literal "k_";
  expiration = pos 7200;
  actions = some (ended_by (pages ∷ []) []);
}

abbrev pub worker : Worker (Bytes → Option Bytes)
worker = record {
  buffer = record { memory = replicate buffer_memory_size 7; size = 0; enabled = false };
  memc = λ asked. none;
  job = codes "pages" ++ replicate 250 0;
  command = replicate 255 0;
  key = replicate 250 7;
  new_command = replicate 255 0;
  lines = [];
}

pub sized : AreSized 251 worker
sized = record {
  job = refl;
  command = refl;
  key = refl;
  block = omega (arith, length-replicate {A = ℕ} buffer_memory_size 7);
}

pub prefix : Holds globals.key_prefix (codes "k_")
prefix = Holds-text (codes "k_") [] (ground arith)

pub u-IsCacheable : IsCacheable a_map perform globals prefix web (codes "u")
unfolding ltrim rtrim isspace
u-IsCacheable = record {
  trimmed = record { first = b'u'; others = []; shape = refl; left = refl; right = refl };
  fits = omega arith;
  named = omega arith;
  error = codes "Failed writing received data";
  delivers = λ mem. refl;
  page = ground arith;
  room = omega arith;
}

pub v-IsCacheable : IsCacheable a_map perform globals prefix web (codes "v")
unfolding ltrim rtrim isspace
v-IsCacheable = record {
  trimmed = record { first = b'v'; others = []; shape = refl; left = refl; right = refl };
  fits = omega arith;
  named = omega arith;
  error = codes "Failed writing received data";
  delivers = λ mem. refl;
  page = ground arith;
  room = omega arith;
}

-- A queue with one line.
pub one_line :
    (q' : Queue) × (fifo_enqueue (fifo_init (λ i. replicate 255 0) 4) (literal "CACHE u")
      ≡ some (q', stored))
    × Holding q' (codes "CACHE u" ∷ [])
    × (q'.capacity ≡ 4)
unfolding fifo_init
one_line =
    fifo_enqueue-stored (fifo_init-Holding (λ i. replicate 255 0) 4 (λ i. refl) (omega arith))
      (Holds-text (codes "CACHE u") [] (ground arith)) (omega arith) (omega arith)
