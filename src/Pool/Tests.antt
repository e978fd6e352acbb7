-- ===== src/Pool/Tests.antt =====
-- Two workers on the same servers, and a line for one of them.
use easyforetell.Prelude.{
  ◌<◌, List, replicate, true, ◌≤◌, ◌≡◌, refl, [], ◌∷◌, Option, none, some, ◌>>=◌, arith, length,
}
use easyforetell.Memory.{Bytes, codes}
use easyforetell.Memory.Laws.{Holds, Holds-text, IsText}
use easyforetell.Queue.{Queue, fifo_init}
use easyforetell.Queue.Ring.{Holding, fifo_enqueue-stored}
use easyforetell.Queue.Run.{fifo_init-Holding}
use easyforetell.Worker.Feedback.{cache_job_text}
use easyforetell.Pool.Unordered.{SameUrls, Serving, pool-unordered}
use easyforetell.Socket.{Shared}
use easyforetell.Jobs.{Worker, works, turn, taken, take_job}
use easyforetell.Jobs.Pages.{with_pages}
use easyforetell.Jobs.Sample.{
  a_map, kept, web, perform, globals, worker, sized, prefix, u-IsCacheable, v-IsCacheable, urls,
  one_line,
}
use easyforetell.System.Sections.{take_job-taken}
use easyforetell.Pool.{at_head, left, Pool, Move, Run, stay, advance}
use easyforetell.Pool.Pending.{is_for}
use easyforetell.Pool.Turn.{to_head, turn-to_head}
use easyforetell.Pool.Service.{waiting_pool, pool-safe, pool-records}
use easyforetell.Pool.Finish.{pool-finishes}

abbrev shared : Shared
shared = record { should_run = true; url_count = 1; queue = one_line.0 }

abbrev no_records : Bytes → Option Bytes
no_records asked = none

abbrev start : Pool a_map
start = waiting_pool a_map perform globals prefix web kept shared no_records (worker ∷ worker ∷ [])

pool-safe_example :
    (t : Pool a_map) × Move a_map perform globals start t × (left a_map t ≤ left a_map start)
pool-safe_example =
    pool-safe a_map perform globals prefix web kept shared no_records (worker ∷ worker ∷ [])
      (codes "u" ∷ []) (u-IsCacheable, tt) one_line.2 refl refl (sized, (sized, tt))
      (at_head worker ∷ []) [] (at_head worker) stay refl

pool-finishes_example :
    (t : Pool a_map) × Run a_map perform globals start t
    × (left a_map t ≡ 0)
    × ((asked : Bytes)
        → t.servers asked ≡ with_pages (codes "k_") web (codes "u" ∷ []) no_records asked)
pool-finishes_example =
    pool-finishes a_map perform globals prefix web kept shared no_records (worker ∷ worker ∷ [])
      (codes "u" ∷ []) (u-IsCacheable, tt) one_line.2 refl refl (sized, (sized, tt)) (omega arith)
      stay

-- One of the ways to the end.
run_out :
    (t : Pool a_map) × Run a_map perform globals start t
    × (left a_map t ≡ 0)
    × ((asked : Bytes)
        → t.servers asked ≡ with_pages (codes "k_") web (codes "u" ∷ []) no_records asked)
run_out =
    pool-finishes a_map perform globals prefix web kept shared no_records (worker ∷ worker ∷ [])
      (codes "u" ∷ []) (u-IsCacheable, tt) one_line.2 refl refl (sized, (sized, tt)) (omega arith)
      stay

pool-records_example :
    run_out.0.servers (codes "k_u")
    ≡ with_pages (codes "k_") web (codes "u" ∷ []) no_records (codes "k_u")
pool-records_example =
    pool-records a_map perform globals prefix web kept shared no_records (worker ∷ worker ∷ [])
      (codes "u" ∷ []) (u-IsCacheable, tt) one_line.2 refl refl (sized, (sized, tt)) run_out.1
      run_out.2 (codes "k_u")

-- The line in the buffer of a worker.
took :
    (q : Queue) × (job : Bytes) × (take_job shared worker.job
      ≡ some (taken (record { should_run = true; url_count = 0; queue = q }) job))
    × Holding q []
    × Holds job (codes "CACHE u")
    × (length job ≡ length worker.job)
took = take_job-taken shared worker.job one_line.2 (omega arith) (omega arith) refl

turn-to_head_example : turn a_map perform globals shared worker ≡ (do
  (after, servers, place) ← advance a_map perform globals shared worker.memc (at_head worker)
  (after', w') ← to_head a_map perform globals 3 after servers place
  some (works after' w'))
turn-to_head_example = turn-to_head a_map perform globals shared _ worker took.1 took.2

-- The queue with a second line behind the first, which is `t`, and `u` behind it.
two_lines :
    (t u : Bytes)
    → IsText t
    → IsText u
    → length t < 249
    → length u < 249
    → (q : Queue) × Holding q (cache_job_text t ∷ cache_job_text u ∷ [])
unfolding fifo_init
two_lines t u ht hu short short' =
    let (q, _, v, room) =
      fifo_enqueue-stored (fifo_init-Holding (λ i. replicate 255 0) 4 (λ i. refl) (omega arith))
        (Holds-text (cache_job_text t) [] (ground arith)) (omega arith) (omega arith) in
    let (q', _, v', _) =
      fifo_enqueue-stored v (Holds-text (cache_job_text u) [] (ground arith)) (omega arith)
        (omega (arith, room)) in
    (q', v')

u_and_v : (q : Queue) × Holding q (codes "CACHE u" ∷ codes "CACHE v" ∷ [])
u_and_v =
    two_lines (codes "u") (codes "v") (ground arith) (ground arith) (omega arith) (omega arith)

v_and_u : (q : Queue) × Holding q (codes "CACHE v" ∷ codes "CACHE u" ∷ [])
v_and_u =
    two_lines (codes "v") (codes "u") (ground arith) (ground arith) (omega arith) (omega arith)

abbrev with_two : Queue → List (Worker (Bytes → Option Bytes)) → Pool a_map
with_two q ws =
    waiting_pool a_map perform globals prefix web kept
      (record { should_run = true; url_count = 2; queue = q }) no_records ws

u_first :
    Serving a_map perform globals prefix web kept no_records urls
      (with_two u_and_v.0 (worker ∷ worker ∷ []))
u_first = record {
  shared = record { should_run = true; url_count = 2; queue = u_and_v.0 };
  ws = worker ∷ worker ∷ [];
  starts = refl;
  cacheable = (u-IsCacheable, (v-IsCacheable, tt));
  holds = u_and_v.1;
  counted = refl;
  running = refl;
  sized = (sized, (sized, tt));
}

v_first :
    Serving a_map perform globals prefix web kept no_records
      (codes "v" ∷ codes "u" ∷ [])
      (with_two v_and_u.0 (worker ∷ []))
v_first = record {
  shared = record { should_run = true; url_count = 2; queue = v_and_u.0 };
  ws = worker ∷ [];
  starts = refl;
  cacheable = (v-IsCacheable, (u-IsCacheable, tt));
  holds = v_and_u.1;
  counted = refl;
  running = refl;
  sized = (sized, tt);
}

-- A way to the end of each.
u_end :
    (t : Pool a_map) × Run a_map perform globals (with_two u_and_v.0 (worker ∷ worker ∷ [])) t
    × (left a_map t ≡ 0)
    × ((asked : Bytes) → t.servers asked ≡ with_pages (codes "k_") web urls no_records asked)
u_end =
    pool-finishes a_map perform globals prefix web kept
      (record { should_run = true; url_count = 2; queue = u_and_v.0 }) no_records
      (worker ∷ worker ∷ []) urls (u-IsCacheable, (v-IsCacheable, tt)) u_and_v.1 refl refl
      (sized, (sized, tt)) (omega arith) stay

v_end :
    (t : Pool a_map) × Run a_map perform globals (with_two v_and_u.0 (worker ∷ [])) t
    × (left a_map t ≡ 0)
    × ((asked : Bytes)
        → t.servers asked
          ≡ with_pages (codes "k_") web (codes "v" ∷ codes "u" ∷ []) no_records asked)
v_end =
    pool-finishes a_map perform globals prefix web kept
      (record { should_run = true; url_count = 2; queue = v_and_u.0 }) no_records (worker ∷ [])
      (codes "v" ∷ codes "u" ∷ []) (v-IsCacheable, (u-IsCacheable, tt)) v_and_u.1 refl refl
      (sized, tt) (omega arith) stay

same : SameUrls (codes "k_") web urls (codes "v" ∷ codes "u" ∷ [])
unfolding is_for
same asked = ground arith

pool-unordered_example : u_end.0.servers (codes "k_v") ≡ v_end.0.servers (codes "k_v")
pool-unordered_example =
    pool-unordered a_map perform globals prefix web kept no_records (codes "k_v") same u_first
      v_first u_end.1 v_end.1 u_end.2 v_end.2
