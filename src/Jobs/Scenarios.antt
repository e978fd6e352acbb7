-- ===== src/Jobs/Scenarios.antt =====
-- An UPDATE of an action with two pages, from the job to the records.
use easyforetell.Prelude.{
  ◌≡◌, refl, true, [], ◌∷◌, map, Option, none, some, arith, replicate, pos, inl,
}
use easyforetell.Memory.{Bytes, codes, equal, index_of}
use easyforetell.Memory.Laws.{Holds-text}
use easyforetell.Actions.Find.{first_named}
use easyforetell.Queue.{Queue, fifo_init}
use easyforetell.Queue.Run.{fifo_init-Holding}
use easyforetell.Socket.{Shared, State}
use easyforetell.Socket.Lines.{split_lines}
use easyforetell.Socket.Callback.{Idle}
use easyforetell.Socket.Stream.{callbacks}
use easyforetell.Worker.Refresh.{cache_line}
use easyforetell.Jobs.{Worker, update_job, work_on}
use easyforetell.Jobs.Pages.{Served, with_pages, work_on_lem}
use easyforetell.Jobs.Refreshed.{update-pages}
use easyforetell.Jobs.Sample.{
  a_map, kept, web, perform, urls, pages, globals, worker, sized, prefix, u-IsCacheable,
  v-IsCacheable, one_line,
}

abbrev state : State
state = (
  record {
    read_buffer = replicate 255 0;
    cache_buffer = replicate 255 0;
    looping = true;
    linked = true;
  },
  record { should_run = true; url_count = 0; queue = fifo_init (λ i. replicate 255 0) 4 },
)

state-Idle : Idle state [] []
unfolding fifo_init
state-Idle = record {
  read_size = refl;
  cache = Holds-text [] (replicate 254 0) tt;
  cache_size = refl;
  queue = fifo_init-Holding (λ i. replicate 255 0) 4 (λ i. refl) (omega arith);
  running = refl;
}

found : first_named (codes "pages") (pages ∷ []) ≡ some pages
unfolding first_named equal
found = refl

-- The lines come back in two reads.
update-pages_example :
    (w' : Worker (Bytes → Option Bytes)) × (st' : State) × (update_job a_map perform globals worker
      ≡ some w')
    × (w'.lines ≡ map cache_line urls)
    × (callbacks 1 state (codes "CACHE u\nCA" ∷ codes "CHE v\n" ∷ []) ≡ some st')
    × Served a_map perform globals prefix web kept st'.1 w' urls
        (work_on a_map perform globals (pos 100) (λ i. 17) 3 st'.1 w')
unfolding index_of fifo_init split_lines
update-pages_example =
    update-pages a_map perform globals prefix web kept 1 worker (codes "pages") (pages ∷ []) pages
      urls (none ∷ []) (codes "CACHE u\nCA" ∷ codes "CHE v\n" ∷ []) (λ i. 17) 100
      (Holds-text (codes "pages") (replicate 249 0) (ground arith)) refl found refl sized refl refl
      ((ground arith, omega arith), ((ground arith, omega arith), tt)) (refl, (refl, tt))
      (u-IsCacheable, (v-IsCacheable, tt)) state-Idle refl (omega arith) refl
      (
        omega arith,
        omega arith,
        (λ i e. ground arith),
        inl tt,
        (omega arith, omega arith, (λ i e. ground arith), inl tt, tt),
      )

-- What the servers then have.
recorded : with_pages (codes "k_") web urls (λ asked. none) (codes "k_v") ≡ some (codes "<p>v")
unfolding with_pages equal
recorded = refl

abbrev waiting : Queue → Shared
waiting q = record { should_run = true; url_count = 1; queue = q }

work_on_lem_example :
    Served a_map perform globals prefix web kept
      (waiting one_line.0)
      worker
      (codes "u" ∷ [])
      (work_on a_map perform globals (pos 100) (λ i. 17) 2 (waiting one_line.0) worker)
work_on_lem_example =
    work_on_lem a_map perform globals prefix web kept (λ i. 17) 100 (waiting one_line.0) worker
      (codes "u" ∷ []) 2 (u-IsCacheable, tt) one_line.2 refl refl sized (omega arith)
