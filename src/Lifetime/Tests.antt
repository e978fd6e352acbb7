-- ===== src/Lifetime/Tests.antt =====
-- The daemon's start with two reads, and its end with an empty queue.
use easyforetell.Prelude.{ℕ, ◌≡◌, refl, [], ◌∷◌, ◌++◌, map, none, some, arith, replicate, inl, inr}
use easyforetell.Memory.{Bytes, codes, index_of}
use easyforetell.Actions.{Action}
use easyforetell.Actions.Find.{ended_by, all_texts}
use easyforetell.Queue.{fifo_init}
use easyforetell.Queue.Ring.{Holding}
use easyforetell.Queue.Run.{fifo_init-Holding}
use easyforetell.Socket.{State}
use easyforetell.Socket.Lines.{split_lines}
use easyforetell.Socket.Callback.{Idle}
use easyforetell.Socket.Stream.{callbacks}
use easyforetell.Lifetime.{prepare, clean_up}
use easyforetell.Lifetime.Service.{prepare-callbacks, clean_up_lem}

abbrev block : ℕ → Bytes
block i = replicate 255 7

prepare-callbacks_example :
    (st st' : State) × (prepare block (replicate 255 0) (replicate 255 1) ≡ some st)
    × (callbacks 2 st (codes "FETCH a" ∷ codes "b\nCA" ∷ []) ≡ some st')
    × Idle st' (codes "CA") (codes "FETCH ab" ∷ [])
    × (st'.1.url_count ≡ 1)
unfolding split_lines index_of
prepare-callbacks_example =
    prepare-callbacks block (replicate 255 0) (replicate 255 1) 2
      (codes "FETCH a" ∷ codes "b\nCA" ∷ []) (λ i. refl) refl refl
      (
        omega arith,
        omega arith,
        (λ i e. absurd (ground arith)),
        inr refl,
        (omega arith, omega arith, (λ i e. ground arith), inl tt, tt),
      )
      (omega arith)

abbrev pages : Action
pages = record { name = codes "pages"; refresh_list = some (some (codes "u") ∷ []); count = 1 }

empty-Holding : Holding (fifo_init block 2) []
empty-Holding = fifo_init-Holding block 2 (λ i. refl) (omega arith)

clean_up_lem_example :
    clean_up
      (fifo_init block 2)
      (some (ended_by (pages ∷ []) []))
      (map some (codes "a:1" ∷ []) ++ replicate 1 none)
      2
    ≡ some (record {
      queue_blocks = [];
      action_texts = all_texts (pages ∷ []);
      server_texts = codes "a:1" ∷ [];
    })
clean_up_lem_example =
    clean_up_lem (fifo_init block 2) [] (pages ∷ []) (codes "a:1" ∷ []) 1 2 empty-Holding
      (omega arith)
