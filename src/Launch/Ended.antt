-- ===== src/Launch/Ended.antt =====
-- How `main` ends: through `exit_` before its loop, or behind it.
use easyforetell.Prelude.{
  ℕ, zero, suc, ◌+◌, ◌≤◌, ◌≡◌, ◌↔◌, refl, ap, ◌∙◌, subst, List, ◌++◌, map, Option, none, some,
  length, replicate, pos, ◌==◌, Bool, Bool-cases, true, ◌&&◌, if◌then◌else◌, inl, inr,
}
use easyforetell.Memory.{Bytes}
use easyforetell.StringLists.Fill.{destroy_string_list-filled}
use easyforetell.Actions.{Action}
use easyforetell.Queue.{Queue, indices}
use easyforetell.Queue.Ring.{Holding}
use easyforetell.Pipe.{Mask, create_thread}
use easyforetell.Boot.{Booted, ends, boots}
use easyforetell.Lifetime.{Freed, clean_up}
use easyforetell.Lifetime.Service.{freed_blocks, fifo_destroy_lem}
use easyforetell.Launch.{
  Machine, Looping, Launch, exits, loops, create_workers, launch, join_threads, end_main,
}
use easyforetell.Launch.Outcome.{
  array, array_texts, free_actions_lem, Failed, Failed-exits, Outcome, parent, failed, runs,
  launch-Outcome, Pooled,
}

-- pthread_create gave 0 for each of `left` workers from number `i` on.
unfoldable pub all_created : (ℕ → ℕ) → ℕ → ℕ → Bool
all_created error i zero = true
all_created error i (suc left) = (error i == 0) && all_created error (i + 1) left

join_threads_lem :
    (error : ℕ → ℕ) (mask : Mask) (i left : ℕ)
    → join_threads (create_workers error mask i left).0
      ≡ (if all_created error i left then some (indices i left) else none)
unfolding join_threads create_workers create_thread all_created indices
join_threads_lem error mask i zero = refl
join_threads_lem error mask i (suc left) = elim (Bool-cases (error i == 0)) [
  | inr failed_here ↦ rw failed_here refl
  | inl made ↦ elim (Bool-cases (all_created error (i + 1) left)) [
    | inl all ↦ rw (made, join_threads_lem error mask (i + 1) left, all) refl
    | inr not_all ↦ rw (made, join_threads_lem error mask (i + 1) left, not_all) refl
  ]
]

module _ (machine : Machine) (b : Booted) (acts : Option (List Action)) (servers : List Bytes)
    (k : ℕ) (loaded : b.actions ≡ array acts)
    (listed : b.memcached_servers ≡ map some servers ++ replicate k none)
    (few : length servers ≤ b.server_count) where
  Outcome-Failed :
      (t : Launch)
      → Outcome machine b acts servers k loaded listed few t
      → some t ≡ some (exits (ends (array_texts acts ++ servers)))
      → Failed machine b
  Outcome-Failed t (parent p) e = absurd (cc)
  Outcome-Failed t (failed why p) e = why
  Outcome-Failed t (runs running p pooled) e = absurd (cc)

  -- With an array of actions that is ended by NULL, or none, and a list of servers that holds
  -- texts and then NULLs, whose count is at least their number, whatever the operating system and
  -- malloc answer: after the configuration is loaded `main` exits having freed exactly all texts
  -- of the actions and of the servers, in order and each once, if and only if `daemonize` returns
  -- -1 or, having become a daemon, `create_fifo` returns -1.
  pub launch-exits :
      Failed machine b
      ↔ (launch machine (boots b) ≡ some (exits (ends (array_texts acts ++ servers))))
  launch-exits = (
    Failed-exits machine b acts servers k loaded listed few,
    λ e. Outcome-Failed _ (launch-Outcome machine b acts servers k loaded listed few _ e) refl,
  )

  Outcome-Pooled :
      (t : Launch) (running : Looping)
      → Outcome machine b acts servers k loaded listed few t
      → t ≡ loops running
      → Pooled machine b acts servers k loaded listed few running
  Outcome-Pooled t running (parent p) e = absurd (cc)
  Outcome-Pooled t running (failed why p) e = absurd (cc)
  Outcome-Pooled t running (runs running' p pooled) e =
      let same : running' ≡ running = cc in
      subst (Pooled machine b acts servers k loaded listed few) same pooled

  -- What is freed at the end, the queue holding the lines `waiting`.
  abbrev all_freed : Queue → List Bytes → Freed
  all_freed queue waiting = record {
    queue_blocks = freed_blocks waiting queue.capacity;
    action_texts = array_texts acts;
    server_texts = servers;
  }

  clean_up-freed :
      (queue : Queue) (waiting : List Bytes)
      → Holding queue waiting
      → clean_up queue b.actions b.memcached_servers b.server_count ≡ some (all_freed queue waiting)
  unfolding clean_up
  clean_up-freed queue waiting v = rw (
    fifo_destroy_lem queue waiting v,
    loaded,
    listed,
    free_actions_lem acts,
    destroy_string_list-filled servers k b.server_count few,
  )

  -- Let `main` with such actions and servers have reached the loop of the socket worker, whatever
  -- the operating system and malloc answered, with a setting of n workers, and let the queue hold
  -- some lines at the end. If pthread_create made every thread, `main` joins the workers 0 to n -
  -- 1 in order and frees the texts of the actions and of the servers, in order and each once, and
  -- all blocks of the queue if a line is left in it and none if it is empty; if it failed for
  -- any, `main` joins a thread with an identifier that was never set.
  pub end_main_lem :
      (running : Looping) (n : ℕ) (queue : Queue) (waiting : List Bytes)
      → launch machine (boots b) ≡ some (loops running)
      → b.settings.workers_count ≡ pos n
      → Holding queue waiting
      → end_main running queue ≡ (
          if all_created machine.error 0 n
          then some (indices 0 n, all_freed queue waiting)
          else none)
  unfolding end_main
  end_main_lem running n queue waiting launched count v =
      let p =
        Outcome-Pooled _ running
          (launch-Outcome machine b acts servers k loaded listed few _ launched) refl in
      let same : suc p.last ≡ n = let e = p.count in cc in
      let joined : join_threads running.threads
          ≡ (if all_created machine.error 0 n then some (indices 0 n) else none) =
        ap join_threads p.threads
        ∙ ap (λ (c : ℕ). join_threads (create_workers machine.error machine.mask 0 c).0) same
        ∙ join_threads_lem machine.error machine.mask 0 n in
      elim (Bool-cases (all_created machine.error 0 n)) [
        | inl all ↦ rw (joined, all, p.booted, clean_up-freed queue waiting v) refl
        | inr not_all ↦ rw (joined, not_all) refl
      ]
