-- ===== src/Worker/Feedback.antt =====
-- From the urls of an action to the queue: what an UPDATE job writes comes back to the socket
-- worker.
use easyforetell.Prelude.{
  concat, ℕ, suc, ◌+◌, ◌≤◌, ◌≡◌, refl, sym, ap, ◌∙◌, List, [], ◌∷◌, ◌++◌, append_assoc, append-nil,
  map, none, some, arith, length, subst,
}
use easyforetell.Memory.{Bytes, codes, index_of}
use easyforetell.StringLists.{StringList}
use easyforetell.Queue.{buffer_size}
use easyforetell.Actions.{Action}
use easyforetell.Socket.{State}
use easyforetell.Socket.Lines.{split_lines, join_lines, split_lines-append, no_line}
use easyforetell.Socket.Callback.{Idle}
use easyforetell.Socket.Stream.{callbacks, IsWellCut, Streamed, callbacks_stream}
use easyforetell.Worker.{update_action}
use easyforetell.Worker.Refresh.{AreShort, cache_line, update_action_lem}

-- No url has a newline.
abbrev pub AreSingleLines : List Bytes → Type 0
AreSingleLines [] = Unit {0}
AreSingleLines (t ∷ ts) = (index_of b'\n' t ≡ none) × AreSingleLines ts

-- The job that such a line is for the workers.
abbrev pub cache_job_text : Bytes → Bytes
cache_job_text t = codes "CACHE " ++ t

single_line :
    (t : Bytes) → index_of b'\n' t ≡ none → split_lines (cache_job_text t) ≡ ([], cache_job_text t)
unfolding index_of
single_line t h = no_line (cache_job_text t) (rw h refl)

after_newline :
    (t rest : Bytes)
    → join_lines ([], t) (split_lines (b'\n' ∷ rest))
      ≡ (t ∷ (split_lines rest).0, (split_lines rest).1)
unfolding join_lines split_lines
after_newline t rest = ap (λ k. (k ∷ (split_lines rest).0, (split_lines rest).1)) (append-nil t)

split_lines-concat :
    (ts : List Bytes)
    → AreSingleLines ts
    → split_lines (concat (map cache_line ts)) ≡ (map cache_job_text ts, [])
unfolding split_lines
split_lines-concat [] h = refl
split_lines-concat (t ∷ ts) h =
    let rest = concat (map cache_line ts) in
    ap split_lines (append_assoc (cache_job_text t) (b'\n' ∷ []) rest)
    ∙ split_lines-append (cache_job_text t) (b'\n' ∷ rest)
    ∙ ap (λ k. join_lines k (split_lines (b'\n' ∷ rest))) (single_line t h.0)
    ∙ after_newline (cache_job_text t) rest
    ∙ ap (λ (k : List Bytes × Bytes). (cache_job_text t ∷ k.0, k.1)) (split_lines-concat ts h.1)

pub length-jobs : (ts : List Bytes) → length (map cache_job_text ts) ≡ length ts
length-jobs [] = refl
length-jobs (t ∷ ts) = ap suc (length-jobs ts)

module _ (workers_count : ℕ) where
  -- Take an UPDATE job on an action whose `count` is the number of its urls, each a text of at
  -- most 247 bytes without a NUL or a newline, and a running socket worker with nothing cached
  -- and room in the queue for that many lines. If the socket worker reads what the job writes to
  -- the pipe, cut into reads in any way that `IsWellCut` allows, then the callbacks end without
  -- an access outside a buffer, the queue holds, behind what it held, the line CACHE, a space and
  -- the url for each url in order, `url_count` has grown by their number, and nothing is cached.
  pub update_action-callbacks :
      {st : State} {waiting : List Bytes} (new_command : Bytes) (a : Action) (ts : List Bytes)
      (tail : StringList) (lines ds : List Bytes)
      → length new_command ≡ buffer_size
      → a.refresh_list ≡ some (map some ts ++ tail)
      → a.count ≡ length ts
      → AreShort 6 ts
      → AreSingleLines ts
      → update_action new_command a ≡ some lines
      → Idle st [] waiting
      → concat ds ≡ concat lines
      → IsWellCut [] ds
      → length waiting + length ts ≤ st.1.queue.capacity
      → Streamed st waiting (map cache_job_text ts, []) (callbacks workers_count st ds)
  unfolding split_lines
  update_action-callbacks {st} {waiting} new_command a ts tail lines ds size listed counted short
        single written v read cut room =
      let same : map cache_line ts ≡ lines =
        let e = update_action_lem new_command a ts tail size listed counted short in cc in
      let cut_up : split_lines (concat ds) ≡ (map cache_job_text ts, []) =
        ap split_lines (read ∙ ap concat (sym same)) ∙ split_lines-concat ts single in
      subst (λ out. Streamed st waiting out (callbacks workers_count st ds)) cut_up
        (callbacks_stream workers_count ds v refl cut
          (omega (arith, ap (λ (k : List Bytes × Bytes). length k.0) cut_up, length-jobs ts)))
