-- ===== src/System/Callbacks.antt =====
-- The callbacks of the socket worker as steps of the daemon.
use easyforetell.Prelude.{
  ℕ, ◌+◌, ◌<◌, ◌≡◌, refl, sym, List, [], ◌∷◌, ◌++◌, append_assoc, true, false, some, length, subst,
}
use easyforetell.Memory.{Bytes}
use easyforetell.Memory.Laws.{IsText}
use easyforetell.Queue.{buffer_size}
use easyforetell.Socket.{Shared, State, Input, bytes, socket_cb, should_socket_worker_run}
use easyforetell.Socket.Lines.{split_lines}
use easyforetell.Socket.Handed.{Hands, stops, refuses, stores}
use easyforetell.Socket.Parse.{FitsCache, deliver}
use easyforetell.Socket.Callback.{Idle, socket_cb_lem}
use easyforetell.System.{outside, System, enter, goes_on, close, accept, refuse}
use easyforetell.System.Service.{Steps, stay, step}

-- The daemon while the main thread is outside its critical sections and its loop runs: the lines
-- served are known, and the queue holds the texts `ts`.
abbrev pub between : Shared → ℕ → List Bytes → List Bytes → System
between shared left served ts = record {
  shared = shared;
  main = outside;
  looping = true;
  left = left;
  accepted = served ++ ts;
  served = served;
}

module _ (n left : ℕ) (served : List Bytes) where
  Hands-Steps :
      {s s' : Shared} {ts ts' : List Bytes}
      → Hands s ts s' ts'
      → Steps n (between s left served ts) (between s' left served ts')
  Hands-Steps stops = stay
  Hands-Steps {s} (refuses cut line held short e) =
      step (enter refl refl) (step (refuse cut line s.queue refl refl held short e) stay)
  Hands-Steps {s} {s'} {ts} {ts'} (stores cut line q held short e more) =
      let after : Shared = record {
        should_run = s.should_run;
        url_count = s.url_count + 1;
        queue = q;
      } in
      let rest =
        subst
          (λ k.
            Steps n
              (record {
                shared = after;
                main = outside;
                looping = true;
                left = left;
                accepted = k;
                served = served;
              })
              (between s' left served ts'))
          (sym (append_assoc served ts (line ∷ []))) (Hands-Steps more) in
      step (enter refl refl) (step (accept cut line q refl refl held short e) rest)

  -- Take a running socket worker between two callbacks, and the daemon in the same shared state
  -- with its loop running, the main thread outside its critical sections, and the queue holding
  -- the lines that it took and no worker got. A callback on a text without NUL bytes and shorter
  -- than BUFFER_SIZE, whose first line with its newline and the cached text are together shorter
  -- than BUFFER_SIZE, ends within its buffers, and some steps of the daemon lead from that state
  -- to the one with the shared state of the callback, the main thread outside again, and the
  -- lines taken that `deliver` says.
  pub socket_cb-Steps :
      {st : State} {c : Bytes} {ts : List Bytes} (d : Bytes)
      → Idle st c ts
      → IsText d
      → length d < buffer_size
      → FitsCache c d
      → (st' : State) × (socket_cb n st (bytes d) ≡ some st')
        × Steps n (between st.1 left served ts) (
            between st'.1 left served
              (deliver st.1.queue.capacity ts (split_lines d).0 (split_lines d).1 c).texts)
  socket_cb-Steps d v hd short fits =
      let got = socket_cb_lem n d v hd short fits in
      (
        got.after,
        got.runs,
        step (enter refl refl) (step (goes_on refl refl v.running) (Hands-Steps got.handed)),
      )

  -- A callback once the daemon is told to stop, whatever is read, is the step that ends the loop.
  pub socket_cb-close :
      (st : State) (ts : List Bytes) (input : Input)
      → st.1.should_run ≡ false
      → (st' : State) × (socket_cb n st input ≡ some st')
        × (st'.0.looping ≡ false)
        × Steps n (between st.1 left served ts) (record {
          shared = st'.1;
          main = outside;
          looping = false;
          left = left;
          accepted = served ++ ts;
          served = served;
        })
  unfolding socket_cb should_socket_worker_run
  socket_cb-close st ts input off = (
    (
      record {
        read_buffer = st.0.read_buffer;
        cache_buffer = st.0.cache_buffer;
        looping = false;
        linked = false;
      },
      record { should_run = false; url_count = st.1.url_count + n; queue = st.1.queue },
    ),
    rw off,
    refl,
    step (enter refl refl) (step (close refl refl off) stay),
  )
