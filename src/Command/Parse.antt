-- ===== src/Command/Parse.antt =====
-- What `get_command` makes of the text of a job.
use easyforetell.Prelude.{
  ℕ, ◌+◌, ◌-◌, ◌*◌, ◌≤◌, ◌<◌, ◌≡◌, refl, sym, ap, ◌∙◌, ◌∷◌, ◌++◌, none, some, arith, length, subst,
  Option, take, drop, drop-append, take-append-drop, length-take, length-drop, append_assoc,
}
use easyforetell.Memory.{Bytes, index_of, c_str, str_equal, strlen}
use easyforetell.Memory.Laws.{
  IsText, Holds, Holds-c_str, Holds-text, index_of-lt, strchr-Holds, length-Holds, strlen-Holds,
  strlen-text, IsText-split,
}
use easyforetell.Memory.Moves.{memmove_text, strncpy_cut}
use easyforetell.StringUtils.Parts.{leading, trim, leading-add-trim}
use easyforetell.Command.{
  Command, undefined, strip_job, redefine_job, named_command, dispatch, with_space, command_code,
  get_command,
}
use easyforetell.Command.Strip.{Stripped, strip_job_lem, strip_job-faults}
use easyforetell.Command.Meaning.{word_code, argument, parse, parse_command, FitsJob}

command_code_lem : {b w : Bytes} → Holds b w → command_code b ≡ some (word_code w)
unfolding command_code word_code str_equal c_str
command_code_lem h = rw (Holds-c_str h)

-- What a run of `get_command` leaves: the job's text, and a command word where one was found.
pub record Parsed (command_size job_size : ℕ) (s : Bytes) (r : Option (Bytes × Bytes × Command))
    : Type 0 where
  pub command : Bytes
  pub job : Bytes
  pub runs : r ≡ some (command, job, (parse_command s).0)
  pub text : Holds job (parse_command s).1
  pub size : length job ≡ job_size
  pub command_kept : length command ≡ command_size

-- The block "Redefine the job" leaves the trimmed rest of the text.
module _ (w a r : Bytes) (ha : IsText a)
    (fits : leading a + length a ≤ length (w ++ (a ++ 0 ∷ r))) where
  redefine_job_lem :
      (n : ℕ)
      → n ≡ length w + 1
      → Stripped (w ++ (a ++ 0 ∷ r)) a (redefine_job (w ++ (a ++ 0 ∷ r)) n)
  unfolding redefine_job
  redefine_job_lem n e =
      let (moved, cut, m, z, held, size) = memmove_text w a r ha in
      let st = strip_job_lem held (omega (arith, size)) in
      record {
        after = st.after;
        runs =
            rw (back, drop-append w (a ++ 0 ∷ r) (length w) refl, strlen-text a r ha)
              (rw (m, z) st.runs);
        text = st.text;
        size = st.size ∙ size;
      }
    where
      back : n - 1 ≡ length w
      back = omega arith

module _ (command r t : Bytes) (i : ℕ) (ht : IsText t) (lt : i < length t)
    (room : i < length command) where
  abbrev job : Bytes
  job = t ++ 0 ∷ r

  split : job ≡ take i t ++ (drop i t ++ 0 ∷ r)
  split =
      ap (λ k. k ++ 0 ∷ r) (sym (take-append-drop i t)) ∙ append_assoc (take i t) (drop i t) (0 ∷ r)

  word : length (take i t) ≡ i
  word = omega (arith, length-take i t)

  text : IsText (drop i t)
  text = (IsText-split (take i t) (drop i t) (subst IsText (sym (take-append-drop i t)) ht)).1

  rest_of : drop i job ≡ drop i t ++ 0 ∷ r
  rest_of = ap (drop i) split ∙ drop-append (take i t) (drop i t ++ 0 ∷ r) i (sym word)

  -- What the cases of the switch on the command word do.
  dispatch_lem :
      (command' : Bytes) (code : Command) (n : ℕ)
      → n ≡ i + 1
      → leading (drop i t) + length (drop i t) ≤ length job
      → (job' : Bytes) × (dispatch command' job n code ≡ some (command', job', code))
        × Holds job' (argument t (drop i t) code)
        × (length job' ≡ length job)
  unfolding dispatch argument
  dispatch_lem command' undefined n e fits = (job, refl, Holds-text t r ht, refl)
  dispatch_lem command' code n e fits =
      let st : Stripped job (drop i t) (redefine_job job n) =
        subst (λ b. Stripped b (drop i t) (redefine_job b n)) (sym split)
          (redefine_job_lem (take i t) (drop i t) r text (omega (arith, ap length split)) n
            (omega (arith, word))) in
      (st.after, rw st.runs, st.text, st.size)

  command_length : length t - length (drop i t) + 1 ≡ i + 1
  command_length = omega (arith, length-drop i t)

  named_command_lem :
      leading (drop i t) + length (drop i t) ≤ length job
      → (command' job' : Bytes) × (named_command command job i
          ≡ some (command', job', word_code (take i t)))
        × Holds command' (take i t)
        × Holds job' (argument t (drop i t) (word_code (take i t)))
        × (length command' ≡ length command)
        × (length job' ≡ length job)
  unfolding named_command
  named_command_lem fits =
      let (copied, command', e, z, held, size) =
        strncpy_cut command t r i _ ht lt command_length (omega (arith, command_length)) in
      let (job', d, held', size') =
        dispatch_lem command' (word_code (take i t)) _ command_length fits in
      (command', job', rw (whole, rest, e, z, command_code_lem held) d, held, held', size, size')
    where
      whole : strlen job ≡ some (length t)
      whole = strlen-text t r ht

      rest : strlen (drop i job) ≡ some (length (drop i t))
      rest = rw rest_of (strlen-text (drop i t) r text)

-- The trimmed job, with and without a space in it.
module _ (command : Bytes) {b t : Bytes} (h : Holds b t) (room : length b ≤ length command) where
  abbrev Runs : Option ℕ → Type 0
  Runs found =
      (command' job' : Bytes) × (with_space command b found
        ≡ some (command', job', (parse t found).0))
      × Holds job' (parse t found).1
      × (length job' ≡ length b)
      × (length command' ≡ length command)

  without_space : Runs none
  unfolding with_space parse
  without_space = (command, b, refl, h, refl, refl)

  at_space :
      (i : ℕ) → i < length t → leading (drop i t) + length (drop i t) ≤ length b → Runs (some i)
  unfolding with_space parse
  at_space i lt fits =
      let same : t ++ 0 ∷ h.rest ≡ b = sym h.shape in
      let (command', job', e, _, held, kept, size) =
        named_command_lem command h.rest t i h.is_text lt (omega (arith, length-Holds h))
          (omega (arith, ap length same)) in
      (
        command',
        job',
        ap (λ k. named_command command k i) (sym same) ∙ e,
        held,
        size ∙ ap length same,
        kept,
      )

-- `get_command` on a job that holds a text ends within its buffers and returns the command of
-- `parse_command`, with the argument of `parse_command` in the job, whose size is kept: the text
-- without the spaces around it is cut at its first space, a first word FETCH, CACHE or UPDATE is
-- the command and the trimmed rest its argument, and any other text is undefined and stays as it
-- is, trimmed. The conditions: the command's buffer is at least as large as the job; and both for
-- the text and for its rest from the first space on, the number of leading spaces and the length
-- are together at most the size of the job.
pub get_command_lem :
    (command job : Bytes) {s : Bytes}
    → Holds job s
    → FitsJob (length job) s
    → length job ≤ length command
    → Parsed (length command) (length job) s (get_command command job)
unfolding get_command parse_command
get_command_lem command job {s} h (fits, args) room =
    let st = strip_job_lem h fits in
    let (command', job', e, held, size, kept) = cases st (index_of b' ' (trim s)) refl in
    record {
      command = command';
      job = job';
      runs = rw (strlen-Holds h, st.runs, strchr-Holds b' ' st.text) e;
      text = held;
      size = size ∙ st.size;
      command_kept = kept;
    }
  where
    cases :
        (st : Stripped job s (strip_job job (length s))) (found : Option ℕ)
        → index_of b' ' (trim s) ≡ found
        → Runs command st.text (omega (arith, st.size)) found
    cases st none e = without_space command st.text (omega (arith, st.size))
    cases st (some i) e =
        at_space command st.text (omega (arith, st.size)) i (index_of-lt b' ' (trim s) e)
          (omega (arith, args i e, st.size))

leading-le : (s : Bytes) → leading s ≤ length s
leading-le s = omega (arith, leading-add-trim s)

-- A text of at most half the job.
pub short-FitsJob : (size : ℕ) (s : Bytes) → 2 * length s ≤ size → FitsJob size s
short-FitsJob size s short = (
  omega (arith, leading-le s),
  λ i e. omega (arith, leading-le (drop i (trim s)), length-drop i (trim s), leading-add-trim s),
)

-- If the spaces in front of the text of a job and the length of the text are together more than
-- the size of the job, `get_command` accesses memory outside the job.
pub get_command-faults :
    (command job : Bytes) {s : Bytes}
    → Holds job s
    → length job < leading s + length s
    → get_command command job ≡ none
unfolding get_command
get_command-faults command job h over = rw (strlen-Holds h, strip_job-faults h over)
