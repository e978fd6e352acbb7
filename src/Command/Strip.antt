-- ===== src/Command/Strip.antt =====
-- The memmove behind `strim` in `get_command`: right while the spaces in front and the text
-- together fit the buffer, and a read past its end otherwise.
use easyforetell.Prelude.{
  ◌+◌, ◌≤◌, ◌<◌, ◌≡◌, refl, ap, ◌∙◌, [], ◌∷◌, ◌++◌, none, some, arith, length, length-append,
  Option,
}
use native.Mathlib.Decide.{dec_lt}
use easyforetell.Memory.{Bytes}
use easyforetell.Memory.Laws.{Holds, length-Holds}
use easyforetell.Memory.Moves.{memmove_front, memmove_same, memmove-faults}
use easyforetell.StringUtils.Parts.{leading, trim, leading-add-trim}
use easyforetell.StringUtils.Trim.{Trimmed, strim-Trimmed}
use easyforetell.Command.{strip_job}

pub record Stripped (b s : Bytes) (r : Option Bytes) : Type 0 where
  pub after : Bytes
  pub runs : r ≡ some after
  pub text : Holds after (trim s)
  pub size : length after ≡ length b

module _ {b s : Bytes} (h : Holds b s) (t : Trimmed b s) where
  sizes : length t.front + length t.back ≡ length b
  sizes = omega (arith, t.size, length-append t.front t.back)

  strip_shorter :
      leading s + length s ≤ length b
      → length (trim s) < length s
      → Stripped b s (strip_job b (length s))
  unfolding strip_job
  strip_shorter fits less =
      let room : length s ≤ length t.back = omega (arith, sizes, t.offset) in
      let (b', e, held, n) =
        memmove_front t.front t.back (trim s) (length s) t.text.is_text t.text room less in
      record { after = b'; runs = rw t.runs e; text = held; size = n ∙ t.size }

  strip_same : length (trim s) ≡ length s → Stripped b s (strip_job b (length s))
  unfolding strip_job
  strip_same same = go t.front refl
    where
      go : (p : Bytes) → t.front ≡ p → Stripped b s (strip_job b (length s))
      go [] e = record {
        after = t.back;
        runs =
            rw (t.runs, e)
              (memmove_same t.back (length s) (omega (arith, length-Holds h, sizes, ap length e)));
        text = t.text;
        size = omega (arith, sizes, ap length e);
      }
      go (c ∷ p) e = absurd (omega (arith, ap length e, t.offset, leading-add-trim s))

  strip_faults : length b < leading s + length s → strip_job b (length s) ≡ none
  unfolding strip_job
  strip_faults over = rw t.runs (
      memmove-faults (t.front ++ t.back) 0 (length t.front) (length s)
        (omega (arith, t.offset, t.size)))

-- `strip_job` with the length of its text leaves the trimmed text at the front of the buffer.
pub strip_job_lem :
    {b s : Bytes}
    → Holds b s
    → leading s + length s ≤ length b
    → Stripped b s (strip_job b (length s))
strip_job_lem {b} {s} h fits = elim (dec_lt (length (trim s)) (length s)) [
  | yes less ↦ strip_shorter h (strim-Trimmed h) fits less
  | no more ↦ strip_same h (strim-Trimmed h) (omega (arith, leading-add-trim s))
]

-- It reads past the buffer if the spaces in front push the text's length beyond its end.
pub strip_job-faults :
    {b s : Bytes} → Holds b s → length b < leading s + length s → strip_job b (length s) ≡ none
strip_job-faults h = strip_faults h (strim-Trimmed h)
