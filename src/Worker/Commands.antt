-- ===== src/Worker/Commands.antt =====
-- The lines that an UPDATE job writes, read back by `get_command`.
use easyforetell.Prelude.{
  ℕ, ◌+◌, ◌<◌, ◌≤◌, ◌≡◌, refl, sym, ap, ◌∙◌, [], ◌∷◌, ◌++◌, some, length, length-append, arith,
  subst, drop,
}
use easyforetell.Memory.{Bytes, codes, isspace, index_of, equal}
use easyforetell.Memory.Laws.{Holds, length-Holds}
use easyforetell.StringUtils.Parts.{leading, trim, ltrim, rtrim, ltrim-split}
use easyforetell.Command.{Command, cache, get_command}
use easyforetell.Command.Meaning.{parse_command, parse, argument, word_code, FitsJob}
use easyforetell.Command.Parse.{get_command_lem}

-- A text that begins and ends with no space, and is not empty.
pub record IsTrimmed (t : Bytes) : Type 0 where
  pub first : ℕ
  pub others : Bytes
  pub shape : t ≡ first ∷ others
  pub left : ltrim t ≡ t
  pub right : rtrim t ≡ t

rtrim-append :
    (p : Bytes) (y : ℕ) (ys : Bytes) → rtrim (y ∷ ys) ≡ y ∷ ys → rtrim (p ++ y ∷ ys) ≡ p ++ y ∷ ys
unfolding rtrim
rtrim-append [] y ys h = h
rtrim-append (c ∷ []) y ys h = rw h refl
rtrim-append (c ∷ (x ∷ p)) y ys h = rw (rtrim-append (x ∷ p) y ys h) refl

trim-command : (t : Bytes) → IsTrimmed t → trim (codes "CACHE " ++ t) ≡ codes "CACHE " ++ t
unfolding trim ltrim isspace
trim-command t h =
    subst (λ k. rtrim (codes "CACHE " ++ k) ≡ codes "CACHE " ++ k) (sym h.shape)
      (rtrim-append (codes "CACHE ") h.first h.others (subst (λ k. rtrim k ≡ k) h.shape h.right))

trim-argument : (t : Bytes) → IsTrimmed t → trim (b' ' ∷ t) ≡ t
unfolding trim ltrim isspace
trim-argument t h = ap rtrim h.left ∙ h.right

pub parse-command : (t : Bytes) → IsTrimmed t → parse_command (codes "CACHE " ++ t) ≡ (cache, t)
unfolding parse_command parse argument word_code index_of equal
parse-command t h = rw (trim-command t h) (ap (λ k. (cache, k)) (trim-argument t h))

IsTrimmed-leading : (t : Bytes) → IsTrimmed t → leading t ≡ 0
IsTrimmed-leading t h =
    let (p, e, _, l, _) = ltrim-split t in
    let whole : t ≡ p ++ t = e ∙ ap (λ k. p ++ k) h.left in
    omega (arith, l, ap length whole, length-append p t)

-- Such a line fits every job that holds it.
pub cache-FitsJob :
    (t : Bytes)
    → IsTrimmed t
    → (size : ℕ) → length (codes "CACHE " ++ t) < size
    → FitsJob size (codes "CACHE " ++ t)
unfolding leading isspace index_of
cache-FitsJob t h size fits = (
  omega (arith, fits),
  λ i e.
      let found : some 5 ≡ some i = ap (index_of b' ') (sym (trim-command t h)) ∙ e in
      let at : 5 ≡ i = cc in
      subst
        (λ k.
          leading (drop k (trim (codes "CACHE " ++ t)))
            + length (drop k (trim (codes "CACHE " ++ t)))
          ≤ size)
        at (rw (trim-command t h) (omega (arith, fits, IsTrimmed-leading t h))),
)

-- `get_command` on a job that holds CACHE, a space and a text that is not empty and neither
-- begins nor ends with a space, the command's buffer no smaller than the job, returns CACHE and
-- leaves the text in the job: what an UPDATE job writes for a url, less the newline, is read back
-- as the command to cache that url.
pub get_command-cache :
    (command job t : Bytes)
    → Holds job (codes "CACHE " ++ t)
    → IsTrimmed t
    → length job ≤ length command
    → (command' job' : Bytes) × (get_command command job ≡ some (command', job', cache))
      × Holds job' t
get_command-cache command job t h clean room =
    let p =
      get_command_lem command job h (cache-FitsJob t clean (length job) (length-Holds h)) room in
    (
      p.command,
      p.job,
      p.runs ∙ ap (λ (k : Command × Bytes). some (p.command, p.job, k.0)) (parse-command t clean),
      subst (λ (k : Command × Bytes). Holds p.job k.1) (parse-command t clean) p.text,
    )
