-- ===== src/Worker/Refresh.antt =====
-- The CACHE commands that an UPDATE job writes, and how long a url may be.
use easyforetell.Prelude.{
  ℕ, suc, ◌+◌, ◌≤◌, ◌<◌, ◌≡◌, refl, sym, ap, ◌∙◌, List, [], ◌∷◌, ◌++◌, append_assoc, append-nil,
  map, none, some, arith, length, length-append, le→leb, subst,
}
use easyforetell.Memory.{Bytes, codes, literal, c_str, strcpy, strcat, strncat, write_at}
use easyforetell.Memory.Laws.{
  IsText, Holds, Holds-c_str, Holds-text, strlen-Holds, strcpy_front, write_text,
}
use easyforetell.Memory.Strings.{strcat_lem, strcat-overflows, strncat-whole}
use easyforetell.StringLists.{StringList}
use easyforetell.Queue.{buffer_size}
use easyforetell.Actions.{Action}
use easyforetell.Worker.{refresh, refresh_list, update_action}

-- Urls that fit `new_command` behind `n` bytes, with a newline and the NUL.
abbrev pub AreShort : ℕ → List Bytes → Type 0
AreShort n [] = Unit {0}
AreShort n (t ∷ ts) = (IsText t × (n + length t + 2 ≤ buffer_size)) × AreShort n ts

-- The buffer after one url: what each call leaves, and the command still at its front.
record Refreshed (p b t : Bytes) : Type 0 where
  begun : Bytes
  appended : Bytes
  ended : Bytes
  rest : Bytes
  begins : write_at b (length p) (0 ∷ []) ≡ some begun
  appends : strncat begun (t ++ 0 ∷ []) (length t) ≡ some appended
  ends : strcat appended (literal "\n") ≡ some ended
  text : c_str ended ≡ some ((p ++ t) ++ b'\n' ∷ [])
  shape : ended ≡ p ++ rest
  size : length ended ≡ buffer_size

-- The buffer with the command alone.
record Begun (p b : Bytes) : Type 0 where
  begun : Bytes
  begins : write_at b (length p) (0 ∷ []) ≡ some begun
  text : Holds begun p
  size : length begun ≡ buffer_size

newline-IsText : IsText (b'\n' ∷ [])
newline-IsText = ((λ k. absurd (omega (arith, k))), tt)

module _ (p : Bytes) (hp : IsText p) (room : length p < buffer_size) where
  -- The line for a url.
  abbrev line : Bytes → Bytes
  line t = (p ++ t) ++ b'\n' ∷ []

  begun_lem : (b r : Bytes) → b ≡ p ++ r → length b ≡ buffer_size → Begun p b
  begun_lem b r e size =
      let (begun, w, held, kept) =
        write_text p r [] hp tt (omega (arith, ap length e, length-append p r)) in
      record {
        begun = begun;
        begins = ap (λ k. write_at k (length p) (0 ∷ [])) e ∙ w;
        text = subst (Holds begun) (append-nil p) held;
        size = kept ∙ ap length (sym e) ∙ size;
      }

  refreshed_lem :
      (b r t : Bytes)
      → b ≡ p ++ r
      → length b ≡ buffer_size
      → IsText t
      → length p + length t + 2 ≤ buffer_size
      → Refreshed p b t
  refreshed_lem b r t e size ht fits =
      let g = begun_lem b r e size in
      let a = strncat-whole t g.text ht (omega (arith, g.size)) in
      let z =
        strcat_lem a.text (Holds-text (b'\n' ∷ []) [] newline-IsText)
          (omega (arith, a.size_kept, g.size, length-append p t)) in
      record {
        begun = g.begun;
        appended = a.after;
        ended = z.after;
        rest = t ++ b'\n' ∷ 0 ∷ z.text.rest;
        begins = g.begins;
        appends = a.runs;
        ends = z.runs;
        text = Holds-c_str z.text;
        shape =
            z.text.shape
            ∙ append_assoc (p ++ t) (b'\n' ∷ []) (0 ∷ z.text.rest)
            ∙ append_assoc p t (b'\n' ∷ 0 ∷ z.text.rest);
        size = z.size_kept ∙ a.size_kept ∙ g.size;
      }

  refresh_lem :
      (b r : Bytes) (ts : List Bytes) (tail : StringList)
      → b ≡ p ++ r
      → length b ≡ buffer_size
      → AreShort (length p) ts
      → refresh b (length p) (map some ts ++ tail) (length ts) ≡ some (map line ts)
  unfolding refresh
  refresh_lem b r [] tail e size h = refl
  refresh_lem b r (t ∷ ts) tail e size h =
      let z = refreshed_lem b r t e size h.0.0 h.0.1 in
      rw (
        z.begins,
        le→leb (length p + length t + 1) buffer_size (omega (arith, h.0.1)),
        z.appends,
        z.ends,
        z.text,
        refresh_lem z.ended z.rest ts tail z.shape z.size h.1,
      )

  -- A url that leaves room for the newline but not for the NUL.
  refresh-overflows :
      (b r t : Bytes) (list : StringList) (count : ℕ)
      → b ≡ p ++ r
      → length b ≡ buffer_size
      → IsText t
      → length p + length t + 1 ≡ buffer_size
      → refresh b (length p) (some t ∷ list) (suc count) ≡ none
  unfolding refresh
  refresh-overflows b r t list count e size ht exact =
      let g = begun_lem b r e size in
      let a = strncat-whole t g.text ht (omega (arith, g.size)) in
      rw (
        g.begins,
        le→leb (length p + length t + 1) buffer_size (omega arith),
        a.runs,
        strcat-overflows a.text (Holds-text (b'\n' ∷ []) [] newline-IsText)
            (omega (arith, a.size_kept, g.size, length-append p t)),
      )

-- `new_command` with the command and the space.
record Spaced (b : Bytes) : Type 0 where
  command : Bytes
  spaced : Bytes
  copies : strcpy b 0 (literal "CACHE") ≡ some command
  adds : strcat command (literal " ") ≡ some spaced
  text : Holds spaced (codes "CACHE ")
  size : length spaced ≡ buffer_size

cache-IsText : IsText (codes "CACHE")
cache-IsText = ground arith

space-IsText : IsText (codes " ")
space-IsText = ground arith

spaced_lem : (b : Bytes) → length b ≡ buffer_size → Spaced b
spaced_lem b size =
    let (command, copied, held, kept) =
      strcpy_front b (Holds-text (codes "CACHE") [] cache-IsText) (omega arith) in
    let z = strcat_lem held (Holds-text (codes " ") [] space-IsText) (omega (arith, kept)) in
    record {
      command = command;
      spaced = z.after;
      copies = copied;
      adds = z.runs;
      text = z.text;
      size = z.size_kept ∙ kept ∙ size;
    }

-- The line of the command CACHE for a url.
abbrev pub cache_line : Bytes → Bytes
cache_line t = (codes "CACHE " ++ t) ++ b'\n' ∷ []

-- An UPDATE job on an action whose `count` is the number of its urls, each a text of at most 247
-- bytes without a NUL, writes to the pipe, in order, the line CACHE, a space, the url and a
-- newline for each url, and stays inside `new_command`, a buffer of BUFFER_SIZE bytes.
pub update_action_lem :
    (new_command : Bytes) (a : Action) (ts : List Bytes) (tail : StringList)
    → length new_command ≡ buffer_size
    → a.refresh_list ≡ some (map some ts ++ tail)
    → a.count ≡ length ts
    → AreShort 6 ts
    → update_action new_command a ≡ some (map cache_line ts)
unfolding update_action refresh_list
update_action_lem new_command a ts tail size listed counted short =
    let s = spaced_lem new_command size in
    rw (s.copies, s.adds, strlen-Holds s.text, listed, counted)
      (refresh_lem (codes "CACHE ") s.text.is_text (omega arith) s.spaced (0 ∷ s.text.rest) ts tail
        s.text.shape s.size short)

-- An UPDATE job on an action whose first url is a text of 248 bytes without a NUL passes the test
-- of the length and writes past the end of `new_command`, a buffer of BUFFER_SIZE bytes.
pub update_action-overflows :
    (new_command : Bytes) (a : Action) (t : Bytes) (list : StringList) (count : ℕ)
    → length new_command ≡ buffer_size
    → a.refresh_list ≡ some (some t ∷ list)
    → a.count ≡ suc count
    → IsText t
    → length t ≡ 248
    → update_action new_command a ≡ none
unfolding update_action refresh_list
update_action-overflows new_command a t list count size listed counted ht exact =
    let s = spaced_lem new_command size in
    rw (s.copies, s.adds, strlen-Holds s.text, listed, counted)
      (refresh-overflows (codes "CACHE ") s.text.is_text (omega arith) s.spaced (0 ∷ s.text.rest) t
        list count s.text.shape s.size ht (omega arith))

-- An UPDATE job on an action whose `refresh_list` is NULL and whose `count` is not 0 reads
-- through the NULL pointer.
pub update_action-null_list :
    (new_command : Bytes) (a : Action) (count : ℕ)
    → length new_command ≡ buffer_size
    → a.refresh_list ≡ none
    → a.count ≡ suc count
    → update_action new_command a ≡ none
unfolding update_action refresh_list
update_action-null_list new_command a count size listed counted =
    let s = spaced_lem new_command size in
    rw (s.copies, s.adds, strlen-Holds s.text, listed, counted)
