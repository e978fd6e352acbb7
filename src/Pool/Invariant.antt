-- ===== src/Pool/Invariant.antt =====
-- What holds of the pool whichever thread goes on, while it serves CACHE jobs.
use easyforetell.Prelude.{
  suc, ◌+◌, ◌-◌, ◌*◌, ◌<◌, ◌≡◌, refl, sym, ap, ◌∙◌, subst, false, List, [], ◌∷◌, ◌++◌, concat,
  Option, some, arith, length, length-append, if◌then◌else◌, Bool-cases, inl, inr,
}
use easyforetell.Memory.{Bytes, equal}
use easyforetell.Memory.Laws.{Holds, Holds-c_str}
use easyforetell.Command.{Command, cache}
use easyforetell.Command.Meaning.{parse_command}
use easyforetell.Command.Parse.{get_command_lem}
use easyforetell.Socket.{Shared}
use easyforetell.Keys.Laws.{create_key_lem}
use easyforetell.Curl.{MemoryStruct}
use easyforetell.Memcached.{LibMemcached}
use easyforetell.Memcached.Messages.{delete_record-runs, override_record-runs}
use easyforetell.Memcached.Store.{Store}
use easyforetell.Jobs.{Worker, Globals, store_page}
use easyforetell.Jobs.Cache.{fetched_lem}
use easyforetell.Jobs.Loop.{oldest_short}
use easyforetell.Jobs.Pages.{AreSized, IsCacheable, cacheable-IsKey}
use easyforetell.System.Sections.{take_job-idle, take_job-taken}
use easyforetell.Worker.Commands.{parse-command, cache-FitsJob}
use easyforetell.Worker.Feedback.{cache_job_text}
use easyforetell.Pool.{
  Place, at_head, at_delete, at_fetch, weight, keyed_place, begin, begin_job, advance,
}
use easyforetell.Pool.Pending.{is_for, equal_sound}
use easyforetell.Pool.Facts.{IsBusy, Own, head, deleting, fetching, Waiting, Stored, IsFine, fine}

module _ (lib : LibMemcached)
    (perform : Bytes → MemoryStruct → Option (MemoryStruct × Option Bytes)) (globals : Globals)
    {prefix : Bytes} (hp : Holds globals.key_prefix prefix) (web : Bytes → List Bytes)
    (store : Store lib) (final : Bytes → Option Bytes) where
  open lib use {Memc, memcached_set, memcached_delete}
  open store use {lookup, lookup-set, lookup-delete}

  module _ (others : List Bytes) (shared : Shared) (servers : Memc) where
    -- At the head of the loop, with nothing in the queue.
    idle-Fine :
        (w : Worker Memc)
        → AreSized globals.max_key w
        → Waiting lib perform globals hp web store final shared []
        → Stored lib perform globals hp web store final servers others [] []
        → IsFine lib perform globals hp web store final others 0
            (advance lib perform globals shared servers (at_head w))
    unfolding advance begin_job
    idle-Fine w sized waiting stored = rw (take_job-idle shared w.job waiting.counted) (
        fine (record {
          own = [];
          rest = [];
          one = head sized;
          waiting = waiting;
          stored = stored;
          less = omega arith;
        }))

    moves_out :
        (asked t : Bytes) → is_for prefix asked (t ∷ []) ≡ false → equal asked (prefix ++ t) ≡ false
    unfolding is_for
    moves_out asked t h = elim (Bool-cases (equal asked (prefix ++ t))) [
      | inl same ↦ let f = rw same at h in absurd (cc)
      | inr differs ↦ differs
    ]

    -- With a job in the queue.
    take-Fine :
        (w : Worker Memc) (t : Bytes) (rest : List Bytes)
        → AreSized globals.max_key w
        → Waiting lib perform globals hp web store final shared (t ∷ rest)
        → Stored lib perform globals hp web store final servers others [] (t ∷ rest)
        → IsFine lib perform globals hp web store final others
            (0 + 3 * suc (length rest))
            (advance lib perform globals shared servers (at_head w))
    unfolding advance begin_job begin keyed_place is_for
    take-Fine w t rest sized waiting stored =
        let ok = waiting.cacheable.0 in
        let short = oldest_short waiting.holds in
        let (queue, job, took, holds, held, kept) =
          take_job-taken shared w.job waiting.holds (omega (arith, short, sized.job))
            (omega (arith, waiting.counted)) waiting.running in
        let parsed = parse-command t ok.trimmed in
        let p =
          get_command_lem w.command job held
            (cache-FitsJob t ok.trimmed (length job) (omega (arith, short, kept, sized.job)))
            (omega (arith, kept, sized.job, sized.command)) in
        let url : Holds p.job t = subst (λ (k : Command × Bytes). Holds p.job k.1) parsed p.text in
        let k =
          create_key_lem globals.max_key w.key hp url (globals.max_key - 1) (omega (arith, ok.fits))
            (omega (arith, ok.fits)) (omega (arith, ok.fits, sized.key)) in
        let code : (parse_command (cache_job_text t)).0 ≡ cache =
          ap (λ (c : Command × Bytes). c.0) parsed in
        rw (took, begin_job, p.runs, code, begin, k.runs)
          (fine (record {
            own = t ∷ [];
            rest = rest;
            one = deleting (record {
              sized = record {
                job = p.size ∙ kept ∙ sized.job;
                command = p.command_kept ∙ sized.command;
                key = k.kept ∙ sized.key;
                block = sized.block;
              };
              job = url;
              key = k.text;
              cacheable = ok;
              known = waiting.known.0;
            });
            waiting = record {
              holds = holds;
              counted = omega (arith, waiting.counted);
              running = waiting.running;
              cacheable = waiting.cacheable.1;
              known = waiting.known.1;
            };
            stored = λ asked a b c. stored asked a refl (rw (moves_out asked t b) c);
            less = omega arith;
          }))

    named_key :
        (t : Bytes)
        → IsCacheable lib perform globals hp web t
        → length (prefix ++ t) + lib.longest_error < 215
    named_key t ok = omega (arith, ok.named, length-append prefix t)

    delete-Fine :
        (w : Worker Memc) (t : Bytes) (rest : List Bytes)
        → IsBusy lib perform globals hp web store final w t
        → Waiting lib perform globals hp web store final shared rest
        → Stored lib perform globals hp web store final servers others (t ∷ []) rest
        → IsFine lib perform globals hp web store final others
            (2 + 3 * length rest)
            (advance lib perform globals shared servers (at_delete w))
    unfolding advance
    delete-Fine w t rest busy waiting stored =
        rw ((delete_record-runs lib servers busy.key (named_key t busy.cacheable)).1) (
          fine (record {
            own = t ∷ [];
            rest = rest;
            one = fetching busy;
            waiting = waiting;
            stored = λ asked a b c.
                rw
                  (
                    lookup-delete servers (prefix ++ t) asked
                        (cacheable-IsKey lib perform globals hp web t busy.cacheable),
                    moves_out asked t b,
                  )
                  (stored asked a b c);
            less = omega arith;
          }))

    fetch-Fine :
        (w : Worker Memc) (t : Bytes) (rest : List Bytes)
        → IsBusy lib perform globals hp web store final w t
        → Waiting lib perform globals hp web store final shared rest
        → Stored lib perform globals hp web store final servers others (t ∷ []) rest
        → IsFine lib perform globals hp web store final others
            (1 + 3 * length rest)
            (advance lib perform globals shared servers (at_fetch w))
    unfolding advance store_page is_for
    fetch-Fine w t rest busy waiting stored =
        let ok = busy.cacheable in
        let d =
          fetched_lem perform t (web t) ok.error ok.delivers (omega (arith, ok.named))
            w.buffer.memory w.buffer.size 102399 refl busy.sized.block ok.room in
        let page : Holds d.after.memory (concat (web t)) = record {
          rest = d.collects.rest;
          shape = d.collects.shape;
          is_text = ok.page;
        } in
        let set =
          override_record-runs lib servers globals.expiration busy.key page (named_key t ok) in
        rw (Holds-c_str busy.job, d.runs, store_page, set.1)
          (fine (record {
            own = [];
            rest = rest;
            one = head (record {
              job = busy.sized.job;
              command = busy.sized.command;
              key = busy.sized.key;
              block = d.collects.whole;
            });
            waiting = waiting;
            stored = λ asked a b c.
                rw
                  (lookup-set servers (prefix ++ t) (concat (web t)) globals.expiration asked
                    (cacheable-IsKey lib perform globals hp web t ok))
                  (stored_page asked a c);
            less = omega arith;
          }))
      where
        stored_page :
            (asked : Bytes)
            → is_for prefix asked others ≡ false
            → is_for prefix asked rest ≡ false
            → (if equal asked (prefix ++ t) then some (concat (web t)) else lookup servers asked)
              ≡ final asked
        stored_page asked a c = elim (Bool-cases (equal asked (prefix ++ t))) [
          | inl same ↦
              rw same (sym busy.known ∙ ap final (sym (equal_sound asked (prefix ++ t) same)))
          | inr differs ↦ rw differs (stored asked a (rw differs refl) c)
        ]

    -- Whichever thread goes on, it moves without a fault and keeps the others' facts.
    pub advance-IsFine :
        (place : Place lib) (own rest : List Bytes)
        → Own lib perform globals hp web store final place own
        → Waiting lib perform globals hp web store final shared rest
        → Stored lib perform globals hp web store final servers others own rest
        → IsFine lib perform globals hp web store final others
            (weight lib place + 3 * length rest)
            (advance lib perform globals shared servers place)
    advance-IsFine place own [] (head {w} sized) waiting stored = idle-Fine w sized waiting stored
    advance-IsFine place own (t ∷ rest) (head {w} sized) waiting stored =
        take-Fine w t rest sized waiting stored
    advance-IsFine place own rest (deleting {w} {t} busy) waiting stored =
        delete-Fine w t rest busy waiting stored
    advance-IsFine place own rest (fetching {w} {t} busy) waiting stored =
        fetch-Fine w t rest busy waiting stored
