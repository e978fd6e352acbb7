-- ===== src/Include/Loading.antt =====
-- The loop of `main` over the include files.
use easyforetell.Prelude.{
  ℕ, zero, suc, ◌+◌, ◌<◌, ◌≡◌, refl, sym, ap, ap₂, ◌∙◌, Bool, true, false, List, [], ◌∷◌, ◌++◌,
  append_assoc, append-nil, map, Option, none, some, arith, length, length-append, replicate, set,
  lt→ltb, not_lt→ltb, ltb, Bool-cases, Option-cases, inl, inr,
}
use easyforetell.Memory.{Bytes, codes}
use easyforetell.Logger.{info, log_info}
use easyforetell.Logger.Laws.{text-fits}
use easyforetell.StringLists.{StringList}
use easyforetell.Config.{LibConfig, read_variable_list}
use easyforetell.Replace.{read_url_list}
use easyforetell.Directory.{LibDirectory}
use easyforetell.Actions.{
  Action, Slot, garbage, null, action, argument_max_length, variable_max_count, url_max_count,
  create_action, end_after, load_urls, read_name, load_named, log_loading, load_action,
}
use easyforetell.Include.{queral_version, load_each}

module _ {ℓ} {A : Type ℓ} where
  set-end : (xs : List A) (y z : A) (ys : List A) → set (xs ++ y ∷ ys) (length xs) z ≡ xs ++ z ∷ ys
  set-end [] y z ys = refl
  set-end (x ∷ xs) y z ys = ap (λ k. x ∷ k) (set-end xs y z ys)

  set-end_next :
      (xs : List A) (u y z : A) (ys : List A) (n : ℕ)
      → n ≡ length xs + 1
      → set (xs ++ u ∷ y ∷ ys) n z ≡ xs ++ u ∷ z ∷ ys
  set-end_next [] u y z ys zero h = absurd (omega arith)
  set-end_next [] u y z ys (suc zero) h = refl
  set-end_next [] u y z ys (suc (suc n)) h = absurd (omega arith)
  set-end_next (x ∷ xs) u y z ys zero h = absurd (omega arith)
  set-end_next (x ∷ xs) u y z ys (suc n) h =
      ap (λ k. x ∷ k) (set-end_next xs u y z ys n (omega arith))

-- `load_action` puts the new action in the first free place and NULL behind it.
placed :
    (slots rest : List Slot) (a : Action)
    → end_after (set (slots ++ null ∷ garbage ∷ rest) (length slots) (action a)) (length slots + 1)
      ≡ some (slots ++ action a ∷ null ∷ rest)
unfolding end_after
placed slots rest a =
    rw
      (
        set-end slots null (action a) (garbage ∷ rest),
        lt→ltb (length slots + 1) (length (slots ++ action a ∷ garbage ∷ rest))
            (omega (arith, length-append slots (action a ∷ garbage ∷ rest))),
      )
      (ap some (set-end_next slots (action a) garbage null rest (length slots + 1) refl))

log_loading-fits :
    (name : Bytes)
    → length name < 225
    → log_loading name
      ≡ some (record {
        priority = info;
        message = codes "Loading cache configuration: '" ++ (name ++ codes "'");
      })
unfolding log_loading log_info
log_loading-fits name short =
    text-fits info (codes "Loading cache configuration: '") name (codes "'") (omega (arith, short))

module _ (lib : LibConfig) (fuel : ℕ) (allocated : ℕ → Bool) where
  open lib use {Config}

  -- A file that defines this action: its name is not too long, and its variables and its pages can
  -- be read.
  pub record Defines (file : Bytes) (a : Action) : Type 0 where
    pub cfg : Config
    pub variables : StringList
    pub variable_count : ℕ
    pub named : read_name lib fuel allocated file queral_version ≡ some (cfg, a.name)
    -- with room in the log line
    pub short : length a.name < 225
    pub has_variables :
        read_variable_list lib true allocated cfg 0 variable_max_count
        ≡ some (some variables, variable_count)
    pub has_pages :
        read_url_list lib fuel true allocated cfg 0 url_max_count variables variable_count
        ≡ some (a.refresh_list, a.count)

  with_pages :
      (file : Bytes) (a : Action) (slots rest : List Slot) (d : Defines file a)
      → load_urls lib fuel allocated d.cfg
          (slots ++ action (record { name = a.name; refresh_list = none; count = 0 }) ∷ null ∷ rest)
          (length slots)
          (record { name = a.name; refresh_list = none; count = 0 })
        ≡ some (slots ++ action a ∷ null ∷ rest, true)
  unfolding load_urls
  with_pages file a slots rest d =
      let new : Action = record { name = a.name; refresh_list = none; count = 0 } in
      rw (d.has_variables, d.has_pages)
        (ap (λ k. some (k, true)) (set-end slots (action new) (action a) (null ∷ rest)))

  load_action-defined :
      (file : Bytes) (a : Action) (slots rest : List Slot)
      → Defines file a
      → load_action lib fuel allocated
          (slots ++ null ∷ garbage ∷ rest)
          file
          (length slots)
          queral_version
        ≡ some (slots ++ action a ∷ null ∷ rest, true)
  unfolding load_action load_named create_action
  load_action-defined file a slots rest d =
      let new : Action = record { name = a.name; refresh_list = none; count = 0 } in
      rw
        (
          d.named,
          load_named,
          lt→ltb (length a.name) argument_max_length (omega (arith, d.short)),
          placed slots rest new,
          log_loading-fits a.name d.short,
        )
        (with_pages file a slots rest d)

  -- A file that is not of the version or has no name is passed over; at the last place any other
  -- file goes past the end of the array.
  abbrev pub at_last : List Slot → Option (Config × Bytes) → Option (List Slot × Bool)
  at_last actions none = some (actions, false)
  at_last actions (some read) = none

  load_action-last :
      (file : Bytes) (slots : List Slot)
      → load_action lib fuel allocated (slots ++ null ∷ []) file (length slots) queral_version
        ≡ at_last (slots ++ null ∷ []) (read_name lib fuel allocated file queral_version)
  unfolding load_action load_named create_action end_after
  load_action-last file slots =
      elim (Option-cases (read_name lib fuel allocated file queral_version)) [
        | inl unread ↦ rw (unread, load_named)
        | inr ((cfg, name), e) ↦
            let new : Action = record { name = name; refresh_list = none; count = 0 } in
            elim (Bool-cases (ltb (length name) argument_max_length)) [
              | inr long ↦ rw (e, load_named, long)
              | inl short ↦ rw (
                e,
                load_named,
                short,
                set-end slots null (action new) [],
                not_lt→ltb (length slots + 1) (length (slots ++ action new ∷ []))
                    (omega (arith, length-append slots (action new ∷ []))),
              )
            ]
      ]

module _ (lib : LibConfig) (fuel : ℕ) (allocated : ℕ → Bool) where
  open lib use {Config}

  abbrev pub DefineAll : List Bytes → List Action → Type 0
  DefineAll [] [] = Unit {0}
  DefineAll [] (a ∷ acts) = ⊥
  DefineAll (file ∷ files) [] = ⊥
  DefineAll (file ∷ files) (a ∷ acts) = Defines lib fuel allocated file a × DefineAll files acts

  -- What the last file makes of the loop.
  abbrev pub at_end : List Slot → ℕ → Option (Config × Bytes) → Option (List Slot × ℕ)
  at_end slots i none = some (slots ++ null ∷ [], i)
  at_end slots i (some read) = none

  module _ (directory : LibDirectory) (last : Bytes) (rest : StringList) where
    last_round :
        (slots : List Slot)
        → load_each lib directory fuel allocated
            (some last ∷ none ∷ rest)
            (length slots)
            (slots ++ null ∷ [])
          ≡ at_end slots (length slots + 1) (read_name lib fuel allocated last queral_version)
    unfolding load_each
    last_round slots = elim (Option-cases (read_name lib fuel allocated last queral_version)) [
      | inl unread ↦ rw (load_action-last lib fuel allocated last slots, unread)
      | inr (read, e) ↦ rw (load_action-last lib fuel allocated last slots, e)
    ]

    pub load_each_lem :
        (files : List Bytes) (acts : List Action) (slots : List Slot)
        → DefineAll files acts
        → load_each lib directory fuel allocated
            (map some files ++ some last ∷ none ∷ rest)
            (length slots)
            (slots ++ null ∷ replicate (length files) garbage)
          ≡ at_end
              (slots ++ map action acts)
              (length slots + length files + 1)
              (read_name lib fuel allocated last queral_version)
    unfolding load_each
    load_each_lem [] [] slots d = rw (append-nil slots) (
        last_round slots
        ∙ ap (λ k. at_end slots k (read_name lib fuel allocated last queral_version)) (omega arith))
    load_each_lem [] (a ∷ acts) slots d = absurd d
    load_each_lem (file ∷ files) [] slots d = absurd d
    load_each_lem (file ∷ files) (a ∷ acts) slots d =
        let more = slots ++ action a ∷ [] in
        let free = replicate (length files) garbage in
        let read = read_name lib fuel allocated last queral_version in
        let next : length slots + 1 ≡ length more =
          omega (arith, length-append slots (action a ∷ [])) in
        let count : length more + length files + 1 ≡ length slots + suc (length files) + 1 =
          omega (arith, length-append slots (action a ∷ [])) in
        rw (load_action-defined lib fuel allocated file a slots free d.0) (
          ap₂ (load_each lib directory fuel allocated (map some files ++ some last ∷ none ∷ rest))
            next (sym (append_assoc slots (action a ∷ []) (null ∷ free)))
          ∙ load_each_lem files acts more d.1
          ∙ ap₂ (λ k n. at_end k n read) (append_assoc slots (action a ∷ []) (map action acts))
              count)
