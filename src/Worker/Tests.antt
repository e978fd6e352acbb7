-- ===== src/Worker/Tests.antt =====
-- What an UPDATE job writes, at concrete actions.
use easyforetell.Prelude.{◌++◌, inl}
use easyforetell.Memory.{isspace, index_of}
use easyforetell.Queue.{fifo_init}
use easyforetell.Queue.Run.{fifo_init-Holding}
use easyforetell.Socket.{State}
use easyforetell.Socket.Lines.{split_lines}
use easyforetell.Socket.Callback.{Idle}
use easyforetell.Socket.Stream.{callbacks, Streamed}
use easyforetell.Worker.Feedback.{update_action-callbacks}
use easyforetell.Memory.Laws.{Holds, Holds-text}
use easyforetell.StringUtils.Parts.{ltrim, rtrim}
use easyforetell.Command.{cache, get_command}
use easyforetell.Worker.Commands.{IsTrimmed, get_command-cache}
use easyforetell.Prelude.{Bool, true, if◌then◌else◌, set}
use easyforetell.Memory.{equal}
use easyforetell.StringLists.{fill, init_string_list}
use easyforetell.Config.{LibConfig, read_variable_list, variable_entry}
use easyforetell.Actions.{null, action, load_urls}
use easyforetell.Worker.Unlisted.{load_urls-null_list}
use easyforetell.Prelude.{ℕ, zero, suc, ◌≡◌, refl, [], ◌∷◌, some, none, arith, replicate}
use easyforetell.Memory.{Bytes, codes}
use easyforetell.Memory.Laws.{IsText}
use easyforetell.Actions.{Action}
use easyforetell.Worker.{update_action}
use easyforetell.Worker.Refresh.{
  update_action_lem, update_action-overflows, update_action-null_list,
}

abbrev new_command : Bytes
new_command = replicate 255 7

abbrev two_pages : Action
two_pages = record {
  name = codes "pages";
  refresh_list = some (some (codes "u") ∷ some (codes "v") ∷ none ∷ []);
  count = 2;
}

update_action_lem_example :
    update_action new_command two_pages ≡ some (codes "CACHE u\n" ∷ codes "CACHE v\n" ∷ [])
update_action_lem_example =
    update_action_lem new_command two_pages (codes "u" ∷ codes "v" ∷ []) (none ∷ []) refl refl refl
      ((ground arith, omega arith), ((ground arith, omega arith), tt))

abbrev long_url : Bytes
long_url = replicate 248 b'u'

us-IsText : (n : ℕ) → IsText (replicate n b'u')
us-IsText zero = tt
us-IsText (suc n) = ((λ e. absurd (omega (arith, e))), us-IsText n)

update_action-overflows_example :
    update_action new_command
      (record { name = codes "pages"; refresh_list = some (some long_url ∷ []); count = 1 })
    ≡ none
update_action-overflows_example =
    update_action-overflows new_command
      (record { name = codes "pages"; refresh_list = some (some long_url ∷ []); count = 1 })
      long_url [] 0 refl refl refl (us-IsText 248) refl

update_action-null_list_example :
    update_action new_command (record { name = codes "pages"; refresh_list = none; count = 33 })
    ≡ none
update_action-null_list_example =
    update_action-null_list new_command
      (record { name = codes "pages"; refresh_list = none; count = 33 }) 32 refl refl refl

-- One variable, which is not complete, and 33 pages.
abbrev many_pages : LibConfig
many_pages = record {
  Config = Unit {0};
  Setting = ℕ;
  config_read_file = λ path. some tt;
  config_lookup = λ cfg path. if equal path (codes "cache.pages") then some 33 else some 1;
  config_lookup_string = λ cfg path. none;
  config_lookup_int = λ cfg path. none;
  config_setting_length = λ setting. setting;
  config_setting_get_elem = λ setting i. setting;
  config_setting_lookup_string = λ setting path. none;
  config_setting_lookup_int = λ setting path. none;
}

abbrev allocated : ℕ → Bool
allocated i = true

one_variable : read_variable_list many_pages true allocated tt 0 32 ≡ some (some (none ∷ []), 1)
unfolding read_variable_list equal fill variable_entry init_string_list
one_variable = refl

pages_setting : many_pages.config_lookup tt (codes "cache.pages") ≡ some 33
unfolding equal
pages_setting = refl

abbrev empty_action : Action
empty_action = record { name = codes "pages"; refresh_list = none; count = 0 }

load_urls-null_list_example :
    (a' : Action) × (load_urls many_pages 5 allocated tt (null ∷ null ∷ []) 0 empty_action
      ≡ some (set (null ∷ null ∷ []) 0 (action a'), true))
    × (update_action new_command a' ≡ none)
load_urls-null_list_example =
    load_urls-null_list many_pages 5 allocated tt 33 (null ∷ null ∷ []) 0 empty_action (none ∷ []) 1
      new_command one_variable pages_setting (omega arith) refl

abc-IsTrimmed : IsTrimmed (codes "abc")
unfolding ltrim rtrim isspace
abc-IsTrimmed = record {
  first = b'a';
  others = codes "bc";
  shape = refl;
  left = refl;
  right = refl;
}

get_command-cache_example :
    (command' job' : Bytes) × (get_command
        (replicate 255 7)
        (codes "CACHE abc" ++ 0 ∷ replicate 245 7)
      ≡ some (command', job', cache))
    × Holds job' (codes "abc")
get_command-cache_example =
    get_command-cache (replicate 255 7) (codes "CACHE abc" ++ 0 ∷ replicate 245 7) (codes "abc")
      (Holds-text (codes "CACHE abc") (replicate 245 7) (ground arith)) abc-IsTrimmed (omega arith)

abbrev block : ℕ → Bytes
block i = replicate 255 0

-- A socket worker with nothing cached and four free places in the queue.
abbrev listening : State
listening = (
  record {
    read_buffer = replicate 255 0;
    cache_buffer = replicate 255 0;
    looping = true;
    linked = true;
  },
  record { should_run = true; url_count = 0; queue = fifo_init block 4 },
)

listening-Idle : Idle listening [] []
unfolding fifo_init
listening-Idle = record {
  read_size = refl;
  cache = Holds-text [] (replicate 254 0) tt;
  cache_size = refl;
  queue = fifo_init-Holding block 4 (λ i. refl) (omega arith);
  running = refl;
}

-- The two lines come in two reads, the first up to the middle of the second line.
update_action-callbacks_example :
    Streamed listening []
      (codes "CACHE u" ∷ codes "CACHE v" ∷ [], [])
      (callbacks 2 listening (codes "CACHE u\nCA" ∷ codes "CHE v\n" ∷ []))
unfolding split_lines index_of fifo_init
update_action-callbacks_example =
    update_action-callbacks 2 new_command two_pages (codes "u" ∷ codes "v" ∷ []) (none ∷ [])
      (codes "CACHE u\n" ∷ codes "CACHE v\n" ∷ []) (codes "CACHE u\nCA" ∷ codes "CHE v\n" ∷ []) refl
      refl refl ((ground arith, omega arith), ((ground arith, omega arith), tt)) (refl, (refl, tt))
      update_action_lem_example listening-Idle refl
      (
        omega arith,
        omega arith,
        (λ i e. ground arith),
        inl tt,
        (omega arith, omega arith, (λ i e. ground arith), inl tt, tt),
      )
      (omega arith)
