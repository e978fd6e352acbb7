-- ===== src/Daemon/Tests.antt =====
-- A process with eight descriptors, and one whose limit does not fit an `unsigned int`.
use easyforetell.Prelude.{◌≡◌, ◌<◌, refl, true, [], ◌∷◌, some, none, arith, length, replicate, pos}
use easyforetell.Prelude.Int.{show, digits_on}
use easyforetell.Memory.{codes}
use easyforetell.Daemon.{daemonize, close_all}
use easyforetell.Daemon.Descriptors.{succeeding, running, daemonize_lem, close_all-endless}

short_pid : length (show (pos 4711)) < 16
unfolding show digits_on
short_pid = omega arith

daemonize_lem_example :
    daemonize (succeeding 4711 (some 8)) 9 (codes "/var/run/queral.pid") (replicate 8 true)
    ≡ some (running 4711 4)
daemonize_lem_example =
    daemonize_lem 4711 (codes "/var/run/queral.pid") short_pid 9 4 (some 8) (replicate 8 true) refl
      (omega arith) refl (omega arith)

close_all-endless_example : close_all 1000 4294967296 0 (true ∷ []) ≡ none
close_all-endless_example =
    close_all-endless 1000 4294967296 0 (true ∷ []) (omega arith) (omega arith)
