-- ===== src/Lib.antt =====
-- Verification of EasyForetell's daemon queral, a predictive cache for web applications (src/*.c).
--
-- The daemon reads lines from a named pipe. One thread, the socket worker, cuts what it reads into
-- lines and puts each into a bounded queue; a pool of workers takes the lines, parses them as
-- commands (FETCH, CACHE, UPDATE) and serves them with libcurl and libmemcached. An UPDATE writes a
-- CACHE line for each page of a configured action back to the pipe.
--
-- Files:
-- - Prelude: names, tests and list lemmas that all files share.
-- - Memory: buffers of bytes and the functions of <string.h> that the program calls. A buffer is
--   the list of its bytes, a pointer an offset into it, and `none` an access outside the buffer.
--   Overlapping strcpy moves bytes down; isspace is that of the C locale. Memory/Laws,
--   Memory/Moves and Memory/Strings hold their lemmas; `Holds b s` says that the buffer b holds s.
-- - StringUtils, StringLists and the first half of Replace (src/string_utils.c).
-- - Queue (src/queue.c): fifo_init, fifo_enqueue, fifo_dequeue, fifo_destroy. Queue/Fifo is the
--   specification, Queue/Ring the representation, Queue/Run any sequence of calls.
-- - Command (src/queral.c): get_command; Command/Meaning has its specification parse_command,
--   Command/Parse shows that get_command meets it.
-- - Socket (src/queral.c): socket_cb and should_socket_worker_run. Socket/Lines is the
--   specification by the lines of a text, Socket/Stream that of several reads, Socket/Limits what
--   is lost or written out of bounds.
-- - Config and the second half of Replace (src/config_utils.c): the readers of the configuration
--   and substitute_variables. libconfig is the parameter LibConfig. Config/Settings is what main of
--   src/queral.c makes of the settings.
-- - Actions (src/action.c): the actions that the files of the include directory define.
-- - Keys (src/memcached_client.c): create_key. MEMCACHED_MAX_KEY of libmemcached is a parameter.
-- - Curl (src/curl_client.c): write_callback, and curl_fetch_url with curl_easy_perform as a
--   parameter.
-- - Memcached (src/memcached_client.c): memcached_override_record and memcached_delete_record, with
--   libmemcached as a parameter.
-- - Worker (src/queral.c): what worker_thread writes for an UPDATE job. Worker/Feedback follows it
--   through the pipe into the queue.
-- - Jobs (src/queral.c): the switch of worker_thread, a turn of its loop, and the loop of a worker
--   alone until it waits. Jobs/Pages is a worker on servers that are a map (Memcached/Store),
--   Jobs/Refreshed follows an UPDATE from the job to the records of its pages.
-- - Pool (src/queral.c): the loop of worker_thread cut where other workers come between, and any
--   number of workers on the same servers. Pool/Turn shows the cut loop to be the turn of Jobs,
--   Pool/Facts and Pool/Invariant are what every move keeps, Pool/Service and Pool/Finish what
--   comes of it, and Pool/Unordered that neither the order nor the interleaving matters.
-- - Start (src/queral.c, src/memcached_client.c, src/curl_client.c): worker_thread up to its loop
--   and behind it.
-- - Sleep (src/sleep_utils.c): how long a worker sleeps after a job.
-- - System (src/queral.c): the threads together, as a step relation on the shared state with the
--   main thread's place and how many workers have left. System/Invariant is what every reachable
--   state keeps, System/Service what a worker gets and how all workers end, System/Deadlock what a
--   signal inside a critical section does. System/Callbacks and
--   System/Turns show socket_cb and a worker's turn to be steps of it,
--   System/Drain follows it to the last line served.
-- - Options (src/queral.c): the loop of main over the command line.
-- - Include (src/queral.c): main's loading of the include directory, with the files of Directory and
--   the actions of Actions.
-- - Boot (src/queral.c): main from its arguments up to daemonize, usage and exit_; Boot/Configured follows
--   the configured servers from the configuration to the workers of Start.
-- - Lifetime (src/queral.c): what main prepares for the socket worker, and what it frees at the end.
-- - Launch (src/queral.c): main from daemonize to the loop of the socket worker, composed of Daemon,
--   Pipe and Lifetime, and main from there to its end. Launch/Outcome is what it may come to.
-- - Pipe (src/queral.c): create_fifo, write_fifo and create_thread.
-- - Directory (src/file_utils.c): list_files, on the entries that the operating system gives.
-- - Logger (src/logger.c): the buffer of a message. The log calls of Daemon, of usage, of
--   what a worker fetches, stores, deletes and cannot do, and of the name of an action in
--   load_action are part of the models of those functions, with the texts that are formatted; the
--   others are left out, and the results do not speak of the logger's buffer there.
-- - Daemon (src/daemon_utils.c): daemonize on a table of descriptors, with the results of the system
--   calls as a parameter.
-- - Signals (src/queral.c): signal_handler. Signals/Shutdown follows the daemon from there to its
--   last worker.
--
-- Bounds and fuel: size_t has 64 bits in Curl; elsewhere lengths are below BUFFER_SIZE and sums of
-- them do not wrap. The loop of socket_cb takes BUFFER_SIZE rounds of fuel; each round takes at
-- least one byte off a text of fewer bytes, and the theorems on socket_cb show that the fuel is
-- enough. The loop of substitute_variables runs on a fuel that its caller gives, since it may not
-- end.
--
-- The loop of a worker alone runs on fuel, one for each turn; one more than there are jobs is
-- enough, for the turn that waits. daemonize runs on fuel for its loop over the descriptors; one
-- round for each descriptor and one more are enough where the limit is below 2^32.
--
-- Not modelled: syslog, the delivery of signals by the operating system, the condition variable (a
-- worker that finds nothing takes no step), libev, whose descriptors are a parameter of main,
-- destroy_config, and curl_thread_init, memcached_count_servers and memcached_display_servers,
-- which only call libraries. Each function of the queue holds its mutex from end to end, so it is one step.
pub mod Prelude
pub mod Memory
pub mod StringUtils
pub mod StringLists
pub mod Config
pub mod Include
pub mod Replace
pub mod Command
pub mod Queue
pub mod Socket
pub mod Keys
pub mod Actions
pub mod Worker
pub mod Curl
pub mod Memcached
pub mod Jobs
pub mod Signals
pub mod System
pub mod Directory
pub mod Options
pub mod Sleep
pub mod Logger
pub mod Daemon
pub mod Start
pub mod Boot
pub mod Lifetime
pub mod Launch
pub mod Pipe
pub mod Pool
