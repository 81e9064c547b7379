-- ===== src/Lib.antt =====
-- mp_logger, an asynchronous structured logger in C: producers copy records into a bounded queue
-- without ever waiting, and one worker takes them out, renders them as JSON or as text and hands
-- them to the registered streams.
--
-- The parts and the files that model them. Paths are from the repository's root.
--
--   Text       the string routines of src/mp_logger_bootstrap.c and src/mp_logger_streams.c:
--              copy_trimmed, copy_truncated, unquote_scalar, equal_ignore_case,
--              sanitize_file_component, is_build_version_valid
--   Status     the enumerations of include/mp_logger.h and their names
--   Config     mp_logger_config_t, its defaults and its validation; Config.Values the parsers of
--              values, Config.Apply the overrides, Config.Load mp_logger_bootstrap_load
--   Logger     struct mp_logger and the types of its members, from src/mp_logger_internal.h and
--              include/mp_logger.h
--   Fields     structured fields in src/mp_logger.c: validation, the copy into a slot and the copy
--              out of it
--   Queue      mp_logger_enqueue_record with its callers, and the removal of a record by
--              mp_logger_worker_main, in src/mp_logger.c
--   Streams    the stream table, the level mask and mp_logger_configure in src/mp_logger.c, with
--              mp_logger_destroy_streams of src/mp_logger_streams.c
--   Render     mp_logger_render_record of src/mp_logger_streams.c with its append functions;
--              Render.Number the number and time formats, Render.Reference the texts that it
--              should produce
--   Files      paths and directories in src/mp_logger_streams.c, and the run suffix of
--              src/mp_logger.c
--   Storage    mp_logger_allocate_buffers of src/mp_logger.c, the parts of the blocks
--   Backup     the backup logger of src/mp_logger_streams.c
--   Builtin    mp_logger_split_stream_list of src/mp_logger_bootstrap.c; the built-in streams of
--              src/mp_logger_streams.c, with Builtin.Build for mp_logger_build_builtin_streams and
--              Builtin.Sinks for the write callbacks
--   Worker     what mp_logger_worker_main does with a record that it has taken, its reports of
--              drops, and mp_logger_get_stats, in src/mp_logger.c; Worker.Loop its loop
--   Lifecycle  mp_logger_start, mp_logger_flush and mp_logger_shutdown in src/mp_logger.c
--   Create     mp_logger_create, mp_logger_create_from_bootstrap and mp_logger_destroy there
--   System     producers, the worker and the callers of the lifecycle over one logger, in any
--              interleaving
--   Common     lists, tests and bits over native numbers
--   Tests      runs on concrete inputs
--
-- A definition has the name of its C function, without the prefix mp_logger. The parts interact
-- through the state `Logger`: Config.Load fills a `Config`, `configure` puts one into a logger,
-- `enqueue_record` copies a call's texts and fields into a slot, `take_record` copies the slot out
-- as a `Record`, `render_record` turns that into bytes, and `deliver` hands them to the streams.
-- Queue.History runs producers' calls and the worker's removals in any order. System cuts a call of
-- `mp_logger_log_fields` behind its test of `shutdown_requested`, and the worker's loop at every
-- mutex and between the test of its wait, where it holds `queue_mutex`, and the wait itself, in which
-- it is blocked until a signal or for no reason. A shutdown is its store of the flag, its signal and
-- its join. The pieces interleave with each other and with the other calls.
--
-- How C is modelled. A C string is the list of its bytes without the NUL; an array of char is the
-- C string that it holds, and every copy cuts to the array's size. A NULL text is `none`. NULL
-- handles and NULL results, which the code answers with INVALID_ARGUMENT, do not occur, except where
-- a function below takes an `Option`. `size_t` and `uint64_t` are native numbers, with the remainder
-- by 2^64 where the code adds; a double is its bit pattern. The character tests are those of the C
-- locale. A function that changes the logger returns the changed one beside its result. Each
-- definition is what the code does in one critical section, so an interleaving of threads is a
-- sequence of them; whether `pthread_mutex_trylock` got the mutex and what the clock says are
-- arguments. The file system is a function from paths to contents. The C library's `%.17g` and
-- `gmtime_r` are the members of a `Printer`, and the answers of the streams' `write` callbacks a
-- `Callback`; what the allocator, `stat`, `mkdir`, `open`, `fopen`, `getaddrinfo`, `socket`, the
-- clocks and the threads library answer are arguments (Files.Directory, Builtin.Answers,
-- Storage.Blocks, Create.Creation, Lifecycle.Join).
--
-- Words of the results. A queue is valid if its head and count are within the slots and its tail is
-- where they say (Queue.Invariant.IsValid). A logger is coherent if its table holds eight streams at
-- most with different names and levels as bounds, and the cached mask has the bits of the levels
-- that some stream accepts (Streams.Coherence.IsCoherent). A configuration is in range if its texts
-- fit their arrays and its numbers their types (Config.Apply.Bounds.IsBounded). Fields are
-- admitted by Fields.Validate.ArgsAreAdmitted. A logger is fresh if its queue is valid and empty and
-- its counters are 0 (System.Reachable.IsFresh). A system is sound if its queue is valid, the
-- arguments of the calls under way are admitted, the accepted records are those that were handed to
-- the streams, then the one in the worker's hand, then the queued ones, and the two counters agree with
-- these lists (System.Invariant.IsSound). The journal of a system has, for each piece of the worker,
-- the logger that it found and the calls of `write` that it made, and records have been handed to the
-- streams if these calls are, piece by piece, those for the records: one for every stream of the table
-- whose bounds have the record's level, with the rendered record (System.Delivered.HasDelivered). A
-- system is done if the worker has returned, the queue is empty and all accepted records were handed
-- over (System.Liveness.IsDone).
--
-- Fuel. `read_lines` takes the file's length: a round of the loop reads a byte at least. `digits_of`
-- takes the number plus one, which has no more digits than that. `split_rounds` takes the length of
-- the text: a round passes a byte at least. `run_worker` takes four pieces for each queued record and
-- five more. The wait of `flush` goes over the list of what its rounds read. All other loops are
-- structural.
--
-- Not modelled: weak memory. A read of a counter or of a flag outside of a mutex sees the value of one
-- moment, the two reads of the drop counters are one piece of the worker, and a flush does not see
-- `queued_records_total` between its increment and the end of the producer's critical section. A call
-- of mp_logger_start is one step, so two calls of it that overlap are not modelled. What
-- the system does with bytes that are written; what runs after `mp_logger_destroy` has freed a
-- logger; the code for other systems than Linux; the clock functions, the Go bindings, tests,
-- benchmarks and scripts.
pub mod Common
pub mod Text
pub mod Status
pub mod Config
pub mod Logger
pub mod Streams
pub mod Files
pub mod Fields
pub mod Queue
pub mod Render
pub mod Storage
pub mod Backup
pub mod Builtin
pub mod Worker
pub mod Lifecycle
pub mod Create
pub mod System
pub mod Tests
