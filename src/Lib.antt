-- ===== src/Lib.antt =====
-- SyncFiles
--
-- SyncFiles copies or moves the files of an input directory that the output directory lacks, or has
-- in an older or different state. `main` (src/main.cpp) reads the options and selects a mode: the
-- copy, the deletion of named paths, the search, or the replacement of symbolic links. The copy is
-- the class `Functions` (include/Functions.h, src/Functions.cpp): it lists both directories, starts
-- worker threads (`DoStuff`) and four sorting threads (`Helper_SortFiles`) that share queues, sets
-- and counters, and joins them. The queues are the containers of include/Types.h, whose methods
-- take a spin lock of include/Threading.h.
--
-- Which file models what:
-- - Base: the helpers on lists, strings, options and tests that the others share.
-- - Files: std::filesystem as a table of paths with a node each. Files.Calls has the calls that
--   the program makes, with what each does on failure; Files.Laws and the children of Files.Calls
--   say which paths a call leaves alone, and Files.Spelling how paths are cleaned.
-- - Functions.State: the fields of `Functions`. Functions.Listing: `GetFiles`, `GetFilesRelative`,
--   and the helpers that fill the sets. Functions.Sort: `Helper_SortFiles`. Functions.Work:
--   `DoStuff`. Functions.Copy: `Copy`; `start` is the part before its threads start, `main_step`
--   its own steps from then on, and `run` takes a schedule, a list that says which thread moves
--   next. Its children hold the invariants: Phases and Flow (who has ended, what is queued),
--   Balance (the counters), Idle (no worker), Inputs, Start, Prefixes, Delivery (one file on its
--   way from the listing to the output), Listed (what the listings hold), Frame (the paths that
--   `Copy` leaves alone), Progress (a schedule that leads every state to the end) and Fair (every
--   fair schedule does).
-- - Functions.Symlinks: `ReconstitueSymlinks`, over files with junctions; its outcomes keep the
--   disk as an exception leaves it. A run that would replace what another path shows too is
--   `aliased`, and is not followed any further.
-- - Functions.Waiting: `IsFinished` and the loop of `main` that waits for a `Copy`.
-- - Functions.Directories: `Helper_CreateDirs`, which nothing starts, beside other threads.
-- - Program: `main`: `parse` for the options, `dispatch` for the modes, `delete_files` for -rm.
--   Its child Search has `Search` and `ConvertToWideString`, Narrow `ConvertToString`, Sizes
--   `GetSize`.
-- - Doubles: the rounding of `double` in `GetSize` and of `long double` in `Utility`.
-- - Utility: `Utility::FormatTime` and `Utility::FormatTimeNS` of src/Functions.cpp.
-- - Threading: `Spinlock` and `SpinlockA` with any number of threads.
-- - Types: include/Types.h: Types.Var is `ThreadSafeVar`, Types.VarVector `ThreadSafeVarVector`,
--   Types.TsDeque `ts_deque`, Types.Text `String`, Types.Vector `Vector` and Types.Deque `Deque`.
--   Types.Pairs has the methods that take the locks of two objects.
-- - ThreadSafe: `TSQueue` and `ts_set` of include/ThreadSafe.h. A `ts_set` is refined to a finite
--   set, a quotient of lists that forgets order and repetition. Its `ts_deque` has the text of the
--   one in include/Types.h, and its definitions.
-- - Tests: runs on small inputs, and every theorem at one.
--
-- How the code is read:
-- - A schedule is any list of threads, so that a statement about `run` holds in every
--   interleaving. A step is one access to a shared queue, set or flag, or one call of the file
--   system with the counters that follow it. `OFilesSet` is a boost::unordered_set that four
--   threads change without a lock; each change is taken as one step.
-- - A loop over a boost::unordered_set runs in an order that the code does not fix; the model takes
--   the elements as they stand in its list, the last inserted first.
-- - `double`, and `long double` as the library with `file_type::junction` has it, have 53 bits.
-- - Fuel is used for the 20 digits of a printed `int64_t`, which are enough for every one; for the
--   53 doublings that give a quotient of at least 1 its 53 bits; and as the number of tests that
--   `wait_finished` makes, which may end with `none`, still waiting. `run` is by recursion on the
--   schedule.
-- - `size_t` and the 64-bit counters wrap at 2^64. A file time is a number, and 0 is the time of a
--   file that is not there. A path's length is taken to fit an `int`.
-- - The number of processors is an `int` in `main`, and a number for `Copy`, whose loop does
--   nothing for a negative one.
-- - A path that is made absolute names what it named; a path is relative to the table's root.
-- - A thread that waits for a lock which nothing will clear is `stuck`, a thrown std::out_of_range
--   is `thrown`, and `undefined` is a case in which the language does not say what happens.
-- - Strings are lists of character codes, and the locale is that of C. The wide characters of
--   `ConvertToString` are those of Windows, of 2 bytes. The separator of paths is written `/`.
--
-- Not modelled: symbolic links but the junctions of `ReconstitueSymlinks`, and what a run of it
-- does from the first replacement on that shows at a second path; what `main` prints; the timed
-- waits; `Wait` and the destructor of `Functions`; the allocators and capacities of the
-- containers, and the copy constructors and the destructor of `ts_deque`; `data` and `reserve` of
-- `Deque` and the constructors of `ts_set` with arguments, which do not compile; src/tests.cpp;
-- and CrashHandler, a copy of another project.
pub mod Base
pub mod Doubles
pub mod Files
pub mod Functions
pub mod Threading
pub mod ThreadSafe
pub mod Types
pub mod Program
pub mod Utility
pub mod Tests
