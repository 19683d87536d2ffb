-- ===== src/Lib.antt =====
-- Verification of the LockDoc tools: convert, which turns a trace of allocations, lock operations
-- and memory accesses into tables of transactions (TXNs) and the locks held in them, the
-- hypothesizer, which derives from these the locks that protect each member of a data type, sfctool,
-- which draws which lines of a domain an input covers, and the dumps of covered program counters.
--
-- Parts and files
--   Common: tests on numbers, lists, texts and integers.
--   Convert/Result, Convert/Lock: errors as values; convert/main/rwlock.h, rlock.h, wlock.h and
--     lockdoc_event.h. The three classes of locks are one record with a tag.
--   Convert/Manager, Convert/Finish, Convert/Locks: convert/main/lockmanager.h and lockmanager.cc.
--     `finish_txn` is finishTXN, `start_txn` is startTXN, `find_txn` is findTXN, `alloc_lock` is
--     allocLock, `close_all_txns` is closeAllTXNs.
--   Convert/Transition: convert/main/rwlock.cc, writeTransition and readTransition; its children
--     Counts, Sync, Moves, Acquire and Release lead up to Refine, and Kept, Ids and
--     Convert/Invariant are about well-formed states.
--   Convert/Accesses, Convert/Driver, Convert/Allocs, Convert/Events: convert/main/convert.cc, from
--     a line of the trace on whose numbers are read: writeMemAccesses, handlePV, the cases of the
--     switch in main, addStacktrace, and one turn of the loop as `step`.
--   Convert/Members, Convert/Blacklists: addMemberName and the tables after the trace, of the same
--     file: subclasses.csv and the two blacklists. Catalog is about the ids of subclasses in a run,
--     Lookup and Types about the names in a blacklist, Rows about what is written.
--   Convert/Run: main from the first line to the end of the trace, `read_trace`; its children show
--     what each event keeps and how a trace ends.
--   Hypothesizer/Combination, Graph, Search: hypothesizer/hypothesizer.cc, LockCombination,
--     diff_hypotheses and add_hypothesis_to_graph, and the search up to find_hypotheses.
--   Hypothesizer/Winner: determine_winning_hypothesis and its strategies, over any numbers of type
--     double.
--   Hypothesizer/Input, Report, Pipeline: main and print_hypotheses of the same file: the input
--     from its lines on, the lines of a report and their marks, and the loop over the members,
--     which joins search, selection and report.
--   Hypothesizer/Docs: doc_map and print_doc of the same file.
--   Sfctool: coverage/sfctool/sfctool.cc. Curve is the interface SFC and what main relies on, Lines,
--     Spiral and Hilbert are its three classes, Colors the maps and their colors, Picture the rest
--     of main. `none` of a curve is a call that does not return.
--   Coverage: coverage/kcov/sortuniq.cc, and finish_kcov of coverage/kcov/kcov-lib.cc, the dump of a
--     bitmap or a trace of program counters; its children Bitmap and Unique are about the two.
--   Bb2lines: coverage/bb2lines/main.cpp. Notes is read_graph_file, Search get_basic_block, Modes
--     determine_coverage and convert_basic_blocks; Regular, Ordered and Within are about what is
--     read and found, Totals, Agree, Nearest and Again about what this comes to.
--
-- How the state is modelled
--   The head of a list is the back of the deque, vector or stack it stands for, except where a
--   comment says otherwise. Lock objects live in a heap and are named by numbers, as pointers name
--   them, so that a TXN can point to a lock that the manager has forgotten. A map is a list of
--   pairs in the order of its keys. An output file is the list of its rows. Exceptions, exit(1) and
--   a pop from an empty stack are errors of `Result`; a failed assertion of the hypothesizer is
--   `none`. Messages on stderr keep their kind and the id that they ask the lock for, since that
--   request can throw. Ids and timestamps of 64 bits that are only counted up or copied are
--   unbounded: 2^64 events would be needed to wrap them. So are the two counts of a lock object,
--   which are `int`s: 2^31 acquisitions without a release would be needed to overflow them. The
--   counts of accesses that the hypothesizer reads and adds up wrap at 2^64. bb2lines is taken to be
--   undefined as soon as it reads a block without a line, the source from the first comparison with
--   such a block on.
--
-- Bounds and fuel
--   The loop of closeAllTXNs runs as often as the context has TXNs, the walk of
--   add_hypothesis_to_graph on as many levels as the hypothesis has locks, find_hypotheses over as
--   many depths as the combinations have locks and two more, and determine_winning_hypothesis on as
--   many levels as the hypotheses of the graph have locks together and one more: that this is
--   enough is part of what is proved of each. The loops of sfctool that double a value of type
--   unsigned have fuel 33: after 32 rounds the value is 0 for good. The loop of the hypothesizer
--   that copies the combinations has a counter of 16 bits and fuel 2^16: it is at its start again
--   then, and with 2^16 members it never ends.
--
-- Not modelled
--   Options, the splitting of trace lines and the texts of reports are input and output, but for
--   print_doc. libbfd and the DWARF reader (convert/main/binaryread.cc, convert/dwarves) give the
--   names of global locks, which are a parameter. The set-up of the shared memory in kcov-lib,
--   kcovtrace, and --sort of the hypothesizer are left out. Threads share the loop over the
--   members: the model takes the members in the order in which they are reported. What the gcov
--   library reads of a note file, addr_to_line, std::regex_search and the order of an
--   unordered_map are parameters of bb2lines. The file system, std::stoul, std::stoull, std::sort
--   and std::ceil of std::sqrt are parameters.
pub mod Bb2lines
pub mod Common
pub mod Convert
pub mod Coverage
pub mod Hypothesizer
pub mod Sfctool
