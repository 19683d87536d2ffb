-- ===== src/Convert/Run.antt =====
-- `main` of convert/main/convert.cc from the first line of the trace to the last.
pub mod Kept
pub mod Sound
pub mod Ends
use lockdoc_tools.Common.{
  ℕ, zero, suc, Bool, true, false, List, [], ◌∷◌, Option, none, some, ℤ, pos, if◌then◌else◌, codes,
}
use lockdoc_tools.Convert.Lock.{RwLock, LockClass, w_lock}
use lockdoc_tools.Convert.Manager.{LockManager}
use lockdoc_tools.Convert.Driver.{
  Config, Converter, AllocRow, Outcome, proceed, crash, access_outside, mixed_subclass,
}
use lockdoc_tools.Convert.Events.{
  Event, Program, Ending, running, stopped, failure, bad_subclass, resume, run, end_of_trace,
}

-- Storage that holds no lock yet.
abbrev pub no_lock : RwLock
no_lock = record {
  class = w_lock;
  read_id = 0;
  write_id = 0;
  lock_address = 0;
  flags = 0;
  reader_count = 0;
  writer_count = 0;
  allocation_id = 0;
  lock_type = [];
  lock_var_name = [];
  last_n_pos = [];
}

-- The constructor of LockManager.
abbrev pub new_lock_manager : LockManager
new_lock_manager = record {
  active_txns = [];
  next_txn_id = 1;
  next_lock_id = 1;
  locks = [];
  heap = λ p. no_lock;
  next_object = 0;
  txns_o_file = [];
  locks_held_o_file = [];
  messages = [];
}

-- The allocation to which all locks of unknown home belong.
abbrev pub pseudo_alloc : AllocRow
pseudo_alloc = record {
  id = 1;
  subclass_id = some 0;
  base_address = 0;
  size = pos 0;
  start = 0;
  stop = none;
}

abbrev pub new_converter : Bool → Converter
new_converter all_locks = record {
  lock_manager = new_lock_manager;
  active_allocs = [];
  subclasses = [];
  last_mem_accesses = [];
  cur_alloc_id = if all_locks then 2 else 1;
  cur_subclass_id = 1;
  cur_access_id = 1;
  alloc_o_file = if all_locks then pseudo_alloc ∷ [] else [];
  access_o_file = [];
  locks_o_file = [];
}

abbrev pub new_program : Config → Program
new_program g = record {
  converter = new_converter g.include_all_locks;
  stacktraces = [];
  cur_stacktrace_id = 1;
}

-- After the loop, which is left by exit or by an exception otherwise. `ts` is the time of the last line.
unfoldable pub finish_trace : Config → ℕ → Ending → Ending
unfolding resume
finish_trace g ts (running s) = resume s (end_of_trace g ts s.converter)
finish_trace g ts (stopped e) = stopped e
finish_trace g ts failure = failure
finish_trace g ts bad_subclass = bad_subclass

unfoldable pub read_trace : Config → List Event → ℕ → Ending
unfolding finish_trace
read_trace g es ts = finish_trace g ts (run g es (new_program g))
