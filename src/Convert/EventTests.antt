-- ===== src/Convert/EventTests.antt =====
-- Events on a small concrete state of the converter.
use lockdoc_tools.Common.{List, ℕ, none, [], ◌∷◌, false, true, codes, pos}
use lockdoc_tools.Convert.Manager.{LockManager}
use lockdoc_tools.Convert.Lock.{RwLock, w_lock}
use lockdoc_tools.Convert.Result.{ok}
use lockdoc_tools.Convert.Manager.{Txn, HeldRow, Message}
use lockdoc_tools.Convert.Lock.{writer_lock}
use lockdoc_tools.Convert.Finish.{held_rows}
use lockdoc_tools.Convert.Finish.Held.{lock_ids, held_rows-once}
use lockdoc_tools.Common.{◌+◌, ◌≤◌, ◌≡◌, refl, count, contains, if◌then◌else◌}
use lockdoc_tools.Convert.Driver.{Subclass, Config, Converter}
use lockdoc_tools.Convert.Allocs.{AllocEvent}

abbrev a_lock : RwLock
a_lock = record {
  class = w_lock;
  read_id = 0;
  write_id = 1;
  lock_address = 260;
  flags = 0;
  reader_count = 0;
  writer_count = 0;
  allocation_id = 1;
  lock_type = codes "mutex";
  lock_var_name = [];
  last_n_pos = [];
}

abbrev a_manager : LockManager
a_manager = record {
  active_txns = [];
  next_txn_id = 1;
  next_lock_id = 2;
  locks = (260, 0) ∷ [];
  heap = λ p. a_lock;
  next_object = 1;
  txns_o_file = [];
  locks_held_o_file = [];
  messages = [];
}

abbrev an_inode : Subclass
an_inode = record { id = 1; name = codes "ext4"; data_type_idx = 0; real_subclass = true }

abbrev one_inode : Converter
one_inode = record {
  lock_manager = a_manager;
  active_allocs = (256, record { start = 1; id = 1; size = pos 64; subclass_idx = 0 }) ∷ [];
  subclasses = an_inode ∷ [];
  last_mem_accesses = [];
  cur_alloc_id = 2;
  cur_subclass_id = 2;
  cur_access_id = 1;
  alloc_o_file = [];
  access_o_file = [];
  locks_o_file = [];
}

abbrev a_config : Config
a_config = record {
  ctx_tracing = true;
  include_all_locks = false;
  process_seqlock = false;
  pseudo_alloc_id = 0;
  kernel_base_dir = codes "/src/linux";
  data_sections = [];
  global_lock_var = λ a. none;
  types = codes "inode" ∷ [];
}

abbrev an_event : ℕ → AllocEvent
an_event address = record {
  ts = 9;
  base_address = address;
  size = 64;
  type_str = codes "inode:ext4";
}

-- The same lock twice on the stack.
abbrev a_txn : Txn
a_txn = record {
  id = 1;
  start_ts = 10;
  start_ctx = pos 0;
  mem_access_counter = 2;
  lock = 0;
  sub_lock = writer_lock;
}

abbrev taken_lock : RwLock
taken_lock = record a_lock {
  writer_count = 2;
  last_n_pos =
      record { sub_lock = writer_lock; start = 10; last_line = pos 3; last_file = codes "fs/a.c" }
      ∷ [];
}

held_rows-once_example :
    (r : List HeldRow × List Message) × (held_rows (λ p. taken_lock) 1 [] (a_txn ∷ a_txn ∷ [])
      ≡ ok r)
    × ((i : ℕ) → count i (lock_ids r.0) + (if contains [] i then 1 else 0) ≤ 1)
held_rows-once_example =
    held_rows-once (λ p. taken_lock) 1 [] (a_txn ∷ a_txn ∷ []) (refl, (refl, tt))
