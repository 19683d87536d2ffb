-- ===== src/Convert/Tests.antt =====
-- Runs of convert on small concrete states.
use lockdoc_tools.Common.{
  ◌<◌, ◌↔◌, ◌⊎◌, List, map, ◌∷◌, ℕ, zero, suc, ◌+◌, All, if◌then◌else◌, int_eq, ◌≡◌, refl, Bool,
  true, false, [], ◌∷◌, arith, codes, ℤ, pos, inl,
}
use lockdoc_tools.Convert.Result.{ok}
use lockdoc_tools.Convert.Lock.{
  p_read, SubLock, reader_lock, writer_lock, RwLock, rw_lock, count_of,
}
use lockdoc_tools.Convert.Manager.{Txn, LockManager, is_on_txn_stack, find_txn, stack_of, update}
use lockdoc_tools.Convert.Manager.Stacks.{total}
use lockdoc_tools.Convert.Finish.{close_all_txns}
use lockdoc_tools.Convert.Finish.CloseAll.{close_all_txns-closes}
use lockdoc_tools.Convert.Locks.{delete_lock_by_area}
use lockdoc_tools.Convert.Locks.Area.{LiesIn, entries, delete_lock_by_area-exact}
use lockdoc_tools.Convert.Accesses.{MemAccess, write_mem_accesses, write_loop}
use lockdoc_tools.Convert.Accesses.Order.{
  Due, row_of, counter_of, rows_of, write_mem_accesses-flushes,
}
use lockdoc_tools.Convert.Events.Stacktraces.{add_one, add_all, SameTrace, add_stacktrace-again}
use lockdoc_tools.Convert.Manager.Legal.{Legal}
use lockdoc_tools.Convert.Finish.Keys.{keys}
use lockdoc_tools.Convert.Transition.Counts.{count_key, held_at}
use lockdoc_tools.Convert.Invariant.{IsMade, Sided, WellFormed}
use lockdoc_tools.Convert.Finish.Finishes.{Finishes, finish_txn-Finishes}
use lockdoc_tools.Convert.Manager.Find.{find_txn-finds}
use lockdoc_tools.Convert.Transition.{Place, transition}
use lockdoc_tools.Convert.Transition.Kept.{Keeps}
use lockdoc_tools.Convert.Transition.Ids.{transition-Keeps}
use lockdoc_tools.Convert.Transition.Sync.{Table}
use lockdoc_tools.Convert.Transition.Refine.{InSync, Exclusive, next, transition-refines}

-- A reader-writer lock that a writer holds, and one that nobody holds.
abbrev held_lock : RwLock
held_lock = record {
  class = rw_lock;
  read_id = 1;
  write_id = 2;
  lock_address = 256;
  flags = 0;
  reader_count = 0;
  writer_count = 1;
  allocation_id = 5;
  lock_type = codes "rwlock_t";
  lock_var_name = [];
  last_n_pos =
      record { sub_lock = writer_lock; start = 10; last_line = pos 3; last_file = codes "fs/a.c" }
      ∷ [];
}

abbrev free_lock : RwLock
free_lock = record held_lock { read_id = 3; write_id = 4; writer_count = 0; last_n_pos = [] }

abbrev two_locks : ℕ → RwLock
two_locks zero = held_lock
two_locks (suc n) = free_lock

abbrev write_txn : Txn
write_txn = record {
  id = 1;
  start_ts = 10;
  start_ctx = pos 0;
  mem_access_counter = 2;
  lock = 0;
  sub_lock = writer_lock;
}

abbrev one_writer : LockManager
one_writer = record {
  active_txns = (pos 0, write_txn ∷ []) ∷ [];
  next_txn_id = 2;
  next_lock_id = 5;
  locks = (256, 0) ∷ [];
  heap = two_locks;
  next_object = 1;
  txns_o_file = [];
  locks_held_o_file = [];
  messages = [];
}

sides : (p : ℕ) → Sided (two_locks p).class (two_locks p)
sides zero = tt
sides (suc n) = tt

one_writer-Legal : (b : Bool) → Legal two_locks (if b then write_txn ∷ [] else [])
one_writer-Legal true = (refl, tt)
one_writer-Legal false = tt

one_writer-IsMade : (b : Bool) → All (IsMade 1) (if b then write_txn ∷ [] else [])
one_writer-IsMade true = (omega arith, tt)
one_writer-IsMade false = tt

one_writer-WellFormed : WellFormed one_writer
one_writer-WellFormed = record {
  ordered = (tt, tt);
  legal = λ c. one_writer-Legal (int_eq (pos 0) c);
  known = λ c. one_writer-IsMade (int_eq (pos 0) c);
  stored = (omega arith, tt);
  sides = sides;
  unique = λ i. ground arith;
}

abbrev one_held : Table
one_held zero reader_lock = 0
one_held zero writer_lock = 1
one_held (suc n) s = 0

abbrev read_place : Place
read_place = record {
  ts = 20;
  file = codes "/src/linux/fs/b.c";
  line = 7;
  flags = 0;
  kernel_dir = codes "/src/linux";
  ctx = pos 0;
}

one_opened : (q : ℕ) (r : SubLock) → count_key q r (keys (write_txn ∷ [])) ≡ one_held q r
one_opened zero reader_lock = refl
one_opened zero writer_lock = refl
one_opened (suc n) reader_lock = ground arith
one_opened (suc n) writer_lock = ground arith

one_placed : (q : ℕ) (r : SubLock) → held_at r (two_locks q).last_n_pos ≡ one_held q r
one_placed zero reader_lock = refl
one_placed zero writer_lock = refl
one_placed (suc n) reader_lock = refl
one_placed (suc n) writer_lock = refl

one_counted : (q : ℕ) (r : SubLock) → count_of (two_locks q) r ≡ one_held q r
one_counted zero reader_lock = refl
one_counted zero writer_lock = refl
one_counted (suc n) reader_lock = refl
one_counted (suc n) writer_lock = refl

one_held-Exclusive : Exclusive one_held
one_held-Exclusive zero = inl refl
one_held-Exclusive (suc n) = inl refl

one_writer-InSync : InSync (pos 0) one_held one_writer
one_writer-InSync = (
  record {
    valid = one_writer-WellFormed;
    alone = λ d e. rw e refl;
    opened = one_opened;
    placed = one_placed;
    counted = one_counted;
  },
  one_held-Exclusive,
)

transition-refines_example :
    (n : LockManager) × (transition 0 p_read read_place one_writer ≡ ok n)
    × InSync (pos 0) (next p_read 0 one_held) n
transition-refines_example =
    transition-refines one_held 0 p_read read_place one_writer one_writer-InSync (omega arith) refl
      (omega arith)

transition-Keeps_example : Keeps 0 rw_lock (transition 0 p_read read_place one_writer)
transition-Keeps_example =
    transition-Keeps 0 p_read read_place one_writer one_writer-WellFormed (omega arith)

finish_txn-Finishes_example :
    (n : LockManager) × Finishes 0 writer_lock 30 false (pos 0) (pos 0) one_writer n
finish_txn-Finishes_example =
    finish_txn-Finishes 0 writer_lock 30 false (pos 0) (pos 0) one_writer one_writer-WellFormed refl

find_txn-finds_example :
    is_on_txn_stack one_writer (find_txn one_writer 0 writer_lock (pos 7)) 0 writer_lock ≡ true
unfolding is_on_txn_stack
find_txn-finds_example = find_txn-finds 0 writer_lock one_writer (pos 7) (pos 0) (tt, tt) refl

close_all_txns-closes_example :
    (n : LockManager) × (close_all_txns 50 one_writer ≡ ok n)
    × WellFormed n
    × ((d : ℤ) → stack_of n.active_txns d ≡ [])
close_all_txns-closes_example = close_all_txns-closes 50 one_writer one_writer-WellFormed

-- A second lock, at an address in the area that is freed.
abbrev locks_apart : LockManager
locks_apart = record one_writer {
  locks = (256, 0) ∷ (520, 1) ∷ [];
  heap = update one_writer.heap 1 (record (one_writer.heap 0) { lock_address = 520 });
}

delete_lock_by_area-exact_example :
    (let n = delete_lock_by_area 512 64 locks_apart in
      ((0 < entries 520 1 n.locks)
        ↔ ((0 < entries 520 1 locks_apart.locks) × ¬ (LiesIn 512 64 (locks_apart.heap 1))))
      × ((entries 520 1 n.locks ≡ 0) ⊎ (entries 520 1 n.locks ≡ entries 520 1 locks_apart.locks))
      × (n.heap ≡ locks_apart.heap))
delete_lock_by_area-exact_example = delete_lock_by_area-exact 512 64 locks_apart 520 1

one_is_deleted : (delete_lock_by_area 512 64 locks_apart).locks ≡ (256, 0) ∷ []
unfolding delete_lock_by_area
one_is_deleted = refl

abbrev a_read : MemAccess
a_read = record {
  id = 1;
  ts = 15;
  alloc_id = 5;
  action = b'r';
  size = pos 8;
  address = 300;
  stacktrace_id = 2;
  ctx = pos 0;
}

-- A read and a write of a lock word, after another read.
abbrev with_pair : List MemAccess
with_pair =
    record a_read { id = 3; ts = 16; action = b'w'; address = 256 }
    ∷ record a_read { id = 2; ts = 16; address = 256 }
    ∷ a_read
    ∷ []

write_mem_accesses-flushes_example :
    (let w = write_mem_accesses true b'v' 256 with_pair one_writer in
      (due : List MemAccess) × (Due b'v' 256 with_pair due w.pending
        × ((w.rows ≡ map (row_of true one_writer) due)
            × ((i : ℕ)
                → total (counter_of i) w.manager.active_txns
                  ≡ total (counter_of i) one_writer.active_txns + rows_of i w.rows))))
write_mem_accesses-flushes_example =
    write_mem_accesses-flushes true b'v' 256 with_pair one_writer (tt, tt)

pair_is_dropped :
    (write_mem_accesses true b'v' 256 with_pair one_writer).rows
    ≡ row_of true one_writer a_read ∷ []
unfolding write_mem_accesses write_loop
pair_is_dropped = refl

-- Another trace comes between the two calls for one.
add_stacktrace-again_example :
    (let first = add_one (4096, codes "0x1234,") (add_all ((77, []) ∷ []) ([], 1)) in
      let second =
        add_one (4096, codes "0x1234,") (add_all ((4097, codes "0x1234,") ∷ []) first.1) in
      (first.0 ≡ second.0) ↔ SameTrace (4096, codes "0x1234,") (4096, codes "0x1234,"))
add_stacktrace-again_example =
    add_stacktrace-again ((77, []) ∷ []) ((4097, codes "0x1234,") ∷ []) (4096, codes "0x1234,")
      (4096, codes "0x1234,")
