-- ===== src/Convert/Driver.antt =====
-- convert/main/convert.cc: the events of a trace, line by line, after a line has been split and
-- its numbers read.
pub mod Cases
use lockdoc_tools.Common.{
  ℕ, ◌+◌, ◌%◌, ◌^◌, Bool, true, false, ◌&&◌, ◌||◌, Option, none, some, List, [], ◌∷◌, ◌++◌, ltb,
  leb, ◌==◌, if◌then◌else◌, Text, codes, text_eq, ℤ, to_u64,
}
use lockdoc_tools.Convert.Result.{Error, Result, ok, err}
use lockdoc_tools.Convert.Lock.{
  LockOp, p_read, p_write, v_read, v_write, LockRow, is_pseudo_lock, write_lock,
}
use lockdoc_tools.Convert.Manager.{LockManager, find_lock}
use lockdoc_tools.Convert.Locks.{NewLock, alloc_lock}
use lockdoc_tools.Convert.Transition.{Place, transition}
use lockdoc_tools.Convert.Accesses.{MemAccess, AccessRow}

-- struct Allocation. `size` is an `int`.
pub record Allocation : Type 0 where
  pub start : ℕ
  pub id : ℕ
  pub size : ℤ
  pub subclass_idx : ℕ

-- struct Subclass
pub record Subclass : Type 0 where
  pub id : ℕ
  pub name : Text
  pub data_type_idx : ℕ
  pub real_subclass : Bool

-- A row of allocations.csv; `stop` is the column "end", and `none` in it is written as "\N".
pub record AllocRow : Type 0 where
  pub id : ℕ
  pub subclass_id : Option ℕ
  pub base_address : ℕ
  pub size : ℤ
  pub start : ℕ
  pub stop : Option ℕ

-- What the command line and the kernel image give. `global_lock_var` is getGlobalLockVar, which
-- asks libbfd and the DWARF reader for the name of a global lock.
pub record Config : Type 0 where
  pub ctx_tracing : Bool
  pub include_all_locks : Bool
  pub process_seqlock : Bool
  pub pseudo_alloc_id : ℕ
  pub kernel_base_dir : Text
  pub data_sections : List (ℕ × ℕ)
  pub global_lock_var : ℕ → Option Text
  pub types : List Text

-- The static variables of convert.cc and the files that it writes.
pub record Converter : Type 0 where
  pub lock_manager : LockManager
  pub active_allocs : List (ℕ × Allocation)
  pub subclasses : List Subclass
  pub last_mem_accesses : List MemAccess
  pub cur_alloc_id : ℕ
  pub cur_subclass_id : ℕ
  pub cur_access_id : ℕ
  pub alloc_o_file : List AllocRow
  pub access_o_file : List AccessRow
  pub locks_o_file : List LockRow

-- A lock event as handlePV gets it. `flags` has 64 bits there.
pub record LockEvent : Type 0 where
  pub lock_op : LockOp
  pub ts : ℕ
  pub lock_address : ℕ
  pub file : Text
  pub line : ℕ
  pub lock_member : Text
  pub lock_type : Text
  pub flags : ℕ
  pub ctx : ℤ

-- The end of a section counts as inside.
unfoldable pub check_lock_in_sections : ℕ → List (ℕ × ℕ) → Bool
check_lock_in_sections a [] = false
check_lock_in_sections a (s ∷ ss) =
    (leb s.0 a && leb a ((s.0 + s.1) % 2 ^ 64)) || check_lock_in_sections a ss

-- The allocation with the greatest base address that is not above the address.
unfoldable pub floor_alloc : ℕ → List (ℕ × Allocation) → Option (ℕ × Allocation)
floor_alloc a [] = none
floor_alloc a (e ∷ es) = let rest = floor_alloc a es in if leb e.0 a then keep_last e rest else none
  where
    keep_last : ℕ × Allocation → Option (ℕ × Allocation) → Option (ℕ × Allocation)
    keep_last e none = some e
    keep_last e (some d) = some d

-- base + size, in the arithmetic of `unsigned long long`
abbrev pub end_of : ℕ → ℤ → ℕ
end_of base size = (base + to_u64 size) % 2 ^ 64

-- The id of the allocation in which the address lies, or 0; it is stored as an `unsigned`.
unfoldable pub embedding_id : ℕ → List (ℕ × Allocation) → ℕ
unfolding floor_alloc
embedding_id a allocs = elim (floor_alloc a allocs) [
  | none ↦ 0
  | some (base, alloc) ↦ if ltb a (end_of base alloc.size) then alloc.id % 2 ^ 32 else 0
]

-- Where a lock belongs: its allocation id and its variable's name, or nothing if it is ignored.
unfoldable pub locate : Config → LockEvent → List (ℕ × Allocation) → Option (ℕ × Option Text)
unfolding embedding_id check_lock_in_sections
locate g e allocs =
    let id = embedding_id e.lock_address allocs in
    if id == 0
    then if check_lock_in_sections e.lock_address g.data_sections
        || (text_eq e.lock_member (codes "static") && is_pseudo_lock e.lock_address)
      then some (0, g.global_lock_var e.lock_address)
      else if g.include_all_locks
      then some (g.pseudo_alloc_id % 2 ^ 32, none)
      else none
    else some (id, none)

abbrev pub is_release : LockOp → Bool
is_release v_read = true
is_release v_write = true
is_release p_read = false
is_release p_write = false

-- How an event ends: the run goes on, or it stops.
pub data Outcome : Type 0 where
  proceed : Converter → Outcome
  -- an exception that nothing catches, exit(1), or undefined behaviour
  crash : Error → Outcome
  -- `return EXIT_FAILURE` on an access outside its allocation
  access_outside : Outcome
  -- exit(-1) where a data type is used with and without a subclass
  mixed_subclass : Outcome

abbrev settle : (LockManager → Converter) → Result LockManager → Outcome
settle f (ok m) = proceed (f m)
settle f (err e) = crash e

pub place_of : Config → LockEvent → Place
place_of g e = record {
  ts = e.ts;
  file = e.file;
  line = e.line;
  flags = e.flags % 2 ^ 32;
  kernel_dir = g.kernel_base_dir;
  ctx = e.ctx;
}

unfoldable pub apply_op : Config → LockEvent → ℕ → Converter → Outcome
unfolding place_of
apply_op g e p s =
    settle (λ m. record s { lock_manager = m })
      (transition p e.lock_op (place_of g e) s.lock_manager)

-- The arguments of allocLock.
abbrev pub new_lock : Config → LockEvent → ℕ × Option Text → NewLock
new_lock g e home = record {
  address = e.lock_address;
  alloc_id = home.0;
  lock_type = e.lock_type;
  lock_var_name = home.1;
  flags = e.flags % 2 ^ 32;
}

-- A new lock: it is written to locks.csv, and then operated on.
unfoldable pub create_lock : Config → LockEvent → ℕ × Option Text → Converter → Outcome
unfolding apply_op
create_lock g e home s = elim (alloc_lock (new_lock g e home) s.lock_manager) [
  | err x ↦ crash x
  | ok (p, m) ↦
      apply_op g e p
        (record s { lock_manager = m; locks_o_file = s.locks_o_file ++ write_lock (m.heap p) })
]

unfoldable pub handle_pv : Config → LockEvent → Converter → Outcome
unfolding apply_op create_lock locate
handle_pv g e s = elim (find_lock s.lock_manager e.lock_address) [
  | some p ↦ apply_op g e p s
  | none ↦ elim (locate g e s.active_allocs) [
    | none ↦ proceed s
    | some home ↦ if is_release e.lock_op then proceed s else create_lock g e home s
  ]
]
