-- ===== src/Convert/Lock.antt =====
-- convert/main/lockdoc_event.h, rwlock.h, rlock.h and wlock.h: locks and their two sub locks.
-- The class of a lock object is a field; a virtual method is a function that splits on it.
use lockdoc_tools.Common.{
  ℕ, ◌+◌, ◌-◌, ◌%◌, ◌^◌, Bool, true, false, ◌||◌, Option, none, some, List, [], ◌∷◌, ltb, text_eq,
  ◌==◌, if◌then◌else◌, Text, occurs_in, drop, length, ℤ,
}
use lockdoc_tools.Convert.Result.{invalid_sub_lock, Result, ok, err}

-- enum LOCK_OP
pub data LockOp : Type 0 where
  p_read p_write v_read v_write : LockOp

-- enum SUB_LOCK
pub data SubLock : Type 0 where
  reader_lock writer_lock : SubLock

abbrev pub sub_eq : SubLock → SubLock → Bool
sub_eq reader_lock reader_lock = true
sub_eq reader_lock writer_lock = false
sub_eq writer_lock reader_lock = false
sub_eq writer_lock writer_lock = true

-- PSEUDOLOCK_ADDR_*
abbrev pub pseudolock_addr_rcu : ℕ
pseudolock_addr_rcu = 0x42

abbrev pub pseudolock_addr_softirq : ℕ
pseudolock_addr_softirq = 0x45

abbrev pub pseudolock_addr_hardirq : ℕ
pseudolock_addr_hardirq = 0x44

-- The dynamic class of a lock object: RWLock, RLock or WLock.
pub data LockClass : Type 0 where
  rw_lock r_lock w_lock : LockClass

-- struct LockPos
pub record LockPos : Type 0 where
  pub sub_lock : SubLock
  pub start : ℕ
  pub last_line : ℤ
  pub last_file : Text

-- struct RWLock. The head of `last_n_pos` is the top of the stack.
pub record RwLock : Type 0 where
  pub class : LockClass
  pub read_id : ℕ
  pub write_id : ℕ
  pub lock_address : ℕ
  pub flags : ℕ
  pub reader_count : ℕ
  pub writer_count : ℕ
  pub allocation_id : ℕ
  pub lock_type : Text
  pub lock_var_name : Text
  pub last_n_pos : List LockPos

abbrev pub is_pseudo_lock : ℕ → Bool
is_pseudo_lock a =
    a == pseudolock_addr_rcu || (a == pseudolock_addr_softirq || a == pseudolock_addr_hardirq)

-- `flags & LOCK_FLAGS_RECURSIVE`
abbrev pub is_recursive : RwLock → Bool
is_recursive l = l.flags % 2 == 1

-- `read_id = -1` and `write_id = -1` on an unsigned field
abbrev pub no_id : ℕ
no_id = 2 ^ 64 - 1

-- The ids of the two sub locks for the next free id, and the next free id after them.
abbrev pub init_ids : LockClass → ℕ → ℕ × ℕ × ℕ
init_ids rw_lock id = (id, id + 1, id + 2)
init_ids r_lock id = (id, no_id, id + 1)
init_ids w_lock id = (no_id, id, id + 1)

abbrev is_held_by : LockClass → RwLock → Bool
is_held_by rw_lock l = ltb 0 l.reader_count || ltb 0 l.writer_count
is_held_by r_lock l = ltb 0 l.reader_count
is_held_by w_lock l = ltb 0 l.writer_count

abbrev pub is_held : RwLock → Bool
is_held l = is_held_by l.class l

-- Whether the class has the sub lock.
abbrev pub has_sub_lock : LockClass → SubLock → Bool
has_sub_lock rw_lock s = true
has_sub_lock r_lock reader_lock = true
has_sub_lock r_lock writer_lock = false
has_sub_lock w_lock reader_lock = false
has_sub_lock w_lock writer_lock = true

abbrev pub sub_id : RwLock → SubLock → ℕ
sub_id l reader_lock = l.read_id
sub_id l writer_lock = l.write_id

abbrev pub get_id : RwLock → SubLock → Result ℕ
get_id l s = if has_sub_lock l.class s then ok (sub_id l s) else err invalid_sub_lock

-- A nullable column: `none` is written as "\N".
abbrev pub sql_null_if {ℓ} : {A : Type ℓ} → A → Bool → Option A
sql_null_if var cond = if cond then none else some var

-- A row of locks.csv.
pub record LockRow : Type 0 where
  pub id : ℕ
  pub address : ℕ
  pub embedded_in : Option ℕ
  pub lock_type_name : Text
  pub sub_lock : SubLock
  pub lock_var_name : Option Text
  pub flags : ℕ

abbrev lock_row : RwLock → SubLock → LockRow
lock_row l s = record {
  id = sub_id l s;
  address = l.lock_address;
  embedded_in = sql_null_if l.allocation_id (l.allocation_id == 0);
  lock_type_name = l.lock_type;
  sub_lock = s;
  lock_var_name = sql_null_if l.lock_var_name (text_eq l.lock_var_name []);
  flags = l.flags;
}

abbrev lock_rows : LockClass → RwLock → List LockRow
lock_rows rw_lock l = lock_row l writer_lock ∷ lock_row l reader_lock ∷ []
lock_rows r_lock l = lock_row l reader_lock ∷ []
lock_rows w_lock l = lock_row l writer_lock ∷ []

-- The rows that a lock adds to locks.csv.
unfoldable pub write_lock : RwLock → List LockRow
write_lock l = lock_rows l.class l

abbrev pub count_of : RwLock → SubLock → ℕ
count_of l reader_lock = l.reader_count
count_of l writer_lock = l.writer_count

abbrev pub set_count : RwLock → SubLock → ℕ → RwLock
set_count l reader_lock n = record l { reader_count = n }
set_count l writer_lock n = record l { writer_count = n }

-- The tree's directory ends in one slash. The empty text has no last byte to test.
abbrev with_slash : Text → Text
with_slash [] = b'/' ∷ []
with_slash (c ∷ []) = if c == b'/' then c ∷ [] else c ∷ b'/' ∷ []
with_slash (c ∷ d ∷ t) = c ∷ with_slash (d ∷ t)

-- `lastFile`: the path with the length of the directory cut off, if the directory occurs in it.
unfoldable pub relative_file : Text → Text → Text
relative_file kernel_dir file =
    let tmp = with_slash kernel_dir in if occurs_in tmp file then drop (length tmp) file else file
