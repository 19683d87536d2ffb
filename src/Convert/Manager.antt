-- ===== src/Convert/Manager.antt =====
-- convert/main/lockmanager.h and lockmanager.cc: the locks, and one stack of transactions (TXNs)
-- for each execution context. Lock objects live in `heap` and are named by their place in it, as
-- a pointer names them: a lock that `m_locks` forgets stays where open TXNs point. The head of a
-- stack is the back of its deque.
pub mod Stacks
pub mod Legal
pub mod Find
use lockdoc_tools.Common.{
  ℕ, suc, ◌+◌, ◌%◌, ◌^◌, Bool, true, false, not, ◌&&◌, Option, none, some, List, [], ◌∷◌, ◌++◌, map,
  ltb, leb, ◌==◌, if◌then◌else◌, contains, Text, codes, text_eq, ◌||◌, ℤ, int_eq, int_lt, length,
}
use lockdoc_tools.Convert.Result.{
  Error, unknown_lock_type, lock_not_inserted, pop_on_empty, Result, ok, err, ◌>>=◌,
}
use lockdoc_tools.Convert.Lock.{
  SubLock, reader_lock, writer_lock, sub_eq, LockClass, rw_lock, r_lock, w_lock, LockPos, RwLock,
  init_ids, is_held, get_id,
}

-- struct TXN
pub record Txn : Type 0 where
  pub id : ℕ
  pub start_ts : ℕ
  pub start_ctx : ℤ
  pub mem_access_counter : ℕ
  pub lock : ℕ
  pub sub_lock : SubLock

-- A row of txns.csv, and one of locks_held.csv.
pub record TxnRow : Type 0 where
  pub id : ℕ
  pub start_ts : ℕ
  pub start_ctx : ℤ
  pub end_ts : ℕ
  pub end_ctx : ℤ

pub record HeldRow : Type 0 where
  pub txn_id : ℕ
  pub lock_id : ℕ
  pub start : ℕ
  pub last_file : Text
  pub last_line : ℤ

-- The texts of PRINT_ERROR.
pub data Notice : Type 0 where
  stack_underflow not_held multiple_writers sub_lock_mismatch no_matching_txn : Notice
  read_side_held write_side_held already_held inconsistent_count cannot_flush : Notice
  no_running_txn cannot_pop already_released freed_but_held : Notice
  still_active : Notice

-- One line on stderr: what it says, and the id or the address of the lock.
pub record Message : Type 0 where
  pub notice : Notice
  pub about : ℕ

-- A `std::map<long, std::deque<TXN>>`, in the order of its keys. A missing key counts as an empty
-- deque: `operator[]` would insert one, which no operation can tell.
abbrev pub TxnStacks : Type 0
TxnStacks = List (ℤ × List Txn)

abbrev pub stack_of : TxnStacks → ℤ → List Txn
stack_of [] c = []
stack_of ((k, s) ∷ m) c = if int_eq k c then s else stack_of m c

abbrev pub set_stack : TxnStacks → ℤ → List Txn → TxnStacks
set_stack [] c s = (c, s) ∷ []
set_stack ((k, v) ∷ m) c s =
    if int_eq k c
    then (k, s) ∷ m
    else if int_lt c k
    then (c, s) ∷ (k, v) ∷ m
    else (k, v) ∷ set_stack m c s

-- struct LockManager, with the heap of lock objects and what has been written to the two files
-- and to stderr. `locks` is a `std::map` from addresses to objects, in the order of its keys.
pub record LockManager : Type 0 where
  pub active_txns : TxnStacks
  pub next_txn_id : ℕ
  pub next_lock_id : ℕ
  pub locks : List (ℕ × ℕ)
  pub heap : ℕ → RwLock
  pub next_object : ℕ
  pub txns_o_file : List TxnRow
  pub locks_held_o_file : List HeldRow
  pub messages : List Message

abbrev pub update : (ℕ → RwLock) → ℕ → RwLock → ℕ → RwLock
update h p l q = if p == q then l else h q

abbrev pub set_lock : ℕ → RwLock → LockManager → LockManager
set_lock p l m = record m { heap = update m.heap p l }

abbrev pub say : List Message → LockManager → LockManager
say ms m = record m { messages = m.messages ++ ms }

-- PRINT_ERROR(lock->toString(subLock), ...), which asks the lock for the id of its sub lock.
abbrev pub message_about : RwLock → SubLock → Notice → Result (List Message)
message_about l s n = get_id l s >>= λ id. ok (record { notice = n; about = id } ∷ [])

abbrev pub report : ℕ → SubLock → Notice → LockManager → Result LockManager
report p s n m = message_about (m.heap p) s n >>= λ ms. ok (say ms m)

abbrev pub is_of : ℕ → SubLock → Txn → Bool
is_of p s t = t.lock == p && sub_eq t.sub_lock s

abbrev pub any_of : ℕ → SubLock → List Txn → Bool
any_of p s [] = false
any_of p s (t ∷ ts) = is_of p s t || any_of p s ts

abbrev pub is_active : List Txn → Bool
is_active [] = false
is_active (t ∷ ts) = true

unfoldable pub has_active_txn : LockManager → ℤ → Bool
has_active_txn m c = is_active (stack_of m.active_txns c)

unfoldable pub is_on_txn_stack : LockManager → ℤ → ℕ → SubLock → Bool
is_on_txn_stack m c p s = any_of p s (stack_of m.active_txns c)

abbrev pub first_with : ℕ → SubLock → ℤ → TxnStacks → ℤ
first_with p s c [] = c
first_with p s c ((k, ts) ∷ m) = if any_of p s ts then k else first_with p s c m

-- The first context with an open TXN of the sub lock, or the given one.
unfoldable pub find_txn : LockManager → ℕ → SubLock → ℤ → ℤ
find_txn m p s c = first_with p s c m.active_txns

-- std::map::find
unfoldable pub find_in : List (ℕ × ℕ) → ℕ → Option ℕ
find_in [] a = none
find_in ((k, p) ∷ m) a = if k == a then some p else find_in m a

abbrev pub find_lock : LockManager → ℕ → Option ℕ
find_lock m a = find_in m.locks a

abbrev pub new_txn : ℕ → ℕ → ℕ → SubLock → ℤ → Txn
new_txn id p ts s c = record {
  id = id;
  start_ts = ts;
  start_ctx = c;
  mem_access_counter = 0;
  lock = p;
  sub_lock = s;
}

unfoldable pub start_txn : ℕ → ℕ → SubLock → ℤ → LockManager → LockManager
start_txn p ts s c m = record m {
  active_txns =
      set_stack m.active_txns c (new_txn m.next_txn_id p ts s c ∷ stack_of m.active_txns c);
  next_txn_id = m.next_txn_id + 1;
}
