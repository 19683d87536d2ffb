-- ===== src/Convert/Locks.antt =====
-- LockManager::allocLock and LockManager::deleteLockByArea.
pub mod Area
pub mod Made
use lockdoc_tools.Common.{
  ℕ, suc, ◌+◌, ◌%◌, ◌^◌, Bool, true, false, ◌&&◌, ◌||◌, Option, none, some, List, [], ◌∷◌, ◌++◌,
  ltb, leb, ◌==◌, if◌then◌else◌, Text, codes, text_eq,
}
use lockdoc_tools.Convert.Result.{
  Error, unknown_lock_type, lock_not_inserted, Result, ok, err, ◌>>=◌,
}
use lockdoc_tools.Convert.Lock.{LockClass, rw_lock, r_lock, w_lock, RwLock, init_ids, is_held}
use lockdoc_tools.Convert.Manager.{
  LockManager, Message, freed_but_held, set_lock, update, find_in, say,
}

abbrev one_of : List Text → Text → Bool
one_of [] t = false
one_of (x ∷ xs) t = text_eq t x || one_of xs t

abbrev w_lock_types : List Text
w_lock_types =
    codes "raw_spinlock_t"
    ∷ codes "mutex"
    ∷ codes "softirq"
    ∷ codes "hardirq"
    ∷ codes "semaphore"
    ∷ codes "bit_spin_lock"
    ∷ codes "sleep mutex"
    ∷ codes "spin mutex"
    ∷ codes "kmutex_t"
    ∷ []

abbrev rw_lock_types : List Text
rw_lock_types =
    codes "rwlock_t"
    ∷ codes "rw_semaphore"
    ∷ codes "sx"
    ∷ codes "rw"
    ∷ codes "sleepable rm"
    ∷ codes "rm"
    ∷ codes "lockmgr"
    ∷ codes "krwlock_t"
    ∷ []

-- The class for a lock type; no other type is known.
unfoldable pub class_of : Text → Option LockClass
class_of t =
    if one_of w_lock_types t
    then some w_lock
    else if text_eq t (codes "rcu")
    then some r_lock
    else if one_of rw_lock_types t
    then some rw_lock
    else none

-- `std::map::insert` of a key that is not there yet.
insert_lock : ℕ → ℕ → List (ℕ × ℕ) → List (ℕ × ℕ)
insert_lock a p [] = (a, p) ∷ []
insert_lock a p ((k, q) ∷ m) = if ltb a k then (a, p) ∷ (k, q) ∷ m else (k, q) ∷ insert_lock a p m

-- The arguments of allocLock; `none` is a null pointer.
pub record NewLock : Type 0 where
  pub address : ℕ
  pub alloc_id : ℕ
  pub lock_type : Text
  pub lock_var_name : Option Text
  pub flags : ℕ

abbrev var_name : Option Text → Text
var_name none = []
var_name (some t) = t

-- The lock object, unheld, with its ids.
virgin : LockClass → NewLock → ℕ → RwLock
virgin c a id =
    let ids = init_ids c id in
    record {
      class = c;
      read_id = ids.0;
      write_id = ids.1;
      lock_address = a.address;
      flags = a.flags;
      reader_count = 0;
      writer_count = 0;
      allocation_id = a.alloc_id;
      lock_type = a.lock_type;
      lock_var_name = var_name a.lock_var_name;
      last_n_pos = [];
    }

add_lock : NewLock → LockClass → LockManager → Result (ℕ × LockManager)
unfolding virgin insert_lock
add_lock a c m = elim (find_in m.locks a.address) [
  | some _ ↦ err lock_not_inserted
  | none ↦ ok (
    m.next_object,
    record m {
      heap = update m.heap m.next_object (virgin c a m.next_lock_id);
      next_object = m.next_object + 1;
      next_lock_id = (init_ids c m.next_lock_id).2;
      locks = insert_lock a.address m.next_object m.locks;
    },
  )
]

unfoldable pub alloc_lock : NewLock → LockManager → Result (ℕ × LockManager)
unfolding add_lock class_of
alloc_lock a m = elim (class_of a.lock_type) [
  | none ↦ err unknown_lock_type
  | some c ↦ add_lock a c m
]

-- Whether the lock lies in the area; the end wraps as an `unsigned long long` does.
abbrev pub in_area : ℕ → ℕ → RwLock → Bool
in_area address size l =
    leb address l.lock_address && ltb l.lock_address ((address + size) % 2 ^ 64)

-- The loop over all locks: those that stay, and the messages on those that go while held.
pub delete_loop : (ℕ → RwLock) → ℕ → ℕ → List (ℕ × ℕ) → List (ℕ × ℕ) × List Message
delete_loop h address size [] = ([], [])
delete_loop h address size ((k, p) ∷ m) =
    let rest = delete_loop h address size m in
    if in_area address size (h p)
    then (
      rest.0,
      (if is_held (h p) then record { notice = freed_but_held; about = address } ∷ [] else [])
          ++ rest.1,
    )
    else ((k, p) ∷ rest.0, rest.1)

unfoldable pub delete_lock_by_area : ℕ → ℕ → LockManager → LockManager
unfolding delete_loop
delete_lock_by_area address size m =
    let r = delete_loop m.heap address size m.locks in
    record m { locks = r.0; messages = m.messages ++ r.1 }
