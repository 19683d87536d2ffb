-- ===== src/Convert/Locks/Made.antt =====
-- LockManager::allocLock and LockManager::deleteLockByArea in a well-formed state.
use lockdoc_tools.Common.{
  ℕ, ◌+◌, ◌<◌, ◌≡◌, ◌≢◌, refl, false, some, List, [], ◌∷◌, arith, ltb, ◌==◌, All, Option-cases,
  Bool-cases, inl, inr,
}
use lockdoc_tools.Convert.Result.{
  Error, unknown_lock_type, lock_not_inserted, invalid_sub_lock, Result, ok, err,
}
use lockdoc_tools.Convert.Lock.{LockClass, rw_lock, r_lock, w_lock, RwLock}
use lockdoc_tools.Convert.Manager.{Txn, LockManager, update, find_in, stack_of}
use lockdoc_tools.Convert.Manager.Legal.{Legal}
use lockdoc_tools.Convert.Invariant.{WellFormed, Sided, IsMade, Sided-update}
use lockdoc_tools.Convert.Locks.{
  NewLock, virgin, insert_lock, add_lock, alloc_lock, class_of, in_area, delete_loop,
  delete_lock_by_area,
}

-- What becomes of a request for a lock.
pub data Makes : Result (ℕ × LockManager) → Type 0 where
  made : {p : ℕ} {m : LockManager} → WellFormed m → p < m.next_object → Makes (ok (p, m))
  refused : {e : Error} → e ≢ invalid_sub_lock → Makes (err e)

-- A lock object that no TXN points to.
Legal-fresh :
    (h : ℕ → RwLock) (n : ℕ) (l : RwLock) (ts : List Txn)
    → All (IsMade n) ts
    → Legal h ts
    → Legal (update h n l) ts
Legal-fresh h n l [] k v = tt
Legal-fresh h n l (t ∷ ts) k v =
    let e : (n == t.lock) ≡ false = ground (arith, k.0) in (rw e v.0, Legal-fresh h n l ts k.1 v.1)

IsMade-later : (n : ℕ) (ts : List Txn) → All (IsMade n) ts → All (IsMade (n + 1)) ts
IsMade-later n [] h = tt
IsMade-later n (t ∷ ts) h = (omega (arith, h.0), IsMade-later n ts h.1)

abbrev Below : ℕ → ℕ × ℕ → Type 0
Below n e = e.1 < n

Below-later : (n : ℕ) (m : List (ℕ × ℕ)) → All (Below n) m → All (Below (n + 1)) m
Below-later n [] h = tt
Below-later n (e ∷ m) h = (omega (arith, h.0), Below-later n m h.1)

insert_lock-All :
    (n a p : ℕ) (m : List (ℕ × ℕ)) → p < n → All (Below n) m → All (Below n) (insert_lock a p m)
unfolding insert_lock
insert_lock-All n a p [] h k = (h, tt)
insert_lock-All n a p ((b, q) ∷ m) h k = elim (Bool-cases (ltb a b)) [
  | inl e ↦ rw e (h, k)
  | inr e ↦ rw e (k.0, insert_lock-All n a p m h k.1)
]

virgin-Sided : (c : LockClass) (a : NewLock) (i : ℕ) → Sided (virgin c a i).class (virgin c a i)
unfolding virgin
virgin-Sided rw_lock a i = tt
virgin-Sided r_lock a i = refl
virgin-Sided w_lock a i = refl

not_inserted : lock_not_inserted ≢ invalid_sub_lock
not_inserted e = cc

not_known : unknown_lock_type ≢ invalid_sub_lock
not_known e = cc

add_lock-Makes :
    (a : NewLock) (c : LockClass) (m : LockManager) → WellFormed m → Makes (add_lock a c m)
unfolding add_lock
add_lock-Makes a c m v = elim (Option-cases (find_in m.locks a.address)) [
  | inr (p, e) ↦ rw (e, add_lock) (refused not_inserted)
  | inl e ↦
      rw (e, add_lock)
        (made
          (record {
            ordered = v.ordered;
            legal = λ k.
                Legal-fresh m.heap m.next_object (virgin c a m.next_lock_id)
                  (stack_of m.active_txns k) (v.known k) (v.legal k);
            known = λ k. IsMade-later m.next_object (stack_of m.active_txns k) (v.known k);
            stored =
                insert_lock-All (m.next_object + 1) a.address m.next_object m.locks (omega arith)
                  (Below-later m.next_object m.locks v.stored);
            sides =
                Sided-update m.heap m.next_object (virgin c a m.next_lock_id)
                  (virgin-Sided c a m.next_lock_id) v.sides;
            unique = v.unique;
          })
          (omega arith))
]

pub alloc_lock-Makes : (a : NewLock) (m : LockManager) → WellFormed m → Makes (alloc_lock a m)
unfolding alloc_lock
alloc_lock-Makes a m v = elim (Option-cases (class_of a.lock_type)) [
  | inl e ↦ rw (e, alloc_lock) (refused not_known)
  | inr (c, e) ↦ rw (e, alloc_lock) (add_lock-Makes a c m v)
]

pub find_in-Below :
    (n : ℕ) (m : List (ℕ × ℕ)) (a p : ℕ) → All (Below n) m → find_in m a ≡ some p → p < n
unfolding find_in
find_in-Below n [] a p h e = cc
find_in-Below n ((k, q) ∷ m) a p h e = elim (Bool-cases (k == a)) [
  | inl f ↦ ground (arith, h.0)
  | inr f ↦ ground (arith, find_in-Below n m a p h.1)
]

delete_loop-All :
    (h : ℕ → RwLock) (address size n : ℕ) (m : List (ℕ × ℕ))
    → All (Below n) m
    → All (Below n) (delete_loop h address size m).0
unfolding delete_loop
delete_loop-All h address size n [] k = tt
delete_loop-All h address size n ((a, p) ∷ m) k = elim (Bool-cases (in_area address size (h p))) [
  | inl e ↦ rw (e, delete_loop) (delete_loop-All h address size n m k.1)
  | inr e ↦ rw (e, delete_loop) (k.0, delete_loop-All h address size n m k.1)
]

pub delete_lock_by_area-WellFormed :
    (address size : ℕ) (m : LockManager)
    → WellFormed m
    → WellFormed (delete_lock_by_area address size m)
unfolding delete_lock_by_area
delete_lock_by_area-WellFormed address size m v = record {
  ordered = v.ordered;
  legal = v.legal;
  known = v.known;
  stored = delete_loop-All m.heap address size m.next_object m.locks v.stored;
  sides = v.sides;
  unique = v.unique;
}
