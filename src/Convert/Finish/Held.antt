-- ===== src/Convert/Finish/Held.antt =====
-- The rows of locks_held.csv for one TXN: its key is the TXN and the lock.
use lockdoc_tools.Common.{
  ℕ, ◌+◌, ◌≤◌, ◌≡◌, refl, List, [], ◌∷◌, ◌++◌, map, arith, ◌==◌, if◌then◌else◌, contains, count,
  Bool-cases, inl, inr,
}
use lockdoc_tools.Convert.Result.{Result, ok}
use lockdoc_tools.Convert.Lock.{SubLock, RwLock, LockPos, sub_id, is_held}
use lockdoc_tools.Convert.Manager.{Txn, HeldRow, Message, stack_underflow, not_held}
use lockdoc_tools.Convert.Manager.Legal.{HasSubLock, Legal, get_id-ok, message_of, message_about-ok}
use lockdoc_tools.Convert.Finish.{Visit, visit_pos, visit_lock, visit, held_row, held_rows}

abbrev pub lock_ids : List HeldRow → List ℕ
lock_ids = map (λ r. r.lock_id)

abbrev mark : List ℕ → ℕ → ℕ
mark seen i = if contains seen i then 1 else 0

-- A visit writes what it marks as seen.
abbrev Marks : List ℕ → Visit → Type 0
Marks seen v = (i : ℕ) → count i (lock_ids v.1) + mark seen i ≡ mark v.0 i

visit_pos-Marks :
    (txn : ℕ) (seen : List ℕ) (id : ℕ) (p : LockPos) → Marks seen (visit_pos txn seen id p)
unfolding held_row
visit_pos-Marks txn seen id p i = elim (Bool-cases (id == i)) [
  | inl e ↦ ground arith
  | inr e ↦ ground arith
]

Visited : ℕ → List ℕ → RwLock → SubLock → Result Visit → Type 0
Visited txn seen l s r = (v : Visit) × (r ≡ ok v) × Marks seen v

visit_lock-Visited :
    (txn : ℕ) (seen : List ℕ) (l : RwLock) (s : SubLock) (ps : List LockPos)
    → HasSubLock l s
    → Visited txn seen l s (visit_lock txn seen l s ps)
unfolding Visited
visit_lock-Visited txn seen l s [] h = (
  (seen, [], message_of l s stack_underflow),
  rw (message_about-ok l s stack_underflow h) refl,
  λ i. omega arith,
)
visit_lock-Visited txn seen l s (p ∷ ps) h = (
  visit_pos txn seen (sub_id l s) p,
  rw (get_id-ok l s h) refl,
  visit_pos-Marks txn seen (sub_id l s) p,
)

visit-Visited :
    (txn : ℕ) (seen : List ℕ) (l : RwLock) (s : SubLock)
    → HasSubLock l s
    → Visited txn seen l s (visit txn seen l s)
unfolding visit Visited
visit-Visited txn seen l s h = elim (Bool-cases (is_held l)) [
  | inl e ↦ rw e (visit_lock-Visited txn seen l s l.last_n_pos h)
  | inr e ↦ (
    (seen, [], message_of l s not_held),
    rw (e, message_about-ok l s not_held h) refl,
    λ i. omega arith,
  )
]

-- For TXNs of sub locks that their locks have, the loop over the held locks returns, and it writes no
-- lock id twice and none that was seen before.
pub held_rows-once :
    (h : ℕ → RwLock) (txn : ℕ) (seen : List ℕ) (ts : List Txn)
    → Legal h ts
    → (r : List HeldRow × List Message) × (held_rows h txn seen ts ≡ ok r)
      × ((i : ℕ) → count i (lock_ids r.0) + (if contains seen i then 1 else 0) ≤ 1)
unfolding held_rows Visited
held_rows-once h txn seen [] l = (([], []), refl, λ i. ground arith)
held_rows-once h txn seen (t ∷ ts) l =
    let (v, e, m) = visit-Visited txn seen (h t.lock) t.sub_lock l.0 in
    let (r, f, k) = held_rows-once h txn v.0 ts l.1 in
    ((v.1 ++ r.0, v.2 ++ r.1), rw (e, f) refl, λ i. omega (arith, m i, k i, ids-append i v.1 r.0))
  where
    ids-append :
        (i : ℕ) (as' bs : List HeldRow)
        → count i (lock_ids (as' ++ bs)) ≡ count i (lock_ids as') + count i (lock_ids bs)
    ids-append i [] bs = omega arith
    ids-append i (a ∷ as') bs = omega (arith, ids-append i as' bs)
