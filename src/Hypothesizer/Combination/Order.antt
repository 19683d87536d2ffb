-- ===== src/Hypothesizer/Combination/Order.antt =====
-- LockCombination::lock_order: which locks it gives, and in which order.
use lockdoc_tools.Common.{
  ℕ, ◌+◌, ◌≤◌, ◌≡◌, refl, Bool, true, false, List, [], ◌∷◌, arith, leb, ◌==◌, if◌then◌else◌,
  contains, count, All, ◌<◌,
}
use lockdoc_tools.Hypothesizer.Combination.{
  LockCombination, contains_locks, order_loop, erase, lock_order,
}
use lockdoc_tools.Hypothesizer.Combination.Contains.{Strict, Includes, contains_locks_iff}

-- The first list is a part of the second, in the same order.
pub data Within : List ℕ → List ℕ → Type 0 where
  stop : {ms : List ℕ} → Within [] ms
  skip : {l ms : List ℕ} {m : ℕ} → Within l ms → Within l (m ∷ ms)
  keep : {l ms : List ℕ} {m : ℕ} → Within l ms → Within (m ∷ l) (m ∷ ms)

Within-if :
    (b : Bool) (x y ms : List ℕ) → Within x ms → Within y ms → Within (if b then x else y) ms
Within-if true x y ms h k = h
Within-if false x y ms h k = k

order_loop-Within : (ms l : List ℕ) → Within (order_loop ms l) ms
order_loop-Within [] l = stop
order_loop-Within (m ∷ ms) [] = stop
order_loop-Within (m ∷ ms) (x ∷ l) =
    Within-if (contains (x ∷ l) m) _ _ (m ∷ ms) (keep (order_loop-Within ms (erase m (x ∷ l))))
      (skip (order_loop-Within ms (x ∷ l)))

abbrev lower : ℕ → ℕ → ℕ
lower a b = if leb a b then a else b

count_absent : (a : ℕ) (l : List ℕ) → contains l a ≡ false → count a l ≡ 0
count_absent a [] h = refl
count_absent a (x ∷ l) h = ground (arith, count_absent a l)

count-erase :
    (a m : ℕ) (l : List ℕ)
    → contains l m ≡ true
    → count a (erase m l) + (if m == a then 1 else 0) ≡ count a l
count-erase a m [] h = cc
count-erase a m (x ∷ l) h = ground (arith, count-erase a m l)

-- Each lock is presented as often as both lists have it.
count-order_loop :
    (a : ℕ) (ms l : List ℕ) → count a (order_loop ms l) ≡ lower (count a ms) (count a l)
count-order_loop a [] l = ground arith
count-order_loop a (m ∷ ms) [] = ground arith
count-order_loop a (m ∷ ms) (x ∷ l) = ground (
  arith,
  count-order_loop a ms (erase m (x ∷ l)),
  count-order_loop a ms (x ∷ l),
  count-erase a m (x ∷ l),
  count_absent m (x ∷ l),
)

count_present : (a : ℕ) (l : List ℕ) → contains l a ≡ true → 1 ≤ count a l
count_present a [] h = cc
count_present a (x ∷ l) h = ground (arith, count_present a l)

count_above : (a : ℕ) (l : List ℕ) → All (λ y. a < y) l → count a l ≡ 0
count_above a [] h = refl
count_above a (x ∷ l) h = ground (arith, count_above a l)

count-le : (a : ℕ) (ms l : List ℕ) → Strict l → Includes ms l → count a l ≤ count a ms
count-le a ms [] t h = ground arith
count-le a ms (x ∷ l) t h =
    ground (arith, count-le a ms l t.1 h.1, count_above x l t.0, count_present x ms h.0)

-- Where contains_locks accepts a strictly rising list of locks, lock_order presents exactly these
-- locks, each as often as the list has it, in the order in which they were taken.
pub lock_order-presents :
    (c : LockCombination) (l : List ℕ)
    → Strict l
    → contains_locks c l ≡ true
    → Within (lock_order c l) c.locks_held × ((a : ℕ) → count a (lock_order c l) ≡ count a l)
unfolding lock_order
lock_order-presents c l t h = (
  order_loop-Within c.locks_held l,
  λ a.
      (let fits = count-le a c.locks_held l t ((contains_locks_iff c l t).0 h) in
        let exact = count-order_loop a c.locks_held l in ground arith),
)
