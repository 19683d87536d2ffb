-- ===== src/Hypothesizer/Combination.antt =====
-- struct LockCombination of hypothesizer/hypothesizer.cc: the locks of one combination in the order
-- in which they were taken, and sorted. Lock ids are numbers; the source stores them in 16 bits.
pub mod Contains
pub mod Order
use lockdoc_tools.Common.{ℕ, Bool, true, false, List, [], ◌∷◌, leb, ◌==◌, if◌then◌else◌, contains}

-- std::sort of numbers
abbrev insert : ℕ → List ℕ → List ℕ
insert a [] = a ∷ []
insert a (x ∷ xs) = if leb a x then a ∷ x ∷ xs else x ∷ insert a xs

pub sort : List ℕ → List ℕ
sort [] = []
sort (x ∷ xs) = insert x (sort xs)

pub record LockCombination : Type 0 where
  pub occurrences : ℕ
  pub locks_held : List ℕ

unfoldable pub locks_held_sorted : LockCombination → List ℕ
unfolding sort
locks_held_sorted c = sort c.locks_held

-- The loop of contains_locks over the sorted locks, with what is left of the other list.
abbrev pub match_locks : List ℕ → List ℕ → Bool
match_locks ms [] = true
match_locks [] (l ∷ ls) = false
match_locks (m ∷ ms) (l ∷ ls) = if m == l then match_locks ms ls else match_locks ms (l ∷ ls)

unfoldable pub contains_locks : LockCombination → List ℕ → Bool
unfolding locks_held_sorted
contains_locks c l = match_locks (locks_held_sorted c) l

-- `l.erase(it)` at the first place of the lock.
abbrev pub erase : ℕ → List ℕ → List ℕ
erase a [] = []
erase a (x ∷ xs) = if x == a then xs else x ∷ erase a xs

-- The loop of lock_order over the locks as they were taken; it ends early where no lock is left.
abbrev pub order_loop : List ℕ → List ℕ → List ℕ
order_loop [] l = []
order_loop (m ∷ ms) [] = []
order_loop (m ∷ ms) (x ∷ l) =
    if contains (x ∷ l) m then m ∷ order_loop ms (erase m (x ∷ l)) else order_loop ms (x ∷ l)

unfoldable pub lock_order : LockCombination → List ℕ → List ℕ
lock_order c l = order_loop c.locks_held l
