-- ===== src/Convert/Allocs/Table.antt =====
-- The table of open allocations: what is found after an allocation is entered or taken out.
use lockdoc_tools.Common.{ℕ, ◌≡◌, refl, none, some, List, [], ◌∷◌, arith, ◌<◌, ◌≤◌}
use lockdoc_tools.Convert.Driver.{Allocation}
use lockdoc_tools.Convert.Allocs.{find_alloc, insert_alloc, erase_alloc}

abbrev Over : ℕ → List (ℕ × Allocation) → Type 0
Over a [] = Unit
Over a ((k, d) ∷ m) = (a < k) × Over a m

-- The base addresses rise, as in a `std::map`.
abbrev pub Rising : List (ℕ × Allocation) → Type 0
Rising [] = Unit
Rising ((k, d) ∷ m) = Over k m × Rising m

Over-trans : (a b : ℕ) (m : List (ℕ × Allocation)) → a ≤ b → Over b m → Over a m
Over-trans a b [] h o = tt
Over-trans a b ((k, d) ∷ m) h o = (omega (arith, o.0), Over-trans a b m h o.1)

Over-insert :
    (b a : ℕ) (d : Allocation) (m : List (ℕ × Allocation))
    → b < a
    → Over b m
    → Over b (insert_alloc a d m)
unfolding insert_alloc
Over-insert b a d [] h o = (h, tt)
Over-insert b a d ((k, e) ∷ m) h o = ground (arith, Over-insert b a d m)

absent-Over : (a : ℕ) (m : List (ℕ × Allocation)) → Over a m → find_alloc a m ≡ none
unfolding find_alloc
absent-Over a [] o = refl
absent-Over a ((k, d) ∷ m) o = ground (arith, absent-Over a m)

insert_alloc-Rising :
    (a : ℕ) (d : Allocation) (m : List (ℕ × Allocation))
    → find_alloc a m ≡ none
    → Rising m
    → Rising (insert_alloc a d m)
unfolding insert_alloc find_alloc
insert_alloc-Rising a d [] n r = (tt, tt)
insert_alloc-Rising a d ((k, e) ∷ m) n r =
    ground (arith, insert_alloc-Rising a d m, Over-insert k a d m, Over-trans a k m)

find-insert :
    (a : ℕ) (d : Allocation) (m : List (ℕ × Allocation))
    → find_alloc a m ≡ none
    → find_alloc a (insert_alloc a d m) ≡ some d
unfolding insert_alloc find_alloc
find-insert a d [] n = ground arith
find-insert a d ((k, e) ∷ m) n = ground (arith, find-insert a d m)

erase-insert :
    (a : ℕ) (d : Allocation) (m : List (ℕ × Allocation))
    → find_alloc a m ≡ none
    → erase_alloc a (insert_alloc a d m) ≡ m
unfolding insert_alloc find_alloc erase_alloc
erase-insert a d [] n = ground arith
erase-insert a d ((k, e) ∷ m) n = ground (arith, erase-insert a d m)

-- An allocation at a free address is found there once entered, its removal gives the old table back, and a table in
-- order stays in order.
pub insert_alloc-erase :
    (a : ℕ) (d : Allocation) (m : List (ℕ × Allocation))
    → Rising m
    → find_alloc a m ≡ none
    → (find_alloc a (insert_alloc a d m) ≡ some d)
      × ((erase_alloc a (insert_alloc a d m) ≡ m) × Rising (insert_alloc a d m))
insert_alloc-erase a d m r n =
    (find-insert a d m n, (erase-insert a d m n, insert_alloc-Rising a d m n r))
