-- ===== src/Hypothesizer/Combination/Contains.antt =====
-- LockCombination::contains_locks and the inclusion of sets.
use lockdoc_tools.Common.{
  ℕ, ◌≤◌, ◌<◌, ◌≡◌, refl, ◌↔◌, true, List, [], ◌∷◌, arith, ◌==◌, contains, All, ◌||◌, ==_iff,
  Bool-cases, inl, inr,
}
use lockdoc_tools.Hypothesizer.Combination.{
  LockCombination, sort, insert, locks_held_sorted, match_locks, contains_locks,
}

-- No lock comes after a greater one, and none twice.
abbrev pub Sorted : List ℕ → Type 0
Sorted [] = Unit
Sorted (x ∷ xs) = All (λ y. x ≤ y) xs × Sorted xs

abbrev pub Strict : List ℕ → Type 0
Strict [] = Unit
Strict (x ∷ xs) = All (λ y. x < y) xs × Strict xs

-- Every lock of the second list is in the first.
abbrev pub Includes : List ℕ → List ℕ → Type 0
Includes ms = All (λ l. contains ms l ≡ true)

All-le_trans : (a b : ℕ) (xs : List ℕ) → a ≤ b → All (λ y. b ≤ y) xs → All (λ y. a ≤ y) xs
All-le_trans a b [] h k = tt
All-le_trans a b (x ∷ xs) h k = (omega (arith, h, k.0), All-le_trans a b xs h k.1)

insert-All-le :
    (a b : ℕ) (xs : List ℕ) → a ≤ b → All (λ y. a ≤ y) xs → All (λ y. a ≤ y) (insert b xs)
insert-All-le a b [] h k = (h, tt)
insert-All-le a b (x ∷ xs) h k = ground (arith, insert-All-le a b xs h k.1)

insert-Sorted : (a : ℕ) (xs : List ℕ) → Sorted xs → Sorted (insert a xs)
insert-Sorted a [] s = (tt, tt)
insert-Sorted a (x ∷ xs) s =
    ground (arith, insert-Sorted a xs s.1, insert-All-le x a xs, All-le_trans a x xs)

pub sort-Sorted : (xs : List ℕ) → Sorted (sort xs)
unfolding sort
sort-Sorted [] = tt
sort-Sorted (x ∷ xs) = insert-Sorted x (sort xs) (sort-Sorted xs)

contains-insert : (a b : ℕ) (xs : List ℕ) → contains (insert a xs) b ≡ (a == b || contains xs b)
contains-insert a b [] = refl
contains-insert a b (x ∷ xs) = ground (arith, contains-insert a b xs)

contains-sort : (xs : List ℕ) (b : ℕ) → contains (sort xs) b ≡ contains xs b
unfolding sort
contains-sort [] b = refl
contains-sort (x ∷ xs) b = ground (arith, contains-insert x b (sort xs), contains-sort xs b)

pub Includes-sort : (xs l : List ℕ) → Includes (sort xs) l ↔ Includes xs l
Includes-sort xs [] = (λ h. h, λ h. h)
Includes-sort xs (a ∷ l) =
    let (to, from) = Includes-sort xs l in
    let e = contains-sort xs a in (λ h. (ground arith, to h.1), λ h. (ground arith, from h.1))

Includes-skip : (m : ℕ) (ms l : List ℕ) → Includes ms l → Includes (m ∷ ms) l
Includes-skip m ms [] h = tt
Includes-skip m ms (a ∷ l) h = (ground arith, Includes-skip m ms l h.1)

pub Includes-refl : (xs : List ℕ) → Includes xs xs
Includes-refl [] = tt
Includes-refl (x ∷ xs) = (ground arith, Includes-skip x xs xs (Includes-refl xs))

-- Locks that are all above the first are in the rest.
pub Includes-above :
    (m : ℕ) (ms l : List ℕ) → All (λ y. m < y) l → Includes (m ∷ ms) l → Includes ms l
Includes-above m ms [] a h = tt
Includes-above m ms (x ∷ l) a h = (ground (arith, a.0, h.0), Includes-above m ms l a.1 h.1)

pub All-lt_trans : (a b : ℕ) (xs : List ℕ) → a ≤ b → All (λ y. b < y) xs → All (λ y. a < y) xs
All-lt_trans a b [] h k = tt
All-lt_trans a b (x ∷ xs) h k = (omega (arith, h, k.0), All-lt_trans a b xs h k.1)

pub least : (m : ℕ) (ms : List ℕ) (a : ℕ) → All (λ y. m ≤ y) ms → contains ms a ≡ true → m ≤ a
least m [] a h c = cc
least m (x ∷ ms) a h c = ground (arith, least m ms a)

match_sound : (ms l : List ℕ) → match_locks ms l ≡ true → Includes ms l
match_sound ms [] h = tt
match_sound [] (a ∷ l) h = cc
match_sound (m ∷ ms) (a ∷ l) h =
    ground (arith, match_sound ms l, match_sound ms (a ∷ l), Includes-skip m ms l)

match_complete : (ms l : List ℕ) → Sorted ms → Strict l → Includes ms l → match_locks ms l ≡ true
match_complete ms [] s t h = refl
match_complete [] (a ∷ l) s t h = cc
match_complete (m ∷ ms) (a ∷ l) s t h = elim (Bool-cases (m == a)) [
  | inl e ↦
      let q = (==_iff m a).0 e in
      let above = All-lt_trans m a l (omega (arith, q)) t.0 in
      rw e (match_complete ms l s.1 t.1 (Includes-above m ms l above h.1))
  | inr e ↦
      let in_rest : contains ms a ≡ true = ground (arith, h.0) in
      let m_le = least m ms a s.0 in_rest in
      let above : All (λ y. m < y) (a ∷ l) = (ground arith, All-lt_trans m a l m_le t.0) in
      rw e (match_complete ms (a ∷ l) s.1 t (Includes-above m ms (a ∷ l) above h))
]

-- For a list of locks in strictly rising order, contains_locks says whether each of them is held.
pub contains_locks_iff :
    (c : LockCombination) (l : List ℕ)
    → Strict l
    → (contains_locks c l ≡ true) ↔ Includes c.locks_held l
unfolding contains_locks locks_held_sorted
contains_locks_iff c l t = (
  λ h. (Includes-sort c.locks_held l).0 (match_sound (sort c.locks_held) l h),
  λ h.
      match_complete (sort c.locks_held) l (sort-Sorted c.locks_held) t
        ((Includes-sort c.locks_held l).1 h),
)
