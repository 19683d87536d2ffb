-- ===== src/Convert/Locks/Area.antt =====
-- LockManager::deleteLockByArea: which locks go with a freed allocation.
use lockdoc_tools.Common.{
  ℕ, ◌+◌, ◌%◌, ◌^◌, ◌≤◌, ◌<◌, ◌≡◌, ◌↔◌, ◌⊎◌, refl, ap, true, ◌&&◌, List, [], ◌∷◌, arith, ◌==◌,
  ==_iff, if◌then◌else◌, Bool-cases, inl, inr,
}
use lockdoc_tools.Convert.Lock.{RwLock}
use lockdoc_tools.Convert.Manager.{LockManager}
use lockdoc_tools.Convert.Locks.{in_area, delete_loop, delete_lock_by_area}

-- The lock's address is in the area, whose end is taken in 64 bits.
abbrev pub LiesIn : ℕ → ℕ → RwLock → Type 0
LiesIn address size l = (address ≤ l.lock_address) × (l.lock_address < (address + size) % 2 ^ 64)

-- How often the table has the lock `p` under the address `a`.
abbrev pub entries : ℕ → ℕ → List (ℕ × ℕ) → ℕ
entries a p [] = 0
entries a p ((k, q) ∷ m) = (if k == a && q == p then 1 else 0) + entries a p m

in_area-LiesIn :
    (address size : ℕ) (l : RwLock) → (in_area address size l ≡ true) ↔ LiesIn address size l
in_area-LiesIn address size l =
    (λ e. (ground (arith, e), ground (arith, e)), λ k. ground (arith, k.0, k.1))

module _ (h : ℕ → RwLock) (address size : ℕ) where
  left : List (ℕ × ℕ) → List (ℕ × ℕ)
  unfolding delete_loop
  left m = (delete_loop h address size m).0

  same_place :
      (a p k q : ℕ)
      → k == a && q == p ≡ true
      → in_area address size (h q) ≡ in_area address size (h p)
  same_place a p k q e =
      let s : q ≡ p = (==_iff q p).0 (ground (arith, e)) in ap (λ x. in_area address size (h x)) s

  entries-left :
      (m : List (ℕ × ℕ)) (a p : ℕ)
      → entries a p (left m) ≡ (if in_area address size (h p) then 0 else entries a p m)
  unfolding left
  entries-left [] a p = ground arith
  entries-left ((k, q) ∷ m) a p = ground (arith, entries-left m a p, same_place a p k q)

-- deleteLockByArea takes exactly the locks out of the table whose address lies in the area: the
-- others stay as often as they were there, under their addresses; and it changes no lock.
pub delete_lock_by_area-exact :
    (address size : ℕ) (m : LockManager) (a p : ℕ)
    → (let n = delete_lock_by_area address size m in
        ((0 < entries a p n.locks)
          ↔ ((0 < entries a p m.locks) × ¬ (LiesIn address size (m.heap p))))
        × ((entries a p n.locks ≡ 0) ⊎ (entries a p n.locks ≡ entries a p m.locks))
        × (n.heap ≡ m.heap))
unfolding delete_lock_by_area left
delete_lock_by_area-exact address size m a p =
    let e = entries-left m.heap address size m.locks a p in
    let (to, from) = in_area-LiesIn address size (m.heap p) in
    elim (Bool-cases (in_area address size (m.heap p))) [
      | inl k ↦ (
        (λ lt. absurd (ground (arith, e, k, lt)), λ r. absurd (r.1 (to k))),
        inl (ground (arith, e, k)),
        refl,
      )
      | inr k ↦ (
        (
          λ lt. (ground (arith, e, k, lt), λ i. let t = from i in cc),
          λ r. let lt = r.0 in ground (arith, e, k, lt),
        ),
        inr (ground (arith, e, k)),
        refl,
      )
    ]
