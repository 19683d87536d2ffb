-- ===== src/Convert/Manager/Find.antt =====
-- LockManager::findTXN: which context it names.
use lockdoc_tools.Common.{
  ℕ, ◌≡◌, refl, ap, ◌∙◌, sym, Bool, true, false, [], ◌∷◌, arith, ℤ, int_eq, eq_of_int_eq,
  int_eq_refl, Bool-cases, inl, inr,
}
use lockdoc_tools.Convert.Lock.{SubLock}
use lockdoc_tools.Convert.Manager.{
  TxnStacks, stack_of, LockManager, any_of, first_with, find_txn, is_on_txn_stack,
}
use lockdoc_tools.Convert.Manager.Stacks.{Ascending, Above, stack_of-Above}

module _ (p : ℕ) (s : SubLock) where
  has_txn : TxnStacks → ℤ → Bool
  has_txn m d = any_of p s (stack_of m d)

  absent-Above : (c d : ℤ) (m : TxnStacks) → Above c m → has_txn m d ≡ true → int_eq c d ≡ false
  unfolding has_txn
  absent-Above c d m a h = elim (Bool-cases (int_eq c d)) [
    | inl e ↦
        let k = eq_of_int_eq c d e in
        let none_here = ap (any_of p s) (ap (stack_of m) (sym k) ∙ stack_of-Above c m a) in
        ground arith
    | inr e ↦ e
  ]

  first_with-finds :
      (m : TxnStacks) (c d : ℤ)
      → Ascending m
      → has_txn m d ≡ true
      → has_txn m (first_with p s c m) ≡ true
  unfolding has_txn
  first_with-finds [] c d a h = cc
  first_with-finds ((k, v) ∷ m) c d a h = elim (Bool-cases (any_of p s v)) [
    | inl e ↦ rw (e, int_eq_refl k) e
    | inr e ↦
        let deeper = first_with-finds m c d a.1 (ground arith) in
        rw (e, absent-Above k (first_with p s c m) m a.0 deeper) deeper
  ]

  first_with_none :
      (m : TxnStacks) (c : ℤ)
      → Ascending m
      → ((d : ℤ) → has_txn m d ≡ false)
      → first_with p s c m ≡ c
  unfolding has_txn
  first_with_none [] c a h = refl
  first_with_none ((k, v) ∷ m) c a h =
      let not_here = h k in
      let here : any_of p s v ≡ false = ground (arith, int_eq_refl k) in
      rw here
        (first_with_none m c a.1 λ d. let there = h d in ground (arith, absent-Above k d m a.0))

  -- If any context has a TXN of the sub lock, the one that findTXN names has one.
  pub find_txn-finds :
      (m : LockManager) (c d : ℤ)
      → Ascending m.active_txns
      → is_on_txn_stack m d p s ≡ true
      → is_on_txn_stack m (find_txn m p s c) p s ≡ true
  unfolding is_on_txn_stack find_txn has_txn
  find_txn-finds m c d a h = first_with-finds m.active_txns c d a h

  -- If none has, findTXN gives back the context that it was asked for.
  pub find_txn_none :
      (m : LockManager) (c : ℤ)
      → Ascending m.active_txns
      → ((d : ℤ) → is_on_txn_stack m d p s ≡ false)
      → find_txn m p s c ≡ c
  unfolding is_on_txn_stack find_txn has_txn
  find_txn_none m c a h = first_with_none m.active_txns c a h
