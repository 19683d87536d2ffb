-- ===== src/Convert/Transition/Release.antt =====
-- V: the TXN, the position and the count of the side.
use lockdoc_tools.Common.{
  ℕ, ◌-◌, ◌≡◌, refl, sym, subst, ◌∙◌, ap, Bool, true, false, List, [], ◌∷◌, arith, ltb,
  if◌then◌else◌, ℤ, int_eq, eq_of_int_eq, Bool-cases, ◌⊎◌, inl, inr,
}
use lockdoc_tools.Convert.Result.{ok}
use lockdoc_tools.Convert.Lock.{LockClass, SubLock, LockPos, has_sub_lock}
use lockdoc_tools.Convert.Manager.{
  LockManager, stack_of, any_of, is_active, has_active_txn, is_on_txn_stack, no_running_txn,
  cannot_pop, Txn,
}
use lockdoc_tools.Convert.Manager.Find.{find_txn_none}
use lockdoc_tools.Convert.Transition.{
  lower_count, must_search, is_lost, owner, note_owner, release_txn, release,
}
use lockdoc_tools.Convert.Transition.Counts.{other, held_at, at}
use lockdoc_tools.Convert.Transition.Sync.{
  Table, SyncAs, retable, report-Sync, finish_found-Sync, finish_absent-Sync, table_same,
}
use lockdoc_tools.Convert.Transition.Moves.{pop_pos-Sync, lower-Sync}

active_of_any : (p : ℕ) (s : SubLock) (ts : List Txn) → any_of p s ts ≡ true → is_active ts ≡ true
active_of_any p s [] h = cc
active_of_any p s (t ∷ ts) h = refl

lowered_zero : (f : Table) (p q : ℕ) (s r : SubLock) → f p s ≡ 0 → f q r ≡ at f p s (f p s - 1) q r
lowered_zero f p q s r h = ground (arith, table_same f p q s r)

if_same {ℓ} : {A : Type ℓ} (b : Bool) (x : A) → (if b then x else x) ≡ x
if_same true x = refl
if_same false x = refl

module _ (p : ℕ) (b : LockClass) (c : ℤ) (s : SubLock) (has : has_sub_lock b s ≡ true) where
  -- No other context has a TXN, so the owner is this one.
  on_no_stack :
      (f g h : Table) (m : LockManager)
      → SyncAs p b c f g h m
      → is_on_txn_stack m c p s ≡ false
      → (d : ℤ) → is_on_txn_stack m d p s ≡ false
  unfolding is_on_txn_stack
  on_no_stack f g h m v e d = elim (Bool-cases (int_eq c d)) [
    | inl q ↦ subst (λ k. any_of p s (stack_of m.active_txns k) ≡ false) (eq_of_int_eq c d q) e
    | inr q ↦ rw (v.0.alone d q)
  ]

  active_here : (m : LockManager) → is_on_txn_stack m c p s ≡ true → has_active_txn m c ≡ true
  unfolding is_on_txn_stack has_active_txn
  active_here m e = active_of_any p s (stack_of m.active_txns c) e

  owner_self : (f g h : Table) (m : LockManager) → SyncAs p b c f g h m → owner p s c m ≡ c
  unfolding owner
  owner_self f g h m v = elim (Bool-cases (is_on_txn_stack m c p s)) [
    | inl e ↦ rw (active_here m e, e)
    | inr e ↦
        let lost = find_txn_none p s m c v.0.valid.ordered (on_no_stack f g h m v e) in
        rw (lost, if_same (must_search p s c m) c)
  ]

  note_owner-Sync :
      (f g h : Table) (m : LockManager)
      → SyncAs p b c f g h m
      → (n : LockManager) × (note_owner p s c m ≡ ok n) × SyncAs p b c f g h n
  unfolding note_owner
  note_owner-Sync f g h m v = elim (Bool-cases (is_lost p s c m)) [
    | inl e ↦ let (n, q, w) = report-Sync p b c s has f g h no_running_txn m v in (n, rw e q, w)
    | inr e ↦ (m, rw e, v)
  ]

  release_txn-Sync :
      (f : Table) (ts : ℕ) (m : LockManager)
      → (f p s ≡ 0) ⊎ (f p (other s) ≡ 0)
      → SyncAs p b c f f f m
      → (n : LockManager) × (release_txn p s ts c m ≡ ok n)
        × SyncAs p b c (at f p s (f p s - 1)) (at f p s (f p s - 1)) f n
  unfolding release_txn
  release_txn-Sync f ts m x v =
      let self = owner_self f f f m v in
      let (n, q, w) = note_owner-Sync f f f m v in
      elim (Bool-cases (ltb 0 (f p s))) [
        | inl e ↦
            let (k, u, z) = finish_found-Sync p b c s has f f f ts c n (ground arith) w in
            let (l, y, o) = pop_pos-Sync p b c s has _ f f k (ground arith) (ground arith) z in
            (l, rw (q, self, u) y, o)
        | inr e ↦
            let none : f p s ≡ 0 = ground arith in
            let (k, u, z) = finish_absent-Sync p b c s has f f f ts c n none w in
            (
              k,
              rw (q, self, u),
              retable p b c f f f _ _ f k (λ q r. lowered_zero f p q s r none)
                  (λ q r. lowered_zero f p q s r none) (λ q r. refl) z,
            )
      ]

  pub release-Sync :
      (f : Table) (ts : ℕ) (m : LockManager)
      → (f p s ≡ 0) ⊎ (f p (other s) ≡ 0)
      → SyncAs p b c f f f m
      → (n : LockManager) × (release p s ts c m ≡ ok n)
        × SyncAs p b c (at f p s (f p s - 1)) (at f p s (f p s - 1)) (at f p s (f p s - 1)) n
  unfolding release
  release-Sync f ts m x v = released ((m.heap p).last_n_pos) refl
    where
      lowered :
          (k : LockManager)
          → SyncAs p b c (at f p s (f p s - 1)) (at f p s (f p s - 1)) f k
          → (n : LockManager) × (lower_count p s k ≡ ok n)
            × SyncAs p b c (at f p s (f p s - 1)) (at f p s (f p s - 1)) (at f p s (f p s - 1)) n
      lowered k w = lower-Sync p b c s has _ _ f k w

      released :
          (ps : List LockPos)
          → (m.heap p).last_n_pos ≡ ps
          → (n : LockManager) × (release p s ts c m ≡ ok n)
            × SyncAs p b c (at f p s (f p s - 1)) (at f p s (f p s - 1)) (at f p s (f p s - 1)) n
      released [] e =
          let none : f p s ≡ 0 = sym (v.0.placed p s) ∙ ap (held_at s) e in
          let (k, u, z) = report-Sync p b c s has f f f cannot_pop m v in
          let (n, q, w) = lowered k (
            retable p b c f f f _ _ f k (λ q r. lowered_zero f p q s r none)
              (λ q r. lowered_zero f p q s r none) (λ q r. refl) z) in
          (n, rw (e, release, u) q, w)
      released (y ∷ ys) e =
          let (k, u, z) = release_txn-Sync f ts m x v in
          let (n, q, w) = lowered k z in (n, rw (e, release, u) q, w)
