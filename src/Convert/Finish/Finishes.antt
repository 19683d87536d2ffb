-- ===== src/Convert/Finish/Finishes.antt =====
-- finishTXN as a whole, on a well-formed manager.
use lockdoc_tools.Common.{
  ℕ, ◌+◌, ◌≤◌, ◌<◌, ◌≡◌, ap, Bool, true, false, List, [], ◌∷◌, arith, All, ℤ, int_eq, Bool-cases,
  inl, inr,
}
use lockdoc_tools.Convert.Result.{ok}
use lockdoc_tools.Convert.Lock.{SubLock, reader_lock}
use lockdoc_tools.Convert.Manager.{Txn, stack_of, LockManager, is_on_txn_stack}
use lockdoc_tools.Convert.Manager.Stacks.{
  total, total-set_stack, set_stack-Ascending, stack_of-set_stack_self, stack_of-set_stack_ne,
}
use lockdoc_tools.Convert.Manager.Legal.{HasSubLock, Legal}
use lockdoc_tools.Convert.Finish.{finish_txn}
use lockdoc_tools.Convert.Finish.Keys.{
  Key, is_key, drop_keys, keys, close_key, has_id, between, SameLocks,
}
use lockdoc_tools.Convert.Finish.Loop.{finish_loop-Finished}
use lockdoc_tools.Convert.Invariant.{WellFormed, IsMade, stack_of-set_stack_ind}

between-append : (a b i : ℕ) → a ≤ b → between 0 b i ≡ between 0 a i + between a b i
between-append a b i h = ground arith

-- What holds of all entries of a stack holds of those that are left.
module _ (P : Key → Type 0) (p : ℕ) where
  drop_keys-All : (s : SubLock) (ks : List Key) → All P ks → All P (drop_keys p s ks)
  drop_keys-All s [] h = tt
  drop_keys-All s (k ∷ ks) h = elim (Bool-cases (is_key p s k)) [
    | inl e ↦ rw e (drop_keys-All s ks h.1)
    | inr e ↦ rw e (h.0, drop_keys-All s ks h.1)
  ]

  close_key-All : (s : SubLock) (rr : Bool) (ks : List Key) → All P ks → All P (close_key p s rr ks)
  close_key-All s rr [] h = tt
  close_key-All s false (k ∷ ks) h = elim (Bool-cases (is_key p s k)) [
    | inl e ↦ rw e h.1
    | inr e ↦ rw e (h.0, close_key-All s false ks h.1)
  ]
  close_key-All s true (k ∷ ks) h = elim (Bool-cases (is_key p s k)) [
    | inl e ↦ rw e (drop_keys-All reader_lock ks h.1)
    | inr e ↦ rw e (h.0, close_key-All s true ks h.1)
  ]

All-keys : (n : ℕ) (ts : List Txn) → All (IsMade n) ts → All (λ k. k.0 < n) (keys ts)
All-keys n [] h = tt
All-keys n (t ∷ ts) h = (h.0, All-keys n ts h.1)

All-of_keys : (n : ℕ) (ts : List Txn) → All (λ k. k.0 < n) (keys ts) → All (IsMade n) ts
All-of_keys n [] h = tt
All-of_keys n (t ∷ ts) h = (h.0, All-of_keys n ts h.1)

-- What finishTXN does: it finds the sub lock exactly if it is on the stack, and takes it from
-- there; the other contexts and the locks stay.
pub record Finishes (p : ℕ) (s : SubLock) (ts : ℕ) (rr : Bool) (ctx ctx_old : ℤ) (m n : LockManager)
    : Type 0 where
  pub returns : finish_txn p s ts rr ctx ctx_old m ≡ ok (is_on_txn_stack m ctx p s, n)
  pub here :
      keys (stack_of n.active_txns ctx) ≡ close_key p s rr (keys (stack_of m.active_txns ctx))
  pub elsewhere :
      (d : ℤ) → int_eq ctx d ≡ false → stack_of n.active_txns d ≡ stack_of m.active_txns d
  pub same : SameLocks m n
  pub valid : WellFormed n

-- For a sub lock that the lock has, finishTXN returns from every well-formed state. It reports
-- whether the sub lock was on the stack of the context; the stack loses the topmost entry of the
-- sub lock (and, if asked for, all reader entries of the lock below it) and keeps the others in
-- order; the other contexts and the locks stay; and the state is well formed again.
pub finish_txn-Finishes :
    (p : ℕ) (s : SubLock) (ts : ℕ) (rr : Bool) (ctx ctx_old : ℤ) (m : LockManager)
    → WellFormed m
    → HasSubLock (m.heap p) s
    → (n : LockManager) × Finishes p s ts rr ctx ctx_old m n
unfolding finish_txn is_on_txn_stack
finish_txn-Finishes p s ts rr ctx ctx_old m v h =
    let stack = stack_of m.active_txns ctx in
    let (n, left, f) = finish_loop-Finished p s ts rr ctx ctx_old [] stack m (v.legal ctx) h in
    (
      n,
      record {
        returns = f.returns;
        here = rw (f.stacks, stack_of-set_stack_self) f.shape;
        elsewhere = λ d e. rw f.stacks (stack_of-set_stack_ne m.active_txns ctx d left e);
        same = f.same;
        valid = record {
          ordered = rw f.stacks (set_stack-Ascending m.active_txns ctx left v.ordered);
          legal =
              rw (f.stacks, f.same.heap)
                (stack_of-set_stack_ind (Legal m.heap) m.active_txns ctx left f.legal v.legal);
          known =
              rw (f.stacks, f.same.object)
                (stack_of-set_stack_ind (All (IsMade m.next_object)) m.active_txns ctx left
                  (All-of_keys m.next_object left (
                    rw f.shape (
                      close_key-All (λ k. k.0 < m.next_object) p s rr (keys stack)
                        (All-keys m.next_object stack (v.known ctx)))))
                  v.known);
          stored = rw (f.same.locks, f.same.object) v.stored;
          sides = rw f.same.heap v.sides;
          unique = λ i. omega (
            arith,
            v.unique i,
            f.ids.split i,
            total-set_stack (has_id i) m.active_txns ctx left v.ordered,
            ap (total (has_id i)) f.stacks,
            between-append m.next_txn_id n.next_txn_id i f.ids.grows,
          );
        };
      },
    )
