-- ===== src/Convert/Transition/Kept.antt =====
-- What one step of a transition keeps: a lock's class and a well-formed manager.
use lockdoc_tools.Common.{
  ℕ, ◌≡◌, ◌≢◌, ◌<◌, refl, sym, subst, Bool, true, false, List, [], ◌∷◌, arith, ◌==◌, if◌then◌else◌,
  ℤ, ◌∙◌,
}
use lockdoc_tools.Convert.Result.{Error, invalid_sub_lock, pop_on_empty, Result, ok, err, ◌>>=◌}
use lockdoc_tools.Convert.Lock.{
  SubLock, reader_lock, writer_lock, LockClass, LockPos, RwLock, has_sub_lock, count_of, set_count,
}
use lockdoc_tools.Convert.Manager.{
  LockManager, set_lock, report, Notice, already_released, is_on_txn_stack, start_txn,
}
use lockdoc_tools.Convert.Manager.Legal.{report-ok}
use lockdoc_tools.Convert.Finish.{finish_txn}
use lockdoc_tools.Convert.Invariant.{
  WellFormed, Sided, Sided-set_count, set_lock-WellFormed, say-WellFormed, start_txn-WellFormed,
}
use lockdoc_tools.Convert.Finish.Finishes.{finish_txn-Finishes}
use lockdoc_tools.Convert.Transition.{Place, pop_pos, take, noted, taken, lower_count}

-- A well-formed state in which the lock has the class that it had.
abbrev pub Kept : ℕ → LockClass → LockManager → Type 0
Kept p c m = WellFormed m × ((m.heap p).class ≡ c) × (p < m.next_object)

-- What a step may end in: a well-formed state, or an error other than a refused id.
pub data Keeps (p : ℕ) (c : LockClass) : Result LockManager → Type 0 where
  done : {m : LockManager} → Kept p c m → Keeps p c (ok m)
  failed : {e : Error} → e ≢ invalid_sub_lock → Keeps p c (err e)

pop_ne : pop_on_empty ≢ invalid_sub_lock
pop_ne e = cc

pub Keeps->>= :
    {p : ℕ} {c : LockClass} {r : Result LockManager} {f : LockManager → Result LockManager}
    → Keeps p c r
    → ((m : LockManager) → Kept p c m → Keeps p c (f m))
    → Keeps p c (r >>= f)
Keeps->>= (done {m} k) h = h m k
Keeps->>= (failed n) h = failed n

pub Keeps-if :
    {p : ℕ} {c : LockClass} (b : Bool) {x y : Result LockManager}
    → (b ≡ true → Keeps p c x)
    → (b ≡ false → Keeps p c y)
    → Keeps p c (if b then x else y)
Keeps-if true h k = h refl
Keeps-if false h k = k refl

module _ (p : ℕ) (c : LockClass) where
  pub set_lock-Kept :
      (l : RwLock) (m : LockManager)
      → l.class ≡ c
      → Sided c l
      → Kept p c m
      → Kept p c (set_lock p l m)
  set_lock-Kept l m e d k = (
    set_lock-WellFormed p l m (rw (e, k.1)) (subst (λ b. Sided b l) (sym e) d) k.0,
    ground arith,
    k.2,
  )

  pub Kept-Sided : (m : LockManager) → Kept p c m → Sided c (m.heap p)
  Kept-Sided m k = subst (λ b. Sided b (m.heap p)) k.1 (k.0.sides p)

  pub pop_pos-Keeps : (m : LockManager) → Kept p c m → Keeps p c (pop_pos p m)
  unfolding pop_pos
  pop_pos-Keeps m k = popped ((m.heap p).last_n_pos)
    where
      popped :
          (ps : List LockPos)
          → Keeps p c (elim ps [
            | [] ↦ err pop_on_empty
            | x ∷ xs ↦ ok (set_lock p (record (m.heap p) { last_n_pos = xs }) m)
          ])
      popped [] = failed pop_ne
      popped (x ∷ xs) =
          done (set_lock-Kept (record (m.heap p) { last_n_pos = xs }) m k.1 (Kept-Sided m k) k)

  pub set_count-class : (l : RwLock) (s : SubLock) (n : ℕ) → (set_count l s n).class ≡ l.class
  set_count-class l reader_lock n = refl
  set_count-class l writer_lock n = refl

  module _ (s : SubLock) (has : has_sub_lock c s ≡ true) where
    pub report-Keeps : (n : Notice) (m : LockManager) → Kept p c m → Keeps p c (report p s n m)
    report-Keeps n m k =
        rw (report-ok p s n m (rw k.1 has)) (done (say-WellFormed _ m k.0, k.1, k.2))

    pub finish_txn-Keeps :
        (ts : ℕ) (rr : Bool) (ctx old : ℤ) (m : LockManager)
        (f : Bool × LockManager → Result LockManager)
        → Kept p c m
        → ((b : Bool) (n : LockManager) → Kept p c n → Keeps p c (f (b, n)))
        → Keeps p c (finish_txn p s ts rr ctx old m >>= f)
    finish_txn-Keeps ts rr ctx old m f k h =
        let (n, fin) = finish_txn-Finishes p s ts rr ctx old m k.0 (rw k.1 has) in
        rw fin.returns (
          h (is_on_txn_stack m ctx p s) n (fin.valid, rw fin.same.heap k.1, rw fin.same.object k.2))

    pub taken-Kept :
        (e : Place) (m : LockManager) → Kept p c m → Kept p c (set_lock p (taken p s e m) m)
    unfolding taken
    taken-Kept e m k =
        set_lock-Kept (taken p s e m) m (set_count-class _ s _ ∙ k.1)
          (Sided-set_count c (noted p s e m) s _ has (Kept-Sided m k)) k

    pub take-Kept : (e : Place) (m : LockManager) → Kept p c m → Kept p c (take p s e m)
    unfolding take start_txn
    take-Kept e m k =
        let (v, q, made) = taken-Kept e m k in
        (
          start_txn-WellFormed p e.ts s e.ctx (set_lock p (taken p s e m) m) (rw q has) made v,
          q,
          made,
        )

    pub lower_count-Keeps : (m : LockManager) → Kept p c m → Keeps p c (lower_count p s m)
    unfolding lower_count
    lower_count-Keeps m k =
        Keeps-if (count_of (m.heap p) s == 0) (λ _. report-Keeps already_released m k)
          λ _. done (
            set_lock-Kept _ m (set_count-class (m.heap p) s _ ∙ k.1)
              (Sided-set_count c _ s _ has (Kept-Sided m k)) k)
