-- ===== src/Convert/Transition/Moves.antt =====
-- The steps of a transition that move a position, a count or a TXN of one side, on the tables of
-- Sync.
use lockdoc_tools.Common.{
  ℕ, suc, ◌+◌, ◌-◌, ◌<◌, ◌≡◌, refl, sym, ◌∙◌, ap, true, ◌&&◌, List, [], ◌∷◌, arith, ◌==◌,
  if◌then◌else◌, ℤ, Bool-cases, inl, inr,
}
use lockdoc_tools.Convert.Result.{ok}
use lockdoc_tools.Convert.Lock.{
  LockClass, SubLock, reader_lock, writer_lock, sub_eq, LockPos, has_sub_lock, count_of, set_count,
}
use lockdoc_tools.Convert.Manager.{LockManager, set_lock, start_txn, already_released}
use lockdoc_tools.Convert.Manager.Stacks.{stack_of-set_stack_self, stack_of-set_stack_ne}
use lockdoc_tools.Convert.Invariant.{Sided-set_count}
use lockdoc_tools.Convert.Transition.{Place, pop_pos, take, taken, noted, position, lower_count}
use lockdoc_tools.Convert.Transition.Kept.{
  set_lock-Kept, Kept-Sided, take-Kept, taken-Kept, set_count-class,
}
use lockdoc_tools.Convert.Transition.Counts.{other, held_at, at}
use lockdoc_tools.Convert.Transition.Sync.{
  Table, SyncAs, kept, retable, set_lock-Sync, report-Sync, set_here, table_same, at_away,
  last_n_pos-set_count, count_of-positions,
}

pop_counts :
    (s r : SubLock) (x : LockPos) (xs : List LockPos) (g : SubLock → ℕ)
    → held_at s (x ∷ xs) ≡ g s
    → held_at (other s) (x ∷ xs) ≡ g (other s)
    → 0 < g s
    → g (other s) ≡ 0
    → held_at r xs ≡ (if sub_eq r s then g s - 1 else g r)
pop_counts reader_lock reader_lock x xs g a b h k = ground arith
pop_counts reader_lock writer_lock x xs g a b h k = ground arith
pop_counts writer_lock reader_lock x xs g a b h k = ground arith
pop_counts writer_lock writer_lock x xs g a b h k = ground arith

at_here :
    (f : Table) (p : ℕ) (s r : SubLock) (v : ℕ) → at f p s v p r ≡ (if sub_eq r s then v else f p r)
at_here f p s r v = ground arith

-- One more entry of a side.
grown :
    (F : Table) (p q : ℕ) (s r : SubLock) (n : ℕ)
    → n ≡ F q r
    → (if p == q && sub_eq s r then 1 else 0) + n ≡ at F p s (suc (F p s)) q r
grown F p q reader_lock reader_lock n e = ground (arith, table_same F p q reader_lock reader_lock)
grown F p q writer_lock writer_lock n e = ground (arith, table_same F p q writer_lock writer_lock)
grown F p q reader_lock writer_lock n e = ground arith
grown F p q writer_lock reader_lock n e = ground arith

grown_here :
    (F : Table) (p : ℕ) (s r : SubLock) (n : ℕ)
    → n ≡ F p r
    → (if sub_eq s r then 1 else 0) + n ≡ at F p s (suc (F p s)) p r
grown_here F p s r n e = ground (arith, grown F p p s r n e)

module _ (p : ℕ) (b : LockClass) (c : ℤ) (s : SubLock) (has : has_sub_lock b s ≡ true) where
  -- `lastNPos.pop()` takes a position of the side, where there are no others.
  pub pop_pos-Sync :
      (f g h : Table) (m : LockManager)
      → 0 < g p s
      → g p (other s) ≡ 0
      → SyncAs p b c f g h m
      → (n : LockManager) × (pop_pos p m ≡ ok n) × SyncAs p b c f (at g p s (g p s - 1)) h n
  unfolding pop_pos
  pop_pos-Sync f g h m pos none v = popped ((m.heap p).last_n_pos) refl
    where
      popped :
          (ps : List LockPos)
          → (m.heap p).last_n_pos ≡ ps
          → (n : LockManager) × (pop_pos p m ≡ ok n) × SyncAs p b c f (at g p s (g p s - 1)) h n
      popped [] e = absurd (omega (arith, v.0.placed p s, ap (held_at s) e))
      popped (x ∷ xs) e =
          let l = record (m.heap p) { last_n_pos = xs } in
          (
            set_lock p l m,
            rw (e, pop_pos),
            set_lock-Sync p b c f g h (at g p s (g p s - 1)) h l m
                (set_lock-Kept p b l m v.1 (Kept-Sided p b m (kept p b c v)) (kept p b c v))
                (λ r.
                  pop_counts s r x xs (g p) (ap (held_at s) (sym e) ∙ v.0.placed p s)
                    (ap (held_at (other s)) (sym e) ∙ v.0.placed p (other s)) pos none
                  ∙ sym (at_here g p s r (g p s - 1)))
                (λ r. count_of-positions (m.heap p) xs r ∙ v.0.counted p r)
                (λ q r d. (at_away g p q s r (g p s - 1) d, refl)) v,
          )

  pub take-Sync :
      (f g h : Table) (e : Place) (m : LockManager)
      → e.ctx ≡ c
      → SyncAs p b c f g h m
      → SyncAs p b c
          (at f p s (suc (f p s)))
          (at g p s (suc (g p s)))
          (at h p s (suc (h p s)))
          (take p s e m)
  unfolding take taken noted position start_txn
  take-Sync f g h e m here v =
      let l = taken p s e m in
      let w =
        set_lock-Sync p b c f g h (at g p s (suc (g p s))) (at h p s (suc (h p s))) l m
          (taken-Kept p b s has e m (kept p b c v))
          (λ r.
            rw last_n_pos-set_count
              (grown_here g p s r (held_at r (m.heap p).last_n_pos) (v.0.placed p r)))
          (λ r. set_here h p s r (noted p s e m) _ _ (ap suc (v.0.counted p s)) (
            count_of-positions (m.heap p) (position s e ∷ (m.heap p).last_n_pos) r
            ∙ v.0.counted p r))
          (λ q r d. (at_away g p q s r _ d, at_away h p q s r _ d)) v in
      let k = take-Kept p b s has e m (kept p b c v) in
      (
        record {
          valid = k.0;
          alone = λ d ne. rw here (stack_of-set_stack_ne m.active_txns c d _ ne ∙ v.0.alone d ne);
          opened = λ q r. rw (here, stack_of-set_stack_self) (grown f p q s r _ (v.0.opened q r));
          placed = w.0.placed;
          counted = w.0.counted;
        },
        w.1,
        w.2,
      )

  pub lower-Sync :
      (f g h : Table) (m : LockManager)
      → SyncAs p b c f g h m
      → (n : LockManager) × (lower_count p s m ≡ ok n) × SyncAs p b c f g (at h p s (h p s - 1)) n
  unfolding lower_count
  lower-Sync f g h m v = elim (Bool-cases (count_of (m.heap p) s == 0)) [
    | inl e ↦
        let (n, q, w) = report-Sync p b c s has f g h already_released m v in
        (
          n,
          rw e q,
          retable p b c f g h f g (at h p s (h p s - 1)) n (λ q r. refl) (λ q r. refl)
              (λ q r. ground (arith, v.0.counted p s, table_same h p q s r)) w,
        )
    | inr e ↦
        let l = set_count (m.heap p) s (count_of (m.heap p) s - 1) in
        (
          set_lock p l m,
          rw e,
          set_lock-Sync p b c f g h g (at h p s (h p s - 1)) l m
              (set_lock-Kept p b l m (set_count-class p b (m.heap p) s _ ∙ v.1)
                (Sided-set_count b (m.heap p) s _ has (Kept-Sided p b m (kept p b c v)))
                (kept p b c v))
              (λ r. rw last_n_pos-set_count (v.0.placed p r))
              (λ r.
                set_here h p s r (m.heap p) _ _ (ap (λ x. x - 1) (v.0.counted p s))
                  (v.0.counted p r))
              (λ q r d. (refl, at_away h p q s r (h p s - 1) d)) v,
        )
  ]
