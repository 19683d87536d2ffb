-- ===== src/Convert/Transition/Sync.antt =====
-- One context: its stack, the positions of each lock and the counts of each lock agree, and each
-- step of a transition changes one of the three in a known way.
use lockdoc_tools.Common.{
  ℕ, ◌-◌, ◌<◌, ◌≡◌, refl, sym, subst, ◌∙◌, ap, Bool, true, false, ◌&&◌, List, [], arith, ltb, ◌==◌,
  ==_iff, if◌then◌else◌, ℤ, int_eq, Bool-cases, inl, inr,
}
use lockdoc_tools.Convert.Result.{ok}
use lockdoc_tools.Convert.Lock.{
  LockClass, SubLock, reader_lock, writer_lock, sub_eq, LockPos, RwLock, has_sub_lock, count_of,
  set_count,
}
use lockdoc_tools.Convert.Manager.{
  LockManager, set_lock, report, Notice, stack_of, is_on_txn_stack, say,
}
use lockdoc_tools.Convert.Manager.Legal.{report-ok, message_of}
use lockdoc_tools.Convert.Finish.{finish_txn}
use lockdoc_tools.Convert.Finish.Keys.{Key, keys, close_key}
use lockdoc_tools.Convert.Invariant.{WellFormed, say-WellFormed}
use lockdoc_tools.Convert.Finish.Finishes.{finish_txn-Finishes}
use lockdoc_tools.Convert.Transition.Kept.{Kept}
use lockdoc_tools.Convert.Transition.Counts.{
  count_key, held_at, at, any_of-eq-count, close_key_absent, count_key-close_key,
}

-- How often each lock is held on each side.
abbrev pub Table : Type 0
Table = ℕ → SubLock → ℕ

-- The TXNs on the stack of `c` are counted by `f`, the positions by `g`, and the counters hold
-- `h`; no other context has a TXN.
pub record Sync (c : ℤ) (f g h : Table) (m : LockManager) : Type 0 where
  pub valid : WellFormed m
  pub alone : (d : ℤ) → int_eq c d ≡ false → stack_of m.active_txns d ≡ []
  pub opened : (q : ℕ) (r : SubLock) → count_key q r (keys (stack_of m.active_txns c)) ≡ f q r
  pub placed : (q : ℕ) (r : SubLock) → held_at r (m.heap q).last_n_pos ≡ g q r
  pub counted : (q : ℕ) (r : SubLock) → count_of (m.heap q) r ≡ h q r

pub count_of-set_count :
    (l : RwLock) (s r : SubLock) (n : ℕ)
    → count_of (set_count l s n) r ≡ (if sub_eq r s then n else count_of l r)
count_of-set_count l reader_lock reader_lock n = refl
count_of-set_count l reader_lock writer_lock n = refl
count_of-set_count l writer_lock reader_lock n = refl
count_of-set_count l writer_lock writer_lock n = refl

pub last_n_pos-set_count :
    (l : RwLock) (s : SubLock) (n : ℕ) → (set_count l s n).last_n_pos ≡ l.last_n_pos
last_n_pos-set_count l reader_lock n = refl
last_n_pos-set_count l writer_lock n = refl

-- The counts do not depend on the positions.
pub count_of-positions :
    (l : RwLock) (ps : List LockPos) (r : SubLock)
    → count_of (record l { last_n_pos = ps }) r ≡ count_of l r
count_of-positions l ps reader_lock = refl
count_of-positions l ps writer_lock = refl

pub at_away :
    (f : Table) (p q : ℕ) (s r : SubLock) (v : ℕ) → (p == q) ≡ false → at f p s v q r ≡ f q r
at_away f p q s r v e = ground arith

pub table_same :
    (F : Table) (p q : ℕ) (s r : SubLock) → (q == p && sub_eq r s) ≡ true → F q r ≡ F p s
table_same F p q reader_lock reader_lock h = ap (λ x. F x reader_lock) (ground arith)
table_same F p q writer_lock writer_lock h = ap (λ x. F x writer_lock) (ground arith)
table_same F p q reader_lock writer_lock h = absurd (ground arith)
table_same F p q writer_lock reader_lock h = absurd (ground arith)

pub set_here :
    (F : Table) (p : ℕ) (s r : SubLock) (l : RwLock) (v w : ℕ)
    → v ≡ w
    → count_of l r ≡ F p r
    → count_of (set_count l s v) r ≡ at F p s w p r
set_here F p s r l v w e k = rw (count_of-set_count l s r v) (ground arith)

module _ (p : ℕ) (b : LockClass) (c : ℤ) where
  -- In sync, with the class of the lock known.
  abbrev pub SyncAs : Table → Table → Table → LockManager → Type 0
  SyncAs f g h m = Sync c f g h m × ((m.heap p).class ≡ b) × (p < m.next_object)

  pub kept : {f g h : Table} {m : LockManager} → SyncAs f g h m → Kept p b m
  kept v = (v.0.valid, v.1, v.2)

  -- A new value for the lock, with its positions and counts.
  pub set_lock-Sync :
      (f g h g' h' : Table) (l : RwLock) (m : LockManager)
      → Kept p b (set_lock p l m)
      → ((r : SubLock) → held_at r l.last_n_pos ≡ g' p r)
      → ((r : SubLock) → count_of l r ≡ h' p r)
      → ((q : ℕ) (r : SubLock) → (p == q) ≡ false → (g' q r ≡ g q r) × (h' q r ≡ h q r))
      → SyncAs f g h m
      → SyncAs f g' h' (set_lock p l m)
  set_lock-Sync f g h g' h' l m k placed counted same v = (
    record {
      valid = k.0;
      alone = v.0.alone;
      opened = v.0.opened;
      placed = λ q r. elim (Bool-cases (p == q)) [
        | inl e ↦ rw e (subst (λ x. held_at r l.last_n_pos ≡ g' x r) ((==_iff p q).0 e) (placed r))
        | inr e ↦ rw e (v.0.placed q r ∙ sym (same q r e).0)
      ];
      counted = λ q r. elim (Bool-cases (p == q)) [
        | inl e ↦ rw e (subst (λ x. count_of l r ≡ h' x r) ((==_iff p q).0 e) (counted r))
        | inr e ↦ rw e (v.0.counted q r ∙ sym (same q r e).1)
      ];
    },
    k.1,
    k.2,
  )

  -- Tables that agree everywhere.
  pub retable :
      (f g h f' g' h' : Table) (m : LockManager)
      → ((q : ℕ) (r : SubLock) → f q r ≡ f' q r)
      → ((q : ℕ) (r : SubLock) → g q r ≡ g' q r)
      → ((q : ℕ) (r : SubLock) → h q r ≡ h' q r)
      → SyncAs f g h m
      → SyncAs f' g' h' m
  retable f g h f' g' h' m ef eg eh v = (
    record {
      valid = v.0.valid;
      alone = v.0.alone;
      opened = λ q r. v.0.opened q r ∙ ef q r;
      placed = λ q r. v.0.placed q r ∙ eg q r;
      counted = λ q r. v.0.counted q r ∙ eh q r;
    },
    v.1,
    v.2,
  )

  module _ (s : SubLock) (has : has_sub_lock b s ≡ true) where
    pub report-Sync :
        (f g h : Table) (t : Notice) (m : LockManager)
        → SyncAs f g h m
        → (n : LockManager) × (report p s t m ≡ ok n) × SyncAs f g h n
    report-Sync f g h t m v = (
      say (message_of (m.heap p) s t) m,
      report-ok p s t m (rw v.1 has),
      (
        record {
          valid = say-WellFormed _ m v.0.valid;
          alone = v.0.alone;
          opened = v.0.opened;
          placed = v.0.placed;
          counted = v.0.counted;
        },
        v.1,
        v.2,
      ),
    )

    pub on_stack-eq :
        (f g h : Table) (m : LockManager) → SyncAs f g h m → is_on_txn_stack m c p s ≡ ltb 0 (f p s)
    unfolding is_on_txn_stack
    on_stack-eq f g h m v =
        any_of-eq-count p s (stack_of m.active_txns c) ∙ ap (ltb 0) (v.0.opened p s)

    -- finishTXN in this context, where the keys that it leaves are counted by `f'`.
    pub finish_txn-Sync :
        (f f' g h : Table) (ts : ℕ) (rr : Bool) (old : ℤ) (m : LockManager)
        → ((ks : List Key)
            → ((q : ℕ) (r : SubLock) → count_key q r ks ≡ f q r)
            → (q : ℕ) (r : SubLock) → count_key q r (close_key p s rr ks) ≡ f' q r)
        → SyncAs f g h m
        → (n : LockManager) × (finish_txn p s ts rr c old m ≡ ok (ltb 0 (f p s), n))
          × SyncAs f' g h n
    finish_txn-Sync f f' g h ts rr old m closes v =
        let (n, fin) = finish_txn-Finishes p s ts rr c old m v.0.valid (rw v.1 has) in
        (
          n,
          fin.returns ∙ ap (λ x. ok (x, n)) (on_stack-eq f g h m v),
          (
            record {
              valid = fin.valid;
              alone = λ d e. fin.elsewhere d e ∙ v.0.alone d e;
              opened = λ q r. rw fin.here (closes (keys (stack_of m.active_txns c)) v.0.opened q r);
              placed = λ q r. rw fin.same.heap (v.0.placed q r);
              counted = λ q r. rw fin.same.heap (v.0.counted q r);
            },
            rw fin.same.heap v.1,
            rw fin.same.object v.2,
          ),
        )

    -- A TXN that is there is found, and goes.
    pub finish_found-Sync :
        (f g h : Table) (ts : ℕ) (old : ℤ) (m : LockManager)
        → 0 < f p s
        → SyncAs f g h m
        → (n : LockManager) × (finish_txn p s ts false c old m ≡ ok (true, n))
          × SyncAs (at f p s (f p s - 1)) g h n
    finish_found-Sync f g h ts old m pos v =
        let (n, e, w) =
          finish_txn-Sync f (at f p s (f p s - 1)) g h ts false old m
            (λ ks k q r.
              count_key-close_key p q s r ks (rw (k p s) pos) ∙ ground (arith, k p s, k q r))
            v in
        (n, e ∙ ground arith, w)

    pub finish_absent-Sync :
        (f g h : Table) (ts : ℕ) (old : ℤ) (m : LockManager)
        → f p s ≡ 0
        → SyncAs f g h m
        → (n : LockManager) × (finish_txn p s ts false c old m ≡ ok (false, n)) × SyncAs f g h n
    finish_absent-Sync f g h ts old m none v =
        let (n, e, w) =
          finish_txn-Sync f f g h ts false old m
            (λ ks k q r. rw (close_key_absent p s false ks (k p s ∙ none)) (k q r)) v in
        (n, e ∙ ground arith, w)
