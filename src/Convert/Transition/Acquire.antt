-- ===== src/Convert/Transition/Acquire.antt =====
-- What P does before it takes a side.
use lockdoc_tools.Common.{
  ℕ, ◌≤◌, ◌<◌, ◌≡◌, refl, ◌∙◌, true, false, List, [], arith, ltb, ◌==◌, ℤ, pos, int_eq, Bool-cases,
  ◌⊎◌, inl, inr,
}
use lockdoc_tools.Convert.Result.{ok}
use lockdoc_tools.Convert.Lock.{
  LockClass, SubLock, reader_lock, writer_lock, RwLock, has_sub_lock, count_of, set_count,
  is_recursive,
}
use lockdoc_tools.Convert.Manager.{
  LockManager, set_lock, inconsistent_count, read_side_held, write_side_held,
}
use lockdoc_tools.Convert.Finish.Keys.{Key, close_key}
use lockdoc_tools.Convert.Invariant.{Sided-set_count}
use lockdoc_tools.Convert.Transition.{
  drained, drain, flush, before_write, before_read, only_readers, only_writers, both_sides,
}
use lockdoc_tools.Convert.Transition.Kept.{set_lock-Kept, Kept-Sided, set_count-class}
use lockdoc_tools.Convert.Transition.Counts.{
  other, count_key, held_at, at, count_key-flush_readers, count_key-flush_writer,
}
use lockdoc_tools.Convert.Transition.Sync.{
  Table, SyncAs, kept, retable, set_lock-Sync, report-Sync, finish_txn-Sync, count_of-positions,
  set_here, table_same, at_away, last_n_pos-set_count,
}

-- The table with nobody holding `p`.
abbrev cleared : Table → ℕ → Table
cleared g p = at (at g p reader_lock 0) p writer_lock 0

cleared_here : (g : Table) (p : ℕ) (r : SubLock) → 0 ≡ cleared g p p r
cleared_here g p reader_lock = ground arith
cleared_here g p writer_lock = ground arith

cleared_away : (g : Table) (p q : ℕ) (r : SubLock) → (p == q) ≡ false → cleared g p q r ≡ g q r
cleared_away g p q r e = ground arith

cleared-at :
    (f : Table) (p q : ℕ) (s r : SubLock) → f p (other s) ≡ 0 → cleared f p q r ≡ at f p s 0 q r
cleared-at f p q reader_lock reader_lock h = ground arith
cleared-at f p q writer_lock writer_lock h = ground arith
cleared-at f p q reader_lock writer_lock h =
    ground (arith, table_same f p q writer_lock writer_lock)
cleared-at f p q writer_lock reader_lock h =
    ground (arith, table_same f p q reader_lock reader_lock)

lt_true : (n : ℕ) → 0 < n → ltb 0 n ≡ true
lt_true n h = ground arith

not_readers : (l : RwLock) → only_writers l ≡ true → only_readers l ≡ false
not_readers l h = ground arith

module _ (p : ℕ) (b : LockClass) (c : ℤ) where
  drain-Sync :
      (s t : SubLock) (f g h : Table) (m : LockManager)
      → has_sub_lock b s ≡ true
      → has_sub_lock b t ≡ true
      → SyncAs p b c f g h m
      → (n : LockManager) × (drain p s t m ≡ ok n) × SyncAs p b c f (cleared g p) (at h p s 0) n
  unfolding drain
  drain-Sync s t f g h m hs ht v =
      elim (Bool-cases (int_eq (drained (pos (count_of l s)) l.last_n_pos) (pos 0))) [
        | inl e ↦ (set_lock p l' m, rw e, w)
        | inr e ↦
            let (n, q, w') =
              report-Sync p b c t ht f (cleared g p) (at h p s 0) inconsistent_count
                (set_lock p l' m) w in
            (n, rw e q, w')
      ]
    where
      l : RwLock
      l = m.heap p

      l' : RwLock
      l' = set_count (record l { last_n_pos = [] }) s 0

      no_position : (r : SubLock) → held_at r l'.last_n_pos ≡ cleared g p p r
      no_position r = rw last_n_pos-set_count (cleared_here g p r)

      w : SyncAs p b c f (cleared g p) (at h p s 0) (set_lock p l' m)
      w =
          set_lock-Sync p b c f g h (cleared g p) (at h p s 0) l' m
            (set_lock-Kept p b l' m (set_count-class p b _ s 0 ∙ v.1)
              (Sided-set_count b (record l { last_n_pos = [] }) s 0 hs
                (Kept-Sided p b m (kept p b c v)))
              (kept p b c v))
            no_position
            (λ r.
              set_here h p s r (record l { last_n_pos = [] }) 0 0 refl
                (count_of-positions l [] r ∙ v.0.counted p r))
            (λ q r d. (cleared_away g p q r d, at_away h p q s r 0 d)) v

  -- Emptying the side `s`, the other one being empty.
  flush-Sync :
      (s t : SubLock) (f : Table) (ts : ℕ) (m : LockManager)
      → has_sub_lock b s ≡ true
      → has_sub_lock b t ≡ true
      → 0 < f p s
      → f p (other s) ≡ 0
      → ((ks : List Key)
          → ((q : ℕ) (r : SubLock) → count_key q r ks ≡ f q r)
          → (q : ℕ) (r : SubLock) → count_key q r (close_key p s true ks) ≡ at f p s 0 q r)
      → SyncAs p b c f f f m
      → (n : LockManager) × (flush p s t ts c m ≡ ok n)
        × SyncAs p b c (at f p s 0) (at f p s 0) (at f p s 0) n
  unfolding flush
  flush-Sync s t f ts m hs ht held none closes v =
      let (n, e, w) = finish_txn-Sync p b c s hs f (at f p s 0) f f ts true c m closes v in
      let (k, q, u) = drain-Sync s t (at f p s 0) f f n hs ht w in
      (
        k,
        rw (e, lt_true (f p s) held) q,
        retable p b c (at f p s 0) (cleared f p) (at f p s 0) (at f p s 0) (at f p s 0) (at f p s 0)
            k (λ q r. refl) (λ q r. cleared-at f p q s r none) (λ q r. refl) u,
      )

  one_side :
      (f : Table) (m : LockManager)
      → SyncAs p b c f f f m
      → (f p reader_lock ≡ 0) ⊎ (f p writer_lock ≡ 0)
      → both_sides (m.heap p) ≡ false
  one_side f m v x = ground (arith, v.0.counted p reader_lock, v.0.counted p writer_lock)

  recursive_of :
      (f : Table) (m : LockManager)
      → SyncAs p b c f f f m
      → (f p writer_lock ≡ 0) ⊎ (is_recursive (m.heap p) ≡ true)
      → only_writers (m.heap p) ≡ true
      → is_recursive (m.heap p) ≡ true
  recursive_of f m v o w = ground (arith, v.0.counted p writer_lock)

  unread :
      (f : Table) (m : LockManager)
      → SyncAs p b c f f f m
      → (f p reader_lock ≡ 0) ⊎ (f p writer_lock ≡ 0)
      → only_readers (m.heap p) ≡ false
      → (q : ℕ) (r : SubLock) → f q r ≡ at f p reader_lock 0 q r
  unread f m v x e q r =
      ground (
        arith,
        v.0.counted p reader_lock,
        v.0.counted p writer_lock,
        table_same f p q reader_lock r,
      )

  unwritten :
      (f : Table) (m : LockManager)
      → SyncAs p b c f f f m
      → (f p reader_lock ≡ 0) ⊎ (f p writer_lock ≡ 0)
      → only_writers (m.heap p) ≡ false
      → (q : ℕ) (r : SubLock) → f q r ≡ at f p writer_lock 0 q r
  unwritten f m v x e q r =
      ground (
        arith,
        v.0.counted p reader_lock,
        v.0.counted p writer_lock,
        table_same f p q writer_lock r,
      )

  pub before_write-Sync :
      (f : Table) (ts : ℕ) (m : LockManager)
      → has_sub_lock b writer_lock ≡ true
      → (0 < f p reader_lock → has_sub_lock b reader_lock ≡ true)
      → (f p reader_lock ≡ 0) ⊎ (f p writer_lock ≡ 0)
      → (f p writer_lock ≡ 0) ⊎ (is_recursive (m.heap p) ≡ true)
      → SyncAs p b c f f f m
      → (n : LockManager) × (before_write p ts c m ≡ ok n)
        × SyncAs p b c (at f p reader_lock 0) (at f p reader_lock 0) (at f p reader_lock 0) n
  unfolding before_write
  before_write-Sync f ts m hw hr x o v = elim (Bool-cases (only_readers (m.heap p))) [
    | inl e ↦
        let readers = v.0.counted p reader_lock in
        let writers = v.0.counted p writer_lock in
        let (n, q, w) = report-Sync p b c writer_lock hw f f f read_side_held m v in
        let (k, u, z) =
          flush-Sync reader_lock writer_lock f ts n (hr (ground arith)) hw (ground arith)
            (ground arith)
            (λ ks h q r.
              count_key-flush_readers p q r ks (rw (h p reader_lock) (ground arith))
              ∙ ground (arith, h q r))
            w in
        (k, rw (e, q) u, z)
    | inr e ↦ (
      m,
      elim (Bool-cases (only_writers (m.heap p))) [
        | inl w ↦ rw (e, w, recursive_of f m v o w)
        | inr w ↦ rw (e, w, one_side f m v x)
      ],
      retable p b c f f f _ _ _ m (unread f m v x e) (unread f m v x e) (unread f m v x e) v,
    )
  ]

  pub before_read-Sync :
      (f : Table) (ts : ℕ) (m : LockManager)
      → has_sub_lock b reader_lock ≡ true
      → (0 < f p writer_lock → has_sub_lock b writer_lock ≡ true)
      → (f p reader_lock ≡ 0) ⊎ (f p writer_lock ≡ 0)
      → f p writer_lock ≤ 1
      → SyncAs p b c f f f m
      → (n : LockManager) × (before_read p ts c m ≡ ok n)
        × SyncAs p b c (at f p writer_lock 0) (at f p writer_lock 0) (at f p writer_lock 0) n
  unfolding before_read
  before_read-Sync f ts m hr hw x o v = elim (Bool-cases (only_writers (m.heap p))) [
    | inl e ↦
        let readers = v.0.counted p reader_lock in
        let writers = v.0.counted p writer_lock in
        let (n, q, w) = report-Sync p b c reader_lock hr f f f write_side_held m v in
        let (k, u, z) =
          flush-Sync writer_lock reader_lock f ts n (hw (ground arith)) hr (ground arith)
            (ground arith)
            (λ ks h q r.
              count_key-flush_writer p q r ks (h p writer_lock ∙ ground arith)
                (h p reader_lock ∙ ground arith)
              ∙ ground (arith, h q r))
            w in
        (k, rw (not_readers (m.heap p) e, e, q) u, z)
    | inr e ↦ (
      m,
      elim (Bool-cases (only_readers (m.heap p))) [
        | inl w ↦ rw w
        | inr w ↦ rw (w, e, one_side f m v x)
      ],
      retable p b c f f f _ _ _ m (unwritten f m v x e) (unwritten f m v x e) (unwritten f m v x e)
          v,
    )
  ]
