-- ===== src/Convert/Transition/Refine.antt =====
-- The transitions of one context and the operations on a table of held sides.
use lockdoc_tools.Common.{ℕ, suc, ◌-◌, ◌%◌, ◌≤◌, ◌<◌, ◌≡◌, refl, ◌∙◌, true, arith, ℤ, ◌⊎◌, inl, inr}
use lockdoc_tools.Convert.Result.{Result, ok}
use lockdoc_tools.Convert.Lock.{
  LockOp, p_read, p_write, v_read, v_write, LockClass, rw_lock, r_lock, w_lock, SubLock,
  reader_lock, writer_lock, RwLock, has_sub_lock, count_of, is_recursive,
}
use lockdoc_tools.Convert.Manager.{LockManager}
use lockdoc_tools.Convert.Invariant.{Sided-read, Sided-write}
use lockdoc_tools.Convert.Transition.{
  Place, take, update_flags, write_transition, read_transition, rw_transition, transition, dispatch,
}
use lockdoc_tools.Convert.Transition.Kept.{set_lock-Kept, Kept-Sided}
use lockdoc_tools.Convert.Transition.Counts.{at, other}
use lockdoc_tools.Convert.Transition.Sync.{
  Table, Sync, SyncAs, kept, retable, set_lock-Sync, table_same,
}
use lockdoc_tools.Convert.Transition.Moves.{take-Sync}
use lockdoc_tools.Convert.Transition.Acquire.{before_write-Sync, before_read-Sync}
use lockdoc_tools.Convert.Transition.Release.{release-Sync}

-- A lock is held on one side at most.
abbrev pub Exclusive : Table → Type 0
Exclusive f = (q : ℕ) → (f q reader_lock ≡ 0) ⊎ (f q writer_lock ≡ 0)

-- The meaning of the operations: P takes the side once more and frees the other one, V gives the
-- side back once.
abbrev pub next : LockOp → ℕ → Table → Table
next p_read p f = at (at f p writer_lock 0) p reader_lock (suc (f p reader_lock))
next p_write p f = at (at f p reader_lock 0) p writer_lock (suc (f p writer_lock))
next v_read p f = at f p reader_lock (f p reader_lock - 1)
next v_write p f = at f p writer_lock (f p writer_lock - 1)

next-Exclusive : (op : LockOp) (p : ℕ) (f : Table) → Exclusive f → Exclusive (next op p f)
next-Exclusive p_read p f x q = ground (arith, x q)
next-Exclusive p_write p f x q = ground (arith, x q)
next-Exclusive v_read p f x q = ground (arith, x q, table_same f p q reader_lock reader_lock)
next-Exclusive v_write p f x q = ground (arith, x q, table_same f p q writer_lock writer_lock)

-- The side that an operation is about.
abbrev pub side : LockOp → SubLock
side p_read = reader_lock
side v_read = reader_lock
side p_write = writer_lock
side v_write = writer_lock

-- P_WRITE is on a lock that no writer holds, or that is recursive; P_READ is on one that a writer
-- holds once at most.
abbrev pub Orderly : LockOp → ℕ → Place → Table → Type 0
Orderly p_read p e f = f p writer_lock ≤ 1
Orderly p_write p e f = (f p writer_lock ≡ 0) ⊎ (e.flags % 2 ≡ 1)
Orderly v_read p e f = Unit
Orderly v_write p e f = Unit

-- The stack of the context, the positions and the counts all say what the table says, and no lock
-- is held on both sides.
abbrev pub InSync : ℤ → Table → LockManager → Type 0
InSync c f m = Sync c f f f m × Exclusive f

count_of-flags :
    (l : RwLock) (v : ℕ) (r : SubLock) → count_of (record l { flags = v }) r ≡ count_of l r
count_of-flags l v reader_lock = refl
count_of-flags l v writer_lock = refl

swap {ℓ} : {A B : Type ℓ} → A ⊎ B → B ⊎ A
swap (inl a) = inr a
swap (inr b) = inl b

twice_at :
    (f : Table) (p q : ℕ) (s r : SubLock)
    → at (at f p (other s) 0) p s (suc (at f p (other s) 0 p s)) q r
      ≡ at (at f p (other s) 0) p s (suc (f p s)) q r
twice_at f p q reader_lock r = ground arith
twice_at f p q writer_lock r = ground arith

module _ (f : Table) (p : ℕ) (e : Place) (m : LockManager) (x : Exclusive f) where
  -- A state of the table after the operation.
  abbrev Reaches : LockOp → LockClass → Result LockManager → Type 0
  Reaches op b r =
      (n : LockManager) × (r ≡ ok n) × SyncAs p b e.ctx (next op p f) (next op p f) (next op p f) n

  flagged-Sync :
      (b : LockClass) → SyncAs p b e.ctx f f f m → SyncAs p b e.ctx f f f (update_flags p e.flags m)
  unfolding update_flags
  flagged-Sync b v =
      let l = record (m.heap p) { flags = e.flags } in
      set_lock-Sync p b e.ctx f f f f f l m
        (set_lock-Kept p b l m v.1 (Kept-Sided p b m (kept p b e.ctx v)) (kept p b e.ctx v))
        (v.0.placed p) (λ r. count_of-flags (m.heap p) e.flags r ∙ v.0.counted p r)
        (λ q r d. (refl, refl)) v

  recursive_now :
      (f p writer_lock ≡ 0) ⊎ (e.flags % 2 ≡ 1)
      → (f p writer_lock ≡ 0) ⊎ (is_recursive ((update_flags p e.flags m).heap p) ≡ true)
  unfolding update_flags
  recursive_now o = ground arith

  has_reader :
      (b : LockClass)
      → SyncAs p b e.ctx f f f m
      → 0 < f p reader_lock
      → has_sub_lock b reader_lock ≡ true
  has_reader b v h =
      Sided-read b (m.heap p) (Kept-Sided p b m (kept p b e.ctx v))
        (omega (arith, v.0.counted p reader_lock))

  has_writer :
      (b : LockClass)
      → SyncAs p b e.ctx f f f m
      → 0 < f p writer_lock
      → has_sub_lock b writer_lock ≡ true
  has_writer b v h =
      Sided-write b (m.heap p) (Kept-Sided p b m (kept p b e.ctx v))
        (omega (arith, v.0.counted p writer_lock))

  -- Taking a side after the other one was emptied.
  take-Reaches :
      (b : LockClass) (s : SubLock) (n : LockManager)
      → has_sub_lock b s ≡ true
      → SyncAs p b e.ctx (at f p (other s) 0) (at f p (other s) 0) (at f p (other s) 0) n
      → (let g = at (at f p (other s) 0) p s (suc (f p s)) in SyncAs p b e.ctx g g g (take p s e n))
  take-Reaches b s n has v =
      let g = at f p (other s) 0 in
      let same = λ (q : ℕ) (r : SubLock). twice_at f p q s r in
      retable p b e.ctx _ _ _ _ _ _ (take p s e n) same same same
        (take-Sync p b e.ctx s has g g g e n refl v)

  write-Reaches :
      (b : LockClass) (op : LockOp)
      → has_sub_lock b writer_lock ≡ true
      → side op ≡ writer_lock
      → Orderly op p e f
      → SyncAs p b e.ctx f f f m
      → Reaches op b (write_transition p op e m)
  unfolding write_transition
  write-Reaches b p_write has s o v =
      let (n, q, u) =
        before_write-Sync p b e.ctx f e.ts (update_flags p e.flags m) has (has_reader b v) (x p)
          (recursive_now o) (flagged-Sync b v) in
      (take p writer_lock e n, rw q, take-Reaches b writer_lock n has u)
  write-Reaches b v_write has s o v =
      (release-Sync p b e.ctx writer_lock has f e.ts (update_flags p e.flags m) (swap (x p))
        (flagged-Sync b v))
  write-Reaches b p_read has s o v = cc
  write-Reaches b v_read has s o v = cc

  read-Reaches :
      (b : LockClass) (op : LockOp)
      → has_sub_lock b reader_lock ≡ true
      → side op ≡ reader_lock
      → Orderly op p e f
      → SyncAs p b e.ctx f f f m
      → Reaches op b (read_transition p op e m)
  unfolding read_transition
  read-Reaches b p_read has s o v =
      let (n, q, u) =
        before_read-Sync p b e.ctx f e.ts (update_flags p e.flags m) has (has_writer b v) (x p) o
          (flagged-Sync b v) in
      (take p reader_lock e n, rw q, take-Reaches b reader_lock n has u)
  read-Reaches b v_read has s o v =
      (release-Sync p b e.ctx reader_lock has f e.ts (update_flags p e.flags m) (x p)
        (flagged-Sync b v))
  read-Reaches b p_write has s o v = cc
  read-Reaches b v_write has s o v = cc

  dispatch-Reaches :
      (b : LockClass) (op : LockOp)
      → has_sub_lock b (side op) ≡ true
      → Orderly op p e f
      → SyncAs p b e.ctx f f f m
      → Reaches op b (dispatch b p op e m)
  unfolding dispatch rw_transition
  dispatch-Reaches rw_lock p_write has o v = write-Reaches rw_lock p_write has refl o v
  dispatch-Reaches rw_lock v_write has o v = write-Reaches rw_lock v_write has refl o v
  dispatch-Reaches rw_lock p_read has o v = read-Reaches rw_lock p_read has refl o v
  dispatch-Reaches rw_lock v_read has o v = read-Reaches rw_lock v_read has refl o v
  dispatch-Reaches w_lock p_write has o v = write-Reaches w_lock p_write has refl o v
  dispatch-Reaches w_lock v_write has o v = write-Reaches w_lock v_write has refl o v
  dispatch-Reaches w_lock p_read has o v = cc
  dispatch-Reaches w_lock v_read has o v = cc
  dispatch-Reaches r_lock p_read has o v = read-Reaches r_lock p_read has refl o v
  dispatch-Reaches r_lock v_read has o v = read-Reaches r_lock v_read has refl o v
  dispatch-Reaches r_lock p_write has o v = cc
  dispatch-Reaches r_lock v_write has o v = cc

-- Where only the context of the operation has TXNs, its stack, the lock positions and the counters
-- agree, and no lock is held on both sides: an orderly operation on a side of a lock that has been made and that has the side returns
-- without an error, and leaves stack, positions and counters in agreement on the operation's
-- meaning, with no lock held on both sides.
pub transition-refines :
    (f : Table) (p : ℕ) (op : LockOp) (e : Place) (m : LockManager)
    → InSync e.ctx f m
    → p < m.next_object
    → has_sub_lock (m.heap p).class (side op) ≡ true
    → Orderly op p e f
    → (n : LockManager) × (transition p op e m ≡ ok n) × InSync e.ctx (next op p f) n
unfolding transition
transition-refines f p op e m v made has o =
    let (n, q, w) = dispatch-Reaches f p e m v.1 (m.heap p).class op has o (v.0, refl, made) in
    (n, q, (w.0, next-Exclusive op p f v.1))
