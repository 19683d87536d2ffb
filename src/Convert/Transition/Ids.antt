-- ===== src/Convert/Transition/Ids.antt =====
-- Transitions and the well-formedness of the manager.
use lockdoc_tools.Common.{ℕ, ◌≡◌, ◌≢◌, ◌<◌, refl, true, false, List, [], ◌∷◌, arith, ℤ, ◌∙◌}
use lockdoc_tools.Convert.Result.{invalid_op, invalid_state, invalid_sub_lock}
use lockdoc_tools.Convert.Lock.{
  LockOp, p_read, p_write, v_read, v_write, SubLock, reader_lock, writer_lock, LockClass, rw_lock,
  r_lock, w_lock, LockPos, has_sub_lock, set_count, is_recursive,
}
use lockdoc_tools.Convert.Manager.{
  LockManager, report, no_running_txn, cannot_pop, cannot_flush, inconsistent_count, read_side_held,
  write_side_held, already_held,
}
use lockdoc_tools.Convert.Invariant.{WellFormed, Sided-set_count, Sided-read, Sided-write}
use lockdoc_tools.Convert.Transition.{
  Place, update_flags, drain, flush, before_write, before_read, only_readers, only_writers,
  both_sides, close_held, owner, note_owner, release_txn, release, write_transition,
  read_transition, dispatch, transition,
}
use lockdoc_tools.Convert.Transition.Kept.{
  Kept, Keeps, done, failed, Keeps->>=, Keeps-if, set_lock-Kept, Kept-Sided, pop_pos-Keeps,
  set_count-class, report-Keeps, finish_txn-Keeps, take-Kept, lower_count-Keeps,
}

state_ne : invalid_state ≢ invalid_sub_lock
state_ne e = cc

op_ne : invalid_op ≢ invalid_sub_lock
op_ne e = cc

module _ (p : ℕ) (c : LockClass) where
  module _ (s : SubLock) (has : has_sub_lock c s ≡ true) where
    note_owner-Keeps : (ctx : ℤ) (m : LockManager) → Kept p c m → Keeps p c (note_owner p s ctx m)
    unfolding note_owner
    note_owner-Keeps ctx m k =
        Keeps-if _ (λ _. report-Keeps p c s has no_running_txn m k) (λ _. done k)

    release_txn-Keeps :
        (ts : ℕ) (ctx : ℤ) (m : LockManager) → Kept p c m → Keeps p c (release_txn p s ts ctx m)
    unfolding release_txn
    release_txn-Keeps ts ctx m k = Keeps->>= (note_owner-Keeps ctx m k) λ n kn.
        finish_txn-Keeps p c s has ts false (owner p s ctx m) ctx n _ kn
          λ b r kr. Keeps-if b (λ _. pop_pos-Keeps p c r kr) (λ _. done kr)

    release-Keeps :
        (ts : ℕ) (ctx : ℤ) (m : LockManager) → Kept p c m → Keeps p c (release p s ts ctx m)
    unfolding release
    release-Keeps ts ctx m k =
        Keeps->>= (held ((m.heap p).last_n_pos)) (lower_count-Keeps p c s has)
      where
        held :
            (ps : List LockPos)
            → Keeps p c
                (elim ps [ [] ↦ report p s cannot_pop m | x ∷ xs ↦ release_txn p s ts ctx m ])
        held [] = report-Keeps p c s has cannot_pop m k
        held (x ∷ xs) = release_txn-Keeps ts ctx m k

    drain-Keeps :
        (t : SubLock) (m : LockManager)
        → has_sub_lock c t ≡ true
        → Kept p c m
        → Keeps p c (drain p t s m)
    unfolding drain
    drain-Keeps t m ht k =
        let l = m.heap p in
        let k' =
          set_lock-Kept p c (set_count (record l { last_n_pos = [] }) t 0) m
            (set_count-class p c _ t 0 ∙ k.1)
            (Sided-set_count c (record l { last_n_pos = [] }) t 0 ht (Kept-Sided p c m k)) k in
        Keeps-if _ (λ _. done k') λ _. report-Keeps p c s has inconsistent_count _ k'

  flush-Keeps :
      (s side : SubLock) (ts : ℕ) (ctx : ℤ) (m : LockManager)
      → has_sub_lock c s ≡ true
      → has_sub_lock c side ≡ true
      → Kept p c m
      → Keeps p c (flush p s side ts ctx m)
  unfolding flush
  flush-Keeps s side ts ctx m has has' k =
      finish_txn-Keeps p c s has ts true ctx ctx m _ k λ b n kn.
        Keeps-if b (λ _. drain-Keeps side has' s n has kn)
          λ _. report-Keeps p c side has' cannot_flush n kn

  close_held-Keeps :
      (ts : ℕ) (ctx : ℤ) (m : LockManager)
      → has_sub_lock c writer_lock ≡ true
      → Kept p c m
      → Keeps p c (close_held p ts ctx m)
  unfolding close_held
  close_held-Keeps ts ctx m has k =
      Keeps->>= (report-Keeps p c writer_lock has already_held m k) λ n kn.
        finish_txn-Keeps p c writer_lock has ts false ctx ctx n _ kn
          λ b q kq. Keeps-if b (λ _. pop_pos-Keeps p c q kq) (λ _. done kq)

  before_write-Keeps :
      (ts : ℕ) (ctx : ℤ) (m : LockManager)
      → has_sub_lock c writer_lock ≡ true
      → Kept p c m
      → Keeps p c (before_write p ts ctx m)
  unfolding before_write
  before_write-Keeps ts ctx m has k =
      let l = m.heap p in
      Keeps-if (only_readers l)
        (λ e. Keeps->>= (report-Keeps p c writer_lock has read_side_held m k) λ n kn.
          flush-Keeps reader_lock writer_lock ts ctx n
            (Sided-read c l (Kept-Sided p c m k) (ground arith)) has kn)
        λ _.
          Keeps-if (only_writers l)
            (λ _. Keeps-if (is_recursive l) (λ _. done k) (λ _. close_held-Keeps ts ctx m has k))
            λ _. Keeps-if (both_sides l) (λ _. failed state_ne) (λ _. done k)

  before_read-Keeps :
      (ts : ℕ) (ctx : ℤ) (m : LockManager)
      → has_sub_lock c reader_lock ≡ true
      → Kept p c m
      → Keeps p c (before_read p ts ctx m)
  unfolding before_read
  before_read-Keeps ts ctx m has k =
      let l = m.heap p in
      Keeps-if (only_readers l) (λ _. done k)
        λ _.
          Keeps-if (only_writers l)
            (λ e. Keeps->>= (report-Keeps p c reader_lock has write_side_held m k) λ n kn.
              flush-Keeps writer_lock reader_lock ts ctx n
                (Sided-write c l (Kept-Sided p c m k) (ground arith)) has kn)
            λ _. Keeps-if (both_sides l) (λ _. failed state_ne) (λ _. done k)

  module _ (e : Place) (m : LockManager) (k : Kept p c m) where
    flagged : Kept p c (update_flags p e.flags m)
    unfolding update_flags
    flagged = set_lock-Kept p c (record (m.heap p) { flags = e.flags }) m k.1 (Kept-Sided p c m k) k

    write_transition-Keeps :
        (op : LockOp) → has_sub_lock c writer_lock ≡ true → Keeps p c (write_transition p op e m)
    unfolding write_transition
    write_transition-Keeps p_write has =
        Keeps->>= (before_write-Keeps e.ts e.ctx _ has flagged)
          λ n kn. done (take-Kept p c writer_lock has e n kn)
    write_transition-Keeps v_write has = release-Keeps writer_lock has e.ts e.ctx _ flagged
    write_transition-Keeps p_read has = failed op_ne
    write_transition-Keeps v_read has = failed op_ne

    read_transition-Keeps :
        (op : LockOp) → has_sub_lock c reader_lock ≡ true → Keeps p c (read_transition p op e m)
    unfolding read_transition
    read_transition-Keeps p_read has =
        Keeps->>= (before_read-Keeps e.ts e.ctx _ has flagged)
          λ n kn. done (take-Kept p c reader_lock has e n kn)
    read_transition-Keeps v_read has = release-Keeps reader_lock has e.ts e.ctx _ flagged
    read_transition-Keeps p_write has = failed op_ne
    read_transition-Keeps v_write has = failed op_ne

module _ (p : ℕ) (e : Place) (m : LockManager) where
  dispatch-Keeps : (c : LockClass) (op : LockOp) → Kept p c m → Keeps p c (dispatch c p op e m)
  unfolding dispatch
  dispatch-Keeps rw_lock p_write k = write_transition-Keeps p rw_lock e m k p_write refl
  dispatch-Keeps rw_lock v_write k = write_transition-Keeps p rw_lock e m k v_write refl
  dispatch-Keeps rw_lock p_read k = read_transition-Keeps p rw_lock e m k p_read refl
  dispatch-Keeps rw_lock v_read k = read_transition-Keeps p rw_lock e m k v_read refl
  dispatch-Keeps r_lock op k = read_transition-Keeps p r_lock e m k op refl
  dispatch-Keeps w_lock op k = write_transition-Keeps p w_lock e m k op refl

-- Every transition of a lock that has been made, in a well-formed state, ends well formed, with the
-- lock's class kept, or in an error other than the refused id of a missing sub lock.
pub transition-Keeps :
    (p : ℕ) (op : LockOp) (e : Place) (m : LockManager)
    → WellFormed m
    → p < m.next_object
    → Keeps p (m.heap p).class (transition p op e m)
unfolding transition
transition-Keeps p op e m v made = dispatch-Keeps p e m (m.heap p).class op (v, refl, made)
