-- ===== src/Convert/Driver/Cases.antt =====
-- How handlePV may end, for statements about what it leaves alone.
use lockdoc_tools.Common.{
  ℕ, Text, List, ◌++◌, Option, Bool-cases, Option-cases, inl, inr, some, ◌≡◌,
}
use lockdoc_tools.Convert.Result.{Error, Result, ok, err}
use lockdoc_tools.Convert.Lock.{LockRow, write_lock}
use lockdoc_tools.Convert.Manager.{LockManager, find_lock}
use lockdoc_tools.Convert.Locks.{alloc_lock}
use lockdoc_tools.Convert.Transition.{transition}
use lockdoc_tools.Convert.Driver.{
  Config, Converter, LockEvent, Outcome, proceed, crash, apply_op, create_lock, handle_pv, locate,
  is_release, place_of, new_lock,
}

module _ (P : Outcome → Type 0) (g : Config) (e : LockEvent) where
  -- handlePV passes the operation to a lock that is known, ignores the event, or makes a lock.
  pub handle_pv_ind :
      (s : Converter)
      → ((p : ℕ) → find_lock s.lock_manager e.lock_address ≡ some p → P (apply_op g e p s))
      → P (proceed s)
      → ((home : ℕ × Option Text) → P (create_lock g e home s))
      → P (handle_pv g e s)
  unfolding handle_pv
  handle_pv_ind s known ignored fresh =
      elim (Option-cases (find_lock s.lock_manager e.lock_address)) [
        | inr (p, f) ↦ rw (f, handle_pv) (known p f)
        | inl f ↦ elim (Option-cases (locate g e s.active_allocs)) [
          | inl l ↦ rw (f, l, handle_pv) ignored
          | inr (home, l) ↦ elim (Bool-cases (is_release e.lock_op)) [
            | inl r ↦ rw (f, l, r, handle_pv) ignored
            | inr r ↦ rw (f, l, r, handle_pv) (fresh home)
          ]
        ]
      ]

  -- The lock manager and the file of locks may change in any way.
  abbrev Elsewhere : Converter → Type 0
  Elsewhere s =
      (m : LockManager) (rows : List LockRow)
      → P (proceed (record s { lock_manager = m; locks_o_file = rows }))

  apply_op_elsewhere :
      (p : ℕ) (s : Converter) → Elsewhere s → ((x : Error) → P (crash x)) → P (apply_op g e p s)
  unfolding apply_op
  apply_op_elsewhere p s h k = go (transition p e.lock_op (place_of g e) s.lock_manager)
    where
      go :
          (r : Result LockManager)
          → P (elim r [ ok m ↦ proceed (record s { lock_manager = m }) | err x ↦ crash x ])
      go (ok m) = h m s.locks_o_file
      go (err x) = k x

  create_lock_elsewhere :
      (home : ℕ × Option Text) (s : Converter)
      → Elsewhere s
      → ((x : Error) → P (crash x))
      → P (create_lock g e home s)
  unfolding create_lock
  create_lock_elsewhere home s h k = go (alloc_lock (new_lock g e home) s.lock_manager)
    where
      go :
          (r : Result (ℕ × LockManager))
          → P (elim r [
            | ok (p, m) ↦ apply_op g e p (record s {
              lock_manager = m;
              locks_o_file = s.locks_o_file ++ write_lock (m.heap p);
            })
            | err x ↦ crash x
          ])
      go (ok (p, m)) =
          apply_op_elsewhere p
            (record s { lock_manager = m; locks_o_file = s.locks_o_file ++ write_lock (m.heap p) })
            (λ n rows. h n rows) k
      go (err x) = k x

  -- handlePV changes nothing else.
  pub handle_pv_elsewhere :
      (s : Converter) → Elsewhere s → ((x : Error) → P (crash x)) → P (handle_pv g e s)
  handle_pv_elsewhere s h k =
      handle_pv_ind s (λ p f. apply_op_elsewhere p s h k) (h s.lock_manager s.locks_o_file)
        (λ home. create_lock_elsewhere home s h k)
