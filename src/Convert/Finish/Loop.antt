-- ===== src/Convert/Finish/Loop.antt =====
-- The loop of finishTXN: its end, and what it leaves on the stack and in txns.csv.
use lockdoc_tools.Common.{
  ℕ, ◌+◌, ◌≤◌, ◌≡◌, refl, ap, ◌∙◌, Bool, true, false, List, [], ◌∷◌, ◌++◌, append-nil, append_assoc,
  arith, if◌then◌else◌, ℤ, Bool-cases, inl, inr, count, count-append, subst,
}
use lockdoc_tools.Convert.Result.{ok}
use lockdoc_tools.Convert.Lock.{SubLock, RwLock}
use lockdoc_tools.Convert.Manager.{Txn, set_stack, LockManager, say, is_of, any_of, no_matching_txn}
use lockdoc_tools.Convert.Manager.Stacks.{weigh}
use lockdoc_tools.Convert.Manager.Legal.{HasSubLock, IsLegal, Legal, report-ok, message_of}
use lockdoc_tools.Convert.Finish.{record_txn, mismatch, finish_loop, found_txn, renew}
use lockdoc_tools.Convert.Finish.Steps.{
  SameState, row_ids, recorded_id, record_txn-ok, without_readers, remove_readers-ok, mismatch-ok,
}
use lockdoc_tools.Convert.Finish.Keys.{
  keys, close_key, keys-without_readers, has_id, without_readers-Legal, weigh-without_readers,
  count-recorded_id, SameLocks, Ids, between-step, between, recorded_le,
}

module _ (p : ℕ) (s : SubLock) (ts : ℕ) (rr : Bool) (ctx ctx_old : ℤ) where
  pub record Finished (restart stack : List Txn) (m n : LockManager) (left : List Txn)
      : Type 0 where
    pub returns : finish_loop p s ts rr ctx ctx_old restart stack m ≡ ok (any_of p s stack, n)
    pub stacks : n.active_txns ≡ set_stack m.active_txns ctx (restart ++ left)
    pub same : SameLocks m n
    pub shape : keys left ≡ close_key p s rr (keys stack)
    pub legal : Legal m.heap left
    pub ids : Ids m n stack left

  not_found : List Txn → LockManager → LockManager
  not_found restart m = record (say (message_of (m.heap p) s no_matching_txn) m) {
    active_txns = set_stack m.active_txns ctx restart;
  }

  finish_nothing :
      (restart : List Txn) (m : LockManager)
      → HasSubLock (m.heap p) s
      → Finished restart [] m (not_found restart m) []
  unfolding finish_loop not_found
  finish_nothing restart m hs = record {
    returns = rw (report-ok p s no_matching_txn m hs);
    stacks = rw (append-nil restart);
    same = ground arith;
    shape = refl;
    legal = tt;
    ids = record { grows = omega arith; split = λ i. omega arith };
  }

  -- What is left below a TXN that is found.
  abbrev left_below : List Txn → List Txn
  left_below ts = if rr then without_readers p ts else ts

  found_txn-ok :
      (restart below : List Txn) (m : LockManager)
      → Legal m.heap below
      → (n : LockManager) × (found_txn p s ts rr ctx ctx_old restart below m ≡ ok (true, n))
        × (n.active_txns ≡ set_stack m.active_txns ctx (restart ++ left_below below))
        × SameLocks m n
        × (n.next_txn_id ≡ m.next_txn_id)
        × (n.txns_o_file ≡ m.txns_o_file)
  unfolding found_txn
  found_txn-ok restart below m l = elim (Bool-cases rr) [
    | inl e ↦
        let (ms, f) = remove_readers-ok p m.heap below l in
        (
          say ms (record m {
            active_txns = set_stack m.active_txns ctx (restart ++ without_readers p below);
          }),
          rw (e, f),
          rw e,
          ground arith,
          refl,
          refl,
        )
    | inr e ↦ (
      say [] (record m { active_txns = set_stack m.active_txns ctx (restart ++ below) }),
      rw e,
      rw e,
      ground arith,
      refl,
      refl,
    )
  ]

  keys-left_below :
      (t : Txn) (below : List Txn)
      → is_of p s t ≡ true
      → keys (left_below below) ≡ close_key p s rr (keys (t ∷ below))
  keys-left_below t below e = ground (arith, keys-without_readers p below)

  left_below-Legal :
      (h : ℕ → RwLock) (below : List Txn) → Legal h below → Legal h (left_below below)
  left_below-Legal h below l = ground (arith, without_readers-Legal h p below l)

  weigh-left_below : (w : Txn → ℕ) (below : List Txn) → weigh w (left_below below) ≤ weigh w below
  weigh-left_below w below = ground (arith, weigh-without_readers w p below)

  finish_found :
      (restart : List Txn) (t : Txn) (below : List Txn) (m : LockManager)
      → Legal m.heap (t ∷ below)
      → is_of p s t ≡ true
      → (n : LockManager) × Finished restart (t ∷ below) m n (left_below below)
  unfolding finish_loop
  finish_found restart t below m l e =
      let (m1, e1, same1, rows1) = record_txn-ok ts ctx_old t below m l in
      let (n, e2, st, same2, next2, rows2) = found_txn-ok restart below m1 (rw same1.heap l.1) in
      (
        n,
        record {
          returns = rw (e1, e, e2);
          stacks = rw (st, same1.stacks);
          same = ground arith;
          shape = keys-left_below t below e;
          legal = left_below-Legal m.heap below l.1;
          ids = record {
            grows = omega (arith, next2, same1.txn_id);
            split = λ i.
                rw (rows2, rows1, count-append)
                  (omega (arith, count-recorded_id i t, weigh-left_below (has_id i) below));
          };
        },
      )

  -- One more TXN is restarted under the next id, and the loop goes on below it.
  finish_passed :
      (restart : List Txn) (t : Txn) (below : List Txn) (m m1 m2 n : LockManager) (left : List Txn)
      → record_txn ts ctx_old t below m ≡ ok m1
      → SameState m m1
      → row_ids m1.txns_o_file ≡ row_ids m.txns_o_file ++ recorded_id t
      → mismatch p t m1 ≡ ok m2
      → SameState m1 m2
      → m2.txns_o_file ≡ m1.txns_o_file
      → IsLegal m.heap t
      → is_of p s t ≡ false
      → Finished
          (restart ++ renew m2.next_txn_id ts ctx t ∷ [])
          below
          (record m2 { next_txn_id = m2.next_txn_id + 1 })
          n
          left
      → Finished restart (t ∷ below) m n (renew m2.next_txn_id ts ctx t ∷ left)
  unfolding finish_loop renew
  finish_passed restart t below m m1 m2 n left e1 same1 rows1 e2 same2 rows2 lt e f = record {
    returns = rw (e1, e, e2) f.returns;
    stacks =
        f.stacks
        ∙ rw (same2.stacks, same1.stacks)
            (ap (set_stack m.active_txns ctx) (append_assoc restart (renewed ∷ []) left));
    same = ground (arith, f.same, same1, same2);
    shape = rw (f.shape, e);
    legal = (lt, subst (λ h. Legal h left) (same2.heap ∙ same1.heap) f.legal);
    ids = record {
      grows = omega (arith, f.ids.grows, same1.txn_id, same2.txn_id);
      split = λ i. omega (
        arith,
        f.ids.split i,
        f.ids.grows,
        same1.txn_id,
        same2.txn_id,
        ap (λ rs. count i (row_ids rs)) rows2,
        recorded_le i t (row_ids m1.txns_o_file) (row_ids m.txns_o_file) rows1,
        between-step m2.next_txn_id n.next_txn_id i f.ids.grows,
        ap (λ k. between k n.next_txn_id i) (same2.txn_id ∙ same1.txn_id),
      );
    };
  }
    where
      renewed : Txn
      renewed = renew m2.next_txn_id ts ctx t

  pub finish_loop-Finished :
      (restart stack : List Txn) (m : LockManager)
      → Legal m.heap stack
      → HasSubLock (m.heap p) s
      → (n : LockManager) × (left : List Txn) × Finished restart stack m n left
  finish_loop-Finished restart [] m l hs = (not_found restart m, [], finish_nothing restart m hs)
  finish_loop-Finished restart (t ∷ below) m l hs = elim (Bool-cases (is_of p s t)) [
    | inl e ↦ let (n, f) = finish_found restart t below m l e in (n, left_below below, f)
    | inr e ↦
        let (m1, e1, same1, rows1) = record_txn-ok ts ctx_old t below m l in
        let (m2, e2, same2, rows2) = mismatch-ok p t m1 (rw same1.heap l.0) in
        let (n, left, f) =
          finish_loop-Finished (restart ++ renew m2.next_txn_id ts ctx t ∷ []) below
            (record m2 { next_txn_id = m2.next_txn_id + 1 }) (rw (same2.heap, same1.heap) l.1)
            (rw (same2.heap, same1.heap) hs) in
        (
          n,
          renew m2.next_txn_id ts ctx t ∷ left,
          finish_passed restart t below m m1 m2 n left e1 same1 rows1 e2 same2 rows2 l.0 e f,
        )
  ]
