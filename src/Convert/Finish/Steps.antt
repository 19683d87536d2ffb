-- ===== src/Convert/Finish/Steps.antt =====
-- The parts of one round of `finish_loop`, with legal TXNs.
use mathlib.Core.List.{reverse, reverse-cons}
use lockdoc_tools.Common.{
  ℕ, ◌≡◌, refl, List, [], ◌∷◌, ◌++◌, map, append-nil, arith, ltb, ◌==◌, if◌then◌else◌, All-append,
  ℤ, Bool-cases, inl, inr,
}
use lockdoc_tools.Convert.Result.{ok}
use lockdoc_tools.Convert.Lock.{SubLock, reader_lock, sub_eq, LockPos, RwLock, is_held, sub_id}
use lockdoc_tools.Convert.Manager.{
  Txn, TxnRow, HeldRow, Message, stack_underflow, not_held, multiple_writers, sub_lock_mismatch,
  LockManager, say, is_of,
}
use lockdoc_tools.Convert.Manager.Legal.{
  HasSubLock-at, message_of, HasSubLock, IsLegal, Legal, get_id-ok, message_about-ok, report-ok,
}
use lockdoc_tools.Convert.Finish.{
  visit_pos, Visit, visit_lock, visit, held_rows, record_txn, remove_readers, mismatch,
}

visit_lock-ok :
    (id : ℕ) (seen : List ℕ) (l : RwLock) (s : SubLock) (ps : List LockPos)
    → HasSubLock l s
    → (v : Visit) × (visit_lock id seen l s ps ≡ ok v)
visit_lock-ok id seen l s [] h =
    ((seen, [], message_of l s stack_underflow), rw (message_about-ok l s stack_underflow h))
visit_lock-ok id seen l s (p ∷ ps) h = (visit_pos id seen (sub_id l s) p, rw (get_id-ok l s h))

visit-ok :
    (id : ℕ) (seen : List ℕ) (l : RwLock) (s : SubLock)
    → HasSubLock l s
    → (v : Visit) × (visit id seen l s ≡ ok v)
unfolding visit
visit-ok id seen l s h = elim (Bool-cases (is_held l)) [
  | inl e ↦ let (v, f) = visit_lock-ok id seen l s l.last_n_pos h in (v, rw e f)
  | inr e ↦ ((seen, [], message_of l s not_held), rw (e, message_about-ok l s not_held h))
]

held_rows-ok :
    (h : ℕ → RwLock) (id : ℕ) (seen : List ℕ) (ts : List Txn)
    → Legal h ts
    → (r : List HeldRow × List Message) × (held_rows h id seen ts ≡ ok r)
unfolding held_rows
held_rows-ok h id seen [] l = (([], []), refl)
held_rows-ok h id seen (t ∷ ts) l =
    let (v, e) = visit-ok id seen (h t.lock) t.sub_lock l.0 in
    let (r, f) = held_rows-ok h id v.0 ts l.1 in ((v.1 ++ r.0, v.2 ++ r.1), rw (e, f))

reverse-Legal : (h : ℕ → RwLock) (ts : List Txn) → Legal h ts → Legal h (reverse ts)
reverse-Legal h [] l = tt
reverse-Legal h (t ∷ ts) l =
    rw (reverse-cons t ts)
      (All-append (IsLegal h) (reverse ts) (t ∷ []) (reverse-Legal h ts l.1) (l.0, tt))

-- The ids in txns.csv.
abbrev pub row_ids : List TxnRow → List ℕ
row_ids = map (λ r. r.id)

abbrev pub recorded_id : Txn → List ℕ
recorded_id t = if ltb 0 t.mem_access_counter then t.id ∷ [] else []

-- Two states that agree on all but the files and the messages.
pub record SameState (m n : LockManager) : Type 0 where
  pub stacks : n.active_txns ≡ m.active_txns
  pub txn_id : n.next_txn_id ≡ m.next_txn_id
  pub lock_id : n.next_lock_id ≡ m.next_lock_id
  pub locks : n.locks ≡ m.locks
  pub heap : n.heap ≡ m.heap
  pub object : n.next_object ≡ m.next_object

row_ids-snoc : (rs : List TxnRow) (r : TxnRow) → row_ids (rs ++ r ∷ []) ≡ row_ids rs ++ r.id ∷ []
row_ids-snoc [] r = refl
row_ids-snoc (x ∷ rs) r = rw (row_ids-snoc rs r)

-- Recording a TXN adds its id to txns.csv if it has memory accesses.
pub record_txn-ok :
    (ts : ℕ) (ctx : ℤ) (t : Txn) (below : List Txn) (m : LockManager)
    → Legal m.heap (t ∷ below)
    → (n : LockManager) × (record_txn ts ctx t below m ≡ ok n)
      × SameState m n
      × (row_ids n.txns_o_file ≡ row_ids m.txns_o_file ++ recorded_id t)
unfolding record_txn
record_txn-ok ts ctx t below m l = elim (Bool-cases (ltb 0 t.mem_access_counter)) [
  | inl e ↦
      let (r, f) =
        held_rows-ok m.heap t.id [] (reverse (t ∷ below)) (reverse-Legal m.heap (t ∷ below) l) in
      rw (e, f) (_, refl, ground arith, row_ids-snoc m.txns_o_file _)
  | inr e ↦ rw e (m, refl, ground arith, ground (arith, append-nil (row_ids m.txns_o_file)))
]

-- The TXNs without those of the lock's reader side.
abbrev pub without_readers : ℕ → List Txn → List Txn
without_readers p [] = []
without_readers p (t ∷ ts) =
    if is_of p reader_lock t then without_readers p ts else t ∷ without_readers p ts

pub remove_readers-ok :
    (p : ℕ) (h : ℕ → RwLock) (ts : List Txn)
    → Legal h ts
    → (ms : List Message) × (remove_readers p (h p) ts ≡ ok (without_readers p ts, ms))
unfolding remove_readers
remove_readers-ok p h [] l = ([], refl)
remove_readers-ok p h (t ∷ ts) l =
    let (ms, e) = remove_readers-ok p h ts l.1 in
    elim (Bool-cases (t.lock == p)) [
      | inl a ↦ elim (Bool-cases (sub_eq t.sub_lock reader_lock)) [
        | inl b ↦ (ms, rw (e, a, b))
        | inr b ↦ (
          ms ++ message_of (h p) t.sub_lock multiple_writers,
          rw (
            e,
            a,
            b,
            message_about-ok (h p) t.sub_lock multiple_writers (HasSubLock-at h p t l.0 a),
          ),
        )
      ]
      | inr a ↦ (ms, rw (e, a))
    ]

pub mismatch-ok :
    (p : ℕ) (t : Txn) (m : LockManager)
    → IsLegal m.heap t
    → (n : LockManager) × (mismatch p t m ≡ ok n) × SameState m n × (n.txns_o_file ≡ m.txns_o_file)
unfolding mismatch
mismatch-ok p t m l = elim (Bool-cases (t.lock == p)) [
  | inl a ↦ (
    say (message_of (m.heap p) t.sub_lock sub_lock_mismatch) m,
    rw (a, report-ok p t.sub_lock sub_lock_mismatch m (HasSubLock-at m.heap p t l a)),
    ground arith,
    refl,
  )
  | inr a ↦ (m, rw a, ground arith, refl)
]
