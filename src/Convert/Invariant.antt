-- ===== src/Convert/Invariant.antt =====
-- What holds of the manager between two events of the trace: the stacks are a map, every TXN is of
-- a sub lock that its lock has, and no TXN id stands in two places.
use lockdoc_tools.Common.{
  ℕ, ◌+◌, ◌≤◌, ◌<◌, ◌≡◌, refl, subst, true, List, [], ◌∷◌, arith, ◌==◌, ==_iff, if◌then◌else◌, All,
  ℤ, int_eq, Bool-cases, inl, inr, count, eq_of_int_eq,
}
use lockdoc_tools.Convert.Lock.{
  SubLock, LockClass, RwLock, rw_lock, r_lock, w_lock, reader_lock, writer_lock, has_sub_lock,
  set_count,
}
use lockdoc_tools.Convert.Manager.{
  Txn, TxnStacks, stack_of, set_stack, LockManager, set_lock, update, say, start_txn, Message,
  new_txn,
}
use lockdoc_tools.Convert.Manager.Stacks.{
  Ascending, total, total-set_stack, set_stack-Ascending, stack_of-set_stack_self,
  stack_of-set_stack_ne,
}
use lockdoc_tools.Convert.Manager.Legal.{HasSubLock, Legal}
use lockdoc_tools.Convert.Finish.Steps.{row_ids}
use lockdoc_tools.Convert.Finish.Keys.{has_id, between}

-- A lock that has one side only never counts a holder of the other.
abbrev SidedCounts : LockClass → ℕ → ℕ → Type 0
SidedCounts rw_lock readers writers = Unit
SidedCounts r_lock readers writers = writers ≡ 0
SidedCounts w_lock readers writers = readers ≡ 0

abbrev pub Sided : LockClass → RwLock → Type 0
Sided c l = SidedCounts c l.reader_count l.writer_count

abbrev pub IsMade : ℕ → Txn → Type 0
IsMade n t = t.lock < n

pub record WellFormed (m : LockManager) : Type 0 where
  pub ordered : Ascending m.active_txns
  pub legal : (c : ℤ) → Legal m.heap (stack_of m.active_txns c)
  -- Every lock that a TXN or the table of locks names has been made.
  pub known : (c : ℤ) → All (IsMade m.next_object) (stack_of m.active_txns c)
  pub stored : All (λ e. e.1 < m.next_object) m.locks
  pub sides : (p : ℕ) → Sided (m.heap p).class (m.heap p)
  -- At most one row of txns.csv or open TXN has the id `i`, and none if `i` is not given out yet.
  pub unique :
      (i : ℕ)
      → count i (row_ids m.txns_o_file) + total (has_id i) m.active_txns ≤ between 0 m.next_txn_id i

-- A property of the stacks holds after a write if it holds of what is written and held before.
pub stack_of-set_stack_ind :
    (P : List Txn → Type 0) (m : TxnStacks) (c : ℤ) (s : List Txn)
    → P s
    → ((d : ℤ) → P (stack_of m d))
    → (d : ℤ) → P (stack_of (set_stack m c s) d)
stack_of-set_stack_ind P m c s new old d = elim (Bool-cases (int_eq c d)) [
  | inl e ↦
      subst (λ k. P (stack_of (set_stack m c s) k)) (eq_of_int_eq c d e)
        (rw (stack_of-set_stack_self m c s) new)
  | inr e ↦ rw (stack_of-set_stack_ne m c d s e) (old d)
]

Legal-update :
    (h : ℕ → RwLock) (p : ℕ) (l : RwLock) (ts : List Txn)
    → l.class ≡ (h p).class
    → Legal h ts
    → Legal (update h p l) ts
Legal-update h p l [] e k = tt
Legal-update h p l (t ∷ ts) e k = (
  elim (Bool-cases (p == t.lock)) [
    | inl a ↦ let q = (==_iff p t.lock).0 a in rw (a, e) (rw q k.0)
    | inr a ↦ rw a k.0
  ],
  Legal-update h p l ts e k.1,
)

pub Sided-set_count :
    (c : LockClass) (l : RwLock) (s : SubLock) (n : ℕ)
    → has_sub_lock c s ≡ true
    → Sided c l
    → Sided c (set_count l s n)
Sided-set_count rw_lock l s n h k = tt
Sided-set_count r_lock l reader_lock n h k = k
Sided-set_count r_lock l writer_lock n h k = cc
Sided-set_count w_lock l reader_lock n h k = cc
Sided-set_count w_lock l writer_lock n h k = k

pub Sided-read :
    (c : LockClass) (l : RwLock)
    → Sided c l
    → 0 < l.reader_count
    → has_sub_lock c reader_lock ≡ true
Sided-read rw_lock l k h = refl
Sided-read r_lock l k h = refl
Sided-read w_lock l k h = absurd (omega arith)

pub Sided-write :
    (c : LockClass) (l : RwLock)
    → Sided c l
    → 0 < l.writer_count
    → has_sub_lock c writer_lock ≡ true
Sided-write rw_lock l k h = refl
Sided-write r_lock l k h = absurd (omega arith)
Sided-write w_lock l k h = refl

pub Sided-update :
    (h : ℕ → RwLock) (p : ℕ) (l : RwLock)
    → Sided l.class l
    → ((q : ℕ) → Sided (h q).class (h q))
    → (q : ℕ) → Sided (update h p l q).class (update h p l q)
Sided-update h p l k v q = elim (Bool-cases (p == q)) [ inl e ↦ rw e k | inr e ↦ rw e (v q) ]

-- A write to a lock that keeps its class.
pub set_lock-WellFormed :
    (p : ℕ) (l : RwLock) (m : LockManager)
    → l.class ≡ (m.heap p).class
    → Sided l.class l
    → WellFormed m
    → WellFormed (set_lock p l m)
set_lock-WellFormed p l m e k v = record {
  ordered = v.ordered;
  sides = Sided-update m.heap p l k v.sides;
  known = v.known;
  stored = v.stored;
  legal = λ c. Legal-update m.heap p l (stack_of m.active_txns c) e (v.legal c);
  unique = v.unique;
}

pub say-WellFormed : (ms : List Message) (m : LockManager) → WellFormed m → WellFormed (say ms m)
say-WellFormed ms m v = record {
  ordered = v.ordered;
  legal = v.legal;
  known = v.known;
  stored = v.stored;
  sides = v.sides;
  unique = v.unique;
}

between-suc : (n i : ℕ) → between 0 (n + 1) i ≡ (if n == i then 1 else 0) + between 0 n i
between-suc n i = ground arith

-- A new TXN takes the next id.
pub start_txn-WellFormed :
    (p ts : ℕ) (s : SubLock) (c : ℤ) (m : LockManager)
    → HasSubLock (m.heap p) s
    → p < m.next_object
    → WellFormed m
    → WellFormed (start_txn p ts s c m)
unfolding start_txn
start_txn-WellFormed p ts s c m h made v = record {
  ordered = set_stack-Ascending m.active_txns c _ v.ordered;
  legal = stack_of-set_stack_ind (Legal m.heap) m.active_txns c _ (h, v.legal c) v.legal;
  known =
      stack_of-set_stack_ind (All (IsMade m.next_object)) m.active_txns c _ (made, v.known c)
        v.known;
  stored = v.stored;
  sides = v.sides;
  unique = λ i. omega (
    arith,
    v.unique i,
    total-set_stack (has_id i) m.active_txns c
        (new_txn m.next_txn_id p ts s c ∷ stack_of m.active_txns c) v.ordered,
    between-suc m.next_txn_id i,
  );
}
