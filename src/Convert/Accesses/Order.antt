-- ===== src/Convert/Accesses/Order.antt =====
-- writeMemAccesses: what reaches accesses.csv, in which order, and for which TXN.
use mathlib.Core.List.{reverse}
use lockdoc_tools.Common.{
  ℕ, ◌+◌, ◌≡◌, ◌⊎◌, inl, inr, refl, ap, ◌∙◌, subst, Bool, true, false, Option, none, some, List, [],
  ◌∷◌, map, arith, ◌==◌, ==_iff, ◌||◌, ℤ, int_eq, eq_of_int_eq, int_eq_refl, if◌then◌else◌,
  Bool-cases,
}
use lockdoc_tools.Convert.Manager.{Txn, stack_of, set_stack, LockManager}
use lockdoc_tools.Convert.Manager.Stacks.{
  Ascending, weigh, total, total-set_stack, set_stack-Ascending, stack_of-set_stack_self,
  stack_of-set_stack_ne,
}
use lockdoc_tools.Convert.Accesses.{
  MemAccess, AccessRow, write_mem_accesses, write_loop, count_access, to_write, drop_lock_pair,
  is_lock_pair, active_id, counted, ctx_of,
}

-- The access counter of the TXN with the id `i`.
abbrev pub counter_of : ℕ → Txn → ℕ
counter_of i t = if t.id == i then t.mem_access_counter else 0

-- Whether an id is `i`.
abbrev pub names : ℕ → Option ℕ → ℕ
names i none = 0
names i (some j) = if j == i then 1 else 0

-- How many rows name the TXN with the id `i`.
abbrev pub rows_of : ℕ → List AccessRow → ℕ
rows_of i [] = 0
rows_of i (r ∷ rs) = names i r.txn_id + rows_of i rs

-- The row of an access: it names the TXN that is on top in the context of the access.
abbrev pub row_of : Bool → LockManager → MemAccess → AccessRow
row_of tracing m a = record {
  access = a;
  txn_id = active_id (stack_of m.active_txns (ctx_of tracing a.ctx));
}

-- A read and a write that look like those of a lock word: of one time, size and address.
pub record LockPair (w0 w1 : MemAccess) (address : ℕ) : Type 0 where
  pub ts : w0.ts ≡ w1.ts
  pub read : w0.action ≡ b'r'
  pub write : w1.action ≡ b'w'
  pub together : w0.address ≡ w1.address
  pub here : w0.address ≡ address
  pub size : w0.size ≡ w1.size

-- The two latest accesses are such a pair.
abbrev pub StartsWithPair : ℕ → List MemAccess → Type 0
StartsWithPair address (w1 ∷ w0 ∷ rest) = LockPair w0 w1 address
StartsWithPair address _ = ⊥

abbrev pub IsAccess : ℕ → Type 0
IsAccess action = (action ≡ b'r') ⊎ (action ≡ b'w')

abbrev pub IsLockOp : ℕ → Type 0
IsLockOp action = (action ≡ b'p') ⊎ (action ≡ b'v')

-- What an event of an action writes of the pending accesses, of which the latest comes first, in the
-- order of writing; and what stays pending.
pub data Due (action address : ℕ) : List MemAccess → List MemAccess → List MemAccess → Type 0 where
  held_back : {as' : List MemAccess} → IsAccess action → Due action address as' [] as'
  all_due :
      {as' : List MemAccess}
      → ¬ (IsAccess action)
      → ¬ (IsLockOp action × StartsWithPair address as')
      → Due action address as' (reverse as') []
  all_but_pair :
      {w1 w0 : MemAccess} {rest : List MemAccess}
      → IsLockOp action
      → LockPair w0 w1 address
      → Due action address (w1 ∷ w0 ∷ rest) (reverse rest) []

or_cases : (x a b : ℕ) → x == a || x == b ≡ true → (x ≡ a) ⊎ (x ≡ b)
or_cases x a b e = elim (Bool-cases (x == a)) [
  | inl k ↦ inl ((==_iff x a).0 k)
  | inr k ↦ inr (ground (arith, e, k))
]

not_or : (x a b : ℕ) → x == a || x == b ≡ false → ¬ ((x ≡ a) ⊎ (x ≡ b))
not_or x a b e (inl k) = ground (arith, e, k)
not_or x a b e (inr k) = ground (arith, e, k)

is_lock_pair-LockPair :
    (w0 w1 : MemAccess) (address : ℕ) → is_lock_pair w0 w1 address ≡ true → LockPair w0 w1 address
unfolding is_lock_pair
is_lock_pair-LockPair w0 w1 address e = record {
  ts = ground (arith, e);
  read = ground (arith, e);
  write = ground (arith, e);
  together = ground (arith, e);
  here = ground (arith, e);
  size = eq_of_int_eq w0.size w1.size (ground (arith, e));
}

LockPair-is_lock_pair :
    (w0 w1 : MemAccess) (address : ℕ) → LockPair w0 w1 address → is_lock_pair w0 w1 address ≡ true
unfolding is_lock_pair
LockPair-is_lock_pair w0 w1 address p =
    let same : int_eq w0.size w1.size ≡ true = rw p.size (int_eq_refl w1.size) in
    ground (arith, p.ts, p.read, p.write, p.together, p.here, same)

to_write-Due :
    (action address : ℕ) (as' : List MemAccess)
    → action == b'r' || action == b'w' ≡ false
    → Due action address as' (reverse (to_write action address as')) []
unfolding to_write drop_lock_pair
to_write-Due action address as' n = elim (Bool-cases (action == b'p' || action == b'v')) [
  | inl k ↦ rw k (dropped as' (or_cases action b'p' b'v' k))
  | inr k ↦ rw k (all_due (not_or action b'r' b'w' n) λ q. not_or action b'p' b'v' k q.0)
]
  where
    dropped :
        (as' : List MemAccess)
        → IsLockOp action
        → Due action address as' (reverse (drop_lock_pair address as')) []
    dropped [] l = all_due (not_or action b'r' b'w' n) λ q. q.1
    dropped (w1 ∷ []) l = all_due (not_or action b'r' b'w' n) λ q. q.1
    dropped (w1 ∷ w0 ∷ rest) l = elim (Bool-cases (is_lock_pair w0 w1 address)) [
      | inl e ↦ rw e (all_but_pair l (is_lock_pair-LockPair w0 w1 address e))
      | inr e ↦ rw e (
          all_due (not_or action b'r' b'w' n)
            λ q. let p = LockPair-is_lock_pair w0 w1 address q.1 in cc)
    ]

weigh-counted :
    (i : ℕ) (ts : List Txn)
    → weigh (counter_of i) (counted ts) ≡ weigh (counter_of i) ts + names i (active_id ts)
weigh-counted i [] = refl
weigh-counted i (t ∷ ts) = ground arith

active_id-counted : (ts : List Txn) → active_id (counted ts) ≡ active_id ts
active_id-counted [] = refl
active_id-counted (t ∷ ts) = refl

-- What one access does to the stacks: the TXN on top counts one more, and stays on top.
record Counts (c : ℤ) (m n : LockManager) : Type 0 where
  ordered : Ascending n.active_txns
  totals :
      (i : ℕ)
      → total (counter_of i) n.active_txns
        ≡ total (counter_of i) m.active_txns + names i (active_id (stack_of m.active_txns c))
  tops : (d : ℤ) → active_id (stack_of n.active_txns d) ≡ active_id (stack_of m.active_txns d)

counted-Counts :
    (c : ℤ) (m : LockManager)
    → Ascending m.active_txns
    → Counts c m
        (record m { active_txns = set_stack m.active_txns c (counted (stack_of m.active_txns c)) })
counted-Counts c m o = record {
  ordered = set_stack-Ascending m.active_txns c (counted (stack_of m.active_txns c)) o;
  totals = λ i. omega (
    arith,
    total-set_stack (counter_of i) m.active_txns c (counted (stack_of m.active_txns c)) o,
    weigh-counted i (stack_of m.active_txns c),
  );
  tops = λ d. elim (Bool-cases (int_eq c d)) [
    | inl e ↦
        rw (← eq_of_int_eq c d e, stack_of-set_stack_self)
          (active_id-counted (stack_of m.active_txns c))
    | inr e ↦ ap active_id (stack_of-set_stack_ne m.active_txns c d _ e)
  ];
}

count_access-Counts :
    (c : ℤ) (m : LockManager) → Ascending m.active_txns → Counts c m (count_access c m)
unfolding count_access
count_access-Counts c m o = by_stack (stack_of m.active_txns c) refl
  where
    by_stack :
        (s : List Txn)
        → stack_of m.active_txns c ≡ s
        → Counts c m (elim s as (λ _. LockManager) [
          | [] ↦ m
          | t ∷ ts ↦ record m { active_txns = set_stack m.active_txns c (counted (t ∷ ts)) }
        ])
    by_stack [] e = record { ordered = o; totals = λ i. rw e (omega arith); tops = λ d. refl }
    by_stack (t ∷ ts) e =
        subst (λ s. Counts c m (record m { active_txns = set_stack m.active_txns c (counted s) })) e
          (counted-Counts c m o)

module _ (tracing : Bool) where
  map-row_of :
      (m n : LockManager) (as' : List MemAccess)
      → ((d : ℤ) → active_id (stack_of n.active_txns d) ≡ active_id (stack_of m.active_txns d))
      → map (row_of tracing n) as' ≡ map (row_of tracing m) as'
  map-row_of m n [] e = refl
  map-row_of m n (a ∷ as') e = rw (e (ctx_of tracing a.ctx), map-row_of m n as' e) refl

  write_loop-writes :
      (as' : List MemAccess) (m : LockManager)
      → Ascending m.active_txns
      → (let r = write_loop tracing as' m in
          (r.0 ≡ map (row_of tracing m) as')
          × ((i : ℕ)
              → total (counter_of i) r.1.active_txns
                ≡ total (counter_of i) m.active_txns + rows_of i r.0))
  unfolding write_loop
  write_loop-writes [] m o = (refl, λ i. omega arith)
  write_loop-writes (a ∷ as') m o =
      let c = ctx_of tracing a.ctx in
      let k = count_access-Counts c m o in
      let r = write_loop-writes as' (count_access c m) k.ordered in
      (
        ap (λ (l : List AccessRow). row_of tracing m a ∷ l)
            (r.0 ∙ map-row_of m (count_access c m) as' k.tops),
        λ i. omega (arith, k.totals i, r.1 i),
      )

  -- For any action, where the contexts stand in their order: an access writes nothing and leaves all
  -- pending; any other action writes all pending accesses, the oldest first, but for a read and a
  -- write of the address at the end that look like those of a lock word, which p and v drop; then
  -- nothing is pending. Each row names the TXN on top of its context, if there is one; and for each
  -- id the access counters of the open TXNs with it grow by the number of rows that name it.
  pub write_mem_accesses-flushes :
      (action address : ℕ) (accesses : List MemAccess) (m : LockManager)
      → Ascending m.active_txns
      → (let w = write_mem_accesses tracing action address accesses m in
          (due : List MemAccess) × (Due action address accesses due w.pending
            × ((w.rows ≡ map (row_of tracing m) due)
                × ((i : ℕ)
                    → total (counter_of i) w.manager.active_txns
                      ≡ total (counter_of i) m.active_txns + rows_of i w.rows))))
  unfolding write_mem_accesses
  write_mem_accesses-flushes action address accesses m o =
      elim (Bool-cases (action == b'r' || action == b'w')) [
        | inl e ↦ rw e ([], (held_back (or_cases action b'r' b'w' e), (refl, λ i. omega arith)))
        | inr e ↦
            let due = reverse (to_write action address accesses) in
            rw e (due, (to_write-Due action address accesses e, write_loop-writes due m o))
      ]
