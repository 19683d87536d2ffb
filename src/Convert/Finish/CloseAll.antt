-- ===== src/Convert/Finish/CloseAll.antt =====
-- LockManager::closeAllTXNs at the end of a trace.
use lockdoc_tools.Common.{
  ℕ, zero, suc, ◌≤◌, ◌≡◌, refl, sym, ap, subst, ◌∙◌, true, false, List, [], ◌∷◌, map, arith, length,
  All, ℤ, int_eq, Bool-cases, inl, inr, ◌⊎◌, eq_of_int_eq,
}
use lockdoc_tools.Convert.Result.{ok}
use lockdoc_tools.Convert.Lock.{SubLock, reader_lock, writer_lock, sub_eq}
use lockdoc_tools.Convert.Manager.{
  Txn, TxnStacks, stack_of, LockManager, say, still_active, is_of, is_on_txn_stack,
}
use lockdoc_tools.Convert.Manager.Legal.{Legal}
use lockdoc_tools.Convert.Finish.{close_context, close_contexts, close_all_txns}
use lockdoc_tools.Convert.Finish.Keys.{keys, close_key}
use lockdoc_tools.Convert.Invariant.{WellFormed, say-WellFormed}
use lockdoc_tools.Convert.Finish.Finishes.{Finishes, finish_txn-Finishes}

length-keys : (ts : List Txn) → length (keys ts) ≡ length ts
length-keys [] = refl
length-keys (t ∷ ts) = ap suc (length-keys ts)

sub_eq_refl : (s : SubLock) → sub_eq s s ≡ true
sub_eq_refl reader_lock = refl
sub_eq_refl writer_lock = refl

is_of_self : (t : Txn) → is_of t.lock t.sub_lock t ≡ true
is_of_self t = ground (arith, sub_eq_refl t.sub_lock)

-- Closing the sub lock of the topmost TXN takes that TXN only.
close_top :
    (top : Txn) (below : List Txn)
    → close_key top.lock top.sub_lock false (keys (top ∷ below)) ≡ keys below
close_top top below = ground (arith, is_of_self top)

-- The stack of the context is empty, the others are as before.
pub record Closed (ts : ℕ) (c : ℤ) (m n : LockManager) : Type 0 where
  pub valid : WellFormed n
  pub here : stack_of n.active_txns c ≡ []
  pub elsewhere : (d : ℤ) → int_eq c d ≡ false → stack_of n.active_txns d ≡ stack_of m.active_txns d

empty_of_length : (ts : List Txn) → length ts ≤ 0 → ts ≡ []
empty_of_length [] h = refl
empty_of_length (t ∷ ts) h = ground arith

-- What the loop for one context has to do with the fuel `k`.
abbrev Closes : ℕ → ℤ → ℕ → Type 0
Closes ts c k =
    (m : LockManager)
    → WellFormed m
    → length (stack_of m.active_txns c) ≤ k
    → (n : LockManager) × (close_context k ts c m ≡ ok n) × Closed ts c m n

module _ (ts : ℕ) (c : ℤ) where
  shorter :
      (top : Txn) (below : List Txn) (k : ℕ) (m n : LockManager)
      → length (top ∷ below) ≤ suc k
      → stack_of m.active_txns c ≡ top ∷ below
      → Finishes top.lock top.sub_lock ts false c c m n
      → length (stack_of n.active_txns c) ≤ k
  shorter top below k m n h e f =
      let q =
        f.here ∙ ap (λ s. close_key top.lock top.sub_lock false (keys s)) e ∙ close_top top below in
      let r = sym (length-keys (stack_of n.active_txns c)) ∙ ap length q ∙ length-keys below in
      omega (arith, r, h)

  found_top :
      (top : Txn) (below : List Txn) (m : LockManager)
      → stack_of m.active_txns c ≡ top ∷ below
      → is_on_txn_stack m c top.lock top.sub_lock ≡ true
  unfolding is_on_txn_stack
  found_top top below m e = rw e (ground (arith, is_of_self top))

  close_step :
      (k : ℕ) (m : LockManager) (s : List Txn)
      → Closes ts c k
      → stack_of m.active_txns c ≡ s
      → WellFormed m
      → length s ≤ suc k
      → (n : LockManager) × (close_context (suc k) ts c m ≡ ok n) × Closed ts c m n
  unfolding close_context
  close_step k m [] ih e v h =
      (m, rw (e, close_context) refl, record { valid = v; here = e; elsewhere = λ d i. refl })
  close_step k m (top ∷ below) ih e v h =
      let said = record { notice = still_active; about = length (top ∷ below) } ∷ [] in
      let legal = subst (Legal m.heap) e (v.legal c) in
      let (n, f) =
        finish_txn-Finishes top.lock top.sub_lock ts false c c (say said m)
          (say-WellFormed said m v) legal.0 in
      let (o, q, z) = ih n f.valid (shorter top below k (say said m) n h e f) in
      (
        o,
        rw (e, close_context) (rw f.returns q),
        record {
          valid = z.valid;
          here = z.here;
          elsewhere = λ d i. z.elsewhere d i ∙ f.elsewhere d i;
        },
      )

  close_context-Closes : (k : ℕ) → Closes ts c k
  unfolding close_context
  close_context-Closes zero m v h =
      (m, refl, record { valid = v; here = empty_of_length _ h; elsewhere = λ d i. refl })
  close_context-Closes (suc k) m v h =
      close_step k m (stack_of m.active_txns c) (close_context-Closes k) refl v h

-- The contexts of a list, and those that were empty before, are empty.
abbrev AllClosed : LockManager → List ℤ → LockManager → Type 0
AllClosed m cs n =
    WellFormed n
    × All (λ c. stack_of n.active_txns c ≡ []) cs
    × ((d : ℤ) → stack_of m.active_txns d ≡ [] → stack_of n.active_txns d ≡ [])

Closed-stays :
    (ts : ℕ) (c : ℤ) (m n : LockManager)
    → Closed ts c m n
    → (d : ℤ) → stack_of m.active_txns d ≡ []
    → stack_of n.active_txns d ≡ []
Closed-stays ts c m n z d e = elim (Bool-cases (int_eq c d)) [
  | inl i ↦ subst (λ x. stack_of n.active_txns x ≡ []) (eq_of_int_eq c d i) z.here
  | inr i ↦ z.elsewhere d i ∙ e
]

close_contexts-closes :
    (ts : ℕ) (cs : List ℤ) (m : LockManager)
    → WellFormed m
    → (n : LockManager) × (close_contexts ts cs m ≡ ok n) × AllClosed m cs n
unfolding close_contexts
close_contexts-closes ts [] m v = (m, refl, (v, tt, λ d e. e))
close_contexts-closes ts (c ∷ cs) m v =
    let (n, q, z) =
      close_context-Closes ts c (length (stack_of m.active_txns c)) m v (omega arith) in
    let (o, r, (w, all, stays)) = close_contexts-closes ts cs n z.valid in
    (o, rw q r, (w, (stays c z.here, all), λ d e. stays d (Closed-stays ts c m n z d e)))

contexts : TxnStacks → List ℤ
contexts = map (λ e. e.0)

every_context :
    (m : TxnStacks) (n : TxnStacks)
    → All (λ c. stack_of n c ≡ []) (contexts m)
    → (d : ℤ) → (stack_of m d ≡ []) ⊎ (stack_of n d ≡ [])
unfolding contexts
every_context [] n h d = inl refl
every_context ((k, s) ∷ m) n h d = elim (Bool-cases (int_eq k d)) [
  | inl i ↦ inr (subst (λ x. stack_of n x ≡ []) (eq_of_int_eq k d i) h.0)
  | inr i ↦ rw i (every_context m n h.1 d)
]

-- From a well-formed state closeAllTXNs returns, no context has an open TXN after it, and the state
-- is well formed again, so that every id of txns.csv is there once.
pub close_all_txns-closes :
    (ts : ℕ) (m : LockManager)
    → WellFormed m
    → (n : LockManager) × (close_all_txns ts m ≡ ok n)
      × WellFormed n
      × ((d : ℤ) → stack_of n.active_txns d ≡ [])
unfolding close_all_txns contexts
close_all_txns-closes ts m v =
    let (n, q, (w, all, stays)) = close_contexts-closes ts (map (λ e. e.0) m.active_txns) m v in
    (
      n,
      q,
      w,
      λ d. elim (every_context m.active_txns n.active_txns all d) [ inl e ↦ stays d e | inr e ↦ e ],
    )
