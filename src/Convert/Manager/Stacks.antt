-- ===== src/Convert/Manager/Stacks.antt =====
-- The map from contexts to stacks: what a write changes, and sums over all open TXNs.
use lockdoc_tools.Common.{
  ℕ, ◌+◌, ◌≤◌, ◌≡◌, refl, true, false, List, [], ◌∷◌, ◌++◌, arith, ℤ, pos, negsuc, int_eq, int_lt,
  eq_of_int_eq, int_eq_refl,
}
use lockdoc_tools.Convert.Manager.{Txn, TxnStacks, stack_of, set_stack}

pub stack_of-set_stack_self :
    (m : TxnStacks) (c : ℤ) (s : List Txn) → stack_of (set_stack m c s) c ≡ s
stack_of-set_stack_self [] c s = ground (arith, int_eq_refl c)
stack_of-set_stack_self ((k, v) ∷ m) c s =
    ground (arith, int_eq_refl c, stack_of-set_stack_self m c s)

-- A write to one context leaves every other one alone.
pub stack_of-set_stack_ne :
    (m : TxnStacks) (c d : ℤ) (s : List Txn)
    → int_eq c d ≡ false
    → stack_of (set_stack m c s) d ≡ stack_of m d
stack_of-set_stack_ne [] c d s h = ground arith
stack_of-set_stack_ne ((k, v) ∷ m) c d s h =
    ground (arith, eq_of_int_eq k c, stack_of-set_stack_ne m c d s h)

int_lt_trans : (a b c : ℤ) → int_lt a b ≡ true → int_lt b c ≡ true → int_lt a c ≡ true
int_lt_trans (pos a) (pos b) (pos c) h k = ground arith
int_lt_trans (pos a) (pos b) (negsuc c) h k = cc
int_lt_trans (pos a) (negsuc b) c h k = cc
int_lt_trans (negsuc a) (pos b) (pos c) h k = refl
int_lt_trans (negsuc a) (pos b) (negsuc c) h k = cc
int_lt_trans (negsuc a) (negsuc b) (pos c) h k = refl
int_lt_trans (negsuc a) (negsuc b) (negsuc c) h k = ground arith

int_lt_irrefl : (a b : ℤ) → int_lt a b ≡ true → int_eq b a ≡ false
int_lt_irrefl (pos a) (pos b) h = ground arith
int_lt_irrefl (pos a) (negsuc b) h = refl
int_lt_irrefl (negsuc a) (pos b) h = refl
int_lt_irrefl (negsuc a) (negsuc b) h = ground arith

int_lt_total : (a b : ℤ) → int_eq a b ≡ false → int_lt b a ≡ false → int_lt a b ≡ true
int_lt_total (pos a) (pos b) h k = ground arith
int_lt_total (pos a) (negsuc b) h k = cc
int_lt_total (negsuc a) (pos b) h k = refl
int_lt_total (negsuc a) (negsuc b) h k = ground arith

-- The keys rise, as in a `std::map`.
abbrev pub Above : ℤ → TxnStacks → Type 0
Above c [] = Unit
Above c ((k, v) ∷ m) = (int_lt c k ≡ true) × Above c m

abbrev pub Ascending : TxnStacks → Type 0
Ascending [] = Unit
Ascending ((k, v) ∷ m) = Above k m × Ascending m

Above-trans : (a b : ℤ) (m : TxnStacks) → int_lt a b ≡ true → Above b m → Above a m
Above-trans a b [] h k = tt
Above-trans a b ((c, v) ∷ m) h k = (int_lt_trans a b c h k.0, Above-trans a b m h k.1)

Above-set_stack :
    (a c : ℤ) (m : TxnStacks) (s : List Txn)
    → Above a m
    → int_lt a c ≡ true
    → Above a (set_stack m c s)
Above-set_stack a c [] s h k = (k, tt)
Above-set_stack a c ((d, v) ∷ m) s h k = ground (arith, Above-set_stack a c m s h.1 k)

pub set_stack-Ascending :
    (m : TxnStacks) (c : ℤ) (s : List Txn) → Ascending m → Ascending (set_stack m c s)
set_stack-Ascending [] c s h = (tt, tt)
set_stack-Ascending ((k, v) ∷ m) c s h = ground (
  arith,
  set_stack-Ascending m c s h.1,
  Above-trans c k m,
  int_lt_total k c,
  Above-set_stack k c m s h.0,
)

pub stack_of-Above : (c : ℤ) (m : TxnStacks) → Above c m → stack_of m c ≡ []
stack_of-Above c [] h = refl
stack_of-Above c ((k, v) ∷ m) h = ground (arith, int_lt_irrefl c k, stack_of-Above c m h.1)

module _ (w : Txn → ℕ) where
  -- The sum of a weight over a stack, and over all stacks.
  abbrev pub weigh : List Txn → ℕ
  weigh [] = 0
  weigh (t ∷ ts) = w t + weigh ts

  pub weigh-append : (ss ts : List Txn) → weigh (ss ++ ts) ≡ weigh ss + weigh ts
  weigh-append [] ts = omega arith
  weigh-append (s ∷ ss) ts = omega (arith, weigh-append ss ts)

  abbrev pub total : TxnStacks → ℕ
  total [] = 0
  total ((k, s) ∷ m) = weigh s + total m

  -- A write replaces what the stack of the context weighed.
  pub total-set_stack :
      (m : TxnStacks) (c : ℤ) (s : List Txn)
      → Ascending m
      → total (set_stack m c s) + weigh (stack_of m c) ≡ total m + weigh s
  total-set_stack [] c s h = omega arith
  total-set_stack ((k, v) ∷ m) c s h =
      ground
        (arith, total-set_stack m c s h.1, int_lt_irrefl c k, stack_of-Above c m, Above-trans c k m)

  pub weigh-le-total : (m : TxnStacks) (c : ℤ) → weigh (stack_of m c) ≤ total m
  weigh-le-total [] c = omega arith
  weigh-le-total ((k, v) ∷ m) c = ground (arith, weigh-le-total m c)
