-- ===== src/Convert/Transition/Counts.antt =====
-- Counting entries of a sub lock: on a stack, and among the positions of a lock.
use lockdoc_tools.Common.{
  ℕ, ◌+◌, ◌-◌, ◌<◌, ◌≡◌, refl, Bool, true, false, ◌&&◌, List, [], ◌∷◌, arith, ltb, ◌==◌,
  if◌then◌else◌,
}
use lockdoc_tools.Convert.Lock.{SubLock, reader_lock, writer_lock, sub_eq, LockPos}
use lockdoc_tools.Convert.Manager.{Txn, any_of}
use lockdoc_tools.Convert.Finish.Keys.{Key, keys, is_key, drop_keys, close_key}

abbrev pub other : SubLock → SubLock
other reader_lock = writer_lock
other writer_lock = reader_lock

abbrev pub count_key : ℕ → SubLock → List Key → ℕ
count_key p s [] = 0
count_key p s (k ∷ ks) = (if is_key p s k then 1 else 0) + count_key p s ks

abbrev pub held_at : SubLock → List LockPos → ℕ
held_at s [] = 0
held_at s (x ∷ xs) = (if sub_eq x.sub_lock s then 1 else 0) + held_at s xs

-- A table of counts with one entry changed.
abbrev pub at : (ℕ → SubLock → ℕ) → ℕ → SubLock → ℕ → ℕ → SubLock → ℕ
at f p s v q r = if q == p && sub_eq r s then v else f q r

pub any_of-eq-count :
    (p : ℕ) (s : SubLock) (ts : List Txn) → any_of p s ts ≡ ltb 0 (count_key p s (keys ts))
any_of-eq-count p s [] = refl
any_of-eq-count p s (t ∷ ts) = ground (arith, any_of-eq-count p s ts)

is_key_eq :
    (p q : ℕ) (s r : SubLock) (k : Key)
    → is_key p s k ≡ true
    → is_key q r k ≡ (q == p && sub_eq r s)
is_key_eq p q s r k h = ground arith

is_key_same :
    (p q : ℕ) (s r : SubLock) (k : Key)
    → (q == p && sub_eq r s) ≡ true
    → is_key q r k ≡ is_key p s k
is_key_same p q s r k h = ground arith

count_key_same :
    (p q : ℕ) (s r : SubLock) (ks : List Key)
    → (q == p && sub_eq r s) ≡ true
    → count_key q r ks ≡ count_key p s ks
count_key_same p q s r [] h = refl
count_key_same p q s r (k ∷ ks) h =
    ground (arith, is_key_same p q s r k h, count_key_same p q s r ks h)

count_key-drop_keys :
    (p q : ℕ) (s r : SubLock) (ks : List Key)
    → count_key q r (drop_keys p s ks) ≡ (if q == p && sub_eq r s then 0 else count_key q r ks)
count_key-drop_keys p q s r [] = ground arith
count_key-drop_keys p q s r (k ∷ ks) =
    ground (arith, count_key-drop_keys p q s r ks, is_key_eq p q s r k)

pub close_key_absent :
    (p : ℕ) (s : SubLock) (rr : Bool) (ks : List Key)
    → count_key p s ks ≡ 0
    → close_key p s rr ks ≡ ks
close_key_absent p s rr [] h = refl
close_key_absent p s rr (k ∷ ks) h = ground (arith, close_key_absent p s rr ks)

-- The topmost entry goes and no other one.
pub count_key-close_key :
    (p q : ℕ) (s r : SubLock) (ks : List Key)
    → 0 < count_key p s ks
    → count_key q r (close_key p s false ks)
      ≡ (if q == p && sub_eq r s then count_key p s ks - 1 else count_key q r ks)
count_key-close_key p q s r [] h = absurd (omega arith)
count_key-close_key p q s r (k ∷ ks) h = ground (
  arith,
  count_key-close_key p q s r ks,
  is_key_eq p q s r k,
  is_key_same p q s r k,
  count_key_same p q s r ks,
)

-- All readers go.
pub count_key-flush_readers :
    (p q : ℕ) (r : SubLock) (ks : List Key)
    → 0 < count_key p reader_lock ks
    → count_key q r (close_key p reader_lock true ks)
      ≡ (if q == p && sub_eq r reader_lock then 0 else count_key q r ks)
count_key-flush_readers p q r [] h = absurd (omega arith)
count_key-flush_readers p q r (k ∷ ks) h = ground (
  arith,
  count_key-flush_readers p q r ks,
  count_key-drop_keys p q reader_lock r ks,
  is_key_eq p q reader_lock r k,
)

-- A single writer goes, where there is no reader.
pub count_key-flush_writer :
    (p q : ℕ) (r : SubLock) (ks : List Key)
    → count_key p writer_lock ks ≡ 1
    → count_key p reader_lock ks ≡ 0
    → count_key q r (close_key p writer_lock true ks)
      ≡ (if q == p && sub_eq r writer_lock then 0 else count_key q r ks)
count_key-flush_writer p q r [] h g = absurd (omega arith)
count_key-flush_writer p q r (k ∷ ks) h g = ground (
  arith,
  count_key-flush_writer p q r ks,
  count_key-drop_keys p q reader_lock r ks,
  is_key_eq p q writer_lock r k,
  is_key_same p q writer_lock r k,
  is_key_same p q reader_lock r k,
  count_key_same p q writer_lock r ks,
  count_key_same p q reader_lock r ks,
)
