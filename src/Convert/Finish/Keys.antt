-- ===== src/Convert/Finish/Keys.antt =====
-- What finishTXN keeps of a stack, by the lock and the side of each TXN, and the ids in use.
use lockdoc_tools.Common.{
  ℕ, ◌+◌, ◌≤◌, ◌≡◌, refl, Bool, ◌&&◌, List, [], ◌∷◌, ◌++◌, map, arith, ltb, leb, ◌==◌,
  if◌then◌else◌, count, count-append,
}
use lockdoc_tools.Convert.Lock.{SubLock, reader_lock, sub_eq, RwLock}
use lockdoc_tools.Convert.Manager.{Txn, LockManager}
use lockdoc_tools.Convert.Manager.Stacks.{weigh}
use lockdoc_tools.Convert.Manager.Legal.{Legal}
use lockdoc_tools.Convert.Finish.Steps.{row_ids, recorded_id, without_readers}

-- What a TXN stands for, whatever its id and times are.
abbrev pub Key : Type 0
Key = ℕ × SubLock

abbrev pub key : Txn → Key
key t = (t.lock, t.sub_lock)

abbrev pub keys : List Txn → List Key
keys = map key

abbrev pub is_key : ℕ → SubLock → Key → Bool
is_key p s k = k.0 == p && sub_eq k.1 s

abbrev pub drop_keys : ℕ → SubLock → List Key → List Key
drop_keys p s [] = []
drop_keys p s (k ∷ ks) = if is_key p s k then drop_keys p s ks else k ∷ drop_keys p s ks

-- The topmost entry of the sub lock goes, and all reader entries below it if asked for.
abbrev pub close_key : ℕ → SubLock → Bool → List Key → List Key
close_key p s rr [] = []
close_key p s rr (k ∷ ks) =
    if is_key p s k then if rr then drop_keys p reader_lock ks else ks else k ∷ close_key p s rr ks

pub keys-without_readers :
    (p : ℕ) (ts : List Txn) → keys (without_readers p ts) ≡ drop_keys p reader_lock (keys ts)
keys-without_readers p [] = refl
keys-without_readers p (t ∷ ts) = ground (arith, keys-without_readers p ts)

abbrev pub has_id : ℕ → Txn → ℕ
has_id i t = if t.id == i then 1 else 0

abbrev pub between : ℕ → ℕ → ℕ → ℕ
between a b i = if leb a i && ltb i b then 1 else 0

pub without_readers-Legal :
    (h : ℕ → RwLock) (p : ℕ) (ts : List Txn) → Legal h ts → Legal h (without_readers p ts)
without_readers-Legal h p [] l = tt
without_readers-Legal h p (t ∷ ts) l = ground (arith, without_readers-Legal h p ts l.1)

pub weigh-without_readers :
    (w : Txn → ℕ) (p : ℕ) (ts : List Txn) → weigh w (without_readers p ts) ≤ weigh w ts
weigh-without_readers w p [] = omega arith
weigh-without_readers w p (t ∷ ts) = ground (arith, weigh-without_readers w p ts)

pub count-recorded_id : (i : ℕ) (t : Txn) → count i (recorded_id t) ≤ has_id i t
count-recorded_id i t = ground arith

-- What the loop changes nothing of.
pub record SameLocks (m n : LockManager) : Type 0 where
  pub lock_id : n.next_lock_id ≡ m.next_lock_id
  pub locks : n.locks ≡ m.locks
  pub heap : n.heap ≡ m.heap
  pub object : n.next_object ≡ m.next_object

-- The ids after the loop were there before it or are new, and none is doubled.
pub record Ids (m n : LockManager) (before after : List Txn) : Type 0 where
  pub grows : m.next_txn_id ≤ n.next_txn_id
  pub split :
      (i : ℕ)
      → count i (row_ids n.txns_o_file) + weigh (has_id i) after
        ≤ count i (row_ids m.txns_o_file)
          + weigh (has_id i) before
          + between m.next_txn_id n.next_txn_id i

pub between-step :
    (a b i : ℕ) → a + 1 ≤ b → between a b i ≡ (if a == i then 1 else 0) + between (a + 1) b i
between-step a b i h = ground arith

pub recorded_le :
    (i : ℕ) (t : Txn) (rows old : List ℕ)
    → rows ≡ old ++ recorded_id t
    → count i rows ≤ count i old + has_id i t
recorded_le i t rows old e = rw (e, count-append) (omega (arith, count-recorded_id i t))
