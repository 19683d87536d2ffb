-- ===== src/Convert/Accesses.antt =====
-- writeMemAccesses of convert/main/convert.cc: the pending memory accesses, which go to
-- accesses.csv before anything can end a TXN. The head of `last_mem_accesses` is its back.
pub mod Order
use mathlib.Core.List.{reverse}
use lockdoc_tools.Common.{
  ℕ, ◌+◌, Bool, true, false, ◌&&◌, ◌||◌, Option, none, some, List, [], ◌∷◌, ◌++◌, ◌==◌,
  if◌then◌else◌, ℤ, pos, int_eq,
}
use lockdoc_tools.Convert.Manager.{Txn, stack_of, set_stack, LockManager}

-- struct MemAccess; `action` is the byte of the trace.
pub record MemAccess : Type 0 where
  pub id : ℕ
  pub ts : ℕ
  pub alloc_id : ℕ
  pub action : ℕ
  pub size : ℤ
  pub address : ℕ
  pub stacktrace_id : ℕ
  pub ctx : ℤ

-- A row of accesses.csv; no TXN is written as "\N".
pub record AccessRow : Type 0 where
  pub access : MemAccess
  pub txn_id : Option ℕ

-- DUMMY_EXECUTION_CONTEXT
abbrev pub dummy_ctx : ℤ
dummy_ctx = pos 0

-- The context whose TXN an event counts for.
abbrev pub ctx_of : Bool → ℤ → ℤ
ctx_of tracing ctx = if tracing then ctx else dummy_ctx

abbrev active_id : List Txn → Option ℕ
active_id [] = none
active_id (t ∷ ts) = some t.id

abbrev pub counted : List Txn → List Txn
counted [] = []
counted (t ∷ ts) = record t { mem_access_counter = t.mem_access_counter + 1 } ∷ ts

-- One more access of the active TXN, if there is one.
unfoldable pub count_access : ℤ → LockManager → LockManager
count_access c m = elim (stack_of m.active_txns c) [
  | [] ↦ m
  | t ∷ ts ↦ record m { active_txns = set_stack m.active_txns c (counted (t ∷ ts)) }
]

-- The loop over the accesses, oldest first.
unfoldable pub write_loop : Bool → List MemAccess → LockManager → List AccessRow × LockManager
unfolding count_access
write_loop tracing [] m = ([], m)
write_loop tracing (a ∷ as') m =
    let c = ctx_of tracing a.ctx in
    let rest = write_loop tracing as' (count_access c m) in
    (record { access = a; txn_id = active_id (stack_of m.active_txns c) } ∷ rest.0, rest.1)

-- A read and a write of one value at the address: window[0] is the older one.
pub is_lock_pair : MemAccess → MemAccess → ℕ → Bool
is_lock_pair w0 w1 address =
    w0.ts == w1.ts
    && (w0.action == b'r'
        && (w1.action == b'w'
            && (w0.address == w1.address && (w0.address == address && int_eq w0.size w1.size))))

-- The two last accesses are dropped if they look like those of a spinlock.
pub drop_lock_pair : ℕ → List MemAccess → List MemAccess
unfolding is_lock_pair
drop_lock_pair address [] = []
drop_lock_pair address (w1 ∷ []) = w1 ∷ []
drop_lock_pair address (w1 ∷ w0 ∷ rest) =
    if is_lock_pair w0 w1 address then rest else w1 ∷ w0 ∷ rest

-- What is written for an event of the given action.
pub to_write : ℕ → ℕ → List MemAccess → List MemAccess
unfolding drop_lock_pair
to_write action address accesses =
    if action == b'p' || action == b'v' then drop_lock_pair address accesses else accesses

-- What the call leaves: the manager, the rows that it adds, and the accesses still pending.
pub record Written : Type 0 where
  pub manager : LockManager
  pub rows : List AccessRow
  pub pending : List MemAccess

unfoldable pub write_mem_accesses : Bool → ℕ → ℕ → List MemAccess → LockManager → Written
unfolding to_write write_loop
write_mem_accesses tracing action address accesses m =
    if action == b'r' || action == b'w'
    then record { manager = m; rows = []; pending = accesses }
    else (let r = write_loop tracing (reverse (to_write action address accesses)) m in
        record { manager = r.1; rows = r.0; pending = [] })
