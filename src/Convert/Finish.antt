-- ===== src/Convert/Finish.antt =====
-- LockManager::finishTXN and LockManager::closeAllTXNs.
pub mod Steps
pub mod Keys
pub mod Loop
pub mod Finishes
pub mod CloseAll
pub mod Held
use mathlib.Core.List.{reverse}
use lockdoc_tools.Common.{
  map, ℕ, zero, suc, ◌+◌, Bool, true, false, List, [], ◌∷◌, ◌++◌, ltb, ◌==◌, if◌then◌else◌,
  contains, ℤ, length,
}
use lockdoc_tools.Convert.Result.{Error, Result, ok, err, ◌>>=◌}
use lockdoc_tools.Convert.Lock.{
  SubLock, reader_lock, writer_lock, sub_eq, LockPos, RwLock, is_held, get_id,
}
use lockdoc_tools.Convert.Manager.{
  Txn, TxnRow, HeldRow, Notice, stack_underflow, not_held, multiple_writers, sub_lock_mismatch,
  no_matching_txn, still_active, Message, TxnStacks, stack_of, set_stack, LockManager, say,
  message_about, report, is_of,
}

-- What one pass of the loop over the held locks adds: the ids seen, a row or none, the messages.
abbrev pub Visit : Type 0
Visit = List ℕ × List HeldRow × List Message

pub held_row : ℕ → ℕ → LockPos → HeldRow
held_row txn_id lock_id p = record {
  txn_id = txn_id;
  lock_id = lock_id;
  start = p.start;
  last_file = p.last_file;
  last_line = p.last_line;
}

-- A lock is written once, however often it is held.
abbrev visit_pos : ℕ → List ℕ → ℕ → LockPos → Visit
visit_pos txn_id seen lock_id p =
    if contains seen lock_id
    then (seen, [], [])
    else (lock_id ∷ seen, held_row txn_id lock_id p ∷ [], [])

abbrev visit_lock : ℕ → List ℕ → RwLock → SubLock → List LockPos → Result Visit
visit_lock txn_id seen l s [] = message_about l s stack_underflow >>= λ ms. ok (seen, [], ms)
visit_lock txn_id seen l s (p ∷ ps) = get_id l s >>= λ id. ok (visit_pos txn_id seen id p)

pub visit : ℕ → List ℕ → RwLock → SubLock → Result Visit
unfolding held_row
visit txn_id seen l s =
    if is_held l
    then visit_lock txn_id seen l s l.last_n_pos
    else message_about l s not_held >>= λ ms. ok (seen, [], ms)

-- The loop over the stack of a context, from the front of the deque: the rows of locks_held.csv
-- for the TXN `txn_id`, and the messages.
pub held_rows : (ℕ → RwLock) → ℕ → List ℕ → List Txn → Result (List HeldRow × List Message)
unfolding visit
held_rows h txn_id seen [] = ok ([], [])
held_rows h txn_id seen (t ∷ ts) = do
  v ← visit txn_id seen (h t.lock) t.sub_lock
  rest ← held_rows h txn_id v.0 ts
  ok (v.1 ++ rest.0, v.2 ++ rest.1)

txn_row : ℕ → ℤ → Txn → TxnRow
txn_row ts ctx_old t = record {
  id = t.id;
  start_ts = t.start_ts;
  start_ctx = t.start_ctx;
  end_ts = ts;
  end_ctx = ctx_old;
}

-- SKIP_EMPTY_TXNS: a TXN without memory accesses is not recorded.
pub record_txn : ℕ → ℤ → Txn → List Txn → LockManager → Result LockManager
unfolding held_rows txn_row
record_txn ts ctx_old top below m =
    if ltb 0 top.mem_access_counter
    then (held_rows m.heap top.id [] (reverse (top ∷ below)) >>= λ r. ok (record m {
      txns_o_file = m.txns_o_file ++ txn_row ts ctx_old top ∷ [];
      locks_held_o_file = m.locks_held_o_file ++ r.0;
      messages = m.messages ++ r.1;
    }))
    else ok m

-- The loop of `removeReader`, from the front of the deque: it drops the reader TXNs of the lock,
-- and complains of its writer TXNs.
pub remove_readers : ℕ → RwLock → List Txn → Result (List Txn × List Message)
remove_readers p l [] = ok ([], [])
remove_readers p l (t ∷ ts) = do
  r ← remove_readers p l ts
  if t.lock == p
      then (if sub_eq t.sub_lock reader_lock
          then ok r
          else (message_about l t.sub_lock multiple_writers >>= λ ms. ok (t ∷ r.0, r.1 ++ ms)))
      else ok (t ∷ r.0, r.1)

-- The TXN under a new id, from now on.
pub renew : ℕ → ℕ → ℤ → Txn → Txn
renew id ts ctx t = record t { id = id; start_ts = ts; mem_access_counter = 0; start_ctx = ctx }

pub mismatch : ℕ → Txn → LockManager → Result LockManager
mismatch p t m = if t.lock == p then report p t.sub_lock sub_lock_mismatch m else ok m

module _ (p : ℕ) (s : SubLock) (ts : ℕ) (remove_reader : Bool) (ctx ctx_old : ℤ) where
  pub found_txn : List Txn → List Txn → LockManager → Result (Bool × LockManager)
  unfolding remove_readers
  found_txn restart below m = do
    r ← if remove_reader then remove_readers p (m.heap p) below else ok (below, [])
    ok (true, say r.1 (record m { active_txns = set_stack m.active_txns ctx (restart ++ r.0) }))

  -- The `while` loop over the stack, with the TXNs to restart.
  pub finish_loop : List Txn → List Txn → LockManager → Result (Bool × LockManager)
  unfolding record_txn found_txn mismatch renew
  finish_loop restart [] m = do
    m ← report p s no_matching_txn m
    ok (false, record m { active_txns = set_stack m.active_txns ctx restart })
  finish_loop restart (t ∷ below) m = do
    m ← record_txn ts ctx_old t below m
    elim (is_of p s t) [
      | true ↦ found_txn restart below m
      | false ↦ mismatch p t m >>= λ m.
          finish_loop (restart ++ renew m.next_txn_id ts ctx t ∷ []) below
            (record m { next_txn_id = m.next_txn_id + 1 })
    ]

  -- Whether a TXN of the sub lock was found; all TXNs above it are restarted.
  unfoldable pub finish_txn : LockManager → Result (Bool × LockManager)
  unfolding finish_loop
  finish_txn m = finish_loop [] (stack_of m.active_txns ctx) m

-- The `while` loop of `closeAllTXNs` for one context, with as much fuel as TXNs are open.
pub close_context : ℕ → ℕ → ℤ → LockManager → Result LockManager
close_context zero ts c m = ok m
close_context (suc n) ts c m = elim (stack_of m.active_txns c) [
  | [] ↦ ok m
  | top ∷ below ↦
      finish_txn top.lock top.sub_lock ts false c c
        (say (record { notice = still_active; about = length (top ∷ below) } ∷ []) m)
      >>= λ r. close_context n ts c r.1
]

pub close_contexts : ℕ → List ℤ → LockManager → Result LockManager
unfolding close_context
close_contexts ts [] m = ok m
close_contexts ts (c ∷ cs) m =
    close_context (length (stack_of m.active_txns c)) ts c m >>= close_contexts ts cs

unfoldable pub close_all_txns : ℕ → LockManager → Result LockManager
unfolding close_contexts
close_all_txns ts m = close_contexts ts (map (λ e. e.0) m.active_txns) m
