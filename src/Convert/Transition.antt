-- ===== src/Convert/Transition.antt =====
-- rwlock.cc, and the method `transition` of rwlock.h, rlock.h and wlock.h: acquire (P) and release
-- (V) of the two sub locks. P_WRITE and P_READ share `take`, V_WRITE and V_READ share `release`:
-- their code is the same up to the side.
pub mod Kept
pub mod Ids
pub mod Counts
pub mod Sync
pub mod Moves
pub mod Acquire
pub mod Release
pub mod Refine
use lockdoc_tools.Common.{
  ℕ, suc, ◌+◌, ◌-◌, Bool, true, false, not, ◌&&◌, ◌||◌, List, [], ◌∷◌, ltb, ◌==◌, if◌then◌else◌,
  Text, ℤ, pos, pred_ℤ, int_eq, to_int32,
}
use lockdoc_tools.Convert.Result.{
  Error, invalid_op, invalid_state, pop_on_empty, Result, ok, err, ◌>>=◌,
}
use lockdoc_tools.Convert.Lock.{
  LockOp, p_read, p_write, v_read, v_write, SubLock, reader_lock, writer_lock, LockClass, rw_lock,
  r_lock, w_lock, LockPos, RwLock, is_recursive, count_of, set_count, relative_file,
}
use lockdoc_tools.Convert.Manager.{
  LockManager, set_lock, report, read_side_held, write_side_held, already_held, inconsistent_count,
  cannot_flush, no_running_txn, cannot_pop, already_released, has_active_txn, is_on_txn_stack,
  find_txn, start_txn,
}
use lockdoc_tools.Convert.Finish.{finish_txn}

-- The arguments of a transition besides the lock and the operation.
pub record Place : Type 0 where
  pub ts : ℕ
  pub file : Text
  pub line : ℕ
  pub flags : ℕ
  pub kernel_dir : Text
  pub ctx : ℤ

pub update_flags : ℕ → ℕ → LockManager → LockManager
update_flags p flags m = set_lock p (record (m.heap p) { flags = flags }) m

-- The count after the loop that takes one off for each position.
pub drained : ℤ → List LockPos → ℤ
drained n [] = n
drained n (x ∷ xs) = drained (pred_ℤ n) xs

-- `lastNPos.pop()`
pub pop_pos : ℕ → LockManager → Result LockManager
pop_pos p m = elim ((m.heap p).last_n_pos) [
  | [] ↦ err pop_on_empty
  | x ∷ xs ↦ ok (set_lock p (record (m.heap p) { last_n_pos = xs }) m)
]

-- All positions go, and the count of the side is zero in the end; `side` complains.
pub drain : ℕ → SubLock → SubLock → LockManager → Result LockManager
unfolding drained
drain p s side m = do
  let l = m.heap p
  let m' = set_lock p (set_count (record l { last_n_pos = [] }) s 0) m
  if int_eq (drained (pos (count_of l s)) l.last_n_pos) (pos 0)
      then ok m'
      else report p side inconsistent_count m'

-- The other side of the lock is held: close its TXNs in this context.
pub flush : ℕ → SubLock → SubLock → ℕ → ℤ → LockManager → Result LockManager
unfolding drain
flush p s side ts ctx m = do
  r ← finish_txn p s ts true ctx ctx m
  if r.0 then drain p s side r.1 else report p side cannot_flush r.1

-- The tests on the two counts.
abbrev pub only_readers : RwLock → Bool
only_readers l = l.writer_count == 0 && ltb 0 l.reader_count

abbrev pub only_writers : RwLock → Bool
only_writers l = ltb 0 l.writer_count && l.reader_count == 0

abbrev pub both_sides : RwLock → Bool
both_sides l = ltb 0 l.writer_count && ltb 0 l.reader_count

-- P_WRITE on a lock that is held and not recursive: the V() is taken to be missing.
pub close_held : ℕ → ℕ → ℤ → LockManager → Result LockManager
unfolding pop_pos
close_held p ts ctx m = do
  m ← report p writer_lock already_held m
  r ← finish_txn p writer_lock ts false ctx ctx m
  if r.0 then pop_pos p r.1 else ok r.1

-- What P_WRITE does by the counts, before it takes the lock.
pub before_write : ℕ → ℕ → ℤ → LockManager → Result LockManager
unfolding flush close_held
before_write p ts ctx m =
    let l = m.heap p in
    if only_readers l
    then (report p writer_lock read_side_held m >>= flush p reader_lock writer_lock ts ctx)
    else if only_writers l
    then if is_recursive l then ok m else close_held p ts ctx m
    else if both_sides l
    then err invalid_state
    else ok m

-- The same for P_READ.
pub before_read : ℕ → ℕ → ℤ → LockManager → Result LockManager
unfolding flush
before_read p ts ctx m =
    let l = m.heap p in
    if only_readers l
    then ok m
    else if only_writers l
    then (report p reader_lock write_side_held m >>= flush p writer_lock reader_lock ts ctx)
    else if both_sides l
    then err invalid_state
    else ok m

pub position : SubLock → Place → LockPos
position s e = record {
  sub_lock = s;
  start = e.ts;
  last_line = to_int32 e.line;
  last_file = relative_file e.kernel_dir e.file;
}

-- The lock with the new position on top.
pub noted : ℕ → SubLock → Place → LockManager → RwLock
unfolding position
noted p s e m = let l = m.heap p in record l { last_n_pos = position s e ∷ l.last_n_pos }

pub taken : ℕ → SubLock → Place → LockManager → RwLock
unfolding noted
taken p s e m = set_count (noted p s e m) s (suc (count_of (m.heap p) s))

-- One more holder of the side, its position, and a new TXN.
pub take : ℕ → SubLock → Place → LockManager → LockManager
unfolding taken
take p s e m = start_txn p e.ts s e.ctx (set_lock p (taken p s e m) m)

-- Whether this context has no TXN to finish, so that another one is looked for.
pub must_search : ℕ → SubLock → ℤ → LockManager → Bool
must_search p s ctx m = not (has_active_txn m ctx) || not (is_on_txn_stack m ctx p s)

-- The context whose stack has the TXN to finish.
pub owner : ℕ → SubLock → ℤ → LockManager → ℤ
unfolding must_search
owner p s ctx m = if must_search p s ctx m then find_txn m p s ctx else ctx

-- Neither this context nor another has a TXN to finish, and this one has none at all.
pub is_lost : ℕ → SubLock → ℤ → LockManager → Bool
unfolding must_search owner
is_lost p s ctx m =
    must_search p s ctx m
    && (int_eq (owner p s ctx m) ctx && not (has_active_txn m (owner p s ctx m)))

pub note_owner : ℕ → SubLock → ℤ → LockManager → Result LockManager
unfolding is_lost
note_owner p s ctx m = if is_lost p s ctx m then report p s no_running_txn m else ok m

-- V() on a lock with a known position.
pub release_txn : ℕ → SubLock → ℕ → ℤ → LockManager → Result LockManager
unfolding owner note_owner pop_pos
release_txn p s ts ctx m = do
  m' ← note_owner p s ctx m
  r ← finish_txn p s ts false (owner p s ctx m) ctx m'
  if r.0 then pop_pos p r.1 else ok r.1

pub lower_count : ℕ → SubLock → LockManager → Result LockManager
lower_count p s m =
    if count_of (m.heap p) s == 0
    then report p s already_released m
    else ok (set_lock p (set_count (m.heap p) s (count_of (m.heap p) s - 1)) m)

pub release : ℕ → SubLock → ℕ → ℤ → LockManager → Result LockManager
unfolding release_txn lower_count
release p s ts ctx m = do
  m ← elim ((m.heap p).last_n_pos) [
    | [] ↦ report p s cannot_pop m
    | x ∷ xs ↦ release_txn p s ts ctx m
  ]
  lower_count p s m

-- RWLock::writeTransition
pub write_transition : ℕ → LockOp → Place → LockManager → Result LockManager
unfolding update_flags before_write take release
write_transition p p_write e m =
    before_write p e.ts e.ctx (update_flags p e.flags m) >>= λ m. ok (take p writer_lock e m)
write_transition p v_write e m = release p writer_lock e.ts e.ctx (update_flags p e.flags m)
write_transition p p_read e m = err invalid_op
write_transition p v_read e m = err invalid_op

-- RWLock::readTransition
pub read_transition : ℕ → LockOp → Place → LockManager → Result LockManager
unfolding update_flags before_read take release
read_transition p p_read e m =
    before_read p e.ts e.ctx (update_flags p e.flags m) >>= λ m. ok (take p reader_lock e m)
read_transition p v_read e m = release p reader_lock e.ts e.ctx (update_flags p e.flags m)
read_transition p p_write e m = err invalid_op
read_transition p v_write e m = err invalid_op

-- RWLock::transition, by the operation.
pub rw_transition : ℕ → LockOp → Place → LockManager → Result LockManager
unfolding write_transition read_transition
rw_transition p p_write e m = write_transition p p_write e m
rw_transition p v_write e m = write_transition p v_write e m
rw_transition p p_read e m = read_transition p p_read e m
rw_transition p v_read e m = read_transition p v_read e m

pub dispatch : LockClass → ℕ → LockOp → Place → LockManager → Result LockManager
unfolding rw_transition write_transition read_transition
dispatch rw_lock = rw_transition
dispatch r_lock = read_transition
dispatch w_lock = write_transition

-- The virtual method of the lock's class.
unfoldable pub transition : ℕ → LockOp → Place → LockManager → Result LockManager
unfolding dispatch
transition p op e m = dispatch ((m.heap p).class) p op e m
