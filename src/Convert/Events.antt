-- ===== src/Convert/Events.antt =====
-- The event loop of `main` in convert/main/convert.cc, after a line has been split and its numbers
-- read, and what `main` does when the trace ends.
pub mod Stacktraces
pub mod Loop
use mathlib.Core.List.{reverse}
use lockdoc_tools.Common.{
  ℕ, zero, suc, ◌+◌, ◌%◌, ◌^◌, Bool, true, false, not, ◌&&◌, ◌||◌, Option, none, some, List, [],
  ◌∷◌, ◌++◌, ltb, ◌==◌, if◌then◌else◌, Text, codes, text_eq, contains, ℤ, pos, to_int32, to_u64,
  length, ◌≡◌,
}
use lockdoc_tools.Convert.Result.{Error, Result, ok, err}
use lockdoc_tools.Convert.Finish.{close_all_txns}
use lockdoc_tools.Convert.Manager.{LockManager}
use lockdoc_tools.Convert.Locks.{delete_lock_by_area}
use lockdoc_tools.Convert.Accesses.{MemAccess, Written, write_mem_accesses}
use lockdoc_tools.Convert.Driver.{
  Allocation, Subclass, AllocRow, Config, Converter, LockEvent, Outcome, proceed, crash,
  access_outside, mixed_subclass, end_of, handle_pv,
}
use lockdoc_tools.Convert.Allocs.{AllocEvent, find_alloc, subclass_id_at, handle_alloc, handle_free}

-- An access, with the numbers of its line.
pub record AccessEvent : Type 0 where
  pub action : ℕ
  pub ts : ℕ
  pub address : ℕ
  pub size : ℕ
  pub base_address : ℕ
  pub instr_ptr : ℕ
  pub stacktrace : Text
  pub ctx : ℤ

pub data Event : Type 0 where
  alloc : AllocEvent → Event
  free : AllocEvent → Event
  lock_op : LockEvent → Event
  access : AccessEvent → Event
  unknown : ℕ → Event

-- All but the last byte.
unfoldable pub pop_back : Text → Text
pop_back [] = []
pop_back (c ∷ []) = []
pop_back (c ∷ d ∷ t) = c ∷ pop_back (d ∷ t)

-- addStacktrace drops the last byte where there is any comma.
unfoldable pub trimmed : Text → Text
unfolding pop_back
trimmed t = if contains t b',' then pop_back t else t

-- A stack trace that is known: its first instruction, its other frames as text, and its id.
pub record Stacktrace : Type 0 where
  pub instr_ptr : ℕ
  pub frames : Text
  pub id : ℕ

unfoldable pub find_stacktrace : ℕ → Text → List Stacktrace → Option ℕ
find_stacktrace p t [] = none
find_stacktrace p t (k ∷ ks) =
    if k.instr_ptr == p && text_eq k.frames t then some k.id else find_stacktrace p t ks

-- The id of the trace, and the table and the next id after that. The rows for stacktraces.csv,
-- whose names and lines come from libbfd and the DWARF reader, are left out.
unfoldable pub add_stacktrace : ℕ → Text → List Stacktrace → ℕ → ℕ × (List Stacktrace × ℕ)
unfolding trimmed find_stacktrace
add_stacktrace p t table next_id = elim (find_stacktrace p (trimmed t) table) [
  | some i ↦ (i, (table, next_id))
  | none ↦
      (next_id, (record { instr_ptr = p; frames = trimmed t; id = next_id } ∷ table, next_id + 1))
]

-- The sanity check on an access, in the arithmetic of `unsigned long long`.
unfoldable pub is_outside : AccessEvent → Allocation → Bool
is_outside e d =
    let last = (e.address + e.size) % 2 ^ 64 in
    ltb e.address e.base_address
    || (ltb (end_of e.base_address d.size) e.address
        || (ltb last e.base_address || ltb (end_of e.base_address d.size) last))

-- The state of the whole program: that of the converter, and the table of stack traces.
pub record Program : Type 0 where
  pub converter : Converter
  pub stacktraces : List Stacktrace
  pub cur_stacktrace_id : ℕ

-- The access joins the pending ones; the head of the list is its back.
unfoldable pub add_access : AccessEvent → Allocation → Program → Program
unfolding add_stacktrace
add_access e d s =
    let r = add_stacktrace e.instr_ptr e.stacktrace s.stacktraces s.cur_stacktrace_id in
    let c = s.converter in
    record {
      stacktraces = r.1.0;
      cur_stacktrace_id = r.1.1;
      converter = record c {
        cur_access_id = c.cur_access_id + 1;
        last_mem_accesses =
            record {
              id = c.cur_access_id;
              ts = e.ts;
              alloc_id = d.id;
              action = e.action;
              size = to_int32 e.size;
              address = e.address;
              stacktrace_id = r.0;
              ctx = e.ctx;
            }
            ∷ c.last_mem_accesses;
      };
    }

-- How an event ends for the whole program.
pub data Ending : Type 0 where
  running : Program → Ending
  stopped : Error → Ending
  failure : Ending
  bad_subclass : Ending

unfoldable pub resume : Program → Outcome → Ending
resume s (proceed c) = running (record s { converter = c })
resume s (crash e) = stopped e
resume s access_outside = failure
resume s mixed_subclass = bad_subclass

-- case LOCKDOC_READ and LOCKDOC_WRITE
unfoldable pub handle_access : AccessEvent → Program → Ending
unfolding find_alloc is_outside add_access
handle_access e s = elim (find_alloc e.base_address s.converter.active_allocs) [
  | none ↦ running s
  | some d ↦ if is_outside e d then failure else running (add_access e d s)
]

-- The action byte of a line: 'a', 'f', 'l', 'r' or 'w', or one that is none of these.
abbrev pub action_of : Event → ℕ
action_of (alloc e) = b'a'
action_of (free e) = b'f'
action_of (lock_op e) = b'l'
action_of (access e) = e.action
action_of (unknown a) = a

-- The address that the loop passes to writeMemAccesses: that of the line, or its initial value.
abbrev pub address_of : Event → ℕ
address_of (lock_op e) = e.lock_address
address_of (access e) = e.address
address_of (alloc e) = 4919
address_of (free e) = 4919
address_of (unknown a) = 4919

-- Lines on the two lock types of sequence counters are passed over, unless the option -s is given.
unfoldable pub is_skipped : Config → Event → Bool
is_skipped g (lock_op e) =
    not g.process_seqlock
    && (text_eq e.lock_type (codes "seqlock_t") || text_eq e.lock_type (codes "seqcount_t"))
is_skipped g (alloc e) = false
is_skipped g (free e) = false
is_skipped g (access e) = false
is_skipped g (unknown a) = false

-- writeMemAccesses on the static variables
unfoldable pub write_pending : Config → ℕ → ℕ → Converter → Converter
unfolding write_mem_accesses
write_pending g action address c =
    let w = write_mem_accesses g.ctx_tracing action address c.last_mem_accesses c.lock_manager in
    record c {
      lock_manager = w.manager;
      access_o_file = c.access_o_file ++ w.rows;
      last_mem_accesses = w.pending;
    }

unfoldable pub dispatch_event : Config → Event → Program → Ending
unfolding resume
dispatch_event g (alloc e) s = resume s (handle_alloc g e s.converter)
dispatch_event g (free e) s = resume s (handle_free e s.converter)
dispatch_event g (lock_op e) s = resume s (handle_pv g e s.converter)
dispatch_event g (access e) s = handle_access e s
dispatch_event g (unknown a) s = running s

-- One turn of the loop.
unfoldable pub step : Config → Event → Program → Ending
unfolding is_skipped write_pending dispatch_event
step g e s =
    if is_skipped g e
    then running s
    else dispatch_event g e
        (record s { converter = write_pending g (action_of e) (address_of e) s.converter })

unfoldable pub run : Config → List Event → Program → Ending
run g [] s = running s
run g (e ∷ es) s = elim (step g e s) [
  | running t ↦ run g es t
  | stopped x ↦ stopped x
  | failure ↦ failure
  | bad_subclass ↦ bad_subclass
]

-- The rows of the allocations that are never freed.
unfoldable pub open_rows : List Subclass → List (ℕ × Allocation) → List AllocRow
unfolding subclass_id_at
open_rows cs [] = []
open_rows cs ((a, d) ∷ m) =
    record {
      id = d.id;
      subclass_id = subclass_id_at cs d.subclass_idx;
      base_address = a;
      size = d.size;
      start = d.start;
      stop = none;
    }
    ∷ open_rows cs m

-- After the last line: the open allocations are written, the pending accesses as before a V(), and
-- all TXNs are closed at the time of the last line.
unfoldable pub end_of_trace : Config → ℕ → Converter → Outcome
unfolding open_rows write_pending
end_of_trace g ts c =
    let d =
      write_pending g b'v' 0
        (record c { alloc_o_file = c.alloc_o_file ++ open_rows c.subclasses c.active_allocs }) in
    elim (close_all_txns ts d.lock_manager) [
      | ok m ↦ proceed (record d { lock_manager = m })
      | err e ↦ crash e
    ]
