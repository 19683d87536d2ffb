-- ===== src/Convert/Run/Ends.antt =====
-- A whole trace: how it can end, and what the files hold then.
use lockdoc_tools.Common.{
  Bool, map, ℕ, ◌≤◌, ◌≡◌, ◌≢◌, refl, ap, List, [], ◌∷◌, ◌++◌, arith, ℤ, count, count-append,
}
use lockdoc_tools.Convert.Result.{invalid_sub_lock}
use lockdoc_tools.Convert.Manager.{stack_of}
use lockdoc_tools.Convert.Finish.Steps.{row_ids}
use lockdoc_tools.Convert.Finish.CloseAll.{close_all_txns-closes}
use lockdoc_tools.Convert.Accesses.{write_mem_accesses, MemAccess, AccessRow}
use lockdoc_tools.Convert.Accesses.Order.{Due, row_of, write_mem_accesses-flushes}
use lockdoc_tools.Convert.Driver.{Allocation, Subclass, AllocRow, Config, Converter, proceed}
use lockdoc_tools.Convert.Allocs.Ids.{open_ids, written_ids, once}
use lockdoc_tools.Convert.Events.{
  Event, Ending, Program, running, stopped, failure, bad_subclass, resume, write_pending, run,
  open_rows, end_of_trace,
}
use lockdoc_tools.Convert.Run.{new_program, finish_trace, read_trace}
use lockdoc_tools.Convert.Run.Sound.{Consistent, Sound, run-Sound, new_program-Consistent}
use lockdoc_tools.Convert.Run.Kept.{write_mem_accesses-WellFormed}

-- The accesses that stand pending in the one state are written in the other as before a V() at the
-- address 0: the rows that come on top of the old ones.
pub record Flushes (g : Config) (c d : Converter) : Type 0 where
  due : List MemAccess
  is_due : Due b'v' 0 c.last_mem_accesses due d.last_mem_accesses
  added : d.access_o_file ≡ c.access_o_file ++ map (row_of g.ctx_tracing c.lock_manager) due

-- What the end of the trace makes of a state: no TXN is open, no access is pending, no id stands in
-- two rows of txns.csv, each id of an allocation that was given out stands in exactly one row of
-- allocations.csv, and accesses.csv has the rows that were due.
pub record Completes (g : Config) (c d : Converter) : Type 0 where
  pub closed : (x : ℤ) → stack_of d.lock_manager.active_txns x ≡ []
  pub flushed : d.last_mem_accesses ≡ []
  pub txn_ids : (i : ℕ) → count i (row_ids d.lock_manager.txns_o_file) ≤ 1
  pub given : d.cur_alloc_id ≡ c.cur_alloc_id
  pub alloc_ids : (i : ℕ) → count i (written_ids d.alloc_o_file) ≡ once d.cur_alloc_id i
  pub accesses : Flushes g c d

-- How the program ends if the loop over the events ends like that.
abbrev pub Ended : Config → Ending → Ending → Type 0
Ended g (running s) r = (t : Program) × ((r ≡ running t) × Completes g s.converter t.converter)
Ended g (stopped e) r = (r ≡ stopped e) × (e ≢ invalid_sub_lock)
Ended g failure r = r ≡ failure
Ended g bad_subclass r = r ≡ bad_subclass

open_rows-ids :
    (cs : List Subclass) (m : List (ℕ × Allocation)) → written_ids (open_rows cs m) ≡ open_ids m
unfolding open_rows
open_rows-ids cs [] = refl
open_rows-ids cs ((a, d) ∷ m) = ap (λ (l : List ℕ). d.id ∷ l) (open_rows-ids cs m)

written_ids-append :
    (xs ys : List AllocRow) → written_ids (xs ++ ys) ≡ written_ids xs ++ written_ids ys
written_ids-append [] ys = refl
written_ids-append (x ∷ xs) ys = ap (λ (l : List ℕ). x.id ∷ l) (written_ids-append xs ys)

nothing_pending :
    (tracing : Bool) (c : Converter)
    → (write_mem_accesses tracing b'v' 0 c.last_mem_accesses c.lock_manager).pending ≡ []
unfolding write_mem_accesses
nothing_pending tracing c = refl

-- From a well-formed state in which each id of an allocation stands in one place, the end of the
-- trace is passed without an error: no TXN is open then, no access is pending, no id stands in two
-- rows of txns.csv, each id of an allocation that was given out stands in exactly one row of
-- allocations.csv, and accesses.csv has got a row for each pending access, the oldest first (but for
-- a pair at the end like that of a lock word at the address 0), with the TXN on top of its context.
pub end_of_trace-Complete :
    (g : Config) (ts : ℕ) (c : Converter)
    → Consistent c
    → (d : Converter) × ((end_of_trace g ts c ≡ proceed d) × Completes g c d)
unfolding end_of_trace write_pending
end_of_trace-Complete g ts c v =
    let rows = c.alloc_o_file ++ open_rows c.subclasses c.active_allocs in
    let d = write_pending g b'v' 0 (record c { alloc_o_file = rows }) in
    let w =
      write_mem_accesses-WellFormed g.ctx_tracing b'v' 0 c.last_mem_accesses c.lock_manager
        v.locks in
    let (due, (is_due, (added, counts))) =
      write_mem_accesses-flushes g.ctx_tracing b'v' 0 c.last_mem_accesses c.lock_manager
        v.locks.ordered in
    let (m, e, u, none_open) = close_all_txns-closes ts d.lock_manager w in
    (
      record d { lock_manager = m },
      (
        rw (e, end_of_trace) refl,
        record {
          closed = none_open;
          flushed = nothing_pending g.ctx_tracing c;
          txn_ids = λ i. ground (arith, u.unique i);
          given = refl;
          alloc_ids = λ i.
              rw
                (
                  written_ids-append c.alloc_o_file (open_rows c.subclasses c.active_allocs),
                  open_rows-ids c.subclasses c.active_allocs,
                  count-append i (written_ids c.alloc_o_file) (open_ids c.active_allocs),
                )
                (v.allocs.1 i);
          accesses = record {
            due = due;
            is_due = is_due;
            added = ap (λ (l : List AccessRow). c.access_o_file ++ l) added;
          };
        },
      ),
    )

-- Whatever the trace holds: if no event stops convert, it passes the end of the trace without an
-- error, with no TXN open, no access pending, no id in two rows of txns.csv, each id of an allocation
-- that was given out in exactly one row of allocations.csv, and a row for each access that was due
-- after the last event (a pair at the end like that of a lock word at the address 0 is not); if an
-- event stops it, it ends as that event does, and not on the id of a sub lock that a lock does not
-- have.
pub read_trace-Ended :
    (g : Config) (es : List Event) (ts : ℕ)
    → Ended g (run g es (new_program g)) (read_trace g es ts)
unfolding read_trace finish_trace resume
read_trace-Ended g es ts =
    go (run g es (new_program g)) (run-Sound g es (new_program g) (new_program-Consistent g))
  where
    go : (r : Ending) → Sound r → Ended g r (finish_trace g ts r)
    go (running s) w =
        let (d, (e, k)) = end_of_trace-Complete g ts s.converter w in
        (record s { converter = d }, (rw (e, finish_trace) refl, k))
    go (stopped x) w = (refl, w)
    go failure w = refl
    go bad_subclass w = refl
