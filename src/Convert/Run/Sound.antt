-- ===== src/Convert/Run/Sound.antt =====
-- The events of a trace, the locks and the ids of allocations.
use lockdoc_tools.Common.{ℕ, ◌≢◌, refl, Bool, true, false, List, arith}
use lockdoc_tools.Convert.Result.{invalid_sub_lock}
use lockdoc_tools.Convert.Invariant.{WellFormed}
use lockdoc_tools.Convert.Driver.{
  Config, Converter, Outcome, proceed, crash, access_outside, mixed_subclass,
}
use lockdoc_tools.Convert.Allocs.Ids.{
  Numbered, StaysNumbered, handle_alloc-Numbered, handle_free-Numbered,
}
use lockdoc_tools.Convert.Events.{
  Event, alloc, free, lock_op, access, unknown, Program, Ending, resume, write_pending,
  dispatch_event, action_of, address_of, step, run, add_access,
}
use lockdoc_tools.Convert.Driver.Cases.{handle_pv_elsewhere}
use lockdoc_tools.Convert.Events.Loop.{Ends, handle_access-Ends, step-Ends, run-Ends}
use lockdoc_tools.Convert.Run.{new_converter, new_program}
use lockdoc_tools.Convert.Run.Kept.{
  Safe, write_mem_accesses-WellFormed, handle_pv-Safe, handle_alloc-Safe, handle_free-Safe,
}

-- The locks are well formed, and each id of an allocation stands in one place.
pub record Consistent (c : Converter) : Type 0 where
  pub locks : WellFormed c.lock_manager
  pub allocs : Numbered c

abbrev pub Sound : Ending → Type 0
Sound = Ends Consistent (λ e. e ≢ invalid_sub_lock)

resume-Sound : (s : Program) (o : Outcome) → Safe o → StaysNumbered o → Sound (resume s o)
unfolding resume
resume-Sound s (proceed c) v n = record { locks = v; allocs = n }
resume-Sound s (crash e) v n = v
resume-Sound s access_outside v n = tt
resume-Sound s mixed_subclass v n = tt

write_pending-Consistent :
    (g : Config) (action address : ℕ) (c : Converter)
    → Consistent c
    → Consistent (write_pending g action address c)
unfolding write_pending
write_pending-Consistent g action address c v = record {
  locks =
      write_mem_accesses-WellFormed g.ctx_tracing action address c.last_mem_accesses c.lock_manager
        v.locks;
  allocs = v.allocs;
}

dispatch_event-Sound :
    (g : Config) (e : Event) (s : Program) → Consistent s.converter → Sound (dispatch_event g e s)
unfolding dispatch_event add_access
dispatch_event-Sound g (alloc e) s v =
    resume-Sound s _ (handle_alloc-Safe g e s.converter v.locks)
      (handle_alloc-Numbered g e s.converter v.allocs)
dispatch_event-Sound g (free e) s v =
    resume-Sound s _ (handle_free-Safe e s.converter v.locks)
      (handle_free-Numbered e s.converter v.allocs)
dispatch_event-Sound g (lock_op e) s v =
    resume-Sound s _ (handle_pv-Safe g e s.converter v.locks)
      (handle_pv_elsewhere StaysNumbered g e s.converter (λ m rows. v.allocs) (λ x. tt))
dispatch_event-Sound g (access e) s v =
    handle_access-Ends Consistent _ e s v (λ d. record { locks = v.locks; allocs = v.allocs })
dispatch_event-Sound g (unknown a) s v = v

-- One turn of the loop, for any event: if it does not stop the program, the manager is well formed
-- and each id of an allocation that is given out stands in one place as before; and it does not stop
-- on the id of a sub lock that a lock does not have.
pub step-Sound :
    (g : Config) (e : Event) (s : Program) → Consistent s.converter → Sound (step g e s)
step-Sound g e s v =
    step-Ends Consistent _ g e s v
      (write_pending-Consistent g (action_of e) (address_of e) s.converter v)
      (dispatch_event-Sound g e)

pub run-Sound :
    (g : Config) (es : List Event) (s : Program) → Consistent s.converter → Sound (run g es s)
run-Sound g = run-Ends Consistent _ g (step-Sound g)

pub new_program-Consistent : (g : Config) → Consistent (new_program g).converter
new_program-Consistent g = record {
  locks = record {
    ordered = tt;
    legal = λ c. tt;
    known = λ c. tt;
    stored = tt;
    sides = λ p. refl;
    unique = λ i. omega arith;
  };
  allocs = numbered g.include_all_locks;
}
  where
    numbered : (b : Bool) → Numbered (new_converter b)
    numbered true = (omega arith, λ i. ground arith)
    numbered false = (omega arith, λ i. ground arith)
