-- ===== src/Convert/RunTests.antt =====
-- A small trace: an object is made, locked, written to, unlocked and freed.
use lockdoc_tools.Common.{List, ℕ, none, [], ◌∷◌, false, true, codes, pos, ◌≡◌, refl, Bool, length}
use lockdoc_tools.Convert.Lock.{p_write, v_write, LockOp}
use lockdoc_tools.Convert.Driver.{Config, Converter, LockEvent, proceed, handle_pv}
use lockdoc_tools.Convert.Allocs.{AllocEvent, find_alloc, handle_alloc}
use lockdoc_tools.Convert.Accesses.{write_mem_accesses, write_loop}
use lockdoc_tools.Convert.Manager.{stack_of, find_in, start_txn}
use lockdoc_tools.Convert.Locks.{alloc_lock}
use lockdoc_tools.Convert.Transition.{transition}
use lockdoc_tools.Convert.Events.{
  Event, alloc, free, lock_op, access, AccessEvent, Ending, running, stopped, failure, bad_subclass,
  step, run, end_of_trace, is_skipped, dispatch_event, resume, write_pending, handle_access,
  is_outside, add_access, add_stacktrace, find_stacktrace, trimmed,
}
use lockdoc_tools.Convert.Run.{new_program, new_converter, read_trace}
use lockdoc_tools.Convert.Run.Sound.{
  Consistent, Sound, step-Sound, run-Sound, new_program-Consistent,
}
use lockdoc_tools.Convert.Run.Ends.{Completes, Ended, end_of_trace-Complete, read_trace-Ended}

abbrev config : Config
config = record {
  ctx_tracing = false;
  include_all_locks = true;
  process_seqlock = false;
  pseudo_alloc_id = 1;
  kernel_base_dir = [];
  data_sections = [];
  global_lock_var = λ a. none;
  types = codes "inode" ∷ [];
}

abbrev object_line : ℕ → AllocEvent
object_line t = record { ts = t; base_address = 4096; size = 64; type_str = codes "inode" }

abbrev lock_line : LockOp → ℕ → LockEvent
lock_line op t = record {
  lock_op = op;
  ts = t;
  lock_address = 4100;
  file = codes "inode.c";
  line = 7;
  lock_member = codes "i_lock";
  lock_type = codes "mutex";
  flags = 0;
  ctx = pos 0;
}

abbrev write_line : ℕ → AccessEvent
write_line t = record {
  action = b'w';
  ts = t;
  address = 4128;
  size = 8;
  base_address = 4096;
  instr_ptr = 77;
  stacktrace = [];
  ctx = pos 0;
}

abbrev trace : List Event
trace =
    alloc (object_line 1)
    ∷ lock_op (lock_line p_write 2)
    ∷ access (write_line 3)
    ∷ lock_op (lock_line v_write 4)
    ∷ free (object_line 5)
    ∷ []

read_trace-Ended_example :
    Ended config (run config trace (new_program config)) (read_trace config trace 5)
read_trace-Ended_example = read_trace-Ended config trace 5

step-Sound_example : Sound (step config (lock_op (lock_line p_write 2)) (new_program config))
step-Sound_example =
    step-Sound config (lock_op (lock_line p_write 2)) (new_program config)
      (new_program-Consistent config)

-- The state after an object was made, locked and written to: a TXN is open, an access is pending, and
-- the object is not freed.
abbrev unfinished : List Event
unfinished = alloc (object_line 1) ∷ lock_op (lock_line p_write 2) ∷ access (write_line 3) ∷ []

abbrev converter_of : Ending → Converter
converter_of (running s) = s.converter
converter_of _ = new_converter true

abbrev is_running : Ending → Bool
is_running (running s) = true
is_running _ = false

abbrev busy : Converter
busy = converter_of (run config unfinished (new_program config))

busy_runs :
    (is_running (run config unfinished (new_program config)) ≡ true)
    × ((length busy.last_mem_accesses ≡ 1)
        × ((length busy.active_allocs ≡ 1)
            × (length (stack_of busy.lock_manager.active_txns (pos 0)) ≡ 1)))
unfolding run step is_skipped dispatch_event resume write_pending handle_access find_alloc
    is_outside add_access add_stacktrace find_stacktrace trimmed write_mem_accesses write_loop
    handle_alloc handle_pv find_in alloc_lock transition start_txn
busy_runs = (refl, (refl, (refl, refl)))

Sound-Consistent : (r : Ending) → Sound r → is_running r ≡ true → Consistent (converter_of r)
Sound-Consistent (running s) v e = v
Sound-Consistent (stopped x) v e = cc
Sound-Consistent failure v e = cc
Sound-Consistent bad_subclass v e = cc

busy-Consistent : Consistent busy
busy-Consistent =
    Sound-Consistent (run config unfinished (new_program config))
      (run-Sound config unfinished (new_program config) (new_program-Consistent config)) busy_runs.0

end_of_trace-Complete_example :
    (d : Converter) × ((end_of_trace config 9 busy ≡ proceed d) × Completes config busy d)
end_of_trace-Complete_example = end_of_trace-Complete config 9 busy busy-Consistent
