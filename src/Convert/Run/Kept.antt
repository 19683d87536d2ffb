-- ===== src/Convert/Run/Kept.antt =====
-- The events of a trace and the well-formedness of the manager.
use mathlib.Core.List.{reverse}
use lockdoc_tools.Common.{
  ℕ, ◌<◌, ◌≡◌, ◌≢◌, refl, subst, Bool, ◌||◌, Option, List, [], ◌∷◌, arith, All, Option-cases,
  Bool-cases, inl, inr, ℤ, to_u64, ◌==◌, ◌++◌,
}
use lockdoc_tools.Convert.Result.{invalid_sub_lock, Result, ok, err}
use lockdoc_tools.Convert.Lock.{RwLock, write_lock}
use lockdoc_tools.Convert.Manager.{Txn, LockManager, stack_of, set_stack}
use lockdoc_tools.Convert.Manager.Stacks.{weigh, total-set_stack, set_stack-Ascending}
use lockdoc_tools.Convert.Manager.Legal.{Legal}
use lockdoc_tools.Convert.Finish.Keys.{has_id}
use lockdoc_tools.Convert.Invariant.{WellFormed, IsMade, stack_of-set_stack_ind}
use lockdoc_tools.Convert.Transition.Kept.{Keeps, done, failed}
use lockdoc_tools.Convert.Transition.Ids.{transition-Keeps}
use lockdoc_tools.Convert.Locks.Made.{
  Makes, made, refused, alloc_lock-Makes, find_in-Below, delete_lock_by_area-WellFormed,
}
use lockdoc_tools.Convert.Accesses.{
  MemAccess, count_access, counted, write_loop, to_write, write_mem_accesses, ctx_of,
}
use lockdoc_tools.Convert.Driver.{
  Config, Converter, LockEvent, Outcome, proceed, crash, access_outside, mixed_subclass, apply_op,
  create_lock, handle_pv, place_of, new_lock,
}
use lockdoc_tools.Convert.Driver.Cases.{handle_pv_ind}
use lockdoc_tools.Convert.Allocs.{
  AllocEvent, Found, known, created, unknown_type, mixed, add_alloc, enter_alloc, handle_alloc,
  handle_free, end_alloc, find_alloc, find_subclass,
}

-- Counting an access changes no id and no lock.
counted-Legal : (h : ℕ → RwLock) (ts : List Txn) → Legal h ts → Legal h (counted ts)
counted-Legal h [] v = v
counted-Legal h (t ∷ ts) v = v

counted-IsMade : (n : ℕ) (ts : List Txn) → All (IsMade n) ts → All (IsMade n) (counted ts)
counted-IsMade n [] v = v
counted-IsMade n (t ∷ ts) v = v

weigh-counted_ids : (i : ℕ) (ts : List Txn) → weigh (has_id i) (counted ts) ≡ weigh (has_id i) ts
weigh-counted_ids i [] = refl
weigh-counted_ids i (t ∷ ts) = refl

set_counted :
    (c : ℤ) (m : LockManager)
    → WellFormed m
    → WellFormed
        (record m { active_txns = set_stack m.active_txns c (counted (stack_of m.active_txns c)) })
set_counted c m v =
    let s = stack_of m.active_txns c in
    record {
      ordered = set_stack-Ascending m.active_txns c _ v.ordered;
      legal =
          stack_of-set_stack_ind (Legal m.heap) m.active_txns c _
            (counted-Legal m.heap s (v.legal c)) v.legal;
      known =
          stack_of-set_stack_ind (All (IsMade m.next_object)) m.active_txns c _
            (counted-IsMade m.next_object s (v.known c)) v.known;
      stored = v.stored;
      sides = v.sides;
      unique = λ i. omega (
        arith,
        v.unique i,
        weigh-counted_ids i s,
        total-set_stack (has_id i) m.active_txns c (counted s) v.ordered,
      );
    }

count_access-WellFormed : (c : ℤ) (m : LockManager) → WellFormed m → WellFormed (count_access c m)
unfolding count_access
count_access-WellFormed c m v = go (stack_of m.active_txns c) refl
  where
    go :
        (s : List Txn)
        → stack_of m.active_txns c ≡ s
        → WellFormed (elim s as (λ _. LockManager) [
          | [] ↦ m
          | t ∷ ts ↦ record m { active_txns = set_stack m.active_txns c (counted (t ∷ ts)) }
        ])
    go [] e = v
    go (t ∷ ts) e =
        subst (λ s. WellFormed (record m { active_txns = set_stack m.active_txns c (counted s) })) e
          (set_counted c m v)

write_loop-WellFormed :
    (tracing : Bool) (as' : List MemAccess) (m : LockManager)
    → WellFormed m
    → WellFormed (write_loop tracing as' m).1
unfolding write_loop
write_loop-WellFormed tracing [] m v = v
write_loop-WellFormed tracing (a ∷ as') m v =
    write_loop-WellFormed tracing as' (count_access (ctx_of tracing a.ctx) m)
      (count_access-WellFormed (ctx_of tracing a.ctx) m v)

pub write_mem_accesses-WellFormed :
    (tracing : Bool) (action address : ℕ) (as' : List MemAccess) (m : LockManager)
    → WellFormed m
    → WellFormed (write_mem_accesses tracing action address as' m).manager
unfolding write_mem_accesses
write_mem_accesses-WellFormed tracing action address as' m v =
    elim (Bool-cases (action == b'r' || action == b'w')) [
      | inl e ↦ rw (e, write_mem_accesses) v
      | inr e ↦
          rw (e, write_mem_accesses)
            (write_loop-WellFormed tracing (reverse (to_write action address as')) m v)
    ]

-- What an event may end in: a well-formed state, or a stop for another reason than a sub lock that a lock does not have.
abbrev pub Safe : Outcome → Type 0
Safe (proceed c) = WellFormed c.lock_manager
Safe (crash e) = e ≢ invalid_sub_lock
Safe access_outside = Unit
Safe mixed_subclass = Unit

apply_op-Safe :
    (g : Config) (e : LockEvent) (p : ℕ) (s : Converter)
    → WellFormed s.lock_manager
    → p < s.lock_manager.next_object
    → Safe (apply_op g e p s)
unfolding apply_op
apply_op-Safe g e p s v h = go _ (transition-Keeps p e.lock_op (place_of g e) s.lock_manager v h)
  where
    go :
        (r : Result LockManager)
        → Keeps p (s.lock_manager.heap p).class r
        → Safe (elim r [ ok m ↦ proceed (record s { lock_manager = m }) | err x ↦ crash x ])
    go (ok m) (done k) = k.0
    go (err x) (failed k) = k

create_lock-Safe :
    (g : Config) (e : LockEvent) (home : ℕ × Option (List ℕ)) (s : Converter)
    → WellFormed s.lock_manager
    → Safe (create_lock g e home s)
unfolding create_lock
create_lock-Safe g e home s v = go _ (alloc_lock-Makes (new_lock g e home) s.lock_manager v)
  where
    go :
        (r : Result (ℕ × LockManager))
        → Makes r
        → Safe (elim r [
          | ok (p, m) ↦ apply_op g e p (record s {
            lock_manager = m;
            locks_o_file = s.locks_o_file ++ write_lock (m.heap p);
          })
          | err x ↦ crash x
        ])
    go (ok (p, m)) (made w h) =
        apply_op-Safe g e p
          (record s { lock_manager = m; locks_o_file = s.locks_o_file ++ write_lock (m.heap p) }) w
          h
    go (err x) (refused k) = k

pub handle_pv-Safe :
    (g : Config) (e : LockEvent) (s : Converter)
    → WellFormed s.lock_manager
    → Safe (handle_pv g e s)
handle_pv-Safe g e s v =
    handle_pv_ind Safe g e s
      (λ p f.
        apply_op-Safe g e p s v (
          find_in-Below s.lock_manager.next_object s.lock_manager.locks e.lock_address p v.stored
            f))
      v (λ home. create_lock-Safe g e home s v)

enter_alloc-Safe :
    (e : AllocEvent) (s : Converter) (f : Found)
    → WellFormed s.lock_manager
    → Safe (enter_alloc e s f)
unfolding enter_alloc add_alloc
enter_alloc-Safe e s (known i) v = v
enter_alloc-Safe e s unknown_type v = v
enter_alloc-Safe e s mixed v = tt
enter_alloc-Safe e s (created c) v = v

pub handle_alloc-Safe :
    (g : Config) (e : AllocEvent) (s : Converter)
    → WellFormed s.lock_manager
    → Safe (handle_alloc g e s)
unfolding handle_alloc
handle_alloc-Safe g e s v = elim (Option-cases (find_alloc e.base_address s.active_allocs)) [
  | inl f ↦
      rw (f, handle_alloc)
        (enter_alloc-Safe e s (find_subclass g.types s.subclasses s.cur_subclass_id e.type_str) v)
  | inr (d, f) ↦ rw (f, handle_alloc) v
]

pub handle_free-Safe :
    (e : AllocEvent) (s : Converter) → WellFormed s.lock_manager → Safe (handle_free e s)
unfolding handle_free end_alloc
handle_free-Safe e s v = elim (Option-cases (find_alloc e.base_address s.active_allocs)) [
  | inl f ↦ rw (f, handle_free) v
  | inr (d, f) ↦
      rw (f, handle_free)
        (delete_lock_by_area-WellFormed e.base_address (to_u64 d.size) s.lock_manager v)
]
