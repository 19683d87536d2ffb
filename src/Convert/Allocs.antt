-- ===== src/Convert/Allocs.antt =====
-- case LOCKDOC_ALLOC and LOCKDOC_FREE of `main` in convert/main/convert.cc: the allocations, a map
-- by base address, and their subclasses.
pub mod Table
pub mod Ids
use mathlib.Core.List.{reverse}
use lockdoc_tools.Common.{
  ℕ, zero, suc, ◌+◌, ◌%◌, ◌^◌, Bool, true, false, not, ◌&&◌, ◌||◌, Option, none, some, List, [],
  ◌∷◌, ◌++◌, ltb, ◌==◌, if◌then◌else◌, Text, codes, text_eq, contains, ℤ, pos, to_int32, to_u64,
  length, ◌≡◌, next_index,
}
use lockdoc_tools.Convert.Result.{Error, Result, ok, err}
use lockdoc_tools.Convert.Finish.{close_all_txns}
use lockdoc_tools.Convert.Manager.{LockManager}
use lockdoc_tools.Convert.Locks.{delete_lock_by_area}
use lockdoc_tools.Convert.Accesses.{MemAccess, Written, write_mem_accesses}
use lockdoc_tools.Convert.Driver.{
  Allocation, Subclass, AllocRow, Config, Converter, LockEvent, Outcome, proceed, crash,
  access_outside, mixed_subclass, end_of, handle_pv,
}

-- The line of an allocation or of its end. `size` has 64 bits here.
pub record AllocEvent : Type 0 where
  pub ts : ℕ
  pub base_address : ℕ
  pub size : ℕ
  pub type_str : Text

-- activeAllocs.find
unfoldable pub find_alloc : ℕ → List (ℕ × Allocation) → Option Allocation
find_alloc a [] = none
find_alloc a ((k, d) ∷ m) = if k == a then some d else find_alloc a m

unfoldable pub insert_alloc : ℕ → Allocation → List (ℕ × Allocation) → List (ℕ × Allocation)
insert_alloc a d [] = (a, d) ∷ []
insert_alloc a d ((k, e) ∷ m) =
    let rest = insert_alloc a d m in if ltb a k then (a, d) ∷ (k, e) ∷ m else (k, e) ∷ rest

unfoldable pub erase_alloc : ℕ → List (ℕ × Allocation) → List (ℕ × Allocation)
erase_alloc a [] = []
erase_alloc a ((k, d) ∷ m) = if k == a then m else (k, d) ∷ erase_alloc a m

-- The text before the first DELIMITER_SUBCLASS and the text after it, if it occurs.
unfoldable pub split_subclass : Text → Option (Text × Text)
split_subclass [] = none
split_subclass (c ∷ t) =
    let rest = split_subclass t in if c == b':' then some ([], t) else put c rest
  where
    put : ℕ → Option (Text × Text) → Option (Text × Text)
    put c none = none
    put c (some (a, b)) = some (c ∷ a, b)

-- The name of the data type, of the subclass, and whether the subclass is a real one.
unfoldable pub names_of : Text → Text × (Text × Bool)
unfolding split_subclass
names_of t = elim (split_subclass t) [ some (d, s) ↦ (d, (s, true)) | none ↦ (t, (t, false)) ]

-- The position of the first subclass with this name.
unfoldable pub subclass_index : Text → List Subclass → Option ℕ
subclass_index n [] = none
subclass_index n (c ∷ cs) =
    let rest = subclass_index n cs in if text_eq c.name n then some 0 else next_index rest

unfoldable pub type_index : Text → List Text → Option ℕ
type_index n [] = none
type_index n (t ∷ ts) =
    let rest = type_index n ts in if text_eq t n then some 0 else next_index rest

-- The subclass of an allocation, which is made where it is new; `none` ends the event.
pub data Found : Type 0 where
  known : ℕ → Found
  created : Subclass → Found
  unknown_type : Found
  mixed : Found

unfoldable pub find_subclass : List Text → List Subclass → ℕ → Text → Found
unfolding names_of subclass_index type_index
find_subclass types subclasses next_id type_str =
    let n = names_of type_str in
    elim (subclass_index n.1.0 subclasses) [
      | some i ↦ known i
      | none ↦ elim (type_index n.0 types) [
        | none ↦ unknown_type
        | some d ↦ elim (subclass_index n.0 subclasses) [
          | some _ ↦ mixed
          | none ↦
              created
                (record { id = next_id; name = n.1.0; data_type_idx = d; real_subclass = n.1.1 })
        ]
      ]
    ]

-- The allocation is entered, with the next id.
unfoldable pub add_alloc : AllocEvent → ℕ → Converter → Converter
unfolding insert_alloc
add_alloc e i s = record s {
  active_allocs =
      insert_alloc e.base_address
        (record { start = e.ts; id = s.cur_alloc_id; size = to_int32 e.size; subclass_idx = i })
        s.active_allocs;
  cur_alloc_id = s.cur_alloc_id + 1;
}

-- The event after its subclass has been looked for.
unfoldable pub enter_alloc : AllocEvent → Converter → Found → Outcome
unfolding add_alloc
enter_alloc e s (known i) = proceed (add_alloc e i s)
enter_alloc e s unknown_type = proceed s
enter_alloc e s mixed = mixed_subclass
enter_alloc e s (created c) = proceed (
    add_alloc e (length s.subclasses)
      (record s { subclasses = s.subclasses ++ (c ∷ []); cur_subclass_id = s.cur_subclass_id + 1 }))

-- case LOCKDOC_ALLOC
unfoldable pub handle_alloc : Config → AllocEvent → Converter → Outcome
unfolding find_alloc find_subclass enter_alloc
handle_alloc g e s = elim (find_alloc e.base_address s.active_allocs) [
  | some _ ↦ proceed s
  | none ↦ enter_alloc e s (find_subclass g.types s.subclasses s.cur_subclass_id e.type_str)
]

-- `subclasses[i].id`
unfoldable pub subclass_id_at : List Subclass → ℕ → Option ℕ
subclass_id_at [] i = none
subclass_id_at (c ∷ cs) zero = some c.id
subclass_id_at (c ∷ cs) (suc i) = subclass_id_at cs i

-- The row has the size of the line, not that of the allocation.
pub freed_row : AllocEvent → Allocation → Converter → AllocRow
unfolding subclass_id_at
freed_row e d s = record {
  id = d.id;
  subclass_id = subclass_id_at s.subclasses d.subclass_idx;
  base_address = e.base_address;
  size = pos e.size;
  start = d.start;
  stop = some e.ts;
}

-- The locks go by the size of the allocation.
unfoldable pub end_alloc : AllocEvent → Allocation → Converter → Converter
unfolding erase_alloc freed_row
end_alloc e d s = record s {
  alloc_o_file = s.alloc_o_file ++ (freed_row e d s ∷ []);
  lock_manager = delete_lock_by_area e.base_address (to_u64 d.size) s.lock_manager;
  active_allocs = erase_alloc e.base_address s.active_allocs;
}

-- case LOCKDOC_FREE
unfoldable pub handle_free : AllocEvent → Converter → Outcome
unfolding find_alloc end_alloc
handle_free e s = elim (find_alloc e.base_address s.active_allocs) [
  | none ↦ proceed s
  | some d ↦ proceed (end_alloc e d s)
]
