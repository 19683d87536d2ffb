-- ===== src/Convert/Allocs/Ids.antt =====
-- The ids of allocations that LOCKDOC_ALLOC and LOCKDOC_FREE give out and write.
use lockdoc_tools.Common.{
  leb, ◌&&◌, ◌<◌, ℕ, ◌+◌, ◌≡◌, ap, Bool, true, false, Option, none, some, List, [], ◌∷◌, ◌++◌, map,
  arith, ltb, ◌==◌, if◌then◌else◌, count, length, Option-cases, inl, inr, to_int32,
}
use lockdoc_tools.Convert.Driver.{
  Allocation, AllocRow, Config, Converter, Outcome, proceed, crash, access_outside, mixed_subclass,
}
use lockdoc_tools.Convert.Allocs.{
  AllocEvent, find_alloc, insert_alloc, erase_alloc, Found, known, created, unknown_type, mixed,
  add_alloc, enter_alloc, freed_row, end_alloc, handle_alloc, handle_free,
}

abbrev pub written_ids : List AllocRow → List ℕ
written_ids = map (λ r. r.id)

abbrev pub open_ids : List (ℕ × Allocation) → List ℕ
open_ids = map (λ e. (e.1).id)

-- How often an id stands among the rows and the open allocations if each id from 1 on that is given
-- out stands once: `next` is the next one.
abbrev pub once : ℕ → ℕ → ℕ
once next i = if leb 1 i && ltb i next then 1 else 0

-- Each id that is given out stands in one place among the rows and the open allocations.
abbrev pub Numbered : Converter → Type 0
Numbered s =
    (0 < s.cur_alloc_id)
    × ((i : ℕ)
        → count i (written_ids s.alloc_o_file) + count i (open_ids s.active_allocs)
          ≡ once s.cur_alloc_id i)

abbrev pub StaysNumbered : Outcome → Type 0
StaysNumbered (proceed s) = Numbered s
StaysNumbered (crash e) = Unit
StaysNumbered access_outside = Unit
StaysNumbered mixed_subclass = Unit

count-insert :
    (i a : ℕ) (d : Allocation) (m : List (ℕ × Allocation))
    → count i (open_ids (insert_alloc a d m)) ≡ count i (open_ids m) + (if d.id == i then 1 else 0)
unfolding insert_alloc
count-insert i a d [] = omega arith
count-insert i a d ((k, e) ∷ m) = ground (arith, count-insert i a d m)

count-written :
    (i : ℕ) (rows : List AllocRow) (r : AllocRow)
    → count i (written_ids (rows ++ (r ∷ [])))
      ≡ count i (written_ids rows) + (if r.id == i then 1 else 0)
count-written i [] r = omega arith
count-written i (q ∷ rows) r = omega (arith, count-written i rows r)

count-erase :
    (i a : ℕ) (d : Allocation) (m : List (ℕ × Allocation))
    → find_alloc a m ≡ some d
    → count i (open_ids (erase_alloc a m)) + (if d.id == i then 1 else 0) ≡ count i (open_ids m)
unfolding erase_alloc find_alloc
count-erase i a d [] f = cc
count-erase i a d ((k, e) ∷ m) f = by_key (k == a) f (count-erase i a d m)
  where
    by_key :
        (b : Bool)
        → (if b then some e else find_alloc a m) ≡ some d
        → (find_alloc a m ≡ some d
            → count i (open_ids (erase_alloc a m)) + (if d.id == i then 1 else 0)
              ≡ count i (open_ids m))
        → count i (open_ids (if b then m else (k, e) ∷ erase_alloc a m))
            + (if d.id == i then 1 else 0)
          ≡ (if e.id == i then 1 else 0) + count i (open_ids m)
    by_key true f ih = let q : e.id ≡ d.id = ap id_of f in ground arith
      where
        id_of : Option Allocation → ℕ
        id_of none = 0
        id_of (some d) = d.id
    by_key false f ih = let q = ih f in omega (arith, q)

add_alloc-Numbered :
    (e : AllocEvent) (j : ℕ) (s : Converter) → Numbered s → Numbered (add_alloc e j s)
unfolding add_alloc
add_alloc-Numbered e j s n = (
  omega arith,
  λ i. ground (
    arith,
    n.0,
    n.1 i,
    count-insert i e.base_address
        (record { start = e.ts; id = s.cur_alloc_id; size = to_int32 e.size; subclass_idx = j })
        s.active_allocs,
  ),
)

enter_alloc-Numbered :
    (e : AllocEvent) (s : Converter) (f : Found) → Numbered s → StaysNumbered (enter_alloc e s f)
unfolding enter_alloc
enter_alloc-Numbered e s (known i) n = add_alloc-Numbered e i s n
enter_alloc-Numbered e s unknown_type n = n
enter_alloc-Numbered e s mixed n = tt
enter_alloc-Numbered e s (created c) n =
    add_alloc-Numbered e (length s.subclasses)
      (record s { subclasses = s.subclasses ++ (c ∷ []); cur_subclass_id = s.cur_subclass_id + 1 })
      n

-- An allocation event that does not stop the program keeps the ids distinct: its allocation gets an id that
-- no other one has.
pub handle_alloc-Numbered :
    (g : Config) (e : AllocEvent) (s : Converter) → Numbered s → StaysNumbered (handle_alloc g e s)
unfolding handle_alloc
handle_alloc-Numbered g e s n = elim (Option-cases (find_alloc e.base_address s.active_allocs)) [
  | inl f ↦ rw (f, handle_alloc) (enter_alloc-Numbered e s _ n)
  | inr (d, f) ↦ rw (f, handle_alloc) n
]

end_alloc-Numbered :
    (e : AllocEvent) (d : Allocation) (s : Converter)
    → find_alloc e.base_address s.active_allocs ≡ some d
    → Numbered s
    → Numbered (end_alloc e d s)
unfolding freed_row end_alloc
end_alloc-Numbered e d s f n = (
  n.0,
  λ i.
      let less = count-erase i e.base_address d s.active_allocs f in
      omega (arith, n.1 i, less, count-written i s.alloc_o_file (freed_row e d s)),
)

-- A free event keeps the ids distinct: the freed allocation is written, and is open no more.
pub handle_free-Numbered :
    (e : AllocEvent) (s : Converter) → Numbered s → StaysNumbered (handle_free e s)
unfolding handle_free
handle_free-Numbered e s n = elim (Option-cases (find_alloc e.base_address s.active_allocs)) [
  | inl f ↦ rw (f, handle_free) n
  | inr (d, f) ↦ rw (f, handle_free) (end_alloc-Numbered e d s f n)
]
