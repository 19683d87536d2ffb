-- ===== src/Convert/Blacklists/Catalog.antt =====
-- The subclasses that a run observes: their ids are their places, and each has a data type.
use lockdoc_tools.Common.{
  ℕ, suc, ◌+◌, ◌<◌, ◌≡◌, refl, Option, none, some, List, [], ◌∷◌, ◌++◌, arith, Text, text_eq,
  length, length-append, next_index, subst, some_inj, Option-cases, Bool-cases, inl, inr,
  if◌then◌else◌,
}
use lockdoc_tools.Convert.Driver.{
  Config, Converter, Subclass, Outcome, proceed, crash, access_outside, mixed_subclass,
}
use lockdoc_tools.Convert.Allocs.{
  AllocEvent, Found, known, created, unknown_type, mixed, find_subclass, names_of, subclass_index,
  type_index, add_alloc, enter_alloc, handle_alloc, handle_free, find_alloc, end_alloc,
}
use lockdoc_tools.Convert.Events.{
  Event, alloc, free, lock_op, access, unknown, Program, Ending, resume, write_pending,
  dispatch_event, step, run, add_access,
}
use lockdoc_tools.Convert.Driver.Cases.{handle_pv_elsewhere}
use lockdoc_tools.Convert.Events.Loop.{Ends, handle_access-Ends, step-Ends, run-Ends}
use lockdoc_tools.Convert.Run.{new_program}

-- The ids count from `n` on, and the data types are among the first `l`.
abbrev pub CountsFrom : ℕ → ℕ → List Subclass → Type 0
CountsFrom l n [] = Unit
CountsFrom l n (c ∷ cs) = (c.id ≡ n) × ((c.data_type_idx < l) × CountsFrom l (suc n) cs)

pub record Cataloged (g : Config) (c : Converter) : Type 0 where
  pub counted : CountsFrom (length g.types) 1 c.subclasses
  pub next : c.cur_subclass_id ≡ 1 + length c.subclasses

CountsFrom-append :
    (l n : ℕ) (cs : List Subclass) (c : Subclass)
    → CountsFrom l n cs
    → c.id ≡ n + length cs
    → c.data_type_idx < l
    → CountsFrom l n (cs ++ (c ∷ []))
CountsFrom-append l n [] c h e t = (omega (arith, e), (t, tt))
CountsFrom-append l n (d ∷ cs) c h e t =
    (h.0, (h.1.0, CountsFrom-append l (suc n) cs c h.1.1 (omega (arith, e)) t))

abbrev StaysCataloged : Config → Outcome → Type 0
StaysCataloged g (proceed s) = Cataloged g s
StaysCataloged g (crash e) = Unit
StaysCataloged g access_outside = Unit
StaysCataloged g mixed_subclass = Unit

type_index-lt : (t : Text) (ts : List Text) (i : ℕ) → type_index t ts ≡ some i → i < length ts
unfolding type_index
type_index-lt t [] i e = cc
type_index-lt t (x ∷ ts) i e = elim (Bool-cases (text_eq x t)) [
  | inl b ↦
      let q =
        some_inj 0 i
          (subst (λ c. (if c then some 0 else next_index (type_index t ts)) ≡ some i) b e) in
      omega (arith, q)
  | inr b ↦
      later (type_index t ts) (type_index-lt t ts)
        (subst (λ c. (if c then some 0 else next_index (type_index t ts)) ≡ some i) b e)
]
  where
    later :
        (o : Option ℕ)
        → ((j : ℕ) → o ≡ some j → j < length ts)
        → next_index o ≡ some i
        → i < suc (length ts)
    later none h q = cc
    later (some j) h q = let p = some_inj (suc j) i q in let k = h j refl in omega (arith, p, k)

-- A subclass that is made has the next id and a data type.
abbrev Fits : Config → ℕ → Found → Type 0
Fits g n (created c) = (c.id ≡ n) × (c.data_type_idx < length g.types)
Fits g n (known i) = Unit
Fits g n unknown_type = Unit
Fits g n mixed = Unit

find_subclass-Fits :
    (g : Config) (cs : List Subclass) (n : ℕ) (t : Text) → Fits g n (find_subclass g.types cs n t)
unfolding find_subclass
find_subclass-Fits g cs n t = elim (Option-cases (subclass_index (names_of t).1.0 cs)) [
  | inr (i, p) ↦ rw (p, find_subclass) tt
  | inl p ↦ elim (Option-cases (type_index (names_of t).0 g.types)) [
    | inl q ↦ rw (p, q, find_subclass) tt
    | inr (d, q) ↦ elim (Option-cases (subclass_index (names_of t).0 cs)) [
      | inr (i, r) ↦ rw (p, q, r, find_subclass) tt
      | inl r ↦ rw (p, q, r, find_subclass) (refl, type_index-lt (names_of t).0 g.types d q)
    ]
  ]
]

enter_alloc-Cataloged :
    (g : Config) (e : AllocEvent) (s : Converter) (f : Found)
    → Cataloged g s
    → Fits g s.cur_subclass_id f
    → StaysCataloged g (enter_alloc e s f)
unfolding enter_alloc add_alloc
enter_alloc-Cataloged g e s (known i) n h = record { counted = n.counted; next = n.next }
enter_alloc-Cataloged g e s unknown_type n h = n
enter_alloc-Cataloged g e s mixed n h = tt
enter_alloc-Cataloged g e s (created c) n h = record {
  counted =
      CountsFrom-append (length g.types) 1 s.subclasses c n.counted (omega (arith, h.0, n.next))
        h.1;
  next = let q = length-append s.subclasses (c ∷ []) in omega (arith, n.next, q);
}

handle_alloc-Cataloged :
    (g : Config) (e : AllocEvent) (s : Converter)
    → Cataloged g s
    → StaysCataloged g (handle_alloc g e s)
unfolding handle_alloc
handle_alloc-Cataloged g e s n = elim (Option-cases (find_alloc e.base_address s.active_allocs)) [
  | inl f ↦
      rw (f, handle_alloc)
        (enter_alloc-Cataloged g e s
          (find_subclass g.types s.subclasses s.cur_subclass_id e.type_str) n
          (find_subclass-Fits g s.subclasses s.cur_subclass_id e.type_str))
  | inr (d, f) ↦ rw (f, handle_alloc) n
]

handle_free-Cataloged :
    (g : Config) (e : AllocEvent) (s : Converter)
    → Cataloged g s
    → StaysCataloged g (handle_free e s)
unfolding handle_free end_alloc
handle_free-Cataloged g e s n = elim (Option-cases (find_alloc e.base_address s.active_allocs)) [
  | inl f ↦ rw (f, handle_free) n
  | inr (d, f) ↦ rw (f, handle_free) (record { counted = n.counted; next = n.next })
]

abbrev pub StillCataloged : Config → Ending → Type 0
StillCataloged g = Ends (Cataloged g) (λ e. Unit)

resume-Cataloged :
    (g : Config) (s : Program) (o : Outcome) → StaysCataloged g o → StillCataloged g (resume s o)
unfolding resume
resume-Cataloged g s (proceed c) v = v
resume-Cataloged g s (crash e) v = tt
resume-Cataloged g s access_outside v = tt
resume-Cataloged g s mixed_subclass v = tt

dispatch_event-Cataloged :
    (g : Config) (e : Event) (s : Program)
    → Cataloged g s.converter
    → StillCataloged g (dispatch_event g e s)
unfolding dispatch_event add_access
dispatch_event-Cataloged g (alloc e) s v =
    resume-Cataloged g s _ (handle_alloc-Cataloged g e s.converter v)
dispatch_event-Cataloged g (free e) s v =
    resume-Cataloged g s _ (handle_free-Cataloged g e s.converter v)
dispatch_event-Cataloged g (lock_op e) s v = resume-Cataloged g s _ (
    handle_pv_elsewhere (StaysCataloged g) g e s.converter
      (λ m rows. record { counted = v.counted; next = v.next }) (λ x. tt))
dispatch_event-Cataloged g (access e) s v =
    handle_access-Ends (Cataloged g) _ e s v (λ d. record { counted = v.counted; next = v.next })
dispatch_event-Cataloged g (unknown a) s v = v

step-Cataloged :
    (g : Config) (e : Event) (s : Program) → Cataloged g s.converter → StillCataloged g (step g e s)
unfolding write_pending
step-Cataloged g e s v =
    step-Ends (Cataloged g) _ g e s v (record { counted = v.counted; next = v.next })
      (dispatch_event-Cataloged g e)

-- Every trace keeps the catalog.
pub run-new_program-Cataloged :
    (g : Config) (es : List Event) → StillCataloged g (run g es (new_program g))
run-new_program-Cataloged g es =
    run-Ends (Cataloged g) _ g (step-Cataloged g) es (new_program g)
      (record { counted = tt; next = refl })
