-- ===== src/Convert/Events/Loop.antt =====
-- The loop over the events, for statements about every event of a run.
use lockdoc_tools.Common.{List, [], ◌∷◌, Bool-cases, Option-cases, inl, inr}
use lockdoc_tools.Convert.Result.{Error}
use lockdoc_tools.Convert.Driver.{Allocation, Config, Converter}
use lockdoc_tools.Convert.Allocs.{find_alloc}
use lockdoc_tools.Convert.Events.{
  AccessEvent, Event, Program, Ending, running, stopped, failure, bad_subclass, add_access,
  is_outside, handle_access, is_skipped, action_of, address_of, write_pending, dispatch_event, step,
  run,
}

-- The state that goes on satisfies I, and the error that stops the program J.
abbrev pub Ends : (Converter → Type 0) → (Error → Type 0) → Ending → Type 0
Ends I J (running s) = I s.converter
Ends I J (stopped e) = J e
Ends I J failure = Unit
Ends I J bad_subclass = Unit

module _ (I : Converter → Type 0) (J : Error → Type 0) where
  -- An access that is inside its allocation joins the pending ones.
  pub handle_access-Ends :
      (e : AccessEvent) (s : Program)
      → I s.converter
      → ((d : Allocation) → I (add_access e d s).converter)
      → Ends I J (handle_access e s)
  unfolding handle_access
  handle_access-Ends e s v f =
      elim (Option-cases (find_alloc e.base_address s.converter.active_allocs)) [
        | inl h ↦ rw (h, handle_access) v
        | inr (d, h) ↦ elim (Bool-cases (is_outside e d)) [
          | inl o ↦ rw (h, o, handle_access) tt
          | inr o ↦ rw (h, o, handle_access) (f d)
        ]
      ]

  pub step-Ends :
      (g : Config) (e : Event) (s : Program)
      → I s.converter
      → I (write_pending g (action_of e) (address_of e) s.converter)
      → ((t : Program) → I t.converter → Ends I J (dispatch_event g e t))
      → Ends I J (step g e s)
  unfolding step
  step-Ends g e s v w f = elim (Bool-cases (is_skipped g e)) [
    | inl k ↦ rw (k, step) v
    | inr k ↦
        rw (k, step)
          (f (record s { converter = write_pending g (action_of e) (address_of e) s.converter }) w)
  ]

  -- What every event keeps, a run keeps.
  pub run-Ends :
      (g : Config)
      → ((e : Event) (s : Program) → I s.converter → Ends I J (step g e s))
      → (es : List Event) (s : Program) → I s.converter
      → Ends I J (run g es s)
  unfolding run
  run-Ends g f [] s v = v
  run-Ends g f (e ∷ es) s v = go (step g e s) (f e s v) (λ t w. run-Ends g f es t w)
    where
      go :
          (r : Ending)
          → Ends I J r
          → ((t : Program) → I t.converter → Ends I J (run g es t))
          → Ends I J (elim r [
            | running t ↦ run g es t
            | stopped x ↦ stopped x
            | failure ↦ failure
            | bad_subclass ↦ bad_subclass
          ])
      go (running t) w rest = rest t w
      go (stopped x) w rest = w
      go failure w rest = tt
      go bad_subclass w rest = tt
