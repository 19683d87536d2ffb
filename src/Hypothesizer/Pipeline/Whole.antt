-- ===== src/Hypothesizer/Pipeline/Whole.antt =====
-- The hypothesizer from its members to the report.
use lockdoc_tools.Common.{
  ◌%◌, ◌^◌, ◌<◌, ◌+◌, zero, suc, none, get_elem?, drop, length, ltb, ℕ, ◌≤◌, ◌≡◌, refl, ap, Bool,
  true, false, some, List, [], ◌∷◌, map, if◌then◌else◌, All, Text, arith, Bool-cases, inl, inr,
}
use lockdoc_tools.Hypothesizer.Combination.{LockCombination}
use lockdoc_tools.Hypothesizer.Search.{Member, LockingHypothesisMatches}
use lockdoc_tools.Hypothesizer.Search.Evaluate.{Searched, Recorded}
use lockdoc_tools.Hypothesizer.Search.Find.{find_hypotheses-Searched}
use lockdoc_tools.Hypothesizer.Winner.{Doubles}
use lockdoc_tools.Hypothesizer.Winner.Walk.{determine_winning_hypothesis-IsGroup}
use lockdoc_tools.Hypothesizer.Input.{InputMember}
use lockdoc_tools.Hypothesizer.Report.{ReportMode, Sorting, Line, Judged, judged, any_hypothesis}
use lockdoc_tools.Hypothesizer.Report.Winners.{winners}
use lockdoc_tools.Hypothesizer.Report.Marks.{wins_above, HasOrder, print_hypotheses-marks}
use lockdoc_tools.Hypothesizer.Pipeline.{
  Options, is_accepted, to_member, below_cutoff, analyse, report_members, copy_loop, copy_members,
  report_input,
}

abbrev pub accepted : List Text → List Text → List InputMember → List InputMember
accepted datatypes members [] = []
accepted datatypes members (m ∷ ms) =
    if is_accepted datatypes members m
    then m ∷ accepted datatypes members ms
    else accepted datatypes members ms

one_at_most : (b : Bool) → (if b then 1 else 0) ≤ 1
one_at_most true = omega arith
one_at_most false = omega arith

Recorded-HasOrder :
    (k : Judged) (s : Sorting) (mode : ReportMode) (cs : List LockCombination)
    (hs : List (List ℕ × LockingHypothesisMatches))
    → All (Recorded cs) hs
    → All (HasOrder k s mode) (map (λ e. e.1) hs)
Recorded-HasOrder k s mode cs [] r = tt
Recorded-HasOrder k s mode cs (h ∷ hs) r = (r.0.seen, Recorded-HasOrder k s mode cs hs r.1)

to_member-Searched : (m : InputMember) → Searched (to_member m).combinations (to_member m)
unfolding to_member
to_member-Searched m = record { unchanged = refl; edges = λ n. tt; recorded = tt }

-- Each member with its copy.
copies : List InputMember → List (InputMember × Member)
copies = map (λ m. (m, to_member m))

-- A member among the first, and the rest from it on.
drop-elem :
    (ms : List InputMember) (i : ℕ)
    → i < length ms
    → (m : InputMember) × ((get_elem? ms i ≡ some m) × (drop i ms ≡ m ∷ drop (suc i) ms))
drop-elem [] i lt = absurd (omega (arith, lt))
drop-elem (m ∷ ms) zero lt = (m, (refl, refl))
drop-elem (m ∷ ms) (suc i) lt = drop-elem ms i (omega (arith, lt))

past_end : (ms : List InputMember) (i : ℕ) → length ms ≤ i → get_elem? ms i ≡ none
past_end [] i le = refl
past_end (m ∷ ms) zero le = absurd (omega (arith, le))
past_end (m ∷ ms) (suc i) le = past_end ms i (omega (arith, le))

drop-all : (ms : List InputMember) (i : ℕ) → length ms ≤ i → drop i ms ≡ []
drop-all [] zero le = refl
drop-all [] (suc i) le = refl
drop-all (m ∷ ms) zero le = absurd (omega (arith, le))
drop-all (m ∷ ms) (suc i) le = drop-all ms i (omega (arith, le))

copy_loop-copies :
    (n i : ℕ) (ms : List InputMember)
    → length ms < 2 ^ 16
    → i ≤ length ms
    → length ms < n + i
    → copy_loop n i ms ≡ some (copies (drop i ms))
unfolding copy_loop copies
copy_loop-copies zero i ms few le fuel = absurd (omega (arith, le, fuel))
copy_loop-copies (suc n) i ms few le fuel = elim (Bool-cases (ltb i (length ms))) [
  | inl lt ↦
      let (m, (e, f)) = drop-elem ms i (ground arith) in
      let next : (i + 1) % 2 ^ 16 ≡ suc i =
        (let lt' : i < length ms = ground (arith, lt) in omega (arith, few, lt')) in
      rw
        (
          e,
          f,
          next,
          copy_loop-copies n (suc i) ms few (ground (arith, lt)) (omega (arith, fuel)),
          copy_loop,
        )
        refl
  | inr ge ↦
      let end : length ms ≤ i = ground (arith, ge) in
      rw (past_end ms i end, drop-all ms i end, copy_loop) refl
]

copy_members-copies :
    (ms : List InputMember) → length ms < 2 ^ 16 → copy_members ms ≡ some (copies ms)
unfolding copy_members
copy_members-copies ms few = copy_loop-copies (2 ^ 16) 0 ms few (omega arith) (omega (arith, few))

-- With 2^16 members, which is what the reading of the input lets through at most, the loop that
-- copies them does not end, however many rounds it is given.
copy_loop-endless :
    (n i : ℕ) (ms : List InputMember) → length ms ≡ 2 ^ 16 → i < 2 ^ 16 → copy_loop n i ms ≡ none
unfolding copy_loop
copy_loop-endless zero i ms all lt = refl
copy_loop-endless (suc n) i ms all lt =
    let (m, (e, f)) = drop-elem ms i (omega (arith, all, lt)) in
    rw (e, copy_loop-endless n ((i + 1) % 2 ^ 16) ms all (omega arith), copy_loop) refl

module _ (d : Doubles) (s : Sorting) (o : Options d) where
  analyse-reports :
      (m : Member)
      → Searched m.combinations m
      → (ls : List Line) × ((analyse d s o m ≡ some ls) × (winners ls ≤ 1))
  unfolding analyse judged
  analyse-reports m v =
      let (n, e, w) = find_hypotheses-Searched o.max_hypo_len m v in
      let (r, f, g) = determine_winning_hypothesis-IsGroup d o.strategy n w.edges in
      let k = judged d n r in
      let p =
        print_hypotheses-marks k s o.mode (below_cutoff d s o n)
          (Recorded-HasOrder k s o.mode m.combinations n.hypotheses w.recorded) in
      (
        p.0,
        (
          rw (e, f, analyse) p.1.0,
          omega (
            arith,
            p.1.1.0,
            one_at_most
                (any_hypothesis (wins_above k s o.mode (below_cutoff d s o n)) k.hypotheses),
          ),
        ),
      )

  report_copies :
      (ms : List InputMember)
      → (rows : List (InputMember × List Line)) × ((report_members d s o (copies ms) ≡ some rows)
          × ((map (λ e. e.0) rows ≡ accepted o.accepted_datatypes o.accepted_members ms)
              × All (λ (e : InputMember × List Line). winners e.1 ≤ 1) rows))
  unfolding report_members copies
  report_copies [] = ([], (refl, (refl, tt)))
  report_copies (m ∷ ms) =
      let r = report_copies ms in
      elim (Bool-cases (is_accepted o.accepted_datatypes o.accepted_members m)) [
        | inl e ↦
            let a = analyse-reports (to_member m) (to_member-Searched m) in
            (
              (m, a.0) ∷ r.0,
              (
                rw (e, a.1.0, r.1.0, report_members) refl,
                (rw e (ap (λ (l : List InputMember). m ∷ l) r.1.1.0), (a.1.1, r.1.1.1)),
              ),
            )
        | inr e ↦ (r.0, (rw (e, report_members) r.1.0, (rw e r.1.1.0, r.1.1.1)))
      ]

  -- For every list of fewer than 2^16 members, and every option, main gets from the members to its
  -- end: the loop that copies the combinations ends, no assertion fails and nothing is undefined,
  -- exactly the members that the options let through are reported, in their order, and one line of
  -- each report at most is marked as the winner.
  pub report_members-reports :
      (ms : List InputMember)
      → length ms < 2 ^ 16
      → (rows : List (InputMember × List Line)) × ((report_input d s o ms ≡ some rows)
          × ((map (λ e. e.0) rows ≡ accepted o.accepted_datatypes o.accepted_members ms)
              × All (λ (e : InputMember × List Line). winners e.1 ≤ 1) rows))
  unfolding report_input
  report_members-reports ms few =
      let r = report_copies ms in
      (r.0, (rw (copy_members-copies ms few, report_input) r.1.0, r.1.1))
