-- ===== src/Hypothesizer/Report/Marks.antt =====
-- print_hypotheses: the marks in a whole report.
use lockdoc_tools.Common.{
  ℕ, ◌<◌, ◌≤◌, ◌≡◌, refl, ap, ◌∙◌, Bool, false, not, ◌&&◌, ◌||◌, some, List, [], ◌∷◌, ◌++◌, ◌==◌,
  if◌then◌else◌, length, All, All-append, arith, Bool-cases, inl, inr,
}
use lockdoc_tools.Hypothesizer.Search.{LockingHypothesisMatches}
use lockdoc_tools.Hypothesizer.Report.{
  ReportMode, normal, csv, csvwinner, doc, Line, Orders, any_hypothesis, Sorting, Judged,
  show_orders, many_orders, shown_lines, show_hypothesis, show_hypotheses, print_hypotheses,
  set_lines,
}
use lockdoc_tools.Hypothesizer.Report.Winners.{
  winners, winners-append, Justified, wins, show_orders-winners, show_orders-Justified,
  shown_lines-winners, shown_lines-Justified, set_lines-plain,
}

module _ (m : Judged) (s : Sorting) (mode : ReportMode) where
  -- A hypothesis with an order.
  abbrev pub HasOrder : LockingHypothesisMatches → Type 0
  HasOrder h = 0 < length h.matches

  record Shown (found : Bool) (w : Bool) (ls : List Line) : Type 0 where
    count : winners ls ≡ (if not found && w then 1 else 0)
    justified : All (Justified m) ls

  few_orders :
      (k : ReportMode) (h : LockingHypothesisMatches)
      → many_orders m s k h ≡ false
      → length h.matches ≤ 1
  few_orders normal h e = ground (arith, e)
  few_orders csv h e = cc
  few_orders csvwinner h e = cc
  few_orders doc h e = cc

  -- A hypothesis with one order.
  show_one :
      (found : Bool) (h : LockingHypothesisMatches)
      → many_orders m s mode h ≡ false
      → (es : Orders) → h.matches ≡ es
      → length es ≤ 1
      → 0 < length es
      → (ls : List Line) × ((show_hypothesis m s mode found h
            ≡ some (ls, found || wins m h.matches))
          × Shown found (wins m h.matches) ls)
  unfolding show_hypothesis
  show_one found h e [] q le lt = absurd (omega arith)
  show_one found h e (a ∷ b ∷ es) q le lt = absurd (omega arith)
  show_one found h e ((o, n) ∷ []) q le lt =
      let one : Orders = (o, h.occurrences) ∷ [] in
      let r = show_orders-winners m found one in
      let ls = (show_orders m found one).0 in
      (
        shown_lines m s mode ls,
        (
          rw (e, q, show_hypothesis) (ap (λ b. some (shown_lines m s mode ls, b)) r.1),
          record {
            count = rw q (shown_lines-winners m s mode ls ∙ r.0);
            justified = shown_lines-Justified m s mode ls (show_orders-Justified m found one);
          },
        ),
      )

  show_hypothesis-Shown :
      (found : Bool) (h : LockingHypothesisMatches)
      → HasOrder h
      → (ls : List Line) × ((show_hypothesis m s mode found h
            ≡ some (ls, found || wins m h.matches))
          × Shown found (wins m h.matches) ls)
  unfolding show_hypothesis
  show_hypothesis-Shown found h lt = elim (Bool-cases (many_orders m s mode h)) [
    | inl e ↦
        let r = show_orders-winners m found (s.by_count h.matches) in
        let k = s.by_count-has_order m.winning_hypothesis h.matches in
        let plain = set_lines-plain m s mode h in
        let ls = (show_orders m found (s.by_count h.matches)).0 in
        (
          set_lines m s mode h ++ shown_lines m s mode ls,
          (
            rw (e, show_hypothesis)
                (ap (λ b. some (set_lines m s mode h ++ shown_lines m s mode ls, b))
                  (r.1 ∙ ap (λ b. found || (m.winner_found && b)) k)),
            record {
              count =
                  winners-append (set_lines m s mode h) (shown_lines m s mode ls)
                  ∙ (omega (arith, plain.0, shown_lines-winners m s mode ls)
                      ∙ (r.0 ∙ ap (λ b. if not found && (m.winner_found && b) then 1 else 0) k));
              justified =
                  All-append (Justified m) (set_lines m s mode h) (shown_lines m s mode ls) plain.1
                    (shown_lines-Justified m s mode ls
                      (show_orders-Justified m found (s.by_count h.matches)));
            },
          ),
        )
    | inr e ↦ show_one found h e h.matches refl (few_orders mode h e) lt
  ]

  abbrev pub wins_above : (ℕ → Bool) → LockingHypothesisMatches → Bool
  wins_above below h = not (below h.occurrences) && wins m h.matches

  show_hypotheses-Shown :
      (below : ℕ → Bool) (found : Bool) (hs : List LockingHypothesisMatches)
      → All HasOrder hs
      → (ls : List Line) × ((show_hypotheses m s mode below found hs ≡ some ls)
          × Shown found (any_hypothesis (wins_above below) hs) ls)
  unfolding show_hypotheses
  show_hypotheses-Shown below found [] h =
      ([], (refl, record { count = ground arith; justified = tt }))
  show_hypotheses-Shown below found (x ∷ hs) h = elim (Bool-cases (below x.occurrences)) [
    | inl e ↦
        let r = show_hypotheses-Shown below found hs h.1 in
        (
          r.0,
          (
            rw (e, show_hypotheses) r.1.0,
            record { count = rw e r.1.1.count; justified = r.1.1.justified },
          ),
        )
    | inr e ↦
        let a = show_hypothesis-Shown found x h.0 in
        let r = show_hypotheses-Shown below (found || wins m x.matches) hs h.1 in
        (
          a.0 ++ r.0,
          (
            rw (e, a.1.0, r.1.0, show_hypotheses) refl,
            record {
              count = rw e (winners-append a.0 r.0 ∙ ground (arith, a.1.1.count, r.1.1.count));
              justified = All-append (Justified m) a.0 r.0 a.1.1.justified r.1.1.justified;
            },
          ),
        )
  ]

  lacks_order : LockingHypothesisMatches → Bool
  lacks_order h = length h.matches == 0

  any-lacks_order :
      (hs : List LockingHypothesisMatches) → All HasOrder hs → any_hypothesis lacks_order hs ≡ false
  unfolding lacks_order
  any-lacks_order [] a = refl
  any-lacks_order (h ∷ hs) a = ground (arith, a.0, any-lacks_order hs a.1)

  All-HasOrder :
      (hs : List LockingHypothesisMatches) → any_hypothesis lacks_order hs ≡ false → All HasOrder hs
  unfolding lacks_order
  All-HasOrder [] e = tt
  All-HasOrder (h ∷ hs) e = (ground (arith, e), All-HasOrder hs (ground (arith, e)))

  -- If each hypothesis has an order, the report comes about, for any sorting that only moves elements, in each mode: it marks exactly one line as the winner if a winner was found and is an order of a hypothesis above the threshold, else none; the line so marked
  -- shows the winning hypothesis, and each line marked as a conflict an order of the conflict list.
  pub print_hypotheses-marks :
      (below : ℕ → Bool)
      → All HasOrder m.hypotheses
      → (ls : List Line) × ((print_hypotheses m s mode below ≡ some ls)
          × ((winners ls ≡ (if any_hypothesis (wins_above below) m.hypotheses then 1 else 0))
              × All (Justified m) ls))
  unfolding print_hypotheses
  print_hypotheses-marks below h =
      let sorted =
        All-HasOrder (s.by_support m.hypotheses)
          (s.by_support-any lacks_order m.hypotheses ∙ any-lacks_order m.hypotheses h) in
      let r = show_hypotheses-Shown below false (s.by_support m.hypotheses) sorted in
      (
        r.0,
        (
          r.1.0,
          (
            r.1.1.count
                ∙ ap (λ b. if b then 1 else 0) (s.by_support-any (wins_above below) m.hypotheses),
            r.1.1.justified,
          ),
        ),
      )
