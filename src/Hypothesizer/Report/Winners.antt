-- ===== src/Hypothesizer/Report/Winners.antt =====
-- print_hypotheses: the marks in the lines of one hypothesis.
use lockdoc_tools.Common.{
  ℕ, ◌+◌, ◌≡◌, refl, ap, Bool, true, false, not, ◌&&◌, ◌||◌, List, [], ◌∷◌, ◌++◌, if◌then◌else◌,
  eq_of_text_eq, All, arith, Bool-cases, inl, inr,
}
use lockdoc_tools.Hypothesizer.Search.{LockingHypothesisMatches}
use lockdoc_tools.Hypothesizer.Winner.{in_conflict_list}
use lockdoc_tools.Hypothesizer.Report.{
  ReportMode, normal, csv, csvwinner, doc, Mark, is_winner, is_conflict, no_mark, OrderLine, Line,
  set_line, order_line, Orders, has_order, Sorting, Judged, this_is_the_winner, mark_of, line_of,
  show_orders, is_shown, shows_mark, shown_lines, set_lines,
}

abbrev pub counts_winner : Mark → ℕ
counts_winner is_winner = 1
counts_winner is_conflict = 0
counts_winner no_mark = 0

abbrev pub winning_orders : List OrderLine → ℕ
winning_orders [] = 0
winning_orders (l ∷ ls) = counts_winner l.mark + winning_orders ls

-- How many lines are marked as the winner.
abbrev pub winners : List Line → ℕ
winners [] = 0
winners (set_line h n ∷ ls) = winners ls
winners (order_line l ∷ ls) = counts_winner l.mark + winners ls

pub winners-append : (xs ys : List Line) → winners (xs ++ ys) ≡ winners xs + winners ys
winners-append [] ys = omega arith
winners-append (set_line h n ∷ xs) ys = winners-append xs ys
winners-append (order_line l ∷ xs) ys = omega (arith, winners-append xs ys)

hidden_mark : (mode : ReportMode) (k : Mark) → shows_mark mode k ≡ false → counts_winner k ≡ 0
hidden_mark mode is_conflict h = refl
hidden_mark mode no_mark h = refl
hidden_mark normal is_winner h = cc
hidden_mark csv is_winner h = cc
hidden_mark csvwinner is_winner h = cc
hidden_mark doc is_winner h = cc

module _ (m : Judged) where
  -- The winner's mark stands at the winning hypothesis, and a conflict's at an order of the
  -- conflict list; neither if there is no winner.
  abbrev pub MarkedAs : Mark → List ℕ → Type 0
  MarkedAs is_winner o = (m.winning_hypothesis ≡ o) × (m.winner_found ≡ true)
  MarkedAs is_conflict o = (in_conflict_list m.conflict_list o ≡ true) × (m.winner_found ≡ true)
  MarkedAs no_mark o = Unit

  abbrev pub Justified : Line → Type 0
  Justified (set_line h n) = Unit
  Justified (order_line l) = MarkedAs l.mark l.order

  mark_of-MarkedAs : (found : Bool) (o : List ℕ) → MarkedAs (mark_of m found o) o
  unfolding mark_of this_is_the_winner
  mark_of-MarkedAs found o = elim (Bool-cases (this_is_the_winner m found o)) [
    | inl e ↦ rw (e, mark_of) (eq_of_text_eq m.winning_hypothesis o (ground arith), ground arith)
    | inr e ↦ elim (Bool-cases (in_conflict_list m.conflict_list o && m.winner_found)) [
      | inl f ↦ rw (e, f, mark_of) (ground arith, ground arith)
      | inr f ↦ rw (e, f, mark_of) tt
    ]
  ]

  counts_winner-mark_of :
      (found : Bool) (o : List ℕ)
      → counts_winner (mark_of m found o) ≡ (if this_is_the_winner m found o then 1 else 0)
  unfolding mark_of
  counts_winner-mark_of found o = elim (Bool-cases (this_is_the_winner m found o)) [
    | inl e ↦ rw (e, mark_of) refl
    | inr e ↦ elim (Bool-cases (in_conflict_list m.conflict_list o && m.winner_found)) [
      | inl f ↦ rw (e, f, mark_of) refl
      | inr f ↦ rw (e, f, mark_of) refl
    ]
  ]

  -- Whether an order of the list is the winner.
  abbrev pub wins : Orders → Bool
  wins es = m.winner_found && has_order m.winning_hypothesis es

  pub show_orders-winners :
      (found : Bool) (es : Orders)
      → (winning_orders (show_orders m found es).0 ≡ (if not found && wins es then 1 else 0))
        × ((show_orders m found es).1 ≡ (found || wins es))
  unfolding show_orders line_of this_is_the_winner
  show_orders-winners found [] = ground arith
  show_orders-winners found (e ∷ es) = ground (
    arith,
    counts_winner-mark_of found e.0,
    show_orders-winners (found || this_is_the_winner m found e.0) es,
  )

  pub show_orders-Justified :
      (found : Bool) (es : Orders)
      → All (λ (l : OrderLine). MarkedAs l.mark l.order) (show_orders m found es).0
  unfolding show_orders line_of
  show_orders-Justified found [] = tt
  show_orders-Justified found (e ∷ es) = (
    mark_of-MarkedAs found e.0,
    show_orders-Justified (found || this_is_the_winner m found e.0) es,
  )

  module _ (s : Sorting) (mode : ReportMode) where
    pub shown_lines-winners :
        (ls : List OrderLine) → winners (shown_lines m s mode ls) ≡ winning_orders ls
    shown_lines-winners [] = refl
    shown_lines-winners (l ∷ ls) = elim (Bool-cases (is_shown m s mode l)) [
      | inl e ↦ rw e (ap (λ n. counts_winner l.mark + n) (shown_lines-winners ls))
      | inr e ↦ rw e (omega (arith, hidden_mark mode l.mark e, shown_lines-winners ls))
    ]

    pub shown_lines-Justified :
        (ls : List OrderLine)
        → All (λ (l : OrderLine). MarkedAs l.mark l.order) ls
        → All Justified (shown_lines m s mode ls)
    shown_lines-Justified [] h = tt
    shown_lines-Justified (l ∷ ls) h = elim (Bool-cases (is_shown m s mode l)) [
      | inl e ↦ rw e (h.0, shown_lines-Justified ls h.1)
      | inr e ↦ rw e (shown_lines-Justified ls h.1)
    ]

    pub set_lines-plain :
        (h : LockingHypothesisMatches)
        → (winners (set_lines m s mode h) ≡ 0) × All Justified (set_lines m s mode h)
    set_lines-plain h = plain mode
      where
        plain :
            (k : ReportMode) → (winners (set_lines m s k h) ≡ 0) × All Justified (set_lines m s k h)
        plain normal = (refl, (tt, tt))
        plain csv = (refl, tt)
        plain csvwinner = (refl, tt)
        plain doc = (refl, tt)
