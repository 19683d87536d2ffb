-- ===== src/Hypothesizer/Report.antt =====
-- print_hypotheses of hypothesizer/hypothesizer.cc: which locking orders of a member are shown, and how they are marked.
pub mod Winners
pub mod Marks
use lockdoc_tools.Common.{
  ℕ, zero, suc, ◌+◌, ◌-◌, ◌%◌, ◌^◌, Bool, true, false, not, ◌&&◌, ◌||◌, Option, none, some, List,
  [], ◌∷◌, ◌++◌, map, ltb, ◌==◌, if◌then◌else◌, text_eq, length, ◌≡◌,
}
use lockdoc_tools.Hypothesizer.Search.{LockingHypothesisMatches, Member}
use lockdoc_tools.Hypothesizer.Winner.{Doubles, Standing, Candidate, in_conflict_list}

-- enum class ReportMode
pub data ReportMode : Type 0 where
  normal csv csvwinner doc : ReportMode

-- "!" or 1, "?" or 2, and " " or 0.
pub data Mark : Type 0 where
  is_winner is_conflict no_mark : Mark

-- Which orders a mode shows.
abbrev pub shows_mark : ReportMode → Mark → Bool
shows_mark normal k = true
shows_mark csv k = true
shows_mark csvwinner is_winner = true
shows_mark csvwinner is_conflict = false
shows_mark csvwinner no_mark = false
shows_mark doc is_winner = true
shows_mark doc is_conflict = false
shows_mark doc no_mark = false

-- A locking order as it is shown: its accesses, and those that contradict it.
pub record OrderLine : Type 0 where
  pub order : List ℕ
  pub occurrences : ℕ
  pub counterexamples : ℕ
  pub mark : Mark

pub data Line : Type 0 where
  -- a set of locks, above its orders
  set_line : List ℕ → ℕ → Line
  order_line : OrderLine → Line

abbrev pub Orders : Type 0
Orders = List (List ℕ × ℕ)

abbrev pub has_order : List ℕ → Orders → Bool
has_order w [] = false
has_order w ((o, n) ∷ ms) = text_eq w o || has_order w ms

abbrev pub any_hypothesis : (LockingHypothesisMatches → Bool) → List LockingHypothesisMatches → Bool
any_hypothesis p [] = false
any_hypothesis p (h ∷ hs) = p h || any_hypothesis p hs

-- std::sort with the two comparisons, which leave the order of equal elements open: it moves elements only.
pub record Sorting : Type 0 where
  pub by_support : List LockingHypothesisMatches → List LockingHypothesisMatches
  pub by_count : Orders → Orders
  pub by_support-any :
      (p : LockingHypothesisMatches → Bool) (hs : List LockingHypothesisMatches)
      → any_hypothesis p (by_support hs) ≡ any_hypothesis p hs
  pub by_count-has_order : (w : List ℕ) (ms : Orders) → has_order w (by_count ms) ≡ has_order w ms

-- What print_hypotheses reads of a member.
pub record Judged : Type 0 where
  pub occurrences : ℕ
  pub hypotheses : List LockingHypothesisMatches
  pub conflict_list : List Candidate
  pub winning_hypothesis : List ℕ
  pub winner_found : Bool

abbrev winner_of : List Candidate → List ℕ
winner_of [] = []
winner_of (e ∷ es) = e.1

-- A member after the search and the selection.
unfoldable pub judged : (d : Doubles) → Member → Standing d → Judged
judged d m s = record {
  occurrences = m.occurrences;
  hypotheses = map (λ e. e.1) m.hypotheses;
  conflict_list = s.conflict_list;
  winning_hypothesis = if s.winner_found then winner_of s.conflict_list else [];
  winner_found = s.winner_found;
}

module _ (m : Judged) where
  -- The mark of an order, by whether the winner has been shown.
  unfoldable pub this_is_the_winner : Bool → List ℕ → Bool
  this_is_the_winner found o = not found && (text_eq m.winning_hypothesis o && m.winner_found)

  unfoldable pub mark_of : Bool → List ℕ → Mark
  unfolding this_is_the_winner in_conflict_list
  mark_of found o =
      if this_is_the_winner found o
      then is_winner
      else if in_conflict_list m.conflict_list o && m.winner_found
      then is_conflict
      else no_mark

  unfoldable pub line_of : Bool → List ℕ × ℕ → OrderLine
  unfolding mark_of
  line_of found e = record {
    order = e.0;
    occurrences = e.1;
    counterexamples = (m.occurrences + 2 ^ 64 - e.1) % 2 ^ 64;
    mark = mark_of found e.0;
  }

  -- The locking-order distribution, and whether the winner has been shown after it.
  unfoldable pub show_orders : Bool → Orders → List OrderLine × Bool
  unfolding line_of this_is_the_winner
  show_orders found [] = ([], found)
  show_orders found (e ∷ es) =
      let rest = show_orders (found || this_is_the_winner found e.0) es in
      (line_of found e ∷ rest.0, rest.1)

  module _ (s : Sorting) (mode : ReportMode) where
    abbrev pub many_orders : LockingHypothesisMatches → Bool
    many_orders h = elim mode [ normal ↦ ltb 1 (length h.matches) | _ ↦ true ]

    abbrev pub set_lines : LockingHypothesisMatches → List Line
    set_lines h = elim mode [ normal ↦ set_line h.sorted_hypothesis h.occurrences ∷ [] | _ ↦ [] ]

    abbrev pub is_shown : OrderLine → Bool
    is_shown l = shows_mark mode l.mark

    abbrev pub shown_lines : List OrderLine → List Line
    shown_lines [] = []
    shown_lines (l ∷ ls) = if is_shown l then order_line l ∷ shown_lines ls else shown_lines ls

    -- A hypothesis; `none` where `begin()` of no orders is read.
    unfoldable pub show_hypothesis : Bool → LockingHypothesisMatches → Option (List Line × Bool)
    unfolding show_orders
    show_hypothesis found h =
        if many_orders h
        then (let r = show_orders found (s.by_count h.matches) in
            some (set_lines h ++ shown_lines r.0, r.1))
        else elim h.matches [
          | [] ↦ none
          | (o, n) ∷ es ↦
              let r = show_orders found ((o, h.occurrences) ∷ []) in some (shown_lines r.0, r.1)
        ]

    -- The loop over the hypotheses; `below` is the comparison of their relative support with the threshold.
    unfoldable pub show_hypotheses :
        (ℕ → Bool) → Bool → List LockingHypothesisMatches → Option (List Line)
    unfolding show_hypothesis
    show_hypotheses below found [] = some []
    show_hypotheses below found (h ∷ hs) =
        if below h.occurrences
        then show_hypotheses below found hs
        else elim (show_hypothesis found h) [
          | none ↦ none
          | some r ↦ elim (show_hypotheses below r.1 hs) [
            | none ↦ none
            | some ls ↦ some (r.0 ++ ls)
          ]
        ]

    unfoldable pub print_hypotheses : (ℕ → Bool) → Option (List Line)
    unfolding show_hypotheses
    print_hypotheses below = show_hypotheses below false (s.by_support m.hypotheses)
