-- ===== src/Hypothesizer/Pipeline.antt =====
-- The loop of main in hypothesizer/hypothesizer.cc over the members: search, selection and report.
pub mod Whole
use lockdoc_tools.Common.{
  ◌%◌, ◌^◌, get_elem?, ℕ, zero, suc, ◌+◌, Bool, true, false, not, ◌&&◌, ◌||◌, Option, none, some,
  List, [], ◌∷◌, ◌++◌, ltb, ◌==◌, if◌then◌else◌, Text, text_eq, starts_with, contains_text,
}
use lockdoc_tools.Hypothesizer.Search.{Member, find_hypotheses}
use lockdoc_tools.Hypothesizer.Winner.{Doubles, Standing, Strategy, determine_winning_hypothesis}
use lockdoc_tools.Hypothesizer.Input.{Input, InputMember, combinations_of}
use lockdoc_tools.Hypothesizer.Report.{ReportMode, Sorting, Line, Judged, judged, print_hypotheses}

-- The options that the loop reads.
pub record Options (d : Doubles) : Type 0 where
  pub strategy : Strategy d
  pub cutoff_threshold : d.number
  pub max_hypo_len : ℕ
  pub mode : ReportMode
  pub accepted_datatypes : List Text
  pub accepted_members : List Text

abbrev is_empty : List Text → Bool
is_empty [] = true
is_empty (t ∷ ts) = false

abbrev any_prefix : Text → List Text → Bool
any_prefix t [] = false
any_prefix t (p ∷ ps) = starts_with p t || any_prefix t ps

-- Member::combined_name
abbrev pub combined_name : InputMember → Text
combined_name m = m.accesstype ∷ b':' ∷ m.name

-- Whether the options let a member through.
unfoldable pub is_accepted : List Text → List Text → InputMember → Bool
is_accepted datatypes members m =
    (is_empty datatypes || any_prefix m.datatype datatypes)
    && (is_empty members
        || (contains_text m.name members || contains_text (combined_name m) members))

-- A member after the copy of its combinations; nothing is searched yet.
unfoldable pub to_member : InputMember → Member
to_member m = record {
  occurrences = m.occurrences;
  occurrences_with_locks = m.occurrences_with_locks;
  combinations = combinations_of m.combinations;
  hypotheses = [];
  graph = [];
}

-- The loop that copies the combinations of the members from number `i` on: each member with its
-- copy. Its counter has 16 bits. `none` is a loop that does not end in as many rounds as the fuel.
unfoldable pub copy_loop : ℕ → ℕ → List InputMember → Option (List (InputMember × Member))
unfolding to_member
copy_loop zero i ms = none
copy_loop (suc n) i ms = elim (get_elem? ms i) [
  | none ↦ some []
  | some m ↦ elim (copy_loop n ((i + 1) % 2 ^ 16) ms) [
    | none ↦ none
    | some rest ↦ some ((m, to_member m) ∷ rest)
  ]
]

-- After as many rounds as the counter has values it is at its start again.
unfoldable pub copy_members : List InputMember → Option (List (InputMember × Member))
unfolding copy_loop
copy_members ms = copy_loop (2 ^ 16) 0 ms

module _ (d : Doubles) (s : Sorting) (o : Options d) where
  -- `relative_support < cutoff_threshold`
  abbrev pub below_cutoff : Member → ℕ → Bool
  below_cutoff m n = d.less (d.divide (d.of_nat n) (d.of_nat m.occurrences)) o.cutoff_threshold

  -- A member that is let through; `none` is a failed assertion or undefined behaviour.
  unfoldable pub analyse : Member → Option (List Line)
  unfolding judged
  analyse m = elim (find_hypotheses o.max_hypo_len m) [
    | none ↦ none
    | some n ↦ elim (determine_winning_hypothesis d o.strategy n) [
      | none ↦ none
      | some r ↦ print_hypotheses (judged d n r) s o.mode (below_cutoff n)
    ]
  ]

  -- The loop without --sort: each member is reported at once. Threads share the loop, and only the
  -- report is common to them: the list is in the order in which the members come to it.
  unfoldable pub report_members :
      List (InputMember × Member) → Option (List (InputMember × List Line))
  unfolding analyse is_accepted
  report_members [] = some []
  report_members ((m, copy) ∷ ms) =
      if is_accepted o.accepted_datatypes o.accepted_members m
      then elim (analyse copy) [
        | none ↦ none
        | some ls ↦ elim (report_members ms) [ none ↦ none | some rest ↦ some ((m, ls) ∷ rest) ]
      ]
      else report_members ms

  -- What main does with the members that it has read.
  unfoldable pub report_input : List InputMember → Option (List (InputMember × List Line))
  unfolding copy_members report_members
  report_input ms = elim (copy_members ms) [ none ↦ none | some cs ↦ report_members cs ]
