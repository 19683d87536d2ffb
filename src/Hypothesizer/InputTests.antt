-- ===== src/Hypothesizer/InputTests.antt =====
-- An input of two lines and a header, and a report.
use lockdoc_tools.Common.{
  ℕ, ◌≡◌, refl, true, Option, none, some, List, [], ◌∷◌, ◌++◌, map, Text, codes, text_eq,
  if◌then◌else◌, All, arith, ltb, ◌≤◌,
}
use lockdoc_tools.Common.Try.{ok}
use lockdoc_tools.Hypothesizer.Search.{LockingHypothesisMatches}
use lockdoc_tools.Hypothesizer.Input.{
  Input, InputMember, read_input, read_locks, read_lines, read_line, read_row, read_columns,
  read_members, read_member, split, is_header, lock_id, index_of, add_combination, count_accesses,
  parse_name,
}
use lockdoc_tools.Hypothesizer.Input.Names.{Decodes, read_locks-Decodes}
use lockdoc_tools.Hypothesizer.Input.Totals.{Read, read_input-Read}
use lockdoc_tools.Hypothesizer.Report.{
  normal, csvwinner, Line, any_hypothesis, Sorting, Judged, print_hypotheses,
}
use lockdoc_tools.Hypothesizer.Winner.{topdown}
use lockdoc_tools.Hypothesizer.Tests.{fractions}
use lockdoc_tools.Common.SortedMap.{alter_key, find_key, emplace_key, change_key}
use lockdoc_tools.Hypothesizer.Report.{is_winner, order_line, doc}
use lockdoc_tools.Hypothesizer.Docs.{push_rows, push_lines, push_doc, print_doc, print_locks}
use lockdoc_tools.Hypothesizer.Docs.Counts.{
  NoneEmpty, listed, times_reported, count_members, push_rows-lists,
}
use lockdoc_tools.Hypothesizer.Pipeline.{Options, report_input}
use lockdoc_tools.Hypothesizer.Pipeline.Whole.{accepted, report_members-reports}
use lockdoc_tools.Hypothesizer.Report.Winners.{winners, Justified}
use lockdoc_tools.Hypothesizer.Report.Marks.{wins_above, print_hypotheses-marks}

abbrev tab : Text
tab = b'\t' ∷ []

abbrev columns : Text → Text → Text → Text
columns members locks count =
    codes "inode" ++ (tab ++ (members ++ (tab ++ (locks ++ (tab ++ count)))))

abbrev input_file : List Text
input_file =
    codes "type"
    ∷ columns (codes "r:i_mode,w:i_mode") (codes "l1,l2") (codes "7")
    ∷ columns (codes "r:i_mode") [] (codes "3")
    ∷ []

abbrev stoull : Text → Option ℕ
stoull t = if text_eq t (codes "7") then some 7 else if text_eq t (codes "3") then some 3 else none

abbrev i_mode : ℕ → ℕ → List (List ℕ × ℕ) → InputMember
i_mode access n combinations = record {
  datatype = codes "inode";
  key = access ∷ codes ":i_mode";
  accesstype = access;
  name = codes "i_mode";
  occurrences = n;
  occurrences_with_locks = 7;
  combinations = combinations;
}

abbrev whole_input : Input
whole_input = record {
  accesscount = 10;
  locks = codes "l1" ∷ codes "l2" ∷ [];
  members =
      i_mode b'r' 10 (([], 3) ∷ (0 ∷ 1 ∷ [], 7) ∷ []) ∷ i_mode b'w' 7 ((0 ∷ 1 ∷ [], 7) ∷ []) ∷ [];
}

input_is_read : read_input stoull input_file ≡ ok whole_input
unfolding read_input read_lines read_line read_row read_columns read_locks read_members read_member
    split is_header lock_id index_of add_combination count_accesses parse_name
input_is_read = refl

read_input-Read_example : Read whole_input
read_input-Read_example = read_input-Read stoull input_file whole_input input_is_read

two_are_read :
    read_locks (codes "l2" ∷ [] ∷ codes "l1" ∷ []) (codes "l1" ∷ [])
    ≡ ok (1 ∷ 0 ∷ [], codes "l1" ∷ codes "l2" ∷ [])
unfolding read_locks lock_id index_of
two_are_read = refl

read_locks-Decodes_example :
    Decodes
      (codes "l2" ∷ [] ∷ codes "l1" ∷ [])
      (codes "l1" ∷ [])
      (1 ∷ 0 ∷ [])
      (codes "l1" ∷ codes "l2" ∷ [])
read_locks-Decodes_example =
    read_locks-Decodes (codes "l2" ∷ [] ∷ codes "l1" ∷ []) (codes "l1" ∷ []) (1 ∷ 0 ∷ [])
      (codes "l1" ∷ codes "l2" ∷ []) two_are_read

-- Lists that are in order already.
abbrev as_they_are : Sorting
as_they_are = record {
  by_support = λ hs. hs;
  by_count = λ ms. ms;
  by_support-any = λ p hs. refl;
  by_count-has_order = λ w ms. refl;
}

abbrev two_orders : LockingHypothesisMatches
two_orders = record {
  occurrences = 7;
  sorted_hypothesis = 0 ∷ 1 ∷ [];
  matches = (1 ∷ 0 ∷ [], 5) ∷ (0 ∷ 1 ∷ [], 2) ∷ [];
}

abbrev member : Judged
member = record {
  occurrences = 10;
  hypotheses = two_orders ∷ [];
  conflict_list = (0 ∷ 1 ∷ [], 1 ∷ 0 ∷ []) ∷ [];
  winning_hypothesis = 1 ∷ 0 ∷ [];
  winner_found = true;
}

print_hypotheses-marks_example :
    (ls : List Line) × ((print_hypotheses member as_they_are csvwinner (λ n. ltb n 2) ≡ some ls)
      × ((winners ls ≡ (
            if any_hypothesis
              (wins_above member as_they_are csvwinner (λ n. ltb n 2))
              member.hypotheses
            then 1
            else 0))
          × All (Justified member) ls))
print_hypotheses-marks_example =
    print_hypotheses-marks member as_they_are csvwinner (λ n. ltb n 2) (omega arith, tt)

abbrev options : Options fractions
options = record {
  strategy = topdown (9, 10) (1, 20);
  cutoff_threshold = (1, 10);
  max_hypo_len = 0;
  mode = normal;
  accepted_datatypes = codes "ino" ∷ [];
  accepted_members = codes "i_mode" ∷ [];
}

report_members-reports_example :
    (rows : List (InputMember × List Line)) × ((report_input fractions as_they_are options
          whole_input.members
        ≡ some rows)
      × ((map (λ e. e.0) rows
            ≡ accepted options.accepted_datatypes options.accepted_members whole_input.members)
          × All (λ (e : InputMember × List Line). winners e.1 ≤ 1) rows))
report_members-reports_example =
    report_members-reports fractions as_they_are options whole_input.members (omega arith)

-- A report with a winner, and one of another access to the same member with the same winner.
abbrev of_access : ℕ → InputMember
of_access a = record {
  datatype = codes "inode";
  key = [];
  accesstype = a;
  name = codes "i_mode";
  occurrences = 7;
  occurrences_with_locks = 7;
  combinations = [];
}

abbrev winner_line : Line
winner_line =
    order_line
      (record { order = 1 ∷ 0 ∷ []; occurrences = 7; counterexamples = 0; mark = is_winner })

abbrev two_reports : List (InputMember × List Line)
two_reports = (of_access b'r', winner_line ∷ []) ∷ (of_access b'w', winner_line ∷ []) ∷ []

two_documented :
    push_rows two_reports []
    ≡ (codes "inode", (1 ∷ 0 ∷ [], codes "r:i_mode" ∷ codes "w:i_mode" ∷ []) ∷ []) ∷ []
unfolding push_rows push_lines push_doc alter_key find_key emplace_key change_key
two_documented = refl

doc_printed :
    print_doc
      (codes "l1" ∷ codes "l2" ∷ [])
      ((codes "inode", (1 ∷ 0 ∷ [], codes "r:i_mode" ∷ codes "w:i_mode" ∷ []) ∷ []) ∷ [])
    ≡ some (
        codes " * inode locking rules:"
        ++ (10 ∷ [])
        ++ (codes " * " ++ (10 ∷ []))
        ++ (codes " * l2 -> l1 protects:" ++ (10 ∷ []))
        ++ (codes " *   r:i_mode, w:i_mode" ++ (10 ∷ []))
        ++ (codes " * " ++ (10 ∷ [])))
unfolding print_doc print_locks
doc_printed = refl

push_rows-lists_example :
    (rows : List (InputMember × List Line)) × ((report_input fractions as_they_are
          (record options { mode = doc })
          whole_input.members
        ≡ some rows)
      × (NoneEmpty (push_rows rows [])
          × ((c : Text) (v : List ℕ) (u : Text)
              → (listed c v u (push_rows rows []) ≡ times_reported c v u rows)
                × (listed c v u (push_rows rows [])
                    ≤ count_members c u (
                        accepted options.accepted_datatypes options.accepted_members
                          whole_input.members)))))
push_rows-lists_example =
    push_rows-lists fractions as_they_are options whole_input.members (omega arith)
