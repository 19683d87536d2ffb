-- ===== src/Hypothesizer/Tests.antt =====
-- Runs of the hypothesizer on small concrete members.
use lockdoc_tools.Common.{
  ℕ, ◌*◌, ◌-◌, ltb, leb, ◌==◌, ◌≡◌, refl, ◌↔◌, true, List, [], ◌∷◌, some, arith, count, length,
  ◌&&◌,
}
use lockdoc_tools.Hypothesizer.Combination.{LockCombination, contains_locks, lock_order}
use lockdoc_tools.Hypothesizer.Combination.Contains.{Strict, Includes, contains_locks_iff}
use lockdoc_tools.Hypothesizer.Combination.Order.{Within, lock_order-presents}
use lockdoc_tools.Hypothesizer.Graph.{Graph, add_hypothesis_to_graph}
use lockdoc_tools.Hypothesizer.Graph.Levels.{Edges, add_hypothesis_to_graph-Edges}
use lockdoc_tools.Hypothesizer.Search.{Member, find_hypotheses, is_tested}
use lockdoc_tools.Hypothesizer.Winner.{Doubles, Standing, topdown, determine_winning_hypothesis}
use lockdoc_tools.Hypothesizer.Winner.Walk.{IsGroup, determine_winning_hypothesis-IsGroup}
use lockdoc_tools.Hypothesizer.Search.Evaluate.{Searched}
use lockdoc_tools.Hypothesizer.Search.Find.{find_hypotheses-Searched}
use lockdoc_tools.Hypothesizer.Search.Complete.{is_within, any_includes, find_hypotheses_complete}

-- Lock 7 was taken first, then 3, then 7 once more.
abbrev twice_seven : LockCombination
twice_seven = record { occurrences = 4; locks_held = 7 ∷ 3 ∷ 7 ∷ [] }

abbrev three_and_seven : List ℕ
three_and_seven = 3 ∷ 7 ∷ []

three_and_seven-Strict : Strict three_and_seven
three_and_seven-Strict = ((omega arith, tt), (tt, tt))

abbrev one_member : Member
one_member = record {
  occurrences = 6;
  occurrences_with_locks = 6;
  combinations = twice_seven ∷ record { occurrences = 2; locks_held = 3 ∷ [] } ∷ [];
  hypotheses = [];
  graph = [];
}

contains_locks_iff_example :
    (contains_locks twice_seven three_and_seven ≡ true)
    ↔ Includes twice_seven.locks_held three_and_seven
contains_locks_iff_example = contains_locks_iff twice_seven three_and_seven three_and_seven-Strict

lock_order-presents_example :
    Within (lock_order twice_seven three_and_seven) twice_seven.locks_held
    × ((a : ℕ) → count a (lock_order twice_seven three_and_seven) ≡ count a three_and_seven)
lock_order-presents_example =
    lock_order-presents twice_seven three_and_seven three_and_seven-Strict
      (contains_locks_iff_example.1 (refl, (refl, tt)))

-- The edges from no lock to the locks 3 and 7.
abbrev two_leaves : Graph
two_leaves = ([], (3 ∷ []) ∷ (7 ∷ []) ∷ []) ∷ []

two_leaves-Edges : Edges two_leaves
two_leaves-Edges [] = ((([], (3 ∷ []), refl), refl), ((([], (7 ∷ []), refl), refl), tt))
two_leaves-Edges (l ∷ ls) = tt

add_hypothesis_to_graph-Edges_example :
    (r : Graph) × (add_hypothesis_to_graph three_and_seven two_leaves ≡ some r) × Edges r
add_hypothesis_to_graph-Edges_example =
    add_hypothesis_to_graph-Edges three_and_seven two_leaves two_leaves-Edges

-- With two locks at most, a list of locks is recorded exactly if a combination has them all.
find_hypotheses_complete_example :
    (n : Member) × (find_hypotheses 2 one_member ≡ some n)
    × ((h : List ℕ)
        → Strict h
        → is_tested h n.hypotheses
          ≡ (any_includes h one_member.combinations && is_within 2 (length h)))
find_hypotheses_complete_example = find_hypotheses_complete 2 one_member refl (λ n. tt)

find_hypotheses-Searched_example :
    (n : Member) × (find_hypotheses 0 one_member ≡ some n) × Searched one_member.combinations n
find_hypotheses-Searched_example =
    find_hypotheses-Searched 0 one_member
      (record { unchanged = refl; edges = λ n. tt; recorded = tt })

-- Fractions, as numbers that are exact.
abbrev pub fractions : Doubles
fractions = record {
  number = ℕ × ℕ;
  of_nat = λ n. (n, 1);
  divide = λ x y. (x.0 * y.1, x.1 * y.0);
  subtract = λ x y. (x.0 * y.1 - y.0 * x.1, x.1 * y.1);
  less = λ x y. ltb (x.0 * y.1) (y.0 * x.1);
  at_most = λ x y. leb (x.0 * y.1) (y.0 * x.1);
  equal = λ x y. x.0 * y.1 == y.0 * x.1;
}

abbrev searched_member : Member
searched_member = record one_member { graph = two_leaves }

determine_winning_hypothesis-IsGroup_example :
    (r : Standing fractions) × (determine_winning_hypothesis fractions
        (topdown (9, 10) (1, 10))
        searched_member
      ≡ some r)
    × IsGroup r.conflict_list
determine_winning_hypothesis-IsGroup_example =
    determine_winning_hypothesis-IsGroup fractions (topdown (9, 10) (1, 10)) searched_member
      two_leaves-Edges
