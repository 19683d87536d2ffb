-- ===== src/Hypothesizer/Search.antt =====
-- struct Member, evaluate_hypothesis, find_hypotheses_rek and find_hypotheses of
-- hypothesizer/hypothesizer.cc: the hypotheses that the combinations of a member give rise to, and
-- how often each was seen.
pub mod Evaluate
pub mod Find
pub mod Steps
pub mod Complete
use lockdoc_tools.Common.{
  lex_lt, ℕ, zero, suc, ◌+◌, Bool, true, false, ◌&&◌, ◌||◌, Option, none, some, List, [], ◌∷◌, ◌++◌,
  ltb, leb, ◌==◌, if◌then◌else◌, length, contains, text_eq, wrap64,
}
use lockdoc_tools.Hypothesizer.Combination.{
  LockCombination, locks_held_sorted, contains_locks, lock_order,
}
use lockdoc_tools.Hypothesizer.Graph.{Graph, add_hypothesis_to_graph}

-- `matches` counts the accesses by the order in which the locks were taken, in 64 bits as the sum.
pub record LockingHypothesisMatches : Type 0 where
  pub occurrences : ℕ
  pub sorted_hypothesis : List ℕ
  pub matches : List (List ℕ × ℕ)

-- The fields of struct Member that the search reads and writes. A hypothesis is found in
-- `hypotheses` by its sorted locks.
pub record Member : Type 0 where
  pub occurrences : ℕ
  pub occurrences_with_locks : ℕ
  pub combinations : List LockCombination
  pub hypotheses : List (List ℕ × LockingHypothesisMatches)
  pub graph : Graph

-- `matches[order] += n`, in a `std::map` from orders to `uint64_t`
abbrev pub add_match : List ℕ → ℕ → List (List ℕ × ℕ) → List (List ℕ × ℕ)
add_match o n [] = (o, wrap64 n) ∷ []
add_match o n ((k, c) ∷ ms) =
    if text_eq k o
    then (k, wrap64 (c + n)) ∷ ms
    else if lex_lt o k
    then (o, wrap64 n) ∷ (k, c) ∷ ms
    else (k, c) ∷ add_match o n ms

-- One combination of the loop of evaluate_hypothesis.
unfoldable pub count_combination :
    List ℕ → LockCombination → LockingHypothesisMatches → LockingHypothesisMatches
unfolding contains_locks lock_order
count_combination h c m =
    if contains_locks c h
    then record {
      occurrences = wrap64 (m.occurrences + c.occurrences);
      sorted_hypothesis = h;
      matches = add_match (lock_order c h) c.occurrences m.matches;
    }
    else m

unfoldable pub count_combinations :
    List ℕ → List LockCombination → LockingHypothesisMatches → LockingHypothesisMatches
unfolding count_combination
count_combinations h [] m = m
count_combinations h (c ∷ cs) m = count_combinations h cs (count_combination h c m)

abbrev pub no_matches : LockingHypothesisMatches
no_matches = record { occurrences = 0; sorted_hypothesis = []; matches = [] }

abbrev pub is_tested : List ℕ → List (List ℕ × LockingHypothesisMatches) → Bool
is_tested h [] = false
is_tested h ((k, m) ∷ ms) = text_eq k h || is_tested h ms

-- `none` is a failed assertion.
unfoldable pub evaluate_hypothesis : List ℕ → Member → Option Member
unfolding count_combinations add_hypothesis_to_graph
evaluate_hypothesis h m =
    if is_tested h m.hypotheses then some m else elim (add_hypothesis_to_graph h m.graph) [
      | none ↦ none
      | some g ↦ some (record m {
        hypotheses = (h, count_combinations h m.combinations no_matches) ∷ m.hypotheses;
        graph = g;
      })
    ]

-- find_hypotheses_rek, with the locks from `next_lockpos` on. The loop over them is the second
-- recursion: what a lock starts is done before the next lock is looked at.
unfoldable pub find_hypotheses_rek : List ℕ → List ℕ → ℕ → Member → Option Member
unfolding evaluate_hypothesis
find_hypotheses_rek ls cur zero m = evaluate_hypothesis cur m
find_hypotheses_rek [] cur (suc d) m = some m
find_hypotheses_rek (l ∷ ls) cur (suc d) m =
    elim (if contains cur l then some m else find_hypotheses_rek ls (cur ++ (l ∷ [])) d m) [
      | none ↦ none
      | some n ↦ find_hypotheses_rek ls cur (suc d) n
    ]

-- The loop of find_hypotheses over the combinations.
unfoldable pub search_depth : List LockCombination → ℕ → Member → Option Member
unfolding find_hypotheses_rek locks_held_sorted
search_depth [] d m = some m
search_depth (c ∷ cs) d m = elim (find_hypotheses_rek (locks_held_sorted c) [] d m) [
  | none ↦ none
  | some n ↦ search_depth cs d n
]

-- The loop over the depths; 0 sets no limit. The fuel bounds the depth.
unfoldable pub find_from : ℕ → ℕ → ℕ → Member → Option Member
unfolding search_depth
find_from zero limit d m = none
find_from (suc k) limit d m = elim (search_depth m.combinations d m) [
  | none ↦ none
  | some n ↦
      if length m.hypotheses == length n.hypotheses || (ltb 0 limit && leb limit d)
      then some n
      else find_from k limit (d + 1) n
]

abbrev pub all_locks : List LockCombination → ℕ
all_locks [] = 0
all_locks (c ∷ cs) = length (locks_held_sorted c) + all_locks cs

-- No hypothesis is longer than the locks of the combinations together, so the search stops by then.
unfoldable pub find_hypotheses : ℕ → Member → Option Member
unfolding find_from
find_hypotheses limit m = find_from (all_locks m.combinations + 2) limit 0 m
