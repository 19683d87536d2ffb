-- ===== src/Hypothesizer/Winner.antt =====
-- determine_winning_hypothesis of hypothesizer/hypothesizer.cc and the strategies that it calls.
-- Numbers of type double, and what the machine does with them, are a parameter.
pub mod Walk
use lockdoc_tools.Common.{
  ℕ, zero, suc, ◌+◌, ◌-◌, ◌%◌, ◌^◌, Bool, true, false, ◌&&◌, ◌||◌, not, Option, none, some, List,
  [], ◌∷◌, ◌++◌, ltb, leb, ◌==◌, if◌then◌else◌, length, text_eq,
}
use lockdoc_tools.Hypothesizer.Graph.{Graph, children}
use lockdoc_tools.Hypothesizer.Search.{LockingHypothesisMatches, Member, no_matches}

-- The operations on doubles that the strategies use; `of_nat` is the cast of an integer.
pub record Doubles : Type 1 where
  pub number : Type 0
  pub of_nat : ℕ → number
  pub divide : number → number → number
  pub subtract : number → number → number
  pub less : number → number → Bool
  pub at_most : number → number → Bool
  pub equal : number → number → Bool

-- The sorted locks of a hypothesis, and its locks in an order in which they were taken.
abbrev pub Candidate : Type 0
Candidate = List ℕ × List ℕ

-- What a strategy reads and writes: the fields of struct Member, and the support of the winner.
pub record Standing (d : Doubles) : Type 0 where
  pub conflict_list : List Candidate
  pub winner_found : Bool
  pub rel_support_winner : d.number

unfoldable pub in_conflict_list : List Candidate → List ℕ → Bool
in_conflict_list [] h = false
in_conflict_list (e ∷ es) h = text_eq e.1 h || in_conflict_list es h

-- The strategies, with their parameters.
pub data Strategy (d : Doubles) : Type 0 where
  bottomup : d.number → Strategy d
  sharpen : d.number → Strategy d
  lockset : Strategy d
  topdown : d.number → d.number → Strategy d

-- A node under examination, and its support.
pub record Node (d : Doubles) : Type 0 where
  pub sorted : List ℕ
  pub ordered : List ℕ
  pub rel_sup : d.number

module _ (d : Doubles) where
  -- The standing afterwards, and whether the children of the node are to be examined.
  abbrev pub Verdict : Type 0
  Verdict = Standing d × Bool

  -- An equal hypothesis joins the list.
  unfoldable pub join : Node d → Standing d → Standing d
  unfolding in_conflict_list
  join n s =
      if in_conflict_list s.conflict_list n.ordered
      then s
      else record s { conflict_list = s.conflict_list ++ ((n.sorted, n.ordered) ∷ []) }

  -- A better one takes its place.
  unfoldable pub replace : d.number → Node d → Standing d → Standing d
  replace sup n s = record {
    conflict_list = (n.sorted, n.ordered) ∷ [];
    winner_found = true;
    rel_support_winner = sup;
  }

  -- The comparison with the first hypothesis of the list: equal, better, or neither.
  unfoldable pub compare_with : Bool → Bool → d.number → Node d → Standing d → Verdict
  unfolding join replace
  compare_with equal better sup n s =
      if equal then (join n s, true) else if better then (replace sup n s, true) else (s, false)

  -- The strategies for a list that begins with a hypothesis of `size` locks.
  unfoldable pub evaluate_bottomup : d.number → ℕ → Node d → Standing d → Verdict
  unfolding compare_with
  evaluate_bottomup accept_threshold size n s =
      let same = d.equal n.rel_sup s.rel_support_winner in
      compare_with (size == length n.sorted && same)
        ((d.at_most accept_threshold n.rel_sup && d.less n.rel_sup s.rel_support_winner)
          || (ltb size (length n.sorted) && same))
        n.rel_sup n s

  unfoldable pub evaluate_sharpen : d.number → ℕ → Node d → Standing d → Verdict
  unfolding compare_with
  evaluate_sharpen reduction_factor size n s =
      let same = d.equal n.rel_sup s.rel_support_winner in
      let delta = d.subtract (d.of_nat 1) (d.divide n.rel_sup s.rel_support_winner) in
      compare_with (size == length n.sorted && same)
        ((size == length n.sorted && d.less s.rel_support_winner n.rel_sup)
          || (ltb size (length n.sorted) && (same || d.at_most delta reduction_factor)))
        n.rel_sup n s

  -- A hypothesis that takes the place leaves the support of the winner as it is.
  unfoldable pub evaluate_lockset : ℕ → Node d → Standing d → Verdict
  unfolding compare_with
  evaluate_lockset size n s =
      compare_with (size == length n.sorted) (leb size (length n.sorted)) s.rel_support_winner n s

  unfoldable pub evaluate_topdown : d.number → ℕ → Node d → Standing d → Verdict
  unfolding compare_with
  evaluate_topdown accept_threshold size n s =
      compare_with (size == length n.sorted && d.equal n.rel_sup s.rel_support_winner)
        (d.at_most accept_threshold n.rel_sup
          && (d.at_most s.rel_support_winner n.rel_sup && leb size (length n.sorted)))
        n.rel_sup n s

  -- `conflict_list.front().first.size()`, which is undefined on an empty list.
  abbrev pub with_front : (ℕ → Verdict) → List Candidate → Option Verdict
  with_front f [] = none
  with_front f (e ∷ es) = some (f (length e.0))

  -- The share of the accesses without any lock; the difference is one of 64-bit numbers.
  unfoldable pub nolock_fraction : Member → d.number
  nolock_fraction m =
      d.divide (d.of_nat ((m.occurrences + 2 ^ 64 - m.occurrences_with_locks) % 2 ^ 64))
        (d.of_nat m.occurrences)

  abbrev pub or_root : List Candidate → List Candidate
  or_root [] = ([], []) ∷ []
  or_root (e ∷ es) = e ∷ es

  abbrev pub is_root : List ℕ → Bool
  is_root [] = true
  is_root (l ∷ ls) = false

  unfoldable pub evaluate : Strategy d → Member → Node d → Standing d → Option Verdict
  unfolding evaluate_bottomup evaluate_sharpen evaluate_lockset evaluate_topdown nolock_fraction
  evaluate (bottomup t) m n s = with_front (λ k. evaluate_bottomup t k n s) s.conflict_list
  evaluate (sharpen r) m n s = with_front (λ k. evaluate_sharpen r k n s) s.conflict_list
  evaluate lockset m n s =
      if d.less n.rel_sup (d.of_nat 1)
      then some (s, false)
      else with_front (λ k. evaluate_lockset k n s) s.conflict_list
  evaluate (topdown accept nolock) m n s =
      if d.at_most nolock (nolock_fraction m)
      then some (record s { conflict_list = or_root s.conflict_list; winner_found = true }, false)
      else if is_root n.sorted
      then some (s, true)
      else with_front (λ k. evaluate_topdown accept k n s) s.conflict_list

-- What is recorded of a hypothesis, or nothing.
abbrev pub lookup : List ℕ → List (List ℕ × LockingHypothesisMatches) → LockingHypothesisMatches
lookup h [] = no_matches
lookup h ((k, e) ∷ es) = if text_eq k h then e else lookup h es

-- The order with the most occurrences, the first of several; no locks if there is none.
abbrev pub best_order : List (List ℕ × ℕ) → List ℕ × ℕ → List ℕ × ℕ
best_order [] best = best
best_order ((o, n) ∷ ms) best = if ltb best.1 n then best_order ms (o, n) else best_order ms best

abbrev pub matches_of : List ℕ → List (List ℕ × ℕ) → ℕ
matches_of o [] = 0
matches_of o ((k, n) ∷ ms) = if text_eq k o then n else matches_of o ms

module _ (d : Doubles) where
  unfoldable pub node_of : Member → List ℕ → Node d
  node_of m h =
      let e = lookup h m.hypotheses in
      let order = (best_order e.matches ([], 0)).0 in
      record {
        sorted = h;
        ordered = order;
        rel_sup = d.divide (d.of_nat (matches_of order e.matches)) (d.of_nat m.occurrences);
      }

  -- The loop over the deque, in two parts as in `visit_nodes`; the fuel bounds the levels.
  unfoldable pub examine :
      ℕ → Strategy d → Member → List (List ℕ) → List (List ℕ) → Standing d → Option (Standing d)
  unfolding evaluate node_of
  examine zero st m [] [] s = some s
  examine zero st m [] (h ∷ hs) s = none
  examine (suc k) st m [] later s = examine k st m later [] s
  examine k st m (h ∷ hs) later s = elim (evaluate d st m (node_of m h) s) [
    | none ↦ none
    | some r ↦ examine k st m hs (later ++ (if r.1 then children m.graph h else [])) r.0
  ]

  -- The initial list of nodes and the initial standing; topdown has an init callback.
  unfoldable pub initial : Strategy d → Member → List (List ℕ) × Standing d
  initial st m =
      let root : Standing d = record {
        conflict_list = ([], []) ∷ [];
        winner_found = true;
        rel_support_winner = d.of_nat 1;
      } in
      elim st [
        | topdown _ _ ↦
            ([] ∷ [], record root { winner_found = false; rel_support_winner = d.of_nat 0 })
        | _ ↦ (children m.graph [], root)
      ]

  -- The longest hypothesis of the graph, by which the levels are bounded.
  abbrev pub deepest : List (List ℕ) → ℕ
  deepest [] = 0
  deepest (h ∷ hs) = length h + deepest hs

  abbrev pub depth_of : Graph → ℕ
  depth_of [] = 0
  depth_of ((h, hs) ∷ g) = deepest hs + depth_of g

  -- The winner is in front of the list, if one was found: none at all is left as it was.
  abbrev pub winner : Standing d → Option (List ℕ)
  winner s = if s.winner_found then front s.conflict_list else none
    where
      front : List Candidate → Option (List ℕ)
      front [] = none
      front (e ∷ es) = some e.1

  unfoldable pub determine_winning_hypothesis : Strategy d → Member → Option (Standing d)
  unfolding initial examine
  determine_winning_hypothesis st m =
      let start = initial st m in examine (suc (depth_of m.graph)) st m start.0 [] start.1
