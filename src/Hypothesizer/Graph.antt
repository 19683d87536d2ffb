-- ===== src/Hypothesizer/Graph.antt =====
-- diff_hypotheses and add_hypothesis_to_graph of hypothesizer/hypothesizer.cc: the graph from each
-- hypothesis to the hypotheses with one lock more.
pub mod Diff
pub mod Levels
use lockdoc_tools.Common.{
  lex_lt, ℕ, zero, suc, ◌+◌, ◌-◌, Bool, true, false, ◌&&◌, Option, none, some, List, [], ◌∷◌, ◌++◌,
  drop, ltb, ◌==◌, if◌then◌else◌, length, text_eq, ℤ, pos, negsuc,
}

-- How many locks agree place by place.
abbrev pub found_at : List ℕ → List ℕ → ℕ
found_at [] rs = 0
found_at (l ∷ ls) [] = 0
found_at (l ∷ ls) (r ∷ rs) = (if l == r then 1 else 0) + found_at ls rs

-- The loop over the places of `rhs`, with one try more than fuel.
abbrev pub try_places : ℕ → List ℕ → List ℕ → Bool
try_places zero lhs rhs = found_at lhs rhs == length lhs
try_places (suc n) lhs rhs =
    let later = try_places n lhs (drop 1 rhs) in
    if found_at lhs rhs == length lhs then true else later

-- An `assert` that fails stops the program; `none` stands for that.
unfoldable pub diff_hypotheses : List ℕ → List ℕ → Option ℤ
diff_hypotheses lhs rhs =
    let diff = length rhs - length lhs in
    if ltb (length rhs) (length lhs)
    then none
    else some (if try_places diff lhs rhs then pos diff else negsuc 0)

-- std::set::emplace
abbrev pub add_child : List ℕ → List (List ℕ) → List (List ℕ)
add_child h [] = h ∷ []
add_child h (c ∷ cs) =
    if text_eq h c then c ∷ cs else if lex_lt h c then h ∷ c ∷ cs else c ∷ add_child h cs

-- The graph: a hypothesis and its children. A missing key counts as one without children, which
-- `operator[]` makes of it.
abbrev pub Graph : Type 0
Graph = List (List ℕ × List (List ℕ))

abbrev pub children : Graph → List ℕ → List (List ℕ)
children [] n = []
children ((k, cs) ∷ g) n = if text_eq k n then cs else children g n

abbrev pub emplace : List ℕ → List ℕ → Graph → Graph
emplace n h [] = (n, h ∷ []) ∷ []
emplace n h ((k, cs) ∷ g) = if text_eq k n then (k, add_child h cs) ∷ g else (k, cs) ∷ emplace n h g

-- What one turn of the loop does with its node: the graph, and the nodes to append.
unfoldable pub visit_node : List ℕ → List ℕ → Graph → Option (Graph × List (List ℕ))
unfolding diff_hypotheses
visit_node h n g = elim (diff_hypotheses n h) [
  | none ↦ none
  | some (pos zero) ↦ none
  | some (pos (suc zero)) ↦ some (emplace n h g, [])
  | some (pos (suc (suc k))) ↦ some (g, children g n)
  | some (negsuc k) ↦ some (g, [])
]

-- The loop over the deque, of which the first list is the front: nodes that one visit appends come
-- after it, in the second. The fuel bounds how often the front part is used up.
unfoldable pub visit_nodes : ℕ → List ℕ → List (List ℕ) → List (List ℕ) → Graph → Option Graph
unfolding visit_node
visit_nodes zero h [] [] g = some g
visit_nodes zero h [] (n ∷ ns) g = none
visit_nodes (suc k) h [] later g = visit_nodes k h later [] g
visit_nodes k h (n ∷ ns) later g = elim (visit_node h n g) [
  | none ↦ none
  | some r ↦ visit_nodes k h ns (later ++ r.1) r.0
]

-- The root is the hypothesis without locks.
unfoldable pub add_hypothesis_to_graph : List ℕ → Graph → Option Graph
unfolding visit_nodes
add_hypothesis_to_graph [] g = some g
add_hypothesis_to_graph (a ∷ h) g = visit_nodes (length (a ∷ h)) (a ∷ h) ([] ∷ []) [] g
