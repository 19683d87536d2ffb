-- ===== src/Hypothesizer/Graph/Levels.antt =====
-- add_hypothesis_to_graph: its walk, its assertions, and the edges of the graph.
use lockdoc_tools.Common.{
  ℕ, zero, suc, ◌+◌, ◌≤◌, ◌<◌, ◌≡◌, refl, sym, ap, subst, ◌∙◌, Bool, true, false, Option, none,
  some, List, [], ◌∷◌, ◌++◌, arith, All, All-append, if◌then◌else◌, length, text_eq, eq_of_text_eq,
  ℤ, Bool-cases, inl, inr,
}
use lockdoc_tools.Hypothesizer.Graph.{
  diff_hypotheses, add_child, Graph, children, emplace, visit_node, visit_nodes,
  add_hypothesis_to_graph,
}
use lockdoc_tools.Hypothesizer.Graph.Diff.{
  StandsIn, DiffOutcome, asserts, stands, apart, diff_hypotheses-outcome,
}

-- The second hypothesis has one lock more, and the first stands in it.
abbrev pub IsEdge : List ℕ → List ℕ → Type 0
IsEdge n c = StandsIn n c × (length c ≡ suc (length n))

abbrev pub Edges : Graph → Type 0
Edges g = (n : List ℕ) → All (IsEdge n) (children g n)

module _ (P : List ℕ → Type 0) where
  add_child-All : (h : List ℕ) (cs : List (List ℕ)) → P h → All P cs → All P (add_child h cs)
  add_child-All h [] p a = (p, tt)
  add_child-All h (c ∷ cs) p a = ground (arith, add_child-All h cs p a.1)

emplace-All :
    (n h : List ℕ) (g : Graph) (k : List ℕ)
    → IsEdge n h
    → All (IsEdge k) (children g k)
    → All (IsEdge k) (children (emplace n h g) k)
emplace-All n h [] k e a = elim (Bool-cases (text_eq n k)) [
  | inl i ↦ rw i (subst (λ x. IsEdge x h) (eq_of_text_eq n k i) e, tt)
  | inr i ↦ rw i tt
]
emplace-All n h ((m, cs) ∷ g) k e a =
    by_keys (text_eq m n) (text_eq m k) refl refl (emplace-All n h g k e) a
  where
    by_keys :
        (b c : Bool)
        → text_eq m n ≡ b
        → text_eq m k ≡ c
        → (All (IsEdge k) (children g k) → All (IsEdge k) (children (emplace n h g) k))
        → All (IsEdge k) (if c then cs else children g k)
        → All
            (IsEdge k)
            (children (if b then (m, add_child h cs) ∷ g else (m, cs) ∷ emplace n h g) k)
    by_keys true true i j ih a =
        let same = sym (eq_of_text_eq m n i) ∙ eq_of_text_eq m k j in
        rw j (add_child-All (IsEdge k) h cs (subst (λ x. IsEdge x h) same e) a)
    by_keys true false i j ih a = rw j a
    by_keys false true i j ih a = rw j a
    by_keys false false i j ih a = rw j (ih a)

-- A node to come: it is shorter than the hypothesis, and on the given level.
abbrev OnLevel : List ℕ → ℕ → List ℕ → Type 0
OnLevel h d n = (length n ≡ d) × (d < length h)

module _ (h : List ℕ) where
  children-OnLevel :
      (n : List ℕ) (cs : List (List ℕ))
      → suc (length n) < length h
      → All (IsEdge n) cs
      → All (OnLevel h (suc (length n))) cs
  children-OnLevel n [] l a = tt
  children-OnLevel n (c ∷ cs) l a = ((a.0.1, l), children-OnLevel n cs l a.1)

  -- A visit of a shorter node returns a graph and the nodes of the next level.
  Visits : List ℕ → Graph → Type 0
  Visits n g =
      (r : Graph × List (List ℕ)) × (visit_node h n g ≡ some r)
      × Edges r.0
      × All (OnLevel h (suc (length n))) r.1

  visit_node-Visits : (n : List ℕ) (g : Graph) → length n < length h → Edges g → Visits n g
  unfolding Visits visit_node
  visit_node-Visits n g l e = by_diff refl (diff_hypotheses-outcome n h)
    where
      by_diff : {o : Option ℤ} → diff_hypotheses n h ≡ o → DiffOutcome n h o → Visits n g
      by_diff q (asserts s) = absurd (omega (arith, s, l))
      by_diff q (stands zero s w) = absurd (omega (arith, s, l))
      by_diff q (stands (suc zero) s w) = (
        (emplace n h g, []),
        rw (q, visit_node) refl,
        (λ k. emplace-All n h g k (w, omega (arith, s)) (e k)),
        tt,
      )
      by_diff q (stands (suc (suc d)) s w) = (
        (g, children g n),
        rw (q, visit_node) refl,
        e,
        children-OnLevel n (children g n) (omega (arith, s)) (e n),
      )
      by_diff q (apart s w) = ((g, []), rw (q, visit_node) refl, e, tt)

  -- What the loop leaves.
  Walks : ℕ → List (List ℕ) → List (List ℕ) → Graph → Type 0
  Walks k ns later g = (r : Graph) × (visit_nodes k h ns later g ≡ some r) × Edges r

  walk :
      (k d : ℕ) (ns later : List (List ℕ)) (g : Graph)
      → length h ≤ d + k
      → All (OnLevel h d) ns
      → All (OnLevel h (suc d)) later
      → Edges g
      → Walks k ns later g
  unfolding Walks visit_nodes Visits
  walk zero d [] [] g f a b e = (g, refl, e)
  walk zero d [] (n ∷ ns) g f a b e = absurd (omega (arith, f, b.0.1))
  walk (suc k) d [] later g f a b e = walk k (suc d) later [] g (omega (arith, f)) b tt e
  walk k d (n ∷ ns) later g f a b e =
      let (r, q, e', c) = visit_node-Visits n g (omega (arith, a.0.0, a.0.1)) e in
      let next = subst (λ x. All (OnLevel h (suc x)) r.1) a.0.0 c in
      let (s, t, u) = walk k d ns (later ++ r.1) r.0 f a.1 (All-append _ later r.1 b next) e' in
      (
        s,
        ap
              (λ o. elim o as (λ _. Option Graph) [
                | none ↦ none
                | some r ↦ visit_nodes k h ns (later ++ r.1) r.0
              ])
              q
            ∙ t,
        u,
      )

-- From a graph whose edges each add one lock, add_hypothesis_to_graph returns, with no assertion
-- failed, a graph of which the same holds.
pub add_hypothesis_to_graph-Edges :
    (h : List ℕ) (g : Graph)
    → Edges g
    → (r : Graph) × (add_hypothesis_to_graph h g ≡ some r) × Edges r
unfolding add_hypothesis_to_graph Walks
add_hypothesis_to_graph-Edges [] g e = (g, refl, e)
add_hypothesis_to_graph-Edges (a ∷ h) g e =
    walk (a ∷ h) (length (a ∷ h)) 0 ([] ∷ []) [] g (omega arith) ((refl, omega arith), tt) tt e
