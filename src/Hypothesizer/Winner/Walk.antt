-- ===== src/Hypothesizer/Winner/Walk.antt =====
-- The walk of determine_winning_hypothesis: its end, and its conflict list.
use lockdoc_tools.Common.{
  ℕ, zero, suc, ◌+◌, ◌≤◌, ◌<◌, ◌≡◌, refl, sym, ap, subst, ◌∙◌, Bool, true, false, ◌&&◌, ◌||◌,
  Option, none, some, List, [], ◌∷◌, ◌++◌, arith, ◌==◌, ==_iff, if◌then◌else◌, length, All,
  All-append, text_eq, ltb, leb,
}
use lockdoc_tools.Hypothesizer.Graph.{Graph, children}
use lockdoc_tools.Hypothesizer.Graph.Levels.{Edges, IsEdge}
use lockdoc_tools.Hypothesizer.Search.{Member}
use lockdoc_tools.Hypothesizer.Winner.{
  Doubles, Candidate, Standing, in_conflict_list, Strategy, bottomup, sharpen, lockset, topdown,
  Node, Verdict, join, replace, compare_with, evaluate_bottomup, evaluate_sharpen, evaluate_lockset,
  evaluate_topdown, with_front, or_root, is_root, nolock_fraction, evaluate, node_of, examine,
  initial, deepest, depth_of, determine_winning_hypothesis,
}

-- There is a first hypothesis, and all others have as many locks.
abbrev pub IsGroup : List Candidate → Type 0
IsGroup [] = ⊥
IsGroup (e ∷ es) = All (λ x. length x.0 ≡ length e.0) es

module _ (d : Doubles) where
  abbrev Grouped : Standing d → Type 0
  Grouped s = IsGroup s.conflict_list

  append-IsGroup :
      (e : Candidate) (es : List Candidate) (c : Candidate)
      → IsGroup (e ∷ es)
      → length e.0 ≡ length c.0
      → IsGroup ((e ∷ es) ++ (c ∷ []))
  append-IsGroup e es c g h = All-append _ es (c ∷ []) g (sym h, tt)

  join-Grouped :
      (n : Node d) (s : Standing d) (e : Candidate) (es : List Candidate)
      → s.conflict_list ≡ e ∷ es
      → IsGroup (e ∷ es)
      → length e.0 ≡ length n.sorted
      → Grouped (join d n s)
  unfolding join
  join-Grouped n s e es q g h = by_test (in_conflict_list s.conflict_list n.ordered)
    where
      by_test :
          (b : Bool)
          → Grouped (
              if b
              then s
              else record s { conflict_list = s.conflict_list ++ ((n.sorted, n.ordered) ∷ []) })
      by_test true = subst IsGroup (sym q) g
      by_test false =
          subst (λ l. IsGroup (l ++ ((n.sorted, n.ordered) ∷ []))) (sym q)
            (append-IsGroup e es (n.sorted, n.ordered) g h)

  compare-Grouped :
      (equal better : Bool) (sup : d.number) (n : Node d) (s : Standing d) (e : Candidate)
      (es : List Candidate)
      → s.conflict_list ≡ e ∷ es
      → IsGroup (e ∷ es)
      → (equal ≡ true → length e.0 ≡ length n.sorted)
      → Grouped (compare_with d equal better sup n s).0
  unfolding compare_with replace
  compare-Grouped true better sup n s e es q g h = join-Grouped n s e es q g (h refl)
  compare-Grouped false true sup n s e es q g h = tt
  compare-Grouped false false sup n s e es q g h = subst IsGroup (sym q) g

  and_left : (a b : Bool) → (a && b) ≡ true → a ≡ true
  and_left true b h = refl
  and_left false b h = h

  size_test : (a b : ℕ) (c : Bool) → (a == b && c) ≡ true → a ≡ b
  size_test a b c h = (==_iff a b).0 (and_left (a == b) c h)

  -- A verdict is given, and the list stays a group.
  abbrev Judges : Option (Verdict d) → Type 0
  Judges o = (r : Verdict d) × (o ≡ some r) × Grouped r.0

  with_front-Judges :
      (f : ℕ → Verdict d) (l : List Candidate)
      → IsGroup l
      → ((e : Candidate) (es : List Candidate) → l ≡ e ∷ es → Grouped (f (length e.0)).0)
      → Judges (with_front d f l)
  with_front-Judges f [] g h = absurd g
  with_front-Judges f (e ∷ es) g h = (f (length e.0), refl, h e es refl)

  Judges-if :
      (b : Bool) (x y : Option (Verdict d)) → Judges x → Judges y → Judges (if b then x else y)
  Judges-if true x y h k = h
  Judges-if false x y h k = k

  or_root-IsGroup : (l : List Candidate) → IsGroup l → IsGroup (or_root d l)
  or_root-IsGroup [] g = tt
  or_root-IsGroup (e ∷ es) g = g

  evaluate-Judges :
      (st : Strategy d) (m : Member) (n : Node d) (s : Standing d)
      → Grouped s
      → Judges (evaluate d st m n s)
  unfolding evaluate evaluate_bottomup evaluate_sharpen evaluate_lockset evaluate_topdown
  evaluate-Judges (bottomup t) m n s g =
      let same = d.equal n.rel_sup s.rel_support_winner in
      with_front-Judges (λ k. evaluate_bottomup d t k n s) s.conflict_list g
        λ e es q.
          compare-Grouped (length e.0 == length n.sorted && same)
            ((d.at_most t n.rel_sup && d.less n.rel_sup s.rel_support_winner)
              || (ltb (length e.0) (length n.sorted) && same))
            n.rel_sup n s e es q (subst IsGroup q g) (size_test (length e.0) (length n.sorted) same)
  evaluate-Judges (sharpen t) m n s g =
      let same = d.equal n.rel_sup s.rel_support_winner in
      let delta = d.subtract (d.of_nat 1) (d.divide n.rel_sup s.rel_support_winner) in
      with_front-Judges (λ k. evaluate_sharpen d t k n s) s.conflict_list g
        λ e es q.
          compare-Grouped (length e.0 == length n.sorted && same)
            ((length e.0 == length n.sorted && d.less s.rel_support_winner n.rel_sup)
              || (ltb (length e.0) (length n.sorted) && (same || d.at_most delta t)))
            n.rel_sup n s e es q (subst IsGroup q g) (size_test (length e.0) (length n.sorted) same)
  evaluate-Judges lockset m n s g =
      Judges-if (d.less n.rel_sup (d.of_nat 1)) _ _ (_, refl, g)
        (with_front-Judges (λ k. evaluate_lockset d k n s) s.conflict_list g
          λ e es q.
            compare-Grouped (length e.0 == length n.sorted) (leb (length e.0) (length n.sorted))
              s.rel_support_winner n s e es q (subst IsGroup q g)
              (==_iff (length e.0) (length n.sorted)).0)
  evaluate-Judges (topdown a b) m n s g =
      let same = d.equal n.rel_sup s.rel_support_winner in
      Judges-if (d.at_most b (nolock_fraction d m)) _ _ (_, refl, or_root-IsGroup s.conflict_list g)
        (Judges-if (is_root d n.sorted) _ _ (_, refl, g)
          (with_front-Judges (λ k. evaluate_topdown d a k n s) s.conflict_list g
            λ e es q.
              compare-Grouped (length e.0 == length n.sorted && same)
                (d.at_most a n.rel_sup
                  && (d.at_most s.rel_support_winner n.rel_sup
                      && leb (length e.0) (length n.sorted)))
                n.rel_sup n s e es q (subst IsGroup q g)
                (size_test (length e.0) (length n.sorted) same)))

weaken :
    (a b : ℕ) (hs : List (List ℕ)) → a ≤ b → All (λ c. length c ≤ a) hs → All (λ c. length c ≤ b) hs
weaken a b [] h k = tt
weaken a b (c ∷ hs) h k = (omega (arith, h, k.0), weaken a b hs h k.1)

module _ (d : Doubles) where
  deepest_bound : (hs : List (List ℕ)) → All (λ c. length c ≤ deepest d hs) hs
  deepest_bound [] = tt
  deepest_bound (h ∷ hs) =
      (omega arith, weaken (deepest d hs) _ hs (omega arith) (deepest_bound hs))

  children_bound : (g : Graph) (h : List ℕ) → All (λ c. length c ≤ depth_of d g) (children g h)
  children_bound [] h = tt
  children_bound ((k, hs) ∷ g) h = by_key (text_eq k h) (children_bound g h)
    where
      by_key :
          (b : Bool)
          → All (λ c. length c ≤ depth_of d g) (children g h)
          → All (λ c. length c ≤ deepest d hs + depth_of d g) (if b then hs else children g h)
      by_key true a = weaken (deepest d hs) _ hs (omega arith) (deepest_bound hs)
      by_key false a = weaken (depth_of d g) _ (children g h) (omega arith) a

  -- A node to come: it is on the level, and the graph is at least as deep.
  abbrev OnLevel : Graph → ℕ → List ℕ → Type 0
  OnLevel g k h = (length h ≡ k) × (k ≤ depth_of d g)

  next_level :
      (g : Graph) (h : List ℕ) (hs : List (List ℕ))
      → All (IsEdge h) hs
      → All (λ c. length c ≤ depth_of d g) hs
      → All (OnLevel g (suc (length h))) hs
  next_level g h [] e b = tt
  next_level g h (c ∷ hs) e b =
      ((e.0.1, (let l = e.0.1 in omega (arith, l, b.0))), next_level g h hs e.1 b.1)

  module _ (st : Strategy d) (m : Member) (e : Edges m.graph) where
    appended :
        (b : Bool) (h : List ℕ)
        → All (OnLevel m.graph (suc (length h))) (if b then children m.graph h else [])
    appended true h = next_level m.graph h (children m.graph h) (e h) (children_bound m.graph h)
    appended false h = tt

    examine-Grouped :
        (k i : ℕ) (hs later : List (List ℕ)) (s : Standing d)
        → depth_of d m.graph < i + k
        → All (OnLevel m.graph i) hs
        → All (OnLevel m.graph (suc i)) later
        → Grouped d s
        → (r : Standing d) × (examine d k st m hs later s ≡ some r) × Grouped d r
    unfolding examine
    examine-Grouped zero i [] [] s f a b g = (s, refl, g)
    examine-Grouped zero i [] (h ∷ later) s f a b g = absurd (omega (arith, f, b.0.1))
    examine-Grouped (suc k) i [] later s f a b g =
        examine-Grouped k (suc i) later [] s (omega (arith, f)) b tt g
    examine-Grouped k i (h ∷ hs) later s f a b g =
        let (v, q, g') = evaluate-Judges d st m (node_of d m h) s g in
        let more =
          subst (λ x. All (OnLevel m.graph (suc x)) (if v.1 then children m.graph h else [])) a.0.0
            (appended v.1 h) in
        let (r, t, w) = examine-Grouped k i hs _ v.0 f a.1 (All-append _ later _ b more) g' in
        (
          r,
          ap
                (λ o. elim o as (λ _. Option (Standing d)) [
                  | none ↦ none
                  | some x ↦
                      examine d k st m hs (later ++ (if x.1 then children m.graph h else [])) x.0
                ])
                q
              ∙ t,
          w,
        )

    root_level : All (OnLevel m.graph 1) (children m.graph [])
    root_level = appended true []

  -- With each strategy, on a graph whose edges add one lock each, determine_winning_hypothesis ends
  -- without reading the front of an empty list, and leaves a conflict list that is not empty and
  -- whose hypotheses all have the same number of locks.
  pub determine_winning_hypothesis-IsGroup :
      (st : Strategy d) (m : Member)
      → Edges m.graph
      → (r : Standing d) × (determine_winning_hypothesis d st m ≡ some r) × IsGroup r.conflict_list
  unfolding determine_winning_hypothesis initial
  determine_winning_hypothesis-IsGroup (topdown a b) m e =
      examine-Grouped (topdown a b) m e (suc (depth_of d m.graph)) 0 ([] ∷ []) []
        (initial d (topdown a b) m).1 (omega arith) ((refl, omega arith), tt) tt tt
  determine_winning_hypothesis-IsGroup (bottomup t) m e =
      examine-Grouped (bottomup t) m e (suc (depth_of d m.graph)) 1 (children m.graph []) []
        (initial d (bottomup t) m).1 (omega arith) (root_level (bottomup t) m e) tt tt
  determine_winning_hypothesis-IsGroup (sharpen t) m e =
      examine-Grouped (sharpen t) m e (suc (depth_of d m.graph)) 1 (children m.graph []) []
        (initial d (sharpen t) m).1 (omega arith) (root_level (sharpen t) m e) tt tt
  determine_winning_hypothesis-IsGroup lockset m e =
      examine-Grouped lockset m e (suc (depth_of d m.graph)) 1 (children m.graph []) []
        (initial d lockset m).1 (omega arith) (root_level lockset m e) tt tt
