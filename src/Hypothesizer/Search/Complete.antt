-- ===== src/Hypothesizer/Search/Complete.antt =====
-- find_hypotheses: which hypotheses it records.
use lockdoc_tools.Common.{
  ℕ, zero, suc, ◌+◌, ◌≤◌, ◌<◌, ◌≡◌, refl, subst, ◌∙◌, Bool, true, false, ◌&&◌, ◌||◌, Option, none,
  some, List, [], ◌∷◌, arith, All, ltb, leb, ◌==◌, ==_iff, length, contains, Bool-cases, inl, inr,
  text_eq, eq_of_text_eq,
}
use lockdoc_tools.Hypothesizer.Combination.{LockCombination, contains_locks}
use lockdoc_tools.Hypothesizer.Combination.Contains.{Strict, contains_locks_iff}
use lockdoc_tools.Hypothesizer.Graph.Levels.{Edges}
use lockdoc_tools.Hypothesizer.Search.{
  LockingHypothesisMatches, Member, is_tested, search_depth, find_from, all_locks, find_hypotheses,
}
use lockdoc_tools.Hypothesizer.Search.Evaluate.{
  Recorded, any_contains, includes, contains_locks-includes, same_test,
}
use lockdoc_tools.Hypothesizer.Search.Find.{find_hypotheses-Searched}
use lockdoc_tools.Hypothesizer.Search.Steps.{
  Then, Then-elim, Then-if, Tested, Grows, search_depth-Grows, search_depth-tests,
}

-- Whether a number of locks is within the limit; 0 sets none.
abbrev pub is_within : ℕ → ℕ → Bool
is_within limit k = limit == 0 || leb k limit

-- Whether all locks of the hypothesis are held in some combination.
abbrev pub any_includes : List ℕ → List LockCombination → Bool
any_includes h [] = false
any_includes h (c ∷ cs) = includes c.locks_held h || any_includes h cs

any_contains-includes :
    (h : List ℕ) (cs : List LockCombination) → Strict h → any_contains h cs ≡ any_includes h cs
any_contains-includes h [] t = refl
any_contains-includes h (c ∷ cs) t =
    rw (contains_locks-includes c h t, any_contains-includes h cs t) refl

-- The first `d` locks.
first_locks : ℕ → List ℕ → List ℕ
first_locks zero h = []
first_locks (suc d) [] = []
first_locks (suc d) (x ∷ h) = x ∷ first_locks d h

length-first_locks : (d : ℕ) (h : List ℕ) → d ≤ length h → length (first_locks d h) ≡ d
unfolding first_locks
length-first_locks zero h le = refl
length-first_locks (suc d) [] le = absurd (omega (arith, le))
length-first_locks (suc d) (x ∷ h) le = omega (arith, length-first_locks d h (omega (arith, le)))

All-first_locks : (P : ℕ → Type 0) (d : ℕ) (h : List ℕ) → All P h → All P (first_locks d h)
unfolding first_locks
All-first_locks P zero h a = tt
All-first_locks P (suc d) [] a = tt
All-first_locks P (suc d) (x ∷ h) a = (a.0, All-first_locks P d h a.1)

Strict-first_locks : (d : ℕ) (h : List ℕ) → Strict h → Strict (first_locks d h)
unfolding first_locks
Strict-first_locks zero h s = tt
Strict-first_locks (suc d) [] s = tt
Strict-first_locks (suc d) (x ∷ h) s =
    (All-first_locks (λ y. x < y) d h s.0, Strict-first_locks d h s.1)

contains_locks-first_locks :
    (c : LockCombination) (d : ℕ) (h : List ℕ)
    → Strict h
    → contains_locks c h ≡ true
    → contains_locks c (first_locks d h) ≡ true
contains_locks-first_locks c d h s e =
    (contains_locks_iff c (first_locks d h) (Strict-first_locks d h s)).1
      (All-first_locks (λ l. contains c.locks_held l ≡ true) d h ((contains_locks_iff c h s).0 e))

any_contains-first_locks :
    (d : ℕ) (h : List ℕ) (cs : List LockCombination)
    → Strict h
    → any_contains h cs ≡ true
    → any_contains (first_locks d h) cs ≡ true
any_contains-first_locks d h [] s e = cc
any_contains-first_locks d h (c ∷ cs) s e =
    ground (arith, e, contains_locks-first_locks c d h s, any_contains-first_locks d h cs s)

-- A property of the keys of all hypotheses holds of each that is tested.
Tested-All :
    (P : List ℕ → Type 0) (h : List ℕ) (hs : List (List ℕ × LockingHypothesisMatches))
    → All (λ e. P e.0) hs
    → is_tested h hs ≡ true
    → P h
Tested-All P h [] a t = cc
Tested-All P h ((k, m) ∷ hs) a t = elim (Bool-cases (text_eq k h)) [
  | inl e ↦ subst P (eq_of_text_eq k h e) a.0
  | inr e ↦ Tested-All P h hs a.1 (ground (arith, t, e))
]

All-keys :
    (P Q : List ℕ → Type 0) (hs : List (List ℕ × LockingHypothesisMatches))
    → ((h : List ℕ) → P h → Q h)
    → All (λ e. P e.0) hs
    → All (λ e. Q e.0) hs
All-keys P Q [] f a = tt
All-keys P Q ((h, m) ∷ hs) f a = (f h a.0, All-keys P Q hs f a.1)

Then-both :
    (P : Member → Type 0) (R : List ℕ → Type 0) (o : Option Member)
    → Then P o
    → ((h : List ℕ) → R h → Then (Tested h) o)
    → Then (λ n. P n × ((h : List ℕ) → R h → Tested h n)) o
Then-both P R none p f = tt
Then-both P R (some n) p f = (p, f)

module _ (cs : List LockCombination) where
  -- A hypothesis that some combination has all locks of.
  record Held (h : List ℕ) : Type 0 where
    rising : Strict h
    held : any_contains h cs ≡ true

  record Complete (limit : ℕ) (n : Member) : Type 0 where
    tests : (h : List ℕ) → Held h → is_within limit (length h) ≡ true → Tested h n
    short : All (λ e. is_within limit (length e.0) ≡ true) n.hypotheses

  -- All hypotheses of fewer than `d` locks, and no others, are there before the depth `d`.
  record Upto (d : ℕ) (m : Member) : Type 0 where
    combos : m.combinations ≡ cs
    tests : (h : List ℕ) → Held h → length h < d → Tested h m
    short : All (λ e. length e.0 < d) m.hypotheses

  -- What one more depth adds.
  abbrev Deepens : ℕ → Member → Member → Type 0
  Deepens d m n = Grows d m n × ((h : List ℕ) → Held h × (length h ≡ d) → Tested h n)

  search_depth-Deepens :
      (d : ℕ) (m : Member)
      → m.combinations ≡ cs
      → Then (Deepens d m) (search_depth m.combinations d m)
  search_depth-Deepens d m e =
      Then-both (Grows d m) (λ h. Held h × (length h ≡ d)) _ (search_depth-Grows m.combinations d m)
        λ h k.
          subst (λ d. Then (Tested h) (search_depth m.combinations d m)) k.1
            (search_depth-tests h m.combinations m k.0.rising (rw e k.0.held))

  Upto-next : (d : ℕ) (m n : Member) → Upto d m → Deepens d m n → Upto (d + 1) n
  Upto-next d m n u (g, new) = record {
    combos = g.combos ∙ u.combos;
    tests = λ h k lt. elim (Bool-cases (length h == d)) [
      | inl e ↦ new h (k, (==_iff (length h) d).0 e)
      | inr e ↦ g.keeps h (u.tests h k (ground (arith, lt, e)))
    ];
    short =
        All-keys (λ h. length h ≤ d) (λ h. length h < d + 1) n.hypotheses (λ h e. omega (arith, e))
          (g.short (
            All-keys (λ h. length h < d) (λ h. length h ≤ d) m.hypotheses (λ h e. omega (arith, e))
              u.short));
  }

  -- If a depth finds nothing new, no hypothesis has as many locks.
  nothing_longer :
      (d : ℕ) (m n : Member)
      → Upto d m
      → Deepens d m n
      → length m.hypotheses ≡ length n.hypotheses
      → (h : List ℕ) → Held h
      → length h < d
  nothing_longer d m n u (g, new) e h k = elim (Bool-cases (ltb (length h) d)) [
    | inl lt ↦ ground arith
    | inr ge ↦
        let f = first_locks d h in
        let len = length-first_locks d h (ground (arith, ge)) in
        let held : Held f = record {
          rising = Strict-first_locks d h k.rising;
          held = any_contains-first_locks d h cs k.rising k.held;
        } in
        let old : is_tested f m.hypotheses ≡ true =
          subst (λ hs. is_tested f hs ≡ true) (g.same e) (new f (held, len)) in
        absurd (omega (arith, len, Tested-All (λ h. length h < d) f m.hypotheses u.short old))
  ]

  module _ (limit : ℕ) where
    Complete-end :
        (d : ℕ) (m n : Member)
        → is_within limit d ≡ true
        → Upto d m
        → Deepens d m n
        → length m.hypotheses == length n.hypotheses || (ltb 0 limit && leb limit d) ≡ true
        → Complete limit n
    Complete-end d m n w u a e =
        let v = Upto-next d m n u a in
        record {
          tests = λ h k i. elim (Bool-cases (length m.hypotheses == length n.hypotheses)) [
            | inl q ↦ v.tests h k (
                omega (
                  arith,
                  nothing_longer d m n u a
                      ((==_iff (length m.hypotheses) (length n.hypotheses)).0 q) h k,
                ))
            | inr q ↦ v.tests h k (ground (arith, e, q, i))
          ];
          short =
              All-keys (λ h. length h < d + 1) (λ h. is_within limit (length h) ≡ true) n.hypotheses
                (λ h lt. ground (arith, lt, w)) v.short;
        }

    find_from-Complete :
        (k d : ℕ) (m : Member)
        → is_within limit d ≡ true
        → Upto d m
        → Then (Complete limit) (find_from k limit d m)
    unfolding find_from
    find_from-Complete zero d m w u = tt
    find_from-Complete (suc k) d m w u =
        Then-elim (Deepens d m) (Complete limit) (search_depth m.combinations d m) _
          (search_depth-Deepens d m u.combos)
          λ n a.
            Then-if (Complete limit)
              (length m.hypotheses == length n.hypotheses || (ltb 0 limit && leb limit d)) _ _
              (λ e. Complete-end d m n w u a e)
              λ e. find_from-Complete k (d + 1) n (ground (arith, w, e)) (Upto-next d m n u a)

Then-of : (P : Member → Type 0) (o : Option Member) (n : Member) → o ≡ some n → Then P o → P n
Then-of P o n e h = subst (Then P) e h

-- For a member without hypotheses, in whose graph every edge adds one lock (for a start it has
-- none), find_hypotheses returns, and a strictly rising list of locks is among the hypotheses then
-- exactly if some combination holds all of them and their number is within the limit (a limit of 0
-- is none).
pub find_hypotheses_complete :
    (limit : ℕ) (m : Member)
    → m.hypotheses ≡ []
    → Edges m.graph
    → (n : Member) × (find_hypotheses limit m ≡ some n)
      × ((h : List ℕ)
          → Strict h
          → is_tested h n.hypotheses
            ≡ (any_includes h m.combinations && is_within limit (length h)))
unfolding find_hypotheses
find_hypotheses_complete limit m none_yet edges =
    let cs = m.combinations in
    let (n, e, s) =
      find_hypotheses-Searched limit m
        (record { unchanged = refl; edges = edges; recorded = rw none_yet tt }) in
    let c : Complete cs limit n = Then-of (Complete cs limit) _ n e (
      find_from-Complete cs limit (all_locks cs + 2) 0 m (ground arith) (record {
        combos = refl;
        tests = λ h k lt. absurd (omega (arith, lt));
        short = rw none_yet tt;
      })) in
    (
      n,
      e,
      λ h t.
          same_test _ _
            (λ k.
              let r =
                Tested-All (λ h. is_within limit (length h) ≡ true) h n.hypotheses c.short k in
              let held =
                Tested-All (λ h. any_contains h cs ≡ true) h n.hypotheses
                  (held_all cs n.hypotheses s.recorded) k in
              ground (arith, r, held, any_contains-includes h cs t))
            (λ k.
              c.tests h
                (record { rising = t; held = any_contains-includes h cs t ∙ ground (arith, k) })
                (ground (arith, k))),
    )
  where
    held_all :
        (cs : List LockCombination) (hs : List (List ℕ × LockingHypothesisMatches))
        → All (Recorded cs) hs
        → All (λ e. any_contains e.0 cs ≡ true) hs
    held_all cs [] a = tt
    held_all cs (e ∷ hs) a = (a.0.held, held_all cs hs a.1)
