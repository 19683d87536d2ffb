-- ===== src/Hypothesizer/Search/Evaluate.antt =====
-- evaluate_hypothesis: what is recorded of a hypothesis.
use lockdoc_tools.Common.{
  wrap64, ℕ, ◌+◌, ◌≡◌, refl, sym, ap, Bool, true, false, ◌&&◌, Option, none, some, List, [], ◌∷◌,
  arith, All, if◌then◌else◌, contains, ◌||◌, ◌<◌, length, ◌^◌, Bool-cases, inl, inr,
}
use lockdoc_tools.Hypothesizer.Combination.{LockCombination, contains_locks, lock_order}
use lockdoc_tools.Hypothesizer.Combination.Contains.{Strict, Includes, contains_locks_iff}
use lockdoc_tools.Hypothesizer.Graph.Levels.{Edges, add_hypothesis_to_graph-Edges}
use lockdoc_tools.Hypothesizer.Search.{
  LockingHypothesisMatches, Member, add_match, count_combination, count_combinations, no_matches,
  is_tested, evaluate_hypothesis,
}

abbrev pub includes : List ℕ → List ℕ → Bool
includes held [] = true
includes held (l ∷ ls) = contains held l && includes held ls

-- How many accesses were made with all of these locks held.
abbrev pub support : List ℕ → List LockCombination → ℕ
support h [] = 0
support h (c ∷ cs) = (if includes c.locks_held h then c.occurrences else 0) + support h cs

abbrev pub tally : List (List ℕ × ℕ) → ℕ
tally [] = 0
tally ((o, n) ∷ ms) = n + tally ms

includes-Includes : (held l : List ℕ) → includes held l ≡ true → Includes held l
includes-Includes held [] h = tt
includes-Includes held (a ∷ l) h = (ground arith, includes-Includes held l (ground arith))

Includes-includes : (held l : List ℕ) → Includes held l → includes held l ≡ true
Includes-includes held [] h = refl
Includes-includes held (a ∷ l) h = ground (arith, Includes-includes held l h.1)

pub same_test : (a b : Bool) → (a ≡ true → b ≡ true) → (b ≡ true → a ≡ true) → a ≡ b
same_test true b f g = sym (f refl)
same_test false true f g = g refl
same_test false false f g = refl

pub contains_locks-includes :
    (c : LockCombination) (l : List ℕ) → Strict l → contains_locks c l ≡ includes c.locks_held l
contains_locks-includes c l s =
    let (to, from) = contains_locks_iff c l s in
    same_test _ _ (λ h. Includes-includes c.locks_held l (to h))
      (λ h. from (includes-Includes c.locks_held l h))

tally-add :
    (o : List ℕ) (n : ℕ) (ms : List (List ℕ × ℕ))
    → wrap64 (tally (add_match o n ms)) ≡ wrap64 (tally ms + n)
tally-add o n [] = omega arith
tally-add o n ((k, c) ∷ ms) = ground (arith, tally-add o n ms)

module _ (h : List ℕ) (s : Strict h) where
  count_combination-counts :
      (c : LockCombination) (m : LockingHypothesisMatches)
      → (let r = count_combination h c m in
          (wrap64 r.occurrences
            ≡ wrap64 (m.occurrences + (if includes c.locks_held h then c.occurrences else 0)))
          × (wrap64 (tally r.matches + m.occurrences) ≡ wrap64 (tally m.matches + r.occurrences)))
  unfolding count_combination
  count_combination-counts c m = by_test (contains_locks c h) (contains_locks-includes c h s)
    where
      by_test :
          (b : Bool)
          → b ≡ includes c.locks_held h
          → (let r =
                if b
                then record {
                  occurrences = wrap64 (m.occurrences + c.occurrences);
                  sorted_hypothesis = h;
                  matches = add_match (lock_order c h) c.occurrences m.matches;
                }
                else m in
              (wrap64 r.occurrences
                ≡ wrap64 (m.occurrences + (if includes c.locks_held h then c.occurrences else 0)))
              × (wrap64 (tally r.matches + m.occurrences)
                  ≡ wrap64 (tally m.matches + r.occurrences)))
      by_test true e = (
        rw (sym e) (omega arith),
        omega (arith, tally-add (lock_order c h) c.occurrences m.matches),
      )
      by_test false e = (rw (sym e) (omega arith), omega arith)

  count_combinations-counts :
      (cs : List LockCombination) (m : LockingHypothesisMatches)
      → (let r = count_combinations h cs m in
          (wrap64 r.occurrences ≡ wrap64 (m.occurrences + support h cs))
          × (wrap64 (tally r.matches + m.occurrences) ≡ wrap64 (tally m.matches + r.occurrences)))
  unfolding count_combinations
  count_combinations-counts [] m = (omega arith, omega arith)
  count_combinations-counts (c ∷ cs) m =
      let one = count_combination-counts c m in
      let more = count_combinations-counts cs (count_combination h c m) in
      (omega (arith, one.0, more.0), omega (arith, one.1, more.1))

count_combination-fits :
    (h : List ℕ) (c : LockCombination) (m : LockingHypothesisMatches)
    → m.occurrences < 2 ^ 64
    → (count_combination h c m).occurrences < 2 ^ 64
unfolding count_combination
count_combination-fits h c m k = elim (Bool-cases (contains_locks c h)) [
  | inl e ↦ rw (e, count_combination) (omega arith)
  | inr e ↦ rw (e, count_combination) k
]

count_combinations-fits :
    (h : List ℕ) (cs : List LockCombination) (m : LockingHypothesisMatches)
    → m.occurrences < 2 ^ 64
    → (count_combinations h cs m).occurrences < 2 ^ 64
unfolding count_combinations
count_combinations-fits h [] m k = k
count_combinations-fits h (c ∷ cs) m k =
    count_combinations-fits h cs (count_combination h c m) (count_combination-fits h c m k)

-- Whether a combination holds all locks of the hypothesis.
abbrev pub any_contains : List ℕ → List LockCombination → Bool
any_contains h [] = false
any_contains h (c ∷ cs) = contains_locks c h || any_contains h cs

add_match-seen : (o : List ℕ) (n : ℕ) (ms : List (List ℕ × ℕ)) → 0 < length (add_match o n ms)
add_match-seen o n [] = omega arith
add_match-seen o n ((k, c) ∷ ms) = ground arith

count_combination-keeps :
    (h : List ℕ) (c : LockCombination) (m : LockingHypothesisMatches)
    → 0 < length m.matches
    → 0 < length (count_combination h c m).matches
unfolding count_combination
count_combination-keeps h c m k = elim (Bool-cases (contains_locks c h)) [
  | inl e ↦ rw (e, count_combination) (add_match-seen (lock_order c h) c.occurrences m.matches)
  | inr e ↦ rw (e, count_combination) k
]

count_combinations-keeps :
    (h : List ℕ) (cs : List LockCombination) (m : LockingHypothesisMatches)
    → 0 < length m.matches
    → 0 < length (count_combinations h cs m).matches
unfolding count_combinations
count_combinations-keeps h [] m k = k
count_combinations-keeps h (c ∷ cs) m k =
    count_combinations-keeps h cs (count_combination h c m) (count_combination-keeps h c m k)

count_combination-seen :
    (h : List ℕ) (c : LockCombination) (m : LockingHypothesisMatches)
    → contains_locks c h ≡ true
    → 0 < length (count_combination h c m).matches
unfolding count_combination
count_combination-seen h c m e =
    rw (e, count_combination) (add_match-seen (lock_order c h) c.occurrences m.matches)

count_combinations-seen :
    (h : List ℕ) (cs : List LockCombination) (m : LockingHypothesisMatches)
    → any_contains h cs ≡ true
    → 0 < length (count_combinations h cs m).matches
unfolding count_combinations
count_combinations-seen h [] m e = cc
count_combinations-seen h (c ∷ cs) m e = elim (Bool-cases (contains_locks c h)) [
  | inl f ↦ count_combinations-keeps h cs (count_combination h c m) (count_combination-seen h c m f)
  | inr f ↦ count_combinations-seen h cs (count_combination h c m) (ground arith)
]

-- What is recorded of a hypothesis: its locks rise strictly and a combination holds them all, its
-- occurrences are its support and what the orders of its locks, of which there is one, add up to,
-- all in 64 bits.
pub record Recorded (cs : List LockCombination) (e : List ℕ × LockingHypothesisMatches)
    : Type 0 where
  pub rising : Strict e.0
  pub held : any_contains e.0 cs ≡ true
  pub supported : (e.1).occurrences ≡ wrap64 (support e.0 cs)
  pub divided : wrap64 (tally (e.1).matches) ≡ (e.1).occurrences
  pub seen : 0 < length (e.1).matches

pub record Searched (cs : List LockCombination) (m : Member) : Type 0 where
  pub unchanged : m.combinations ≡ cs
  pub edges : Edges m.graph
  pub recorded : All (Recorded cs) m.hypotheses

module _ (cs : List LockCombination) where
  abbrev pub Continues : Option Member → Type 0
  Continues o = (n : Member) × (o ≡ some n) × Searched cs n

  pub Continues-elim :
      (o : Option Member) (f : Member → Option Member)
      → Continues o
      → ((n : Member) → o ≡ some n → Searched cs n → Continues (f n))
      → Continues (elim o as (λ _. Option Member) [ none ↦ none | some n ↦ f n ])
  Continues-elim o f (n, e, g) k = rw e (k n e g)

  pub Continues-if :
      (b : Bool) (x y : Option Member)
      → (b ≡ true → Continues x)
      → (b ≡ false → Continues y)
      → Continues (if b then x else y)
  Continues-if true x y f g = f refl
  Continues-if false x y f g = g refl

  pub evaluate_hypothesis-Searched :
      (h : List ℕ) (m : Member)
      → Strict h
      → any_contains h cs ≡ true
      → Searched cs m
      → Continues (evaluate_hypothesis h m)
  unfolding evaluate_hypothesis
  evaluate_hypothesis-Searched h m s held v =
      Continues-if (is_tested h m.hypotheses) _ _ (λ _. (m, refl, v))
        λ _.
          let (g, q, e) = add_hypothesis_to_graph-Edges h m.graph v.edges in
          let counts = count_combinations-counts h s m.combinations no_matches in
          let fits = count_combinations-fits h m.combinations no_matches (omega arith) in
          (
            record m {
              hypotheses = (h, count_combinations h m.combinations no_matches) ∷ m.hypotheses;
              graph = g;
            },
            rw q refl,
            record {
              unchanged = v.unchanged;
              edges = e;
              recorded = (
                record {
                  rising = s;
                  held = held;
                  supported = omega (arith, counts.0, fits, ap (support h) v.unchanged);
                  divided = omega (arith, counts.1, fits);
                  seen = count_combinations-seen h m.combinations no_matches (rw v.unchanged held);
                },
                v.recorded,
              );
            },
          )
