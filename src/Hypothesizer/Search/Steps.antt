-- ===== src/Hypothesizer/Search/Steps.antt =====
-- find_hypotheses_rek and the loop over the combinations: what one depth of the search tests.
use lockdoc_tools.Common.{
  ℕ, zero, suc, ◌+◌, ◌≤◌, ◌<◌, ◌≡◌, refl, sym, subst, ap, ◌∙◌, Bool, true, false, Option, none,
  some, List, [], ◌∷◌, ◌++◌, append-nil, append_assoc, length-append, arith, All, ◌==◌, ==_iff,
  if◌then◌else◌, length, contains, Bool-cases, inl, inr, text_eq_refl,
}
use lockdoc_tools.Hypothesizer.Combination.{
  LockCombination, sort, locks_held_sorted, contains_locks,
}
use lockdoc_tools.Hypothesizer.Combination.Contains.{
  Sorted, Strict, Includes, Includes-sort, Includes-above, All-lt_trans, least, sort-Sorted,
  contains_locks_iff,
}
use lockdoc_tools.Hypothesizer.Graph.{add_hypothesis_to_graph}
use lockdoc_tools.Hypothesizer.Search.{
  Member, is_tested, evaluate_hypothesis, find_hypotheses_rek, search_depth,
}
use lockdoc_tools.Hypothesizer.Search.Evaluate.{any_contains}

-- What holds of the result, if there is one.
abbrev pub Then : {A : Type 0} → (A → Type 0) → Option A → Type 0
Then P none = Unit
Then P (some a) = P a

Then-any : {A : Type 0} (o : Option A) → Then (λ _. Unit) o
Then-any none = tt
Then-any (some a) = tt

pub Then-elim :
    {A : Type 0} (P : A → Type 0) (Q : Member → Type 0) (o : Option A) (f : A → Option Member)
    → Then P o
    → ((a : A) → P a → Then Q (f a))
    → Then Q (elim o as (λ _. Option Member) [ none ↦ none | some a ↦ f a ])
Then-elim P Q none f h k = tt
Then-elim P Q (some a) f h k = k a h

pub Then-if :
    (Q : Member → Type 0) (b : Bool) (x y : Option Member)
    → (b ≡ true → Then Q x)
    → (b ≡ false → Then Q y)
    → Then Q (if b then x else y)
Then-if Q true x y f g = f refl
Then-if Q false x y f g = g refl

Then-map :
    (P Q : Member → Type 0) (o : Option Member) → ((n : Member) → P n → Q n) → Then P o → Then Q o
Then-map P Q none f h = tt
Then-map P Q (some n) f h = f n h

abbrev pub Tested : List ℕ → Member → Type 0
Tested h n = is_tested h n.hypotheses ≡ true

-- No hypothesis has more locks than that.
abbrev pub Short : ℕ → Member → Type 0
Short k m = All (λ e. length e.0 ≤ k) m.hypotheses

-- What a part of the search at the depth `d` does to the member.
pub record Grows (d : ℕ) (m n : Member) : Type 0 where
  pub combos : n.combinations ≡ m.combinations
  pub keeps : (h : List ℕ) → Tested h m → Tested h n
  pub short : Short d m → Short d n
  pub longer : length m.hypotheses ≤ length n.hypotheses
  pub same : length m.hypotheses ≡ length n.hypotheses → n.hypotheses ≡ m.hypotheses

Grows-refl : (d : ℕ) (m : Member) → Grows d m m
Grows-refl d m = record {
  combos = refl;
  keeps = λ h t. t;
  short = λ s. s;
  longer = omega arith;
  same = λ _. refl;
}

Grows-trans : (d : ℕ) (m n r : Member) → Grows d m n → Grows d n r → Grows d m r
Grows-trans d m n r a b = record {
  combos = b.combos ∙ a.combos;
  keeps = λ h t. b.keeps h (a.keeps h t);
  short = λ s. b.short (a.short s);
  longer = omega (arith, a.longer, b.longer);
  same = λ e.
      b.same (omega (arith, a.longer, b.longer, e)) ∙ a.same (omega (arith, a.longer, b.longer, e));
}

evaluate_hypothesis-Grows :
    (h : List ℕ) (d : ℕ) (m : Member) → length h ≤ d → Then (Grows d m) (evaluate_hypothesis h m)
unfolding evaluate_hypothesis
evaluate_hypothesis-Grows h d m le =
    Then-if (Grows d m) (is_tested h m.hypotheses) _ _ (λ _. Grows-refl d m)
      λ _.
        Then-elim (λ _. Unit) (Grows d m) (add_hypothesis_to_graph h m.graph) _ (Then-any _)
          λ g _. record {
            combos = refl;
            keeps = λ k t. ground (arith, t);
            short = λ s. (le, s);
            longer = omega arith;
            same = λ e. absurd (omega (arith, e));
          }

evaluate_hypothesis-tests : (h : List ℕ) (m : Member) → Then (Tested h) (evaluate_hypothesis h m)
unfolding evaluate_hypothesis
evaluate_hypothesis-tests h m =
    Then-if (Tested h) (is_tested h m.hypotheses) _ _ (λ e. e)
      λ _.
        Then-elim (λ _. Unit) (Tested h) (add_hypothesis_to_graph h m.graph) _ (Then-any _)
          λ g _. ground (arith, text_eq_refl h)

rek-Grows :
    (ls cur : List ℕ) (d k : ℕ) (m : Member)
    → length cur + d ≤ k
    → Then (Grows k m) (find_hypotheses_rek ls cur d m)
unfolding find_hypotheses_rek
rek-Grows ls cur zero k m le = evaluate_hypothesis-Grows cur k m (omega (arith, le))
rek-Grows [] cur (suc d) k m le = Grows-refl k m
rek-Grows (l ∷ ls) cur (suc d) k m le =
    Then-elim (Grows k m) (Grows k m) _ (find_hypotheses_rek ls cur (suc d))
      (Then-if (Grows k m) (contains cur l) _ _ (λ _. Grows-refl k m)
        λ _. rek-Grows ls (cur ++ (l ∷ [])) d k m (omega (arith, le, length-append cur (l ∷ []))))
      λ n a. Then-map _ _ _ (λ r b. Grows-trans k m n r a b) (rek-Grows ls cur (suc d) k n le)

-- What is tested stays so for the rest of the loop over the locks.
kept_on :
    (h ls cur : List ℕ) (d : ℕ) (m : Member)
    → Tested h m
    → Then (Tested h) (find_hypotheses_rek ls cur d m)
kept_on h ls cur d m t =
    Then-map (Grows (length cur + d) m) (Tested h) _ (λ n g. g.keeps h t)
      (rek-Grows ls cur d _ m (omega arith))

contains-snoc :
    (cur : List ℕ) (l y : ℕ) → l < y → contains cur y ≡ false → contains (cur ++ (l ∷ [])) y ≡ false
contains-snoc [] l y h e = ground arith
contains-snoc (x ∷ cur) l y h e = ground (arith, contains-snoc cur l y h)

-- None of the second locks is in the first list.
abbrev Absent : List ℕ → List ℕ → Type 0
Absent cur = All (λ y. contains cur y ≡ false)

Absent-snoc :
    (cur : List ℕ) (l : ℕ) (s : List ℕ)
    → All (λ y. l < y) s
    → Absent cur s
    → Absent (cur ++ (l ∷ [])) s
Absent-snoc cur l [] h a = tt
Absent-snoc cur l (y ∷ s) h a = (contains-snoc cur l y h.0 a.0, Absent-snoc cur l s h.1 a.1)

-- Each choice of `d` of the locks, added to the current ones, is tested.
rek-tests :
    (ls cur s : List ℕ) (d : ℕ) (m : Member)
    → Sorted ls
    → Strict s
    → Includes ls s
    → length s ≡ d
    → Absent cur s
    → Then (Tested (cur ++ s)) (find_hypotheses_rek ls cur d m)
unfolding find_hypotheses_rek
rek-tests ls cur [] zero m o t i e a = rw append-nil (evaluate_hypothesis-tests cur m)
rek-tests ls cur (x ∷ s) zero m o t i e a = absurd (omega (arith, e))
rek-tests ls cur [] (suc d) m o t i e a = absurd (omega (arith, e))
rek-tests [] cur (x ∷ s) (suc d) m o t i e a = cc
rek-tests (l ∷ ls) cur (x ∷ s) (suc d) m o t i e a = elim (Bool-cases (l == x)) [
  | inl q ↦
      let q' = (==_iff l x).0 q in
      let above : All (λ y. l < y) s = subst (λ z. All (λ y. z < y) s) (sym q') t.0 in
      Then-elim (Tested (cur ++ (x ∷ s))) (Tested (cur ++ (x ∷ s))) _
        (find_hypotheses_rek ls cur (suc d))
        (Then-if (Tested (cur ++ (x ∷ s))) (contains cur l) _ _
          (λ c.
            absurd (let c' = subst (λ z. contains cur z ≡ true) q' c in ground (arith, c', a.0)))
          λ _.
            subst (λ z. Then (Tested z) (find_hypotheses_rek ls (cur ++ (l ∷ [])) d m))
              (append_assoc cur (l ∷ []) s ∙ ap (λ z. cur ++ (z ∷ s)) q')
              (rek-tests ls (cur ++ (l ∷ [])) s d m o.1 t.1 (Includes-above l ls s above i.1)
                (omega (arith, e)) (Absent-snoc cur l s above a.1)))
        λ n k. kept_on (cur ++ (x ∷ s)) ls cur (suc d) n k
  | inr q ↦
      let in_rest : contains ls x ≡ true = ground (arith, i.0, q) in
      let lt : l < x = (let le = least l ls x o.0 in_rest in ground (arith, le, q)) in
      let rest = Includes-above l ls (x ∷ s) (lt, All-lt_trans l x s (omega (arith, lt)) t.0) i in
      Then-elim (λ _. Unit) (Tested (cur ++ (x ∷ s))) _ (find_hypotheses_rek ls cur (suc d))
        (Then-any _) λ n _. rek-tests ls cur (x ∷ s) (suc d) n o.1 t rest e a
]

pub search_depth-Grows :
    (cs : List LockCombination) (d : ℕ) (m : Member) → Then (Grows d m) (search_depth cs d m)
unfolding search_depth
search_depth-Grows [] d m = Grows-refl d m
search_depth-Grows (c ∷ cs) d m =
    Then-elim (Grows d m) (Grows d m) _ (search_depth cs d)
      (rek-Grows (locks_held_sorted c) [] d d m (omega arith))
      λ n a. Then-map _ _ _ (λ r b. Grows-trans d m n r a b) (search_depth-Grows cs d n)

Absent-nil : (s : List ℕ) → Absent [] s
Absent-nil [] = tt
Absent-nil (y ∷ s) = (refl, Absent-nil s)

-- A depth tests all hypotheses of its length that some combination has all locks of.
pub search_depth-tests :
    (h : List ℕ) (cs : List LockCombination) (m : Member)
    → Strict h
    → any_contains h cs ≡ true
    → Then (Tested h) (search_depth cs (length h) m)
unfolding search_depth locks_held_sorted
search_depth-tests h [] m t e = cc
search_depth-tests h (c ∷ cs) m t e = elim (Bool-cases (contains_locks c h)) [
  | inl k ↦
      let inside = (Includes-sort c.locks_held h).1 ((contains_locks_iff c h t).0 k) in
      Then-elim (Tested h) (Tested h) _ (search_depth cs (length h))
        (rek-tests (sort c.locks_held) [] h (length h) m (sort-Sorted c.locks_held) t inside refl
          (Absent-nil h))
        λ n a.
          Then-map (Grows (length h) n) (Tested h) _ (λ r g. g.keeps h a)
            (search_depth-Grows cs (length h) n)
  | inr k ↦
      Then-elim (λ _. Unit) (Tested h) _ (search_depth cs (length h)) (Then-any _)
        λ n _. search_depth-tests h cs n t (ground (arith, e, k))
]
