-- ===== src/Hypothesizer/Search/Find.antt =====
-- find_hypotheses: its end, and what it records of a hypothesis.
use lockdoc_tools.Common.{
  ℕ, zero, suc, ◌+◌, ◌≤◌, ◌<◌, ◌≡◌, refl, sym, ap, ◌∙◌, false, ◌&&◌, ◌||◌, some, List, [], ◌∷◌,
  ◌++◌, arith, All, ltb, leb, ◌==◌, length, contains, Bool-cases, inl, inr, some_inj, true,
}
use lockdoc_tools.Hypothesizer.Combination.{LockCombination, sort, locks_held_sorted}
use lockdoc_tools.Hypothesizer.Combination.Contains.{
  Sorted, Strict, Includes, Includes-sort, Includes-refl, sort-Sorted, contains_locks_iff,
}
use lockdoc_tools.Hypothesizer.Search.{
  Member, find_hypotheses_rek, search_depth, find_from, all_locks, find_hypotheses,
}
use lockdoc_tools.Hypothesizer.Search.Evaluate.{
  Searched, Continues, any_contains, Continues-elim, Continues-if, evaluate_hypothesis-Searched,
}

-- No lock of the first list is above one of the second.
abbrev Below : List ℕ → List ℕ → Type 0
Below cur ls = All (λ x. All (λ y. x ≤ y) ls) cur

Below-tail : (cur : List ℕ) (l : ℕ) (ls : List ℕ) → Below cur (l ∷ ls) → Below cur ls
Below-tail [] l ls b = tt
Below-tail (x ∷ cur) l ls b = (b.0.1, Below-tail cur l ls b.1)

Below-snoc :
    (cur : List ℕ) (l : ℕ) (ls : List ℕ)
    → Below cur (l ∷ ls)
    → All (λ y. l ≤ y) ls
    → Below (cur ++ (l ∷ [])) ls
Below-snoc [] l ls b s = (s, tt)
Below-snoc (x ∷ cur) l ls b s = (b.0.1, Below-snoc cur l ls b.1 s)

All-lt-snoc :
    (x l : ℕ) (cur : List ℕ) → All (λ y. x < y) cur → x < l → All (λ y. x < y) (cur ++ (l ∷ []))
All-lt-snoc x l [] a h = (h, tt)
All-lt-snoc x l (y ∷ cur) a h = (a.0, All-lt-snoc x l cur a.1 h)

Strict-snoc :
    (cur : List ℕ) (l : ℕ) (ls : List ℕ)
    → Strict cur
    → Below cur (l ∷ ls)
    → contains cur l ≡ false
    → Strict (cur ++ (l ∷ []))
Strict-snoc [] l ls s b c = (tt, tt)
Strict-snoc (x ∷ cur) l ls s b c = (
  All-lt-snoc x l cur s.0 (let le = b.0.0 in ground arith),
  Strict-snoc cur l ls s.1 b.1 (ground arith),
)

Includes-snoc :
    (ms cur : List ℕ) (l : ℕ)
    → Includes ms cur
    → contains ms l ≡ true
    → Includes ms (cur ++ (l ∷ []))
Includes-snoc ms [] l h k = (k, tt)
Includes-snoc ms (x ∷ cur) l h k = (h.0, Includes-snoc ms cur l h.1 k)

-- The combination whose locks are tried is one of those that are counted.
module _ (cs : List LockCombination) (held : List ℕ)
    (from : (h : List ℕ) → Strict h → Includes held h → any_contains h cs ≡ true) where
  find_hypotheses_rek-Searched :
      (ls cur : List ℕ) (d : ℕ) (m : Member)
      → Sorted ls
      → Strict cur
      → Below cur ls
      → Includes held ls
      → Includes held cur
      → Searched cs m
      → Continues cs (find_hypotheses_rek ls cur d m)
  unfolding find_hypotheses_rek
  find_hypotheses_rek-Searched ls cur zero m s t b i j v =
      evaluate_hypothesis-Searched cs cur m t (from cur t j) v
  find_hypotheses_rek-Searched [] cur (suc d) m s t b i j v = (m, refl, v)
  find_hypotheses_rek-Searched (l ∷ ls) cur (suc d) m s t b i j v =
      Continues-elim cs _ (find_hypotheses_rek ls cur (suc d))
        (Continues-if cs (contains cur l) _ _ (λ _. (m, refl, v))
          λ absent.
            find_hypotheses_rek-Searched ls (cur ++ (l ∷ [])) d m s.1
              (Strict-snoc cur l ls t b absent) (Below-snoc cur l ls b s.0) i.1
              (Includes-snoc held cur l j i.0) v)
        λ n q w. find_hypotheses_rek-Searched ls cur (suc d) n s.1 t (Below-tail cur l ls b) i.1 j w

module _ (cs : List LockCombination) where
  search_depth-Searched :
      (ds : List LockCombination) (d : ℕ) (m : Member)
      → ((h : List ℕ) → any_contains h ds ≡ true → any_contains h cs ≡ true)
      → Searched cs m
      → Continues cs (search_depth ds d m)
  unfolding search_depth locks_held_sorted
  search_depth-Searched [] d m among v = (m, refl, v)
  search_depth-Searched (c ∷ ds) d m among v =
      Continues-elim cs _ (search_depth ds d)
        (find_hypotheses_rek-Searched cs c.locks_held
          (λ h t i. among h (let e = (contains_locks_iff c h t).1 i in ground arith))
          (sort c.locks_held) [] d m (sort-Sorted c.locks_held) tt tt
          ((Includes-sort c.locks_held (sort c.locks_held)).0 (Includes-refl (sort c.locks_held)))
          tt v)
        λ n q w. search_depth-Searched ds d n (λ h e. among h (ground arith)) w

-- A search that is deeper than the locks finds nothing.
rek_deep :
    (ls cur : List ℕ) (d : ℕ) (m : Member) → length ls < d → find_hypotheses_rek ls cur d m ≡ some m
unfolding find_hypotheses_rek
rek_deep ls cur zero m h = absurd (omega (arith, h))
rek_deep [] cur (suc d) m h = refl
rek_deep (l ∷ ls) cur (suc d) m h = elim (Bool-cases (contains cur l)) [
  | inl e ↦ rw (e, find_hypotheses_rek) (rek_deep ls cur (suc d) m (omega (arith, h)))
  | inr e ↦
      rw (e, rek_deep ls (cur ++ (l ∷ [])) d m (omega (arith, h)), find_hypotheses_rek)
        (rek_deep ls cur (suc d) m (omega (arith, h)))
]

search_deep :
    (ds : List LockCombination) (d : ℕ) (m : Member)
    → all_locks ds < d
    → search_depth ds d m ≡ some m
unfolding search_depth
search_deep [] d m h = refl
search_deep (c ∷ ds) d m h =
    rw (rek_deep (locks_held_sorted c) [] d m (omega (arith, h)), search_depth)
      (search_deep ds d m (omega (arith, h)))

-- A depth that finds something new is within the locks.
found_new :
    (limit d : ℕ) (m n : Member)
    → search_depth m.combinations d m ≡ some n
    → length m.hypotheses == length n.hypotheses || (ltb 0 limit && leb limit d) ≡ false
    → d ≤ all_locks m.combinations
found_new limit d m n q e = elim (Bool-cases (leb d (all_locks m.combinations))) [
  | inl h ↦ ground arith
  | inr h ↦
      let deep = search_deep m.combinations d m (ground arith) in
      let same : m ≡ n = some_inj m n (sym deep ∙ q) in
      let lengths = ap (λ (x : Member). length x.hypotheses) same in ground arith
]

module _ (cs : List LockCombination) (limit : ℕ) where
  find_from-Searched :
      (k d : ℕ) (m : Member)
      → d ≤ all_locks cs + 1
      → all_locks cs + 1 < d + k
      → Searched cs m
      → Continues cs (find_from k limit d m)
  unfolding find_from
  find_from-Searched zero d m h f v = absurd (omega (arith, h, f))
  find_from-Searched (suc k) d m h f v =
      Continues-elim cs _ _
        (search_depth-Searched cs m.combinations d m (λ h e. rw (← v.unchanged) e) v)
        λ n q w.
          Continues-if cs
            (length m.hypotheses == length n.hypotheses || (ltb 0 limit && leb limit d)) _ _
            (λ _. (n, refl, w))
            λ e.
              (let within = found_new limit d m n q e in
                find_from-Searched k (d + 1) n (omega (arith, within, ap all_locks v.unchanged))
                  (omega (arith, f)) w)

-- For a member of which all that is recorded so far is right (for a start nothing),
-- find_hypotheses returns, with no assertion failed; and then every recorded hypothesis rises
-- strictly, has its locks all held in some combination, counts in 64 bits, as the source does, the
-- accesses with all of its locks held, and has an order of its locks; the counts of its orders add
-- up to its own in 64 bits; and every edge of the graph adds one lock.
pub find_hypotheses-Searched :
    (limit : ℕ) (m : Member)
    → Searched m.combinations m
    → (n : Member) × (find_hypotheses limit m ≡ some n) × Searched m.combinations n
unfolding find_hypotheses
find_hypotheses-Searched limit m v =
    find_from-Searched m.combinations limit (all_locks m.combinations + 2) 0 m (omega arith)
      (omega arith) v
