-- ===== src/Convert/Events/Stacktraces.antt =====
-- addStacktrace: the ids of stack traces.
use lockdoc_tools.Common.{
  ℕ, ◌+◌, ◌<◌, ◌≡◌, ◌↔◌, ◌⊎◌, refl, sym, ◌∙◌, subst, Bool, true, ◌&&◌, none, some, some_inj, Option,
  List, [], ◌∷◌, arith, ◌==◌, ==_iff, if◌then◌else◌, Text, text_eq, text_eq_refl, eq_of_text_eq,
  Bool-cases, Option-cases, inl, inr,
}
use lockdoc_tools.Convert.Events.{Stacktrace, trimmed, find_stacktrace, add_stacktrace}

-- The table and the next id.
abbrev pub Known : Type 0
Known = List Stacktrace × ℕ

-- A call, by its first instruction and its text.
abbrev pub add_one : ℕ × Text → Known → ℕ × Known
add_one c k = add_stacktrace c.0 c.1 k.0 k.1

-- What a sequence of calls leaves, and the id that a further call returns.
abbrev pub add_all : List (ℕ × Text) → Known → Known
add_all [] k = k
add_all (c ∷ cs) k = add_all cs (add_one c k).1

-- Two calls are about one stack trace.
abbrev pub SameTrace : ℕ × Text → ℕ × Text → Type 0
SameTrace a b = (a.0 ≡ b.0) × (trimmed a.1 ≡ trimmed b.1)

-- The id of a call's trace in the table.
lookup : ℕ × Text → List Stacktrace → Option ℕ
lookup c t = find_stacktrace c.0 (trimmed c.1) t

entry : ℕ × Text → ℕ → Stacktrace
entry c i = record { instr_ptr = c.0; frames = trimmed c.1; id = i }

is_same : ℕ × Text → ℕ × Text → Bool
is_same a b = a.0 == b.0 && text_eq (trimmed a.1) (trimmed b.1)

is_same-SameTrace : (a b : ℕ × Text) → is_same a b ≡ true → SameTrace a b
unfolding is_same
is_same-SameTrace a b e =
    ((==_iff a.0 b.0).0 (ground (arith, e)), eq_of_text_eq _ _ (ground (arith, e)))

lookup-entry :
    (a b : ℕ × Text) (i : ℕ) (t : List Stacktrace)
    → lookup b (entry a i ∷ t) ≡ (if is_same a b then some i else lookup b t)
unfolding lookup entry is_same find_stacktrace
lookup-entry a b i t = refl

SameTrace-lookup : (a b : ℕ × Text) (t : List Stacktrace) → SameTrace a b → lookup a t ≡ lookup b t
unfolding lookup
SameTrace-lookup a b t s = rw (s.0, s.1) refl

-- The ids in the table have been given out, and each to one trace.
record Distinct (k : Known) : Type 0 where
  given : (c : ℕ × Text) (i : ℕ) → lookup c k.0 ≡ some i → i < k.1
  one : (a b : ℕ × Text) (i : ℕ) → lookup a k.0 ≡ some i → lookup b k.0 ≡ some i → SameTrace a b

-- What a call does: the id that it returns is that of its trace from then on, and the ids of the
-- other traces stay.
record Added (c : ℕ × Text) (k n : Known) (i : ℕ) : Type 0 where
  here : lookup c n.0 ≡ some i
  kept : (b : ℕ × Text) (j : ℕ) → lookup b k.0 ≡ some j → lookup b n.0 ≡ some j
  distinct : Distinct n

none-some : (i : ℕ) (o : Option ℕ) → o ≡ none → ¬ (o ≡ some i)
none-some i o e f = let q = sym e ∙ f in cc

self_same : (c : ℕ × Text) → is_same c c ≡ true
unfolding is_same
self_same c = ground (arith, text_eq_refl (trimmed c.1))

module _ (c : ℕ × Text) (k : Known) (v : Distinct k) where
  entered : Known
  entered = (entry c k.1 ∷ k.0, k.1 + 1)

  -- What a lookup in the table with the new entry finds: the new one, or what was there.
  found_entered :
      (b : ℕ × Text) (i : ℕ)
      → lookup b (entry c k.1 ∷ k.0) ≡ some i
      → ((k.1 ≡ i) × SameTrace c b) ⊎ (lookup b k.0 ≡ some i)
  found_entered b i f = elim (Bool-cases (is_same c b)) [
    | inl e ↦ inl (
      some_inj k.1 i (
          subst (λ o. (if o then some k.1 else lookup b k.0) ≡ some i) e
            (sym (lookup-entry c b k.1 k.0) ∙ f)),
      is_same-SameTrace c b e,
    )
    | inr e ↦ inr (
        subst (λ o. (if o then some k.1 else lookup b k.0) ≡ some i) e
          (sym (lookup-entry c b k.1 k.0) ∙ f))
  ]

  SameTrace-meet : (a b : ℕ × Text) → SameTrace c a → SameTrace c b → SameTrace a b
  SameTrace-meet a b s t = (sym s.0 ∙ t.0, sym s.1 ∙ t.1)

  entered-Distinct : Distinct entered
  unfolding entered
  entered-Distinct = record {
    given = λ b i f. elim (found_entered b i f) [
      | inl e ↦ omega (arith, e.0)
      | inr o ↦ let lt = v.given b i o in omega (arith, lt)
    ];
    one = λ a b i f g. elim (found_entered a i f) [
      | inl e ↦ elim (found_entered b i g) [
        | inl h ↦ SameTrace-meet a b e.1 h.1
        | inr o ↦ let lt = v.given b i o in absurd (omega (arith, lt, e.0))
      ]
      | inr o ↦ elim (found_entered b i g) [
        | inl h ↦ let lt = v.given a i o in absurd (omega (arith, lt, h.0))
        | inr q ↦ v.one a b i o q
      ]
    ];
  }

  add_one-Added : (let r = add_one c k in Added c k r.1 r.0)
  unfolding add_stacktrace lookup entry entered
  add_one-Added = elim (Option-cases (lookup c k.0)) [
    | inl e ↦
        rw (e, add_stacktrace)
          (record {
            here = lookup-entry c c k.1 k.0 ∙ rw (self_same c) refl;
            kept = λ b j f. elim (Bool-cases (is_same c b)) [
              | inl s ↦ absurd (
                  none-some j (lookup b k.0)
                    (sym (SameTrace-lookup c b k.0 (is_same-SameTrace c b s)) ∙ e) f)
              | inr s ↦ lookup-entry c b k.1 k.0 ∙ rw s f
            ];
            distinct = entered-Distinct;
          })
    | inr (i, e) ↦ rw (e, add_stacktrace) (record { here = e; kept = λ b j f. f; distinct = v })
  ]

add_all-keeps :
    (cs : List (ℕ × Text)) (k : Known) (b : ℕ × Text) (j : ℕ)
    → Distinct k
    → lookup b k.0 ≡ some j
    → Distinct (add_all cs k) × (lookup b (add_all cs k).0 ≡ some j)
add_all-keeps [] k b j v f = (v, f)
add_all-keeps (c ∷ cs) k b j v f =
    let a = add_one-Added c k v in add_all-keeps cs (add_one c k).1 b j a.distinct (a.kept b j f)

add_all-Distinct : (cs : List (ℕ × Text)) (k : Known) → Distinct k → Distinct (add_all cs k)
add_all-Distinct [] k v = v
add_all-Distinct (c ∷ cs) k v = add_all-Distinct cs (add_one c k).1 (add_one-Added c k v).distinct

start-Distinct : Distinct ([], 1)
unfolding lookup find_stacktrace
start-Distinct = record { given = λ c i f. cc; one = λ a b i f g. cc }

-- From the start of the program, after any calls `before`, a call for the trace `a`, any calls
-- `between`, and a call for the trace `b`: the two calls return one id exactly if the two traces have
-- one first instruction and one text, up to the last byte of a text with a comma.
pub add_stacktrace-again :
    (before between : List (ℕ × Text)) (a b : ℕ × Text)
    → (let first = add_one a (add_all before ([], 1)) in
        let second = add_one b (add_all between first.1) in (first.0 ≡ second.0) ↔ SameTrace a b)
add_stacktrace-again before between a b =
    let k = add_all before ([], 1) in
    let first = add_one-Added a k (add_all-Distinct before ([], 1) start-Distinct) in
    let i = (add_one a k).0 in
    let n = (add_one a k).1 in
    let later = add_all-keeps between n a i first.distinct first.here in
    let second = add_one-Added b (add_all between n) later.0 in
    let j = (add_one b (add_all between n)).0 in
    let r = (add_one b (add_all between n)).1 in
    (
      λ e.
          second.distinct.one a b j (subst (λ x. lookup a r.0 ≡ some x) e (second.kept a i later.1))
            second.here,
      λ s.
          some_inj i j (sym (second.kept a i later.1) ∙ (SameTrace-lookup a b r.0 s ∙ second.here)),
    )
