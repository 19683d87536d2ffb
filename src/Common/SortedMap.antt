-- ===== src/Common/SortedMap.antt =====
-- std::map from texts, or from other vectors of numbers, as the list of its pairs in the order of the keys.
use mathlib.Core.Path.{◌≡◌, refl, subst, ap, ◌∙◌}
use mathlib.Core.Logic.{inl, inr}
use mathlib.Core.Bool.{Bool, true, false}
use mathlib.Core.Option.{Option, none, some}
use mathlib.Core.List.{List, [], ◌∷◌}
use lockdoc_tools.Common.Tests.{if◌then◌else◌, Bool-cases, Option-cases, some_inj}
use lockdoc_tools.Common.Lists.{All, Text, text_eq, eq_of_text_eq, lex_lt}

module _ {A : Type 0} where
  unfoldable pub find_key : Text → List (Text × A) → Option A
  find_key t [] = none
  find_key t ((k, i) ∷ m) = let rest = find_key t m in if text_eq k t then some i else rest

  -- std::map::emplace
  unfoldable pub emplace_key : Text → A → List (Text × A) → List (Text × A)
  emplace_key t i [] = (t, i) ∷ []
  emplace_key t i ((k, j) ∷ m) =
      let rest = emplace_key t i m in
      if text_eq k t then (k, j) ∷ m else if lex_lt t k then (t, i) ∷ (k, j) ∷ m else (k, j) ∷ rest

  other_first :
      (k t u : Text)
      → text_eq k t ≡ false
      → (x y r : Option A)
      → (if text_eq k u then x else if text_eq t u then y else r)
        ≡ (if text_eq t u then y else if text_eq k u then x else r)
  other_first k t u e x y r = elim (Bool-cases (text_eq t u)) [
    | inl p ↦ let q = subst (λ v. text_eq k v ≡ false) (eq_of_text_eq t u p) e in rw (p, q) refl
    | inr p ↦ rw p refl
  ]

  not_first :
      (t k : Text) (j : A) (m : List (Text × A))
      → find_key t ((k, j) ∷ m) ≡ none
      → text_eq k t ≡ false
      → find_key t m ≡ none
  unfolding find_key
  not_first t k j m h e = subst (λ b. (if b then some j else find_key t m) ≡ none) e h

  pub find-emplace :
      (t u : Text) (i : A) (m : List (Text × A))
      → find_key t m ≡ none
      → find_key u (emplace_key t i m) ≡ (if text_eq t u then some i else find_key u m)
  unfolding find_key emplace_key
  find-emplace t u i [] h = refl
  find-emplace t u i ((k, j) ∷ m) h = elim (Bool-cases (text_eq k t)) [
    | inl e ↦ absurd (cc (subst (λ b. (if b then some j else find_key t m) ≡ none) e h))
    | inr e ↦ elim (Bool-cases (lex_lt t k)) [
      | inl f ↦ rw (e, f) refl
      | inr f ↦
          rw (e, f)
            (ap (λ r. if text_eq k u then some j else r)
                (find-emplace t u i m (not_first t k j m h e))
              ∙ other_first k t u e (some j) (some i) (find_key u m))
    ]
  ]

  abbrev pub or_else : A → Option A → A
  or_else d none = d
  or_else d (some v) = v

  unfoldable pub change_key : (A → A) → Text → List (Text × A) → List (Text × A)
  change_key h t [] = []
  change_key h t ((k, v) ∷ m) =
      let rest = change_key h t m in if text_eq k t then (k, h v) ∷ m else (k, v) ∷ rest

  -- A change of the value that operator[] gives, which is `d` for a new key.
  unfoldable pub alter_key : A → (A → A) → Text → List (Text × A) → List (Text × A)
  unfolding find_key emplace_key change_key
  alter_key d h t m = elim (find_key t m) [
    | none ↦ emplace_key t (h d) m
    | some v ↦ change_key h t m
  ]

  find-change :
      (h : A → A) (t u : Text) (v : A) (m : List (Text × A))
      → find_key t m ≡ some v
      → find_key u (change_key h t m) ≡ (if text_eq t u then some (h v) else find_key u m)
  unfolding find_key change_key
  find-change h t u v [] e = cc
  find-change h t u v ((k, w) ∷ m) e = by_key (text_eq k t) refl e (find-change h t u v m)
    where
      by_key :
          (b : Bool)
          → text_eq k t ≡ b
          → (if b then some w else find_key t m) ≡ some v
          → (find_key t m ≡ some v
              → find_key u (change_key h t m) ≡ (if text_eq t u then some (h v) else find_key u m))
          → find_key u (if b then (k, h w) ∷ m else (k, w) ∷ change_key h t m)
            ≡ (if text_eq t u then some (h v) else (if text_eq k u then some w else find_key u m))
      by_key true p q rest =
          let same = ap (λ x. text_eq x u) (eq_of_text_eq k t p) in
          elim (Bool-cases (text_eq t u)) [
            | inl c ↦ let f = same ∙ c in rw (c, f) (ap (λ x. some (h x)) (some_inj w v q))
            | inr c ↦ let f = same ∙ c in rw (c, f) refl
          ]
      by_key false p q rest =
          ap (λ r. if text_eq k u then some w else r) (rest q)
          ∙ other_first k t u p (some w) (some (h v)) (find_key u m)

  pub find-alter :
      (d : A) (h : A → A) (t u : Text) (m : List (Text × A))
      → find_key u (alter_key d h t m)
        ≡ (if text_eq t u then some (h (or_else d (find_key t m))) else find_key u m)
  unfolding alter_key
  find-alter d h t u m = elim (Option-cases (find_key t m)) [
    | inl e ↦ rw (e, alter_key) (find-emplace t u (h d) m e)
    | inr (v, e) ↦ rw (e, alter_key) (find-change h t u v m e)
  ]

  -- A predicate that new values have and that the change keeps.
  All-emplace :
      (P : A → Type 0) (t : Text) (v : A) (m : List (Text × A))
      → P v
      → All (λ e. P e.1) m
      → All (λ e. P e.1) (emplace_key t v m)
  unfolding emplace_key
  All-emplace P t v [] p a = (p, tt)
  All-emplace P t v ((k, w) ∷ m) p a = elim (Bool-cases (text_eq k t)) [
    | inl e ↦ rw e a
    | inr e ↦ elim (Bool-cases (lex_lt t k)) [
      | inl f ↦ rw (e, f) (p, a)
      | inr f ↦ rw (e, f) (a.0, All-emplace P t v m p a.1)
    ]
  ]

  All-change :
      (P : A → Type 0) (h : A → A) (t : Text) (m : List (Text × A))
      → ((v : A) → P v → P (h v))
      → All (λ e. P e.1) m
      → All (λ e. P e.1) (change_key h t m)
  unfolding change_key
  All-change P h t [] p a = tt
  All-change P h t ((k, w) ∷ m) p a = elim (Bool-cases (text_eq k t)) [
    | inl e ↦ rw e (p w a.0, a.1)
    | inr e ↦ rw e (a.0, All-change P h t m p a.1)
  ]

  pub All-alter :
      (P : A → Type 0) (d : A) (h : A → A) (t : Text) (m : List (Text × A))
      → P (h d)
      → ((v : A) → P v → P (h v))
      → All (λ e. P e.1) m
      → All (λ e. P e.1) (alter_key d h t m)
  unfolding alter_key
  All-alter P d h t m q p a = elim (Option-cases (find_key t m)) [
    | inl e ↦ rw (e, alter_key) (All-emplace P t (h d) m q a)
    | inr (v, e) ↦ rw (e, alter_key) (All-change P h t m p a)
  ]
