-- ===== src/Common/SortedSet.antt =====
-- std::set as the list of its elements in their order.
use mathlib.Core.Path.{◌≡◌, ◌∙◌}
use mathlib.Core.Logic.{◌↔◌, ◌⊎◌, inl, inr}
use mathlib.Core.Bool.{Bool, true, false}
use mathlib.Core.List.{List, [], ◌∷◌, ◌++◌}
use Prim.Native.Nat.{ℕ}
use native.Mathlib.Omega.{arith}
use lockdoc_tools.Common.Tests.{ltb, if◌then◌else◌, Bool-cases}
use lockdoc_tools.Common.Lists.{All}

-- What `std::less` of the element type has to satisfy.
pub record IsStrict (A : Type 0) (lt : A → A → Bool) : Type 0 where
  pub lt_trans : (a b c : A) → lt a b ≡ true → lt b c ≡ true → lt a c ≡ true
  pub lt_connected : (a b : A) → lt a b ≡ false → lt b a ≡ false → b ≡ a

abbrev pub Among : {A : Type 0} → A → List A → Type 0
Among a [] = ⊥
Among a (x ∷ xs) = (x ≡ a) ⊎ Among a xs

swap_in :
    {A : Type 0} (a b x : A) (xs : List A) {R : Type 0}
    → R ↔ ((a ≡ b) ⊎ Among b xs)
    → ((x ≡ b) ⊎ R) ↔ ((a ≡ b) ⊎ Among b (x ∷ xs))
swap_in a b x xs r = (
  λ m. elim m [
    | inl p ↦ inr (inl p)
    | inr q ↦ elim (r.0 q) [ inl p ↦ inl p | inr w ↦ inr (inr w) ]
  ],
  λ m. elim m [ inl p ↦ inr (r.1 (inl p)) | inr (inl p) ↦ inl p | inr (inr w) ↦ inr (r.1 (inr w)) ],
)

there :
    {A : Type 0} (a b x : A) (xs : List A) → x ≡ a → (a ≡ b) ⊎ Among b (x ∷ xs) → Among b (x ∷ xs)
there a b x xs e (inl p) = inl (e ∙ p)
there a b x xs e (inr m) = m

cons_in :
    {A : Type 0} (a b : A) (bs s : List A) {R S : Type 0}
    → R ↔ ((a ≡ b) ⊎ Among b s)
    → S ↔ (Among b bs ⊎ R)
    → S ↔ (Among b (a ∷ bs) ⊎ Among b s)
cons_in a b bs s r t = (
  λ m. elim (t.0 m) [
    | inl w ↦ inl (inr w)
    | inr q ↦ elim (r.0 q) [ inl p ↦ inl (inl p) | inr w ↦ inr w ]
  ],
  λ m. elim m [
    | inl (inl p) ↦ t.1 (inr (r.1 (inl p)))
    | inl (inr w) ↦ t.1 (inl w)
    | inr w ↦ t.1 (inr (r.1 (inr w)))
  ],
)

without_rest : {R S : Type 0} → S ↔ (R ⊎ ⊥) → S ↔ R
without_rest t = (λ m. elim (t.0 m) [ inl w ↦ w | inr v ↦ absurd v ], λ w. t.1 (inl w))

module _ {A : Type 0} (lt : A → A → Bool) where
  abbrev pub Rising : List A → Type 0
  Rising [] = Unit
  Rising (x ∷ xs) = All (λ y. lt x y ≡ true) xs × Rising xs

  unfoldable pub insert : A → List A → List A
  insert a [] = a ∷ []
  insert a (x ∷ xs) =
      let rest = insert a xs in if lt a x then a ∷ x ∷ xs else if lt x a then x ∷ rest else x ∷ xs

  unfoldable pub insert_all : List A → List A → List A
  insert_all [] s = s
  insert_all (a ∷ bs) s = insert_all bs (insert a s)

  module _ (o : IsStrict A lt) where
    All-later :
        (a x : A) (xs : List A)
        → lt a x ≡ true
        → All (λ y. lt x y ≡ true) xs
        → All (λ y. lt a y ≡ true) xs
    All-later a x [] h b = tt
    All-later a x (y ∷ xs) h b = (o.lt_trans a x y h b.0, All-later a x xs h b.1)

    All-insert : (P : A → Type 0) (a : A) (xs : List A) → P a → All P xs → All P (insert a xs)
    unfolding insert
    All-insert P a [] p b = (p, tt)
    All-insert P a (x ∷ xs) p b = elim (Bool-cases (lt a x)) [
      | inl e ↦ rw e (p, b)
      | inr e ↦ elim (Bool-cases (lt x a)) [
        | inl f ↦ rw (e, f) (b.0, All-insert P a xs p b.1)
        | inr f ↦ rw (e, f) b
      ]
    ]

    pub insert-Rising : (a : A) (xs : List A) → Rising xs → Rising (insert a xs)
    unfolding insert
    insert-Rising a [] r = (tt, tt)
    insert-Rising a (x ∷ xs) r = elim (Bool-cases (lt a x)) [
      | inl e ↦ rw e ((e, All-later a x xs e r.0), r)
      | inr e ↦ elim (Bool-cases (lt x a)) [
        | inl f ↦ rw (e, f) (All-insert (λ y. lt x y ≡ true) a xs f r.0, insert-Rising a xs r.1)
        | inr f ↦ rw (e, f) r
      ]
    ]

    Among-insert : (b a : A) (xs : List A) → Among b (insert a xs) ↔ ((a ≡ b) ⊎ Among b xs)
    unfolding insert
    Among-insert b a [] = (λ m. m, λ m. m)
    Among-insert b a (x ∷ xs) = elim (Bool-cases (lt a x)) [
      | inl e ↦ rw e (λ m. m, λ m. m)
      | inr e ↦ elim (Bool-cases (lt x a)) [
        | inl f ↦ rw (e, f) (swap_in a b x xs (Among-insert b a xs))
        | inr f ↦ rw (e, f) (λ m. inr m, there a b x xs (o.lt_connected a x e f))
      ]
    ]

    Among-insert_all :
        (b : A) (bs s : List A) → Among b (insert_all bs s) ↔ (Among b bs ⊎ Among b s)
    unfolding insert_all
    Among-insert_all b [] s = (λ m. inr m, λ m. elim m [ inl v ↦ absurd v | inr w ↦ w ])
    Among-insert_all b (a ∷ bs) s =
        cons_in a b bs s (Among-insert b a s) (Among-insert_all b bs (insert a s))

    pub insert_all-Rising : (bs s : List A) → Rising s → Rising (insert_all bs s)
    unfolding insert_all
    insert_all-Rising [] s r = r
    insert_all-Rising (a ∷ bs) s r = insert_all-Rising bs (insert a s) (insert-Rising a s r)

    -- The loop that puts every element into an empty set.
    pub insert_all-sorts :
        (bs : List A)
        → Rising (insert_all bs []) × ((b : A) → Among b (insert_all bs []) ↔ Among b bs)
    insert_all-sorts bs = (insert_all-Rising bs [] tt, λ b. without_rest (Among-insert_all b bs []))

pub Among-append :
    {A : Type 0} (a : A) (xs ys : List A) → Among a (xs ++ ys) ↔ (Among a xs ⊎ Among a ys)
Among-append a [] ys = (λ m. inr m, λ m. elim m [ inl v ↦ absurd v | inr w ↦ w ])
Among-append a (x ∷ xs) ys =
    let rest = Among-append a xs ys in
    (
      λ m. elim m [
        | inl p ↦ inl (inl p)
        | inr w ↦ elim (rest.0 w) [ inl u ↦ inl (inr u) | inr u ↦ inr u ]
      ],
      λ m. elim m [
        | inl (inl p) ↦ inl p
        | inl (inr u) ↦ inr (rest.1 (inl u))
        | inr u ↦ inr (rest.1 (inr u))
      ],
    )

ltb_trans : (a b c : ℕ) → ltb a b ≡ true → ltb b c ≡ true → ltb a c ≡ true
ltb_trans a b c h k = ground arith

ltb_connected : (a b : ℕ) → ltb a b ≡ false → ltb b a ≡ false → b ≡ a
ltb_connected a b h k = ground arith

pub ltb-IsStrict : IsStrict ℕ ltb
ltb-IsStrict = record { lt_trans = ltb_trans; lt_connected = ltb_connected }
