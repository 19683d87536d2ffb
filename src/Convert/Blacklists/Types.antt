-- ===== src/Convert/Blacklists/Types.antt =====
-- type2id: the ids of the subclasses of each data type.
use lockdoc_tools.Common.{
  ℕ, ◌≡◌, refl, sym, ap, ◌∙◌, Bool, Option, none, some, List, [], ◌∷◌, ◌++◌, Text, text_eq,
  get_elem?, Bool-cases, inl, inr, if◌then◌else◌, true, false, append_assoc, append-nil,
  eq_of_text_eq, subst, some_inj,
}
use lockdoc_tools.Convert.Driver.{Subclass}
use lockdoc_tools.Convert.Blacklists.{type2id, push_id, find_ids}

-- The ids of the subclasses of a data type, in their order.
abbrev pub ids_with_type : List Text → Text → List Subclass → List ℕ
ids_with_type types t [] = []
ids_with_type types t (c ∷ cs) = elim (get_elem? types c.data_type_idx) [
  | none ↦ ids_with_type types t cs
  | some u ↦ if text_eq u t then c.id ∷ ids_with_type types t cs else ids_with_type types t cs
]

abbrev pub found_with : Option (List ℕ) → List ℕ → Option (List ℕ)
found_with none [] = none
found_with none (i ∷ is) = some (i ∷ is)
found_with (some is) js = some (is ++ js)

same_key : (k u t : Text) → text_eq k u ≡ true → text_eq k t ≡ text_eq u t
same_key k u t e = ap (λ v. text_eq v t) (eq_of_text_eq k u e)

find_ids-push_id :
    (t u : Text) (i : ℕ) (m : List (Text × List ℕ))
    → find_ids t (push_id u i m)
      ≡ (if text_eq u t then found_with (find_ids t m) (i ∷ []) else find_ids t m)
unfolding find_ids push_id
find_ids-push_id t u i [] = refl
find_ids-push_id t u i ((k, is) ∷ m) = elim (Bool-cases (text_eq k u)) [
  | inl e ↦ elim (Bool-cases (text_eq u t)) [
    | inl p ↦ let q = same_key k u t e ∙ p in rw (e, p, q) refl
    | inr p ↦ let q = same_key k u t e ∙ p in rw (e, p, q) refl
  ]
  | inr e ↦ elim (Bool-cases (text_eq u t)) [
    | inl p ↦
        let q = subst (λ v. text_eq k v ≡ false) (eq_of_text_eq u t p) e in
        let rest = find_ids-push_id t u i m in
        rw (e, p, q)
          (rest ∙ ap (λ b. if b then found_with (find_ids t m) (i ∷ []) else find_ids t m) p)
    | inr p ↦
        let rest = find_ids-push_id t u i m in
        rw (e, p)
          (ap (λ o. if text_eq k t then some is else o)
            (rest ∙ ap (λ b. if b then found_with (find_ids t m) (i ∷ []) else find_ids t m) p))
  ]
]

found_with_one :
    (o : Option (List ℕ)) (i : ℕ) (is : List ℕ)
    → found_with (found_with o (i ∷ [])) is ≡ found_with o (i ∷ is)
found_with_one none i is = refl
found_with_one (some js) i is = ap (λ v. some v) (append_assoc js (i ∷ []) is)

found_with_nil : (o : Option (List ℕ)) → found_with o [] ≡ o
found_with_nil none = refl
found_with_nil (some is) = ap (λ v. some v) (append-nil is)

find_ids-type2id :
    (types : List Text) (t : Text) (cs : List Subclass) (m r : List (Text × List ℕ))
    → type2id types cs m ≡ some r
    → find_ids t r ≡ found_with (find_ids t m) (ids_with_type types t cs)
unfolding type2id
find_ids-type2id types t [] m r e =
    ap (find_ids t) (sym (some_inj m r e)) ∙ sym (found_with_nil (find_ids t m))
find_ids-type2id types t (c ∷ cs) m r e =
    by_type (get_elem? types c.data_type_idx)
      (λ u q. find_ids-type2id types t cs (push_id u c.id m) r q) e
  where
    by_name :
        (u : Text) (b : Bool)
        → text_eq u t ≡ b
        → found_with (find_ids t (push_id u c.id m)) (ids_with_type types t cs)
          ≡ found_with
              (find_ids t m)
              (if b then c.id ∷ ids_with_type types t cs else ids_with_type types t cs)
    by_name u true b =
        ap (λ o. found_with o (ids_with_type types t cs))
          (find_ids-push_id t u c.id m
            ∙ ap (λ v. if v then found_with (find_ids t m) (c.id ∷ []) else find_ids t m) b)
        ∙ found_with_one (find_ids t m) c.id (ids_with_type types t cs)
    by_name u false b =
        ap (λ o. found_with o (ids_with_type types t cs))
          (find_ids-push_id t u c.id m
            ∙ ap (λ v. if v then found_with (find_ids t m) (c.id ∷ []) else find_ids t m) b)

    by_type :
        (o : Option Text)
        → ((u : Text)
            → type2id types cs (push_id u c.id m) ≡ some r
            → find_ids t r ≡ found_with (find_ids t (push_id u c.id m)) (ids_with_type types t cs))
        → elim o [ none ↦ none | some u ↦ type2id types cs (push_id u c.id m) ] ≡ some r
        → find_ids t r
          ≡ found_with (find_ids t m) (elim o [
            | none ↦ ids_with_type types t cs
            | some u ↦
                if text_eq u t then c.id ∷ ids_with_type types t cs else ids_with_type types t cs
          ])
    by_type none rest q = cc
    by_type (some u) rest q = rest u q ∙ by_name u (text_eq u t) refl

-- After its loop, type2id has for the name of a data type the ids of all its subclasses, in the order in which these
-- were observed; a data type without a subclass is not in it.
pub type2id-collects :
    (types : List Text) (cs : List Subclass) (r : List (Text × List ℕ))
    → type2id types cs [] ≡ some r
    → (t : Text) → find_ids t r ≡ found_with none (ids_with_type types t cs)
unfolding find_ids
type2id-collects types cs r e t = find_ids-type2id types t cs [] r e
