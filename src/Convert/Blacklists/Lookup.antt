-- ===== src/Convert/Blacklists/Lookup.antt =====
-- What the names in a blacklist stand for.
use lockdoc_tools.Common.{
  ℕ, zero, suc, ◌<◌, ◌≡◌, refl, Bool, ◌||◌, Option, none, some, List, [], ◌∷◌, map, arith, Text,
  text_eq, length, get_elem?, Option-cases, Bool-cases, inl, inr, if◌then◌else◌, true, false, All,
  All-append, contains, subst, some_inj, ◌==◌,
}
use lockdoc_tools.Convert.Driver.{Subclass}
use lockdoc_tools.Convert.Allocs.{names_of}
use lockdoc_tools.Common.SortedMap.{find_key}
use lockdoc_tools.Convert.Blacklists.Catalog.{CountsFrom}
use lockdoc_tools.Convert.Blacklists.{
  SubclassRow, Observed, subclass_rows, type2id, push_id, find_ids, subclass2id, last_of, is_null,
  ids_of_name, blacklist_ids, member_id,
}

abbrev pub subclass_ids : List Subclass → List ℕ
subclass_ids = map (λ c. c.id)

abbrev pub row_ids : List SubclassRow → List ℕ
row_ids = map (λ r. r.id)

-- subclasses.csv numbers the subclasses as their ids do.
pub subclass_rows-ids :
    (types : List Text) (l n : ℕ) (cs : List Subclass)
    → CountsFrom l n cs
    → row_ids (subclass_rows types n cs) ≡ subclass_ids cs
unfolding subclass_rows
subclass_rows-ids types l n [] h = refl
subclass_rows-ids types l n (c ∷ cs) h =
    let rest = subclass_rows-ids types l (suc n) cs h.1.1 in rw (h.0, rest) refl

-- "\N", or one of the ids
abbrev pub Refers : List ℕ → Option ℕ → Type 0
Refers ids none = Unit
Refers ids (some i) = contains ids i ≡ true

-- Every id of the map is one of the ids.
abbrev pub HasIds : List ℕ → List (Text × List ℕ) → Type 0
HasIds ids = All (λ e. All (λ i. contains ids i ≡ true) e.1)

push_id-HasIds :
    (ids : List ℕ) (t : Text) (i : ℕ) (m : List (Text × List ℕ))
    → contains ids i ≡ true
    → HasIds ids m
    → HasIds ids (push_id t i m)
unfolding push_id
push_id-HasIds ids t i [] c h = ((c, tt), tt)
push_id-HasIds ids t i ((k, is) ∷ m) c h = elim (Bool-cases (text_eq k t)) [
  | inl e ↦ rw e (All-append (λ j. contains ids j ≡ true) is (i ∷ []) h.0 (c, tt), h.1)
  | inr e ↦ rw e (h.0, push_id-HasIds ids t i m c h.1)
]

get_elem?-some :
    {A : Type 0} (xs : List A) (i : ℕ) → i < length xs → (x : A) × (get_elem? xs i ≡ some x)
get_elem?-some [] i l = absurd (omega (arith, l))
get_elem?-some (x ∷ xs) zero l = (x, refl)
get_elem?-some (x ∷ xs) (suc i) l = get_elem?-some xs i (omega (arith, l))

-- The loop over the subclasses does not read past the end of `types`, and collects ids of subclasses only.
pub type2id-HasIds :
    (types : List Text) (ids : List ℕ) (n : ℕ) (cs : List Subclass) (m : List (Text × List ℕ))
    → CountsFrom (length types) n cs
    → All (λ c. contains ids c.id ≡ true) cs
    → HasIds ids m
    → (r : List (Text × List ℕ)) × ((type2id types cs m ≡ some r) × HasIds ids r)
unfolding type2id
type2id-HasIds types ids n [] m h c v = (m, (refl, v))
type2id-HasIds types ids n (d ∷ cs) m h c v =
    let (t, e) = get_elem?-some types d.data_type_idx h.1.0 in
    let (r, (q, w)) =
      type2id-HasIds types ids (suc n) cs (push_id t d.id m) h.1.1 c.1
        (push_id-HasIds ids t d.id m c.0 v) in
    (r, (rw (e, type2id) q, w))

pub subclass_ids-All :
    (ids : List ℕ) (cs : List Subclass)
    → ((i : ℕ) → contains (subclass_ids cs) i ≡ true → contains ids i ≡ true)
    → All (λ c. contains ids c.id ≡ true) cs
subclass_ids-All ids [] f = tt
subclass_ids-All ids (c ∷ cs) f =
    (f c.id (ground arith), subclass_ids-All ids cs (λ i h. f i (ground (arith, h))))

find_ids-HasIds :
    (ids : List ℕ) (t : Text) (m : List (Text × List ℕ)) (is : List ℕ)
    → HasIds ids m
    → find_ids t m ≡ some is
    → All (λ i. contains ids i ≡ true) is
unfolding find_ids
find_ids-HasIds ids t [] is h e = cc
find_ids-HasIds ids t ((k, js) ∷ m) is h e = elim (Bool-cases (text_eq k t)) [
  | inl b ↦
      subst (All (λ i. contains ids i ≡ true))
        (some_inj js is (subst (λ c. (if c then some js else find_ids t m) ≡ some is) b e)) h.0
  | inr b ↦
      find_ids-HasIds ids t m is h.1
        (subst (λ c. (if c then some js else find_ids t m) ≡ some is) b e)
]

subclass2id-contains :
    (n : Text) (cs : List Subclass) (i : ℕ)
    → subclass2id n cs ≡ some i
    → contains (subclass_ids cs) i ≡ true
unfolding subclass2id
subclass2id-contains n [] i e = cc
subclass2id-contains n (c ∷ cs) i e =
    last (subclass2id n cs) (text_eq c.name n) (subclass2id-contains n cs) e
  where
    last :
        (o : Option ℕ) (b : Bool)
        → ((j : ℕ) → o ≡ some j → contains (subclass_ids cs) j ≡ true)
        → last_of o (if b then some c.id else none) ≡ some i
        → contains (subclass_ids (c ∷ cs)) i ≡ true
    last (some j) b h q = let p = h i q in ground (arith, p)
    last none true h q = let p = some_inj c.id i q in ground (arith, p)
    last none false h q = cc

pub find_key-contains :
    (t : Text) (names : List (Text × ℕ)) (i : ℕ)
    → find_key t names ≡ some i
    → contains (map (λ e. e.1) names) i ≡ true
unfolding find_key
find_key-contains t [] i e = cc
find_key-contains t ((k, j) ∷ names) i e = first (text_eq k t) (find_key-contains t names i) e
  where
    first :
        (b : Bool)
        → (find_key t names ≡ some i → contains (map (λ e. e.1) names) i ≡ true)
        → (if b then some j else find_key t names) ≡ some i
        → (j == i || contains (map (λ e. e.1) names) i) ≡ true
    first true h q = let p = some_inj j i q in ground (arith, p)
    first false h q = let p = h q in ground (arith, p)

-- What the loop over the subclasses has prepared.
pub record Prepared (o : Observed) : Type 0 where
  pub type_ids : HasIds (subclass_ids o.subclasses) o.type_ids

abbrev pub AllRefer : List ℕ → Option (List (Option ℕ)) → Type 0
AllRefer ids none = Unit
AllRefer ids (some cs) = All (Refers ids) cs

Refers-map :
    (ids is : List ℕ)
    → All (λ i. contains ids i ≡ true) is
    → All (Refers ids) (map (λ i. some i) is)
Refers-map ids [] h = tt
Refers-map ids (i ∷ is) h = (h.0, Refers-map ids is h.1)

ids_of_name-contains :
    (o : Observed) (n : Text × (Text × Bool)) (is : List ℕ)
    → Prepared o
    → ids_of_name o n ≡ some is
    → All (λ i. contains (subclass_ids o.subclasses) i ≡ true) is
ids_of_name-contains o (t, (n, false)) is p e = find_ids-HasIds _ t o.type_ids is p.type_ids e
ids_of_name-contains o (t, (n, true)) is p e =
    one (subclass2id n o.subclasses) (subclass2id-contains n o.subclasses) e
  where
    one :
        (r : Option ℕ)
        → ((j : ℕ) → r ≡ some j → contains (subclass_ids o.subclasses) j ≡ true)
        → elim r [ none ↦ none | some i ↦ some (i ∷ []) ] ≡ some is
        → All (λ i. contains (subclass_ids o.subclasses) i ≡ true) is
    one none h q = cc
    one (some j) h q =
        subst (All (λ i. contains (subclass_ids o.subclasses) i ≡ true)) (some_inj (j ∷ []) is q)
          (h j refl, tt)

pub blacklist_ids-AllRefer :
    (o : Observed) (t : Text)
    → Prepared o
    → AllRefer (subclass_ids o.subclasses) (blacklist_ids o t)
unfolding blacklist_ids
blacklist_ids-AllRefer o t p = elim (Bool-cases (is_null t)) [
  | inl e ↦ rw e (tt, tt)
  | inr e ↦ elim (Option-cases (ids_of_name o (names_of t))) [
    | inl f ↦ rw (e, f) tt
    | inr (is, f) ↦ rw (e, f) (Refers-map _ is (ids_of_name-contains o (names_of t) is p f))
  ]
]

abbrev pub OneRefers : List ℕ → Option (Option ℕ) → Type 0
OneRefers ids none = Unit
OneRefers ids (some m) = Refers ids m

abbrev pub name_ids : List (Text × ℕ) → List ℕ
name_ids = map (λ e. e.1)

pub member_id-OneRefers : (o : Observed) (t : Text) → OneRefers (name_ids o.names) (member_id o t)
unfolding member_id
member_id-OneRefers o t = elim (Bool-cases (is_null t)) [
  | inl e ↦ rw e tt
  | inr e ↦ elim (Option-cases (find_key t o.names)) [
    | inl f ↦ rw (e, f) tt
    | inr (i, f) ↦ rw (e, f) (find_key-contains t o.names i f)
  ]
]
