-- ===== src/Hypothesizer/Input/Tally.antt =====
-- What the counts of the input add up to.
use lockdoc_tools.Common.{
  wrap64, lex_lt, ℕ, ◌+◌, ◌<◌, ◌≡◌, refl, ap, true, some, List, [], ◌∷◌, if◌then◌else◌, Text,
  text_eq, eq_of_text_eq, All, arith, Bool-cases, inl, inr, subst, some_inj, lex_lt_trans,
  lex_lt_total,
}
use lockdoc_tools.Hypothesizer.Input.{
  InputMember, add_combination, any_held, count_accesses, parse_name,
}

abbrev pub Combinations : Type 0
Combinations = List (List ℕ × ℕ)

abbrev pub total : Combinations → ℕ
total [] = 0
total ((k, c) ∷ m) = c + total m

-- Of the combinations with a lock.
abbrev pub total_with_locks : Combinations → ℕ
total_with_locks [] = 0
total_with_locks ((k, c) ∷ m) = (if any_held k then c else 0) + total_with_locks m

total-add_combination :
    (held : List ℕ) (n : ℕ) (m : Combinations)
    → wrap64 (total (add_combination held n m)) ≡ wrap64 (total m + n)
unfolding add_combination
total-add_combination held n [] = omega arith
total-add_combination held n ((k, c) ∷ m) = ground (arith, total-add_combination held n m)

same_any_held : (k held : List ℕ) → text_eq k held ≡ true → any_held k ≡ any_held held
same_any_held k held e = ap any_held (eq_of_text_eq k held e)

total_with_locks-add_combination :
    (held : List ℕ) (n : ℕ) (m : Combinations)
    → wrap64 (total_with_locks (add_combination held n m))
      ≡ wrap64 (total_with_locks m + (if any_held held then n else 0))
unfolding add_combination
total_with_locks-add_combination held n [] = ground arith
total_with_locks-add_combination held n ((k, c) ∷ m) =
    ground (arith, same_any_held k held, total_with_locks-add_combination held n m)

abbrev Before : List ℕ → List ℕ × ℕ → Type 0
Before k e = lex_lt k e.0 ≡ true

-- The order of the map: no combination stands in it twice.
abbrev pub Rising : Combinations → Type 0
Rising [] = Unit
Rising (e ∷ m) = All (Before e.0) m × Rising m

Before-add :
    (k held : List ℕ) (n : ℕ) (m : Combinations)
    → lex_lt k held ≡ true
    → All (Before k) m
    → All (Before k) (add_combination held n m)
unfolding add_combination
Before-add k held n [] h b = (h, tt)
Before-add k held n ((j, c) ∷ m) h b = elim (Bool-cases (text_eq j held)) [
  | inl e ↦ rw e b
  | inr e ↦ elim (Bool-cases (lex_lt held j)) [
    | inl f ↦ rw (e, f) (h, b)
    | inr f ↦ rw (e, f) (b.0, Before-add k held n m h b.1)
  ]
]

Before-All :
    (k j : List ℕ) (m : Combinations) → lex_lt k j ≡ true → All (Before j) m → All (Before k) m
Before-All k j [] h b = tt
Before-All k j ((i, c) ∷ m) h b = (lex_lt_trans k j i h b.0, Before-All k j m h b.1)

add_combination-Rising :
    (held : List ℕ) (n : ℕ) (m : Combinations) → Rising m → Rising (add_combination held n m)
unfolding add_combination
add_combination-Rising held n [] r = (tt, tt)
add_combination-Rising held n ((j, c) ∷ m) r = elim (Bool-cases (text_eq j held)) [
  | inl e ↦ rw e r
  | inr e ↦ elim (Bool-cases (lex_lt held j)) [
    | inl f ↦ rw (e, f) ((f, Before-All held j m f r.0), r)
    | inr f ↦
        rw (e, f)
          (Before-add j held n m (lex_lt_total j held e f) r.0, add_combination-Rising held n m r.1)
  ]
]

-- Every lock of a combination is one of the first `l`.
abbrev pub Known : ℕ → List ℕ → Type 0
Known l = All (λ i. i < l)

abbrev pub KnownIn : ℕ → Combinations → Type 0
KnownIn l = All (λ e. Known l e.0)

add_combination-KnownIn :
    (l : ℕ) (held : List ℕ) (n : ℕ) (m : Combinations)
    → Known l held
    → KnownIn l m
    → KnownIn l (add_combination held n m)
unfolding add_combination
add_combination-KnownIn l held n [] h k = (h, tt)
add_combination-KnownIn l held n ((j, c) ∷ m) h k = elim (Bool-cases (text_eq j held)) [
  | inl e ↦ rw e k
  | inr e ↦ elim (Bool-cases (lex_lt held j)) [
    | inl f ↦ rw (e, f) (h, k)
    | inr f ↦ rw (e, f) (k.0, add_combination-KnownIn l held n m h k.1)
  ]
]

-- The counts of a member, for `l` locks: both are the sums over its combinations, in 64 bits.
pub record Tallied (l : ℕ) (m : InputMember) : Type 0 where
  pub all : m.occurrences ≡ wrap64 (total m.combinations)
  pub with_locks : m.occurrences_with_locks ≡ wrap64 (total_with_locks m.combinations)
  pub rising : Rising m.combinations
  pub known : KnownIn l m.combinations

pub count_accesses-Tallied :
    (l : ℕ) (held : List ℕ) (n : ℕ) (m : InputMember)
    → Known l held
    → Tallied l m
    → Tallied l (count_accesses held n m)
unfolding count_accesses
count_accesses-Tallied l held n m h t = record {
  all = omega (arith, t.all, total-add_combination held n m.combinations);
  with_locks = ground (arith, t.with_locks, total_with_locks-add_combination held n m.combinations);
  rising = add_combination-Rising held n m.combinations t.rising;
  known = add_combination-KnownIn l held n m.combinations h t.known;
}

pub parse_name-Tallied :
    (l : ℕ) (datatype key : Text) (m : InputMember) → parse_name datatype key ≡ some m → Tallied l m
unfolding parse_name
parse_name-Tallied l datatype [] m e = cc
parse_name-Tallied l datatype (a ∷ []) m e = cc
parse_name-Tallied l datatype (a ∷ c ∷ t) m e =
    subst (Tallied l) (some_inj _ m e)
      (record { all = refl; with_locks = refl; rising = tt; known = tt })
