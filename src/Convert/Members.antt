-- ===== src/Convert/Members.antt =====
-- addMemberName of convert/main/convert.cc, which extractStructDefs calls, and the rows of member_names.csv.
use lockdoc_tools.Common.SortedMap.{find_key, emplace_key, find-emplace}
use lockdoc_tools.Common.{
  ℕ, ◌+◌, ◌<◌, ◌≡◌, refl, sym, ap, ◌∙◌, Option, none, some, List, [], map, if◌then◌else◌, Text,
  text_eq, eq_of_text_eq, text_eq_refl, arith, Bool-cases, inl, inr, ◌⊎◌, some_inj, subst,
}

-- The map memberNames, and curMemberNameID.
pub record MemberNames : Type 0 where
  pub member_names : List (Text × ℕ)
  pub cur_member_name_id : ℕ

abbrev pub no_names : MemberNames
no_names = record { member_names = []; cur_member_name_id = 1 }

abbrev pub name_or_new : Text → MemberNames → Option ℕ → ℕ × MemberNames
name_or_new t s (some i) = (i, s)
name_or_new t s none = (
  s.cur_member_name_id,
  record {
    member_names = emplace_key t s.cur_member_name_id s.member_names;
    cur_member_name_id = s.cur_member_name_id + 1;
  },
)

unfoldable pub add_member_name : Text → MemberNames → ℕ × MemberNames
unfolding find_key emplace_key
add_member_name t s = name_or_new t s (find_key t s.member_names)

-- The rows of member_names.csv.
abbrev pub name_rows : MemberNames → List (ℕ × Text)
name_rows s = map (λ e. (e.1, e.0)) s.member_names

-- Every name has an id of its own, below the next one.
pub record Numbered (s : MemberNames) : Type 0 where
  pub below : (t : Text) (i : ℕ) → find_key t s.member_names ≡ some i → i < s.cur_member_name_id
  pub apart :
      (t u : Text) (i : ℕ)
      → find_key t s.member_names ≡ some i
      → find_key u s.member_names ≡ some i
      → t ≡ u

-- What a call leaves behind: the name has the id that is returned, and no other name has; every name that had an id keeps it.
pub record Named (t : Text) (s : MemberNames) (r : ℕ × MemberNames) : Type 0 where
  pub numbered : Numbered r.1
  pub found : find_key t r.1.member_names ≡ some r.0
  pub kept :
      (u : Text) (i : ℕ) → find_key u s.member_names ≡ some i → find_key u r.1.member_names ≡ some i

pub no_names-Numbered : Numbered no_names
unfolding find_key
no_names-Numbered = record { below = λ t i e. absurd (cc e); apart = λ t u i e f. absurd (cc e) }

-- After `emplace`, a name is the new one, or has the id that it had.
new_or_old :
    (t u : Text) (i j : ℕ) (m : List (Text × ℕ))
    → find_key t m ≡ none
    → find_key u (emplace_key t i m) ≡ some j
    → ((t ≡ u) × (i ≡ j)) ⊎ (find_key u m ≡ some j)
new_or_old t u i j m h e =
    let f = sym (find-emplace t u i m h) ∙ e in
    elim (Bool-cases (text_eq t u)) [
      | inl p ↦ inl (
        eq_of_text_eq t u p,
        some_inj i j (subst (λ b. (if b then some i else find_key u m) ≡ some j) p f),
      )
      | inr p ↦ inr (subst (λ b. (if b then some i else find_key u m) ≡ some j) p f)
    ]

module _ (t : Text) (s : MemberNames) (n : Numbered s) (h : find_key t s.member_names ≡ none) where
  new_below :
      (u : Text) (j : ℕ)
      → find_key u (emplace_key t s.cur_member_name_id s.member_names) ≡ some j
      → j < s.cur_member_name_id + 1
  new_below u j e = elim (new_or_old t u s.cur_member_name_id j s.member_names h e) [
    | inl (p, q) ↦ omega (arith, q)
    | inr q ↦ let l = n.below u j q in omega (arith, l)
  ]

  new_apart :
      (u v : Text) (j : ℕ)
      → find_key u (emplace_key t s.cur_member_name_id s.member_names) ≡ some j
      → find_key v (emplace_key t s.cur_member_name_id s.member_names) ≡ some j
      → u ≡ v
  new_apart u v j e f =
      both (new_or_old t u s.cur_member_name_id j s.member_names h e)
        (new_or_old t v s.cur_member_name_id j s.member_names h f)
    where
      both :
          ((t ≡ u) × (s.cur_member_name_id ≡ j)) ⊎ (find_key u s.member_names ≡ some j)
          → ((t ≡ v) × (s.cur_member_name_id ≡ j)) ⊎ (find_key v s.member_names ≡ some j)
          → u ≡ v
      both (inl (p, q)) (inl (x, y)) = sym p ∙ x
      both (inl (p, q)) (inr y) = let l = n.below v j y in absurd (omega (arith, q, l))
      both (inr q) (inl (x, y)) = let l = n.below u j q in absurd (omega (arith, y, l))
      both (inr q) (inr y) = n.apart u v j q y

  new_found :
      find_key t (emplace_key t s.cur_member_name_id s.member_names) ≡ some s.cur_member_name_id
  new_found =
      find-emplace t t s.cur_member_name_id s.member_names h
      ∙ ap (λ b. if b then some s.cur_member_name_id else find_key t s.member_names)
          (text_eq_refl t)

  new_kept :
      (u : Text) (i : ℕ)
      → find_key u s.member_names ≡ some i
      → find_key u (emplace_key t s.cur_member_name_id s.member_names) ≡ some i
  new_kept u i e = elim (Bool-cases (text_eq t u)) [
    | inl p ↦ absurd (cc (subst (λ v. find_key v s.member_names ≡ none) (eq_of_text_eq t u p) h, e))
    | inr p ↦
        find-emplace t u s.cur_member_name_id s.member_names h
        ∙ ap (λ b. if b then some s.cur_member_name_id else find_key u s.member_names) p
        ∙ e
  ]

name_or_new-Named :
    (t : Text) (s : MemberNames) (o : Option ℕ)
    → find_key t s.member_names ≡ o
    → Numbered s
    → Named t s (name_or_new t s o)
name_or_new-Named t s (some i) h n = record { numbered = n; found = h; kept = λ u j e. e }
name_or_new-Named t s none h n = record {
  numbered = record { below = new_below t s n h; apart = new_apart t s n h };
  found = new_found t s n h;
  kept = new_kept t s n h;
}

-- addMemberName returns the id of the name, gives a new name an id that no other has, and leaves the others theirs.
pub add_member_name-Named :
    (t : Text) (s : MemberNames) → Numbered s → Named t s (add_member_name t s)
unfolding add_member_name
add_member_name-Named t s n = name_or_new-Named t s (find_key t s.member_names) refl n
