-- ===== src/Hypothesizer/Input/Names.antt =====
-- Which lock an id of the input stands for.
use lockdoc_tools.Common.{
  ℕ, zero, suc, ◌≤◌, ◌≡◌, refl, ap, sym, subst, ◌∙◌, Bool, true, false, Option, none, some,
  some_inj, List, [], ◌∷◌, ◌++◌, map, append-nil, append_assoc, ltb, if◌then◌else◌, Text, text_eq,
  eq_of_text_eq, length, length-append, get_elem?, get_elem?-lt, arith, Bool-cases, inl, inr,
  next_index,
}
use lockdoc_tools.Common.Try.{Try, ok, err, bind-ok}
use lockdoc_tools.Hypothesizer.Input.{
  ReadError, too_many_locks, index_of, max_id, lock_id, read_locks,
}
use lockdoc_tools.Hypothesizer.Input.Tally.{Known}

module _ {ℓ} {A : Type ℓ} where
  get_elem?-append :
      (xs ys : List A) (i : ℕ) (x : A) → get_elem? xs i ≡ some x → get_elem? (xs ++ ys) i ≡ some x
  get_elem?-append [] ys i x e = cc
  get_elem?-append (y ∷ xs) ys zero x e = e
  get_elem?-append (y ∷ xs) ys (suc i) x e = get_elem?-append xs ys i x e

  get_elem?-last : (xs : List A) (x : A) → get_elem? (xs ++ (x ∷ [])) (length xs) ≡ some x
  get_elem?-last [] x = refl
  get_elem?-last (y ∷ xs) x = get_elem?-last xs x

-- The locks `l` are the first ones of `m`.
abbrev pub Grown : List Text → List Text → Type 0
Grown l m = (more : List Text) × (m ≡ l ++ more)

Grown-trans : (a b c : List Text) → Grown a b → Grown b c → Grown a c
Grown-trans a b c g h = (g.0 ++ h.0, h.1 ∙ (ap (λ l. l ++ h.0) g.1 ∙ append_assoc a g.0 h.0))

Grown-named :
    (l m : List Text) (i : ℕ) (t : Text)
    → Grown l m
    → get_elem? l i ≡ some t
    → get_elem? m i ≡ some t
Grown-named l m i t g e = rw g.1 (get_elem?-append l g.0 i t e)

pub Grown-length : (l m : List Text) → Grown l m → length l ≤ length m
Grown-length l m g = rw g.1 (omega (arith, length-append l g.0))

index_of-named :
    (t : Text) (ls : List Text) (i : ℕ) → index_of t ls ≡ some i → get_elem? ls i ≡ some t
unfolding index_of
index_of-named t [] i e = cc
index_of-named t (x ∷ xs) i e = elim (Bool-cases (text_eq x t)) [
  | inl f ↦
      found i (subst (λ b. (if b then some 0 else next_index (index_of t xs)) ≡ some i) f e)
        (eq_of_text_eq x t f)
  | inr f ↦
      later i (index_of t xs)
        (subst (λ b. (if b then some 0 else next_index (index_of t xs)) ≡ some i) f e)
        (λ j g. index_of-named t xs j g)
]
  where
    found : (j : ℕ) → some 0 ≡ some j → x ≡ t → get_elem? (x ∷ xs) j ≡ some t
    found j h k = subst (λ n. get_elem? (x ∷ xs) n ≡ some t) (some_inj 0 j h) (ap some k)

    later :
        (j : ℕ) (o : Option ℕ)
        → next_index o ≡ some j
        → ((k : ℕ) → o ≡ some k → get_elem? xs k ≡ some t)
        → get_elem? (x ∷ xs) j ≡ some t
    later j none h k = cc
    later j (some n) h k =
        subst (λ m. get_elem? (x ∷ xs) m ≡ some t) (some_inj (suc n) j h) (k n refl)

-- One lock of a line.
record Numbered (t : Text) (ls : List Text) (i : ℕ) (ms : List Text) : Type 0 where
  grown : Grown ls ms
  named : get_elem? ms i ≡ some t
  few : length ls ≤ 65536 → length ms ≤ 65536

lock_id-Numbered :
    (t : Text) (ls : List Text) (i : ℕ) (ms : List Text)
    → lock_id t ls ≡ ok (i, ms)
    → Numbered t ls i ms
unfolding lock_id
lock_id-Numbered t ls i ms e = go (index_of t ls) refl e
  where
    both :
        (a : ℕ) (l : List Text)
        → Numbered t ls a l
        → ◌≡◌ {A = Try ReadError (ℕ × List Text)} (ok (a, l)) (ok (i, ms))
        → Numbered t ls i ms
    both a l n h =
        let p : a ≡ i = cc in
        let q : l ≡ ms = cc in
        subst (λ x. Numbered t ls x ms) p (subst (λ x. Numbered t ls a x) q n)

    fresh :
        (b : Bool)
        → ltb max_id (length ls) ≡ b
        → ◌≡◌ {A = Try ReadError (ℕ × List Text)}
            (if b then err too_many_locks else ok (length ls, ls ++ (t ∷ [])))
            (ok (i, ms))
        → Numbered t ls i ms
    fresh true f h = cc
    fresh false f h =
        both (length ls) (ls ++ (t ∷ []))
          (record {
            grown = (t ∷ [], refl);
            named = get_elem?-last ls t;
            few = λ k. ground (arith, length-append ls (t ∷ []));
          })
          h

    go :
        (o : Option ℕ)
        → index_of t ls ≡ o
        → ◌≡◌ {A = Try ReadError (ℕ × List Text)}
            (elim o [
              | some j ↦ ok (j, ls)
              | none ↦
                  if ltb max_id (length ls)
                  then err too_many_locks
                  else ok (length ls, ls ++ (t ∷ []))
            ])
            (ok (i, ms))
        → Numbered t ls i ms
    go (some j) f h =
        both j ls
          (record {
            grown = ([], sym (append-nil ls));
            named = index_of-named t ls j f;
            few = λ k. k;
          })
          h
    go none f h = fresh (ltb max_id (length ls)) refl h

-- The elements that name a lock.
abbrev pub named_locks : List Text → List Text
named_locks [] = []
named_locks ([] ∷ ts) = named_locks ts
named_locks ((c ∷ t) ∷ ts) = (c ∷ t) ∷ named_locks ts

-- The ids stand for the elements of the column that are not empty, in their order; the locks that had an id before keep it.
pub record Decodes (ts ls : List Text) (ids : List ℕ) (ms : List Text) : Type 0 where
  pub grown : Grown ls ms
  pub names : map (get_elem? ms) ids ≡ map some (named_locks ts)
  pub known : Known (length ms) ids
  pub few : length ls ≤ 65536 → length ms ≤ 65536

Decodes-cons :
    (c : ℕ) (t : Text) (ts ls ks ms : List Text) (i : ℕ) (ids : List ℕ)
    → Numbered (c ∷ t) ls i ks
    → Decodes ts ks ids ms
    → Decodes ((c ∷ t) ∷ ts) ls (i ∷ ids) ms
Decodes-cons c t ts ls ks ms i ids n d =
    let named = Grown-named ks ms i (c ∷ t) d.grown n.named in
    record {
      grown = Grown-trans ls ks ms n.grown d.grown;
      names = rw (named, d.names) refl;
      known = (get_elem?-lt ms i (c ∷ t) named, d.known);
      few = λ h. d.few (n.few h);
    }

-- What the loop over the third column returns are the ids of the locks that it names, in their order: the names under these ids are the elements that are not empty. Every lock keeps the id
-- that it had, and there are 2^16 locks at most if there were before.
pub read_locks-Decodes :
    (ts ls : List Text) (ids : List ℕ) (ms : List Text)
    → read_locks ts ls ≡ ok (ids, ms)
    → Decodes ts ls ids ms
unfolding read_locks
read_locks-Decodes [] ls ids ms e =
    let p : [] ≡ ids = cc in
    let q : ls ≡ ms = cc in
    subst (λ x. Decodes [] ls x ms) p
      (subst (λ x. Decodes [] ls [] x) q
        (record { grown = ([], sym (append-nil ls)); names = refl; known = tt; few = λ h. h }))
read_locks-Decodes ([] ∷ ts) ls ids ms e =
    let d = read_locks-Decodes ts ls ids ms e in
    record { grown = d.grown; names = d.names; known = d.known; few = d.few }
read_locks-Decodes ((c ∷ t) ∷ ts) ls ids ms e =
    let a = bind-ok (lock_id (c ∷ t) ls) _ (ids, ms) e in
    let b = bind-ok (read_locks ts a.0.1) _ (ids, ms) a.1.1 in
    let n = lock_id-Numbered (c ∷ t) ls a.0.0 a.0.1 a.1.0 in
    let d = read_locks-Decodes ts a.0.1 b.0.0 b.0.1 b.1.0 in
    let p : a.0.0 ∷ b.0.0 ≡ ids = cc in
    let q : b.0.1 ≡ ms = cc in
    subst (λ x. Decodes ((c ∷ t) ∷ ts) ls x ms) p
      (subst (λ x. Decodes ((c ∷ t) ∷ ts) ls (a.0.0 ∷ b.0.0) x) q
        (Decodes-cons c t ts ls a.0.1 b.0.1 a.0.0 b.0.0 n d))
