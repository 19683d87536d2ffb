-- ===== src/Bb2lines/Regular.antt =====
-- Maps of sets of lines as the program makes them: each file stands once, each set in its order.
use lockdoc_tools.Common.{
  ℕ, ◌≤◌, ◌≡◌, refl, true, false, Option, none, some, List, [], ◌∷◌, ltb, ◌==◌, Text, text_eq,
  text_eq_refl, eq_of_text_eq, contains, length, arith, Bool-cases, inl, inr, All, subst,
}
use lockdoc_tools.Common.SortedSet.{Rising, insert, insert-Rising, ltb-IsStrict}
use lockdoc_tools.Bb2lines.Table.{
  FileLines, lookup, alter, or_default, lookup-alter, insert_line, touch_file,
}
use lockdoc_tools.Bb2lines.Notes.{SourceLine, BasicBlock, insert_lines}
use lockdoc_tools.Bb2lines.Modes.{cover_lines, cover_block}

pub All-alter :
    {A : Type 0} (P : A → Type 0) (d : A) (h : A → A) (f : Text) (m : List (Text × A))
    → ((v : A) → P v → P (h v))
    → P d
    → All (λ e. P e.1) m
    → All (λ e. P e.1) (alter d h f m)
unfolding alter
All-alter P d h f [] s p a = (s d p, tt)
All-alter P d h f ((k, v) ∷ m) s p a = elim (Bool-cases (text_eq k f)) [
  | inl e ↦ rw e (s v a.0, a.1)
  | inr e ↦ rw e (a.0, All-alter P d h f m s p a.1)
]

pub All-lookup :
    {A : Type 0} (P : A → Type 0) (d : A) (f : Text) (m : List (Text × A))
    → P d
    → All (λ e. P e.1) m
    → P (or_default d (lookup f m))
unfolding lookup
All-lookup P d f [] p a = p
All-lookup P d f ((k, v) ∷ m) p a = elim (Bool-cases (text_eq k f)) [
  | inl e ↦ rw e a.0
  | inr e ↦ rw e (All-lookup P d f m p a.1)
]

abbrev pub Distinct : FileLines → Type 0
Distinct [] = Unit
Distinct ((f, s) ∷ m) = (lookup f m ≡ none) × Distinct m

pub record Regular (m : FileLines) : Type 0 where
  pub distinct : Distinct m
  pub rising : All (λ e. Rising ltb e.1) m

-- A key other than the one that is changed stays absent.
alter-absent :
    (d : List ℕ) (h : List ℕ → List ℕ) (f k : Text) (m : FileLines)
    → text_eq k f ≡ false
    → lookup k m ≡ none
    → lookup k (alter d h f m) ≡ none
alter-absent d h f k m e a = elim (Bool-cases (text_eq f k)) [
  | inl p ↦
      let q = subst (λ t. text_eq k t ≡ false) (eq_of_text_eq f k p) e in
      absurd (cc (text_eq_refl k, q))
  | inr p ↦ rw (lookup-alter d h f k m, p) a
]

alter-Distinct :
    (d : List ℕ) (h : List ℕ → List ℕ) (f : Text) (m : FileLines)
    → Distinct m
    → Distinct (alter d h f m)
unfolding alter lookup
alter-Distinct d h f [] v = (refl, tt)
alter-Distinct d h f ((k, s) ∷ m) v = elim (Bool-cases (text_eq k f)) [
  | inl e ↦ rw e v
  | inr e ↦ rw e (alter-absent d h f k m e v.0, alter-Distinct d h f m v.1)
]

insert_line-Regular : (f : Text) (n : ℕ) (m : FileLines) → Regular m → Regular (insert_line f n m)
unfolding insert_line
insert_line-Regular f n m v = record {
  distinct = alter-Distinct [] (insert ltb n) f m v.distinct;
  rising =
      All-alter (Rising ltb) [] (insert ltb n) f m (λ s r. insert-Rising ltb ltb-IsStrict n s r) tt
        v.rising;
}

pub touch_file-Regular : (f : Text) (m : FileLines) → Regular m → Regular (touch_file f m)
unfolding touch_file
touch_file-Regular f m v = record {
  distinct = alter-Distinct [] (λ s. s) f m v.distinct;
  rising = All-alter (Rising ltb) [] (λ s. s) f m (λ s r. r) tt v.rising;
}

pub insert_lines-Regular :
    (f : Text) (ns : List ℕ) (m : FileLines) → Regular m → Regular (insert_lines f ns m)
unfolding insert_lines
insert_lines-Regular f [] m v = v
insert_lines-Regular f (n ∷ ns) m v =
    insert_lines-Regular f ns (insert_line f n m) (insert_line-Regular f n m v)

cover_lines-Regular :
    (ls : List SourceLine) (m : FileLines) → Regular m → Regular (cover_lines ls m)
unfolding cover_lines
cover_lines-Regular [] m v = v
cover_lines-Regular (l ∷ ls) m v =
    cover_lines-Regular ls (insert_lines l.filename l.lines m)
      (insert_lines-Regular l.filename l.lines m v)

pub cover_block-Regular :
    (b : Option BasicBlock) (m : FileLines) → Regular m → Regular (cover_block b m)
cover_block-Regular none m v = v
cover_block-Regular (some b) m v = cover_lines-Regular b.source_lines m v

above :
    (x : ℕ) (xs : List ℕ) (k : ℕ)
    → All (λ z. ltb x z ≡ true) xs
    → contains xs k ≡ true
    → ltb x k ≡ true
above x [] k a e = cc
above x (y ∷ xs) k a e = elim (Bool-cases (y == k)) [
  | inl p ↦ let q = a.0 in ground (arith, p, q)
  | inr p ↦ above x xs k a.1 (ground (arith, p, e))
]

drop_head :
    (xs ys : List ℕ) (y : ℕ)
    → ((k : ℕ) → contains xs k ≡ true → ltb y k ≡ true)
    → ((k : ℕ) → contains xs k ≡ true → contains (y ∷ ys) k ≡ true)
    → (k : ℕ) → contains xs k ≡ true
    → contains ys k ≡ true
drop_head xs ys y g f k e = let p = f k e in let q = g k e in ground (arith, p, q)

-- A set within another one is not longer.
pub length-subset :
    (ys xs : List ℕ)
    → Rising ltb ys
    → Rising ltb xs
    → ((k : ℕ) → contains xs k ≡ true → contains ys k ≡ true)
    → length xs ≤ length ys
length-subset ys [] s r f = omega arith
length-subset [] (x ∷ xs) s r f = absurd (cc (f x (ground arith)))
length-subset (y ∷ ys) (x ∷ xs) s r f = elim (Bool-cases (ltb y x)) [
  | inl p ↦
      let g : (k : ℕ) → contains (x ∷ xs) k ≡ true → ltb y k ≡ true = λ k e.
        elim (Bool-cases (x == k)) [
          | inl q ↦ ground (arith, p, q)
          | inr q ↦ let l = above x xs k r.0 (ground (arith, q, e)) in ground (arith, p, l)
        ] in
      let rest = length-subset ys (x ∷ xs) s.1 r (drop_head (x ∷ xs) ys y g f) in
      omega (arith, rest)
  | inr p ↦ elim (Bool-cases (y == x)) [
    | inl q ↦
        let rest = length-subset ys xs s.1 r.1 (
          drop_head xs ys y (λ k e. let l = above x xs k r.0 e in ground (arith, q, l))
            (λ k e. f k (ground (arith, e)))) in
        omega (arith, rest)
    | inr q ↦
        let h : contains (y ∷ ys) x ≡ true = f x (ground arith) in
        let l = above y ys x s.0 (ground (arith, h, q)) in absurd (cc (l, p))
  ]
]
