-- ===== src/Bb2lines/Table.antt =====
-- The unordered maps by file name. Their order is that of insertion here, and nothing depends on it
-- but the order of what is printed.
use lockdoc_tools.Common.{
  ℕ, ◌≡◌, refl, ap, ◌∙◌, Bool, false, ◌&&◌, ◌||◌, Option, none, some, List, [], ◌∷◌, if◌then◌else◌,
  ltb, ◌==◌, Text, text_eq, eq_of_text_eq, contains, arith, Bool-cases, inl, inr, subst,
}
use lockdoc_tools.Common.SortedSet.{insert}

module _ {A : Type 0} where
  -- std::unordered_map::find
  unfoldable pub lookup : Text → List (Text × A) → Option A
  lookup f [] = none
  lookup f ((k, v) ∷ m) = let rest = lookup f m in if text_eq k f then some v else rest

  -- A change of the value that operator[] gives, which is `d` for a new key.
  unfoldable pub alter : A → (A → A) → Text → List (Text × A) → List (Text × A)
  alter d h f [] = (f, h d) ∷ []
  alter d h f ((k, v) ∷ m) =
      let rest = alter d h f m in if text_eq k f then (k, h v) ∷ m else (k, v) ∷ rest

  abbrev pub or_default : A → Option A → A
  or_default d none = d
  or_default d (some v) = v

  pub lookup-alter :
      (d : A) (h : A → A) (f g : Text) (m : List (Text × A))
      → lookup g (alter d h f m)
        ≡ (if text_eq f g then some (h (or_default d (lookup f m))) else lookup g m)
  unfolding lookup alter
  lookup-alter d h f g [] = refl
  lookup-alter d h f g ((k, v) ∷ m) = elim (Bool-cases (text_eq k f)) [
    | inl e ↦
        let q = ap (λ t. text_eq t g) (eq_of_text_eq k f e) in
        elim (Bool-cases (text_eq f g)) [
          | inl p ↦ let r = q ∙ p in rw (e, p, r) refl
          | inr p ↦ let r = q ∙ p in rw (e, p, r) refl
        ]
    | inr e ↦
        let rest = lookup-alter d h f g m in
        elim (Bool-cases (text_eq f g)) [
          | inl p ↦
              let r = subst (λ t. text_eq k t ≡ false) (eq_of_text_eq f g p) e in
              rw (e, p, r)
                (rest ∙ ap (λ b. if b then some (h (or_default d (lookup f m))) else lookup g m) p)
          | inr p ↦
              rw (e, p)
                (ap (λ o. if text_eq k g then some v else o)
                  (rest
                    ∙ ap (λ b. if b then some (h (or_default d (lookup f m))) else lookup g m) p))
        ]
  ]

-- Sets of lines by file: covered_lines and coverable_lines.
abbrev pub FileLines : Type 0
FileLines = List (Text × List ℕ)

-- map[file].insert(line)
unfoldable pub insert_line : Text → ℕ → FileLines → FileLines
unfolding alter
insert_line f n m = alter [] (insert ltb n) f m

-- map[file] = {} for a file that is not there yet
unfoldable pub touch_file : Text → FileLines → FileLines
unfolding alter
touch_file f m = alter [] (λ s. s) f m

unfoldable pub has_line : Text → ℕ → FileLines → Bool
unfolding lookup
has_line f n m = contains (or_default [] (lookup f m)) n

pub contains-insert :
    (a b : ℕ) (xs : List ℕ) → contains (insert ltb a xs) b ≡ (a == b || contains xs b)
unfolding insert
contains-insert a b [] = refl
contains-insert a b (x ∷ xs) = ground (arith, contains-insert a b xs)

pub has_line-insert_line :
    (f g : Text) (n k : ℕ) (m : FileLines)
    → has_line g k (insert_line f n m) ≡ ((text_eq f g && n == k) || has_line g k m)
unfolding has_line insert_line
has_line-insert_line f g n k m = elim (Bool-cases (text_eq f g)) [
  | inl e ↦
      let q = eq_of_text_eq f g e in
      rw (lookup-alter [] (insert ltb n) f g m, e)
        (contains-insert n k (or_default [] (lookup f m))
          ∙ ap (λ t. n == k || contains (or_default [] (lookup t m)) k) q)
  | inr e ↦ rw (lookup-alter [] (insert ltb n) f g m, e) refl
]

pub has_line-touch_file :
    (f g : Text) (k : ℕ) (m : FileLines) → has_line g k (touch_file f m) ≡ has_line g k m
unfolding has_line touch_file
has_line-touch_file f g k m = elim (Bool-cases (text_eq f g)) [
  | inl e ↦
      rw (lookup-alter [] (λ s. s) f g m, e)
        (ap (λ t. contains (or_default [] (lookup t m)) k) (eq_of_text_eq f g e))
  | inr e ↦ rw (lookup-alter [] (λ s. s) f g m, e) refl
]
