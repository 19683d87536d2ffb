-- ===== src/Hypothesizer/Graph/Diff.antt =====
-- diff_hypotheses: when one hypothesis stands in another without a gap.
use lockdoc_tools.Common.{
  ℕ, zero, suc, ◌+◌, ◌-◌, ◌≤◌, ◌<◌, ◌≡◌, refl, sym, ap, Bool, true, false, Option, none, some, List,
  [], ◌∷◌, ◌++◌, arith, drop, ltb, ◌==◌, ==_iff, if◌then◌else◌, length, length-append, ℤ, pos,
  negsuc, Bool-cases, inl, inr, subst,
}
use lockdoc_tools.Hypothesizer.Graph.{found_at, try_places, diff_hypotheses}

-- The locks of the first stand in the second one after the other.
abbrev pub StandsIn : List ℕ → List ℕ → Type 0
StandsIn lhs rhs = (before : List ℕ) × (after : List ℕ) × (rhs ≡ before ++ (lhs ++ after))

found_at_le : (ls rs : List ℕ) → found_at ls rs ≤ length ls
found_at_le [] rs = omega arith
found_at_le (l ∷ ls) [] = omega arith
found_at_le (l ∷ ls) (r ∷ rs) = ground (arith, found_at_le ls rs)

found_at_self : (ls rs : List ℕ) → found_at ls (ls ++ rs) ≡ length ls
found_at_self [] rs = refl
found_at_self (l ∷ ls) rs = ground (arith, found_at_self ls rs)

cons_eq : (a b : ℕ) (as' bs : List ℕ) → a ≡ b → as' ≡ bs → a ∷ as' ≡ b ∷ bs
cons_eq a b as' bs e f = rw (e, f) refl

prefix_of_found :
    (ls rs : List ℕ) → found_at ls rs ≡ length ls → (after : List ℕ) × (rs ≡ ls ++ after)
prefix_of_found [] rs h = (rs, refl)
prefix_of_found (l ∷ ls) [] h = absurd (omega (arith, h))
prefix_of_found (l ∷ ls) (r ∷ rs) h =
    let le = found_at_le ls rs in
    let same : l ≡ r = ground arith in
    let (after, e) = prefix_of_found ls rs (ground arith) in
    (after, cons_eq r l rs (ls ++ after) (sym same) e)

start : (lhs rhs : List ℕ) → (after : List ℕ) × (rhs ≡ lhs ++ after) → StandsIn lhs rhs
start lhs rhs (after, e) = ([], after, e)

prepend : (lhs rhs : List ℕ) → StandsIn lhs (drop 1 rhs) → StandsIn lhs rhs
prepend lhs [] w = w
prepend lhs (r ∷ rs) (before, after, e) = (r ∷ before, after, ap (λ (l : List ℕ). r ∷ l) e)

try_places_sound : (k : ℕ) (lhs rhs : List ℕ) → try_places k lhs rhs ≡ true → StandsIn lhs rhs
try_places_sound zero lhs rhs h = start lhs rhs (prefix_of_found lhs rhs ((==_iff _ _).0 h))
try_places_sound (suc k) lhs rhs h = elim (Bool-cases (found_at lhs rhs == length lhs)) [
  | inl e ↦ start lhs rhs (prefix_of_found lhs rhs ((==_iff _ _).0 e))
  | inr e ↦ prepend lhs rhs (try_places_sound k lhs (drop 1 rhs) (ground arith))
]

try_places_complete :
    (k : ℕ) (before lhs after : List ℕ)
    → length before ≤ k
    → try_places k lhs (before ++ (lhs ++ after)) ≡ true
try_places_complete zero [] lhs after h = (==_iff _ _).1 (found_at_self lhs after)
try_places_complete (suc k) [] lhs after h = ground (arith, found_at_self lhs after)
try_places_complete zero (b ∷ before) lhs after h = ground arith
try_places_complete (suc k) (b ∷ before) lhs after h =
    ground (arith, try_places_complete k before lhs after)

StandsIn-length : (lhs rhs : List ℕ) (w : StandsIn lhs rhs) → length w.0 + length lhs ≤ length rhs
StandsIn-length lhs rhs (before, after, e) =
    omega (arith, ap length e, length-append before (lhs ++ after), length-append lhs after)

-- The three outcomes, by the lengths and by whether the first hypothesis stands in the second.
pub data DiffOutcome (lhs rhs : List ℕ) : Option ℤ → Type 0 where
  asserts : length rhs < length lhs → DiffOutcome lhs rhs none
  stands :
      (d : ℕ) → length rhs ≡ length lhs + d → StandsIn lhs rhs → DiffOutcome lhs rhs (some (pos d))
  apart : length lhs ≤ length rhs → ¬ StandsIn lhs rhs → DiffOutcome lhs rhs (some (negsuc 0))

module _ (lhs rhs : List ℕ) (le : length lhs ≤ length rhs) where
  sorted_out :
      (b : Bool)
      → try_places (length rhs - length lhs) lhs rhs ≡ b
      → DiffOutcome lhs rhs (some (if b then pos (length rhs - length lhs) else negsuc 0))
  sorted_out true e =
      stands (length rhs - length lhs) (omega (arith, le)) (try_places_sound _ lhs rhs e)
  sorted_out false e = apart le λ w.
      (let k = length rhs - length lhs in
        let fits : length w.0 ≤ k = omega (arith, StandsIn-length lhs rhs w, le) in
        let found =
          subst (λ r. try_places k lhs r ≡ true) (sym w.2)
            (try_places_complete k w.0 lhs w.1 fits) in
        cc)

-- diff_hypotheses fails its assertion exactly if the second hypothesis is shorter. Else it returns
-- how much longer it is, if the first one stands in it without a gap, and -1 if not.
pub diff_hypotheses-outcome : (lhs rhs : List ℕ) → DiffOutcome lhs rhs (diff_hypotheses lhs rhs)
unfolding diff_hypotheses
diff_hypotheses-outcome lhs rhs = by_length (ltb (length rhs) (length lhs)) refl
  where
    by_length :
        (b : Bool)
        → ltb (length rhs) (length lhs) ≡ b
        → DiffOutcome lhs rhs (
            if b
            then none
            else some (
                if try_places (length rhs - length lhs) lhs rhs
                then pos (length rhs - length lhs)
                else negsuc 0))
    by_length true e = asserts (ground arith)
    by_length false e = sorted_out lhs rhs (ground arith) _ refl
