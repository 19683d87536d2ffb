-- ===== src/Sfctool/Spiral/Square.antt =====
-- The spiral of coverage/sfctool/sfctool.cc and the square around its middle.
use native.Mathlib.Nat.{mul-le-mul, lt_of_lt_of_le}
use lockdoc_tools.Common.{
  ℕ, zero, suc, ◌+◌, ◌*◌, ◌/◌, ◌^◌, ◌≤◌, ◌<◌, ◌≡◌, refl, ap, sym, ◌∙◌, ◌⊎◌, inl, inr, some, arith,
  ◌==◌, if◌then◌else◌, subst, Bool-cases, ==_iff,
}
use lockdoc_tools.Sfctool.Curve.{Point, FillsSquare, after, after-suc}
use lockdoc_tools.Sfctool.Spiral.{Position, next, spiral}
use lockdoc_tools.Sfctool.Spiral.Legs.{
  Leg, leg_length, index, spot, Room, index-Room, next-up, next-left, next-down, next-right,
}

-- Where the spiral is after `i` steps.
record Reached (c i : ℕ) : Type 0 where
  leg : Leg
  round : ℕ
  step : ℕ
  step-lt : step < leg_length leg round
  counted : i ≡ index leg round step
  there : after spiral i (spot c Leg.up 0 0) ≡ spot c leg round step

-- The leg, round and step that come next.
abbrev successor : Leg → ℕ → ℕ → Leg × (ℕ × ℕ)
successor Leg.up k s = if s == 2 * k then (Leg.left, (k, 0)) else (Leg.up, (k, s + 1))
successor Leg.left k s = if s == 2 * k then (Leg.down, (k, 0)) else (Leg.left, (k, s + 1))
successor Leg.down k s = if s == 2 * k + 1 then (Leg.right, (k, 0)) else (Leg.down, (k, s + 1))
successor Leg.right k s = if s == 2 * k + 1 then (Leg.up, (k + 1, 0)) else (Leg.right, (k, s + 1))

abbrev spot_of : ℕ → Leg × (ℕ × ℕ) → Position
spot_of c t = spot c t.0 t.1.0 t.1.1

next-spot :
    (c : ℕ) (l : Leg) (k s : ℕ)
    → c ≤ 2 ^ 16
    → s < leg_length l k
    → Room c l k s
    → next (spot c l k s) ≡ spot_of c (successor l k s)
next-spot c Leg.up k s b lt r = ground (arith, next-up c k s b r.0 r.1 lt)
next-spot c Leg.left k s b lt r = ground (arith, next-left c k s b r lt)
next-spot c Leg.down k s b lt r = ground (arith, next-down c k s b r lt)
next-spot c Leg.right k s b lt r = ground (arith, next-right c k s b r lt)

index-successor :
    (l : Leg) (k s : ℕ)
    → index (successor l k s).0 (successor l k s).1.0 (successor l k s).1.1 ≡ index l k s + 1
index-successor Leg.up k s = ground arith
index-successor Leg.left k s = ground arith
index-successor Leg.down k s = ground arith
index-successor Leg.right k s = elim (Bool-cases (s == 2 * k + 1)) [
  | inl e ↦ let q : s ≡ 2 * k + 1 = (==_iff s (2 * k + 1)).0 e in rw e (omega arith)
  | inr e ↦ rw e (omega arith)
]

successor-lt :
    (l : Leg) (k s : ℕ)
    → s < leg_length l k
    → (successor l k s).1.1 < leg_length (successor l k s).0 (successor l k s).1.0
successor-lt Leg.up k s lt = ground arith
successor-lt Leg.left k s lt = ground arith
successor-lt Leg.down k s lt = ground arith
successor-lt Leg.right k s lt = ground arith

reached : (c : ℕ) → c ≤ 2 ^ 16 → (i : ℕ) → i < (2 * c + 1) * (2 * c + 1) → Reached c i
unfolding after
reached c b zero h = record {
  leg = Leg.up;
  round = 0;
  step = 0;
  step-lt = omega arith;
  counted = omega arith;
  there = refl;
}
reached c b (suc i) h =
    let r = reached c b i (omega arith) in
    let t = successor r.leg r.round r.step in
    record {
      leg = t.0;
      round = t.1.0;
      step = t.1.1;
      step-lt = successor-lt r.leg r.round r.step r.step-lt;
      counted = omega (arith, r.counted, index-successor r.leg r.round r.step);
      there =
          after-suc spiral i _
          ∙ (ap next r.there
              ∙ next-spot c r.leg r.round r.step b r.step-lt
                  (index-Room c r.leg r.round r.step r.step-lt (omega (arith, r.counted))));
    }

abbrev point_of : Position → Point
point_of p = record { x = p.x; y = p.y }

abbrev InSquare : ℕ → Position → Type 0
InSquare dim p = (p.x < dim) × (p.y < dim)

inside_even :
    (c : ℕ) (l : Leg) (k s : ℕ)
    → s < leg_length l k
    → index l k s < (2 * c) * (2 * c)
    → InSquare (2 * c) (spot c l k s)
inside_even c Leg.up k s lt h = grind (arith, λ (q : c ≤ k). mul-le-mul q q)
inside_even c Leg.left k s lt h = grind (arith, λ (q : c ≤ k). mul-le-mul q q)
inside_even c Leg.down k s lt h = grind (arith, λ (q : c ≤ k). mul-le-mul q q)
inside_even c Leg.right k s lt h = grind (arith, λ (q : c ≤ k + 1). mul-le-mul q q)

inside_odd :
    (c : ℕ) (l : Leg) (k s : ℕ)
    → s < leg_length l k
    → index l k s < (2 * c + 1) * (2 * c + 1)
    → InSquare (2 * c + 1) (spot c l k s)
inside_odd c Leg.up k s lt h = grind (arith, λ (q : c + 1 ≤ k). mul-le-mul q q)
inside_odd c Leg.left k s lt h = grind (arith, λ (q : c ≤ k). mul-le-mul q q)
inside_odd c Leg.down k s lt h = grind (arith, λ (q : c ≤ k). mul-le-mul q q)
inside_odd c Leg.right k s lt h = grind (arith, λ (q : c ≤ k). mul-le-mul q q)

halves : (d : ℕ) → (d ≡ 2 * (d / 2)) ⊎ (d ≡ 2 * (d / 2) + 1)
halves d = ground arith

inside :
    (dim : ℕ) (l : Leg) (k s : ℕ)
    → s < leg_length l k
    → index l k s < dim * dim
    → InSquare dim (spot (dim / 2) l k s)
inside dim l k s lt h = elim (halves dim) [
  | inl e ↦
      subst (λ d. index l k s < d * d → InSquare d (spot (dim / 2) l k s)) (sym e)
        (inside_even (dim / 2) l k s lt) h
  | inr e ↦
      subst (λ d. index l k s < d * d → InSquare d (spot (dim / 2) l k s)) (sym e)
        (inside_odd (dim / 2) l k s lt) h
]

-- Where a spot is, without the subtractions.
abbrev Where : ℕ → Leg → ℕ → ℕ → ℕ → ℕ → Type 0
Where c Leg.up k s x y = (x ≡ c + k) × (y + s ≡ c + k)
Where c Leg.left k s x y = (x + s ≡ c + k) × (y + k + 1 ≡ c)
Where c Leg.down k s x y = (x + k + 1 ≡ c) × (y + k + 1 ≡ c + s)
Where c Leg.right k s x y = (x + k + 1 ≡ c + s) × (y ≡ c + k + 1)

spot-Where :
    (c : ℕ) (l : Leg) (k s : ℕ)
    → s < leg_length l k
    → index l k s < (2 * c + 1) * (2 * c + 1)
    → Where c l k s (spot c l k s).x (spot c l k s).y
spot-Where c Leg.up k s lt h = grind (arith, λ (q : c + 1 ≤ k). mul-le-mul q q)
spot-Where c Leg.left k s lt h = grind (arith, λ (q : c ≤ k). mul-le-mul q q)
spot-Where c Leg.down k s lt h = grind (arith, λ (q : c ≤ k). mul-le-mul q q)
spot-Where c Leg.right k s lt h = grind (arith, λ (q : c ≤ k). mul-le-mul q q)

same_index : (l : Leg) {j k r s : ℕ} → (j ≡ k) × (r ≡ s) → index l j r ≡ index l k s
same_index l h = rw (h.0, h.1) refl

-- Two spots at one point are the same step.
module _ (c x y : ℕ) where
  Where-index :
      (l m : Leg) (j r k s : ℕ)
      → r < leg_length l j
      → s < leg_length m k
      → Where c l j r x y
      → Where c m k s x y
      → index l j r ≡ index m k s
  Where-index Leg.up Leg.up j r k s lt lu v w = same_index Leg.up (omega arith, omega arith)
  Where-index Leg.up Leg.left j r k s lt lu v w = absurd (omega arith)
  Where-index Leg.up Leg.down j r k s lt lu v w = absurd (omega arith)
  Where-index Leg.up Leg.right j r k s lt lu v w = absurd (omega arith)
  Where-index Leg.left Leg.up j r k s lt lu v w = absurd (omega arith)
  Where-index Leg.left Leg.left j r k s lt lu v w = same_index Leg.left (omega arith, omega arith)
  Where-index Leg.left Leg.down j r k s lt lu v w = absurd (omega arith)
  Where-index Leg.left Leg.right j r k s lt lu v w = absurd (omega arith)
  Where-index Leg.down Leg.up j r k s lt lu v w = absurd (omega arith)
  Where-index Leg.down Leg.left j r k s lt lu v w = absurd (omega arith)
  Where-index Leg.down Leg.down j r k s lt lu v w = same_index Leg.down (omega arith, omega arith)
  Where-index Leg.down Leg.right j r k s lt lu v w = absurd (omega arith)
  Where-index Leg.right Leg.up j r k s lt lu v w = absurd (omega arith)
  Where-index Leg.right Leg.left j r k s lt lu v w = absurd (omega arith)
  Where-index Leg.right Leg.down j r k s lt lu v w = absurd (omega arith)
  Where-index Leg.right Leg.right j r k s lt lu v w =
      same_index Leg.right (omega arith, omega arith)

largest : (dim : ℕ) → dim * dim ≤ (2 * (dim / 2) + 1) * (2 * (dim / 2) + 1)
largest dim = let h : dim ≤ 2 * (dim / 2) + 1 = omega arith in mul-le-mul h h

start : (dim : ℕ) → spiral.reset dim ≡ spot (dim / 2) Leg.up 0 0
start dim = grind arith

module _ (dim : ℕ) (b : dim ≤ 2 ^ 16) where
  reach : (i : ℕ) → i < dim * dim → Reached (dim / 2) i
  reach i h = reached (dim / 2) (omega arith) i (lt_of_lt_of_le h (largest dim))

  at : ℕ → Position
  at i = after spiral i (spot (dim / 2) Leg.up 0 0)

  at-InSquare : (i : ℕ) → i < dim * dim → InSquare dim (at i)
  unfolding at
  at-InSquare i h =
      let r = reach i h in
      rw r.there (inside dim r.leg r.round r.step r.step-lt (omega (arith, r.counted)))

  at-Where :
      (i : ℕ) (h : i < dim * dim)
      → (let r = reach i h in Where (dim / 2) r.leg r.round r.step (at i).x (at i).y)
  unfolding at
  at-Where i h =
      let r = reach i h in
      rw r.there (
        spot-Where (dim / 2) r.leg r.round r.step r.step-lt (omega (arith, r.counted, largest dim)))

  at_distinct :
      (i j : ℕ) → i < dim * dim → j < dim * dim → point_of (at i) ≡ point_of (at j) → i ≡ j
  at_distinct i j hi hj e =
      let r = reach i hi in
      let s = reach j hj in
      let w =
        subst (λ (p : Point). Where (dim / 2) r.leg r.round r.step p.x p.y) e (at-Where i hi) in
      r.counted
      ∙ (Where-index (dim / 2) (at j).x (at j).y r.leg s.leg r.round r.step s.round s.step r.step-lt
            s.step-lt w (at-Where j hj)
          ∙ sym s.counted)

  -- The first `dim * dim` points of the spiral lie in the image and differ, for even and odd sides of at most 2^16: no
  -- coordinate wraps around.
  pub spiral-FillsSquare : FillsSquare spiral dim dim
  unfolding at
  spiral-FillsSquare = record {
    at = λ i. point_of (at i);
    returns = λ i h. ap (λ (p : Position). some (point_of (after spiral i p))) (start dim);
    inside = at-InSquare;
    distinct = at_distinct;
  }
