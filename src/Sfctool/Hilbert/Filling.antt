-- ===== src/Sfctool/Hilbert/Filling.antt =====
-- What SFC_Hilbert promises main: the points of the positions that main draws.
use native.Mathlib.Nat.{mul-le-mul, lt_of_lt_of_le, pow-suc, mul_assoc}
use lockdoc_tools.Common.{
  ℕ, zero, suc, ◌+◌, ◌*◌, ◌^◌, ◌≤◌, ◌<◌, ◌≡◌, refl, ap, sym, subst, ◌∙◌, some, some_inj, arith,
}
use lockdoc_tools.Sfctool.Curve.{Point, FillsSquare, after, after-suc}
use lockdoc_tools.Sfctool.Hilbert.{rounds, hilbert, round_up}
use lockdoc_tools.Sfctool.Hilbert.Quadrants.{Adjacent, first}
use lockdoc_tools.Sfctool.Hilbert.Square.{
  scale, fourth_power, walk, Doubles, doubles, scale-Doubles, scale_square, walk-InBox,
  walk_injective, walk-suc, rounds-walk, round_up-scale,
}

scale-le : (k s : ℕ) → s ≤ scale k s
scale-le zero s = omega arith
scale-le (suc k) s = omega (arith, scale-le k (2 * s))

scale-power : (k s : ℕ) → scale k s ≡ 2 ^ k * s
scale-power zero s = omega arith
scale-power (suc k) s =
    scale-power k (2 * s) ∙ (sym (mul_assoc (2 ^ k) 2 s) ∙ ap (λ a. a * s) (sym (pow-suc 2 k)))

Doubles-scale : (dim s k : ℕ) → 0 < s → Doubles dim s k → Doubles (scale k s) s k
Doubles-scale dim s zero h d = omega arith
Doubles-scale dim s (suc k) h d =
    (omega (arith, scale-le k (2 * s)), Doubles-scale dim (2 * s) k (omega arith) d.1)

scale_grows : (n k s : ℕ) → k ≤ n → scale k s ≤ scale n s
scale_grows n zero s h = scale-le n s
scale_grows zero (suc k) s h = absurd (omega arith)
scale_grows (suc n) (suc k) s h = scale_grows n k (2 * s) (omega arith)

-- How often the side of the image is doubled.
order : (dim : ℕ) → dim ≤ 2 ^ 16 → (k : ℕ) × ((k ≤ 16) × Doubles dim 1 k)
order dim h = doubles dim 16 1 (omega arith)

pub position : (i : ℕ) → i < 2 ^ 32 → after hilbert i 0 ≡ i
unfolding after
position zero h = refl
position (suc i) h = omega (arith, after-suc hilbert i 0, position i (omega arith))

module _ (dim : ℕ) (b : dim ≤ 2 ^ 16) where
  k : ℕ
  k = (order dim b).0

  side-le : dim ≤ scale k 1
  unfolding k
  side-le = scale-Doubles dim 1 k (order dim b).1.1

  in_range : (i : ℕ) → i < dim * dim → (i < 2 ^ 32) × (i < fourth_power k)
  unfolding k
  in_range i h = (
    lt_of_lt_of_le h (mul-le-mul b b),
    lt_of_lt_of_le h (omega (arith, mul-le-mul side-le side-le, scale_square k 1)),
  )

  at_walk :
      (i : ℕ) → i < 2 ^ 32 → hilbert.get_coords dim (after hilbert i 0) ≡ some (walk k 1 i first)
  unfolding k
  at_walk i h =
      ap (λ j. rounds 33 dim 1 j first) (position i h)
      ∙ rounds-walk 33 dim 1 i k first (omega arith) (omega arith) (omega arith, omega arith)
          (let o = (order dim b).1.0 in omega arith) (order dim b).1.1

  side : round_up 33 dim 1 ≡ some (scale k 1)
  unfolding k
  side =
      round_up-scale 33 dim 1 k (omega arith) (let o = (order dim b).1.0 in omega arith)
        (order dim b).1.1

  fills : FillsSquare hilbert dim (scale k 1)
  fills = record {
    at = λ i. walk k 1 i first;
    returns = λ i h. at_walk i (in_range i h).0;
    inside = λ i h. walk-InBox k 1 i first (omega arith, omega arith);
    distinct = λ i j hi hj e.
        (walk_injective k 1 i j first first (in_range i hi).1 (in_range j hj).1
          (omega arith, omega arith) (omega arith, omega arith)
          (ap (λ (p : Point). p.x) e, ap (λ (p : Point). p.y) e)).0;
  }

  -- For a side of at most 2^16, main's loop ends with a power of two that is not below the side, the
  -- loop of `get_coords` ends for each of the first `dim * dim` positions, and their points lie in the
  -- image of that power's side and differ.
  pub hilbert-FillsSquare :
      (e : ℕ) × ((round_up 33 dim 1 ≡ some (2 ^ e))
        × ((dim ≤ 2 ^ e) × FillsSquare hilbert dim (2 ^ e)))
  hilbert-FillsSquare =
      let q = scale-power k 1 ∙ omega arith in
      (
        k,
        (
          side ∙ ap some q,
          (subst (λ n. dim ≤ n) q side-le, subst (FillsSquare hilbert dim) q fills),
        ),
      )

  -- Consecutive positions have points next to each other in a row or a column.
  pub hilbert-Adjacent :
      (i : ℕ)
      → i + 1 < dim * dim
      → (p : Point) × ((q : Point) × ((hilbert.get_coords dim (after hilbert i (hilbert.reset dim))
              ≡ some p)
            × ((hilbert.get_coords dim (after hilbert (suc i) (hilbert.reset dim)) ≡ some q)
                × Adjacent p q)))
  hilbert-Adjacent i h =
      let r = in_range (suc i) (omega arith) in
      (
        walk k 1 i first,
        (
          walk k 1 (suc i) first,
          (at_walk i (omega (arith, r.0)), (at_walk (suc i) r.0, walk-suc k 1 i (omega arith) r.1)),
        ),
      )

  side-le_max : scale k 1 ≤ 2 ^ 16
  unfolding k
  side-le_max = let o = order dim b in scale_grows 16 k 1 o.1.0

  -- The curve made with the side that the domain needs, as main does, and the one made with the
  -- side rounded up to a power of two agree at every position, those past the end too.
  hilbert_rounded :
      (size pos : ℕ)
      → round_up 33 dim 1 ≡ some size
      → hilbert.get_coords dim pos ≡ hilbert.get_coords size pos
  unfolding k
  hilbert_rounded size pos e =
      let o = order dim b in
      let s : scale k 1 ≡ size = some_inj _ _ (sym side ∙ e) in
      subst (λ n. hilbert.get_coords dim pos ≡ hilbert.get_coords n pos) s
        (rounds-walk 33 dim 1 pos k first (omega arith) (omega arith) (omega arith, omega arith)
            (omega (arith, o.1.0)) o.1.1
          ∙ sym (
              rounds-walk 33 (scale k 1) 1 pos k first (omega (arith, side-le_max)) (omega arith)
                (omega arith, omega arith) (omega (arith, o.1.0))
                (Doubles-scale dim 1 k (omega arith) o.1.1)))
