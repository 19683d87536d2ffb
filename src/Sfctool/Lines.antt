-- ===== src/Sfctool/Lines.antt =====
-- The class SFC_Lines of coverage/sfctool/sfctool.cc: line by line.
use native.Mathlib.Nat.{div-add-mod, div-lt_iff_lt-mul, mul-le-mul, mod-lt, lt_of_lt_of_le}
use lockdoc_tools.Common.{
  ℕ, zero, suc, ◌+◌, ◌*◌, ◌/◌, ◌%◌, ◌^◌, ◌≤◌, ◌<◌, ◌≡◌, refl, ap, sym, ◌∙◌, some, arith,
}
use lockdoc_tools.Sfctool.Curve.{wrap, Sfc, FillsSquare, after, after-suc}

-- Its state is the number of calls of `next`.
abbrev pub lines : Sfc
lines = record {
  State = ℕ;
  reset = λ dim. 0;
  get_coords = λ dim pos. some (record { x = pos % dim; y = pos / dim });
  next = λ pos. wrap (pos + 1);
}

pub position : (i : ℕ) → i < 2 ^ 32 → after lines i 0 ≡ i
unfolding after
position zero h = refl
position (suc i) h = omega (arith, after-suc lines i 0, position i (omega arith))

positive : (i d : ℕ) → i < d * d → 0 < d
positive i zero h = absurd (omega arith)
positive i (suc d) h = omega arith

row-lt : (i d : ℕ) → i < d * d → i / d < d
row-lt i zero h = absurd (omega arith)
row-lt i (suc d) h = (div-lt_iff_lt-mul {k = suc d} {x = i} {y = suc d} (omega arith)).1 h

square_bound : (d : ℕ) → d ≤ 2 ^ 16 → d * d ≤ 2 ^ 32
square_bound d h = mul-le-mul h h

coordinates-determine : (i j d : ℕ) → i % d ≡ j % d → i / d ≡ j / d → i ≡ j
coordinates-determine i j d e f = sym (div-add-mod i d) ∙ (rw (e, f) (div-add-mod j d))

-- Line by line, the first `dim * dim` positions are the points of the image, each once, for sides of at most 2^16, which a
-- position of 32 bits allows.
pub lines-FillsSquare : (dim : ℕ) → dim ≤ 2 ^ 16 → FillsSquare lines dim dim
lines-FillsSquare dim h = record {
  at = λ i. record { x = i % dim; y = i / dim };
  returns = λ i lt.
      ap (λ k. some (record { x = k % dim; y = k / dim }))
        (position i (lt_of_lt_of_le lt (square_bound dim h)));
  inside = λ i lt. (mod-lt i (positive i dim lt), row-lt i dim lt);
  distinct = λ i j hi hj e. coordinates-determine i j dim (ap (λ p. p.x) e) (ap (λ p. p.y) e);
}
