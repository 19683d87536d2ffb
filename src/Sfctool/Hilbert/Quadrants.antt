-- ===== src/Sfctool/Hilbert/Quadrants.antt =====
-- One round of SFC_Hilbert: the four copies of a square that make up the next one.
use Prim.Native.Nat.{bit_and, bit_xor, bit_and-bitwise, bit_xor-bitwise, differ}
use lockdoc_tools.Common.{
  ℕ, zero, suc, ◌+◌, ◌-◌, ◌*◌, ◌/◌, ◌%◌, ◌^◌, ◌≤◌, ◌<◌, ◌≡◌, refl, ◌∙◌, ◌⊎◌, inl, inr, arith,
}
use lockdoc_tools.Sfctool.Curve.{wrap, Point}
use lockdoc_tools.Sfctool.Hilbert.{rot, bit_x, bit_y, round}

one-bit_and : (b : ℕ) → bit_and 1 b ≡ b % 2
one-bit_and b = omega (arith, bit_and-bitwise 1 b)

differ_low : (a b : ℕ) → a < 2 → b < 2 → differ a b ≡ (a + b) % 2
differ_low zero b p q = omega arith
differ_low (suc zero) zero p q = refl
differ_low (suc zero) (suc zero) p q = refl
differ_low (suc zero) (suc (suc b)) p q = absurd (omega arith)
differ_low (suc (suc a)) b p q = absurd (omega arith)

bit_xor_low : (a b : ℕ) → bit_xor a b % 2 ≡ (a + b) % 2
bit_xor_low zero b = omega (arith, bit_xor-bitwise 0 b)
bit_xor_low (suc a) b =
    omega
      (arith, bit_xor-bitwise (suc a) b, differ_low (suc a % 2) (b % 2) (omega arith) (omega arith))

bit_x_lem : (t : ℕ) → bit_x t ≡ t / 2 % 2
bit_x_lem t = one-bit_and (t / 2)

bit_y_lem : (t : ℕ) → bit_y t ≡ (t + t / 2 % 2) % 2
bit_y_lem t = omega (arith, one-bit_and (bit_xor t (bit_x t)), bit_xor_low t (bit_x t), bit_x_lem t)

-- Where a point of the square of side `s` goes, by the digit to the base four that a round reads.
abbrev pub quadrant : ℕ → ℕ → Point → Point
quadrant s zero p = record { x = p.y; y = p.x }
quadrant s (suc zero) p = record { x = p.x; y = p.y + s }
quadrant s (suc (suc zero)) p = record { x = p.x + s; y = p.y + s }
quadrant s (suc (suc (suc d))) p = record { x = 2 * s - (1 + p.y); y = s - (1 + p.x) }

abbrev pub InBox : ℕ → Point → Type 0
InBox s p = (p.x < s) × (p.y < s)

round-cases :
    (s t : ℕ) (p : Point) (rx ry d : ℕ)
    → bit_x t ≡ rx
    → bit_y t ≡ ry
    → t % 4 ≡ d
    → round s t p ≡ (
        let q = rot s p rx ry in
        record { x = wrap (q.x + wrap (s * rx)); y = wrap (q.y + wrap (s * ry)) })
unfolding round
round-cases s t p rx ry d e f g = rw (f, e) refl

digit : (t : ℕ) → (t % 4 ≡ 0) ⊎ ((t % 4 ≡ 1) ⊎ ((t % 4 ≡ 2) ⊎ (t % 4 ≡ 3)))
digit t = ground arith

pub round-quadrant :
    (s t : ℕ) (p : Point) → s ≤ 2 ^ 31 → InBox s p → round s t p ≡ quadrant s (t % 4) p
unfolding rot
round-quadrant s t p b h = elim (digit t) [
  | inl e ↦ rw e (
      round-cases s t p 0 0 0 (omega (arith, bit_x_lem t)) (omega (arith, bit_y_lem t)) e
      ∙ grind arith)
  | inr (inl e) ↦ rw e (
      round-cases s t p 0 1 1 (omega (arith, bit_x_lem t)) (omega (arith, bit_y_lem t)) e
      ∙ grind arith)
  | inr (inr (inl e)) ↦ rw e (
      round-cases s t p 1 1 2 (omega (arith, bit_x_lem t)) (omega (arith, bit_y_lem t)) e
      ∙ grind arith)
  | inr (inr (inr e)) ↦ rw e (
      round-cases s t p 1 0 3 (omega (arith, bit_x_lem t)) (omega (arith, bit_y_lem t)) e
      ∙ grind arith)
]

pub quadrant-InBox : (s d : ℕ) (p : Point) → InBox s p → InBox (2 * s) (quadrant s d p)
quadrant-InBox s zero p h = (omega arith, omega arith)
quadrant-InBox s (suc zero) p h = (omega arith, omega arith)
quadrant-InBox s (suc (suc zero)) p h = (omega arith, omega arith)
quadrant-InBox s (suc (suc (suc d))) p h = (omega arith, omega arith)

-- The four copies do not meet, and each is one-to-one.
abbrev pub SamePoint : Point → Point → Type 0
SamePoint p q = (p.x ≡ q.x) × (p.y ≡ q.y)

pub quadrant_injective :
    (s d e : ℕ) (p q : Point)
    → d < 4
    → e < 4
    → InBox s p
    → InBox s q
    → SamePoint (quadrant s d p) (quadrant s e q)
    → (d ≡ e) × SamePoint p q
quadrant_injective s zero zero p q hd he h k m = (refl, (omega arith, omega arith))
quadrant_injective s zero (suc zero) p q hd he h k m = absurd (omega arith)
quadrant_injective s zero (suc (suc zero)) p q hd he h k m = absurd (omega arith)
quadrant_injective s zero (suc (suc (suc zero))) p q hd he h k m = absurd (omega arith)
quadrant_injective s (suc zero) zero p q hd he h k m = absurd (omega arith)
quadrant_injective s (suc zero) (suc zero) p q hd he h k m = (refl, (omega arith, omega arith))
quadrant_injective s (suc zero) (suc (suc zero)) p q hd he h k m = absurd (omega arith)
quadrant_injective s (suc zero) (suc (suc (suc zero))) p q hd he h k m = absurd (omega arith)
quadrant_injective s (suc (suc zero)) zero p q hd he h k m = absurd (omega arith)
quadrant_injective s (suc (suc zero)) (suc zero) p q hd he h k m = absurd (omega arith)
quadrant_injective s (suc (suc zero)) (suc (suc zero)) p q hd he h k m =
    (refl, (omega arith, omega arith))
quadrant_injective s (suc (suc zero)) (suc (suc (suc zero))) p q hd he h k m = absurd (omega arith)
quadrant_injective s (suc (suc (suc zero))) zero p q hd he h k m = absurd (omega arith)
quadrant_injective s (suc (suc (suc zero))) (suc zero) p q hd he h k m = absurd (omega arith)
quadrant_injective s (suc (suc (suc zero))) (suc (suc zero)) p q hd he h k m = absurd (omega arith)
quadrant_injective s (suc (suc (suc zero))) (suc (suc (suc zero))) p q hd he h k m =
    (refl, (omega arith, omega arith))
quadrant_injective s (suc (suc (suc (suc d)))) e p q hd he h k m = absurd (omega arith)
quadrant_injective s d (suc (suc (suc (suc e)))) p q hd he h k m = absurd (omega arith)

-- Next to each other in a row or a column.
abbrev pub Adjacent : Point → Point → Type 0
Adjacent p q =
    ((p.x ≡ q.x) × ((p.y ≡ q.y + 1) ⊎ (q.y ≡ p.y + 1)))
    ⊎ ((p.y ≡ q.y) × ((p.x ≡ q.x + 1) ⊎ (q.x ≡ p.x + 1)))

pub quadrant-Adjacent :
    (s d : ℕ) (p q : Point)
    → InBox s p
    → InBox s q
    → Adjacent p q
    → Adjacent (quadrant s d p) (quadrant s d q)
quadrant-Adjacent s zero p q h k a = ground arith
quadrant-Adjacent s (suc zero) p q h k a = ground arith
quadrant-Adjacent s (suc (suc zero)) p q h k a = ground arith
quadrant-Adjacent s (suc (suc (suc d))) p q h k a = ground arith

-- The curve through the square of side `s` starts at its first point and ends at the end of its first row.
abbrev pub first : Point
first = record { x = 0; y = 0 }

abbrev pub last : ℕ → Point
last s = record { x = s - 1; y = 0 }

pub quadrants_join :
    (s d : ℕ) → 0 < s → d < 3 → Adjacent (quadrant s d (last s)) (quadrant s (suc d) first)
quadrants_join s zero h lt = ground arith
quadrants_join s (suc zero) h lt = ground arith
quadrants_join s (suc (suc zero)) h lt = ground arith
quadrants_join s (suc (suc (suc d))) h lt = absurd (omega arith)

pub quadrant-last : (s : ℕ) → 0 < s → quadrant s 3 (last s) ≡ last (2 * s)
quadrant-last s h = grind arith
