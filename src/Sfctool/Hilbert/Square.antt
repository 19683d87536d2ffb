-- ===== src/Sfctool/Hilbert/Square.antt =====
-- The loop of SFC_Hilbert and the loop of main that rounds the image up.
use lockdoc_tools.Common.{
  ℕ, zero, suc, ◌*◌, ◌/◌, ◌%◌, ◌^◌, ◌≤◌, ◌<◌, ◌≡◌, refl, inl, inr, some, arith, ltb, Bool-cases,
  true,
}
use lockdoc_tools.Sfctool.Curve.{wrap, Point}
use lockdoc_tools.Sfctool.Hilbert.{rounds, round_up}
use lockdoc_tools.Sfctool.Hilbert.Quadrants.{
  quadrant, InBox, round-quadrant, quadrant-InBox, SamePoint, quadrant_injective, Adjacent,
  quadrant-Adjacent, first, last, quadrants_join, quadrant-last,
}

abbrev pub scale : ℕ → ℕ → ℕ
scale zero s = s
scale (suc k) s = scale k (2 * s)

abbrev pub fourth_power : ℕ → ℕ
fourth_power zero = 1
fourth_power (suc k) = 4 * fourth_power k

-- The point after `k` rounds over the digits of `t` to the base four, the lowest first.
abbrev pub walk : ℕ → ℕ → ℕ → Point → Point
walk zero s t p = p
walk (suc k) s t p = walk k (2 * s) (t / 4) (quadrant s (t % 4) p)

-- `s` reaches `dim` after being doubled `k` times, and no earlier.
abbrev pub Doubles : ℕ → ℕ → ℕ → Type 0
Doubles dim s zero = dim ≤ s
Doubles dim s (suc k) = (s < dim) × Doubles dim (2 * s) k

pub doubles : (dim n s : ℕ) → dim ≤ scale n s → (k : ℕ) × ((k ≤ n) × Doubles dim s k)
doubles dim zero s h = (0, (omega arith, h))
doubles dim (suc n) s h = elim (Bool-cases (ltb s dim)) [
  | inl e ↦
      let r = doubles dim n (2 * s) h in (suc r.0, (omega (arith, r.1.0), (ground arith, r.1.1)))
  | inr e ↦ (0, (omega arith, ground arith))
]

pub scale-Doubles : (dim s k : ℕ) → Doubles dim s k → dim ≤ scale k s
scale-Doubles dim s zero h = h
scale-Doubles dim s (suc k) h = scale-Doubles dim (2 * s) k h.1

pub scale_square : (k s : ℕ) → scale k s * scale k s ≡ fourth_power k * (s * s)
scale_square zero s = omega arith
scale_square (suc k) s = omega (arith, scale_square k (2 * s))

pub walk-InBox : (k s t : ℕ) (p : Point) → InBox s p → InBox (scale k s) (walk k s t p)
walk-InBox zero s t p h = h
walk-InBox (suc k) s t p h =
    walk-InBox k (2 * s) (t / 4) (quadrant s (t % 4) p) (quadrant-InBox s (t % 4) p h)

pub walk_injective :
    (k s t u : ℕ) (p q : Point)
    → t < fourth_power k
    → u < fourth_power k
    → InBox s p
    → InBox s q
    → SamePoint (walk k s t p) (walk k s u q)
    → (t ≡ u) × SamePoint p q
walk_injective zero s t u p q ht hu hp hq e = (omega arith, e)
walk_injective (suc k) s t u p q ht hu hp hq e =
    let r =
      walk_injective k (2 * s) (t / 4) (u / 4) (quadrant s (t % 4) p) (quadrant s (u % 4) q)
        (omega arith) (omega arith) (quadrant-InBox s (t % 4) p hp) (quadrant-InBox s (u % 4) q hq)
        e in
    let m = quadrant_injective s (t % 4) (u % 4) p q (omega arith) (omega arith) hp hq r.1 in
    (omega (arith, r.0, m.0), m.1)

walk-Adjacent :
    (k s t : ℕ) (p q : Point)
    → InBox s p
    → InBox s q
    → Adjacent p q
    → Adjacent (walk k s t p) (walk k s t q)
walk-Adjacent zero s t p q hp hq a = a
walk-Adjacent (suc k) s t p q hp hq a =
    walk-Adjacent k (2 * s) (t / 4) (quadrant s (t % 4) p) (quadrant s (t % 4) q)
      (quadrant-InBox s (t % 4) p hp) (quadrant-InBox s (t % 4) q hq)
      (quadrant-Adjacent s (t % 4) p q hp hq a)

-- One round on two positions, by their digits.
round-Adjacent :
    (k s t u d e m n : ℕ) (p q : Point)
    → t % 4 ≡ d
    → u % 4 ≡ e
    → t / 4 ≡ m
    → u / 4 ≡ n
    → Adjacent (walk k (2 * s) m (quadrant s d p)) (walk k (2 * s) n (quadrant s e q))
    → Adjacent (walk (suc k) s t p) (walk (suc k) s u q)
round-Adjacent k s t u d e m n p q f g h i a =
    let goal : Adjacent (walk k (2 * s) (t / 4) (quadrant s (t % 4) p))
        (walk k (2 * s) (u / 4) (quadrant s (u % 4) q)) =
      rw (f, g, h, i) a in
    goal

pub walk-suc :
    (k s t : ℕ)
    → 0 < s
    → suc t < fourth_power k
    → Adjacent (walk k s t (last s)) (walk k s (suc t) first)
walk-suc zero s t h lt = absurd (omega arith)
walk-suc (suc k) s t h lt = elim (Bool-cases (ltb (t % 4) 3)) [
  | inl e ↦
      let d : t % 4 < 3 = ground arith in
      round-Adjacent k s t (suc t) (t % 4) (suc (t % 4)) (t / 4) (t / 4) (last s) first refl
        (omega (arith, d)) refl (omega (arith, d))
        (walk-Adjacent k (2 * s) (t / 4) (quadrant s (t % 4) (last s))
          (quadrant s (suc (t % 4)) first) (quadrant-InBox s (t % 4) (last s) (omega arith, h))
          (quadrant-InBox s (suc (t % 4)) first (h, h)) (quadrants_join s (t % 4) h d))
  | inr e ↦
      let d : t % 4 ≡ 3 = ground arith in
      round-Adjacent k s t (suc t) 3 0 (t / 4) (suc (t / 4)) (last s) first d (omega (arith, d))
        refl (omega (arith, d))
        (rw (quadrant-last s h) (walk-suc k (2 * s) (t / 4) (omega arith) (omega arith)))
]

-- The loops of the source.
pub rounds-walk :
    (n dim s t k : ℕ) (p : Point)
    → dim ≤ 2 ^ 31
    → 0 < s
    → InBox s p
    → k ≤ n
    → Doubles dim s k
    → rounds n dim s t p ≡ some (walk k s t p)
unfolding rounds
rounds-walk zero dim s t zero p b h i le d = ground arith
rounds-walk zero dim s t (suc k) p b h i le d = absurd (omega arith)
rounds-walk (suc n) dim s t zero p b h i le d = ground arith
rounds-walk (suc n) dim s t (suc k) p b h i le d =
    let e : wrap (s * 2) ≡ 2 * s = omega (arith, d.0) in
    let f : ltb s dim ≡ true = ground (arith, d.0) in
    rw (f, e, round-quadrant s t p (omega (arith, d.0)) i)
      (rounds-walk n dim (2 * s) (t / 4) k (quadrant s (t % 4) p) b (omega arith)
        (quadrant-InBox s (t % 4) p i) (omega arith) d.1)

pub round_up-scale :
    (n dim s k : ℕ) → dim ≤ 2 ^ 31 → k ≤ n → Doubles dim s k → round_up n dim s ≡ some (scale k s)
unfolding round_up
round_up-scale zero dim s zero b le d = ground arith
round_up-scale zero dim s (suc k) b le d = absurd (omega arith)
round_up-scale (suc n) dim s zero b le d = ground arith
round_up-scale (suc n) dim s (suc k) b le d =
    let e : wrap (s * 2) ≡ 2 * s = omega (arith, d.0) in
    let f : ltb s dim ≡ true = ground (arith, d.0) in
    rw (f, e) (round_up-scale n dim (2 * s) k b (omega arith) d.1)
