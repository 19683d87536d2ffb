-- ===== src/Sfctool/Spiral/Legs.antt =====
-- The legs of the spiral: round `k` is four of them, and the number of steps before a position
-- tells where it is.
use native.Mathlib.Nat.{mul-le-mul}
use lockdoc_tools.Common.{ℕ, suc, ◌+◌, ◌-◌, ◌*◌, ◌^◌, ◌≤◌, ◌<◌, ◌≡◌, arith, ◌==◌, if◌then◌else◌}
use lockdoc_tools.Sfctool.Spiral.{Position, move, turn, count_step, next}

pub data Leg : Type 0 where
  up : Leg
  left : Leg
  down : Leg
  right : Leg

abbrev pub leg_length : Leg → ℕ → ℕ
leg_length Leg.up k = 2 * k + 1
leg_length Leg.left k = 2 * k + 1
leg_length Leg.down k = 2 * k + 2
leg_length Leg.right k = 2 * k + 2

-- The steps before step `s` of a leg in round `k`.
abbrev pub index : Leg → ℕ → ℕ → ℕ
index Leg.up k s = 4 * (k * k) + 2 * k + s
index Leg.left k s = 4 * (k * k) + 4 * k + 1 + s
index Leg.down k s = 4 * (k * k) + 6 * k + 2 + s
index Leg.right k s = 4 * (k * k) + 8 * k + 4 + s

-- The position there, around the middle `c`.
abbrev pub spot : ℕ → Leg → ℕ → ℕ → Position
spot c Leg.up k s = record { x = c + k; y = c + k - s; state = 0; nsteps = 2 * k + 1; step = s }
spot c Leg.left k s = record {
  x = c + k - s;
  y = c - (k + 1);
  state = 1;
  nsteps = 2 * k + 1;
  step = s;
}
spot c Leg.down k s = record {
  x = c - (k + 1);
  y = c + s - (k + 1);
  state = 2;
  nsteps = 2 * k + 2;
  step = s;
}
spot c Leg.right k s = record {
  x = c + s - (k + 1);
  y = c + k + 1;
  state = 3;
  nsteps = 2 * k + 2;
  step = s;
}

-- What lies in a square around `c`: all legs but an upward one stay strictly inside its round.
abbrev pub Room : ℕ → Leg → ℕ → ℕ → Type 0
Room c Leg.up k s = (k ≤ c) × (s < c + k)
Room c Leg.left k s = k < c
Room c Leg.down k s = k < c
Room c Leg.right k s = k < c

round-le : (c k i : ℕ) → i < (2 * c + 1) * (2 * c + 1) → 4 * (k * k) + 2 * k ≤ i → k ≤ c
round-le c k i h g = grind (arith, λ (p : suc c ≤ k). mul-le-mul p p)

pub index-Room :
    (c : ℕ) (l : Leg) (k s : ℕ)
    → s < leg_length l k
    → index l k s + 1 < (2 * c + 1) * (2 * c + 1)
    → Room c l k s
index-Room c Leg.up k s lt h =
    let p = round-le c k (index Leg.up k s) (omega arith) (omega arith) in
    (p, grind (arith, λ (q : c ≤ k). mul-le-mul q q))
index-Room c Leg.left k s lt h = grind (arith, λ (p : c ≤ k). mul-le-mul p p)
index-Room c Leg.down k s lt h = grind (arith, λ (p : c ≤ k). mul-le-mul p p)
index-Room c Leg.right k s lt h = grind (arith, λ (p : c ≤ k). mul-le-mul p p)

-- One call of `next` along a leg, and at its end.
module _ (c k s : ℕ) (b : c ≤ 2 ^ 16) where
  pub next-up :
      k ≤ c
      → s < c + k
      → s < 2 * k + 1
      → next (spot c Leg.up k s)
        ≡ (if s == 2 * k then spot c Leg.left k 0 else spot c Leg.up k (s + 1))
  unfolding next move count_step turn
  next-up h r lt = ground arith

  pub next-left :
      k < c
      → s < 2 * k + 1
      → next (spot c Leg.left k s)
        ≡ (if s == 2 * k then spot c Leg.down k 0 else spot c Leg.left k (s + 1))
  unfolding next move count_step turn
  next-left h lt = ground arith

  pub next-down :
      k < c
      → s < 2 * k + 2
      → next (spot c Leg.down k s)
        ≡ (if s == 2 * k + 1 then spot c Leg.right k 0 else spot c Leg.down k (s + 1))
  unfolding next move count_step turn
  next-down h lt = ground arith

  pub next-right :
      k < c
      → s < 2 * k + 2
      → next (spot c Leg.right k s)
        ≡ (if s == 2 * k + 1 then spot c Leg.up (k + 1) 0 else spot c Leg.right k (s + 1))
  unfolding next move count_step turn
  next-right h lt = ground arith
