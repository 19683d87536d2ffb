-- ===== src/Sfctool/Hilbert.antt =====
-- The class SFC_Hilbert of coverage/sfctool/sfctool.cc.
pub mod Quadrants
pub mod Square
pub mod Filling
use Prim.Native.Nat.{bit_and, bit_xor}
use lockdoc_tools.Common.{
  ℕ, zero, suc, ◌+◌, ◌*◌, ◌/◌, ◌≡◌, refl, Option, none, some, ltb, ◌==◌, if◌then◌else◌,
}
use lockdoc_tools.Sfctool.Curve.{wrap, minus, Point, Sfc}

-- Rotates or flips a quadrant of side `n`.
unfoldable pub rot : ℕ → Point → ℕ → ℕ → Point
rot n p rx ry =
    if ry == 0
    then (if rx == 1
        then record { x = minus (minus n 1) p.y; y = minus (minus n 1) p.x }
        else record { x = p.y; y = p.x })
    else p

abbrev pub bit_x : ℕ → ℕ
bit_x t = bit_and 1 (t / 2)

abbrev pub bit_y : ℕ → ℕ
bit_y t = bit_and 1 (bit_xor t (bit_x t))

-- The body of the loop in `get_coords`.
unfoldable pub round : ℕ → ℕ → Point → Point
unfolding rot
round s t p =
    let q = rot s p (bit_x t) (bit_y t) in
    record { x = wrap (q.x + wrap (s * bit_x t)); y = wrap (q.y + wrap (s * bit_y t)) }

-- The loop. `s` doubles, so that after 32 rounds it stays 0 and the loop does not end.
unfoldable pub rounds : ℕ → ℕ → ℕ → ℕ → Point → Option Point
rounds zero dim s t p = if ltb s dim then none else some p
rounds (suc n) dim s t p =
    let rest = rounds n dim (wrap (s * 2)) (t / 4) (round s t p) in
    if ltb s dim then rest else some p

abbrev pub hilbert : Sfc
hilbert = record {
  State = ℕ;
  reset = λ dim. 0;
  get_coords = λ dim pos. rounds 33 dim 1 pos (record { x = 0; y = 0 });
  next = λ pos. wrap (pos + 1);
}

-- `while (x < image_dim) x *= 2` of main.
unfoldable pub round_up : ℕ → ℕ → ℕ → Option ℕ
round_up zero dim x = if ltb x dim then none else some x
round_up (suc n) dim x =
    let rest = round_up n dim (wrap (x * 2)) in if ltb x dim then rest else some x
