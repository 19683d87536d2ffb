-- ===== src/Sfctool/Curve.antt =====
-- The interface of the class SFC in coverage/sfctool/sfctool.cc: what main asks of a curve.
use lockdoc_tools.Common.{
  ℕ, zero, suc, ◌+◌, ◌-◌, ◌*◌, ◌%◌, ◌^◌, ◌≤◌, ◌<◌, ◌≡◌, refl, Option, some, arith,
}

-- A value of type unsigned.
abbrev pub wrap : ℕ → ℕ
wrap n = n % 2 ^ 32

-- `a - b` on values of type unsigned.
abbrev pub minus : ℕ → ℕ → ℕ
minus a b = wrap (a + (2 ^ 32 - b))

-- The column and the row.
pub record Point : Type 0 where
  pub x : ℕ
  pub y : ℕ

-- A curve of one class. `get_coords` gets the dimension that its object was made with; `none` stands for a call that
-- does not return.
pub record Sfc : Type 1 where
  pub State : Type 0
  pub reset : ℕ → State
  pub get_coords : ℕ → State → Option Point
  pub next : State → State

-- The state after some calls of `next`.
unfoldable pub after : (c : Sfc) → ℕ → c.State → c.State
after c zero s = s
after c (suc n) s = after c n (c.next s)

-- What main relies on: the first `dim * dim` points lie in the image and differ.
pub record FillsSquare (c : Sfc) (dim size : ℕ) : Type 0 where
  pub at : ℕ → Point
  pub returns : (i : ℕ) → i < dim * dim → c.get_coords dim (after c i (c.reset dim)) ≡ some (at i)
  pub inside : (i : ℕ) → i < dim * dim → ((at i).x < size) × ((at i).y < size)
  pub distinct : (i j : ℕ) → i < dim * dim → j < dim * dim → at i ≡ at j → i ≡ j

pub after-suc : (c : Sfc) (n : ℕ) (s : c.State) → after c (suc n) s ≡ c.next (after c n s)
unfolding after
after-suc c zero s = refl
after-suc c (suc n) s = after-suc c n (c.next s)

pub minus-le : (a b : ℕ) → b ≤ a → a < 2 ^ 32 → minus a b ≡ a - b
minus-le a b h lt = omega arith
