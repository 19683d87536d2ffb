-- ===== src/Sfctool/Spiral.antt =====
-- The class SFC_Spiral of coverage/sfctool/sfctool.cc: from the middle, turning left at each corner.
pub mod Legs
pub mod Square
use lockdoc_tools.Common.{ℕ, zero, suc, ◌+◌, ◌/◌, ◌≡◌, refl, some, ◌==◌, if◌then◌else◌}
use lockdoc_tools.Sfctool.Curve.{wrap, minus, Point, Sfc}

-- The direction of the leg is in `state`, its length in `nsteps`.
pub record Position : Type 0 where
  pub x : ℕ
  pub y : ℕ
  pub state : ℕ
  pub nsteps : ℕ
  pub step : ℕ

-- `switch (state)`, the move.
unfoldable pub move : Position → Position
move p =
    if p.state == 0
    then record p { y = minus p.y 1 }
    else if p.state == 1
    then record p { x = minus p.x 1 }
    else if p.state == 2
    then record p { y = wrap (p.y + 1) }
    else if p.state == 3
    then record p { x = wrap (p.x + 1) }
    else p

-- The end of a leg. Every second leg is one step longer.
unfoldable pub turn : Position → Position
turn p =
    if p.state == 2
    then record p { nsteps = wrap (p.nsteps + 1) }
    else if p.state == 4
    then record p { nsteps = wrap (p.nsteps + 1); state = 0 }
    else p

unfoldable pub count_step : Position → Position
unfolding turn
count_step p =
    if p.step == p.nsteps then turn (record p { state = wrap (p.state + 1); step = 0 }) else p

unfoldable pub next : Position → Position
unfolding move count_step
next p = let q = move p in count_step (record q { step = wrap (q.step + 1) })

abbrev pub spiral : Sfc
spiral = record {
  State = Position;
  reset = λ dim. record { x = dim / 2; y = dim / 2; state = 0; nsteps = 1; step = 0 };
  get_coords = λ dim p. some (record { x = p.x; y = p.y });
  next = next;
}
