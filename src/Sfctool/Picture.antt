-- ===== src/Sfctool/Picture.antt =====
-- main of coverage/sfctool/sfctool.cc: the picture.
pub mod Pixels
pub mod Drawing
pub mod Shows
use lockdoc_tools.Common.{
  ℕ, zero, suc, ◌+◌, ◌*◌, ◌^◌, ◌%◌, ◌≡◌, Option, none, some, List, [], ◌∷◌, ◌==◌, ◌&&◌, ◌||◌,
  if◌then◌else◌, Bool, true, false, Text, text_eq, codes, length, contains_text,
}
use lockdoc_tools.Sfctool.Curve.{wrap, Point, Sfc}
use lockdoc_tools.Sfctool.Lines.{lines}
use lockdoc_tools.Sfctool.Spiral.{spiral}
use lockdoc_tools.Sfctool.Hilbert.{hilbert, round_up}
use lockdoc_tools.Common.Try.{ok, err, ◌>>=◌, or_fail}
use lockdoc_tools.Sfctool.Colors.{
  Failure, unknown_curve, endless, cannot_open, Result, Color, Outside, ColorMap, find_color,
  load_all, set_color,
}

-- png::image, by the pixels set so far, the last one first.
pub record Image : Type 0 where
  pub dim : ℕ
  pub written : List (Point × Color)

unfoldable pub set_pixel : Point → Color → Image → Image
set_pixel p c image = record image { written = (p, c) ∷ image.written }

abbrev pub same_point : Point → Point → Bool
same_point p q = p.x == q.x && p.y == q.y

unfoldable pub pixel : Point → List (Point × Color) → Option Color
pixel p [] = none
pixel p ((q, c) ∷ ws) = let rest = pixel p ws in if same_point q p then some c else rest

-- The loops that fill the image with the default color: `n` columns from `x`, `n` rows from `y`.
unfoldable pub fill_row : Color → ℕ → ℕ → ℕ → Image → Image
fill_row c y zero x image = image
fill_row c y (suc n) x image = fill_row c y n (x + 1) (set_pixel (record { x = x; y = y }) c image)

unfoldable pub fill : Color → ℕ → ℕ → Image → Image
fill c zero y image = image
fill c (suc n) y image = fill c n (y + 1) (fill_row c y image.dim 0 image)

-- The default color as the source passes it: red, blue, green.
abbrev pub fill_color : Color → Color
fill_color c = record { r = c.r; g = c.b; b = c.g }

unfoldable pub new_image : ℕ → Color → Image
unfolding fill
new_image dim c = fill (fill_color c) dim 0 (record { dim = dim; written = [] })

-- The color of a string, if its map has one.
unfoldable pub chosen : ColorMap → ColorMap → List Text → Text → Option Color
chosen off on input s = if contains_text s input then find_color s on else find_color s off

abbrev pub put : Point → Option Color → Image → Image
put p none image = image
put p (some c) image = set_pixel p c image

-- The last loop of main: the next point, the next string.
unfoldable pub draw :
    (c : Sfc) → ℕ → (Text → Option Color) → List Text → c.State → Image → Result Image
unfolding chosen set_pixel
draw c dim color [] s image = ok image
draw c dim color (t ∷ ts) s image = do
  p ← or_fail endless (c.get_coords dim s)
  draw c dim color ts (c.next s) (put p (color t) image)

-- The curve and the side of the image, for --curve-type and the side that the domain needs.
unfoldable pub make_curve : Option Text → ℕ → Result (Sfc × ℕ)
make_curve none dim = ok (lines, dim)
make_curve (some s) dim =
    if text_eq s (codes "lines")
    then ok (lines, dim)
    else if text_eq s (codes "spiral")
    then ok (spiral, dim)
    else if text_eq s (codes "hilbert")
    then (do n ← or_fail endless (round_up 33 dim 1); ok (hilbert, n))
    else err unknown_curve

-- What the command line holds.
pub record Options : Type 0 where
  pub curve_type : Option Text
  pub off_map : List Text
  pub on_map : List Text
  pub color : List Text
  pub default_color : Option Text
  pub domain : Text
  pub input : Text

abbrev white : Color
white = record { r = 255; g = 255; b = 255 }

abbrev pub default_of : Outside → Option Text → Result Color
default_of o none = ok white
default_of o (some s) = set_color o s

-- main, for a `ceil_sqrt` that stands for std::ceil of std::sqrt.
unfoldable pub make_picture : Outside → (ℕ → ℕ) → Options → Result Image
unfolding make_curve new_image load_all draw chosen
make_picture o ceil_sqrt opts = do
  default_color ← default_of o opts.default_color
  domain ← or_fail cannot_open (o.lines_of opts.domain)
  input ← or_fail cannot_open (o.lines_of opts.input)
  let dim = ceil_sqrt (length domain)
  curve ← make_curve opts.curve_type dim
  maps ← load_all o opts.off_map opts.on_map opts.color
  draw curve.0 dim (chosen maps.0 maps.1 input) domain (curve.0.reset dim)
      (new_image curve.1 default_color)
