-- ===== src/Sfctool/Colors.antt =====
-- Color, loadmap and the pairing of --off-map, --on-map and --color in main of coverage/sfctool/sfctool.cc.
pub mod Pairing
use lockdoc_tools.Common.Try.{Try, ok, err, ◌>>=◌, or_fail}
use lockdoc_tools.Common.{
  ℕ, zero, suc, ◌%◌, ◌≡◌, Option, none, some, List, [], ◌∷◌, ◌==◌, if◌then◌else◌, Bool, true, false,
  ◌||◌, Text, text_eq, length,
}

-- How the program ends without a picture.
pub data Failure : Type 0 where
  -- `invalid_argument`, of set_color and of std::stoul
  invalid_color : Failure
  -- `ios_base::failure` and exit(1) on a file that cannot be opened
  cannot_open : Failure
  -- "more --off/on-map than --color parameters" and the reverse
  more_maps : Failure
  more_colors : Failure
  unknown_curve : Failure
  -- a loop that does not end
  endless : Failure

abbrev pub Result {ℓ} : Type ℓ → Type ℓ
Result A = Try Failure A

pub record Color : Type 0 where
  pub r : ℕ
  pub g : ℕ
  pub b : ℕ

-- The file system, and std::stoul to the base 16, `none` where it throws.
pub record Outside : Type 0 where
  pub lines_of : Text → Option (List Text)
  pub stoul : Text → Option ℕ

abbrev strip_hash : Text → Text
strip_hash [] = []
strip_hash (c ∷ s) = if c == b'#' then s else c ∷ s

-- One component, stored in a uint8_t.
abbrev component : Outside → ℕ → ℕ → Result ℕ
component o c d = do n ← or_fail invalid_color (o.stoul (c ∷ d ∷ [])); ok (n % 256)

abbrev six_digits : Outside → Text → Result Color
six_digits o (a ∷ b ∷ c ∷ d ∷ e ∷ f ∷ []) = do
  r ← component o a b
  g ← component o c d
  b ← component o e f
  ok (record { r = r; g = g; b = b })
six_digits o _ = err invalid_color

unfoldable pub set_color : Outside → Text → Result Color
set_color o s = six_digits o (strip_hash s)

-- std::map<string, Color>, the last assignment first.
abbrev pub ColorMap : Type 0
ColorMap = List (Text × Color)

unfoldable pub find_color : Text → ColorMap → Option Color
find_color s [] = none
find_color s ((t, c) ∷ m) = let rest = find_color s m in if text_eq t s then some c else rest

abbrev pub assign_lines : Color → List Text → ColorMap → ColorMap
assign_lines c [] m = m
assign_lines c (s ∷ ss) m = assign_lines c ss ((s, c) ∷ m)

unfoldable pub loadmap : Outside → Text → ColorMap → Color → Result ColorMap
loadmap o filename m color = do
  ss ← or_fail cannot_open (o.lines_of filename)
  ok (assign_lines color ss m)

-- One of the loops over --off-map and --on-map: the map, and the colors that are left.
unfoldable pub load_maps :
    Outside → List Text → List Text → ColorMap → Result (ColorMap × List Text)
unfolding loadmap set_color
load_maps o [] colors m = ok (m, colors)
load_maps o (file ∷ files) [] m = err more_maps
load_maps o (file ∷ files) (c ∷ colors) m = do
  color ← set_color o c
  n ← loadmap o file m color
  load_maps o files colors n

-- The test after both loops.
abbrev pub nothing_left : ColorMap × ColorMap → List Text → Result (ColorMap × ColorMap)
nothing_left maps [] = ok maps
nothing_left maps (c ∷ cs) = err more_colors

unfoldable pub load_all : Outside → List Text → List Text → List Text → Result (ColorMap × ColorMap)
unfolding load_maps
load_all o off_files on_files colors = do
  off ← load_maps o off_files colors []
  on ← load_maps o on_files off.1 []
  nothing_left (off.0, on.0) on.1
