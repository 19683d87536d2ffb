-- ===== src/Sfctool/Tests.antt =====
-- sfctool on concrete inputs.
use lockdoc_tools.Common.{
  ◌^◌, ◌≤◌, ℕ, ◌+◌, ◌≡◌, ◌≢◌, refl, none, some, List, [], ◌∷◌, ◌++◌, Text, text_eq, codes, length,
  arith, if◌then◌else◌,
}
use lockdoc_tools.Sfctool.Curve.{Point, FillsSquare, after}
use lockdoc_tools.Sfctool.Spiral.{spiral, next, move, count_step, turn}
use lockdoc_tools.Sfctool.Spiral.Square.{spiral-FillsSquare}
use lockdoc_tools.Sfctool.Hilbert.{hilbert, round_up}
use lockdoc_tools.Sfctool.Hilbert.Quadrants.{Adjacent}
use lockdoc_tools.Sfctool.Hilbert.Filling.{hilbert-FillsSquare, hilbert-Adjacent}
use lockdoc_tools.Common.Try.{ok, err}
use lockdoc_tools.Sfctool.Colors.{
  unknown_curve, Color, ColorMap, Outside, load_all, load_maps, loadmap, set_color, find_color,
}
use lockdoc_tools.Sfctool.Colors.Pairing.{
  Source, files_of, colors_of, listed, load_all-listed, load_all-counts,
}
use lockdoc_tools.Sfctool.Picture.{Image, Options, make_curve, make_picture, fill_color, chosen}
use lockdoc_tools.Sfctool.Picture.Shows.{Shows, make_picture-Shows}

spiral-FillsSquare_example : FillsSquare spiral 5 5
spiral-FillsSquare_example = spiral-FillsSquare 5 (omega arith)

spiral_start :
    spiral.get_coords 5 (after spiral 6 (spiral.reset 5)) ≡ some (record { x = 3; y = 3 })
unfolding after next move count_step turn
spiral_start = refl

hilbert-FillsSquare_example :
    (e : ℕ) × ((round_up 33 3 1 ≡ some (2 ^ e)) × ((3 ≤ 2 ^ e) × FillsSquare hilbert 3 (2 ^ e)))
hilbert-FillsSquare_example = hilbert-FillsSquare 3 (omega arith)

hilbert-Adjacent_example :
    (p : Point) × ((q : Point) × ((hilbert.get_coords 3 (after hilbert 4 (hilbert.reset 3))
          ≡ some p)
        × ((hilbert.get_coords 3 (after hilbert 5 (hilbert.reset 3)) ≡ some q) × Adjacent p q)))
hilbert-Adjacent_example = hilbert-Adjacent 3 (omega arith) 4 (omega arith)

rounded_side : round_up 33 3 1 ≡ some 4
unfolding round_up
rounded_side = refl

-- Three files and one color.
abbrev outside : Outside
outside = record {
  lines_of = λ f.
      if text_eq f (codes "domain")
      then some (codes "f" ∷ codes "g" ∷ codes "h" ∷ [])
      else if text_eq f (codes "input")
      then some (codes "g" ∷ [])
      else if text_eq f (codes "map")
      then some (codes "g" ∷ codes "h" ∷ [])
      else none;
  stoul = λ d.
      if text_eq d (codes "00") then some 0 else if text_eq d (codes "ff") then some 255 else none;
}

abbrev source : Text → Source
source c = record {
  file = codes "map";
  color = c;
  lines = codes "g" ∷ codes "h" ∷ [];
  value = record { r = 255; g = 0; b = 0 };
}

red_is_valid : set_color outside (codes "#ff0000") ≡ ok (record { r = 255; g = 0; b = 0 })
unfolding set_color
red_is_valid = refl

abbrev one_source : List Source
one_source = source (codes "#ff0000") ∷ []

load_all-listed_example :
    (a : ColorMap) × ((b : ColorMap) × ((load_all outside
            (files_of [])
            (files_of one_source)
            (colors_of [] ++ colors_of one_source)
          ≡ ok (a, b))
        × (((t : Text) → find_color t a ≡ listed [] t)
            × ((t : Text) → find_color t b ≡ listed one_source t))))
load_all-listed_example = load_all-listed outside [] one_source tt ((refl, red_is_valid), tt)

abbrev red : Color
red = record { r = 255; g = 0; b = 0 }

abbrev on_map : ColorMap
on_map = (codes "h", red) ∷ (codes "g", red) ∷ []

one_map : load_all outside [] (codes "map" ∷ []) (codes "#ff0000" ∷ []) ≡ ok ([], on_map)
unfolding load_all load_maps loadmap set_color
one_map = refl

load_all-counts_example :
    length (codes "#ff0000" ∷ []) ≡ length {A = Text} [] + length (codes "map" ∷ [])
load_all-counts_example =
    load_all-counts outside [] (codes "map" ∷ []) (codes "#ff0000" ∷ []) ([], on_map) one_map

abbrev options : Options
options = record {
  curve_type = some (codes "spiral");
  off_map = [];
  on_map = codes "map" ∷ [];
  color = codes "#ff0000" ∷ [];
  default_color = some (codes "00ff00");
  domain = codes "domain";
  input = codes "input";
}

abbrev green : Color
green = record { r = 0; g = 255; b = 0 }

green_is_valid : set_color outside (codes "00ff00") ≡ ok green
unfolding set_color
green_is_valid = refl

spiral_known : make_curve (some (codes "spiral")) 2 ≢ err unknown_curve
unfolding make_curve
spiral_known e = cc

abbrev domain : List Text
domain = codes "f" ∷ codes "g" ∷ codes "h" ∷ []

make_picture-Shows_example :
    (image : Image) × ((make_picture outside (λ n. 2) options ≡ ok image)
      × Shows (fill_color green) (chosen [] on_map (codes "g" ∷ [])) domain image)
make_picture-Shows_example =
    make_picture-Shows outside (λ n. 2) options domain (codes "g" ∷ []) green [] on_map
      (omega arith) (omega arith) green_is_valid refl refl one_map spiral_known
