-- ===== src/Sfctool/Picture/Shows.antt =====
-- The picture that main of coverage/sfctool/sfctool.cc writes, from the command line to the pixels.
use native.Mathlib.Nat.{lt_of_lt_of_le}
use lockdoc_tools.Common.{
  ◌^◌, ℕ, ◌*◌, ◌^◌, ◌≤◌, ◌<◌, ◌≡◌, ◌≢◌, ◌⊎◌, inl, inr, refl, ap, subst, ◌∙◌, Option, none, some,
  List, Text, length, get_elem?, get_elem?-lt, arith, Bool-cases, text_eq, codes,
}
use lockdoc_tools.Sfctool.Curve.{Point, Sfc, FillsSquare, after}
use lockdoc_tools.Sfctool.Lines.{lines, lines-FillsSquare}
use lockdoc_tools.Sfctool.Spiral.{spiral}
use lockdoc_tools.Sfctool.Spiral.Square.{spiral-FillsSquare}
use lockdoc_tools.Sfctool.Hilbert.{hilbert}
use lockdoc_tools.Sfctool.Hilbert.Filling.{hilbert-FillsSquare}
use lockdoc_tools.Common.Try.{ok, err}
use lockdoc_tools.Sfctool.Colors.{Result, unknown_curve, Color, ColorMap, Outside, load_all}
use lockdoc_tools.Sfctool.Picture.{
  Image, Options, make_curve, make_picture, default_of, fill_color, new_image, chosen,
}
use lockdoc_tools.Sfctool.Picture.Pixels.{shown, or_else, new_image-shown, new_image-dim}
use lockdoc_tools.Sfctool.Picture.Drawing.{Drawn, draws}

-- A curve and an image that it fits into.
record Fitting (dim : ℕ) (made : Result (Sfc × ℕ)) : Type 1 where
  curve : Sfc
  size : ℕ
  is_made : made ≡ ok (curve, size)
  fills : FillsSquare curve dim size

module _ (dim : ℕ) (b : dim ≤ 2 ^ 16) where
  make_curve-Fitting :
      (type : Option Text)
      → (make_curve type dim ≡ err unknown_curve) ⊎ Fitting dim (make_curve type dim)
  unfolding make_curve
  make_curve-Fitting none =
      inr (record { curve = lines; size = dim; is_made = refl; fills = lines-FillsSquare dim b })
  make_curve-Fitting (some s) = elim (Bool-cases (text_eq s (codes "lines"))) [
    | inl e ↦
        inr (record {
          curve = lines;
          size = dim;
          is_made = rw e refl;
          fills = lines-FillsSquare dim b;
        })
    | inr e ↦ elim (Bool-cases (text_eq s (codes "spiral"))) [
      | inl f ↦ inr (record {
        curve = spiral;
        size = dim;
        is_made = rw (e, f) refl;
        fills = spiral-FillsSquare dim b;
      })
      | inr f ↦ elim (Bool-cases (text_eq s (codes "hilbert"))) [
        | inl g ↦
            let h = hilbert-FillsSquare dim b in
            inr (record {
              curve = hilbert;
              size = 2 ^ h.0;
              is_made = rw (e, f, g, h.1.0) refl;
              fills = h.1.1.1;
            })
        | inr g ↦ inl (rw (e, f, g) refl)
      ]
    ]
  ]

abbrev pub or_color : Option Color → Color → Color
or_color none c = c
or_color (some d) c = d

-- Each string has a pixel of its own with its color, or the one of the filling; every other pixel has that of the filling.
pub record Shows (filling : Color) (color : Text → Option Color) (domain : List Text)
    (image : Image) : Type 0 where
  pub at : ℕ → Point
  pub inside : (i : ℕ) → i < length domain → ((at i).x < image.dim) × ((at i).y < image.dim)
  pub distinct : (i j : ℕ) → i < length domain → j < length domain → at i ≡ at j → i ≡ j
  pub strings :
      (i : ℕ) (t : Text)
      → get_elem? domain i ≡ some t
      → shown image (at i) ≡ some (or_color (color t) filling)
  pub others :
      (p : Point)
      → p.x < image.dim
      → p.y < image.dim
      → ((i : ℕ) → i < length domain → at i ≢ p)
      → shown image p ≡ some filling

or_else-some : (o : Option Color) (c : Color) → or_else o (some c) ≡ some (or_color o c)
or_else-some none c = refl
or_else-some (some d) c = refl

Drawn-Shows :
    (c : Sfc) (dim size : ℕ) (F : FillsSquare c dim size) (color : Text → Option Color)
    (domain : List Text) (fc : Color) (image : Image)
    → length domain ≤ dim * dim
    → Drawn c dim size F color 0 domain (new_image size fc) image
    → Shows (fill_color fc) color domain image
Drawn-Shows c dim size F color domain fc image h d =
    let e : image.dim ≡ size = d.same_dim ∙ new_image-dim size fc in
    record {
      at = F.at;
      inside = λ i lt. rw e (F.inside i (lt_of_lt_of_le lt h));
      distinct = λ i j hi hj. F.distinct i j (lt_of_lt_of_le hi h) (lt_of_lt_of_le hj h);
      strings = λ i t g.
          let r = F.inside i (lt_of_lt_of_le (get_elem?-lt domain i t g) h) in
          d.strings i i t (omega arith) g
          ∙ (ap (or_else (color t)) (new_image-shown size fc (F.at i) r.0 r.1)
              ∙ or_else-some (color t) (fill_color fc));
      others = λ p hx hy no.
          d.others p (λ n le lt. no n (omega (arith, lt)))
          ∙ new_image-shown size fc p (subst (λ n. p.x < n) e hx) (subst (λ n. p.y < n) e hy);
    }

module _ (o : Outside) (ceil_sqrt : ℕ → ℕ) (opts : Options) (domain input : List Text)
    (default_color : Color) (off on : ColorMap) where
  -- If the files can be read, the colors are valid and as many as the maps, the curve type is known, and std::ceil(std::sqrt(n)) is a
  -- side whose square holds the domain and at most 2^16, then the program ends with an image in which each string of the domain has a pixel of its own, of its color or
  -- else of the filling, and every other pixel has the color of the filling.
  pub make_picture-Shows :
      length domain ≤ ceil_sqrt (length domain) * ceil_sqrt (length domain)
      → ceil_sqrt (length domain) ≤ 2 ^ 16
      → default_of o opts.default_color ≡ ok default_color
      → o.lines_of opts.domain ≡ some domain
      → o.lines_of opts.input ≡ some input
      → load_all o opts.off_map opts.on_map opts.color ≡ ok (off, on)
      → make_curve opts.curve_type (ceil_sqrt (length domain)) ≢ err unknown_curve
      → (image : Image) × ((make_picture o ceil_sqrt opts ≡ ok image)
          × Shows (fill_color default_color) (chosen off on input) domain image)
  unfolding make_picture after
  make_picture-Shows h b dc ds is ms known =
      elim (make_curve-Fitting (ceil_sqrt (length domain)) b opts.curve_type) [
        | inl e ↦ absurd (known e)
        | inr f ↦
            let r =
              draws f.curve (ceil_sqrt (length domain)) f.size f.fills (chosen off on input) domain
                0 (new_image f.size default_color) (omega (arith, h)) in
            (
              r.0,
              (
                rw (dc, ds, is, f.is_made, ms) r.1.0,
                Drawn-Shows f.curve (ceil_sqrt (length domain)) f.size f.fills (chosen off on input)
                    domain default_color r.0 h r.1.1,
              ),
            )
      ]
