-- ===== src/Sfctool/Picture/Pixels.antt =====
-- What the picture shows at the point of each string, and elsewhere.
use lockdoc_tools.Common.{
  ℕ, zero, suc, ◌+◌, ◌≤◌, ◌<◌, ◌≡◌, ◌≢◌, refl, sym, ◌∙◌, Option, none, some, [], ◌==◌, true, arith,
  Bool-cases, inl, inr,
}
use lockdoc_tools.Sfctool.Curve.{Point}
use lockdoc_tools.Sfctool.Colors.{Color}
use lockdoc_tools.Sfctool.Picture.{
  Image, set_pixel, same_point, pixel, fill_row, fill, fill_color, new_image, put,
}

-- The pixel of a point in an image.
abbrev pub shown : Image → Point → Option Color
shown image p = pixel p image.written

abbrev pub or_else : Option Color → Option Color → Option Color
or_else none o = o
or_else (some c) o = some c

same_point_refl : (p : Point) → same_point p p ≡ true
same_point_refl p = ground arith

point_eq : (p q : Point) → p.x ≡ q.x → p.y ≡ q.y → p ≡ q
point_eq p q e f = rw (sym e, sym f) refl

eq_of_same_point : (p q : Point) → same_point p q ≡ true → p ≡ q
eq_of_same_point p q h = point_eq p q (ground arith) (ground arith)

-- Filling.
module _ (c : Color) where
  fill_row-keeps :
      (n x y : ℕ) (image : Image) (p : Point)
      → shown image p ≡ some c
      → shown (fill_row c y n x image) p ≡ some c
  unfolding fill_row set_pixel pixel
  fill_row-keeps zero x y image p h = h
  fill_row-keeps (suc n) x y image p h =
      fill_row-keeps n (x + 1) y (set_pixel (record { x = x; y = y }) c image) p (ground arith)

  fill_row-sets :
      (n x y : ℕ) (image : Image) (p : Point)
      → p.y ≡ y
      → x ≤ p.x
      → p.x < x + n
      → shown (fill_row c y n x image) p ≡ some c
  unfolding fill_row set_pixel pixel
  fill_row-sets zero x y image p e le lt = absurd (omega arith)
  fill_row-sets (suc n) x y image p e le lt = elim (Bool-cases (x == p.x)) [
    | inl f ↦
        fill_row-keeps n (x + 1) y (set_pixel (record { x = x; y = y }) c image) p (ground arith)
    | inr f ↦
        fill_row-sets n (x + 1) y (set_pixel (record { x = x; y = y }) c image) p e (ground arith)
          (omega arith)
  ]

  fill_row-dim : (n x y : ℕ) (image : Image) → (fill_row c y n x image).dim ≡ image.dim
  unfolding fill_row set_pixel
  fill_row-dim zero x y image = refl
  fill_row-dim (suc n) x y image =
      fill_row-dim n (x + 1) y (set_pixel (record { x = x; y = y }) c image)

  fill-keeps :
      (n y : ℕ) (image : Image) (p : Point)
      → shown image p ≡ some c
      → shown (fill c n y image) p ≡ some c
  unfolding fill
  fill-keeps zero y image p h = h
  fill-keeps (suc n) y image p h =
      fill-keeps n (y + 1) (fill_row c y image.dim 0 image) p
        (fill_row-keeps image.dim 0 y image p h)

  fill-sets :
      (n y : ℕ) (image : Image) (p : Point)
      → y ≤ p.y
      → p.y < y + n
      → p.x < image.dim
      → shown (fill c n y image) p ≡ some c
  unfolding fill
  fill-sets zero y image p le lt h = absurd (omega arith)
  fill-sets (suc n) y image p le lt h = elim (Bool-cases (y == p.y)) [
    | inl f ↦
        fill-keeps n (y + 1) (fill_row c y image.dim 0 image) p
          (fill_row-sets image.dim 0 y image p (ground arith) (omega arith) (omega arith))
    | inr f ↦
        fill-sets n (y + 1) (fill_row c y image.dim 0 image) p (ground arith) (omega arith)
          (omega (arith, fill_row-dim image.dim 0 y image))
  ]

  fill-dim : (n y : ℕ) (image : Image) → (fill c n y image).dim ≡ image.dim
  unfolding fill
  fill-dim zero y image = refl
  fill-dim (suc n) y image =
      fill-dim n (y + 1) (fill_row c y image.dim 0 image) ∙ fill_row-dim image.dim 0 y image

pub new_image-shown :
    (dim : ℕ) (c : Color) (p : Point)
    → p.x < dim
    → p.y < dim
    → shown (new_image dim c) p ≡ some (fill_color c)
unfolding new_image
new_image-shown dim c p hx hy =
    fill-sets (fill_color c) dim 0 (record { dim = dim; written = [] }) p (omega arith)
      (omega arith) hx

pub new_image-dim : (dim : ℕ) (c : Color) → (new_image dim c).dim ≡ dim
unfolding new_image
new_image-dim dim c = fill-dim (fill_color c) dim 0 (record { dim = dim; written = [] })

-- One string.
pub put-shown :
    (p : Point) (o : Option Color) (image : Image)
    → shown (put p o image) p ≡ or_else o (shown image p)
unfolding set_pixel pixel
put-shown p none image = refl
put-shown p (some c) image = ground (arith, same_point_refl p)

pub put-others :
    (p q : Point) (o : Option Color) (image : Image)
    → p ≢ q
    → shown (put p o image) q ≡ shown image q
unfolding set_pixel pixel
put-others p q none image h = refl
put-others p q (some c) image h = elim (Bool-cases (same_point p q)) [
  | inl e ↦ absurd (h (eq_of_same_point p q e))
  | inr e ↦ rw e refl
]
