-- ===== src/Sfctool/Picture/Drawing.antt =====
-- The last loop of main, along a curve that fills the square.
use lockdoc_tools.Common.{
  ℕ, zero, suc, ◌+◌, ◌*◌, ◌≤◌, ◌<◌, ◌≡◌, ◌≢◌, refl, ap, sym, subst, ◌∙◌, Option, none, some,
  some_inj, List, [], ◌∷◌, Text, length, get_elem?, get_elem?-lt, arith,
}
use lockdoc_tools.Sfctool.Curve.{Point, Sfc, FillsSquare, after, after-suc}
use lockdoc_tools.Common.Try.{ok}
use lockdoc_tools.Sfctool.Colors.{Color}
use lockdoc_tools.Sfctool.Picture.{Image, set_pixel, draw, put}
use lockdoc_tools.Sfctool.Picture.Pixels.{shown, or_else, put-shown, put-others}

module _ (c : Sfc) (dim size : ℕ) (F : FillsSquare c dim size) (color : Text → Option Color) where
  open F use {at, returns, inside, distinct}

  abbrev pub state : ℕ → c.State
  state j = after c j (c.reset dim)

  state-suc : (j : ℕ) → c.next (state j) ≡ state (suc j)
  state-suc j = sym (after-suc c j (c.reset dim))

  -- The strings from number `j` on, drawn.
  pub record Drawn (j : ℕ) (ts : List Text) (before after : Image) : Type 0 where
    pub same_dim : after.dim ≡ before.dim
    pub strings :
        (n i : ℕ) (t : Text)
        → n ≡ j + i
        → get_elem? ts i ≡ some t
        → shown after (at n) ≡ or_else (color t) (shown before (at n))
    pub others :
        (p : Point)
        → ((n : ℕ) → j ≤ n → n < j + length ts → at n ≢ p)
        → shown after p ≡ shown before p

  put-dim : (p : Point) (o : Option Color) (image : Image) → (put p o image).dim ≡ image.dim
  unfolding set_pixel
  put-dim p none image = refl
  put-dim p (some d) image = refl

  module _ (j : ℕ) (t : Text) (ts : List Text) (before after : Image)
      (h : j + suc (length ts) ≤ dim * dim)
      (d : Drawn (suc j) ts (put (at j) (color t) before) after) where
    apart : (n : ℕ) → suc j ≤ n → n < suc j + length ts → at n ≢ at j
    apart n le lt e = absurd (omega (arith, distinct n j (omega arith) (omega arith) e))

    strings_cons :
        (n i : ℕ) (u : Text)
        → n ≡ j + i
        → get_elem? (t ∷ ts) i ≡ some u
        → shown after (at n) ≡ or_else (color u) (shown before (at n))
    strings_cons n zero u q e =
        let m : j ≡ n = omega (arith, q) in
        let v : t ≡ u = some_inj t u e in
        subst (λ k. shown after (at k) ≡ or_else (color u) (shown before (at k))) m
          (subst (λ w. shown after (at j) ≡ or_else (color w) (shown before (at j))) v
            (d.others (at j) apart ∙ put-shown (at j) (color t) before))
    strings_cons n (suc i) u q e =
        let lt = get_elem?-lt ts i u e in
        d.strings n i u (omega (arith, q)) e
        ∙ ap (or_else (color u)) (
            put-others (at j) (at n) (color t) before
              (λ f. apart n (omega (arith, q)) (omega (arith, q, lt)) (sym f)))

    Drawn-cons : Drawn j (t ∷ ts) before after
    Drawn-cons = record {
      same_dim = d.same_dim ∙ put-dim (at j) (color t) before;
      strings = strings_cons;
      others = λ p no.
          d.others p (λ n le lt. no n (omega (arith, le)) (omega (arith, lt)))
          ∙ put-others (at j) p (color t) before (no j (omega arith) (omega arith));
    }

  pub draws :
      (ts : List Text) (j : ℕ) (image : Image)
      → j + length ts ≤ dim * dim
      → (out : Image) × ((draw c dim color ts (state j) image ≡ ok out) × Drawn j ts image out)
  unfolding draw
  draws [] j image h =
      (image, (refl, record { same_dim = refl; strings = λ n i t q e. cc; others = λ p no. refl }))
  draws (t ∷ ts) j image h =
      let r = draws ts (suc j) (put (at j) (color t) image) (omega arith) in
      (r.0, (rw (returns j (omega arith), state-suc j) r.1.0, Drawn-cons j t ts image r.0 h r.1.1))
