-- ===== src/Sfctool/Colors/Pairing.antt =====
-- Which color a string gets from --off-map, --on-map and --color of coverage/sfctool/sfctool.cc.
use lockdoc_tools.Common.{
  ◌+◌, ◌≡◌, refl, ap, sym, ◌∙◌, Option, none, some, List, [], ◌∷◌, ◌++◌, Text, length, arith,
  Bool-cases, inl, inr, if◌then◌else◌, contains_text, append-nil,
}
use lockdoc_tools.Common.Try.{ok, bind-ok}
use lockdoc_tools.Sfctool.Colors.{
  Color, Outside, ColorMap, set_color, find_color, assign_lines, loadmap, load_maps, load_all,
  nothing_left,
}

abbrev pub first_of : Option Color → Option Color → Option Color
first_of none o = o
first_of (some c) o = some c

-- Each file with its color, both read.
pub record Source : Type 0 where
  pub file : Text
  pub color : Text
  pub lines : List Text
  pub value : Color

abbrev pub files_of : List Source → List Text
files_of [] = []
files_of (s ∷ ss) = s.file ∷ files_of ss

abbrev pub colors_of : List Source → List Text
colors_of [] = []
colors_of (s ∷ ss) = s.color ∷ colors_of ss

abbrev pub Read : Outside → List Source → Type 0
Read o [] = Unit
Read o (s ∷ ss) =
    ((o.lines_of s.file ≡ some s.lines) × (set_color o s.color ≡ ok s.value)) × Read o ss

-- The color of the last file that lists the string.
abbrev pub listed : List Source → Text → Option Color
listed [] t = none
listed (s ∷ ss) t = first_of (listed ss t) (if contains_text t s.lines then some s.value else none)

first_of-none : (a : Option Color) → first_of a none ≡ a
first_of-none none = refl
first_of-none (some a) = refl

first_of_assoc : (a b c : Option Color) → first_of (first_of a b) c ≡ first_of a (first_of b c)
first_of_assoc none b c = refl
first_of_assoc (some a) b c = refl

find_color-assign_lines :
    (c : Color) (ss : List Text) (m : ColorMap) (t : Text)
    → find_color t (assign_lines c ss m) ≡ (if contains_text t ss then some c else find_color t m)
unfolding find_color
find_color-assign_lines c [] m t = refl
find_color-assign_lines c (s ∷ ss) m t =
    let rest = find_color-assign_lines c ss ((s, c) ∷ m) t in
    elim (Bool-cases (contains_text t ss)) [
      | inl e ↦ ground (arith, rest, e)
      | inr e ↦ ground (arith, rest, e)
    ]

listed-cons :
    (s : Source) (ss : List Source) (m : ColorMap) (t : Text)
    → first_of (listed ss t) (find_color t (assign_lines s.value s.lines m))
      ≡ first_of (listed (s ∷ ss) t) (find_color t m)
listed-cons s ss m t = elim (Bool-cases (contains_text t s.lines)) [
  | inl e ↦
      rw (find_color-assign_lines s.value s.lines m t, e)
        (sym (first_of_assoc (listed ss t) (some s.value) (find_color t m)))
  | inr e ↦
      rw (find_color-assign_lines s.value s.lines m t, e)
        (sym (first_of_assoc (listed ss t) none (find_color t m)))
]

load_maps-listed :
    (o : Outside) (ss : List Source) (rest : List Text) (m : ColorMap)
    → Read o ss
    → (out : ColorMap) × ((load_maps o (files_of ss) (colors_of ss ++ rest) m ≡ ok (out, rest))
        × ((t : Text) → find_color t out ≡ first_of (listed ss t) (find_color t m)))
unfolding load_maps loadmap
load_maps-listed o [] rest m h = (m, (refl, λ t. refl))
load_maps-listed o (s ∷ ss) rest m h =
    let r = load_maps-listed o ss rest (assign_lines s.value s.lines m) h.1 in
    (r.0, (rw (h.0.1, h.0.0) r.1.0, λ t. r.1.1 t ∙ listed-cons s ss m t))

-- If all files can be read and all colors are valid, the colors go first to the --off-map files, then to the --on-map files, each in their order, and
-- a string gets the color of the last file that lists it.
pub load_all-listed :
    (o : Outside) (off on : List Source)
    → Read o off
    → Read o on
    → (a : ColorMap) × ((b : ColorMap) × ((load_all o
              (files_of off)
              (files_of on)
              (colors_of off ++ colors_of on)
            ≡ ok (a, b))
          × (((t : Text) → find_color t a ≡ listed off t)
              × ((t : Text) → find_color t b ≡ listed on t))))
unfolding load_all find_color
load_all-listed o off on h k =
    let r = load_maps-listed o off (colors_of on) [] h in
    let s = load_maps-listed o on [] [] k in
    (
      r.0,
      (
        s.0,
        (
          rw
              (
                r.1.0,
                ap (λ cs. load_maps o (files_of on) cs []) (sym (append-nil (colors_of on)))
                    ∙ s.1.0,
              )
              refl,
          (λ t. r.1.1 t ∙ first_of-none (listed off t), λ t. s.1.1 t ∙ first_of-none (listed on t)),
        ),
      ),
    )

load_maps-counts :
    (o : Outside) (files colors : List Text) (m : ColorMap) (out : ColorMap) (rest : List Text)
    → load_maps o files colors m ≡ ok (out, rest)
    → length colors ≡ length files + length rest
unfolding load_maps
load_maps-counts o [] colors m out rest e = let p : colors ≡ rest = cc in ap length p ∙ omega arith
load_maps-counts o (f ∷ fs) [] m out rest e = cc
load_maps-counts o (f ∷ fs) (c ∷ cs) m out rest e =
    let a = bind-ok (set_color o c) _ (out, rest) e in
    let b = bind-ok (loadmap o f m a.0) _ (out, rest) a.1.1 in
    omega (arith, load_maps-counts o fs cs b.0 out rest b.1.1)

all_used : (cs : List Text) (m n : ColorMap × ColorMap) → nothing_left m cs ≡ ok n → length cs ≡ 0
all_used [] m n e = refl
all_used (c ∷ cs) m n e = cc

-- The maps are only made if there are as many colors as files: with fewer or more the program fails.
pub load_all-counts :
    (o : Outside) (off_files on_files colors : List Text) (maps : ColorMap × ColorMap)
    → load_all o off_files on_files colors ≡ ok maps
    → length colors ≡ length off_files + length on_files
unfolding load_all
load_all-counts o off_files on_files colors maps e =
    let a = bind-ok (load_maps o off_files colors []) _ maps e in
    let b = bind-ok (load_maps o on_files a.0.1 []) _ maps a.1.1 in
    omega (
      arith,
      load_maps-counts o off_files colors [] a.0.0 a.0.1 a.1.0,
      load_maps-counts o on_files a.0.1 [] b.0.0 b.0.1 b.1.0,
      all_used b.0.1 (a.0.0, b.0.0) maps b.1.1,
    )
