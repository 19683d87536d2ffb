-- ===== src/Bb2lines/Totals.antt =====
-- The numbers that determine_coverage prints.
use lockdoc_tools.Common.{
  ℕ, ◌+◌, ◌≤◌, ◌≡◌, refl, sym, ap, false, none, some, List, [], ◌∷◌, if◌then◌else◌, ltb, Text,
  text_eq, text_eq_refl, eq_of_text_eq, length, arith, Bool-cases, inl, inr, All, subst,
}
use lockdoc_tools.Common.SortedSet.{Rising}
use lockdoc_tools.Bb2lines.Table.{FileLines, lookup, or_default, has_line}
use lockdoc_tools.Bb2lines.Notes.{Notes, Tag, no_notes, read_graph_files}
use lockdoc_tools.Bb2lines.Search.{Outside, Found, nothing_found, get_basic_block}
use lockdoc_tools.Bb2lines.Modes.{
  cover, cover_block, Coverage, coverage_of, coverage_rows, count_all_lines_in_file, is_covered,
  file_count, line_count, determine_coverage,
}
use lockdoc_tools.Bb2lines.Regular.{
  Distinct, Regular, All-lookup, length-subset, cover_block-Regular,
}
use lockdoc_tools.Bb2lines.Within.{Includes}
use lockdoc_tools.Bb2lines.Within.Reading.{read_graph_files-Noted}
use lockdoc_tools.Bb2lines.Within.Finding.{RunsThrough}
use lockdoc_tools.Bb2lines.Agree.{covered-Includes}

cover-Regular :
    (prefix : Text) (o : Outside) (notes : Notes) (as' : List ℕ) (m : FileLines) (s : Found)
    → Regular m
    → Regular (cover prefix o notes as' m s).0
unfolding cover
cover-Regular prefix o notes [] m s v = v
cover-Regular prefix o notes (a ∷ as') m s v =
    let r = get_basic_block prefix o a notes s in
    cover-Regular prefix o notes as' (cover_block r.0 m) r.1 (cover_block-Regular r.0 m v)

-- The set of a file, which is empty for a file that is not there.
abbrev set_of : Text → FileLines → List ℕ
set_of f m = or_default [] (lookup f m)

abbrev erase_file : Text → FileLines → FileLines
erase_file f [] = []
erase_file f ((k, v) ∷ m) = let rest = erase_file f m in if text_eq k f then m else (k, v) ∷ rest

module _ (w : List ℕ → ℕ) where
  abbrev weigh : FileLines → ℕ
  weigh [] = 0
  weigh ((f, s) ∷ m) = w s + weigh m

  weigh-erase_file :
      w [] ≡ 0 → (f : Text) (m : FileLines) → weigh m ≡ w (set_of f m) + weigh (erase_file f m)
  unfolding lookup
  weigh-erase_file z f [] = omega (arith, z)
  weigh-erase_file z f ((k, v) ∷ m) = elim (Bool-cases (text_eq k f)) [
    | inl e ↦ rw e refl
    | inr e ↦ let rest = weigh-erase_file z f m in rw e (omega (arith, rest))
  ]

lookup-erase_file :
    (f g : Text) (m : FileLines) → text_eq f g ≡ false → lookup g (erase_file f m) ≡ lookup g m
unfolding lookup
lookup-erase_file f g [] e = refl
lookup-erase_file f g ((k, v) ∷ m) e = elim (Bool-cases (text_eq k f)) [
  | inl p ↦ let q = subst (λ t. text_eq t g ≡ false) (sym (eq_of_text_eq k f p)) e in rw (p, q) refl
  | inr p ↦ rw p (ap (λ r. if text_eq k g then some v else r) (lookup-erase_file f g m e))
]

weigh-le :
    (w : List ℕ → ℕ) (m k : FileLines)
    → w [] ≡ 0
    → Distinct m
    → ((f : Text) → w (set_of f m) ≤ w (set_of f k))
    → weigh w m ≤ weigh w k
unfolding lookup
weigh-le w [] k z d h = omega arith
weigh-le w ((f, s) ∷ m) k z d h =
    let rest = weigh-le w m (erase_file f k) z d.1 others in
    let here : w s ≤ w (set_of f k) =
      subst (λ b. w (or_default [] (if b then some s else lookup f m)) ≤ w (set_of f k))
        (text_eq_refl f) (h f) in
    let whole = weigh-erase_file w z f k in omega (arith, rest, here, whole)
  where
    others : (g : Text) → w (set_of g m) ≤ w (set_of g (erase_file f k))
    others g = elim (Bool-cases (text_eq f g)) [
      | inl e ↦
          let q =
            ap (λ o. w (or_default [] o))
              (subst (λ t. lookup t m ≡ none) (eq_of_text_eq f g e) d.0) in
          omega (arith, q, z)
      | inr e ↦
          let q = ap (λ o. w (or_default [] o)) (lookup-erase_file f g k e) in
          let p =
            subst (λ b. w (or_default [] (if b then some s else lookup g m)) ≤ w (set_of g k)) e
              (h g) in
          omega (arith, p, q)
    ]

past_first :
    (f : Text) (s : List ℕ) (m : FileLines)
    → lookup f m ≡ none
    → (g : Text) (t : List ℕ) → lookup g m ≡ some t
    → lookup g ((f, s) ∷ m) ≡ some t
unfolding lookup
past_first f s m d g t e = elim (Bool-cases (text_eq f g)) [
  | inl p ↦ let q = subst (λ k. lookup k m ≡ none) (eq_of_text_eq f g p) d in absurd (cc (q, e))
  | inr p ↦ rw p e
]

-- What `lookup` finds for the files of a map is what stands there.
entries-lookup : (m : FileLines) → Distinct m → All (λ e. lookup e.0 m ≡ some e.1) m
unfolding lookup
entries-lookup [] d = tt
entries-lookup ((f, s) ∷ m) d = (first, All-later m (entries-lookup m d.1))
  where
    first : lookup f ((f, s) ∷ m) ≡ some s
    first = ap (λ b. if b then some s else lookup f m) (text_eq_refl f)

    All-later :
        (es : FileLines)
        → All (λ e. lookup e.0 m ≡ some e.1) es
        → All (λ e. lookup e.0 ((f, s) ∷ m) ≡ some e.1) es
    All-later [] a = tt
    All-later (e ∷ es) a = (past_first f s m d.0 e.0 e.1 a.0, All-later es a.1)

abbrev Smaller : FileLines → FileLines → Type 0
Smaller m k = (f : Text) → length (set_of f m) ≤ length (set_of f k)

Includes-Smaller : (m k : FileLines) → Regular m → Regular k → Includes k m → Smaller m k
unfolding has_line
Includes-Smaller m k v w i f =
    length-subset (set_of f k) (set_of f m) (All-lookup (Rising ltb) [] f k tt w.rising)
      (All-lookup (Rising ltb) [] f m tt v.rising) (i f)

-- No row, and neither of the sums, has more that is covered than there is.
pub record Bounded (c : Coverage) : Type 0 where
  pub each : All (λ r. length r.lines ≤ r.lines_total) c.rows
  pub files : c.file_count ≤ c.files_total
  pub lines : c.line_count ≤ c.lines_total

coverage_rows-All :
    (coverable m : FileLines)
    → All (λ e. length e.1 ≤ length (set_of e.0 coverable)) m
    → All (λ r. length r.lines ≤ r.lines_total) (coverage_rows coverable m)
unfolding coverage_rows count_all_lines_in_file
coverage_rows-All coverable [] a = tt
coverage_rows-All coverable ((f, s) ∷ m) a = (a.0, coverage_rows-All coverable m a.1)

entries-Smaller :
    (k m es : FileLines)
    → Smaller m k
    → All (λ e. lookup e.0 m ≡ some e.1) es
    → All (λ e. length e.1 ≤ length (set_of e.0 k)) es
entries-Smaller k m [] h a = tt
entries-Smaller k m ((f, s) ∷ es) h a = (
  subst (λ o. length (or_default [] o) ≤ length (set_of f k)) a.0 (h f),
  entries-Smaller k m es h a.1,
)

is_covered-le : (s t : List ℕ) → length s ≤ length t → is_covered s ≤ is_covered t
is_covered-le [] t l = omega arith
is_covered-le (x ∷ s) [] l = absurd (omega (arith, l))
is_covered-le (x ∷ s) (y ∷ t) l = omega arith

file_count-weigh : (m : FileLines) → file_count m ≡ weigh is_covered m
unfolding file_count
file_count-weigh [] = refl
file_count-weigh ((f, s) ∷ m) = ap (λ n. is_covered s + n) (file_count-weigh m)

line_count-weigh : (m : FileLines) → line_count m ≡ weigh length m
unfolding line_count
line_count-weigh [] = refl
line_count-weigh ((f, s) ∷ m) = ap (λ n. length s + n) (line_count-weigh m)

weigh_covered-length : (m : FileLines) → weigh is_covered m ≤ length m
weigh_covered-length [] = omega arith
weigh_covered-length ((f, []) ∷ m) = omega (arith, weigh_covered-length m)
weigh_covered-length ((f, n ∷ s) ∷ m) = omega (arith, weigh_covered-length m)

coverage_of-Bounded : (m k : FileLines) → Regular m → Smaller m k → Bounded (coverage_of m k)
coverage_of-Bounded m k v h = record {
  each = coverage_rows-All k m (entries-Smaller k m m h (entries-lookup m v.distinct));
  files =
      let a = file_count-weigh m in
      let b = weigh-le is_covered m k refl v.distinct (λ f. is_covered-le _ _ (h f)) in
      let c = weigh_covered-length k in omega (arith, a, b, c);
  lines =
      let a = line_count-weigh m in
      let b = weigh-le length m k refl v.distinct h in
      let c = line_count-weigh k in omega (arith, a, b, c);
}

-- After any note files have been read, and for any input: no row of determine_coverage has more covered lines than the
-- file has coverable ones, and the same holds of the sums of files and of lines, as long as a run through an unordered_map
-- meets its elements only.
pub determine_coverage-Bounded :
    (prefix : Text) (o : Outside) (files : List (List Tag)) (notes : Notes) (as' : List ℕ)
    → RunsThrough o
    → read_graph_files prefix files no_notes ≡ some notes
    → Bounded (determine_coverage prefix o notes as')
unfolding determine_coverage
determine_coverage-Bounded prefix o files notes as' t e =
    let v = read_graph_files-Noted prefix files notes e in
    let m = (cover prefix o notes as' notes.covered_lines nothing_found).0 in
    let r = cover-Regular prefix o notes as' notes.covered_lines nothing_found v.covered_regular in
    coverage_of-Bounded m notes.coverable_lines r (
      Includes-Smaller m notes.coverable_lines r v.coverable_regular
        (covered-Includes prefix o notes as' t v))
