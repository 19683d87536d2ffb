-- ===== src/Bb2lines/Covers.antt =====
-- Which lines the loops over source lines put into a map.
use lockdoc_tools.Common.{
  ℕ, ◌≡◌, refl, ◌∙◌, Bool, false, ◌&&◌, ◌||◌, List, [], ◌∷◌, ◌++◌, ◌==◌, Text, text_eq, contains,
  arith,
}
use lockdoc_tools.Bb2lines.Table.{
  FileLines, insert_line, touch_file, has_line, has_line-insert_line, has_line-touch_file,
}
use lockdoc_tools.Bb2lines.Notes.{SourceLine, Notes, insert_lines, note_lines}
use lockdoc_tools.Bb2lines.Modes.{cover_lines, BlockRow, line_rows, block_rows}

-- Whether a line of a file is one of the source lines.
abbrev pub covers : List SourceLine → Text → ℕ → Bool
covers [] f n = false
covers (l ∷ ls) f n = (text_eq l.filename f && contains l.lines n) || covers ls f n

pub covers-append :
    (ks ls : List SourceLine) (f : Text) (n : ℕ)
    → covers (ks ++ ls) f n ≡ (covers ks f n || covers ls f n)
covers-append [] ls f n = refl
covers-append (k ∷ ks) ls f n = let rest = covers-append ks ls f n in ground (arith, rest)

has_line-insert_lines :
    (f g : Text) (ns : List ℕ) (k : ℕ) (m : FileLines)
    → has_line g k (insert_lines f ns m) ≡ ((text_eq f g && contains ns k) || has_line g k m)
unfolding insert_lines
has_line-insert_lines f g [] k m = ground arith
has_line-insert_lines f g (n ∷ ns) k m =
    let rest = has_line-insert_lines f g ns k (insert_line f n m) in
    let first = has_line-insert_line f g n k m in ground (arith, rest, first)

pub has_line-cover_lines :
    (g : Text) (k : ℕ) (ls : List SourceLine) (m : FileLines)
    → has_line g k (cover_lines ls m) ≡ (covers ls g k || has_line g k m)
unfolding cover_lines
has_line-cover_lines g k [] m = refl
has_line-cover_lines g k (l ∷ ls) m =
    let rest = has_line-cover_lines g k ls (insert_lines l.filename l.lines m) in
    let first = has_line-insert_lines l.filename g l.lines k m in ground (arith, rest, first)

pub coverable-note_lines :
    (g : Text) (k : ℕ) (ls : List SourceLine) (s : Notes)
    → has_line g k (note_lines ls s).coverable_lines
      ≡ (covers ls g k || has_line g k s.coverable_lines)
unfolding note_lines
coverable-note_lines g k [] s = refl
coverable-note_lines g k (l ∷ ls) s =
    let rest = coverable-note_lines g k ls (record s {
      covered_lines = touch_file l.filename s.covered_lines;
      coverable_lines = insert_lines l.filename l.lines s.coverable_lines;
    }) in
    let first = has_line-insert_lines l.filename g l.lines k s.coverable_lines in
    ground (arith, rest, first)

-- Reading notes covers nothing.
pub covered-note_lines :
    (g : Text) (k : ℕ) (ls : List SourceLine) (s : Notes)
    → has_line g k (note_lines ls s).covered_lines ≡ has_line g k s.covered_lines
unfolding note_lines
covered-note_lines g k [] s = refl
covered-note_lines g k (l ∷ ls) s =
    covered-note_lines g k ls (record s {
      covered_lines = touch_file l.filename s.covered_lines;
      coverable_lines = insert_lines l.filename l.lines s.coverable_lines;
    })
    ∙ has_line-touch_file l.filename g k s.covered_lines

pub blocks-note_lines :
    (ls : List SourceLine) (s : Notes) → (note_lines ls s).basic_blocks_map ≡ s.basic_blocks_map
unfolding note_lines
blocks-note_lines [] s = refl
blocks-note_lines (l ∷ ls) s = blocks-note_lines ls (record s {
  covered_lines = touch_file l.filename s.covered_lines;
  coverable_lines = insert_lines l.filename l.lines s.coverable_lines;
})

-- Whether a line of a file is printed.
abbrev pub printed : Text → ℕ → List BlockRow → Bool
printed f n [] = false
printed f n (r ∷ rs) = (text_eq r.file f && r.line == n) || printed f n rs

pub printed-append :
    (f : Text) (n : ℕ) (rs qs : List BlockRow)
    → printed f n (rs ++ qs) ≡ (printed f n rs || printed f n qs)
printed-append f n [] qs = refl
printed-append f n (r ∷ rs) qs = let rest = printed-append f n rs qs in ground (arith, rest)

printed-line_rows :
    (f : Text) (n a : ℕ) (g : Text) (ns : List ℕ)
    → printed f n (line_rows a g ns) ≡ (text_eq g f && contains ns n)
unfolding line_rows
printed-line_rows f n a g [] = ground arith
printed-line_rows f n a g (k ∷ ns) = let rest = printed-line_rows f n a g ns in ground (arith, rest)

pub printed-block_rows :
    (f : Text) (n a : ℕ) (ls : List SourceLine) → printed f n (block_rows a ls) ≡ covers ls f n
unfolding block_rows
printed-block_rows f n a [] = refl
printed-block_rows f n a (l ∷ ls) =
    let rest = printed-block_rows f n a ls in
    let first = printed-line_rows f n a l.filename l.lines in
    let both = printed-append f n (line_rows a l.filename l.lines) (block_rows a ls) in
    ground (arith, rest, first, both)
