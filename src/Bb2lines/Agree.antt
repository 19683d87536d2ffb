-- ===== src/Bb2lines/Agree.antt =====
-- The two modes of the program: what determine_coverage counts and convert_basic_blocks prints.
use lockdoc_tools.Common.{
  ℕ, ◌≡◌, refl, ◌||◌, Option, none, some, List, [], ◌∷◌, Text, arith, Bool-cases, inl, inr, All,
}
use lockdoc_tools.Bb2lines.Table.{FileLines, has_line}
use lockdoc_tools.Bb2lines.Notes.{BasicBlock, Notes, Tag, no_notes, read_graph_files}
use lockdoc_tools.Bb2lines.Search.{Outside, Found, nothing_found, get_basic_block, invalid_bb}
use lockdoc_tools.Bb2lines.Modes.{cover, cover_block, rows_of, convert, convert_basic_blocks}
use lockdoc_tools.Bb2lines.Covers.{
  covers, has_line-cover_lines, printed, printed-append, printed-block_rows,
}
use lockdoc_tools.Bb2lines.Within.{Within, Includes}
use lockdoc_tools.Bb2lines.Within.Placing.{Holds}
use lockdoc_tools.Bb2lines.Within.Reading.{Noted, read_graph_files-Noted}
use lockdoc_tools.Bb2lines.Within.Finding.{RunsThrough, get_basic_block-Good}

cover_block-printed :
    (f : Text) (n a : ℕ) (b : Option BasicBlock) (m : FileLines)
    → has_line f n (cover_block b m) ≡ (printed f n (rows_of a b) || has_line f n m)
cover_block-printed f n a none m = refl
cover_block-printed f n a (some b) m =
    let p = printed-block_rows f n a b.source_lines in
    let q = has_line-cover_lines f n b.source_lines m in ground (arith, p, q)

-- From the same state both loops find the same blocks.
cover-printed :
    (prefix : Text) (o : Outside) (notes : Notes) (f : Text) (n : ℕ) (as' : List ℕ) (m : FileLines)
    (s : Found)
    → has_line f n (cover prefix o notes as' m s).0
      ≡ (printed f n (convert prefix o notes as' s) || has_line f n m)
unfolding cover convert
cover-printed prefix o notes f n [] m s = refl
cover-printed prefix o notes f n (a ∷ as') m s =
    let r = get_basic_block prefix o a notes s in
    let rest = cover-printed prefix o notes f n as' (cover_block r.0 m) r.1 in
    let first = cover_block-printed f n a r.0 m in
    let both = printed-append f n (rows_of a r.0) (convert prefix o notes as' r.1) in
    ground (arith, rest, first, both)

-- After any note files have been read, for any input: a line of a file is covered, as determine_coverage
-- counts it, exactly if convert_basic_blocks prints it for one of the addresses.
pub cover-convert_basic_blocks :
    (prefix : Text) (o : Outside) (files : List (List Tag)) (notes : Notes) (as' : List ℕ)
    → read_graph_files prefix files no_notes ≡ some notes
    → (f : Text) (n : ℕ)
    → has_line f n (cover prefix o notes as' notes.covered_lines nothing_found).0
      ≡ printed f n (convert_basic_blocks prefix o notes as')
unfolding convert_basic_blocks
cover-convert_basic_blocks prefix o files notes as' e f n =
    let v = read_graph_files-Noted prefix files notes e in
    let u = v.uncovered f n in
    let w = cover-printed prefix o notes f n as' notes.covered_lines nothing_found in
    ground (arith, u, w)

cover_block-Includes :
    (k : FileLines) (b : Option BasicBlock) (m : FileLines)
    → Holds (λ c. Within k c.source_lines) b
    → Includes k m
    → Includes k (cover_block b m)
cover_block-Includes k none m h i = i
cover_block-Includes k (some b) m h i = λ f n e.
    let q = has_line-cover_lines f n b.source_lines m in
    elim (Bool-cases (covers b.source_lines f n)) [
      | inl p ↦ h f n p
      | inr p ↦ i f n (ground (arith, q, e, p))
    ]

invalid-Within : (k : FileLines) → Within k invalid_bb.source_lines
invalid-Within k f n e = cc

cover-Includes :
    (prefix : Text) (o : Outside) (notes : Notes) (as' : List ℕ) (m : FileLines) (s : Found)
    → RunsThrough o
    → Noted notes
    → All (λ e. Within notes.coverable_lines (e.1).source_lines) s.basic_blocks_addr_map
    → Includes notes.coverable_lines m
    → Includes notes.coverable_lines (cover prefix o notes as' m s).0
unfolding cover
cover-Includes prefix o notes [] m s t v w i = i
cover-Includes prefix o notes (a ∷ as') m s t v w i =
    let k = notes.coverable_lines in
    let r = get_basic_block prefix o a notes s in
    let g =
      get_basic_block-Good (λ b. Within k b.source_lines) (invalid-Within k) prefix o notes t
        v.blocks a s w in
    cover-Includes prefix o notes as' (cover_block r.0 m) r.1 t v g.1
      (cover_block-Includes k r.0 m g.0 i)

-- Only coverable lines are covered.
pub covered-Includes :
    (prefix : Text) (o : Outside) (notes : Notes) (as' : List ℕ)
    → RunsThrough o
    → Noted notes
    → Includes notes.coverable_lines (cover prefix o notes as' notes.covered_lines nothing_found).0
covered-Includes prefix o notes as' t v =
    cover-Includes prefix o notes as' notes.covered_lines nothing_found t v tt
      (λ f n e. let u = v.uncovered f n in absurd (cc (u, e)))
