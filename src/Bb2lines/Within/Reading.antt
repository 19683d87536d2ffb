-- ===== src/Bb2lines/Within/Reading.antt =====
-- The note files: the lines of their blocks, and the order of the sets.
use lockdoc_tools.Common.{
  ℕ, ◌+◌, ◌≡◌, refl, sym, ◌∙◌, Bool, true, false, ◌&&◌, Option, none, some, List, [], ◌∷◌, ◌++◌,
  Text, arith, Option-cases, inl, inr, All, subst,
}
use lockdoc_tools.Bb2lines.Table.{FileLines, lookup, has_line, touch_file}
use lockdoc_tools.Bb2lines.Notes.{
  SourceLine, BasicBlock, BlockSet, Notes, no_notes, Tag, function, block, other, insert_lines,
  note_lines, place_block, add_block, get_filename, get_start_line, read_items, read_graph_file,
  read_graph_files, both_given,
}
use lockdoc_tools.Bb2lines.Covers.{coverable-note_lines, covered-note_lines, blocks-note_lines}
use lockdoc_tools.Bb2lines.Regular.{Regular, touch_file-Regular, insert_lines-Regular}
use lockdoc_tools.Bb2lines.Ordered.{Ordered}
use lockdoc_tools.Bb2lines.Within.Placing.{
  place_block-Within, place_block-Ordered, place_block-valid,
}
use lockdoc_tools.Bb2lines.Within.{Within, SetWithin, MapWithin, Includes}

-- What holds after any note files have been read.
pub record Noted (s : Notes) : Type 0 where
  pub blocks : MapWithin s.coverable_lines s.basic_blocks_map
  pub uncovered : (f : Text) (n : ℕ) → has_line f n s.covered_lines ≡ false
  pub ordered : All (λ e. Ordered e.1) s.basic_blocks_map
  pub valid : All (λ e. All (λ d. (d.1).is_valid ≡ true) e.1) s.basic_blocks_map
  pub covered_regular : Regular s.covered_lines
  pub coverable_regular : Regular s.coverable_lines

Within-Includes :
    (m k : FileLines) (ls : List SourceLine) → Includes m k → Within k ls → Within m ls
Within-Includes m k ls i w = λ f n e. i f n (w f n e)

SetWithin-Includes : (m k : FileLines) (s : BlockSet) → Includes m k → SetWithin k s → SetWithin m s
SetWithin-Includes m k [] i w = tt
SetWithin-Includes m k (e ∷ s) i w =
    (Within-Includes m k (e.1).source_lines i w.0, SetWithin-Includes m k s i w.1)

MapWithin-Includes :
    (m k : FileLines) (b : List (Text × BlockSet)) → Includes m k → MapWithin k b → MapWithin m b
MapWithin-Includes m k [] i w = tt
MapWithin-Includes m k (e ∷ b) i w =
    (SetWithin-Includes m k e.1 i w.0, MapWithin-Includes m k b i w.1)

note_lines-Regular :
    (ls : List SourceLine) (s : Notes)
    → Regular s.covered_lines
    → Regular s.coverable_lines
    → Regular (note_lines ls s).covered_lines × Regular (note_lines ls s).coverable_lines
unfolding note_lines
note_lines-Regular [] s v w = (v, w)
note_lines-Regular (l ∷ ls) s v w =
    note_lines-Regular ls
      (record s {
        covered_lines = touch_file l.filename s.covered_lines;
        coverable_lines = insert_lines l.filename l.lines s.coverable_lines;
      })
      (touch_file-Regular l.filename s.covered_lines v)
      (insert_lines-Regular l.filename l.lines s.coverable_lines w)

note_lines-Noted :
    (ls : List SourceLine) (s : Notes)
    → Noted s
    → Noted (note_lines ls s) × Within (note_lines ls s).coverable_lines ls
note_lines-Noted ls s v = (
  record {
    blocks = subst (MapWithin (note_lines ls s).coverable_lines) (sym (blocks-note_lines ls s)) (
        MapWithin-Includes (note_lines ls s).coverable_lines s.coverable_lines s.basic_blocks_map
          (λ f n e. let q = coverable-note_lines f n ls s in ground (arith, q, e)) v.blocks);
    uncovered = λ f n. covered-note_lines f n ls s ∙ v.uncovered f n;
    ordered = subst (All (λ e. Ordered e.1)) (sym (blocks-note_lines ls s)) v.ordered;
    valid =
        subst (All (λ e. All (λ d. (d.1).is_valid ≡ true) e.1)) (sym (blocks-note_lines ls s))
          v.valid;
    covered_regular = (note_lines-Regular ls s v.covered_regular v.coverable_regular).0;
    coverable_regular = (note_lines-Regular ls s v.covered_regular v.coverable_regular).1;
  },
  λ f n e. let q = coverable-note_lines f n ls s in ground (arith, q, e),
)

abbrev StaysNoted : Option Notes → Type 0
StaysNoted none = Unit
StaysNoted (some s) = Noted s

add_block-Noted :
    (prefix : Text) (b : BasicBlock) (s : Notes)
    → b.is_valid ≡ true
    → Noted s
    → StaysNoted (add_block prefix b s)
unfolding add_block place_block
add_block-Noted prefix b s w v = elim (Option-cases (get_filename b.source_lines)) [
  | inl e ↦ rw (e, add_block) tt
  | inr (f, e) ↦ elim (Option-cases (get_start_line b.source_lines)) [
    | inl p ↦ rw (e, p, add_block) tt
    | inr (n, p) ↦
        let t : Notes = record s { bb_read_count = s.bb_read_count + 1 } in
        let r = note_lines-Noted b.source_lines t (record {
          blocks = v.blocks;
          uncovered = v.uncovered;
          ordered = v.ordered;
          valid = v.valid;
          covered_regular = v.covered_regular;
          coverable_regular = v.coverable_regular;
        }) in
        rw (e, p, add_block)
          (record {
            blocks =
                place_block-Within (prefix ++ f) n b (note_lines b.source_lines t) r.1 (r.0).blocks;
            uncovered = (r.0).uncovered;
            ordered =
                place_block-Ordered (prefix ++ f) n b (note_lines b.source_lines t) p (r.0).ordered;
            valid = place_block-valid (prefix ++ f) n b (note_lines b.source_lines t) w (r.0).valid;
            covered_regular = (r.0).covered_regular;
            coverable_regular = (r.0).coverable_regular;
          })
  ]
]

read_graph_file-Noted :
    (prefix : Text) (fn : Bool) (ts : List Tag) (s : Notes)
    → Noted s
    → StaysNoted (read_graph_file prefix fn ts s)
unfolding read_graph_file
read_graph_file-Noted prefix fn [] s v = v
read_graph_file-Noted prefix fn (function name src ∷ ts) s v =
    read_graph_file-Noted prefix (both_given name src) ts s v
read_graph_file-Noted prefix true (block number is ∷ ts) s v =
    elim (Option-cases (read_items is [])) [
      | inl e ↦ rw (e, read_graph_file) tt
      | inr (ls, e) ↦
          let b : BasicBlock = record { blockno = number; source_lines = ls; is_valid = true } in
          let w = add_block-Noted prefix b s refl v in
          elim (Option-cases (add_block prefix b s)) [
            | inl p ↦ rw (e, p, read_graph_file) tt
            | inr (t, p) ↦
                rw (e, p, read_graph_file)
                  (read_graph_file-Noted prefix true ts t (subst StaysNoted p w))
          ]
    ]
read_graph_file-Noted prefix false (block number is ∷ ts) s v =
    read_graph_file-Noted prefix false ts s v
read_graph_file-Noted prefix fn (other sub ∷ ts) s v =
    read_graph_file-Noted prefix (fn && sub) ts s v

read_graph_files-StaysNoted :
    (prefix : Text) (fs : List (List Tag)) (s : Notes)
    → Noted s
    → StaysNoted (read_graph_files prefix fs s)
unfolding read_graph_files
read_graph_files-StaysNoted prefix [] s v = v
read_graph_files-StaysNoted prefix (f ∷ fs) s v =
    let w = read_graph_file-Noted prefix false f s v in
    elim (Option-cases (read_graph_file prefix false f s)) [
      | inl p ↦ rw (p, read_graph_files) tt
      | inr (t, p) ↦
          rw (p, read_graph_files) (read_graph_files-StaysNoted prefix fs t (subst StaysNoted p w))
    ]

no_notes-Noted : Noted no_notes
unfolding has_line lookup
no_notes-Noted = record {
  blocks = tt;
  uncovered = λ f n. refl;
  ordered = tt;
  valid = tt;
  covered_regular = record { distinct = tt; rising = tt };
  coverable_regular = record { distinct = tt; rising = tt };
}

pub read_graph_files-Noted :
    (prefix : Text) (fs : List (List Tag)) (s : Notes)
    → read_graph_files prefix fs no_notes ≡ some s
    → Noted s
read_graph_files-Noted prefix fs s e =
    subst StaysNoted e (read_graph_files-StaysNoted prefix fs no_notes no_notes-Noted)
