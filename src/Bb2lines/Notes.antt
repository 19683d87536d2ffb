-- ===== src/Bb2lines/Notes.antt =====
-- read_graph_file of coverage/bb2lines/main.cpp: the basic blocks of the note files. What the calls
-- of the gcov library read is given as a list of tags; functions_map, which nothing uses, is left out.
use lockdoc_tools.Common.{
  ℕ, ◌+◌, Bool, true, false, ◌&&◌, Option, none, some, List, [], ◌∷◌, ◌++◌, if◌then◌else◌, ltb,
  ◌==◌, Text,
}
use lockdoc_tools.Bb2lines.Table.{FileLines, lookup, alter, insert_line, touch_file, or_default}

-- struct source_line
pub record SourceLine : Type 0 where
  pub filename : Text
  pub lines : List ℕ

-- struct basic_block
pub record BasicBlock : Type 0 where
  pub blockno : ℕ
  pub source_lines : List SourceLine
  pub is_valid : Bool

-- `none` is the front of an empty vector.
abbrev front_line : List ℕ → Option ℕ
front_line [] = none
front_line (n ∷ ns) = some n

abbrev pub get_start_line : List SourceLine → Option ℕ
get_start_line [] = none
get_start_line (l ∷ ls) = front_line l.lines

abbrev pub get_filename : List SourceLine → Option Text
get_filename [] = none
get_filename (l ∷ ls) = some l.filename

-- A std::set of blocks, which are in the order of their start lines: each with its start line.
abbrev pub BlockSet : Type 0
BlockSet = List (ℕ × BasicBlock)

unfoldable pub find_block : ℕ → BlockSet → Option BasicBlock
find_block n [] = none
find_block n ((k, b) ∷ s) = let rest = find_block n s in if k == n then some b else rest

unfoldable pub erase_block : ℕ → BlockSet → BlockSet
erase_block n [] = []
erase_block n ((k, b) ∷ s) = let rest = erase_block n s in if k == n then s else (k, b) ∷ rest

-- A block whose start line is there already is not inserted.
unfoldable pub insert_block : ℕ → BasicBlock → BlockSet → BlockSet
insert_block n b [] = (n, b) ∷ []
insert_block n b ((k, c) ∷ s) =
    let rest = insert_block n b s in
    if ltb n k then (n, b) ∷ (k, c) ∷ s else if ltb k n then (k, c) ∷ rest else (k, c) ∷ s

-- The global variables that the note files fill, and the two counters of their reading.
pub record Notes : Type 0 where
  pub basic_blocks_map : List (Text × BlockSet)
  pub covered_lines : FileLines
  pub coverable_lines : FileLines
  pub bb_read_count : ℕ
  pub bb_is_already_in_bb_map_count : ℕ

abbrev pub no_notes : Notes
no_notes = record {
  basic_blocks_map = [];
  covered_lines = [];
  coverable_lines = [];
  bb_read_count = 0;
  bb_is_already_in_bb_map_count = 0;
}

-- What one turn of the inner loop reads: a line number, which is not 0, or 0 and then a name.
pub data LineItem : Type 0 where
  line : ℕ → LineItem
  source : Text → LineItem

-- source_lines.back().lines.push_back(n)
unfoldable pub push_line : ℕ → List SourceLine → Option (List SourceLine)
push_line n [] = none
push_line n (l ∷ []) = some (record { filename = l.filename; lines = l.lines ++ (n ∷ []) } ∷ [])
push_line n (l ∷ k ∷ ls) = elim (push_line n (k ∷ ls)) [ none ↦ none | some rest ↦ some (l ∷ rest) ]

-- The inner loop, which ends with a name that is missing.
unfoldable pub read_items : List LineItem → List SourceLine → Option (List SourceLine)
unfolding push_line
read_items [] ls = some ls
read_items (line n ∷ is) ls = elim (push_line n ls) [ none ↦ none | some more ↦ read_items is more ]
read_items (source f ∷ is) ls = read_items is (ls ++ (record { filename = f; lines = [] } ∷ []))

unfoldable pub insert_lines : Text → List ℕ → FileLines → FileLines
unfolding insert_line
insert_lines f [] m = m
insert_lines f (n ∷ ns) m = insert_lines f ns (insert_line f n m)

-- The loop over the source lines of a new block.
unfoldable pub note_lines : List SourceLine → Notes → Notes
unfolding touch_file insert_lines
note_lines [] s = s
note_lines (l ∷ ls) s = note_lines ls (record s {
  covered_lines = touch_file l.filename s.covered_lines;
  coverable_lines = insert_lines l.filename l.lines s.coverable_lines;
})

-- A block is put in the place of one with the same start line, whose lines it takes over.
abbrev pub merged : BasicBlock → Option BasicBlock → BasicBlock
merged b none = b
merged b (some c) = record b { source_lines = b.source_lines ++ c.source_lines }

abbrev pub already : Option BasicBlock → ℕ
already none = 0
already (some c) = 1

unfoldable pub place_block : Text → ℕ → BasicBlock → Notes → Notes
unfolding lookup alter find_block erase_block insert_block
place_block f n b s =
    let old = find_block n (or_default [] (lookup f s.basic_blocks_map)) in
    record s {
      basic_blocks_map =
          alter [] (λ set. insert_block n (merged b old) (erase_block n set)) f s.basic_blocks_map;
      bb_is_already_in_bb_map_count = s.bb_is_already_in_bb_map_count + already old;
    }

-- A block after it has been read. `none` is undefined behaviour: a block without a file, or without
-- a line. In the source the second is undefined from the first comparison with another block of the
-- file on; here it is so at once.
unfoldable pub add_block : Text → BasicBlock → Notes → Option Notes
unfolding note_lines place_block
add_block prefix b s = elim (get_filename b.source_lines) [
  | none ↦ none
  | some f ↦ elim (get_start_line b.source_lines) [
    | none ↦ none
    | some n ↦ some (
        place_block (prefix ++ f) n b
          (note_lines b.source_lines (record s { bb_read_count = s.bb_read_count + 1 })))
  ]
]

-- What a turn of the outer loop reads: a function with its name and source, the lines of a block, or
-- another tag, which may belong to the function before it.
pub data Tag : Type 0 where
  function : Option Text → Option Text → Tag
  block : ℕ → List LineItem → Tag
  other : Bool → Tag

abbrev pub both_given : Option Text → Option Text → Bool
both_given (some name) (some src) = true
both_given none src = false
both_given (some name) none = false

-- The outer loop; the first argument says whether `fn` is set. A block belongs to a function tag, so that one
-- without a function is passed over.
unfoldable pub read_graph_file : Text → Bool → List Tag → Notes → Option Notes
unfolding read_items add_block
read_graph_file prefix fn [] s = some s
read_graph_file prefix fn (function name src ∷ ts) s =
    read_graph_file prefix (both_given name src) ts s
read_graph_file prefix true (block number is ∷ ts) s = elim (read_items is []) [
  | none ↦ none
  | some ls ↦
      elim (add_block prefix (record { blockno = number; source_lines = ls; is_valid = true }) s) [
        | none ↦ none
        | some t ↦ read_graph_file prefix true ts t
      ]
]
read_graph_file prefix false (block number is ∷ ts) s = read_graph_file prefix false ts s
read_graph_file prefix fn (other sub ∷ ts) s = read_graph_file prefix (fn && sub) ts s

-- main, the loop over the note files
unfoldable pub read_graph_files : Text → List (List Tag) → Notes → Option Notes
unfolding read_graph_file
read_graph_files prefix [] s = some s
read_graph_files prefix (f ∷ fs) s = elim (read_graph_file prefix false f s) [
  | none ↦ none
  | some t ↦ read_graph_files prefix fs t
]
