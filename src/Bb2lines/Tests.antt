-- ===== src/Bb2lines/Tests.antt =====
-- bb2lines on two note files.
use lockdoc_tools.Common.{
  ℕ, ◌+◌, ◌≡◌, refl, true, false, none, some, List, [], ◌∷◌, Text, codes, if◌then◌else◌, ◌==◌,
}
use lockdoc_tools.Common.SortedSet.{insert}
use lockdoc_tools.Bb2lines.Table.{lookup, alter, insert_line, touch_file, has_line}
use lockdoc_tools.Bb2lines.Notes.{
  Notes, BasicBlock, BlockSet, Tag, function, block, other, line, source, no_notes, find_block,
  erase_block, insert_block, push_line, read_items, insert_lines, note_lines, place_block,
  add_block, read_graph_file, read_graph_files,
}
use lockdoc_tools.Bb2lines.Search.{
  Outside, nothing_found, find_addr, is_line_and_file_in, find_in_set, find_line_and_file_in_bb_map,
  floor_block, hit, search_result, search_harder, search_set, search_file, search_addr,
  known_or_search, get_basic_block,
}
use lockdoc_tools.Bb2lines.Modes.{
  cover_lines, cover, count_all_lines_in_file, coverage_rows, line_count, file_count,
  determine_coverage, convert_basic_blocks,
}
use lockdoc_tools.Bb2lines.Covers.{printed}
use lockdoc_tools.Bb2lines.Agree.{cover-convert_basic_blocks}
use lockdoc_tools.Bb2lines.Totals.{Bounded, determine_coverage-Bounded}
use lockdoc_tools.Bb2lines.Nearest.{Chosen, get_basic_block-Nearest}
use lockdoc_tools.Bb2lines.Again.{get_basic_block-again}

-- Two blocks of a file, the second with a line of a header, and the first once more in the second note file.
abbrev note_files : List (List Tag)
note_files =
    (function (some (codes "f")) (some (codes "a.c"))
      ∷ block 2 (source (codes "a.c") ∷ line 10 ∷ line 11 ∷ [])
      ∷ block 3 (source (codes "a.c") ∷ line 14 ∷ source (codes "h.h") ∷ line 3 ∷ [])
      ∷ [])
    ∷ (function (some (codes "f")) (some (codes "a.c"))
        ∷ block 2 (source (codes "a.c") ∷ line 10 ∷ line 12 ∷ [])
        ∷ other false
        ∷ block 4 (line 1 ∷ [])
        ∷ [])
    ∷ []

-- "/"
abbrev prefix : Text
prefix = b'/' ∷ []

abbrev outside : Outside
outside = record {
  addr_to_line = λ a. record {
    file = if a == 7 then none else some (if a == 6 then codes "/h.h" else codes "/a.c");
    line = if a == 6 then 3 else 9 + a;
  };
  is_match = λ f. true;
  visit = λ m. m;
}

abbrev first_block : BasicBlock
first_block = record {
  blockno = 2;
  source_lines =
      record { filename = codes "a.c"; lines = 10 ∷ 12 ∷ [] }
      ∷ record { filename = codes "a.c"; lines = 10 ∷ 11 ∷ [] }
      ∷ [];
  is_valid = true;
}

abbrev second_block : BasicBlock
second_block = record {
  blockno = 3;
  source_lines =
      record { filename = codes "a.c"; lines = 14 ∷ [] }
      ∷ record { filename = codes "h.h"; lines = 3 ∷ [] }
      ∷ [];
  is_valid = true;
}

abbrev blocks : BlockSet
blocks = (10, first_block) ∷ (14, second_block) ∷ []

abbrev notes : Notes
notes = record {
  basic_blocks_map = (codes "/a.c", blocks) ∷ [];
  covered_lines = (codes "a.c", []) ∷ (codes "h.h", []) ∷ [];
  coverable_lines = (codes "a.c", 10 ∷ 11 ∷ 12 ∷ 14 ∷ []) ∷ (codes "h.h", 3 ∷ []) ∷ [];
  bb_read_count = 3;
  bb_is_already_in_bb_map_count = 1;
}

notes_read : read_graph_files prefix note_files no_notes ≡ some notes
unfolding read_graph_files read_graph_file read_items push_line add_block note_lines touch_file
    insert_lines insert_line alter insert lookup place_block find_block erase_block insert_block
notes_read = refl

-- A line before any name of a file.
no_file :
    read_graph_files prefix
      ((function (some []) (some []) ∷ block 1 (line 5 ∷ []) ∷ []) ∷ [])
      no_notes
    ≡ none
unfolding read_graph_files read_graph_file read_items push_line
no_file = refl

-- Between the blocks, at the start of the second, in a header, in no file, and the first again.
abbrev addresses : List ℕ
addresses = 3 ∷ 5 ∷ 6 ∷ 7 ∷ 3 ∷ []

coverage_example : determine_coverage prefix outside notes (3 ∷ 7 ∷ []) ≡ record {
  rows =
      record { file = codes "a.c"; lines = 10 ∷ 11 ∷ 12 ∷ []; lines_total = 4 }
      ∷ record { file = codes "h.h"; lines = []; lines_total = 1 }
      ∷ [];
  file_count = 1;
  files_total = 2;
  line_count = 3;
  lines_total = 5;
}
unfolding determine_coverage cover cover_lines get_basic_block known_or_search find_addr search_addr
    search_file search_set floor_block hit lookup insert_lines insert_line alter insert
    coverage_rows count_all_lines_in_file line_count file_count
coverage_example = refl

-- The file is found by the search over all blocks.
header_found : (get_basic_block prefix outside 6 notes nothing_found).0 ≡ some second_block
unfolding get_basic_block known_or_search find_addr search_addr search_file search_harder
    search_result find_line_and_file_in_bb_map find_in_set is_line_and_file_in hit lookup
header_found = refl

-- An address without a file is counted each time.
counted_twice :
    (get_basic_block prefix outside 7 notes
      (get_basic_block prefix outside 7 notes nothing_found).1).1.unique_input_addr_count
    ≡ 2
unfolding get_basic_block known_or_search find_addr search_addr
counted_twice = refl

determine_coverage-Bounded_example : Bounded (determine_coverage prefix outside notes addresses)
determine_coverage-Bounded_example =
    determine_coverage-Bounded prefix outside note_files notes addresses (λ m e h. h) notes_read

cover-convert_basic_blocks_example :
    has_line
      (codes "h.h")
      3
      (cover prefix outside notes addresses notes.covered_lines nothing_found).0
    ≡ printed (codes "h.h") 3 (convert_basic_blocks prefix outside notes addresses)
cover-convert_basic_blocks_example =
    cover-convert_basic_blocks prefix outside note_files notes addresses notes_read (codes "h.h") 3

nothing_remembered : find_addr 3 nothing_found.basic_blocks_addr_map ≡ none
unfolding find_addr
nothing_remembered = refl

has_blocks : lookup (codes "/a.c") notes.basic_blocks_map ≡ some blocks
unfolding lookup
has_blocks = refl

get_basic_block-Nearest_example :
    Chosen 12 blocks (get_basic_block prefix outside 3 notes nothing_found).0
get_basic_block-Nearest_example =
    get_basic_block-Nearest prefix outside note_files notes 3 nothing_found (codes "/a.c") blocks
      notes_read nothing_remembered refl has_blocks

get_basic_block-again_example :
    get_basic_block prefix outside 3 notes (get_basic_block prefix outside 3 notes nothing_found).1
    ≡ get_basic_block prefix outside 3 notes nothing_found
get_basic_block-again_example =
    get_basic_block-again prefix outside note_files notes 3 nothing_found (codes "/a.c")
      (λ m e h. h) notes_read refl
