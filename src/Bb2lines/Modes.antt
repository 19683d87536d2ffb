-- ===== src/Bb2lines/Modes.antt =====
-- determine_coverage and convert_basic_blocks of coverage/bb2lines/main.cpp.
use lockdoc_tools.Common.{ℕ, ◌+◌, Option, none, some, List, [], ◌∷◌, ◌++◌, Text, length}
use lockdoc_tools.Bb2lines.Table.{FileLines, lookup, or_default}
use lockdoc_tools.Bb2lines.Notes.{SourceLine, BasicBlock, Notes, insert_lines}
use lockdoc_tools.Bb2lines.Search.{Outside, Found, nothing_found, get_basic_block}

-- The lines of a block are covered.
unfoldable pub cover_lines : List SourceLine → FileLines → FileLines
unfolding insert_lines
cover_lines [] m = m
cover_lines (l ∷ ls) m = cover_lines ls (insert_lines l.filename l.lines m)

abbrev pub cover_block : Option BasicBlock → FileLines → FileLines
cover_block none m = m
cover_block (some b) m = cover_lines b.source_lines m

-- The loop over the input of determine_coverage, after std::stoull has read the addresses: what is covered, and what has been
-- found.
unfoldable pub cover : Text → Outside → Notes → List ℕ → FileLines → Found → FileLines × Found
unfolding get_basic_block cover_lines
cover prefix o notes [] m s = (m, s)
cover prefix o notes (a ∷ as') m s =
    let r = get_basic_block prefix o a notes s in cover prefix o notes as' (cover_block r.0 m) r.1

-- count_all_lines_in_file
unfoldable pub count_all_lines_in_file : Text → FileLines → ℕ
unfolding lookup
count_all_lines_in_file f m = length (or_default [] (lookup f m))

-- A row of the output: the file, its covered lines, and how many could be.
pub record CoverageRow : Type 0 where
  pub file : Text
  pub lines : List ℕ
  pub lines_total : ℕ

unfoldable pub coverage_rows : FileLines → FileLines → List CoverageRow
unfolding count_all_lines_in_file
coverage_rows coverable [] = []
coverage_rows coverable ((f, ns) ∷ m) =
    record { file = f; lines = ns; lines_total = count_all_lines_in_file f coverable }
    ∷ coverage_rows coverable m

-- The lines of all files, and the files that have one.
unfoldable pub line_count : FileLines → ℕ
line_count [] = 0
line_count ((f, ns) ∷ m) = length ns + line_count m

abbrev pub is_covered : List ℕ → ℕ
is_covered [] = 0
is_covered (n ∷ ns) = 1

unfoldable pub file_count : FileLines → ℕ
file_count [] = 0
file_count ((f, ns) ∷ m) = is_covered ns + file_count m

-- What determine_coverage prints; the percentages are quotients of its numbers.
pub record Coverage : Type 0 where
  pub rows : List CoverageRow
  pub file_count : ℕ
  pub files_total : ℕ
  pub line_count : ℕ
  pub lines_total : ℕ

abbrev pub coverage_of : FileLines → FileLines → Coverage
coverage_of covered coverable = record {
  rows = coverage_rows coverable covered;
  file_count = file_count covered;
  files_total = length coverable;
  line_count = line_count covered;
  lines_total = line_count coverable;
}

unfoldable pub determine_coverage : Text → Outside → Notes → List ℕ → Coverage
unfolding cover coverage_rows file_count line_count
determine_coverage prefix o notes as' =
    coverage_of (cover prefix o notes as' notes.covered_lines nothing_found).0 notes.coverable_lines

-- A row of the output of convert_basic_blocks.
pub record BlockRow : Type 0 where
  pub basic_block : ℕ
  pub file : Text
  pub line : ℕ

unfoldable pub line_rows : ℕ → Text → List ℕ → List BlockRow
line_rows a f [] = []
line_rows a f (n ∷ ns) = record { basic_block = a; file = f; line = n } ∷ line_rows a f ns

unfoldable pub block_rows : ℕ → List SourceLine → List BlockRow
unfolding line_rows
block_rows a [] = []
block_rows a (l ∷ ls) = line_rows a l.filename l.lines ++ block_rows a ls

abbrev pub rows_of : ℕ → Option BasicBlock → List BlockRow
rows_of a none = []
rows_of a (some b) = block_rows a b.source_lines

unfoldable pub convert : Text → Outside → Notes → List ℕ → Found → List BlockRow
unfolding get_basic_block block_rows
convert prefix o notes [] s = []
convert prefix o notes (a ∷ as') s =
    let r = get_basic_block prefix o a notes s in rows_of a r.0 ++ convert prefix o notes as' r.1

unfoldable pub convert_basic_blocks : Text → Outside → Notes → List ℕ → List BlockRow
unfolding convert
convert_basic_blocks prefix o notes as' = convert prefix o notes as' nothing_found
