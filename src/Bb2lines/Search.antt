-- ===== src/Bb2lines/Search.antt =====
-- get_basic_block of coverage/bb2lines/main.cpp: the basic block at an address.
use lockdoc_tools.Common.{
  ℕ, ◌+◌, Bool, false, ◌&&◌, ◌||◌, Option, none, some, List, [], ◌∷◌, ◌++◌, if◌then◌else◌, leb,
  ◌==◌, Text, text_eq, contains,
}
use lockdoc_tools.Bb2lines.Table.{lookup}
use lockdoc_tools.Bb2lines.Notes.{SourceLine, BasicBlock, BlockSet, Notes}

-- struct BfdSearchCtx, as far as it is used; a null pointer is `none`.
pub record BfdSearchCtx : Type 0 where
  pub file : Option Text
  pub line : ℕ

-- What is not part of this program: addr_to_line asks libbfd, `is_match` is std::regex_search with the pattern of the
-- command line, and `visit` is the order in which an unordered_map is run through.
pub record Outside : Type 0 where
  pub addr_to_line : ℕ → BfdSearchCtx
  pub is_match : Text → Bool
  pub visit : List (Text × BlockSet) → List (Text × BlockSet)

-- The map basic_blocks_addr_map, and the counters of failures.
pub record Found : Type 0 where
  pub basic_blocks_addr_map : List (ℕ × BasicBlock)
  pub unique_input_addr_count : ℕ
  pub addr_not_start_line_count : ℕ
  pub bb_at_addr_not_found_count : ℕ
  pub file_is_null_in_addr2line_count : ℕ
  pub file_found_line_not_found_count : ℕ
  pub fs_not_in_bb_map_count : ℕ

abbrev pub nothing_found : Found
nothing_found = record {
  basic_blocks_addr_map = [];
  unique_input_addr_count = 0;
  addr_not_start_line_count = 0;
  bb_at_addr_not_found_count = 0;
  file_is_null_in_addr2line_count = 0;
  file_found_line_not_found_count = 0;
  fs_not_in_bb_map_count = 0;
}

unfoldable pub find_addr : ℕ → List (ℕ × BasicBlock) → Option BasicBlock
find_addr a [] = none
find_addr a ((k, b) ∷ m) = let rest = find_addr a m in if k == a then some b else rest

unfoldable pub is_line_and_file_in : Text → ℕ → Text → List SourceLine → Bool
is_line_and_file_in prefix n f [] = false
is_line_and_file_in prefix n f (l ∷ ls) =
    (text_eq (prefix ++ l.filename) f && contains l.lines n) || is_line_and_file_in prefix n f ls

abbrev pub is_line_and_file_in_bb : Text → ℕ → Text → BasicBlock → Bool
is_line_and_file_in_bb prefix n f b = is_line_and_file_in prefix n f b.source_lines

unfoldable pub find_in_set : Text → ℕ → Text → BlockSet → Option BasicBlock
unfolding is_line_and_file_in
find_in_set prefix n f [] = none
find_in_set prefix n f ((k, b) ∷ s) =
    let rest = find_in_set prefix n f s in
    if is_line_and_file_in_bb prefix n f b then some b else rest

abbrev pub or_next : Option BasicBlock → Option BasicBlock → Option BasicBlock
or_next (some b) rest = some b
or_next none rest = rest

-- The invalid block is `none`.
unfoldable pub find_line_and_file_in_bb_map :
    Text → ℕ → Text → List (Text × BlockSet) → Option BasicBlock
unfolding find_in_set
find_line_and_file_in_bb_map prefix n f [] = none
find_line_and_file_in_bb_map prefix n f ((k, s) ∷ m) =
    or_next (find_in_set prefix n f s) (find_line_and_file_in_bb_map prefix n f m)

-- The element before upper_bound, if there is one: the last whose start line is not above the line.
abbrev pub later_of : ℕ × BasicBlock → Option (ℕ × BasicBlock) → Option (ℕ × BasicBlock)
later_of e none = some e
later_of e (some d) = some d

unfoldable pub floor_block : ℕ → BlockSet → Option (ℕ × BasicBlock)
floor_block n [] = none
floor_block n (e ∷ s) = let rest = floor_block n s in if leb e.0 n then later_of e rest else none

-- A hit: the block is remembered. The Boolean says whether the line is the start line.
unfoldable pub hit : ℕ → BasicBlock → Bool → Found → Option BasicBlock × Found
hit a b exact s = (
  some b,
  record s {
    basic_blocks_addr_map = (a, b) ∷ s.basic_blocks_addr_map;
    addr_not_start_line_count = s.addr_not_start_line_count + (if exact then 0 else 1);
  },
)

abbrev pub invalid_bb : BasicBlock
invalid_bb = record { blockno = 0; source_lines = []; is_valid = false }

-- The end of the function: that there is no block is remembered, too.
unfoldable pub miss : ℕ → Found → Option BasicBlock × Found
miss a s = (
  none,
  record s {
    basic_blocks_addr_map = (a, invalid_bb) ∷ s.basic_blocks_addr_map;
    bb_at_addr_not_found_count = s.bb_at_addr_not_found_count + 1;
  },
)

-- The result of the search over all files, in the last part of the function.
unfoldable pub search_result : ℕ → Option BasicBlock → Found → Option BasicBlock × Found
unfolding hit miss
search_result a (some b) s = hit a b false s
search_result a none s = miss a (record s { fs_not_in_bb_map_count = s.fs_not_in_bb_map_count + 1 })

-- The last part, for files that the pattern matches.
unfoldable pub search_harder :
    Text → Outside → ℕ → Text → ℕ → Notes → Found → Option BasicBlock × Found
unfolding search_result find_line_and_file_in_bb_map
search_harder prefix o a f n notes s =
    if o.is_match f
    then search_result a (find_line_and_file_in_bb_map prefix n f (o.visit notes.basic_blocks_map))
        s
    else miss a s

-- The file has blocks, and all start after the line.
unfoldable pub search_all :
    Text → Outside → ℕ → Text → ℕ → Notes → Found → Option BasicBlock → Option BasicBlock × Found
unfolding search_harder
search_all prefix o a f n notes s (some b) = hit a b false s
search_all prefix o a f n notes s none =
    search_harder prefix o a f n notes
      (record s { file_found_line_not_found_count = s.file_found_line_not_found_count + 1 })

unfoldable pub search_set :
    Text
    → Outside
    → ℕ
    → Text
    → ℕ
    → Notes
    → Found
    → Option (ℕ × BasicBlock)
    → Option BasicBlock × Found
unfolding search_all
search_set prefix o a f n notes s (some (k, b)) = hit a b (k == n) s
search_set prefix o a f n notes s none =
    search_all prefix o a f n notes s
      (find_line_and_file_in_bb_map prefix n f (o.visit notes.basic_blocks_map))

-- The search by file and line; the last argument is what basic_blocks_map has for the file.
unfoldable pub search_file :
    Text → Outside → ℕ → Text → ℕ → Notes → Found → Option BlockSet → Option BasicBlock × Found
unfolding search_set floor_block
search_file prefix o a f n notes s none = search_harder prefix o a f n notes s
search_file prefix o a f n notes s (some []) = search_harder prefix o a f n notes s
search_file prefix o a f n notes s (some (e ∷ set)) =
    search_set prefix o a f n notes s (floor_block n (e ∷ set))

-- An address whose file is null is counted as missing, but not remembered.
unfoldable pub search_addr :
    Text → Outside → ℕ → Option Text → ℕ → Notes → Found → Option BasicBlock × Found
unfolding search_file lookup
search_addr prefix o a none n notes s = (
  none,
  record s {
    file_is_null_in_addr2line_count = s.file_is_null_in_addr2line_count + 1;
    bb_at_addr_not_found_count = s.bb_at_addr_not_found_count + 1;
  },
)
search_addr prefix o a (some f) n notes s =
    search_file prefix o a f n notes s (lookup f notes.basic_blocks_map)

abbrev pub if_valid : BasicBlock → Option BasicBlock
if_valid b = if b.is_valid then some b else none

unfoldable pub known_or_search :
    Text → Outside → ℕ → Notes → Found → Option BasicBlock → Option BasicBlock × Found
unfolding search_addr
known_or_search prefix o a notes s (some b) = (if_valid b, s)
known_or_search prefix o a notes s none =
    let c = o.addr_to_line a in
    search_addr prefix o a c.file c.line notes
      (record s { unique_input_addr_count = s.unique_input_addr_count + 1 })

unfoldable pub get_basic_block : Text → Outside → ℕ → Notes → Found → Option BasicBlock × Found
unfolding known_or_search find_addr
get_basic_block prefix o a notes s =
    known_or_search prefix o a notes s (find_addr a s.basic_blocks_addr_map)
