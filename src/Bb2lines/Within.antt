-- ===== src/Bb2lines/Within.antt =====
-- Which lines the blocks have that are read, found or remembered.
pub mod Placing
pub mod Reading
pub mod Finding
use lockdoc_tools.Common.{ℕ, ◌≡◌, true, List, ◌+◌, ◌||◌, All, Bool, Text}
use lockdoc_tools.Bb2lines.Table.{FileLines, has_line}
use lockdoc_tools.Bb2lines.Notes.{SourceLine, BasicBlock, BlockSet}
use lockdoc_tools.Bb2lines.Covers.{covers}

abbrev pub Within : FileLines → List SourceLine → Type 0
Within m ls = (f : Text) (n : ℕ) → covers ls f n ≡ true → has_line f n m ≡ true

abbrev pub SetWithin : FileLines → BlockSet → Type 0
SetWithin m = All (λ e. Within m (e.1).source_lines)

abbrev pub MapWithin : FileLines → List (Text × BlockSet) → Type 0
MapWithin m = All (λ e. SetWithin m e.1)

-- One map has every line that another has.
abbrev pub Includes : FileLines → FileLines → Type 0
Includes m k = (f : Text) (n : ℕ) → has_line f n k ≡ true → has_line f n m ≡ true
