-- ===== src/Hypothesizer/Docs.antt =====
-- ReportMode::DOC of hypothesizer/hypothesizer.cc: doc_map, which print_hypotheses fills, and print_doc.
pub mod Counts
use lockdoc_tools.Common.{ℕ, Option, none, some, List, [], ◌∷◌, ◌++◌, Text, codes, get_elem?}
use lockdoc_tools.Common.SortedMap.{alter_key}
use lockdoc_tools.Hypothesizer.Input.{InputMember}
use lockdoc_tools.Hypothesizer.Report.{
  Mark, is_winner, is_conflict, no_mark, Line, set_line, order_line,
}
use lockdoc_tools.Hypothesizer.Pipeline.{combined_name}

-- By data type and lock combination: the members that these locks protect.
abbrev pub LockMap : Type 0
LockMap = List (List ℕ × List Text)

abbrev pub DocMap : Type 0
DocMap = List (Text × LockMap)

-- doc_map[datatype][locks].push_back(name)
abbrev pub add_name : Text → List Text → List Text
add_name n ns = ns ++ (n ∷ [])

abbrev pub add_locks : List ℕ → Text → LockMap → LockMap
add_locks w n = alter_key [] (add_name n) w

unfoldable pub push_doc : Text → List ℕ → Text → DocMap → DocMap
unfolding alter_key
push_doc d w n = alter_key [] (add_locks w n) d

-- What a line of a report adds, if it shows the winner.
abbrev pub push_marked : Mark → Text → List ℕ → Text → DocMap → DocMap
push_marked is_winner d w n m = push_doc d w n m
push_marked is_conflict d w n m = m
push_marked no_mark d w n m = m

unfoldable pub push_lines : InputMember → List Line → DocMap → DocMap
unfolding push_doc
push_lines x [] m = m
push_lines x (set_line h k ∷ ls) m = push_lines x ls m
push_lines x (order_line l ∷ ls) m =
    push_lines x ls (push_marked l.mark x.datatype l.order (combined_name x) m)

-- The map after the reports of some members, in the order in which they come.
unfoldable pub push_rows : List (InputMember × List Line) → DocMap → DocMap
unfolding push_lines
push_rows [] m = m
push_rows ((x, ls) ∷ rows) m = push_rows rows (push_lines x ls m)

abbrev both : Option Text → Option Text → Option Text
both (some s) (some t) = some (s ++ t)
both none t = none
both (some s) none = none

-- The loop of locks2string; `none` is an id past the end of `locks`.
abbrev join : List Text → List ℕ → Option Text
join locks [] = some []
join locks (a ∷ []) = get_elem? locks a
join locks (a ∷ b ∷ l) = both (both (get_elem? locks a) (some (codes " -> "))) (join locks (b ∷ l))

abbrev pub locks2string : List Text → List ℕ → Option Text
locks2string locks [] = some (codes "(no locks held)")
locks2string locks (a ∷ l) = join locks (a ∷ l)

-- " * " and a line feed
abbrev pub doc_line : Text → Text
doc_line t = codes " * " ++ t ++ (10 ∷ [])

abbrev more_names : List Text → Text
more_names [] = []
more_names (n ∷ ns) = codes ", " ++ n ++ more_names ns

-- `none` is element 0 of an empty vector.
abbrev doc_names : List Text → Option Text
doc_names [] = none
doc_names (n ∷ ns) = some (doc_line (codes "  " ++ n ++ more_names ns) ++ doc_line [])

abbrev pub doc_title : List Text → List ℕ → Option Text
doc_title locks [] = some (doc_line (codes "No locks needed for:"))
doc_title locks (a ∷ l) = elim (locks2string locks (a ∷ l)) [
  | none ↦ none
  | some t ↦ some (doc_line (t ++ codes " protects:"))
]

unfoldable pub print_locks : List Text → LockMap → Option Text
print_locks locks [] = some []
print_locks locks ((w, ns) ∷ m) =
    both (both (doc_title locks w) (doc_names ns)) (print_locks locks m)

unfoldable pub print_doc : List Text → DocMap → Option Text
unfolding print_locks
print_doc locks [] = some []
print_doc locks ((d, m) ∷ rest) =
    both
      (both (some (doc_line (d ++ codes " locking rules:") ++ doc_line [])) (print_locks locks m))
      (print_doc locks rest)
