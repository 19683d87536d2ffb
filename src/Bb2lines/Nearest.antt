-- ===== src/Bb2lines/Nearest.antt =====
-- Which of the blocks of a file the search takes.
use lockdoc_tools.Common.{
  ℕ, ◌+◌, ◌≤◌, ◌<◌, ◌≡◌, refl, sym, ap, ◌∙◌, ◌⊎◌, Option, none, some, List, [], ◌∷◌, leb, Text,
  arith, Bool-cases, inl, inr, All, subst,
}
use lockdoc_tools.Common.SortedSet.{Among}
use lockdoc_tools.Bb2lines.Table.{lookup}
use lockdoc_tools.Bb2lines.Notes.{
  BasicBlock, BlockSet, Notes, Tag, no_notes, get_start_line, read_graph_files,
}
use lockdoc_tools.Bb2lines.Search.{
  Outside, Found, find_addr, later_of, floor_block, hit, search_set, search_file, search_addr,
  known_or_search, get_basic_block,
}
use lockdoc_tools.Bb2lines.Ordered.{Ordered}
use lockdoc_tools.Bb2lines.Within.Reading.{read_graph_files-Noted}
use lockdoc_tools.Bb2lines.Within.Finding.{All-Among, lookup-Each}

-- The block of a set that starts last among those that do not start after line `n`.
abbrev pub IsNearest : ℕ → BlockSet → ℕ × BasicBlock → Type 0
IsNearest n s d =
    Among d s
    × ((get_start_line (d.1).source_lines ≡ some d.0)
        × ((d.0 ≤ n) × All (λ e. e.0 ≤ n → e.0 ≤ d.0) s))

abbrev Floor : ℕ → BlockSet → Option (ℕ × BasicBlock) → Type 0
Floor n s none = All (λ e. n < e.0) s
Floor n s (some d) = IsNearest n s d

All-above : (n k : ℕ) (s : BlockSet) → n < k → All (λ e. k < e.0) s → All (λ e. n < e.0) s
All-above n k [] l a = tt
All-above n k (e ∷ s) l a = (omega (arith, l, a.0), All-above n k s l a.1)

none_between : (n k : ℕ) (s : BlockSet) → All (λ e. n < e.0) s → All (λ e. e.0 ≤ n → e.0 ≤ k) s
none_between n k [] a = tt
none_between n k (e ∷ s) a = (λ l. absurd (omega (arith, l, a.0)), none_between n k s a.1)

later_of-Floor :
    (n : ℕ) (e : ℕ × BasicBlock) (s : BlockSet) (o : Option (ℕ × BasicBlock))
    → Ordered (e ∷ s)
    → e.0 ≤ n
    → Floor n s o
    → Floor n (e ∷ s) (later_of e o)
later_of-Floor n e s none v l a = (inl refl, (v.0, (l, (λ k. omega arith, none_between n e.0 s a))))
later_of-Floor n e s (some d) v l (m, (st, (le, a))) =
    let q = All-Among (λ c. e.0 < c.0) s d v.1.0 m in
    (inr m, (st, (le, (λ k. omega (arith, q), a))))

floor_block-Floor : (n : ℕ) (s : BlockSet) → Ordered s → Floor n s (floor_block n s)
unfolding floor_block
floor_block-Floor n [] v = tt
floor_block-Floor n (e ∷ s) v = elim (Bool-cases (leb e.0 n)) [
  | inl q ↦
      rw q
        (later_of-Floor n e s (floor_block n s) v (ground (arith, q)) (floor_block-Floor n s v.1.1))
  | inr q ↦ let l : n < e.0 = ground (arith, q) in rw q (l, All-above n e.0 s l v.1.0)
]

-- The nearest block, or any answer where all blocks start after the line.
abbrev pub Chosen : ℕ → BlockSet → Option BasicBlock → Type 0
Chosen n s r = ((d : ℕ × BasicBlock) × ((r ≡ some d.1) × IsNearest n s d)) ⊎ All (λ e. n < e.0) s

search_set-Chosen :
    (prefix : Text) (o : Outside) (a : ℕ) (f : Text) (n : ℕ) (notes : Notes) (t : Found)
    (s : BlockSet) (d : Option (ℕ × BasicBlock))
    → Floor n s d
    → Chosen n s (search_set prefix o a f n notes t d).0
unfolding search_set hit
search_set-Chosen prefix o a f n notes t s none v = inr v
search_set-Chosen prefix o a f n notes t s (some (k, b)) v = inl ((k, b), (refl, v))

search_file-Chosen :
    (prefix : Text) (o : Outside) (a : ℕ) (f : Text) (n : ℕ) (notes : Notes) (t : Found)
    (s : BlockSet)
    → Ordered s
    → Chosen n s (search_file prefix o a f n notes t (some s)).0
unfolding search_file
search_file-Chosen prefix o a f n notes t [] v = inr tt
search_file-Chosen prefix o a f n notes t (e ∷ s) v =
    search_set-Chosen prefix o a f n notes t (e ∷ s) (floor_block n (e ∷ s))
      (floor_block-Floor n (e ∷ s) v)

-- For an address that is not remembered, whose file has blocks in the note files: the answer is the block of the file that
-- starts last among those that do not start after the line of the address, if there is one.
pub get_basic_block-Nearest :
    (prefix : Text) (o : Outside) (files : List (List Tag)) (notes : Notes) (a : ℕ) (s : Found)
    (f : Text) (set : BlockSet)
    → read_graph_files prefix files no_notes ≡ some notes
    → find_addr a s.basic_blocks_addr_map ≡ none
    → (o.addr_to_line a).file ≡ some f
    → lookup f notes.basic_blocks_map ≡ some set
    → Chosen (o.addr_to_line a).line set (get_basic_block prefix o a notes s).0
unfolding get_basic_block known_or_search search_addr
get_basic_block-Nearest prefix o files notes a s f set e h p q =
    let v = read_graph_files-Noted prefix files notes e in
    let n = (o.addr_to_line a).line in
    let t : Found = record s { unique_input_addr_count = s.unique_input_addr_count + 1 } in
    let same : get_basic_block prefix o a notes s ≡ search_file prefix o a f n notes t (some set) =
      ap (known_or_search prefix o a notes s) h
      ∙ ap (λ w. search_addr prefix o a w n notes t) p
      ∙ ap (search_file prefix o a f n notes t) q in
    subst (λ r. Chosen n set r.0) (sym same)
      (search_file-Chosen prefix o a f n notes t set
        (lookup-Each Ordered f notes.basic_blocks_map set tt v.ordered q))
