-- ===== src/Bb2lines/Again.antt =====
-- get_basic_block: a second search for an address.
use lockdoc_tools.Common.{
  ℕ, ◌+◌, ◌≡◌, refl, sym, ap, ◌∙◌, Bool, true, false, Option, none, some, List, [], ◌∷◌, ◌==◌,
  if◌then◌else◌, Text, arith, Bool-cases, inl, inr, All, subst,
}
use lockdoc_tools.Bb2lines.Table.{lookup}
use lockdoc_tools.Bb2lines.Notes.{BasicBlock, BlockSet, Notes, Tag, no_notes, read_graph_files}
use lockdoc_tools.Bb2lines.Search.{
  Outside, Found, find_addr, hit, miss, if_valid, search_result, search_harder, search_all,
  search_set, search_file, search_addr, known_or_search, get_basic_block, invalid_bb,
}
use lockdoc_tools.Bb2lines.Within.Reading.{read_graph_files-Noted}
use lockdoc_tools.Bb2lines.Within.Placing.{Holds}
use lockdoc_tools.Bb2lines.Within.Finding.{
  RunsThrough, HoldsAt, search_map-Holds, floor_block-HoldsAt, lookup-Each,
}

abbrev IsValid : BasicBlock → Type 0
IsValid b = b.is_valid ≡ true

-- What is remembered for the address gives the answer again.
abbrev Remembers : ℕ → Option BasicBlock × Found → Type 0
Remembers a r =
    (c : BasicBlock) × ((find_addr a r.1.basic_blocks_addr_map ≡ some c) × (if_valid c ≡ r.0))

find_addr-first :
    (a : ℕ) (b : BasicBlock) (m : List (ℕ × BasicBlock)) → find_addr a ((a, b) ∷ m) ≡ some b
unfolding find_addr
find_addr-first a b m = ground arith

hit-Remembers :
    (a : ℕ) (b : BasicBlock) (exact : Bool) (s : Found) → IsValid b → Remembers a (hit a b exact s)
unfolding hit
hit-Remembers a b exact s v =
    (b, (find_addr-first a b s.basic_blocks_addr_map, ap (λ c. if c then some b else none) v))

miss-Remembers : (a : ℕ) (s : Found) → Remembers a (miss a s)
unfolding miss
miss-Remembers a s = (invalid_bb, (find_addr-first a invalid_bb s.basic_blocks_addr_map, refl))

module _ (prefix : Text) (o : Outside) (notes : Notes) (runs : RunsThrough o)
    (valid : All (λ e. All (λ d. IsValid d.1) e.1) notes.basic_blocks_map) (a : ℕ) (f : Text)
    (n : ℕ) where
  search_result-Remembers :
      (b : Option BasicBlock) (s : Found) → Holds IsValid b → Remembers a (search_result a b s)
  unfolding search_result
  search_result-Remembers (some b) s v = hit-Remembers a b false s v
  search_result-Remembers none s v =
      miss-Remembers a (record s { fs_not_in_bb_map_count = s.fs_not_in_bb_map_count + 1 })

  search_harder-Remembers : (s : Found) → Remembers a (search_harder prefix o a f n notes s)
  unfolding search_harder
  search_harder-Remembers s = elim (Bool-cases (o.is_match f)) [
    | inl e ↦
        rw e (search_result-Remembers _ s (search_map-Holds IsValid prefix o notes runs valid n f))
    | inr e ↦ rw e (miss-Remembers a s)
  ]

  search_all-Remembers :
      (b : Option BasicBlock) (s : Found)
      → Holds IsValid b
      → Remembers a (search_all prefix o a f n notes s b)
  unfolding search_all
  search_all-Remembers (some b) s v = hit-Remembers a b false s v
  search_all-Remembers none s v =
      search_harder-Remembers
        (record s { file_found_line_not_found_count = s.file_found_line_not_found_count + 1 })

  search_set-Remembers :
      (e : Option (ℕ × BasicBlock)) (s : Found)
      → HoldsAt IsValid e
      → Remembers a (search_set prefix o a f n notes s e)
  unfolding search_set
  search_set-Remembers (some (k, b)) s v = hit-Remembers a b (k == n) s v
  search_set-Remembers none s v =
      search_all-Remembers _ s (search_map-Holds IsValid prefix o notes runs valid n f)

  search_file-Remembers :
      (set : Option BlockSet) (s : Found)
      → ((t : BlockSet) → set ≡ some t → All (λ d. IsValid d.1) t)
      → Remembers a (search_file prefix o a f n notes s set)
  unfolding search_file
  search_file-Remembers none s v = search_harder-Remembers s
  search_file-Remembers (some []) s v = search_harder-Remembers s
  search_file-Remembers (some (e ∷ t)) s v =
      search_set-Remembers _ s (floor_block-HoldsAt IsValid n (e ∷ t) (v (e ∷ t) refl))

known_or_search-Remembers :
    (prefix : Text) (o : Outside) (notes : Notes) (a : ℕ) (f : Text) (s : Found)
    (b : Option BasicBlock)
    → RunsThrough o
    → All (λ e. All (λ d. IsValid d.1) e.1) notes.basic_blocks_map
    → (o.addr_to_line a).file ≡ some f
    → find_addr a s.basic_blocks_addr_map ≡ b
    → Remembers a (known_or_search prefix o a notes s b)
unfolding known_or_search search_addr
known_or_search-Remembers prefix o notes a f s (some b) t v p h = (b, (h, refl))
known_or_search-Remembers prefix o notes a f s none t v p h =
    let n = (o.addr_to_line a).line in
    let s' : Found = record s { unique_input_addr_count = s.unique_input_addr_count + 1 } in
    subst (λ w. Remembers a (search_addr prefix o a w n notes s')) (sym p)
      (search_file-Remembers prefix o notes t v a f n (lookup f notes.basic_blocks_map) s'
        λ set q. lookup-Each (All (λ d. IsValid d.1)) f notes.basic_blocks_map set tt v q)

-- For an address to which libbfd gives a file, and for a run through an unordered_map that meets its elements
-- only: a second search gives the answer of the first, and changes neither what is remembered nor a counter.
pub get_basic_block-again :
    (prefix : Text) (o : Outside) (files : List (List Tag)) (notes : Notes) (a : ℕ) (s : Found)
    (f : Text)
    → RunsThrough o
    → read_graph_files prefix files no_notes ≡ some notes
    → (o.addr_to_line a).file ≡ some f
    → get_basic_block prefix o a notes (get_basic_block prefix o a notes s).1
      ≡ get_basic_block prefix o a notes s
unfolding get_basic_block known_or_search
get_basic_block-again prefix o files notes a s f t e p =
    let v = read_graph_files-Noted prefix files notes e in
    let r = get_basic_block prefix o a notes s in
    let (c, (q, w)) : Remembers a r =
      known_or_search-Remembers prefix o notes a f s (find_addr a s.basic_blocks_addr_map) t v.valid
        p refl in
    ap (known_or_search prefix o a notes r.1) q ∙ ap (λ x. (x, r.1)) w
