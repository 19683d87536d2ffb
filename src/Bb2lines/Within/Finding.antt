-- ===== src/Bb2lines/Within/Finding.antt =====
-- The search for a block: the lines of what it finds and remembers.
use lockdoc_tools.Common.{
  ℕ, ◌+◌, ◌≡◌, refl, Bool, true, false, Option, none, some, List, [], ◌∷◌, if◌then◌else◌, leb, ◌==◌,
  Text, Bool-cases, inl, inr, All, subst,
}
use lockdoc_tools.Common.SortedSet.{Among}
use lockdoc_tools.Bb2lines.Table.{lookup, or_default}
use lockdoc_tools.Bb2lines.Notes.{BasicBlock, BlockSet, Notes}
use lockdoc_tools.Bb2lines.Search.{
  Outside, Found, find_addr, is_line_and_file_in_bb, find_in_set, or_next,
  find_line_and_file_in_bb_map, later_of, floor_block, hit, miss, invalid_bb, search_result,
  search_harder, search_all, search_set, search_file, search_addr, known_or_search, get_basic_block,
}
use lockdoc_tools.Bb2lines.Within.Placing.{Holds}
use lockdoc_tools.Bb2lines.Regular.{All-lookup}

-- The run through an unordered_map meets its elements only.
abbrev pub RunsThrough : Outside → Type 0
RunsThrough o = (m : List (Text × BlockSet)) (e : Text × BlockSet) → Among e (o.visit m) → Among e m

pub All-Among : {A : Type 0} (P : A → Type 0) (xs : List A) (x : A) → All P xs → Among x xs → P x
All-Among P [] x a m = absurd m
All-Among P (y ∷ xs) x a (inl e) = subst P e a.0
All-Among P (y ∷ xs) x a (inr m) = All-Among P xs x a.1 m

All-of_Among : {A : Type 0} (P : A → Type 0) (xs : List A) → ((x : A) → Among x xs → P x) → All P xs
All-of_Among P [] f = tt
All-of_Among P (x ∷ xs) f = (f x (inl refl), All-of_Among P xs (λ y m. f y (inr m)))

pub lookup-Each :
    {A : Type 0} (P : List A → Type 0) (f : Text) (m : List (Text × List A)) (s : List A)
    → P []
    → All (λ e. P e.1) m
    → lookup f m ≡ some s
    → P s
lookup-Each P f m s p a e = subst (λ o. P (or_default [] o)) e (All-lookup P [] f m p a)

module _ (P : BasicBlock → Type 0) where
  find_in_set-Holds :
      (prefix : Text) (n : ℕ) (f : Text) (s : BlockSet)
      → All (λ e. P e.1) s
      → Holds P (find_in_set prefix n f s)
  unfolding find_in_set
  find_in_set-Holds prefix n f [] a = tt
  find_in_set-Holds prefix n f ((k, b) ∷ s) a =
      elim (Bool-cases (is_line_and_file_in_bb prefix n f b)) [
        | inl e ↦ rw e a.0
        | inr e ↦ rw e (find_in_set-Holds prefix n f s a.1)
      ]

  or_next-Holds : (o r : Option BasicBlock) → Holds P o → Holds P r → Holds P (or_next o r)
  or_next-Holds none r h k = k
  or_next-Holds (some b) r h k = h

  find_line_and_file_in_bb_map-Holds :
      (prefix : Text) (n : ℕ) (f : Text) (m : List (Text × BlockSet))
      → All (λ e. All (λ d. P d.1) e.1) m
      → Holds P (find_line_and_file_in_bb_map prefix n f m)
  unfolding find_line_and_file_in_bb_map
  find_line_and_file_in_bb_map-Holds prefix n f [] a = tt
  find_line_and_file_in_bb_map-Holds prefix n f ((k, s) ∷ m) a =
      or_next-Holds (find_in_set prefix n f s) (find_line_and_file_in_bb_map prefix n f m)
        (find_in_set-Holds prefix n f s a.0) (find_line_and_file_in_bb_map-Holds prefix n f m a.1)

  abbrev pub HoldsAt : Option (ℕ × BasicBlock) → Type 0
  HoldsAt none = Unit
  HoldsAt (some e) = P e.1

  later_of-HoldsAt :
      (e : ℕ × BasicBlock) (o : Option (ℕ × BasicBlock))
      → P e.1
      → HoldsAt o
      → HoldsAt (later_of e o)
  later_of-HoldsAt e none p h = p
  later_of-HoldsAt e (some d) p h = h

  pub floor_block-HoldsAt : (n : ℕ) (s : BlockSet) → All (λ e. P e.1) s → HoldsAt (floor_block n s)
  unfolding floor_block
  floor_block-HoldsAt n [] a = tt
  floor_block-HoldsAt n (e ∷ s) a = elim (Bool-cases (leb e.0 n)) [
    | inl q ↦ rw q (later_of-HoldsAt e (floor_block n s) a.0 (floor_block-HoldsAt n s a.1))
    | inr q ↦ rw q tt
  ]

  pub lookup-AllIn :
      (f : Text) (m : List (Text × BlockSet)) (s : BlockSet)
      → All (λ e. All (λ d. P d.1) e.1) m
      → lookup f m ≡ some s
      → All (λ d. P d.1) s
  lookup-AllIn f m s a e = lookup-Each (All (λ d. P d.1)) f m s tt a e

  if_valid-Holds : (c : Bool) (b : BasicBlock) → P b → Holds P (if c then some b else none)
  if_valid-Holds true b p = p
  if_valid-Holds false b p = tt

  -- The result satisfies P, and so do the blocks that are remembered.
  abbrev pub Good : Option BasicBlock × Found → Type 0
  Good r = Holds P r.0 × All (λ e. P e.1) r.1.basic_blocks_addr_map

  module _ (prefix : Text) (o : Outside) (notes : Notes) (runs : RunsThrough o)
      (all : All (λ e. All (λ d. P d.1) e.1) notes.basic_blocks_map) where
    pub search_map-Holds :
        (n : ℕ) (f : Text)
        → Holds P (find_line_and_file_in_bb_map prefix n f (o.visit notes.basic_blocks_map))
    search_map-Holds n f =
        find_line_and_file_in_bb_map-Holds prefix n f (o.visit notes.basic_blocks_map)
          (All-of_Among _ _ λ e m. All-Among _ notes.basic_blocks_map e all (runs _ e m))

  module _ (p0 : P invalid_bb) (prefix : Text) (o : Outside) (notes : Notes) (runs : RunsThrough o)
      (all : All (λ e. All (λ d. P d.1) e.1) notes.basic_blocks_map) where
    search_result-Good :
        (a : ℕ) (b : Option BasicBlock) (s : Found)
        → Holds P b
        → All (λ e. P e.1) s.basic_blocks_addr_map
        → Good (search_result a b s)
    unfolding search_result hit miss
    search_result-Good a (some b) s h v = (h, (h, v))
    search_result-Good a none s h v = (tt, (p0, v))

    search_harder-Good :
        (a : ℕ) (f : Text) (n : ℕ) (s : Found)
        → All (λ e. P e.1) s.basic_blocks_addr_map
        → Good (search_harder prefix o a f n notes s)
    unfolding search_harder miss
    search_harder-Good a f n s v = elim (Bool-cases (o.is_match f)) [
      | inl e ↦ rw e (search_result-Good a _ s (search_map-Holds prefix o notes runs all n f) v)
      | inr e ↦ rw e (tt, (p0, v))
    ]

    search_all-Good :
        (a : ℕ) (f : Text) (n : ℕ) (s : Found) (b : Option BasicBlock)
        → Holds P b
        → All (λ e. P e.1) s.basic_blocks_addr_map
        → Good (search_all prefix o a f n notes s b)
    unfolding search_all hit
    search_all-Good a f n s (some b) h v = (h, (h, v))
    search_all-Good a f n s none h v =
        search_harder-Good a f n
          (record s { file_found_line_not_found_count = s.file_found_line_not_found_count + 1 }) v

    search_set-Good :
        (a : ℕ) (f : Text) (n : ℕ) (s : Found) (e : Option (ℕ × BasicBlock))
        → HoldsAt e
        → All (λ e. P e.1) s.basic_blocks_addr_map
        → Good (search_set prefix o a f n notes s e)
    unfolding search_set hit
    search_set-Good a f n s (some (k, b)) h v = (h, (h, v))
    search_set-Good a f n s none h v =
        search_all-Good a f n s _ (search_map-Holds prefix o notes runs all n f) v

    search_file-Good :
        (a : ℕ) (f : Text) (n : ℕ) (s : Found) (set : Option BlockSet)
        → ((t : BlockSet) → set ≡ some t → All (λ d. P d.1) t)
        → All (λ e. P e.1) s.basic_blocks_addr_map
        → Good (search_file prefix o a f n notes s set)
    unfolding search_file
    search_file-Good a f n s none h v = search_harder-Good a f n s v
    search_file-Good a f n s (some []) h v = search_harder-Good a f n s v
    search_file-Good a f n s (some (e ∷ set)) h v =
        search_set-Good a f n s _ (floor_block-HoldsAt n (e ∷ set) (h (e ∷ set) refl)) v

    search_addr-Good :
        (a : ℕ) (f : Option Text) (n : ℕ) (s : Found)
        → All (λ e. P e.1) s.basic_blocks_addr_map
        → Good (search_addr prefix o a f n notes s)
    unfolding search_addr
    search_addr-Good a none n s v = (tt, v)
    search_addr-Good a (some f) n s v =
        search_file-Good a f n s _ (λ t e. lookup-AllIn f notes.basic_blocks_map t all e) v

    find_addr-Holds :
        (a : ℕ) (m : List (ℕ × BasicBlock)) → All (λ e. P e.1) m → Holds P (find_addr a m)
    unfolding find_addr
    find_addr-Holds a [] v = tt
    find_addr-Holds a ((k, b) ∷ m) v = elim (Bool-cases (k == a)) [
      | inl e ↦ rw e v.0
      | inr e ↦ rw e (find_addr-Holds a m v.1)
    ]

    known_or_search-Good :
        (a : ℕ) (s : Found) (b : Option BasicBlock)
        → Holds P b
        → All (λ e. P e.1) s.basic_blocks_addr_map
        → Good (known_or_search prefix o a notes s b)
    unfolding known_or_search
    known_or_search-Good a s (some b) h v = (if_valid-Holds b.is_valid b h, v)
    known_or_search-Good a s none h v =
        search_addr-Good a _ _
          (record s { unique_input_addr_count = s.unique_input_addr_count + 1 }) v

    pub get_basic_block-Good :
        (a : ℕ) (s : Found)
        → All (λ e. P e.1) s.basic_blocks_addr_map
        → Good (get_basic_block prefix o a notes s)
    unfolding get_basic_block
    get_basic_block-Good a s v =
        known_or_search-Good a s _ (find_addr-Holds a s.basic_blocks_addr_map v) v
