-- ===== src/Bb2lines/Within/Placing.antt =====
-- place_block: a block among those of its file.
use lockdoc_tools.Common.{
  ℕ, ◌≡◌, refl, ◌∙◌, true, Option, none, some, [], ◌∷◌, ltb, ◌==◌, Text, arith, Bool-cases, inl,
  inr, All,
}
use lockdoc_tools.Bb2lines.Table.{FileLines, lookup, or_default}
use lockdoc_tools.Bb2lines.Notes.{
  BasicBlock, BlockSet, Notes, find_block, erase_block, insert_block, merged, place_block,
  get_start_line,
}
use lockdoc_tools.Bb2lines.Covers.{covers, covers-append}
use lockdoc_tools.Bb2lines.Regular.{All-alter, All-lookup}
use lockdoc_tools.Bb2lines.Ordered.{
  Ordered, erase_block-Ordered, insert_block-Ordered, start_line-merged,
}
use lockdoc_tools.Bb2lines.Within.{Within, SetWithin, MapWithin}

module _ (P : BasicBlock → Type 0) where
  All-erase_block : (n : ℕ) (s : BlockSet) → All (λ e. P e.1) s → All (λ e. P e.1) (erase_block n s)
  unfolding erase_block
  All-erase_block n [] a = tt
  All-erase_block n ((k, b) ∷ s) a = elim (Bool-cases (k == n)) [
    | inl e ↦ rw e a.1
    | inr e ↦ rw e (a.0, All-erase_block n s a.1)
  ]

  All-insert_block :
      (n : ℕ) (b : BasicBlock) (s : BlockSet)
      → P b
      → All (λ e. P e.1) s
      → All (λ e. P e.1) (insert_block n b s)
  unfolding insert_block
  All-insert_block n b [] p a = (p, tt)
  All-insert_block n b ((k, c) ∷ s) p a = elim (Bool-cases (ltb n k)) [
    | inl e ↦ rw e (p, a)
    | inr e ↦ elim (Bool-cases (ltb k n)) [
      | inl f ↦ rw (e, f) (a.0, All-insert_block n b s p a.1)
      | inr f ↦ rw (e, f) a
    ]
  ]

  abbrev pub Holds : Option BasicBlock → Type 0
  Holds none = Unit
  Holds (some b) = P b

  Holds-find_block : (n : ℕ) (s : BlockSet) → All (λ e. P e.1) s → Holds (find_block n s)
  unfolding find_block
  Holds-find_block n [] a = tt
  Holds-find_block n ((k, b) ∷ s) a = elim (Bool-cases (k == n)) [
    | inl e ↦ rw e a.0
    | inr e ↦ rw e (Holds-find_block n s a.1)
  ]

Within-merged :
    (m : FileLines) (b : BasicBlock) (o : Option BasicBlock)
    → Within m b.source_lines
    → Holds (λ c. Within m c.source_lines) o
    → Within m (merged b o).source_lines
Within-merged m b none w h = w
Within-merged m b (some c) w h = λ f n e. elim (Bool-cases (covers b.source_lines f n)) [
  | inl p ↦ w f n p
  | inr p ↦
      h f n (let q = covers-append b.source_lines c.source_lines f n in ground (arith, q, e, p))
]

pub place_block-Within :
    (f : Text) (n : ℕ) (b : BasicBlock) (s : Notes)
    → Within s.coverable_lines b.source_lines
    → MapWithin s.coverable_lines s.basic_blocks_map
    → MapWithin s.coverable_lines (place_block f n b s).basic_blocks_map
unfolding place_block
place_block-Within f n b s w h =
    let m = s.coverable_lines in
    let old = find_block n (or_default [] (lookup f s.basic_blocks_map)) in
    let both = Within-merged m b old w (
      Holds-find_block (λ c. Within m c.source_lines) n _
        (All-lookup (SetWithin m) [] f s.basic_blocks_map tt h)) in
    All-alter (SetWithin m) [] _ f s.basic_blocks_map
      (λ v p.
        All-insert_block (λ c. Within m c.source_lines) n (merged b old) (erase_block n v) both
          (All-erase_block (λ c. Within m c.source_lines) n v p))
      tt h

pub place_block-Ordered :
    (f : Text) (n : ℕ) (b : BasicBlock) (s : Notes)
    → get_start_line b.source_lines ≡ some n
    → All (λ e. Ordered e.1) s.basic_blocks_map
    → All (λ e. Ordered e.1) (place_block f n b s).basic_blocks_map
unfolding place_block
place_block-Ordered f n b s e h =
    let old = find_block n (or_default [] (lookup f s.basic_blocks_map)) in
    All-alter Ordered [] _ f s.basic_blocks_map
      (λ v p.
        insert_block-Ordered n (merged b old) (erase_block n v) (start_line-merged b old n e)
          (erase_block-Ordered n v p))
      tt h

merged-valid : (b : BasicBlock) (o : Option BasicBlock) → (merged b o).is_valid ≡ b.is_valid
merged-valid b none = refl
merged-valid b (some c) = refl

pub place_block-valid :
    (f : Text) (n : ℕ) (b : BasicBlock) (s : Notes)
    → b.is_valid ≡ true
    → All (λ e. All (λ d. (d.1).is_valid ≡ true) e.1) s.basic_blocks_map
    → All (λ e. All (λ d. (d.1).is_valid ≡ true) e.1) (place_block f n b s).basic_blocks_map
unfolding place_block
place_block-valid f n b s e h =
    let old = find_block n (or_default [] (lookup f s.basic_blocks_map)) in
    All-alter (All (λ d. (d.1).is_valid ≡ true)) [] _ f s.basic_blocks_map
      (λ v p.
        All-insert_block (λ c. c.is_valid ≡ true) n (merged b old) (erase_block n v)
          (merged-valid b old ∙ e) (All-erase_block (λ c. c.is_valid ≡ true) n v p))
      tt h
