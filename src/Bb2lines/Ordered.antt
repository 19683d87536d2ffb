-- ===== src/Bb2lines/Ordered.antt =====
-- The sets of blocks are in the order of their start lines, one block for each.
use lockdoc_tools.Common.{
  ℕ, ◌<◌, ◌≡◌, Option, none, some, List, [], ◌∷◌, ◌++◌, ltb, ◌==◌, arith, Bool-cases, inl, inr, All,
}
use lockdoc_tools.Bb2lines.Notes.{
  SourceLine, BasicBlock, BlockSet, get_start_line, erase_block, insert_block, merged,
}

abbrev Later : ℕ → ℕ × BasicBlock → Type 0
Later n e = n < e.0

abbrev StartsAt : ℕ × BasicBlock → Type 0
StartsAt e = get_start_line (e.1).source_lines ≡ some e.0

-- The start lines rise, and are those of the blocks.
abbrev pub Ordered : BlockSet → Type 0
Ordered [] = Unit
Ordered (e ∷ s) = StartsAt e × (All (Later e.0) s × Ordered s)

All-Later : (n k : ℕ) (s : BlockSet) → n < k → All (Later k) s → All (Later n) s
All-Later n k [] l a = tt
All-Later n k (e ∷ s) l a = (omega (arith, l, a.0), All-Later n k s l a.1)

Later-erase_block : (k n : ℕ) (s : BlockSet) → All (Later k) s → All (Later k) (erase_block n s)
unfolding erase_block
Later-erase_block k n [] a = tt
Later-erase_block k n ((j, b) ∷ s) a = elim (Bool-cases (j == n)) [
  | inl e ↦ rw e a.1
  | inr e ↦ rw e (a.0, Later-erase_block k n s a.1)
]

pub erase_block-Ordered : (n : ℕ) (s : BlockSet) → Ordered s → Ordered (erase_block n s)
unfolding erase_block
erase_block-Ordered n [] o = tt
erase_block-Ordered n ((k, b) ∷ s) o = elim (Bool-cases (k == n)) [
  | inl e ↦ rw e o.1.1
  | inr e ↦ rw e (o.0, (Later-erase_block k n s o.1.0, erase_block-Ordered n s o.1.1))
]

Later-insert_block :
    (k n : ℕ) (b : BasicBlock) (s : BlockSet)
    → k < n
    → All (Later k) s
    → All (Later k) (insert_block n b s)
unfolding insert_block
Later-insert_block k n b [] l a = (l, tt)
Later-insert_block k n b ((j, c) ∷ s) l a = elim (Bool-cases (ltb n j)) [
  | inl e ↦ rw e (l, a)
  | inr e ↦ elim (Bool-cases (ltb j n)) [
    | inl f ↦ rw (e, f) (a.0, Later-insert_block k n b s l a.1)
    | inr f ↦ rw (e, f) a
  ]
]

pub insert_block-Ordered :
    (n : ℕ) (b : BasicBlock) (s : BlockSet)
    → get_start_line b.source_lines ≡ some n
    → Ordered s
    → Ordered (insert_block n b s)
unfolding insert_block
insert_block-Ordered n b [] h o = (h, (tt, tt))
insert_block-Ordered n b ((k, c) ∷ s) h o = elim (Bool-cases (ltb n k)) [
  | inl e ↦ let l : n < k = ground (arith, e) in rw e (h, ((l, All-Later n k s l o.1.0), o))
  | inr e ↦ elim (Bool-cases (ltb k n)) [
    | inl f ↦
        let l : k < n = ground (arith, f) in
        rw (e, f) (o.0, (Later-insert_block k n b s l o.1.0, insert_block-Ordered n b s h o.1.1))
    | inr f ↦ rw (e, f) o
  ]
]

start_line-append :
    (ks ls : List SourceLine) (n : ℕ)
    → get_start_line ks ≡ some n
    → get_start_line (ks ++ ls) ≡ some n
start_line-append [] ls n e = cc
start_line-append (k ∷ ks) ls n e = e

-- A block that takes over the lines of another one starts where it did.
pub start_line-merged :
    (b : BasicBlock) (o : Option BasicBlock) (n : ℕ)
    → get_start_line b.source_lines ≡ some n
    → get_start_line (merged b o).source_lines ≡ some n
start_line-merged b none n e = e
start_line-merged b (some c) n e = start_line-append b.source_lines c.source_lines n e
