-- ===== src/Coverage/Tests.antt =====
-- sortuniq and the dumps of kcov-lib on concrete inputs.
use lockdoc_tools.Common.{
  lex_lt, ℕ, ◌+◌, ◌*◌, ◌^◌, ◌≤◌, ◌<◌, ◌≡◌, ◌↔◌, refl, none, some, List, [], ◌∷◌, ltb, All, Text,
  codes, pos, negsuc, arith,
}
use lockdoc_tools.Common.SortedSet.{Among, Rising, insert, insert_all}
use lockdoc_tools.Coverage.{
  kcov_trace_pc, kcov_trace_unique_pc, base_address, sort_unique, finish_kcov, dump_bits,
  dump_words, dump_trace, read_words,
}
use lockdoc_tools.Coverage.Bitmap.{InBitmap, finish_kcov-covers, finish_kcov-Rising}
use lockdoc_tools.Coverage.Unique.{Recorded, sort_unique-sorts, finish_kcov-prints}

-- Bits 0 and 2 of the first word, the last bit of the second.
abbrev bitmap : List ℕ
bitmap = 5 ∷ 2 ^ 63 ∷ []

-- Three program counters, one of them twice, and a word that is not used.
abbrev trace : List ℕ
trace = 3 ∷ 20 ∷ 10 ∷ 20 ∷ 7 ∷ []

abbrev input : List Text
input = codes "b" ∷ codes "ab" ∷ codes "b" ∷ codes "" ∷ []

dumped_bitmap :
    finish_kcov kcov_trace_unique_pc (pos 3) bitmap
    ≡ some (base_address ∷ (base_address + 2) ∷ (base_address + 127) ∷ [])
unfolding finish_kcov dump_words dump_bits
dumped_bitmap = refl

dumped_trace : finish_kcov kcov_trace_pc (pos 3) trace ≡ some (10 ∷ 20 ∷ [])
unfolding finish_kcov dump_trace read_words insert_all insert
dumped_trace = refl

-- More program counters than the area has words: a read past its end.
overrun : finish_kcov kcov_trace_pc (pos 3) (2 ∷ 20 ∷ []) ≡ none
unfolding finish_kcov dump_trace read_words
overrun = refl

no_descriptor : finish_kcov kcov_trace_pc (negsuc 0) trace ≡ some []
unfolding finish_kcov
no_descriptor = refl

unique_lines : sort_unique input ≡ codes "" ∷ codes "ab" ∷ codes "b" ∷ []
unfolding sort_unique insert_all insert
unique_lines = refl

finish_kcov-covers_example :
    (out : List ℕ) × ((finish_kcov kcov_trace_unique_pc (pos 3) bitmap ≡ some out)
      × ((a : ℕ) → Among a out ↔ InBitmap a 0 bitmap))
finish_kcov-covers_example = finish_kcov-covers 2 bitmap

finish_kcov-Rising_example :
    (out : List ℕ) × ((finish_kcov kcov_trace_unique_pc (pos 3) bitmap ≡ some out)
      × (Rising ltb out × All (λ a. (base_address ≤ a) × (a < base_address + 2 * 64)) out))
finish_kcov-Rising_example = finish_kcov-Rising 2 bitmap (omega arith)

finish_kcov-prints_example :
    (out : List ℕ) × ((finish_kcov kcov_trace_pc (pos 3) trace ≡ some out)
      × (Rising ltb out × ((a : ℕ) → Among a out ↔ Recorded trace a 0 3)))
finish_kcov-prints_example = finish_kcov-prints 2 3 trace refl (omega arith)

sort_unique-sorts_example :
    Rising lex_lt (sort_unique input) × ((l : Text) → Among l (sort_unique input) ↔ Among l input)
sort_unique-sorts_example = sort_unique-sorts input
