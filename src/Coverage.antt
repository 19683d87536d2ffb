-- ===== src/Coverage.antt =====
-- coverage/kcov/sortuniq.cc, and finish_kcov of coverage/kcov/kcov-lib.cc for a kernel of 64 bits.
pub mod Bitmap
pub mod Unique
mod Tests
use lockdoc_tools.Common.{
  lex_lt, ℕ, zero, suc, ◌+◌, ◌*◌, ◌/◌, ◌%◌, ◌^◌, Bool, Option, none, some, List, [], ◌∷◌, ◌++◌, ltb,
  ◌==◌, if◌then◌else◌, Text, get_elem?, ℤ, pos, negsuc,
}
use lockdoc_tools.Common.SortedSet.{insert_all}

-- The lines of the input, without their ends.
unfoldable pub sort_unique : List Text → List Text
sort_unique lines = insert_all lex_lt lines []

pub data KcovMode : Type 0 where
  kcov_trace_pc kcov_trace_unique_pc : KcovMode

-- BASE_ADDRESS, 0xffffffff81000000
abbrev pub base_address : ℕ
base_address = 18446744071578845184

-- The address that a place of the bitmap stands for, in 64 bits.
abbrev pub address : ℕ → ℕ
address n = (base_address + n) % 2 ^ 64

abbrev pub has_bit : ℕ → ℕ → Bool
has_bit w j = w / 2 ^ j % 2 == 1

-- The inner loop, of which the first argument is the number of turns left.
unfoldable pub dump_bits : ℕ → ℕ → ℕ → ℕ → List ℕ
dump_bits zero i j w = []
dump_bits (suc left) i j w =
    let rest = dump_bits left i (suc j) w in
    if has_bit w j then address (i * 64 + j) ∷ rest else rest

-- The outer loop, over the part of the area that begins at word `i`.
unfoldable pub dump_words : ℕ → List ℕ → List ℕ
unfolding dump_bits
dump_words i [] = []
dump_words i (w ∷ ws) = dump_bits 64 i 0 w ++ dump_words (suc i) ws

abbrev pub put_word : Option ℕ → Option (List ℕ) → Option (List ℕ)
put_word (some w) (some ws) = some (w ∷ ws)
put_word none ws = none
put_word (some w) none = none

-- The words that the loop over area[i + 1] reads; `none` is a read past the end of the area.
unfoldable pub read_words : ℕ → ℕ → List ℕ → Option (List ℕ)
read_words zero i area = some []
read_words (suc left) i area = put_word (get_elem? area (i + 1)) (read_words left (suc i) area)

-- The loop over the set, which is empty before the first insertion.
abbrev pub print_words : Option (List ℕ) → Option (List ℕ)
print_words none = none
print_words (some ws) = some (insert_all ltb ws [])

-- `n` is the first word of the area.
unfoldable pub dump_trace : Option ℕ → List ℕ → Option (List ℕ)
unfolding read_words
dump_trace none area = none
dump_trace (some n) area = print_words (read_words n 0 area)

-- The program counters that are printed. `kcov_fd` is the descriptor, `area` the shared memory in words.
unfoldable pub finish_kcov : KcovMode → ℤ → List ℕ → Option (List ℕ)
unfolding dump_words dump_trace
finish_kcov mode (negsuc k) area = some []
finish_kcov mode (pos zero) area = some []
finish_kcov kcov_trace_unique_pc (pos (suc fd)) area = some (dump_words 0 area)
finish_kcov kcov_trace_pc (pos (suc fd)) area = dump_trace (get_elem? area 0) area
