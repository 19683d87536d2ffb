-- ===== src/Hypothesizer/Input.antt =====
-- main of hypothesizer/hypothesizer.cc: the reading of the input. A text is a list of bytes, none of which is 0.
pub mod Tally
pub mod Names
pub mod Totals
use lockdoc_tools.Common.{
  wrap64, lex_lt, ℕ, zero, suc, ◌+◌, ◌%◌, ◌^◌, Bool, true, false, not, ◌&&◌, ◌||◌, Option, none,
  some, List, [], ◌∷◌, ◌++◌, ltb, leb, ◌==◌, if◌then◌else◌, Text, text_eq, length, drop, next_index,
}
use lockdoc_tools.Common.Try.{Try, ok, err, ◌>>=◌, or_fail}
use lockdoc_tools.Hypothesizer.Combination.{LockCombination}

-- How reading ends early.
pub data ReadError : Type 0 where
  -- an exception of std::stoull
  not_a_number : ReadError
  -- "More locks than myid_t can hold" and the same of members
  too_many_locks : ReadError
  too_many_members : ReadError
  -- a member of fewer than two bytes, past whose end parse_name reads
  short_name : ReadError

-- A member, with its lock combinations in a std::map. `key` is its name as the input has it.
pub record InputMember : Type 0 where
  pub datatype : Text
  pub key : Text
  pub accesstype : ℕ
  pub name : Text
  pub occurrences : ℕ
  pub occurrences_with_locks : ℕ
  pub combinations : List (List ℕ × ℕ)

-- The vectors `locks` and `members`: the id of an element is its place. The maps lock_to_id and member_to_id say the same.
pub record Input : Type 0 where
  pub accesscount : ℕ
  pub locks : List Text
  pub members : List InputMember

abbrev pub start_word : ℕ → List Text → List Text
start_word c [] = (c ∷ []) ∷ []
start_word c (w ∷ ws) = (c ∷ w) ∷ ws

-- What a loop over `getline(ss, s, d)` reads: nothing after a delimiter at the end.
unfoldable pub split : ℕ → Text → List Text
split d [] = []
split d (c ∷ t) = let rest = split d t in if c == d then [] ∷ rest else start_word c rest

unfoldable pub index_of : Text → List Text → Option ℕ
index_of t [] = none
index_of t (x ∷ xs) = let rest = index_of t xs in if text_eq x t then some 0 else next_index rest

-- std::numeric_limits<myid_t>::max()
abbrev pub max_id : ℕ
max_id = 65535

-- One lock of the third column: its id, and the locks after it.
unfoldable pub lock_id : Text → List Text → Try ReadError (ℕ × List Text)
unfolding index_of
lock_id t locks = elim (index_of t locks) [
  | some i ↦ ok (i, locks)
  | none ↦
      if ltb max_id (length locks) then err too_many_locks else ok (length locks, locks ++ (t ∷ []))
]

-- The loop over the third column; an empty element stands for no lock.
unfoldable pub read_locks : List Text → List Text → Try ReadError (List ℕ × List Text)
unfolding lock_id
read_locks [] locks = ok ([], locks)
read_locks ([] ∷ ts) locks = read_locks ts locks
read_locks ((c ∷ t) ∷ ts) locks = do
  a ← lock_id (c ∷ t) locks
  b ← read_locks ts a.1
  ok (a.0 ∷ b.0, b.1)

-- The combination is entered, or its count raised.
unfoldable pub add_combination : List ℕ → ℕ → List (List ℕ × ℕ) → List (List ℕ × ℕ)
add_combination held n [] = (held, n) ∷ []
add_combination held n ((k, c) ∷ m) =
    let rest = add_combination held n m in
    if text_eq k held
    then (k, wrap64 (c + n)) ∷ m
    else if lex_lt held k
    then (held, n) ∷ (k, c) ∷ m
    else (k, c) ∷ rest

abbrev pub any_held : List ℕ → Bool
any_held [] = false
any_held (x ∷ xs) = true

unfoldable pub count_accesses : List ℕ → ℕ → InputMember → InputMember
unfolding add_combination
count_accesses held n m = record m {
  occurrences = wrap64 (m.occurrences + n);
  occurrences_with_locks =
      if any_held held then wrap64 (m.occurrences_with_locks + n) else m.occurrences_with_locks;
  combinations = add_combination held n m.combinations;
}

-- Member::parse_name of at least two bytes.
unfoldable pub parse_name : Text → Text → Option InputMember
parse_name datatype (a ∷ c ∷ name) = some (record {
  datatype = datatype;
  key = a ∷ c ∷ name;
  accesstype = a;
  name = name;
  occurrences = 0;
  occurrences_with_locks = 0;
  combinations = [];
})
parse_name datatype _ = none

abbrev pub is_member : Text → Text → InputMember → Bool
is_member datatype key m = text_eq m.datatype datatype && text_eq m.key key

-- One member of the second column: it is looked up among those from number `i` on, or made, and counted.
unfoldable pub read_member :
    Text → Text → List ℕ → ℕ → ℕ → List InputMember → Try ReadError (List InputMember)
unfolding count_accesses parse_name
read_member datatype key held n i [] = or_fail short_name (parse_name datatype key) >>= λ m.
    if ltb max_id i then err too_many_members else ok (count_accesses held n m ∷ [])
read_member datatype key held n i (m ∷ ms) =
    let rest = read_member datatype key held n (suc i) ms in
    if is_member datatype key m
    then ok (count_accesses held n m ∷ ms)
    else (rest >>= λ r. ok (m ∷ r))

unfoldable pub read_members :
    Text → List Text → List ℕ → ℕ → List InputMember → Try ReadError (List InputMember)
unfolding read_member
read_members datatype [] held n ms = ok ms
read_members datatype (t ∷ ts) held n ms =
    read_member datatype t held n 0 ms >>= λ r. read_members datatype ts held n r

-- A line with four columns.
unfoldable pub read_columns :
    (Text → Option ℕ) → Text → Text → Text → Text → Input → Try ReadError Input
unfolding read_locks read_members split
read_columns stoull datatype names held count s = do
  n ← or_fail not_a_number (stoull count)
  l ← read_locks (split b',' held) s.locks
  ms ← read_members datatype (split b',' names) l.0 n s.members
  ok (record { accesscount = wrap64 (s.accesscount + n); locks = l.1; members = ms })

-- The sanity check: with any other number of columns the line is passed over.
unfoldable pub read_row : (Text → Option ℕ) → List Text → Input → Try ReadError Input
unfolding read_columns
read_row stoull (a ∷ b ∷ c ∷ d ∷ []) s = read_columns stoull a b c d s
read_row stoull _ s = ok s

unfoldable pub read_line : (Text → Option ℕ) → Text → Input → Try ReadError Input
unfolding read_row split
read_line stoull line s = read_row stoull (split b'\t' line) s

-- Whether the first line is a header: no digit stands at its end.
unfoldable pub is_header : Text → Bool
is_header [] = true
is_header (c ∷ []) = not (leb b'0' c && leb c b'9')
is_header (c ∷ d ∷ t) = is_header (d ∷ t)

unfoldable pub read_lines : (Text → Option ℕ) → List Text → Input → Try ReadError Input
unfolding read_line
read_lines stoull [] s = ok s
read_lines stoull (t ∷ ts) s = read_line stoull t s >>= λ r. read_lines stoull ts r

abbrev pub no_input : Input
no_input = record { accesscount = 0; locks = []; members = [] }

-- The whole file, for std::stoull, `none` where it throws.
unfoldable pub read_input : (Text → Option ℕ) → List Text → Try ReadError Input
unfolding is_header read_lines
read_input stoull [] = ok no_input
read_input stoull (t ∷ ts) =
    if is_header t then read_lines stoull ts no_input else read_lines stoull (t ∷ ts) no_input

-- map2vec
unfoldable pub combinations_of : List (List ℕ × ℕ) → List LockCombination
combinations_of [] = []
combinations_of ((k, n) ∷ m) = record { occurrences = n; locks_held = k } ∷ combinations_of m
