-- ===== src/Convert/Blacklists.antt =====
-- main of convert/main/convert.cc after the trace: subclasses.csv and the two blacklists.
pub mod Catalog
pub mod Lookup
pub mod Types
pub mod Rows
use lockdoc_tools.Common.{
  ℕ, suc, ◌+◌, Bool, true, false, not, Option, none, some, List, [], ◌∷◌, ◌++◌, if◌then◌else◌, ltb,
  Text, codes, text_eq, get_elem?, length, map,
}
use lockdoc_tools.Hypothesizer.Input.{split}
use lockdoc_tools.Convert.Lock.{sql_null_if}
use lockdoc_tools.Convert.Driver.{Subclass}
use lockdoc_tools.Convert.Allocs.{names_of}
use lockdoc_tools.Common.SortedMap.{find_key}

-- The ids of the data types count from 1 in the order of the array `types`.
abbrev pub type_id : List Text → ℕ → Option ℕ
type_id types idx = if ltb idx (length types) then some (idx + 1) else none

-- A row of subclasses.csv.
pub record SubclassRow : Type 0 where
  pub id : ℕ
  pub data_type_id : Option ℕ
  pub name : Option Text

-- The first row has the given number, not the subclass's own id.
unfoldable pub subclass_rows : List Text → ℕ → List Subclass → List SubclassRow
subclass_rows types i [] = []
subclass_rows types i (c ∷ cs) =
    record {
      id = i;
      data_type_id = type_id types c.data_type_idx;
      name = sql_null_if c.name (not c.real_subclass);
    }
    ∷ subclass_rows types (suc i) cs

-- type2id[name].push_back(id)
unfoldable pub push_id : Text → ℕ → List (Text × List ℕ) → List (Text × List ℕ)
push_id t i [] = (t, i ∷ []) ∷ []
push_id t i ((k, is) ∷ m) =
    let rest = push_id t i m in if text_eq k t then (k, is ++ (i ∷ [])) ∷ m else (k, is) ∷ rest

-- The loop that fills type2id; `none` is an index past the end of `types`.
unfoldable pub type2id :
    List Text → List Subclass → List (Text × List ℕ) → Option (List (Text × List ℕ))
unfolding push_id
type2id types [] m = some m
type2id types (c ∷ cs) m = elim (get_elem? types c.data_type_idx) [
  | none ↦ none
  | some t ↦ type2id types cs (push_id t c.id m)
]

unfoldable pub find_ids : Text → List (Text × List ℕ) → Option (List ℕ)
find_ids t [] = none
find_ids t ((k, is) ∷ m) = let rest = find_ids t m in if text_eq k t then some is else rest

abbrev pub last_of : Option ℕ → Option ℕ → Option ℕ
last_of (some i) first = some i
last_of none first = first

-- subclass2id.find after the loop that fills it: the last subclass of that name.
unfoldable pub subclass2id : Text → List Subclass → Option ℕ
subclass2id n [] = none
subclass2id n (c ∷ cs) = last_of (subclass2id n cs) (if text_eq c.name n then some c.id else none)

-- What the two blacklists are read with.
pub record Observed : Type 0 where
  pub subclasses : List Subclass
  pub type_ids : List (Text × List ℕ)
  pub names : List (Text × ℕ)

abbrev pub is_null : Text → Bool
is_null t = text_eq t (codes "\\N")

abbrev pub ids_of_name : Observed → Text × (Text × Bool) → Option (List ℕ)
ids_of_name o (t, (n, true)) = elim (subclass2id n o.subclasses) [
  | none ↦ none
  | some i ↦ some (i ∷ [])
]
ids_of_name o (t, (n, false)) = find_ids t o.type_ids

-- The ids of the first column; in the list, `none` is "\N". An unknown name gives no list.
unfoldable pub blacklist_ids : Observed → Text → Option (List (Option ℕ))
unfolding names_of subclass2id find_ids
blacklist_ids o t =
    if is_null t
    then some (none ∷ [])
    else elim (ids_of_name o (names_of t)) [ none ↦ none | some is ↦ some (map (λ i. some i) is) ]

-- The id of the second column of the function blacklist.
unfoldable pub member_id : Observed → Text → Option (Option ℕ)
unfolding find_key
member_id o t =
    if is_null t
    then some none
    else elim (find_key t o.names) [ none ↦ none | some i ↦ some (some i) ]

-- A row of function_blacklist.csv.
pub record FnRow : Type 0 where
  pub id : ℕ
  pub subclass_id : Option ℕ
  pub member_name_id : Option ℕ
  pub fn : Text
  pub sequence : Text

-- The rows of one line, from the number `i` on.
unfoldable pub fn_rows : ℕ → List (Option ℕ) → Option ℕ → Text → Text → List FnRow
fn_rows i [] m f s = []
fn_rows i (c ∷ cs) m f s =
    record { id = i; subclass_id = c; member_name_id = m; fn = f; sequence = s }
    ∷ fn_rows (suc i) cs m f s

abbrev pub fn_line : ℕ → Option (List (Option ℕ)) → Option (Option ℕ) → Text → Text → List FnRow
fn_line i none m f s = []
fn_line i (some cs) none f s = []
fn_line i (some cs) (some m) f s = fn_rows i cs m f s

-- The columns of one line. A line that does not have four, or names something unknown, is ignored.
unfoldable pub fn_columns : Observed → ℕ → List Text → List FnRow
unfolding fn_rows blacklist_ids member_id
fn_columns o i (t ∷ n ∷ f ∷ s ∷ []) = fn_line i (blacklist_ids o t) (member_id o n) f s
fn_columns o i (t ∷ n ∷ f ∷ s ∷ x ∷ ts) = []
fn_columns o i (t ∷ n ∷ f ∷ []) = []
fn_columns o i (t ∷ n ∷ []) = []
fn_columns o i (t ∷ []) = []
fn_columns o i [] = []

-- The loop after the header; `i` is fnBlID, and ';' is DELIMITER_BLACKLISTS.
unfoldable pub fn_lines : Observed → ℕ → List Text → List FnRow
unfolding split fn_columns
fn_lines o i [] = []
fn_lines o i (l ∷ ls) =
    let rows = fn_columns o i (split b';' l) in rows ++ fn_lines o (i + length rows) ls

unfoldable pub member_rows : List (Option ℕ) → ℕ → List (Option ℕ × ℕ)
member_rows [] m = []
member_rows (c ∷ cs) m = (c, m) ∷ member_rows cs m

abbrev pub member_line : Option (List (Option ℕ)) → Option ℕ → List (Option ℕ × ℕ)
member_line none m = []
member_line (some cs) none = []
member_line (some cs) (some m) = member_rows cs m

-- The columns of one line of the other blacklist, which has two.
unfoldable pub member_columns : Observed → List Text → List (Option ℕ × ℕ)
unfolding member_rows blacklist_ids find_key
member_columns o (t ∷ n ∷ []) = member_line (blacklist_ids o t) (find_key n o.names)
member_columns o (t ∷ n ∷ x ∷ ts) = []
member_columns o (t ∷ []) = []
member_columns o [] = []

unfoldable pub member_lines : Observed → List Text → List (Option ℕ × ℕ)
unfolding split member_columns
member_lines o [] = []
member_lines o (l ∷ ls) = member_columns o (split b';' l) ++ member_lines o ls

abbrev pub after_header : List Text → List Text
after_header [] = []
after_header (l ∷ ls) = ls

-- What is written after the trace.
pub record Tables : Type 0 where
  pub subclasses_o_file : List SubclassRow
  pub fn_blacklist_o_file : List FnRow
  pub member_blacklist_o_file : List (Option ℕ × ℕ)

-- The files, given type2id.
abbrev pub tables_of :
    List Text
    → List Subclass
    → List (Text × ℕ)
    → List Text
    → List Text
    → List (Text × List ℕ)
    → Tables
tables_of types cs names fn_in member_in ids =
    let o : Observed = record { subclasses = cs; type_ids = ids; names = names } in
    record {
      subclasses_o_file = subclass_rows types 1 cs;
      fn_blacklist_o_file = fn_lines o 1 (after_header fn_in);
      member_blacklist_o_file = member_lines o (after_header member_in);
    }

unfoldable pub write_tables :
    List Text → List Subclass → List (Text × ℕ) → List Text → List Text → Option Tables
unfolding subclass_rows type2id fn_lines member_lines
write_tables types cs names fn_in member_in = elim (type2id types cs []) [
  | none ↦ none
  | some ids ↦ some (tables_of types cs names fn_in member_in ids)
]
