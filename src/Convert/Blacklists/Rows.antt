-- ===== src/Convert/Blacklists/Rows.antt =====
-- The files written after the trace, and the rows to which they refer.
use lockdoc_tools.Common.{
  ℕ, suc, ◌+◌, ◌≡◌, refl, sym, Option, none, some, List, [], ◌∷◌, ◌++◌, arith, Text, length, true,
  All, All-append, contains, subst,
}
use lockdoc_tools.Hypothesizer.Input.{split}
use lockdoc_tools.Convert.Driver.{Config, Subclass}
use lockdoc_tools.Convert.Events.{Event, Program, running, run}
use lockdoc_tools.Convert.Run.{new_program}
use lockdoc_tools.Convert.Blacklists.Catalog.{CountsFrom, StillCataloged, run-new_program-Cataloged}
use lockdoc_tools.Convert.Blacklists.Lookup.{
  subclass_ids, row_ids, name_ids, Refers, HasIds, Prepared, AllRefer, OneRefers, subclass_rows-ids,
  type2id-HasIds, subclass_ids-All, blacklist_ids-AllRefer, member_id-OneRefers, find_key-contains,
}
use lockdoc_tools.Convert.Blacklists.{
  FnRow, Tables, Observed, fn_rows, fn_line, fn_columns, fn_lines, member_rows, member_line,
  member_columns, member_lines, after_header, tables_of, write_tables,
}

-- The rows are numbered from `n` on, and refer to the given ids.
abbrev pub Published : List ℕ → List ℕ → ℕ → List FnRow → Type 0
Published ids mids n [] = Unit
Published ids mids n (r ∷ rs) =
    (r.id ≡ n)
    × (Refers ids r.subclass_id × (Refers mids r.member_name_id × Published ids mids (suc n) rs))

Published-append :
    (ids mids : List ℕ) (n k : ℕ) (xs ys : List FnRow)
    → k ≡ n + length xs
    → Published ids mids n xs
    → Published ids mids k ys
    → Published ids mids n (xs ++ ys)
Published-append ids mids n k [] ys e h v =
    subst (λ j. Published ids mids j ys) (omega (arith, e)) v
Published-append ids mids n k (x ∷ xs) ys e h v = (
  h.0,
  (h.1.0, (h.1.1.0, Published-append ids mids (suc n) k xs ys (omega (arith, e)) h.1.1.1 v)),
)

fn_line-Published :
    (ids mids : List ℕ) (n : ℕ) (l : Option (List (Option ℕ))) (m : Option (Option ℕ)) (f s : Text)
    → AllRefer ids l
    → OneRefers mids m
    → Published ids mids n (fn_line n l m f s)
unfolding fn_rows
fn_line-Published ids mids n none m f s h v = tt
fn_line-Published ids mids n (some cs) none f s h v = tt
fn_line-Published ids mids n (some []) (some m) f s h v = tt
fn_line-Published ids mids n (some (c ∷ cs)) (some m) f s h v =
    (refl, (h.0, (v, fn_line-Published ids mids (suc n) (some cs) (some m) f s h.1 v)))

fn_columns-Published :
    (o : Observed) (n : ℕ) (ts : List Text)
    → Prepared o
    → Published (subclass_ids o.subclasses) (name_ids o.names) n (fn_columns o n ts)
unfolding fn_columns
fn_columns-Published o n (t ∷ m ∷ f ∷ s ∷ []) p =
    fn_line-Published _ _ n _ _ f s (blacklist_ids-AllRefer o t p) (member_id-OneRefers o m)
fn_columns-Published o n (t ∷ m ∷ f ∷ s ∷ x ∷ ts) p = tt
fn_columns-Published o n (t ∷ m ∷ f ∷ []) p = tt
fn_columns-Published o n (t ∷ m ∷ []) p = tt
fn_columns-Published o n (t ∷ []) p = tt
fn_columns-Published o n [] p = tt

fn_lines-Published :
    (o : Observed) (n : ℕ) (ls : List Text)
    → Prepared o
    → Published (subclass_ids o.subclasses) (name_ids o.names) n (fn_lines o n ls)
unfolding fn_lines
fn_lines-Published o n [] p = tt
fn_lines-Published o n (l ∷ ls) p =
    Published-append _ _ n _ (fn_columns o n (split b';' l)) _ refl
      (fn_columns-Published o n (split b';' l) p)
      (fn_lines-Published o (n + length (fn_columns o n (split b';' l))) ls p)

-- The rows of the other blacklist.
abbrev pub MemberRow : List ℕ → List ℕ → Option ℕ × ℕ → Type 0
MemberRow ids mids r = Refers ids r.0 × (contains mids r.1 ≡ true)

member_rows-All :
    (ids mids : List ℕ) (cs : List (Option ℕ)) (m : ℕ)
    → All (Refers ids) cs
    → contains mids m ≡ true
    → All (MemberRow ids mids) (member_rows cs m)
unfolding member_rows
member_rows-All ids mids [] m h v = tt
member_rows-All ids mids (c ∷ cs) m h v = ((h.0, v), member_rows-All ids mids cs m h.1 v)

member_line-All :
    (ids mids : List ℕ) (l : Option (List (Option ℕ))) (m : Option ℕ)
    → AllRefer ids l
    → ((i : ℕ) → m ≡ some i → contains mids i ≡ true)
    → All (MemberRow ids mids) (member_line l m)
member_line-All ids mids none m h v = tt
member_line-All ids mids (some cs) none h v = tt
member_line-All ids mids (some cs) (some m) h v = member_rows-All ids mids cs m h (v m refl)

member_columns-All :
    (o : Observed) (ts : List Text)
    → Prepared o
    → All (MemberRow (subclass_ids o.subclasses) (name_ids o.names)) (member_columns o ts)
unfolding member_columns
member_columns-All o (t ∷ n ∷ []) p =
    member_line-All _ _ _ _ (blacklist_ids-AllRefer o t p) (find_key-contains n o.names)
member_columns-All o (t ∷ n ∷ x ∷ ts) p = tt
member_columns-All o (t ∷ []) p = tt
member_columns-All o [] p = tt

member_lines-All :
    (o : Observed) (ls : List Text)
    → Prepared o
    → All (MemberRow (subclass_ids o.subclasses) (name_ids o.names)) (member_lines o ls)
unfolding member_lines
member_lines-All o [] p = tt
member_lines-All o (l ∷ ls) p =
    All-append _ (member_columns o (split b';' l)) (member_lines o ls)
      (member_columns-All o (split b';' l) p) (member_lines-All o ls p)

-- Every reference of a row is to a row of subclasses.csv or to one of member_names.csv, and the
-- rows of the function blacklist are numbered from 1 on.
pub record Referential (cs : List Subclass) (names : List (Text × ℕ)) (t : Tables) : Type 0 where
  pub numbering : row_ids t.subclasses_o_file ≡ subclass_ids cs
  pub fn_blacklist :
      Published (row_ids t.subclasses_o_file) (name_ids names) 1 t.fn_blacklist_o_file
  pub member_blacklist :
      All (MemberRow (row_ids t.subclasses_o_file) (name_ids names)) t.member_blacklist_o_file

tables_of-Referential :
    (types : List Text) (cs : List Subclass) (names : List (Text × ℕ)) (fn_in member_in : List Text)
    (ids : List (Text × List ℕ))
    → CountsFrom (length types) 1 cs
    → HasIds (subclass_ids cs) ids
    → Referential cs names (tables_of types cs names fn_in member_in ids)
tables_of-Referential types cs names fn_in member_in ids h v =
    let o : Observed = record { subclasses = cs; type_ids = ids; names = names } in
    let p : Prepared o = record { type_ids = v } in
    let e = subclass_rows-ids types (length types) 1 cs h in
    record {
      numbering = e;
      fn_blacklist =
          subst (λ r. Published r (name_ids names) 1 (fn_lines o 1 (after_header fn_in))) (sym e)
            (fn_lines-Published o 1 (after_header fn_in) p);
      member_blacklist =
          subst (λ r. All (MemberRow r (name_ids names)) (member_lines o (after_header member_in)))
            (sym e) (member_lines-All o (after_header member_in) p);
    }

-- After any trace that does not stop the program, and for any two blacklists, the tables are
-- written: subclasses.csv numbers the subclasses by their ids, the rows of the function blacklist are
-- numbered from 1 on without a gap, and both blacklists refer to rows of subclasses.csv and to
-- member names only.
pub write_tables-Referential :
    (g : Config) (es : List Event) (s : Program) (names : List (Text × ℕ))
    (fn_in member_in : List Text)
    → run g es (new_program g) ≡ running s
    → (t : Tables) × ((write_tables g.types s.converter.subclasses names fn_in member_in ≡ some t)
        × Referential s.converter.subclasses names t)
unfolding write_tables
write_tables-Referential g es s names fn_in member_in h =
    let v = subst (StillCataloged g) h (run-new_program-Cataloged g es) in
    let cs = s.converter.subclasses in
    let (ids, (e, w)) =
      type2id-HasIds g.types (subclass_ids cs) 1 cs [] v.counted
        (subclass_ids-All (subclass_ids cs) cs (λ i q. q)) tt in
    (
      tables_of g.types cs names fn_in member_in ids,
      (
        rw (e, write_tables) refl,
        tables_of-Referential g.types cs names fn_in member_in ids v.counted w,
      ),
    )
