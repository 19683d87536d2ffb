-- ===== src/Hypothesizer/Docs/Counts.antt =====
-- What the documentation lists.
use lockdoc_tools.Common.{
  ◌^◌, ◌<◌, length, ℕ, ◌≤◌, ◌+◌, ◌≡◌, refl, ap, ◌∙◌, Bool, true, false, ◌&&◌, some, List, [], ◌∷◌,
  if◌then◌else◌, Text, text_eq, eq_of_text_eq, All, arith, Bool-cases, inl, inr, map,
}
use lockdoc_tools.Common.SortedMap.{find_key, or_else, find-alter, All-alter}
use lockdoc_tools.Hypothesizer.Input.{InputMember}
use lockdoc_tools.Hypothesizer.Report.{
  Mark, is_winner, is_conflict, no_mark, Line, set_line, order_line, Sorting, doc,
}
use lockdoc_tools.Hypothesizer.Report.Winners.{winners, counts_winner}
use lockdoc_tools.Hypothesizer.Winner.{Doubles}
use lockdoc_tools.Hypothesizer.Pipeline.{Options, combined_name, report_input}
use lockdoc_tools.Hypothesizer.Pipeline.Whole.{accepted, report_members-reports}
use lockdoc_tools.Hypothesizer.Docs.{
  LockMap, DocMap, add_name, add_locks, push_doc, push_marked, push_lines, push_rows,
}

abbrev pub count_text : Text → List Text → ℕ
count_text n [] = 0
count_text n (t ∷ ts) = (if text_eq t n then 1 else 0) + count_text n ts

count_text-add_name :
    (n u : Text) (ns : List Text)
    → count_text u (add_name n ns) ≡ count_text u ns + (if text_eq n u then 1 else 0)
count_text-add_name n u [] = omega arith
count_text-add_name n u (t ∷ ns) = omega (arith, count_text-add_name n u ns)

-- How often a member is listed under a data type and a lock combination.
abbrev names_at : List ℕ → LockMap → List Text
names_at w m = or_else [] (find_key w m)

abbrev pub listed : Text → List ℕ → Text → DocMap → ℕ
listed d w n m = count_text n (names_at w (or_else [] (find_key d m)))

abbrev one_if : Bool → ℕ
one_if b = if b then 1 else 0

names_at-add_locks :
    (w v : List ℕ) (n u : Text) (m : LockMap)
    → count_text u (names_at v (add_locks w n m))
      ≡ count_text u (names_at v m) + one_if (text_eq w v && text_eq n u)
names_at-add_locks w v n u m = elim (Bool-cases (text_eq w v)) [
  | inl e ↦
      rw (find-alter [] (add_name n) w v m, e)
        (count_text-add_name n u (names_at w m)
          ∙ ap (λ k. count_text u (names_at k m) + one_if (text_eq n u)) (eq_of_text_eq w v e))
  | inr e ↦ rw (find-alter [] (add_name n) w v m, e) (omega arith)
]

listed-push_doc :
    (d c : Text) (w v : List ℕ) (n u : Text) (m : DocMap)
    → listed c v u (push_doc d w n m)
      ≡ listed c v u m + one_if (text_eq d c && (text_eq w v && text_eq n u))
unfolding push_doc
listed-push_doc d c w v n u m = elim (Bool-cases (text_eq d c)) [
  | inl e ↦
      rw (find-alter [] (add_locks w n) d c m, e)
        (names_at-add_locks w v n u (or_else [] (find_key d m))
          ∙ ap
              (λ k.
                count_text u (names_at v (or_else [] (find_key k m)))
                + one_if (text_eq w v && text_eq n u))
              (eq_of_text_eq d c e))
  | inr e ↦ rw (find-alter [] (add_locks w n) d c m, e) (omega arith)
]

-- How often a report shows the lock combination as the winner.
abbrev won_by_mark : Mark → ℕ → ℕ
won_by_mark is_winner k = k
won_by_mark is_conflict k = 0
won_by_mark no_mark k = 0

abbrev pub times_won : List ℕ → List Line → ℕ
times_won w [] = 0
times_won w (set_line h k ∷ ls) = times_won w ls
times_won w (order_line l ∷ ls) = won_by_mark l.mark (one_if (text_eq l.order w)) + times_won w ls

-- Over the reports of the members of a data type with the name.
abbrev pub times_reported : Text → List ℕ → Text → List (InputMember × List Line) → ℕ
times_reported d w n [] = 0
times_reported d w n ((x, ls) ∷ rows) =
    (if text_eq x.datatype d && text_eq (combined_name x) n then times_won w ls else 0)
    + times_reported d w n rows

listed-push_marked :
    (k : Mark) (d c : Text) (w v : List ℕ) (n u : Text) (m : DocMap)
    → listed c v u (push_marked k d w n m)
      ≡ listed c v u m
        + (if text_eq d c && text_eq n u then won_by_mark k (one_if (text_eq w v)) else 0)
listed-push_marked is_winner d c w v n u m =
    let q = listed-push_doc d c w v n u m in ground (arith, q)
listed-push_marked is_conflict d c w v n u m = ground arith
listed-push_marked no_mark d c w v n u m = ground arith

add_if :
    (b : Bool) (p q r w t : ℕ)
    → q ≡ r + (if b then w else 0)
    → p ≡ q + (if b then t else 0)
    → p ≡ r + (if b then w + t else 0)
add_if true p q r w t h k = omega (arith, h, k)
add_if false p q r w t h k = omega (arith, h, k)

listed-push_lines :
    (x : InputMember) (c : Text) (v : List ℕ) (u : Text) (ls : List Line) (m : DocMap)
    → listed c v u (push_lines x ls m)
      ≡ listed c v u m
        + (if text_eq x.datatype c && text_eq (combined_name x) u then times_won v ls else 0)
unfolding push_lines
listed-push_lines x c v u [] m = ground arith
listed-push_lines x c v u (set_line h k ∷ ls) m = listed-push_lines x c v u ls m
listed-push_lines x c v u (order_line l ∷ ls) m =
    add_if (text_eq x.datatype c && text_eq (combined_name x) u) _ _ _ _ (times_won v ls)
      (listed-push_marked l.mark x.datatype c l.order v (combined_name x) u m)
      (listed-push_lines x c v u ls (push_marked l.mark x.datatype l.order (combined_name x) m))

listed-push_rows :
    (c : Text) (v : List ℕ) (u : Text) (rows : List (InputMember × List Line)) (m : DocMap)
    → listed c v u (push_rows rows m) ≡ listed c v u m + times_reported c v u rows
unfolding push_rows
listed-push_rows c v u [] m = omega arith
listed-push_rows c v u ((x, ls) ∷ rows) m =
    let first = listed-push_lines x c v u ls m in
    let rest = listed-push_rows c v u rows (push_lines x ls m) in omega (arith, first, rest)

abbrev IsCons : List Text → Type 0
IsCons [] = ⊥
IsCons (n ∷ ns) = Unit

-- No lock combination stands in the map without a member.
abbrev pub NoneEmpty : DocMap → Type 0
NoneEmpty = All (λ e. All (λ f. IsCons f.1) e.1)

add_name-IsCons : (n : Text) (ns : List Text) → IsCons (add_name n ns)
add_name-IsCons n [] = tt
add_name-IsCons n (t ∷ ns) = tt

push_doc-NoneEmpty :
    (d : Text) (w : List ℕ) (n : Text) (m : DocMap) → NoneEmpty m → NoneEmpty (push_doc d w n m)
unfolding push_doc
push_doc-NoneEmpty d w n m =
    let inner : (k : LockMap) → All (λ f. IsCons f.1) k → All (λ f. IsCons f.1) (add_locks w n k) =
      λ k.
        All-alter IsCons [] (add_name n) w k (add_name-IsCons n []) (λ v p. add_name-IsCons n v) in
    All-alter (All (λ f. IsCons f.1)) [] (add_locks w n) d m (inner [] tt) inner

push_lines-NoneEmpty :
    (x : InputMember) (ls : List Line) (m : DocMap) → NoneEmpty m → NoneEmpty (push_lines x ls m)
unfolding push_lines
push_lines-NoneEmpty x [] m h = h
push_lines-NoneEmpty x (set_line g k ∷ ls) m h = push_lines-NoneEmpty x ls m h
push_lines-NoneEmpty x (order_line l ∷ ls) m h =
    push_lines-NoneEmpty x ls (push_marked l.mark x.datatype l.order (combined_name x) m)
      (by_mark l.mark)
  where
    by_mark : (k : Mark) → NoneEmpty (push_marked k x.datatype l.order (combined_name x) m)
    by_mark is_winner = push_doc-NoneEmpty x.datatype l.order (combined_name x) m h
    by_mark is_conflict = h
    by_mark no_mark = h

push_rows-NoneEmpty :
    (rows : List (InputMember × List Line)) (m : DocMap)
    → NoneEmpty m
    → NoneEmpty (push_rows rows m)
unfolding push_rows
push_rows-NoneEmpty [] m h = h
push_rows-NoneEmpty ((x, ls) ∷ rows) m h =
    push_rows-NoneEmpty rows (push_lines x ls m) (push_lines-NoneEmpty x ls m h)

times_won-winners : (w : List ℕ) (ls : List Line) → times_won w ls ≤ winners ls
times_won-winners w [] = omega arith
times_won-winners w (set_line h k ∷ ls) = times_won-winners w ls
times_won-winners w (order_line l ∷ ls) = by_mark l.mark (times_won-winners w ls)
  where
    by_mark :
        (k : Mark)
        → times_won w ls ≤ winners ls
        → won_by_mark k (one_if (text_eq l.order w)) + times_won w ls ≤ counts_winner k + winners ls
    by_mark is_winner rest = ground (arith, rest)
    by_mark is_conflict rest = omega (arith, rest)
    by_mark no_mark rest = omega (arith, rest)

-- How many members of a data type have a name.
abbrev pub count_members : Text → Text → List InputMember → ℕ
count_members d n [] = 0
count_members d n (x ∷ xs) =
    one_if (text_eq x.datatype d && text_eq (combined_name x) n) + count_members d n xs

times_reported-le :
    (d : Text) (w : List ℕ) (n : Text) (rows : List (InputMember × List Line))
    → All (λ (e : InputMember × List Line). winners e.1 ≤ 1) rows
    → times_reported d w n rows ≤ count_members d n (map (λ e. e.0) rows)
times_reported-le d w n [] a = omega arith
times_reported-le d w n ((x, ls) ∷ rows) a =
    let first = times_won-winners w ls in
    let rest = times_reported-le d w n rows a.1 in let one = a.0 in ground (arith, first, rest, one)

nothing_yet : (c : Text) (v : List ℕ) (u : Text) → listed c v u [] ≡ 0
unfolding find_key
nothing_yet c v u = refl

-- Mode DOC, for every list of fewer than 2^16 members and every other option: the reports are made,
-- and the documentation that comes of them lists a member under a data type and a lock combination
-- as often as a report of it shows this combination as the winner, which is once for each member of
-- that name that the options let through at most; and no combination stands in it without a member.
pub push_rows-lists :
    (d : Doubles) (s : Sorting) (o : Options d) (ms : List InputMember)
    → length ms < 2 ^ 16
    → (rows : List (InputMember × List Line)) × ((report_input d s (record o { mode = doc }) ms
          ≡ some rows)
        × (NoneEmpty (push_rows rows [])
            × ((c : Text) (v : List ℕ) (u : Text)
                → (listed c v u (push_rows rows []) ≡ times_reported c v u rows)
                  × (listed c v u (push_rows rows [])
                      ≤ count_members c u (accepted o.accepted_datatypes o.accepted_members ms)))))
push_rows-lists d s o ms few =
    let (rows, (e, (f, a))) = report_members-reports d s (record o { mode = doc }) ms few in
    (
      rows,
      (
        e,
        (
          push_rows-NoneEmpty rows [] tt,
          λ c v u.
              let q = listed-push_rows c v u rows [] in
              let z = nothing_yet c v u in
              let k = times_reported-le c v u rows a in
              let g = ap (count_members c u) f in (omega (arith, q, z), omega (arith, q, z, k, g)),
        ),
      ),
    )
