-- ===== src/Hypothesizer/Input/Totals.antt =====
-- The whole input: its counts and the bounds of its ids.
use lockdoc_tools.Common.{
  wrap64, ℕ, suc, ◌+◌, ◌≤◌, ◌≡◌, refl, subst, Bool, true, false, Option, none, some, List, [], ◌∷◌,
  ltb, if◌then◌else◌, Text, length, All, arith,
}
use lockdoc_tools.Common.Try.{Try, ok, err, ◌>>=◌, or_fail, bind-ok}
use lockdoc_tools.Hypothesizer.Input.{
  ReadError, not_a_number, short_name, too_many_members, InputMember, Input, count_accesses,
  parse_name, is_member, max_id, read_locks, read_member, read_members, read_columns, read_row,
  read_line, read_lines, read_input, no_input, is_header, split,
}
use lockdoc_tools.Hypothesizer.Input.Tally.{
  Known, KnownIn, Tallied, count_accesses-Tallied, parse_name-Tallied, Combinations,
}
use lockdoc_tools.Hypothesizer.Input.Names.{Grown-length, read_locks-Decodes}

Known-le : (a b : ℕ) (ids : List ℕ) → a ≤ b → Known a ids → Known b ids
Known-le a b [] h k = tt
Known-le a b (i ∷ ids) h k = (omega (arith, k.0), Known-le a b ids h k.1)

KnownIn-le : (a b : ℕ) (m : Combinations) → a ≤ b → KnownIn a m → KnownIn b m
KnownIn-le a b [] h k = tt
KnownIn-le a b (e ∷ m) h k = (Known-le a b e.0 h k.0, KnownIn-le a b m h k.1)

Tallied-le : (a b : ℕ) (ms : List InputMember) → a ≤ b → All (Tallied a) ms → All (Tallied b) ms
Tallied-le a b [] h t = tt
Tallied-le a b (m ∷ ms) h t = (
  record {
    all = t.0.all;
    with_locks = t.0.with_locks;
    rising = t.0.rising;
    known = KnownIn-le a b m.combinations h t.0.known;
  },
  Tallied-le a b ms h t.1,
)

-- The input as far as it is read: ids fit into 16 bits, and the counts of each member are those of its combinations.
pub record Read (s : Input) : Type 0 where
  pub few_locks : length s.locks ≤ 65536
  pub few_members : length s.members ≤ 65536
  pub tallied : All (Tallied (length s.locks)) s.members

module _ (l : ℕ) (datatype : Text) (held : List ℕ) (n : ℕ) (k : Known l held) where
  -- The members from number `i` on.
  abbrev Bounded : ℕ → List InputMember → Type 0
  Bounded i ms = All (Tallied l) ms × (i + length ms ≤ 65536)

  joined :
      (m : InputMember) (i : ℕ) (ms rs : List InputMember) (c : Bool)
      (rest : Try ReadError (List InputMember))
      → ◌≡◌ {A = Try ReadError (List InputMember)}
          (if c then ok (count_accesses held n m ∷ ms) else rest >>= λ r. ok (m ∷ r))
          (ok rs)
      → Bounded i (m ∷ ms)
      → ((ts : List InputMember) → rest ≡ ok ts → Bounded (suc i) ts)
      → Bounded i rs
  joined m i ms rs true rest e b later =
      let q : count_accesses held n m ∷ ms ≡ rs = cc in
      subst (Bounded i) q ((count_accesses-Tallied l held n m k b.0.0, b.0.1), omega (arith, b.1))
  joined m i ms rs false rest e b later =
      let a = bind-ok rest _ rs e in
      let r = later a.0 a.1.0 in
      let q : m ∷ a.0 ≡ rs = cc in subst (Bounded i) q ((b.0.0, r.0), omega (arith, r.1))

  fresh :
      (i : ℕ) (m : InputMember) (rs : List InputMember) (c : Bool)
      → Tallied l m
      → ltb max_id i ≡ c
      → ◌≡◌ {A = Try ReadError (List InputMember)}
          (if c then err too_many_members else ok (count_accesses held n m ∷ []))
          (ok rs)
      → Bounded i rs
  fresh i m rs true t f e = cc
  fresh i m rs false t f e =
      let q : count_accesses held n m ∷ [] ≡ rs = cc in
      subst (Bounded i) q ((count_accesses-Tallied l held n m k t, tt), ground arith)

  parsed : (o : Option InputMember) (m : InputMember) → or_fail short_name o ≡ ok m → o ≡ some m
  parsed none m h = cc
  parsed (some x) m h = cc

  read_member-Bounded :
      (key : Text) (i : ℕ) (ms rs : List InputMember)
      → read_member datatype key held n i ms ≡ ok rs
      → Bounded i ms
      → Bounded i rs
  unfolding read_member
  read_member-Bounded key i [] rs e b =
      let a = bind-ok (or_fail short_name (parse_name datatype key)) _ rs e in
      fresh i a.0 rs (ltb max_id i)
        (parse_name-Tallied l datatype key a.0 (parsed (parse_name datatype key) a.0 a.1.0)) refl
        a.1.1
  read_member-Bounded key i (m ∷ ms) rs e b =
      joined m i ms rs (is_member datatype key m) (read_member datatype key held n (suc i) ms) e b
        λ ts q. read_member-Bounded key (suc i) ms ts q (b.0.1, omega (arith, b.1))

  read_members-Bounded :
      (ts : List Text) (ms rs : List InputMember)
      → read_members datatype ts held n ms ≡ ok rs
      → Bounded 0 ms
      → Bounded 0 rs
  unfolding read_members
  read_members-Bounded [] ms rs e b = let q : ms ≡ rs = cc in subst (Bounded 0) q b
  read_members-Bounded (t ∷ ts) ms rs e b =
      let a = bind-ok (read_member datatype t held n 0 ms) _ rs e in
      read_members-Bounded ts a.0 rs a.1.1 (read_member-Bounded t 0 ms a.0 a.1.0 b)

module _ (stoull : Text → Option ℕ) where
  read_columns-Read :
      (a b c d : Text) (s r : Input) → read_columns stoull a b c d s ≡ ok r → Read s → Read r
  unfolding read_columns
  read_columns-Read a b c d s r e h =
      let n = bind-ok (or_fail not_a_number (stoull d)) _ r e in
      let l = bind-ok (read_locks (split b',' c) s.locks) _ r n.1.1 in
      let m = bind-ok (read_members a (split b',' b) l.0.0 n.0 s.members) _ r l.1.1 in
      let g = read_locks-Decodes (split b',' c) s.locks l.0.0 l.0.1 l.1.0 in
      let w =
        read_members-Bounded (length l.0.1) a l.0.0 n.0 g.known (split b',' b) s.members m.0 m.1.0 (
          Tallied-le (length s.locks) (length l.0.1) s.members (Grown-length s.locks l.0.1 g.grown)
              h.tallied,
          omega (arith, h.few_members),
        ) in
      let q : record { accesscount = wrap64 (s.accesscount + n.0); locks = l.0.1; members = m.0 }
          ≡ r =
        cc in
      subst Read q
        (record { few_locks = g.few h.few_locks; few_members = omega (arith, w.1); tallied = w.0 })

  read_row-Read : (ts : List Text) (s r : Input) → read_row stoull ts s ≡ ok r → Read s → Read r
  unfolding read_row
  read_row-Read [] s r e h = let q : s ≡ r = cc in subst Read q h
  read_row-Read (a ∷ []) s r e h = let q : s ≡ r = cc in subst Read q h
  read_row-Read (a ∷ b ∷ []) s r e h = let q : s ≡ r = cc in subst Read q h
  read_row-Read (a ∷ b ∷ c ∷ []) s r e h = let q : s ≡ r = cc in subst Read q h
  read_row-Read (a ∷ b ∷ c ∷ d ∷ []) s r e h = read_columns-Read a b c d s r e h
  read_row-Read (a ∷ b ∷ c ∷ d ∷ f ∷ ts) s r e h = let q : s ≡ r = cc in subst Read q h

  read_lines-Read : (ts : List Text) (s r : Input) → read_lines stoull ts s ≡ ok r → Read s → Read r
  unfolding read_lines read_line
  read_lines-Read [] s r e h = let q : s ≡ r = cc in subst Read q h
  read_lines-Read (t ∷ ts) s r e h =
      let a = bind-ok (read_line stoull t s) _ r e in
      read_lines-Read ts a.0 r a.1.1 (read_row-Read (split b'\t' t) s a.0 a.1.0 h)

  no_input-Read : Read no_input
  no_input-Read = record { few_locks = omega arith; few_members = omega arith; tallied = tt }

  headed :
      (b : Bool) (t : Text) (ts : List Text) (s : Input)
      → (if b then read_lines stoull ts no_input else read_lines stoull (t ∷ ts) no_input) ≡ ok s
      → Read s
  headed true t ts s e = read_lines-Read ts no_input s e no_input-Read
  headed false t ts s e = read_lines-Read (t ∷ ts) no_input s e no_input-Read

  -- Of every input that is read to its end: there are at most 2^16 locks and members, so that each id fits into 16 bits; each combination of a member stands once, and names locks of the
  -- input only; and the two counts of a member are the sums over its combinations, and over those with a lock, in 64 bits.
  pub read_input-Read : (ts : List Text) (s : Input) → read_input stoull ts ≡ ok s → Read s
  unfolding read_input
  read_input-Read [] s e = let q : no_input ≡ s = cc in subst Read q no_input-Read
  read_input-Read (t ∷ ts) s e = headed (is_header t) t ts s e
