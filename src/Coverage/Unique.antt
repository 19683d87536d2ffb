-- ===== src/Coverage/Unique.antt =====
-- sortuniq, and the dump of a trace, whose program counters pass through a set.
use lockdoc_tools.Common.{
  lex_lt, lex_lt_trans, lex_lt_total, ℕ, le_cases, zero, suc, ◌+◌, ◌≤◌, ◌<◌, ◌≡◌, ◌↔◌, inl, inr,
  refl, sym, ◌∙◌, false, some, List, [], ◌∷◌, ltb, Option, get_elem?, length, arith, Bool-cases,
  Text, text_eq, eq_of_text_eq, pos, subst, ap, some_inj,
}
use lockdoc_tools.Common.SortedSet.{
  ltb-IsStrict, IsStrict, Among, Rising, insert_all-sorts, insert_all,
}
use lockdoc_tools.Coverage.{
  kcov_trace_pc, sort_unique, put_word, read_words, finish_kcov, dump_trace, print_words,
}

lex_lt_connected : (s t : Text) → lex_lt s t ≡ false → lex_lt t s ≡ false → t ≡ s
lex_lt_connected s t h k = elim (Bool-cases (text_eq s t)) [
  | inl e ↦ sym (eq_of_text_eq s t e)
  | inr e ↦ absurd (cc (lex_lt_total s t e k, h))
]

lex_lt-IsStrict : IsStrict Text lex_lt
lex_lt-IsStrict = record { lt_trans = lex_lt_trans; lt_connected = lex_lt_connected }

-- sortuniq writes the lines of its input, each once, in the order of their bytes.
pub sort_unique-sorts :
    (lines : List Text)
    → Rising lex_lt (sort_unique lines) × ((l : Text) → Among l (sort_unique lines) ↔ Among l lines)
unfolding sort_unique
sort_unique-sorts lines = insert_all-sorts lex_lt lex_lt-IsStrict lines

get_elem?-at :
    {A : Type 0} (xs : List A) (i : ℕ) → i < length xs → (x : A) × (get_elem? xs i ≡ some x)
get_elem?-at [] i l = absurd (omega (arith, l))
get_elem?-at (x ∷ xs) zero l = (x, refl)
get_elem?-at (x ∷ xs) (suc i) l = get_elem?-at xs i (omega (arith, l))

-- The word after place `i`, or after one between it and `e`, is `a`.
abbrev pub Recorded : List ℕ → ℕ → ℕ → ℕ → Type 0
Recorded area a i e = (k : ℕ) × ((i ≤ k) × ((k < e) × (get_elem? area (k + 1) ≡ some a)))

abbrev Reads : List ℕ → ℕ → ℕ → Option (List ℕ) → Type 0
Reads area i e r = (ws : List ℕ) × ((r ≡ some ws) × ((a : ℕ) → Among a ws ↔ Recorded area a i e))

put_word-Reads :
    (area : List ℕ) (i e : ℕ) (r : Option (List ℕ))
    → i < e
    → e < length area
    → Reads area (suc i) e r
    → Reads area i e (put_word (get_elem? area (i + 1)) r)
put_word-Reads area i e r l u (ws, (q, m)) =
    let (w, g) = get_elem?-at area (i + 1) (omega (arith, l, u)) in
    (
      w ∷ ws,
      (
        rw (g, q) refl,
        λ a. (
          λ h. elim h [
            | inl p ↦ (i, (omega arith, (l, subst (λ t. get_elem? area (i + 1) ≡ some t) p g)))
            | inr b ↦ (let (k, (b1, b2)) = (m a).0 b in (k, (omega (arith, b1), b2)))
          ],
          λ (k, (b, (c, p))). elim (le_cases i k b) [
            | inl d ↦
                inl (some_inj w a (sym g ∙ subst (λ t. get_elem? area (t + 1) ≡ some a) (sym d) p))
            | inr d ↦ inr ((m a).1 (k, (d, (c, p))))
          ],
        ),
      ),
    )

read_words-Reads :
    (area : List ℕ) (left i e : ℕ)
    → e ≡ i + left
    → e < length area
    → Reads area i e (read_words left i area)
unfolding read_words
read_words-Reads area zero i e h l =
    ([], (refl, λ a. (λ v. absurd v, λ (k, (b, (c, p))). absurd (omega (arith, b, c, h)))))
read_words-Reads area (suc left) i e h l =
    put_word-Reads area i e (read_words left (suc i) area) (omega (arith, h)) l
      (read_words-Reads area left (suc i) e (omega (arith, h)) l)

finish_trace :
    (fd n : ℕ) (area ws : List ℕ)
    → get_elem? area 0 ≡ some n
    → read_words n 0 area ≡ some ws
    → finish_kcov kcov_trace_pc (pos (suc fd)) area ≡ some (insert_all ltb ws [])
unfolding finish_kcov dump_trace
finish_trace fd n area ws h q = ap (λ t. dump_trace t area) h ∙ ap print_words q

-- With an open descriptor and no more program counters than the area has room for, the dump of a
-- trace prints exactly the recorded ones, each once, in rising order, without a read past the area.
pub finish_kcov-prints :
    (fd n : ℕ) (area : List ℕ)
    → get_elem? area 0 ≡ some n
    → n < length area
    → (out : List ℕ) × ((finish_kcov kcov_trace_pc (pos (suc fd)) area ≡ some out)
        × (Rising ltb out × ((a : ℕ) → Among a out ↔ Recorded area a 0 n)))
finish_kcov-prints fd n area h l =
    let (ws, (q, m)) = read_words-Reads area n 0 n (omega arith) l in
    let s = insert_all-sorts ltb ltb-IsStrict ws in
    (
      insert_all ltb ws [],
      (
        finish_trace fd n area ws h q,
        (s.0, λ a. (λ x. (m a).0 ((s.1 a).0 x), λ y. (s.1 a).1 ((m a).1 y))),
      ),
    )
