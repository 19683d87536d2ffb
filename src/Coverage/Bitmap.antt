-- ===== src/Coverage/Bitmap.antt =====
-- The dump of the bitmap: which addresses it prints, and in which order.
use lockdoc_tools.Common.{
  ℕ, le_cases, zero, suc, ◌+◌, ◌*◌, ◌≤◌, ◌<◌, ◌≡◌, ◌↔◌, ◌⊎◌, inl, inr, refl, Bool, true, false,
  some, List, [], ◌∷◌, ◌++◌, ltb, if◌then◌else◌, some_inj, All, All-append, get_elem?, length,
  arith, pos, subst, sym,
}
use lockdoc_tools.Common.SortedSet.{Among, Rising, Among-append}
use lockdoc_tools.Coverage.{
  kcov_trace_unique_pc, address, base_address, has_bit, dump_bits, dump_words, finish_kcov,
}

-- A set bit of word `i`, from bit `j` on and before bit `e`, that stands for `a`.
abbrev pub BitOf : ℕ → ℕ → ℕ → ℕ → ℕ → Type 0
BitOf a i j e w =
    (m : ℕ) × ((j ≤ m) × ((m < e) × ((has_bit w m ≡ true) × (address (i * 64 + m) ≡ a))))

-- A set bit of a word of the area that begins at word `i`.
abbrev pub InBitmap : ℕ → ℕ → List ℕ → Type 0
InBitmap a i area = (k : ℕ) × ((w : ℕ) × ((get_elem? area k ≡ some w) × BitOf a (i + k) 0 64 w))

later : (a i j e w : ℕ) → BitOf a i (suc j) e w → BitOf a i j e w
later a i j e w (m, (l, rest)) = (m, (omega (arith, l), rest))

first :
    (a i j e w : ℕ)
    → BitOf a i j e w
    → ((has_bit w j ≡ true) × (address (i * 64 + j) ≡ a)) ⊎ BitOf a i (suc j) e w
first a i j e w (m, (l, (u, (b, p)))) = elim (le_cases j m l) [
  | inl q ↦ inl (subst (λ t. (has_bit w t ≡ true) × (address (i * 64 + t) ≡ a)) (sym q) (b, p))
  | inr s ↦ inr (m, (s, (u, (b, p))))
]

-- One turn of the inner loop, with the value of its test.
bit_step :
    (a i j e w : ℕ) (rest : List ℕ) (t : Bool)
    → has_bit w j ≡ t
    → j < e
    → Among a rest ↔ BitOf a i (suc j) e w
    → Among a (if t then address (i * 64 + j) ∷ rest else rest) ↔ BitOf a i j e w
bit_step a i j e w rest true h l r = (
  λ m. elim m [ inl p ↦ (j, (omega arith, (l, (h, p)))) | inr q ↦ later a i j e w (r.0 q) ],
  λ b. elim (first a i j e w b) [ inl p ↦ inl p.1 | inr q ↦ inr (r.1 q) ],
)
bit_step a i j e w rest false h l r = (
  λ q. later a i j e w (r.0 q),
  λ b. elim (first a i j e w b) [ inl p ↦ absurd (cc (p.0, h)) | inr q ↦ r.1 q ],
)

dump_bits-Among :
    (a left i j e w : ℕ) → e ≡ j + left → Among a (dump_bits left i j w) ↔ BitOf a i j e w
unfolding dump_bits
dump_bits-Among a zero i j e w h =
    (λ v. absurd v, λ (m, (l, (u, r))). absurd (omega (arith, l, u, h)))
dump_bits-Among a (suc left) i j e w h =
    bit_step a i j e w (dump_bits left i (suc j) w) (has_bit w j) refl (omega (arith, h))
      (dump_bits-Among a left i (suc j) e w (omega (arith, h)))

here_word : (a i x : ℕ) (area : List ℕ) → BitOf a i 0 64 x → InBitmap a i (x ∷ area)
here_word a i x area b = (0, (x, (refl, subst (λ t. BitOf a t 0 64 x) (omega arith) b)))

later_word : (a i x : ℕ) (area : List ℕ) → InBitmap a (suc i) area → InBitmap a i (x ∷ area)
later_word a i x area (k, (w, (e, b))) =
    (suc k, (w, (e, subst (λ t. BitOf a t 0 64 w) (omega arith) b)))

first_word :
    (a i x : ℕ) (area : List ℕ)
    → InBitmap a i (x ∷ area)
    → BitOf a i 0 64 x ⊎ InBitmap a (suc i) area
first_word a i x area (zero, (w, (e, b))) = inl (
    subst (λ t. BitOf a t 0 64 x) (omega arith)
      (subst (λ v. BitOf a (i + 0) 0 64 v) (sym (some_inj x w e)) b))
first_word a i x area (suc k, (w, (e, b))) =
    inr (k, (w, (e, subst (λ t. BitOf a t 0 64 w) (omega arith) b)))

dump_words-Among : (a i : ℕ) (area : List ℕ) → Among a (dump_words i area) ↔ InBitmap a i area
unfolding dump_words
dump_words-Among a i [] = (λ v. absurd v, λ (k, (w, (e, r))). absurd (cc e))
dump_words-Among a i (x ∷ area) =
    let bits = dump_bits-Among a 64 i 0 64 x (omega arith) in
    let rest = dump_words-Among a (suc i) area in
    let parts = Among-append a (dump_bits 64 i 0 x) (dump_words (suc i) area) in
    (
      λ m. elim (parts.0 m) [
        | inl p ↦ here_word a i x area (bits.0 p)
        | inr q ↦ later_word a i x area (rest.0 q)
      ],
      λ b. elim (first_word a i x area b) [
        | inl p ↦ parts.1 (inl (bits.1 p))
        | inr q ↦ parts.1 (inr (rest.1 q))
      ],
    )

address_small : (n : ℕ) → n < 2130706432 → address n ≡ base_address + n
address_small n l = omega (arith, l)

-- Addresses from place `n` on and before place `e`.
abbrev Between : ℕ → ℕ → ℕ → Type 0
Between n e a = (base_address + n ≤ a) × (a < base_address + e)

Between-All :
    (n m e f : ℕ) (xs : List ℕ) → n ≤ m → e ≤ f → All (Between m e) xs → All (Between n f) xs
Between-All n m e f [] l k b = tt
Between-All n m e f (x ∷ xs) l k ((p, q), b) =
    ((omega (arith, l, p), omega (arith, k, q)), Between-All n m e f xs l k b)

above :
    (n e a : ℕ) (xs : List ℕ)
    → a < base_address + n
    → All (Between n e) xs
    → All (λ y. ltb a y ≡ true) xs
above n e a [] l b = tt
above n e a (x ∷ xs) l (p, b) = (ground (arith, l, p.0), above n e a xs l b)

-- A list that rises within its bounds.
abbrev Runs : ℕ → ℕ → List ℕ → Type 0
Runs n e xs = All (Between n e) xs × Rising ltb xs

Runs-append :
    (n m e : ℕ) (xs ys : List ℕ) → n ≤ m → m ≤ e → Runs n m xs → Runs m e ys → Runs n e (xs ++ ys)
Runs-append n m e [] ys l k r s = (Between-All n m e e ys l (omega arith) s.0, s.1)
Runs-append n m e (x ∷ xs) ys l k ((b, bs), (h, r)) s =
    let rest = Runs-append n m e xs ys l k (bs, r) s in
    (
      ((b.0, omega (arith, b.1, k)), rest.0),
      (All-append (λ y. ltb x y ≡ true) xs ys h (above m e x ys b.1 s.0), rest.1),
    )

one_bit :
    (i j e : ℕ) (rest : List ℕ) (t : Bool)
    → i * 64 + e < 2130706433
    → j < e
    → Runs (i * 64 + suc j) (i * 64 + e) rest
    → Runs (i * 64 + j) (i * 64 + e) (if t then address (i * 64 + j) ∷ rest else rest)
one_bit i j e rest true l k r =
    let a = address_small (i * 64 + j) (omega (arith, l, k)) in
    (
      (
        (omega (arith, a), omega (arith, a, k)),
        Between-All (i * 64 + j) (i * 64 + suc j) (i * 64 + e) (i * 64 + e) rest (omega arith)
            (omega arith) r.0,
      ),
      (above (i * 64 + suc j) (i * 64 + e) (address (i * 64 + j)) rest (omega (arith, a)) r.0, r.1),
    )
one_bit i j e rest false l k r = (
  Between-All (i * 64 + j) (i * 64 + suc j) (i * 64 + e) (i * 64 + e) rest (omega arith)
      (omega arith) r.0,
  r.1,
)

dump_bits-Runs :
    (left i j e w : ℕ)
    → e ≡ j + left
    → i * 64 + e < 2130706433
    → Runs (i * 64 + j) (i * 64 + e) (dump_bits left i j w)
unfolding dump_bits
dump_bits-Runs zero i j e w h l = (tt, tt)
dump_bits-Runs (suc left) i j e w h l =
    one_bit i j e (dump_bits left i (suc j) w) (has_bit w j) l (omega (arith, h))
      (dump_bits-Runs left i (suc j) e w (omega (arith, h)) l)

dump_word-Runs :
    (i x : ℕ) → suc i * 64 < 2130706433 → Runs (i * 64) (suc i * 64) (dump_bits 64 i 0 x)
dump_word-Runs i x l =
    let r = dump_bits-Runs 64 i 0 64 x (omega arith) (omega (arith, l)) in
    (
      Between-All (i * 64) (i * 64 + 0) (i * 64 + 64) (suc i * 64) (dump_bits 64 i 0 x)
          (omega arith) (omega arith) r.0,
      r.1,
    )

dump_words-Runs :
    (i e : ℕ) (area : List ℕ)
    → e ≡ i + length area
    → e * 64 < 2130706433
    → Runs (i * 64) (e * 64) (dump_words i area)
unfolding dump_words
dump_words-Runs i e [] h l = (tt, tt)
dump_words-Runs i e (x ∷ area) h l =
    Runs-append (i * 64) (suc i * 64) (e * 64) (dump_bits 64 i 0 x) (dump_words (suc i) area)
      (omega arith) (omega (arith, h)) (dump_word-Runs i x (omega (arith, h, l)))
      (dump_words-Runs (suc i) e area (omega (arith, h)) l)

-- With an open descriptor, the dump of the bitmap prints exactly the addresses of its set bits.
pub finish_kcov-covers :
    (fd : ℕ) (area : List ℕ)
    → (out : List ℕ) × ((finish_kcov kcov_trace_unique_pc (pos (suc fd)) area ≡ some out)
        × ((a : ℕ) → Among a out ↔ InBitmap a 0 area))
unfolding finish_kcov
finish_kcov-covers fd area = (dump_words 0 area, (refl, λ a. dump_words-Among a 0 area))

-- With an open descriptor and a bitmap of at most 33292288 words, the dump rises, so that no address
-- is printed twice, and stays between the base address and the address after the last bit.
pub finish_kcov-Rising :
    (fd : ℕ) (area : List ℕ)
    → length area ≤ 33292288
    → (out : List ℕ) × ((finish_kcov kcov_trace_unique_pc (pos (suc fd)) area ≡ some out)
        × (Rising ltb out
            × All (λ a. (base_address ≤ a) × (a < base_address + length area * 64)) out))
unfolding finish_kcov
finish_kcov-Rising fd area l =
    let r = dump_words-Runs 0 (length area) area (omega arith) (omega (arith, l)) in
    (dump_words 0 area, (refl, (r.1, r.0)))
