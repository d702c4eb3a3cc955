-- ===== src/HeapFile/Match/Order.antt =====
-- The comparisons of `matchRec` against the orders of signed integers and of strings.
use ubase.Base.{
  ℕ, zero, suc, ◌+◌, ◌-◌, ◌≤◌, ◌<◌, ◌≡◌, refl, Bool, true, false, not, some, List, [], ◌∷◌, ltb,
  leb, ◌==◌, ◌&&◌, ◌||◌, if◌then◌else◌, length, drop, get_or, arith, All, sym, inl, inr, Bool-cases,
}
use mathlib.Core.Path.{subst}
use ubase.HeapFile.Match.{
  Filter, Operator, lt, lte, eq, gte, gt, ne, Diff, less, equal, greater, unordered, integer,
  string, wrap, half, int_of, int_diff, strncmp, holds, diff, match_rec,
}
use ubase.Page.{Record}

abbrev pub order : ℕ → ℕ → Diff
order a b = if ltb a b then less else if ltb b a then greater else equal

-- The 32-bit pattern with its sign bit turned over: signed numbers in their order.
abbrev pub biased : ℕ → ℕ
biased a = if ltb a half then a + half else a - half

-- The signed difference of the patterns fits into 32 bits.
abbrev pub InRange : ℕ → ℕ → Type 0
InRange a b = (biased b ≤ biased a + half) × (biased a < biased b + half)

abbrev pub IsByte : ℕ → Type 0
IsByte b = b < 256

get_or-IsByte : (bytes : List ℕ) (i : ℕ) → All IsByte bytes → get_or bytes i 0 < 256
get_or-IsByte [] i h = omega arith
get_or-IsByte (b ∷ bytes) zero h = h.0
get_or-IsByte (b ∷ bytes) (suc i) h = get_or-IsByte bytes i h.1

drop-IsByte : (bytes : List ℕ) (i : ℕ) → All IsByte bytes → All IsByte (drop i bytes)
drop-IsByte bytes zero h = h
drop-IsByte [] (suc i) h = tt
drop-IsByte (b ∷ bytes) (suc i) h = drop-IsByte bytes i h.1

int_of_bounds : (bytes : List ℕ) → All IsByte bytes → int_of bytes < wrap
unfolding int_of
int_of_bounds bytes h = omega (
  arith,
  get_or-IsByte bytes 0 h,
  get_or-IsByte bytes 1 h,
  get_or-IsByte bytes 2 h,
  get_or-IsByte bytes 3 h,
)

int_diff-order :
    (a b : ℕ) → a < wrap → b < wrap → InRange a b → int_diff a b ≡ order (biased a) (biased b)
unfolding int_diff
int_diff-order a b ha hb r = ground arith

-- The operators as tests of two numbers.
abbrev pub compares : Operator → ℕ → ℕ → Bool
compares lt a b = ltb a b
compares lte a b = leb a b
compares eq a b = a == b
compares gte a b = leb b a
compares gt a b = ltb b a
compares ne a b = not (a == b)

holds-order : (op : Operator) (a b : ℕ) → holds op (order a b) ≡ compares op a b
unfolding holds
holds-order lt a b = ground arith
holds-order lte a b = ground arith
holds-order eq a b = ground arith
holds-order gte a b = ground arith
holds-order gt a b = ground arith
holds-order ne a b = ground arith

-- An integer filter, the record long enough and the difference of the two numbers within 32 bits:
-- `matchRec` makes of the attribute and of the filter's value the test of numbers that the operator
-- names, the sign bits turned over.
pub match_rec-order :
    (float_diff : List ℕ → List ℕ → Diff) (f : Filter) (rec : Record)
    → f.type ≡ integer
    → 1 ≤ f.length
    → f.offset + f.length ≤ length rec
    → All IsByte rec
    → All IsByte f.filter
    → InRange (int_of (drop f.offset rec)) (int_of f.filter)
    → match_rec float_diff (some f) rec
      ≡ compares f.op (biased (int_of (drop f.offset rec))) (biased (int_of f.filter))
unfolding match_rec diff
match_rec-order float_diff f rec type low long hr hf range =
    let fits : leb (length rec) (f.offset + f.length - 1) ≡ false = ground arith in
    let same =
      int_diff-order (int_of (drop f.offset rec)) (int_of f.filter)
        (int_of_bounds _ (drop-IsByte rec f.offset hr)) (int_of_bounds _ hf) range in
    rw (fits, type, same)
      (holds-order f.op (biased (int_of (drop f.offset rec))) (biased (int_of f.filter)))

-- The string of at most `n` bytes at the front of a list.
abbrev pub c_string : ℕ → List ℕ → List ℕ
c_string zero bytes = []
c_string (suc n) [] = []
c_string (suc n) (b ∷ bytes) = let rest = c_string n bytes in if b == 0 then [] else b ∷ rest

abbrev pub lexicographic : List ℕ → List ℕ → Diff
lexicographic [] [] = equal
lexicographic [] (b ∷ ys) = less
lexicographic (a ∷ xs) [] = greater
lexicographic (a ∷ xs) (b ∷ ys) =
    let rest = lexicographic xs ys in if ltb a b then less else if ltb b a then greater else rest

-- `strncmp` is the lexicographic order of the two strings, each cut after `n` bytes.
pub strncmp-lexicographic :
    (n : ℕ) (xs ys : List ℕ) → strncmp n xs ys ≡ lexicographic (c_string n xs) (c_string n ys)
unfolding strncmp
strncmp-lexicographic zero xs ys = refl
strncmp-lexicographic (suc n) [] [] = refl
strncmp-lexicographic (suc n) [] (b ∷ ys) = ground arith
strncmp-lexicographic (suc n) (a ∷ xs) [] = ground arith
strncmp-lexicographic (suc n) (a ∷ xs) (b ∷ ys) = ground (arith, strncmp-lexicographic n xs ys)

-- The first string stands before the second one.
abbrev pub precedes : List ℕ → List ℕ → Bool
precedes [] [] = false
precedes [] (b ∷ ys) = true
precedes (a ∷ xs) [] = false
precedes (a ∷ xs) (b ∷ ys) = let rest = precedes xs ys in ltb a b || (a == b && rest)

abbrev pub coincide : List ℕ → List ℕ → Bool
coincide [] [] = true
coincide [] (b ∷ ys) = false
coincide (a ∷ xs) [] = false
coincide (a ∷ xs) (b ∷ ys) = let rest = coincide xs ys in a == b && rest

-- The operators as tests of two strings.
abbrev pub string_compares : Operator → List ℕ → List ℕ → Bool
string_compares lt xs ys = precedes xs ys
string_compares lte xs ys = precedes xs ys || coincide xs ys
string_compares eq xs ys = coincide xs ys
string_compares gte xs ys = precedes ys xs || coincide xs ys
string_compares gt xs ys = precedes ys xs
string_compares ne xs ys = not (coincide xs ys)

-- What a comparison says of the two strings.
abbrev Tells : Diff → List ℕ → List ℕ → Type 0
Tells less xs ys = (precedes xs ys ≡ true) × (precedes ys xs ≡ false) × (coincide xs ys ≡ false)
Tells equal xs ys = (precedes xs ys ≡ false) × (precedes ys xs ≡ false) × (coincide xs ys ≡ true)
Tells greater xs ys = (precedes xs ys ≡ false) × (precedes ys xs ≡ true) × (coincide xs ys ≡ false)
Tells unordered xs ys = ⊥

Tells-cons : (a : ℕ) (xs ys : List ℕ) (d : Diff) → Tells d xs ys → Tells d (a ∷ xs) (a ∷ ys)
Tells-cons a xs ys less (p, q, r) = (ground arith, ground arith, ground arith)
Tells-cons a xs ys equal (p, q, r) = (ground arith, ground arith, ground arith)
Tells-cons a xs ys greater (p, q, r) = (ground arith, ground arith, ground arith)
Tells-cons a xs ys unordered h = h

lexicographic-Tells : (xs ys : List ℕ) → Tells (lexicographic xs ys) xs ys
lexicographic-Tells [] [] = (refl, refl, refl)
lexicographic-Tells [] (b ∷ ys) = (refl, refl, refl)
lexicographic-Tells (a ∷ xs) [] = (refl, refl, refl)
lexicographic-Tells (a ∷ xs) (b ∷ ys) =
    let rest = lexicographic-Tells xs ys in
    elim (Bool-cases (ltb a b)) [
      | inl e ↦ rw e (ground arith, ground arith, ground arith)
      | inr e ↦ elim (Bool-cases (ltb b a)) [
        | inl q ↦ rw (e, q) (ground arith, ground arith, ground arith)
        | inr q ↦
            let same : a ≡ b = ground arith in
            let run : lexicographic (a ∷ xs) (b ∷ ys) ≡ lexicographic xs ys = rw (e, q) refl in
            subst (λ d. Tells d (a ∷ xs) (b ∷ ys)) (sym run)
              (subst (λ c. Tells (lexicographic xs ys) (a ∷ xs) (c ∷ ys)) same
                (Tells-cons a xs ys (lexicographic xs ys) rest))
      ]
    ]

holds-string :
    (op : Operator) (d : Diff) (xs ys : List ℕ)
    → Tells d xs ys
    → holds op d ≡ string_compares op xs ys
unfolding holds
holds-string op unordered xs ys h = absurd h
holds-string lt less xs ys (p, q, r) = sym p
holds-string lt equal xs ys (p, q, r) = sym p
holds-string lt greater xs ys (p, q, r) = sym p
holds-string lte less xs ys (p, q, r) = rw p refl
holds-string lte equal xs ys (p, q, r) = rw (p, r) refl
holds-string lte greater xs ys (p, q, r) = rw (p, r) refl
holds-string eq less xs ys (p, q, r) = sym r
holds-string eq equal xs ys (p, q, r) = sym r
holds-string eq greater xs ys (p, q, r) = sym r
holds-string gte less xs ys (p, q, r) = rw (q, r) refl
holds-string gte equal xs ys (p, q, r) = rw (q, r) refl
holds-string gte greater xs ys (p, q, r) = rw q refl
holds-string gt less xs ys (p, q, r) = sym q
holds-string gt equal xs ys (p, q, r) = sym q
holds-string gt greater xs ys (p, q, r) = sym q
holds-string ne less xs ys (p, q, r) = rw r refl
holds-string ne equal xs ys (p, q, r) = rw r refl
holds-string ne greater xs ys (p, q, r) = rw r refl

-- A string filter, the record long enough: `matchRec` makes of the string at the offset of the record
-- and of the filter's string, each up to its byte 0 and cut after the length of the attribute, the
-- test of strings that the operator names.
pub match_rec-string :
    (float_diff : List ℕ → List ℕ → Diff) (f : Filter) (rec : Record)
    → f.type ≡ string
    → 1 ≤ f.length
    → f.offset + f.length ≤ length rec
    → match_rec float_diff (some f) rec
      ≡ string_compares f.op (c_string f.length (drop f.offset rec)) (c_string f.length f.filter)
unfolding match_rec diff
match_rec-string float_diff f rec type low long =
    let fits : leb (length rec) (f.offset + f.length - 1) ≡ false = ground arith in
    let xs = c_string f.length (drop f.offset rec) in
    let ys = c_string f.length f.filter in
    rw (fits, type, strncmp-lexicographic f.length (drop f.offset rec) f.filter)
      (holds-string f.op (lexicographic xs ys) xs ys (lexicographic-Tells xs ys))
