-- ===== src/Catalog/Names.antt =====
-- The comparison of names in the catalogs of part5/part5: catalog.C and create.C.
use ubase.Base.{
  ℕ, ◌≡◌, ◌≢◌, ◌↔◌, inl, inr, refl, sym, ap, ◌∙◌, true, false, List, [], ◌∷◌, ltb, arith, All,
  Bool-cases,
}
use ubase.Catalog.Descriptors.{AttrInfo, max_name, is_equal, is_name, has_name, duplicated}
use ubase.HeapFile.Match.{Diff, equal, less, greater, unordered, strncmp}
use ubase.HeapFile.Match.Order.{c_string, lexicographic, strncmp-lexicographic}

lexicographic_self : (xs : List ℕ) → lexicographic xs xs ≡ equal
lexicographic_self [] = refl
lexicographic_self (x ∷ xs) = ground (arith, lexicographic_self xs)

lexicographic_equal : (xs ys : List ℕ) → lexicographic xs ys ≡ equal → xs ≡ ys
lexicographic_equal [] [] h = refl
lexicographic_equal [] (y ∷ ys) h = absurd (cc)
lexicographic_equal (x ∷ xs) [] h = absurd (cc)
lexicographic_equal (x ∷ xs) (y ∷ ys) h = elim (Bool-cases (ltb x y)) [
  | inl e ↦ absurd (ground arith)
  | inr e ↦ elim (Bool-cases (ltb y x)) [
    | inl f ↦ absurd (ground arith)
    | inr f ↦
        let head : x ≡ y = ground arith in
        let rest : lexicographic xs ys ≡ equal = ground arith in
        rw (head, lexicographic_equal xs ys rest) refl
  ]
]

-- The name of an attribute: a string of at most 32 bytes.
abbrev pub name_of : List ℕ → List ℕ
name_of bytes = c_string max_name bytes

is_equal-true : (d : Diff) → is_equal d ≡ true → d ≡ equal
is_equal-true equal h = refl
is_equal-true less h = absurd (cc)
is_equal-true greater h = absurd (cc)
is_equal-true unordered h = absurd (cc)

is_name-true : (a b : List ℕ) → is_name a b ≡ true → name_of a ≡ name_of b
unfolding is_name
is_name-true a b h =
    lexicographic_equal (name_of a) (name_of b)
      (sym (strncmp-lexicographic max_name a b) ∙ is_equal-true (strncmp max_name a b) h)

is_name-false : (a b : List ℕ) → is_name a b ≡ false → name_of a ≢ name_of b
unfolding is_name
is_name-false a b h e =
    let same : strncmp max_name a b ≡ equal =
      strncmp-lexicographic max_name a b
      ∙ ap (λ x. lexicographic x (name_of b)) e
      ∙ lexicographic_self (name_of b) in
    let right : is_name a b ≡ true = ap is_equal same in cc

-- No name stands twice among the attributes.
abbrev pub AllDiffer : List AttrInfo → Type 0
AllDiffer [] = Unit
AllDiffer (a ∷ attrs) =
    All (λ (b : AttrInfo). name_of a.attr_name ≢ name_of b.attr_name) attrs × AllDiffer attrs

has_name-All :
    (name : List ℕ) (attrs : List AttrInfo)
    → (has_name name attrs ≡ false)
      ↔ All (λ (b : AttrInfo). name_of name ≢ name_of b.attr_name) attrs
unfolding has_name
has_name-All name [] = ((λ _. tt), (λ _. refl))
has_name-All name (a ∷ attrs) =
    let (to, from) = has_name-All name attrs in
    elim (Bool-cases (is_name name a.attr_name)) [
      | inl e ↦ (
        (λ h. absurd (ground (arith, h, e))),
        (λ (ne, _). absurd (ne (is_name-true name a.attr_name e))),
      )
      | inr e ↦ (
        (λ h. (is_name-false name a.attr_name e, to (ground (arith, h, e)))),
        (λ (_, rest). rw (has_name, e) (from rest)),
      )
    ]

-- The check of `createRel` for names that occur twice finds one exactly where two attributes have the
-- same name, as strings of at most 32 bytes.
pub duplicated-AllDiffer : (attrs : List AttrInfo) → (duplicated attrs ≡ false) ↔ AllDiffer attrs
unfolding duplicated
duplicated-AllDiffer [] = ((λ _. tt), (λ _. refl))
duplicated-AllDiffer (a ∷ attrs) =
    let (to, from) = duplicated-AllDiffer attrs in
    let (apart, there) = has_name-All a.attr_name attrs in
    (
      (λ h.
          let first : has_name a.attr_name attrs ≡ false = ground (arith, h) in
          let rest : duplicated attrs ≡ false = ground (arith, h, first) in (apart first, to rest)),
      (λ (ne, rest). rw (duplicated, there ne, from rest) refl),
    )
