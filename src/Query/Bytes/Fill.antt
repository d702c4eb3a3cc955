-- ===== src/Query/Bytes/Fill.antt =====
-- The record that `QU_Insert` of part5/part5/insert.C builds from the values of the attributes.
use mathlib.Core.Path.{subst}
use mathlib.Core.List.{append_assoc}
use ubase.Base.{
  length-append, ℕ, ◌+◌, ◌≤◌, ◌≡◌, refl, ap, sym, ◌∙◌, Option, none, some, List, [], ◌∷◌, ◌++◌,
  length, drop, arith, if◌then◌else◌, Bool-cases, inl, inr, Option-cases, zero, suc, ◌<◌, ◌≢◌, ◌==◌,
  true, false, get_or, All,
}
use ubase.Catalog.Descriptors.{AttrDesc, AttrInfo, same_string}
use ubase.Query.{key}
use ubase.Query.Bytes.{put, field, total_len, fill_attr, fill}
use ubase.Query.Bytes.Put.{
  length-copy, length-put, put-behind, put-front, drop-front, copy-front, split_at,
}
use ubase.SortedFile.{copy}

-- The attributes lie one behind the other, from the offset on, as `createRel` lays them out.
abbrev pub IsLaid : ℕ → List AttrDesc → Type 0
IsLaid o [] = Unit
IsLaid o (a ∷ attrs) = (a.attr_offset ≡ o) × IsLaid (o + a.attr_len) attrs

-- The last value that has the name of the attribute.
abbrev pub last_value : AttrDesc → List AttrInfo → Option (List ℕ)
last_value a [] = none
last_value a (x ∷ values) = elim (last_value a values) [
  | some v ↦ some v
  | none ↦ if same_string a.attr_name x.attr_name then some x.attr_value else none
]

-- The string at the front of a list, up to the byte 0.
abbrev pub string : List ℕ → List ℕ
string [] = []
string (b ∷ bytes) = let rest = string bytes in if b == 0 then [] else b ∷ rest

-- The bytes from an index on.
abbrev pub Holds : List ℕ → (at len : ℕ) → List ℕ → Type 0
Holds array at len bytes = (k : ℕ) → k < len → get_or array (at + k) 0 ≡ get_or bytes k 0

same_string-true : (a b : List ℕ) → string a ≡ string b → same_string a b ≡ true
unfolding same_string
same_string-true [] [] h = refl
same_string-true [] (b ∷ ys) h = ground (arith, h)
same_string-true (a ∷ xs) [] h = ground (arith, h)
same_string-true (a ∷ xs) (b ∷ ys) h = elim (Bool-cases (a == 0)) [
  | inl e ↦ ground (arith, h)
  | inr e ↦ elim (Bool-cases (b == 0)) [
    | inl q ↦ ground (arith, h)
    | inr q ↦
        let cons : a ∷ string xs ≡ b ∷ string ys = rw (string, e, q) at h in
        let same : a ≡ b = cc in ground (arith, same_string-true xs ys cc)
  ]
]

same_string-false : (a b : List ℕ) → string a ≢ string b → same_string a b ≡ false
unfolding same_string
same_string-false [] [] h = absurd (h refl)
same_string-false [] (b ∷ ys) h = ground (arith, h)
same_string-false (a ∷ xs) [] h = ground (arith, h)
same_string-false (a ∷ xs) (b ∷ ys) h = elim (Bool-cases (a == b)) [
  | inr e ↦ ground arith
  | inl e ↦ elim (Bool-cases (a == 0)) [
    | inl q ↦ absurd (h (ground arith))
    | inr q ↦
        let ne : string xs ≢ string ys = λ r. h (ground (arith, r)) in
        ground (arith, same_string-false xs ys ne)
  ]
]

last_value-none :
    (a : AttrDesc) (late : List AttrInfo)
    → All (λ y. string y.attr_name ≢ string a.attr_name) late
    → last_value a late ≡ none
last_value-none a [] h = refl
last_value-none a (y ∷ late) h =
    rw (last_value-none a late h.1, same_string-false a.attr_name y.attr_name (λ e. h.0 (sym e)))
      refl

last_value-append :
    (a : AttrDesc) (early late : List AttrInfo) (x : AttrInfo)
    → string x.attr_name ≡ string a.attr_name
    → All (λ y. string y.attr_name ≢ string a.attr_name) late
    → last_value a (early ++ (x ∷ late)) ≡ some x.attr_value
last_value-append a [] late x named others =
    rw (last_value-none a late others, same_string-true a.attr_name x.attr_name (sym named)) refl
last_value-append a (y ∷ early) late x named others =
    rw (last_value-append a early late x named others) refl

get_or-copy : (n k : ℕ) (xs : List ℕ) → k < n → get_or (copy n xs) k 0 ≡ get_or xs k 0
unfolding copy
get_or-copy zero k xs lt = absurd (omega (arith, lt))
get_or-copy (suc n) zero xs lt = refl
get_or-copy (suc n) (suc k) [] lt = get_or-copy n k [] (omega (arith, lt))
get_or-copy (suc n) (suc k) (x ∷ xs) lt = get_or-copy n k xs (omega (arith, lt))

get_or-drop : (o k : ℕ) (xs : List ℕ) → get_or (drop o xs) k 0 ≡ get_or xs (o + k) 0
get_or-drop zero k xs = ap (λ n. get_or xs n 0) (omega arith)
get_or-drop (suc o) k [] = refl
get_or-drop (suc o) k (x ∷ xs) =
    let next : suc o + k ≡ suc (o + k) = omega arith in
    get_or-drop o k xs ∙ ap (λ n. get_or (x ∷ xs) n 0) (sym next)

field-byte :
    (a : AttrDesc) (array w : List ℕ)
    → field a array ≡ copy a.attr_len w
    → Holds array a.attr_offset a.attr_len w
unfolding field
field-byte a array w same k lt =
    sym (get_or-drop a.attr_offset k array)
    ∙ sym (get_or-copy a.attr_len k (drop a.attr_offset array) lt)
    ∙ ap (λ xs. get_or xs k 0) same
    ∙ get_or-copy a.attr_len k w lt

module _ (atoi atof : List ℕ → List ℕ) where
  -- The bytes that a value gives an attribute.
  abbrev pub value_bytes : AttrDesc → List ℕ → List ℕ
  value_bytes a v = copy a.attr_len (key atoi atof a.attr_type v)

  length-fill_attr :
      (a : AttrDesc) (values : List AttrInfo) (buf : List ℕ)
      → length (fill_attr atoi atof a values buf) ≡ length buf
  unfolding fill_attr
  length-fill_attr a [] buf = refl
  length-fill_attr a (x ∷ values) buf = elim (Bool-cases (same_string a.attr_name x.attr_name)) [
    | inl q ↦
        rw (fill_attr, q)
          (length-fill_attr a values _ ∙ length-put a.attr_offset (value_bytes a x.attr_value) buf)
    | inr q ↦ rw (fill_attr, q) (length-fill_attr a values buf)
  ]

  length-fill :
      (attrs : List AttrDesc) (values : List AttrInfo) (buf : List ℕ)
      → length (fill atoi atof attrs values buf) ≡ length buf
  unfolding fill
  length-fill [] values buf = refl
  length-fill (a ∷ attrs) values buf =
      length-fill attrs values (fill_attr atoi atof a values buf) ∙ length-fill_attr a values buf

  fill-append :
      (before after : List AttrDesc) (values : List AttrInfo) (buf : List ℕ)
      → fill atoi atof (before ++ after) values buf
        ≡ fill atoi atof after values (fill atoi atof before values buf)
  unfolding fill
  fill-append [] after values buf = refl
  fill-append (a ∷ before) after values buf =
      fill-append before after values (fill_attr atoi atof a values buf)

  fill_attr-behind :
      (a : AttrDesc) (values : List AttrInfo) (front buf : List ℕ) (k : ℕ)
      → a.attr_offset ≡ length front + k
      → (buf' : List ℕ) × (fill_attr atoi atof a values (front ++ buf) ≡ front ++ buf')
  unfolding fill_attr
  fill_attr-behind a [] front buf k e = (buf, refl)
  fill_attr-behind a (x ∷ values) front buf k e =
      elim (Bool-cases (same_string a.attr_name x.attr_name)) [
        | inl q ↦
            let v = value_bytes a x.attr_value in
            let (buf', same) = fill_attr-behind a values front (put k v buf) k e in
            (
              buf',
              rw (fill_attr, q)
                  (ap (fill_attr atoi atof a values) (put-behind front v buf a.attr_offset k e)
                    ∙ same),
            )
        | inr q ↦
            let (buf', same) = fill_attr-behind a values front buf k e in
            (buf', rw (fill_attr, q) same)
      ]

  -- Attributes further behind leave the front as it is.
  fill-behind :
      (attrs : List AttrDesc) (values : List AttrInfo) (front buf : List ℕ) (k : ℕ)
      → IsLaid (length front + k) attrs
      → (buf' : List ℕ) × (fill atoi atof attrs values (front ++ buf) ≡ front ++ buf')
  unfolding fill
  fill-behind [] values front buf k laid = (buf, refl)
  fill-behind (a ∷ attrs) values front buf k (at, laid) =
      let (buf1, first) = fill_attr-behind a values front buf k at in
      let laid' : IsLaid (length front + (k + a.attr_len)) attrs =
        subst (λ o. IsLaid o attrs) (omega arith) laid in
      let (buf2, rest) = fill-behind attrs values front buf1 (k + a.attr_len) laid' in
      (buf2, ap (fill atoi atof attrs values) first ∙ rest)

  -- An attribute that no value names.
  fill_attr-unnamed :
      (a : AttrDesc) (values : List AttrInfo) (buf : List ℕ)
      → last_value a values ≡ none
      → fill_attr atoi atof a values buf ≡ buf
  unfolding fill_attr
  fill_attr-unnamed a [] buf h = refl
  fill_attr-unnamed a (x ∷ values) buf h = elim (Option-cases (last_value a values)) [
    | inl e ↦ elim (Bool-cases (same_string a.attr_name x.attr_name)) [
      | inl q ↦ let h' : some x.attr_value ≡ none = rw (last_value, e, q) at h in absurd (cc)
      | inr q ↦ rw (fill_attr, q) (fill_attr-unnamed a values buf e)
    ]
    | inr (v, e) ↦ let h' : some v ≡ none = rw (last_value, e) at h in absurd (cc)
  ]

  -- The attribute gets the bytes of the last value with its name.
  fill_attr-last :
      (a : AttrDesc) (values : List AttrInfo) (front buf : List ℕ) (v : List ℕ)
      → a.attr_offset ≡ length front
      → a.attr_len ≤ length buf
      → last_value a values ≡ some v
      → (rest : List ℕ) × (fill_attr atoi atof a values (front ++ buf)
          ≡ front ++ (value_bytes a v ++ rest))
  unfolding fill_attr
  fill_attr-last a [] front buf v at long h = absurd (cc)
  fill_attr-last a (x ∷ values) front buf v at long h =
      let w = value_bytes a x.attr_value in
      let written : put a.attr_offset w (front ++ buf) ≡ front ++ put 0 w buf =
        put-behind front w buf a.attr_offset 0 (omega (arith, at)) in
      elim (Option-cases (last_value a values)) [
        | inr (u, e) ↦
            let h' : some u ≡ some v = rw (last_value, e) at h in
            elim (Bool-cases (same_string a.attr_name x.attr_name)) [
              | inl q ↦
                  let (rest, same) =
                    fill_attr-last a values front (put 0 w buf) v at
                      (omega (arith, long, length-put 0 w buf)) (e ∙ h') in
                  (rest, rw (fill_attr, q) (ap (fill_attr atoi atof a values) written ∙ same))
              | inr q ↦
                  let (rest, same) = fill_attr-last a values front buf v at long (e ∙ h') in
                  (rest, rw (fill_attr, q) same)
            ]
        | inl e ↦ elim (Bool-cases (same_string a.attr_name x.attr_name)) [
          | inl q ↦
              let h' : some x.attr_value ≡ some v = rw (last_value, e, q) at h in
              let which : x.attr_value ≡ v = cc in
              let wide : length w ≤ length buf =
                omega
                  (arith, long, length-copy a.attr_len (key atoi atof a.attr_type x.attr_value)) in
              (
                drop (length w) buf,
                rw (fill_attr, q)
                    (fill_attr-unnamed a values (put a.attr_offset w (front ++ buf)) e
                      ∙ written
                      ∙ ap (λ l. front ++ l) (put-front w buf wide)
                      ∙ ap (λ y. front ++ (value_bytes a y ++ drop (length w) buf)) which),
              )
          | inr q ↦ let h' : none ≡ some v = rw (last_value, e, q) at h in absurd (cc)
        ]
      ]

  IsLaid-append :
      (o : ℕ) (before : List AttrDesc) (a : AttrDesc) (after : List AttrDesc)
      → IsLaid o (before ++ (a ∷ after))
      → (a.attr_offset ≡ o + total_len before) × IsLaid (a.attr_offset + a.attr_len) after
  unfolding total_len
  IsLaid-append o [] a after (at, laid) =
      (omega (arith, at), subst (λ n. IsLaid (n + a.attr_len) after) (sym at) laid)
  IsLaid-append o (b ∷ before) a after (at, laid) =
      let (at', laid') = IsLaid-append (o + b.attr_len) before a after laid in
      (omega (arith, at'), laid')

  total_len-append :
      (before after : List AttrDesc)
      → total_len (before ++ after) ≡ total_len before + total_len after
  unfolding total_len
  total_len-append [] after = omega arith
  total_len-append (a ∷ before) after = omega (arith, total_len-append before after)

  field-at :
      (a : AttrDesc) (front b rest : List ℕ)
      → length front ≡ a.attr_offset
      → length b ≡ a.attr_len
      → field a (front ++ (b ++ rest)) ≡ b
  unfolding field
  field-at a front b rest here size =
      ap (λ n. copy a.attr_len (drop n (front ++ (b ++ rest)))) (sym here)
      ∙ ap (copy a.attr_len) (drop-front front (b ++ rest))
      ∙ ap (λ n. copy n (b ++ rest)) (sym size)
      ∙ copy-front b rest

  laid_field :
      (before after : List AttrDesc) (a : AttrDesc) (values : List AttrInfo) (buf : List ℕ)
      (v : List ℕ)
      → IsLaid 0 (before ++ (a ∷ after))
      → length buf ≡ total_len (before ++ (a ∷ after))
      → last_value a values ≡ some v
      → field a (fill atoi atof (before ++ (a ∷ after)) values buf) ≡ value_bytes a v
  unfolding fill total_len
  laid_field before after a values buf v laid size h =
      let (at, behind) = IsLaid-append 0 before a after laid in
      let buf1 = fill atoi atof before values buf in
      let size1 = length-fill before values buf ∙ size ∙ total_len-append before (a ∷ after) in
      let (front, m, wide, cut) = split_at a.attr_offset buf1 (omega (arith, at, size1)) in
      let rest_size = sym (ap length cut ∙ length-append front m) in
      let (rest, first) =
        fill_attr-last a values front m v (sym wide) (omega (arith, rest_size, size1, wide, at))
          h in
      let b = value_bytes a v in
      let b_size : length b ≡ a.attr_len = length-copy a.attr_len (key atoi atof a.attr_type v) in
      let front_size = length-append front b in
      let (m', later) =
        fill-behind after values (front ++ b) rest 0
          (subst (λ o. IsLaid o after) (omega (arith, front_size, b_size, wide)) behind) in
      let all : fill atoi atof (before ++ (a ∷ after)) values buf ≡ front ++ (b ++ m') =
        fill-append before (a ∷ after) values buf
        ∙ ap (λ l. fill atoi atof (a ∷ after) values l) cut
        ∙ ap (fill atoi atof after values) (first ∙ sym (append_assoc front b rest))
        ∙ later
        ∙ append_assoc front b m' in
      ap (field a) all ∙ field-at a front b m' wide b_size

  -- `QU_Insert`, the attributes laid out one behind the other in an array of their total length: if `x` is
  -- the last value whose name is the string of the attribute's name, then the bytes of the array from the
  -- offset of the attribute on are, over its length, those of `atoi` of the value for the type INTEGER
  -- (1), those of `atof` for FLOAT (2), and the value's own ones for any other type.
  pub fill-value :
      (before after : List AttrDesc) (a : AttrDesc) (early late : List AttrInfo) (x : AttrInfo)
      (buf : List ℕ)
      → IsLaid 0 (before ++ (a ∷ after))
      → length buf ≡ total_len (before ++ (a ∷ after))
      → string x.attr_name ≡ string a.attr_name
      → All (λ y. string y.attr_name ≢ string a.attr_name) late
      → let array = fill atoi atof (before ++ (a ∷ after)) (early ++ (x ∷ late)) buf in
        (a.attr_type ≡ 1 → Holds array a.attr_offset a.attr_len (atoi x.attr_value))
        × (a.attr_type ≡ 2 → Holds array a.attr_offset a.attr_len (atof x.attr_value))
        × (a.attr_type ≢ 1 → a.attr_type ≢ 2 → Holds array a.attr_offset a.attr_len x.attr_value)
  unfolding key
  fill-value before after a early late x buf laid size named others =
      let v = x.attr_value in
      let array = fill atoi atof (before ++ (a ∷ after)) (early ++ (x ∷ late)) buf in
      let same =
        laid_field before after a (early ++ (x ∷ late)) buf v laid size
          (last_value-append a early late x named others) in
      let bytes : (w : List ℕ)
          → key atoi atof a.attr_type v ≡ w
          → Holds array a.attr_offset a.attr_len w =
        λ w e k lt. field-byte a array w (same ∙ ap (copy a.attr_len) e) k lt in
      (
        λ e. bytes (atoi v) (ground (arith, e)),
        λ e. bytes (atof v) (ground (arith, e)),
        λ e q. bytes v (ground (arith, e, q)),
      )
