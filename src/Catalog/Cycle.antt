-- ===== src/Catalog/Cycle.antt =====
-- The descriptors of part5/part5/catalog.h read back from the bytes of their records.
use ubase.Base.{
  ℕ, zero, suc, ◌+◌, ◌<◌, ◌≡◌, refl, ap, ◌∙◌, List, [], ◌∷◌, ◌++◌, length, drop, arith,
}
use ubase.Catalog.Descriptors.{AttrDesc, take, int_bytes, attr_bytes, attr_of}
use ubase.HeapFile.Match.{int_of, wrap}

int_of-int_bytes : (n : ℕ) (rest : List ℕ) → n < wrap → int_of (int_bytes n ++ rest) ≡ n
unfolding int_of int_bytes
int_of-int_bytes n rest h = omega arith

take-append : (n : ℕ) (xs ys : List ℕ) → length xs ≡ n → take n (xs ++ ys) ≡ xs
take-append zero [] ys h = refl
take-append zero (x ∷ xs) ys h = absurd (omega (arith, h))
take-append (suc n) [] ys h = absurd (omega (arith, h))
take-append (suc n) (x ∷ xs) ys h = ap (λ l. x ∷ l) (take-append n xs ys (omega (arith, h)))

drop-append : (n m : ℕ) (xs ys : List ℕ) → length xs ≡ n → drop (n + m) (xs ++ ys) ≡ drop m ys
drop-append zero m [] ys h = ap (λ k. drop k ys) (omega arith)
drop-append zero m (x ∷ xs) ys h = absurd (omega (arith, h))
drop-append (suc n) m [] ys h = absurd (omega (arith, h))
drop-append (suc n) m (x ∷ xs) ys h =
    let count : suc n + m ≡ suc (n + m) = omega arith in
    ap (λ k. drop k (x ∷ xs ++ ys)) count ∙ drop-append n m xs ys (omega (arith, h))

same_fields :
    (x y : AttrDesc)
    → x.rel_name ≡ y.rel_name
    → x.attr_name ≡ y.attr_name
    → x.attr_offset ≡ y.attr_offset
    → x.attr_type ≡ y.attr_type
    → x.attr_len ≡ y.attr_len
    → x ≡ y
same_fields x y a b c d e = λ i. record {
  rel_name = a i;
  attr_name = b i;
  attr_offset = c i;
  attr_type = d i;
  attr_len = e i;
}

-- The structure of an attribute, with names of 32 bytes and numbers of 32 bits, is read back from the
-- bytes that are stored for it.
pub attr_of-attr_bytes :
    (d : AttrDesc)
    → length d.rel_name ≡ 32
    → length d.attr_name ≡ 32
    → d.attr_offset < wrap
    → d.attr_type < wrap
    → d.attr_len < wrap
    → attr_of (attr_bytes d) ≡ d
unfolding attr_of attr_bytes int_bytes
attr_of-attr_bytes d hr ha ho ht hl =
    let tail = int_bytes d.attr_offset ++ (int_bytes d.attr_type ++ int_bytes d.attr_len) in
    let numbers : (m : ℕ) → drop (32 + (32 + m)) (attr_bytes d) ≡ drop m tail = λ m.
      drop-append 32 (32 + m) d.rel_name (d.attr_name ++ tail) hr
      ∙ drop-append 32 m d.attr_name tail ha in
    same_fields (attr_of (attr_bytes d)) d (take-append 32 d.rel_name (d.attr_name ++ tail) hr)
      (ap (take 32) (drop-append 32 0 d.rel_name (d.attr_name ++ tail) hr)
        ∙ take-append 32 d.attr_name tail ha)
      (ap int_of (numbers 0)
        ∙ int_of-int_bytes d.attr_offset (int_bytes d.attr_type ++ int_bytes d.attr_len) ho)
      (ap int_of (numbers 4) ∙ int_of-int_bytes d.attr_type (int_bytes d.attr_len) ht)
      (ap int_of (numbers 8) ∙ int_of-int_bytes d.attr_len [] hl)
