-- ===== src/SortedFile/Order.antt =====
-- The comparison of part5/part5/sort.C as an order: what the merge of the runs needs of it.
use ubase.Base.{ℕ, zero, suc, ◌≤◌, ◌<◌, ◌≡◌, ◌↔◌, refl, ap, ◌∙◌, true, false, List, drop, arith}
use ubase.HeapFile.Match.{Diff, Datatype, int_of, int_diff, wrap}
use ubase.HeapFile.Match.Order.{biased, lexicographic}
use ubase.Page.{Record}
use ubase.SortedFile.{is_greater, memcmp, min, copy, reccmp}
use ubase.SortedFile.Next.{compare}

-- `a` may stand in front of `b`.
abbrev pub AtMost : (Record → Record → Diff) → Record → Record → Type 0
AtMost cmp a b = is_greater (cmp a b) ≡ false

-- On the records of which `P` holds the comparison is a total preorder.
pub record IsOrder (P : Record → Type 0) (cmp : Record → Record → Diff) : Type 0 where
  pub total : (a b : Record) → P a → P b → is_greater (cmp a b) ≡ true → AtMost cmp b a
  pub trans : (a b c : Record) → P a → P b → P c → AtMost cmp a b → AtMost cmp b c → AtMost cmp a c

memcmp_total :
    (n : ℕ) (xs ys : List ℕ)
    → is_greater (memcmp n xs ys) ≡ true
    → is_greater (memcmp n ys xs) ≡ false
unfolding memcmp
memcmp_total zero xs ys h = refl
memcmp_total (suc n) xs ys h = ground (arith, memcmp_total n (drop 1 xs) (drop 1 ys))

memcmp_trans :
    (n : ℕ) (xs ys zs : List ℕ)
    → is_greater (memcmp n xs ys) ≡ false
    → is_greater (memcmp n ys zs) ≡ false
    → is_greater (memcmp n xs zs) ≡ false
unfolding memcmp
memcmp_trans zero xs ys zs h k = refl
memcmp_trans (suc n) xs ys zs h k =
    ground (arith, memcmp_trans n (drop 1 xs) (drop 1 ys) (drop 1 zs))

min_self : (n : ℕ) → min n n ≡ n
unfolding min
min_self n = ground arith

memcmp-lexicographic :
    (n : ℕ) (xs ys : List ℕ) → memcmp n xs ys ≡ lexicographic (copy n xs) (copy n ys)
unfolding memcmp copy
memcmp-lexicographic zero xs ys = refl
memcmp-lexicographic (suc n) xs ys = ground (arith, memcmp-lexicographic n (drop 1 xs) (drop 1 ys))

-- Two records are compared by a string attribute as the `len` bytes at the offset of the one and of the
-- other stand in the lexicographic order; behind the bytes of a record are 0s.
pub compare-lexicographic :
    (float_diff : List ℕ → List ℕ → Diff) (offset len : ℕ) (a b : Record)
    → compare float_diff Datatype.string offset len a b
      ≡ lexicographic (copy len (drop offset a)) (copy len (drop offset b))
unfolding compare reccmp
compare-lexicographic float_diff offset len a b =
    ap (λ n. memcmp n (drop offset a) (drop offset b)) (min_self len)
    ∙ memcmp-lexicographic len (drop offset a) (drop offset b)

-- Strings of any bytes are in order.
pub compare-string-IsOrder :
    (float_diff : List ℕ → List ℕ → Diff) (offset len : ℕ)
    → IsOrder (λ rec. Unit) (compare float_diff Datatype.string offset len)
unfolding compare
compare-string-IsOrder float_diff offset len = record {
  total = λ a b _ _ h. memcmp_total _ (drop offset a) (drop offset b) h;
  trans = λ a b c _ _ _ h k. memcmp_trans _ (drop offset a) (drop offset b) (drop offset c) h k;
}

-- The attribute is an integer from -(2 ^ 30) on and below 2 ^ 30.
abbrev pub IsSmall : (offset : ℕ) → Record → Type 0
IsSmall offset rec =
    (int_of (drop offset rec) < wrap)
    × (1073741824 ≤ biased (int_of (drop offset rec)))
    × (biased (int_of (drop offset rec)) < 3221225472)

int_diff-greater :
    (a b : ℕ)
    → a < wrap
    → b < wrap
    → 1073741824 ≤ biased a
    → biased a < 3221225472
    → 1073741824 ≤ biased b
    → biased b < 3221225472
    → (is_greater (int_diff a b) ≡ false) ↔ (biased a ≤ biased b)
unfolding int_diff
int_diff-greater a b ha hb la ua lb ub = (λ h. ground arith, λ h. ground arith)

int_diff-total :
    (a b : ℕ)
    → a < wrap
    → b < wrap
    → 1073741824 ≤ biased a
    → biased a < 3221225472
    → 1073741824 ≤ biased b
    → biased b < 3221225472
    → is_greater (int_diff a b) ≡ true
    → is_greater (int_diff b a) ≡ false
unfolding int_diff
int_diff-total a b ha hb la ua lb ub h = ground arith

-- Integers whose differences fit into 32 bits are in order.
pub compare-integer-IsOrder :
    (float_diff : List ℕ → List ℕ → Diff) (offset len : ℕ)
    → IsOrder (IsSmall offset) (compare float_diff Datatype.integer offset len)
unfolding compare
compare-integer-IsOrder float_diff offset len = record {
  total = λ a b p q h. int_diff-total _ _ p.0 q.0 p.1 p.2 q.1 q.2 h;
  trans = λ a b c p q r h k. (int_diff-greater _ _ p.0 r.0 p.1 p.2 r.1 r.2).1 (
      omega (
        arith,
        (int_diff-greater _ _ p.0 q.0 p.1 p.2 q.1 q.2).0 h,
        (int_diff-greater _ _ q.0 r.0 q.1 q.2 r.1 r.2).0 k,
      ));
}
