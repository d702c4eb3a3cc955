-- ===== src/SortedFile/Merge.antt =====
-- The merge of sorted runs that `next` of part5/part5/sort.C makes, on the lists of the records that the
-- runs have left.
use mathlib.Core.List.{Perm, perm_middle}
use mathlib.Core.List.Perm
use mathlib.Core.Path.{subst}
use ubase.Base.{length-append, suc, ◌≡◌, refl, sym, List, [], ◌∷◌, ◌++◌, All, length, arith}
use ubase.HeapFile.Match.{Diff}
use ubase.Page.{Record}
use ubase.SortedFile.Order.{AtMost, IsOrder}

-- The records of all runs.
abbrev pub flatten : List (List Record) → List Record
flatten [] = []
flatten (q ∷ qs) = q ++ flatten qs

-- The first record of one run is taken.
pub data Takes : List (List Record) → Record → List (List Record) → Type 0 where
  here : {a : Record} {q : List Record} {qs : List (List Record)} → Takes ((a ∷ q) ∷ qs) a (q ∷ qs)
  there :
      {a : Record} {q : List Record} {qs qs' : List (List Record)}
      → Takes qs a qs'
      → Takes (q ∷ qs) a (q ∷ qs')

Takes-perm :
    {a : Record} {qs qs' : List (List Record)}
    → Takes qs a qs'
    → Perm (a ∷ flatten qs') (flatten qs)
Takes-perm Takes.here = Perm.refl _
Takes-perm (Takes.there {q = q} {qs' = qs'} t) =
    Perm.trans (Perm.symm (perm_middle q (flatten qs'))) (Perm.append (Perm.refl q) (Takes-perm t))

pub Takes-length :
    {a : Record} {qs qs' : List (List Record)}
    → Takes qs a qs'
    → length (flatten qs) ≡ suc (length (flatten qs'))
Takes-length Takes.here = refl
Takes-length (Takes.there {q = q} {qs = qs} {qs' = qs'} t) =
    omega (arith, length-append q (flatten qs), length-append q (flatten qs'), Takes-length t)

pub Takes-All :
    (P : Record → Type 0) {a : Record} {qs qs' : List (List Record)}
    → Takes qs a qs'
    → All (All P) qs
    → P a × All (All P) qs'
Takes-All P Takes.here h = (h.0.0, (h.0.1, h.1))
Takes-All P (Takes.there t) h = let (p, rest) = Takes-All P t h.1 in (p, (h.0, rest))

module _ (cmp : Record → Record → Diff) where
  abbrev pub IsSorted : List Record → Type 0
  IsSorted [] = Unit
  IsSorted (a ∷ q) = All (AtMost cmp a) q × IsSorted q

  -- The record may stand in front of the first one of the run.
  abbrev pub Below : Record → List Record → Type 0
  Below a [] = Unit
  Below a (b ∷ q) = AtMost cmp a b

  -- A smallest first record is taken.
  abbrev pub IsNext : List (List Record) → Record → List (List Record) → Type 0
  IsNext qs a qs' = Takes qs a qs' × All (Below a) qs

  -- What repeated steps take, until all runs are empty.
  pub data Drains : List (List Record) → List Record → Type 0 where
    done : {qs : List (List Record)} → All (λ q. q ≡ []) qs → Drains qs []
    step :
        {a : Record} {qs qs' : List (List Record)} {out : List Record}
        → IsNext qs a qs'
        → Drains qs' out
        → Drains qs (a ∷ out)

  past-All :
      (P : Record → Type 0) (order : IsOrder P cmp) (a b : Record) (q : List Record)
      → P a
      → P b
      → All P q
      → AtMost cmp a b
      → All (AtMost cmp b) q
      → All (AtMost cmp a) q
  past-All P order a b [] pa pb pq low first = tt
  past-All P order a b (c ∷ q) pa pb pq low first =
      (order.trans a b c pa pb pq.0 low first.0, past-All P order a b q pa pb pq.1 low first.1)

  Below-All :
      (P : Record → Type 0) (order : IsOrder P cmp) (a : Record) (q : List Record)
      → P a
      → All P q
      → Below a q
      → IsSorted q
      → All (AtMost cmp a) q
  Below-All P order a [] pa pq low sorted = tt
  Below-All P order a (b ∷ q) pa (pb, pq) low (first, rest) =
      (low, past-All P order a b q pa pb pq low first)

  Drains-All :
      (R : Record → Type 0) {qs : List (List Record)} {out : List Record}
      → Drains qs out
      → All (All R) qs
      → All R out
  Drains-All R (Drains.done empty) h = tt
  Drains-All R (Drains.step next rest) h =
      let (r, h') = Takes-All R next.0 h in (r, Drains-All R rest h')

  Takes-IsSorted :
      {a : Record} {qs qs' : List (List Record)}
      → Takes qs a qs'
      → All IsSorted qs
      → All IsSorted qs'
  Takes-IsSorted Takes.here h = (h.0.1, h.1)
  Takes-IsSorted (Takes.there t) h = (h.0, Takes-IsSorted t h.1)

  Below-AtMost :
      (P : Record → Type 0) (order : IsOrder P cmp) (a : Record) (qs : List (List Record))
      → P a
      → All (All P) qs
      → All (Below a) qs
      → All IsSorted qs
      → All (All (AtMost cmp a)) qs
  Below-AtMost P order a [] pa ps low sorted = tt
  Below-AtMost P order a (q ∷ qs) pa ps low sorted = (
    Below-All P order a q pa ps.0 low.0 sorted.0,
    Below-AtMost P order a qs pa ps.1 low.1 sorted.1,
  )

  flatten-empty : (qs : List (List Record)) → All (λ q. q ≡ []) qs → flatten qs ≡ []
  flatten-empty [] h = refl
  flatten-empty (q ∷ qs) h = rw (h.0, flatten-empty qs h.1) refl

  -- Sorted runs are merged into one sorted sequence of the same records.
  pub Drains-IsSorted :
      (P : Record → Type 0) {qs : List (List Record)} {out : List Record}
      → IsOrder P cmp
      → Drains qs out
      → All (All P) qs
      → All IsSorted qs
      → IsSorted out × Perm out (flatten qs)
  Drains-IsSorted P {qs = qs} order (Drains.done empty) ps sorted =
      (tt, subst (λ l. Perm [] l) (sym (flatten-empty qs empty)) (Perm.refl []))
  Drains-IsSorted P {qs = qs} order (Drains.step {a = a} next rest) ps sorted =
      let (pa, ps') = Takes-All P next.0 ps in
      let (in_order, same) = Drains-IsSorted P order rest ps' (Takes-IsSorted next.0 sorted) in
      let above = Below-AtMost P order a qs pa ps next.1 sorted in
      (
        (Drains-All (AtMost cmp a) rest (Takes-All (AtMost cmp a) next.0 above).1, in_order),
        Perm.trans (Perm.cons a same) (Takes-perm next.0),
      )
