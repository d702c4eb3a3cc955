-- ===== src/SortedFile/All.antt =====
-- All records of a sorted file, as `next` of part5/part5/sort.C gives them one by one.
use mathlib.Core.Path.{subst}
use mathlib.Core.List.{Perm}
use ubase.Base.{
  ℕ, zero, suc, ◌≡◌, ◌⊎◌, inl, inr, refl, sym, ◌∙◌, Option, none, some, List, [], ◌∷◌, All, length,
  arith, ◌<◌,
}
use ubase.HeapFile.Match.{Diff}
use ubase.HeapFile.Turn.{ReadFails}
use ubase.Page.{Record}
use ubase.SortedFile.{SortedFile}
use ubase.SortedFile.Merge.{
  IsNext, IsSorted, flatten, Drains, Drains-IsSorted, Takes-All, Takes-length,
}
use ubase.SortedFile.Next.{next}
use ubase.SortedFile.Order.{IsOrder}
use ubase.Status.{Status, Result, ok, err, file_eof}
use ubase.Storage.{Storage}
use ubase.Storage.Laws.{View, Obeys}
use ubase.SortedFile.Laws.{order_of, Opened, NextOf, next-NextOf}

module _ (st : Storage) (float_diff : List ℕ → List ℕ → Diff) (v : View st) (laws : Obeys v)
    (no_eof : ¬ ReadFails st v laws file_eof) (fuel : ℕ) where
  open st use {State}

  -- A caller that fetches records until there is a code: the records, and the code.
  abbrev pub fetch_all : (rounds : ℕ) → SortedFile → State → Option (List Record × Status)
  fetch_all zero f s = none
  fetch_all (suc rounds) f s = elim (next st float_diff fuel f s) [
    | none ↦ none
    | some (err e, f1, s1) ↦ some ([], e)
    | some (ok rec, f1, s1) ↦ elim (fetch_all rounds f1 s1) [
      | none ↦ none
      | some (recs, e) ↦ some (rec ∷ recs, e)
    ]
  ]

  -- What the caller gets.
  abbrev pub AllOf :
      (Record → Record → Diff) → List (List Record) → Option (List Record × Status) → Type 0
  AllOf cmp qs none = ⊥
  AllOf cmp qs (some (recs, e)) =
      ((e ≡ file_eof) × IsSorted cmp recs × Perm recs (flatten qs)) ⊎ ReadFails st v laws e

  -- The same, as a run of the merge.
  abbrev DrainOf :
      (Record → Record → Diff) → List (List Record) → Option (List Record × Status) → Type 0
  DrainOf cmp qs none = ⊥
  DrainOf cmp qs (some (recs, e)) = ((e ≡ file_eof) × Drains cmp qs recs) ⊎ ReadFails st v laws e

  longer :
      (cmp : Record → Record → Diff) (qs qs' : List (List Record)) (rec : Record)
      (r : Option (List Record × Status))
      → IsNext cmp qs rec qs'
      → DrainOf cmp qs' r
      → DrainOf cmp qs (elim r [ none ↦ none | some (recs, e) ↦ some (rec ∷ recs, e) ])
  longer cmp qs qs' rec none next h = h
  longer cmp qs qs' rec (some (recs, e)) next (inl (eof, drains)) =
      inl (eof, Drains.step next drains)
  longer cmp qs qs' rec (some (recs, e)) next (inr fails) = inr fails

  fetch_all-DrainOf :
      (P : Record → Type 0) (cmp : Record → Record → Diff) (rounds : ℕ) (f : SortedFile) (s : State)
      (qs : List (List Record))
      → IsOrder P cmp
      → order_of st float_diff v laws no_eof fuel f ≡ cmp
      → All (All P) qs
      → Opened st float_diff v laws no_eof fuel f s qs
      → length (flatten qs) < rounds
      → DrainOf cmp qs (fetch_all rounds f s)
  fetch_all-DrainOf P cmp zero f s qs order same ps opened low = absurd (omega (arith, low))
  fetch_all-DrainOf P cmp (suc rounds) f s qs order same ps opened low =
      go (next st float_diff fuel f s)
        (next-NextOf st float_diff v laws no_eof fuel P f s qs (subst (IsOrder P) (sym same) order)
          ps opened)
        (fetch_all-DrainOf P cmp rounds)
    where
      go :
          (r : Option (Result Record × SortedFile × State))
          → NextOf st float_diff v laws no_eof fuel f qs r
          → ((f1 : SortedFile) (s1 : State) (qs1 : List (List Record))
              → IsOrder P cmp
              → order_of st float_diff v laws no_eof fuel f1 ≡ cmp
              → All (All P) qs1
              → Opened st float_diff v laws no_eof fuel f1 s1 qs1
              → length (flatten qs1) < rounds
              → DrainOf cmp qs1 (fetch_all rounds f1 s1))
          → DrainOf cmp qs (elim r [
            | none ↦ none
            | some (err e, f1, s1) ↦ some ([], e)
            | some (ok rec, f1, s1) ↦ (elim (fetch_all rounds f1 s1) [
              | none ↦ none
              | some (recs, e) ↦ some (rec ∷ recs, e)
            ])
          ])
      go none h rest = h
      go (some (err e, f1, s1)) (inl (eof, empty)) rest = inl (eof, Drains.done empty)
      go (some (err e, f1, s1)) (inr fails) rest = inr fails
      go (some (ok rec, f1, s1)) (qs1, next, opened1, kept) rest =
          let next1 : IsNext cmp qs rec qs1 = subst (λ c. IsNext c qs rec qs1) same next in
          longer cmp qs qs1 rec _ next1 (
            rest f1 s1 qs1 order (kept ∙ same) (Takes-All P next1.0 ps).1 opened1
              (omega (arith, low, Takes-length next1.0)))

  -- A caller that calls `next` until it answers with a code gets it, after at most one call more than
  -- there are records: FILEEOF behind all the records of the runs, in order where each run was, or a
  -- code of `readPage`.
  pub fetch_all-AllOf :
      (P : Record → Type 0) (rounds : ℕ) (f : SortedFile) (s : State) (qs : List (List Record))
      → IsOrder P (order_of st float_diff v laws no_eof fuel f)
      → All (All P) qs
      → All (IsSorted (order_of st float_diff v laws no_eof fuel f)) qs
      → Opened st float_diff v laws no_eof fuel f s qs
      → length (flatten qs) < rounds
      → AllOf (order_of st float_diff v laws no_eof fuel f) qs (fetch_all rounds f s)
  fetch_all-AllOf P rounds f s qs order ps sorted opened low =
      go (fetch_all rounds f s) (fetch_all-DrainOf P _ rounds f s qs order refl ps opened low)
    where
      go :
          (r : Option (List Record × Status))
          → DrainOf (order_of st float_diff v laws no_eof fuel f) qs r
          → AllOf (order_of st float_diff v laws no_eof fuel f) qs r
      go none h = h
      go (some (recs, e)) (inr fails) = inr fails
      go (some (recs, e)) (inl (eof, drains)) =
          let (in_order, same) = Drains-IsSorted _ P order drains ps sorted in
          inl (eof, in_order, same)
