-- ===== src/SortedFile/Pick.antt =====
-- The search for the run with the smallest record in `next` of part5/part5/sort.C, on the lists of the
-- records that the runs have left.
use mathlib.Core.Path.{subst}
use ubase.Base.{
  ℕ, suc, zero, ◌+◌, ◌≡◌, ◌⊎◌, inl, inr, refl, ap, ◌∙◌, Option, none, some, List, [], ◌∷◌, All,
  Bool-cases, if◌then◌else◌, arith,
}
use ubase.HeapFile.Match.{Diff}
use ubase.Page.{Record}
use ubase.SortedFile.{is_greater}
use ubase.SortedFile.Merge.{Takes, Below}
use ubase.SortedFile.Order.{AtMost, IsOrder}

-- The record is the first one of the run with the number.
abbrev pub HeadAt : ℕ → Record → List (List Record) → Type 0
HeadAt zero a ((b ∷ q) ∷ qs) = a ≡ b
HeadAt (suc j) a (q ∷ qs) = HeadAt j a qs
HeadAt j a qs = ⊥

-- The first record of the run with the number is gone.
abbrev pub without_head : ℕ → List (List Record) → List (List Record)
without_head j [] = []
without_head zero ([] ∷ qs) = [] ∷ qs
without_head zero ((a ∷ q) ∷ qs) = q ∷ qs
without_head (suc j) (q ∷ qs) = q ∷ without_head j qs

pub HeadAt-Takes :
    (j : ℕ) (a : Record) (qs : List (List Record)) → HeadAt j a qs → Takes qs a (without_head j qs)
HeadAt-Takes zero a [] h = absurd h
HeadAt-Takes (suc j) a [] h = absurd h
HeadAt-Takes zero a ([] ∷ qs) h = absurd h
HeadAt-Takes zero a ((b ∷ q) ∷ qs) h = subst (λ c. Takes ((c ∷ q) ∷ qs) a (q ∷ qs)) h Takes.here
HeadAt-Takes (suc j) a (q ∷ qs) h = Takes.there (HeadAt-Takes j a qs h)

module _ (cmp : Record → Record → Diff) where
  -- The smaller one of the best record so far, with the number of its run, and the first one of run `i`.
  abbrev pub prefer : ℕ → Option (ℕ × Record) → List Record → Option (ℕ × Record)
  prefer i best [] = best
  prefer i none (a ∷ q) = some (i, a)
  prefer i (some (k, r)) (a ∷ q) = if is_greater (cmp r a) then some (i, a) else some (k, r)

  abbrev pub pick : ℕ → Option (ℕ × Record) → List (List Record) → Option (ℕ × Record)
  pick i best [] = best
  pick i best (q ∷ qs) = pick (suc i) (prefer i best q) qs

  -- What `pick` finds behind a best record so far.
  abbrev Improved : (P : Record → Type 0) → (i k : ℕ) → Record → List (List Record) → Type 0
  Improved P i k r qs =
      (k' : ℕ) × (a : Record) × (pick i (some (k, r)) qs ≡ some (k', a))
      × P a
      × AtMost cmp a r
      × All (Below cmp a) qs
      × (((k' ≡ k) × (a ≡ r)) ⊎ ((j : ℕ) × (k' ≡ i + j) × HeadAt j a qs))

  later :
      (i k : ℕ) (r : Record) (k' : ℕ) (a : Record) (q : List Record) (qs : List (List Record))
      → ((k' ≡ k) × (a ≡ r)) ⊎ ((j : ℕ) × (k' ≡ suc i + j) × HeadAt j a qs)
      → ((k' ≡ k) × (a ≡ r)) ⊎ ((j : ℕ) × (k' ≡ i + j) × HeadAt j a (q ∷ qs))
  later i k r k' a q qs (inl h) = inl h
  later i k r k' a q qs (inr (j, e, at)) = inr (suc j, omega (arith, e), at)

  now :
      (i k' : ℕ) (a b : Record) (q : List Record) (qs : List (List Record))
      → ((k' ≡ i) × (a ≡ b)) ⊎ ((j : ℕ) × (k' ≡ suc i + j) × HeadAt j a qs)
      → (j : ℕ) × (k' ≡ i + j) × HeadAt j a ((b ∷ q) ∷ qs)
  now i k' a b q qs (inl (e, same)) = (zero, omega (arith, e), same)
  now i k' a b q qs (inr (j, e, at)) = (suc j, omega (arith, e), at)

  IsOrder-refl : (P : Record → Type 0) → IsOrder P cmp → (a : Record) → P a → AtMost cmp a a
  IsOrder-refl P order a p = elim (Bool-cases (is_greater (cmp a a))) [
    | inl e ↦ order.total a a p p e
    | inr e ↦ e
  ]

  pick-Improved :
      (P : Record → Type 0) (order : IsOrder P cmp) (i k : ℕ) (r : Record) (qs : List (List Record))
      → P r
      → All (All P) qs
      → Improved P i k r qs
  pick-Improved P order i k r [] pr ps =
      (k, r, refl, pr, IsOrder-refl P order r pr, tt, inl (refl, refl))
  pick-Improved P order i k r ([] ∷ qs) pr ps =
      let (k', a, e, pa, low, below, from) = pick-Improved P order (suc i) k r qs pr ps.1 in
      (k', a, e, pa, low, (tt, below), later i k r k' a [] qs from)
  pick-Improved P order i k r ((b ∷ q) ∷ qs) pr ps = elim (Bool-cases (is_greater (cmp r b))) [
    | inl g ↦
        let (k', a, e, pa, low, below, from) = pick-Improved P order (suc i) i b qs ps.0.0 ps.1 in
        (
          k',
          a,
          rw g e,
          pa,
          order.trans a b r pa ps.0.0 pr low (order.total r b pr ps.0.0 g),
          (low, below),
          inr (now i k' a b q qs from),
        )
    | inr g ↦
        let (k', a, e, pa, low, below, from) = pick-Improved P order (suc i) k r qs pr ps.1 in
        (
          k',
          a,
          rw g e,
          pa,
          low,
          (order.trans a r b pa pr ps.0.0 low g, below),
          later i k r k' a (b ∷ q) qs from,
        )
  ]

  -- `pick` finds the first record of a run that may stand in front of all the others, if there is one.
  pick-smallest :
      (P : Record → Type 0) (order : IsOrder P cmp) (i : ℕ) (qs : List (List Record))
      → All (All P) qs
      → ((pick i none qs ≡ none) × All (λ q. q ≡ []) qs)
        ⊎ ((j : ℕ) × (a : Record) × (pick i none qs ≡ some (i + j, a))
            × HeadAt j a qs
            × All (Below cmp a) qs)
  pick-smallest P order i [] ps = inl (refl, tt)
  pick-smallest P order i ([] ∷ qs) ps = elim (pick-smallest P order (suc i) qs ps.1) [
    | inl (e, empty) ↦ inl (e, (refl, empty))
    | inr (j, a, e, at, below) ↦
        inr (suc j, a, rw e (ap (λ n. some (n, a)) (omega arith)), at, (tt, below))
  ]
  pick-smallest P order i ((b ∷ q) ∷ qs) ps =
      let (k', a, e, pa, low, below, from) = pick-Improved P order (suc i) i b qs ps.0.0 ps.1 in
      let (j, at_run, at) = now i k' a b q qs from in
      inr (j, a, e ∙ ap (λ n. some (n, a)) at_run, at, (low, below))

  -- From the first run on.
  pub pick-first :
      (P : Record → Type 0) (order : IsOrder P cmp) (qs : List (List Record))
      → All (All P) qs
      → ((pick 0 none qs ≡ none) × All (λ q. q ≡ []) qs)
        ⊎ ((j : ℕ) × (a : Record) × (pick 0 none qs ≡ some (j, a))
            × HeadAt j a qs
            × All (Below cmp a) qs)
  pick-first P order qs ps = elim (pick-smallest P order 0 qs ps) [
    | inl h ↦ inl h
    | inr (j, a, e, at, below) ↦ inr (j, a, e ∙ ap (λ n. some (n, a)) (omega arith), at, below)
  ]
