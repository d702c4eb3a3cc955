-- ===== src/SortedFile/Laws.antt =====
-- `next` of part5/part5/sort.C against the merge of the lists of the records that the runs have left.
use mathlib.Core.Path.{subst}
use ubase.Base.{
  ℕ, ◌≡◌, ◌⊎◌, inl, inr, refl, sym, ◌∙◌, Option, none, some, List, [], ◌∷◌, All, IsDistinct,
}
use ubase.HeapFile.Match.{Diff}
use ubase.HeapFile.Turn.{ReadFails}
use ubase.Page.{Record}
use ubase.SortedFile.{Run, SortedFile}
use ubase.SortedFile.Merge.{IsNext, Below}
use ubase.SortedFile.Next.{compare, find_smallest, chosen, next}
use ubase.SortedFile.Order.{IsOrder}
use ubase.SortedFile.Pick.{HeadAt, HeadAt-Takes, without_head, pick, pick-first}
use ubase.Status.{Result, ok, err, file_eof}
use ubase.Storage.{Storage}
use ubase.Storage.Laws.{View, Obeys}
use ubase.SortedFile.Find.{files, files-consumed, Reps, consumed-Reps, FindOf, find_smallest-FindOf}

module _ (st : Storage) (float_diff : List ℕ → List ℕ → Diff) (v : View st) (laws : Obeys v)
    (no_eof : ¬ ReadFails st v laws file_eof) (fuel : ℕ) where
  open st use {State}

  -- The order that the file is sorted by.
  abbrev pub order_of : SortedFile → Record → Record → Diff
  order_of f = compare float_diff f.type f.offset f.length

  -- The runs are on files of their own, and have the records of the lists left.
  pub record Opened (f : SortedFile) (s : State) (qs : List (List Record)) : Type 0 where
    pub distinct : IsDistinct (files f.runs)
    pub reps : Reps st float_diff v laws no_eof fuel s f.runs qs

  -- What `next` may answer.
  abbrev pub NextOf :
      SortedFile → List (List Record) → Option (Result Record × SortedFile × State) → Type 0
  NextOf f qs none = ⊥
  NextOf f qs (some (ok rec, f', s')) =
      (qs' : List (List Record)) × IsNext (order_of f) qs rec qs'
      × Opened f' s' qs'
      × (order_of f' ≡ order_of f)
  NextOf f qs (some (err e, f', s')) =
      ((e ≡ file_eof) × All (λ q. q ≡ []) qs) ⊎ ReadFails st v laws e

  no_runs :
      (s : State) (qs : List (List Record))
      → Reps st float_diff v laws no_eof fuel s [] qs
      → All (λ q. q ≡ []) qs
  no_runs s [] h = tt
  no_runs s (q ∷ qs) h = absurd h

  taken :
      (P : Record → Type 0) (f : SortedFile) (s : State) (qs : List (List Record))
      (best : Option (ℕ × Record)) (r : Option (Result (Option (ℕ × Record)) × List Run × State))
      → Opened f s qs
      → FindOf st float_diff v laws no_eof fuel f.type f.offset f.length s f.runs qs best r
      → ((best ≡ none) × All (λ q. q ≡ []) qs)
        ⊎ ((j : ℕ) × (a : Record) × (best ≡ some (j, a))
            × HeadAt j a qs
            × All (Below (order_of f) a) qs)
      → NextOf f qs (chosen st float_diff f r)
  taken P f s qs best none opened h picked = h
  taken P f s qs best (some (err e, runs, s')) opened h picked = inr h
  taken P f s qs best (some (ok b, runs, s')) opened (found, loads, kept, frame)
        (inl (gone, empty)) =
      subst (λ x. NextOf f qs (chosen st float_diff f (some (ok x, runs, s')))) (sym (found ∙ gone))
        (inl (refl, empty))
  taken P f s qs best (some (ok b, runs, s')) opened (found, loads, kept, frame)
        (inr (j, a, at, head, below)) =
      subst (λ x. NextOf f qs (chosen st float_diff f (some (ok x, runs, s')))) (sym (found ∙ at))
        (
          without_head j qs,
          (HeadAt-Takes j a qs head, below),
          record {
            distinct = subst IsDistinct (sym (files-consumed j runs ∙ kept)) opened.distinct;
            reps = consumed-Reps st float_diff v laws no_eof fuel j a s' runs qs head loads;
          },
          refl,
        )

  -- `next` refines the merge: over runs on files of their own, whose records the comparison orders, it
  -- returns a record that stands first in one of them and may stand in front of all the others, and
  -- leaves the runs without it; it returns FILEEOF where no run has a record left; or it fails with a
  -- code of `readPage`. It ends within the fuel that the scans of the runs need.
  pub next-NextOf :
      (P : Record → Type 0) (f : SortedFile) (s : State) (qs : List (List Record))
      → IsOrder P (order_of f)
      → All (All P) qs
      → Opened f s qs
      → NextOf f qs (next st float_diff fuel f s)
  unfolding next
  next-NextOf P f s qs order ps opened = go f.runs refl (
      find_smallest-FindOf st float_diff v laws no_eof fuel f.type f.offset f.length 0 none s f.runs
        qs opened.distinct opened.reps)
    where
      go :
          (runs : List Run)
          → f.runs ≡ runs
          → FindOf st float_diff v laws no_eof fuel f.type f.offset f.length s f.runs qs
              (pick (order_of f) 0 none qs)
              (find_smallest st float_diff fuel f.type f.offset f.length 0 none f.runs s)
          → NextOf f qs (elim runs [
            | [] ↦ some (err file_eof, f, s)
            | run ∷ rest ↦
                chosen st float_diff f
                  (find_smallest st float_diff fuel f.type f.offset f.length 0 none (run ∷ rest) s)
          ])
      go [] e h = inl (
        refl,
        no_runs s qs
            (subst (λ runs. Reps st float_diff v laws no_eof fuel s runs qs) e opened.reps),
      )
      go (run ∷ rest) e h =
          subst
            (λ runs. NextOf f qs (
              chosen st float_diff f
                (find_smallest st float_diff fuel f.type f.offset f.length 0 none runs s)))
            e (taken P f s qs _ _ opened h (pick-first (order_of f) P order qs ps))
