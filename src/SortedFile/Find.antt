-- ===== src/SortedFile/Find.antt =====
-- The loop over the runs in `next` of part5/part5/sort.C.
use mathlib.Core.Path.{subst}
use ubase.Base.{
  ℕ, zero, suc, ◌≡◌, inl, inr, refl, sym, ap, Option, none, some, List, [], ◌∷◌, map, Avoids,
  IsDistinct,
}
use ubase.HeapFile.Match.{Diff, Datatype}
use ubase.HeapFile.Turn.{ReadFails}
use ubase.Page.{Record}
use ubase.SortedFile.{Run}
use ubase.SortedFile.Fetch.{
  Loaded, RunOf, Frame, Frame-refl, Frame-cons, Loaded-Frame, RunOf-Frame, FetchOf, fetch-FetchOf,
  file_of,
}
use ubase.SortedFile.Next.{compare, better, fetch, Fetched, find_smallest, consumed}
use ubase.SortedFile.Pick.{HeadAt, without_head, prefer, pick}
use ubase.Status.{Result, ok, err, file_eof}
use ubase.Storage.{Storage}
use ubase.Storage.Laws.{View, Obeys}

abbrev pub files : List Run → List ℕ
files runs = map file_of runs

pub files-consumed : (j : ℕ) (runs : List Run) → files (consumed j runs) ≡ files runs
unfolding consumed
files-consumed j [] = refl
files-consumed zero (run ∷ runs) = refl
files-consumed (suc j) (run ∷ runs) = ap (λ fs. file_of run ∷ fs) (files-consumed j runs)

module _ (st : Storage) (float_diff : List ℕ → List ℕ → Diff) (v : View st) (laws : Obeys v)
    (no_eof : ¬ ReadFails st v laws file_eof) (fuel : ℕ) where
  open st use {State}

  -- The runs have the records of the lists left.
  abbrev pub Reps : State → List Run → List (List Record) → Type 0
  Reps s [] [] = Unit
  Reps s (run ∷ runs) (q ∷ qs) = RunOf st float_diff v laws no_eof fuel s run q × Reps s runs qs
  Reps s runs qs = ⊥

  -- Each of them has its next record in memory.
  abbrev pub AllLoaded : State → List Run → List (List Record) → Type 0
  AllLoaded s [] [] = Unit
  AllLoaded s (run ∷ runs) (q ∷ qs) =
      Loaded st float_diff v laws no_eof fuel s run q × AllLoaded s runs qs
  AllLoaded s runs qs = ⊥

  Reps-Frame :
      (f : ℕ) (s s' : State) (runs : List Run) (qs : List (List Record))
      → Frame st float_diff v laws no_eof fuel (f ∷ []) s s'
      → Avoids f (files runs)
      → Reps s runs qs
      → Reps s' runs qs
  Reps-Frame f s s' [] [] frame away h = h
  Reps-Frame f s s' [] (q ∷ qs) frame away h = h
  Reps-Frame f s s' (run ∷ runs) [] frame away h = h
  Reps-Frame f s s' (run ∷ runs) (q ∷ qs) frame away h = (
    RunOf-Frame st float_diff v laws no_eof fuel run q frame ((λ e. away.0 (sym e)), tt) h.0,
    Reps-Frame f s s' runs qs frame away.1 h.1,
  )

  AllLoaded-Reps :
      (s : State) (runs : List Run) (qs : List (List Record)) → AllLoaded s runs qs → Reps s runs qs
  AllLoaded-Reps s [] [] h = h
  AllLoaded-Reps s [] (q ∷ qs) h = h
  AllLoaded-Reps s (run ∷ runs) [] h = h
  AllLoaded-Reps s (run ∷ runs) (q ∷ qs) h = (inr h.0, AllLoaded-Reps s runs qs h.1)

  -- The run with the smallest record has to fetch its next one.
  pub consumed-Reps :
      (j : ℕ) (a : Record) (s : State) (runs : List Run) (qs : List (List Record))
      → HeadAt j a qs
      → AllLoaded s runs qs
      → Reps s (consumed j runs) (without_head j qs)
  unfolding consumed
  consumed-Reps zero a s [] [] at h = absurd at
  consumed-Reps (suc j) a s [] [] at h = absurd at
  consumed-Reps j a s [] (q ∷ qs) at h = absurd h
  consumed-Reps j a s (run ∷ runs) [] at h = absurd h
  consumed-Reps zero a s (run ∷ runs) ([] ∷ qs) at h = absurd at
  consumed-Reps zero a s (run ∷ runs) ((b ∷ q) ∷ qs) at ((valid, rid, rec, scans), rest) =
      (inl (refl, scans), AllLoaded-Reps s runs qs rest)
  consumed-Reps (suc j) a s (run ∷ runs) (q ∷ qs) at h =
      (inr h.0, consumed-Reps j a s runs qs at h.1)

  module _ (type : Datatype) (offset len : ℕ) where
    abbrev cmp : Record → Record → Diff
    cmp = compare float_diff type offset len

    better-prefer :
        (s : State) (i : ℕ) (best : Option (ℕ × Record)) (run : Run) (q : List Record)
        → Loaded st float_diff v laws no_eof fuel s run q
        → better float_diff type offset len i best run ≡ prefer cmp i best q
    unfolding better
    better-prefer s i best run [] (valid, rid) = rw (better, rid) refl
    better-prefer s i none run (a ∷ q) (valid, (rid, e), rec, scans) = rw (better, e, rec) refl
    better-prefer s i (some (k, r)) run (a ∷ q) (valid, (rid, e), rec, scans) =
        rw (better, e, rec) refl

    -- What the loop over the runs may do.
    abbrev pub FindOf :
        State
        → List Run
        → List (List Record)
        → Option (ℕ × Record)
        → Option (Result (Option (ℕ × Record)) × List Run × State)
        → Type 0
    FindOf s runs qs best none = ⊥
    FindOf s runs qs best (some (ok best', runs', s')) =
        (best' ≡ best)
        × AllLoaded s' runs' qs
        × (files runs' ≡ files runs)
        × Frame st float_diff v laws no_eof fuel (files runs) s s'
    FindOf s runs qs best (some (err e, runs', s')) = ReadFails st v laws e

    joined :
        (s s1 : State) (run run1 : Run) (runs : List Run) (q : List Record)
        (qs : List (List Record)) (best : Option (ℕ × Record))
        (r : Option (Result (Option (ℕ × Record)) × List Run × State))
        → Avoids (file_of run) (files runs)
        → Loaded st float_diff v laws no_eof fuel s1 run1 q
        → file_of run1 ≡ file_of run
        → Frame st float_diff v laws no_eof fuel (file_of run ∷ []) s s1
        → FindOf s1 runs qs best r
        → FindOf s
            (run ∷ runs)
            (q ∷ qs)
            best
            (elim r [ none ↦ none | some (x, runs1, s2) ↦ some (x, run1 ∷ runs1, s2) ])
    joined s s1 run run1 runs q qs best none away load same frame h = h
    joined s s1 run run1 runs q qs best (some (err e, runs1, s2)) away load same frame h = h
    joined s s1 run run1 runs q qs best (some (ok best', runs1, s2)) away load same frame
          (found, loads, kept, rest) =
        (
          found,
          (
            Loaded-Frame st float_diff v laws no_eof fuel run1 q rest
                (subst (λ f. Avoids f (files runs)) (sym same) away) load,
            loads,
          ),
          rw (same, kept) refl,
          Frame-cons st float_diff v laws no_eof fuel frame rest,
        )

    -- Every run has its next record in memory then, and the first one of the smallest is found.
    pub find_smallest-FindOf :
        (i : ℕ) (best : Option (ℕ × Record)) (s : State) (runs : List Run) (qs : List (List Record))
        → IsDistinct (files runs)
        → Reps s runs qs
        → FindOf s runs qs
            (pick cmp i best qs)
            (find_smallest st float_diff fuel type offset len i best runs s)
    unfolding find_smallest
    find_smallest-FindOf i best s [] [] distinct h =
        (refl, tt, refl, Frame-refl st float_diff v laws no_eof fuel)
    find_smallest-FindOf i best s [] (q ∷ qs) distinct h = absurd h
    find_smallest-FindOf i best s (run ∷ runs) [] distinct h = absurd h
    find_smallest-FindOf i best s (run ∷ runs) (q ∷ qs) distinct (first, rest) =
        go (fetch st float_diff fuel run s)
          (fetch-FetchOf st float_diff v laws no_eof fuel s run q first)
          (λ best1 s1. find_smallest-FindOf (suc i) best1 s1 runs qs distinct.1)
      where
        go :
            (r : Fetched st float_diff)
            → FetchOf st float_diff v laws no_eof fuel s run q r
            → ((best1 : Option (ℕ × Record)) (s1 : State)
                → Reps s1 runs qs
                → FindOf s1 runs qs
                    (pick cmp (suc i) best1 qs)
                    (find_smallest st float_diff fuel type offset len (suc i) best1 runs s1))
            → FindOf s (run ∷ runs) (q ∷ qs) (pick cmp i best (q ∷ qs)) (elim r [
              | none ↦ none
              | some (err e, run1, s1) ↦ some (err e, run1 ∷ runs, s1)
              | some (ok _, run1, s1) ↦
                  elim (find_smallest st float_diff fuel type offset len
                    (suc i)
                    (better float_diff type offset len i best run1)
                    runs
                    s1) [ none ↦ none | some (x, runs1, s2) ↦ some (x, run1 ∷ runs1, s2) ]
            ])
        go none h further = h
        go (some (err e, run1, s1)) h further = h
        go (some (ok _, run1, s1)) (load, same, frame) further =
            joined s s1 run run1 runs q qs _ _ distinct.0 load same frame (
              subst
                (λ b. FindOf s1 runs qs (pick cmp (suc i) b qs) (
                  find_smallest st float_diff fuel type offset len (suc i)
                    (better float_diff type offset len i best run1) runs s1))
                (better-prefer s1 i best run1 q load)
                (further _ s1 (Reps-Frame (file_of run) s s1 runs qs frame distinct.0 rest)))
