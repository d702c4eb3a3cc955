-- ===== src/Query/Load/Laws.antt =====
-- The loop of `UT_Load` of part5/part5/load.C on a file of whole records.
use mathlib.Core.Path.{subst}
use mathlib.Core.List.{append-nil}
use ubase.Base.{
  ℕ, suc, ◌≡◌, refl, ap, sym, ◌∙◌, Option, none, some, List, [], ◌∷◌, ◌++◌, length, drop, arith,
  All,
}
use ubase.Catalog.{C, ◌>>=◌, pure, and_then}
use ubase.HeapFile.{HeapFile}
use ubase.HeapFile.Match.{Diff}
use ubase.HeapFile.Scan.{HeapFileScan}
use ubase.Page.{Record}
use ubase.Query.Bytes.{put}
use ubase.Query.Bytes.Put.{put-front}
use ubase.Query.Load.{load_all}
use ubase.Query.Steps.{insert}
use ubase.Status.{Result, ok, err}
use ubase.Storage.{Storage}

-- What `read` answers, record by record, to the end of the file.
abbrev pub answers : List Record → List (Option (List ℕ))
answers [] = some [] ∷ []
answers (rec ∷ recs) = some rec ∷ answers recs

-- A record has the length of the buffer, which is not 0.
abbrev pub Fits : ℕ → Record → Type 0
Fits n rec = (length rec ≡ n) × ((m : ℕ) × (n ≡ suc m))

drop-all : (rec buf : List ℕ) → length rec ≡ length buf → drop (length rec) buf ≡ []
drop-all [] [] e = refl
drop-all [] (b ∷ buf) e = absurd (omega (arith, e))
drop-all (x ∷ rec) [] e = absurd (omega (arith, e))
drop-all (x ∷ rec) (b ∷ buf) e = drop-all rec buf (omega (arith, e))

put-whole : (rec buf : List ℕ) → length rec ≡ length buf → put 0 rec buf ≡ rec
put-whole rec buf e =
    put-front rec buf (omega (arith, e)) ∙ ap (λ l. rec ++ l) (drop-all rec buf e) ∙ append-nil rec

module _ (st : Storage) (float_diff : List ℕ → List ℕ → Diff) (memory : HeapFileScan)
    (fuel : ℕ) where
  -- The records are inserted one after the other.
  abbrev pub insert_each : List Record → HeapFile → C st float_diff memory HeapFile
  insert_each [] h = pure st float_diff memory h
  insert_each (rec ∷ recs) h =
      ◌>>=◌ st float_diff memory (insert st float_diff memory fuel rec h) (insert_each recs)

  and_then-congr :
      (r : Option (Result HeapFile × st.State)) (k k' : HeapFile → C st float_diff memory HeapFile)
      → ((h : HeapFile) (s : st.State) → k h s ≡ k' h s)
      → and_then st float_diff memory r k ≡ and_then st float_diff memory r k'
  and_then-congr none k k' same = refl
  and_then-congr (some (err e, s)) k k' same = refl
  and_then-congr (some (ok h, s)) k k' same = same h s

  -- From a file of whole records `UT_Load` inserts exactly these records, in their order, whatever its
  -- buffer held before.
  pub load_all-insert_each :
      (recs : List Record) (buf : List ℕ) (h : HeapFile) (s : st.State)
      → All (Fits (length buf)) recs
      → load_all st float_diff memory fuel (answers recs) buf h s ≡ insert_each recs h s
  unfolding load_all
  load_all-insert_each [] buf h s fits = refl
  load_all-insert_each ([] ∷ recs) buf h s (((size, (m, e))), fits) =
      absurd (omega (arith, size, e))
  load_all-insert_each ((b ∷ bytes) ∷ recs) buf h s ((size, pos), fits) =
      let whole : put 0 (b ∷ bytes) buf ≡ b ∷ bytes = put-whole (b ∷ bytes) buf size in
      let fits' = subst (λ n. All (Fits n) recs) (sym size) fits in
      ap
        (λ buf1.
          and_then st float_diff memory (insert st float_diff memory fuel buf1 h s)
            (load_all st float_diff memory fuel (answers recs) buf1))
        whole
      ∙ and_then-congr (insert st float_diff memory fuel (b ∷ bytes) h s) _ _
          (λ h1 s1. load_all-insert_each recs (b ∷ bytes) h1 s1 fits')
