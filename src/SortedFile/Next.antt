-- ===== src/SortedFile/Next.antt =====
-- `next`, `setMark`, `gotoMark` and the destructor of `SortedFile` of part5/part5/sort.C.
--
-- Where an operation returns early the runs behind the one that has failed are as they were.
use ubase.Base.{ℕ, zero, suc, true, false, Option, none, some, List, [], ◌∷◌, if◌then◌else◌, drop}
use ubase.HeapFile.Match.{Diff, Datatype}
use ubase.HeapFile.Scan.{HeapFileScan, scan_next, get_record, mark_scan, reset_scan, close_scan}
use ubase.Page.{Rid, Record}
use ubase.SortedFile.{Run, SortedFile, reccmp, is_greater}
use ubase.Status.{Result, ok, err, file_eof}
use ubase.Storage.{Storage}

-- The run at the index has to fetch a record.
unfoldable pub consumed : ℕ → List Run → List Run
consumed i [] = []
consumed zero (run ∷ runs) = record run { valid = false } ∷ runs
consumed (suc i) (run ∷ runs) = run ∷ consumed i runs

module _ (float_diff : List ℕ → List ℕ → Diff) where
  -- The comparison of two records by the sort attribute.
  unfoldable pub compare : (type : Datatype) → (offset length : ℕ) → Record → Record → Diff
  unfolding reccmp
  compare type offset len a b = reccmp float_diff (drop offset a) (drop offset b) len len type

  -- The smaller one of the smallest run before, with its index, and the run at the index `i`.
  unfoldable pub better :
      (type : Datatype)
      → (offset length : ℕ) → (i : ℕ) → Option (ℕ × Record)
      → Run
      → Option (ℕ × Record)
  unfolding compare
  better type offset len i smallest run = elim run.rid [
    | none ↦ smallest
    | some _ ↦ elim smallest [
      | none ↦ some (i, run.rec)
      | some (k, rec) ↦
          if is_greater (compare type offset len rec run.rec)
          then some (i, run.rec)
          else some (k, rec)
    ]
  ]

module _ (st : Storage) (float_diff : List ℕ → List ℕ → Diff) where
  open st use {State}

  abbrev pub Fetched : Type 0
  Fetched = Option (Result (Unit {0}) × Run × State)

  abbrev pub fetched : Run → Result Record → HeapFileScan → Rid → State → Fetched
  fetched run (err e) sc rid s = some (err e, record run { in_file = sc; rid = some rid }, s)
  fetched run (ok rec) sc rid s =
      some (ok tt, record run { in_file = sc; rid = some rid; rec = rec; valid = true }, s)

  abbrev pub fetch_on : Run → Option (Result Rid × HeapFileScan × State) → Fetched
  fetch_on run none = none
  fetch_on run (some (ok rid, sc, s)) = fetched run (get_record st float_diff sc s) sc rid s
  fetch_on run (some (err file_eof, sc, s)) =
      some (ok tt, record run { in_file = sc; rid = none; valid = true }, s)
  fetch_on run (some (err e, sc, s)) = some (err e, record run { in_file = sc }, s)

  -- The next record of a run that has none in memory.
  unfoldable pub fetch : (fuel : ℕ) → Run → State → Fetched
  unfolding scan_next get_record
  fetch fuel run s =
      if run.valid
      then some (ok tt, run, s)
      else fetch_on run (scan_next st float_diff fuel run.in_file s)

  -- The loop over the runs, from the index `i`.
  unfoldable pub find_smallest :
      (fuel : ℕ)
      → (type : Datatype) → (offset length : ℕ) → (i : ℕ) → Option (ℕ × Record)
      → List Run
      → State
      → Option (Result (Option (ℕ × Record)) × List Run × State)
  unfolding fetch better
  find_smallest fuel type offset len i smallest [] s = some (ok smallest, [], s)
  find_smallest fuel type offset len i smallest (run ∷ runs) s = elim (fetch fuel run s) [
    | none ↦ none
    | some (err e, run1, s1) ↦ some (err e, run1 ∷ runs, s1)
    | some (ok _, run1, s1) ↦
        elim (find_smallest fuel type offset len (suc i)
          (better float_diff type offset len i smallest run1) runs s1) [
            | none ↦ none
            | some (r, runs1, s2) ↦ some (r, run1 ∷ runs1, s2)
          ]
  ]

  abbrev pub chosen :
      SortedFile
      → Option (Result (Option (ℕ × Record)) × List Run × State)
      → Option (Result Record × SortedFile × State)
  chosen f none = none
  chosen f (some (err e, runs, s)) = some (err e, record f { runs = runs }, s)
  chosen f (some (ok none, runs, s)) = some (err file_eof, record f { runs = runs }, s)
  chosen f (some (ok (some (k, rec)), runs, s)) =
      some (ok rec, record f { runs = consumed k runs }, s)

  unfoldable pub next :
      (fuel : ℕ) → SortedFile → State → Option (Result Record × SortedFile × State)
  unfolding find_smallest consumed
  next fuel f s = elim f.runs [
    | [] ↦ some (err file_eof, f, s)
    | run ∷ runs ↦ chosen f (find_smallest fuel f.type f.offset f.length 0 none (run ∷ runs) s)
  ]

  -- The loop of `setMark`.
  unfoldable pub mark_runs : List Run → State → List Run
  unfolding mark_scan
  mark_runs [] s = []
  mark_runs (run ∷ runs) s =
      record run { in_file = (mark_scan st float_diff run.in_file s).1; mark = run.rid }
      ∷ mark_runs runs s

  unfoldable pub set_mark : SortedFile → State → Result (Unit {0}) × SortedFile × State
  unfolding mark_runs
  set_mark f s = (ok tt, record f { runs = mark_runs f.runs s }, s)

  -- A run goes back to its mark.
  abbrev pub restore_record : Option Rid → Run → State → Result (Unit {0}) × Run × State
  restore_record none run s = (ok tt, record run { valid = true }, s)
  restore_record (some _) run s = elim (get_record st float_diff run.in_file s) [
    | err e ↦ (err e, run, s)
    | ok rec ↦ (ok tt, record run { rec = rec; valid = true }, s)
  ]

  unfoldable pub restore : Run → State → Result (Unit {0}) × Run × State
  unfolding reset_scan get_record
  restore run s =
      let (r, sc1, s1) = reset_scan st float_diff run.in_file s in
      elim r [
        | err e ↦ (err e, record run { in_file = sc1 }, s1)
        | ok _ ↦ restore_record run.mark (record run { in_file = sc1; rid = run.mark }) s1
      ]

  -- The loop of `gotoMark`.
  unfoldable pub restore_runs : List Run → State → Result (Unit {0}) × List Run × State
  unfolding restore
  restore_runs [] s = (ok tt, [], s)
  restore_runs (run ∷ runs) s =
      let (r, run1, s1) = restore run s in
      let (r2, runs2, s2) = restore_runs runs s1 in
      elim r [ err e ↦ (err e, run1 ∷ runs, s1) | ok _ ↦ (r2, run1 ∷ runs2, s2) ]

  unfoldable pub goto_mark : SortedFile → State → Result (Unit {0}) × SortedFile × State
  unfolding restore_runs
  goto_mark f s = let (r, runs, s1) = restore_runs f.runs s in (r, record f { runs = runs }, s1)

  -- The destructor.
  unfoldable pub close_runs : List Run → State → State
  unfolding close_scan
  close_runs [] s = s
  close_runs (run ∷ runs) s =
      let s1 = close_scan st float_diff run.in_file s in
      let (_, s2) = st.destroy_file run.name s1 in close_runs runs s2
