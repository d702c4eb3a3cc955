-- ===== src/SortedFile/Runs.antt =====
-- `SortedFile::sortFile`, `generateRun` and `startScans` of part5/part5/sort.C.
--
-- `qsort` of the C library is a parameter: the standard leaves the order of records that compare equal
-- open. `fresh` is what the memory holds in the members of a `RUN` that nothing has set. Where an
-- operation returns early the objects that it has made with `new` stay open.
use Prim.Native.String.{String}
use ubase.Base.{ℕ, zero, suc, false, Option, none, some, List, [], ◌∷◌, ◌++◌, length, drop}
use ubase.Catalog.{C, ◌>>=◌, pure, fail, current}
use ubase.HeapFile.{HeapFile, get_record, open_heap, close_heap}
use ubase.HeapFile.Insert.{new_insert, insert_record, close_insert}
use ubase.HeapFile.Match.{Diff, Datatype, Operator}
use ubase.HeapFile.Scan.{HeapFileScan, ℤ, new_scan, start_scan, scan_next, close_scan}
use ubase.Page.{Rid}
use ubase.SortedFile.{SortRec, Run, SortedFile, copy, sortcmp, run_name, sort_params}
use ubase.Status.{Status, Result, ok, err, file_eof}
use ubase.Storage.{Storage}

module _ (st : Storage) (float_diff : List ℕ → List ℕ → Diff) (memory : HeapFileScan)
    (qsort : (SortRec → SortRec → Diff) → List SortRec → List SortRec) (fresh : Run) where
  open st use {State}

  abbrev Op : Type 0 → Type 0
  Op A = C st float_diff memory A

  infixl 5 ◌>>◌
  abbrev ◌>>◌ : {A B : Type 0} → Op A → (A → Op B) → Op B
  m >> k = ◌>>=◌ st float_diff memory m k

  abbrev give : {A : Type 0} → A → Op A
  give a = pure st float_diff memory a

  abbrev stop : {A : Type 0} → Status → Op A
  stop e = fail st float_diff memory e

  -- An operation that needs no fuel.
  abbrev lift : {A : Type 0} → (State → Result A × State) → Op A
  lift m s = some (m s)

  abbrev with_object :
      {A : Type 0} → Result A × HeapFile × State → Option (Result (A × HeapFile) × State)
  with_object (ok a, h, s) = some (ok (a, h), s)
  with_object (err e, h, s) = some (err e, s)

  abbrev inserted : Option (Result Rid × HeapFile × State) → Option (Result HeapFile × State)
  inserted none = none
  inserted (some (ok rid, h, s)) = some (ok h, s)
  inserted (some (err e, h, s)) = some (err e, s)

  -- A sequential scan without a filter.
  abbrev started : Result (Unit {0}) × HeapFileScan × State → Option (Result HeapFileScan × State)
  started (ok _, sc, s) = some (ok sc, s)
  started (err e, sc, s) = some (err e, s)

  unfoldable pub open_scan : String → Op HeapFileScan
  unfolding new_scan start_scan
  open_scan name = lift (new_scan st float_diff memory name) >> λ sc s.
      started (start_scan st float_diff (ℤ.pos 0) (ℤ.pos 0) Datatype.string none Operator.eq sc s)

  abbrev found :
      Option (Result Rid × HeapFileScan × State)
      → Option (Result (Option Rid × HeapFileScan) × State)
  found none = none
  found (some (ok rid, sc, s)) = some (ok (some rid, sc), s)
  found (some (err file_eof, sc, s)) = some (ok (none, sc), s)
  found (some (err e, sc, s)) = some (err e, s)

  -- The loop that fills the buffer with at most `room` records.
  unfoldable pub collect :
      (fuel room offset length : ℕ) → HeapFileScan → Op (List SortRec × HeapFileScan)
  unfolding scan_next copy
  collect fuel zero offset len sc = give ([], sc)
  collect fuel (suc room) offset len sc =
      (λ s. found (scan_next st float_diff fuel sc s)) >> λ (r, sc1). elim r [
        | none ↦ give ([], sc1)
        | some rid ↦ current st float_diff memory sc1 >> λ rec.
            collect fuel room offset len sc1 >> λ (items, sc2).
            give
              (record { rid = rid; field = copy len (drop offset rec); length = len } ∷ items, sc2)
      ]

  -- The loop that writes the records of the buffer to the temporary file.
  unfoldable pub write_out :
      (fuel : ℕ) → List SortRec → HeapFile → HeapFile → Op (HeapFile × HeapFile)
  unfolding get_record insert_record
  write_out fuel [] hfile out = give (hfile, out)
  write_out fuel (item ∷ items) hfile out =
      (λ s. with_object (get_record st item.rid hfile s)) >> λ (rec, hfile1).
      (λ s. inserted (insert_record st fuel rec out s)) >> λ out1. write_out fuel items hfile1 out1

  -- The name of the run is the answer.
  unfoldable pub generate_run :
      (fuel : ℕ) → (file_name : String) → Datatype → (size : ℕ) → List SortRec → Op String
  unfolding sortcmp run_name new_insert open_heap write_out close_insert close_heap
  generate_run fuel file_name type size items =
      let sorted = qsort (sortcmp float_diff type) items in
      let name = run_name file_name (suc size) in
      lift (st.create_file name) >> λ _. lift (st.destroy_file name) >> λ _.
      lift (new_insert st name) >> λ out. lift (open_heap st file_name) >> λ hfile.
      write_out fuel sorted hfile out >> λ (hfile1, out1) s.
      some (ok name, close_heap st hfile1 (close_insert st out1 s))

  -- The loop over the runs; `names` are the names of the runs that there are.
  unfoldable pub make_runs :
      (rounds fuel : ℕ)
      → (file_name : String) → Datatype
      → (offset length max_items : ℕ) → List String
      → HeapFileScan
      → Op (List String × HeapFileScan)
  unfolding collect generate_run
  make_runs zero fuel file_name type offset len max_items names sc = λ s. none
  make_runs (suc rounds) fuel file_name type offset len max_items names sc =
      collect fuel max_items offset len sc >> λ (items, sc1). elim items [
        | [] ↦ give (names, sc1)
        | item ∷ rest ↦ generate_run fuel file_name type (length names) (item ∷ rest) >> λ name.
            make_runs rounds fuel file_name type offset len max_items (names ++ (name ∷ [])) sc1
      ]

  unfoldable pub start_scans : List String → Op (List Run)
  unfolding open_scan
  start_scans [] = give []
  start_scans (name ∷ names) = open_scan name >> λ sc. start_scans names >> λ runs.
      give (record fresh { name = name; in_file = sc; valid = false; rid = none } ∷ runs)

  unfoldable pub sort_file :
      (rounds fuel : ℕ)
      → (file_name : String) → Datatype
      → (offset length max_items : ℕ) → Op (List Run)
  unfolding open_scan make_runs close_scan start_scans
  sort_file rounds fuel file_name type offset len max_items = open_scan file_name >> λ sc.
      make_runs rounds fuel file_name type offset len max_items [] sc >> λ (names, sc1).
      (λ s. some (ok tt, close_scan st float_diff sc1 s)) >> λ _. start_scans names

  -- The constructor.
  unfoldable pub new_sorted :
      (rounds fuel : ℕ)
      → (file_name : String) → (offset len : ℤ) → Datatype
      → (max_items : ℤ) → Op SortedFile
  unfolding sort_params sort_file
  new_sorted rounds fuel file_name offset len type max_items =
      elim (sort_params offset len type max_items) [
        | err e ↦ stop e
        | ok (o, l, m) ↦ sort_file rounds fuel file_name type o l m >> λ runs. give (record {
          file_name = file_name;
          type = type;
          offset = o;
          length = l;
          max_items = m;
          runs = runs;
        })
      ]
