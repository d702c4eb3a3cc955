-- ===== src/Tests/Sorts.antt =====
-- Runs of the merge of part5/part5/sort.C over the storage in memory: a run over both pages, and one over
-- the second page only.
use ubase.Base.{◌≡◌, inl, inr, refl, false, none, some, List, [], ◌∷◌, drop, arith}
use ubase.HeapFile.Match.{Datatype, match_rec}
use ubase.HeapFile.Position.{At}
use ubase.HeapFile.Match.Order.{lexicographic}
use ubase.HeapFile.{turn_to}
use ubase.HeapFile.Scan.{
  HeapFileScan, get_record, scan_next, scan_step, advance, advance_on, examine, next_page,
}
use ubase.Page
use ubase.Page.{Record, place, init, set_slot, memcpy, read, first_record, next_record, find_used}
use ubase.SortedFile.{Run, SortedFile, min, memcmp, reccmp, run_name, decimal, copy}
use ubase.SortedFile.All.{AllOf, fetch_all, fetch_all-AllOf}
use ubase.SortedFile.Laws.{Opened, NextOf, next-NextOf, order_of}
use ubase.SortedFile.Next.{compare, next, find_smallest, fetch, better, consumed}
use ubase.SortedFile.Order.{IsOrder, compare-string-IsOrder, compare-lexicographic}
use ubase.Status.{ok}
use ubase.Tests.Memory.{
  Memory, reads, whole, storage, view, view-Obeys, memory, heap, heap-At, no_floats, rec2, rec3,
  p3-IsValid,
}

seven : run_name "a" 7 ≡ "a.sort.7\0"
unfolding run_name decimal
seven = refl

abbrev first_scan : HeapFileScan
first_scan = record whole {
  base = record heap { cur_rec = some (record { page_no = 2; slot_no = 0 }) };
}

abbrev second : HeapFileScan
second = record whole {
  base = record heap { file = 1; header_page = 101; cur_page = 103; cur_page_no = 3; cur_idx = 1 };
}

second-At : At storage view second.base memory []
second-At = record {
  cur = (omega arith, refl, omega arith);
  hdr = (omega arith, refl, omega arith);
  distinct = (((λ e. omega arith), tt), (tt, tt));
  saved = inl (omega arith, inr (inr refl));
  pool = tt;
  saves = tt;
  chain = refl;
  valid = p3-IsValid;
  valids = tt;
}

abbrev run : HeapFileScan → Run
run sc = record { name = ""; in_file = sc; valid = false; rec = []; rid = none; mark = none }

abbrev file : SortedFile
file = record {
  file_name = "";
  type = Datatype.string;
  offset = 1;
  length = 1;
  max_items = 2;
  runs = run whole ∷ run second ∷ [];
}

abbrev lists : List (List Record)
lists = (rec2 ∷ rec3 ∷ []) ∷ (rec3 ∷ []) ∷ []

file-Opened : Opened storage no_floats view view-Obeys reads 4 file memory lists
unfolding place init set_slot memcpy read
file-Opened = record {
  distinct = (((λ e. omega (arith, e)), tt), (tt, tt));
  reps = (
    inl (
      refl,
      record { ns = 3 ∷ []; at = heap-At; no_filter = refl; to_come = refl; enough = omega arith },
    ),
    (
      inl (
        refl,
        record { ns = []; at = second-At; no_filter = refl; to_come = refl; enough = omega arith },
      ),
      tt,
    ),
  );
}

file-IsOrder : IsOrder (λ rec. Unit) (order_of storage no_floats view view-Obeys reads 4 file)
file-IsOrder = compare-string-IsOrder no_floats 1 1

next-NextOf_example :
    NextOf storage no_floats view view-Obeys reads 4 file lists
      (next storage no_floats 4 file memory)
next-NextOf_example =
    next-NextOf storage no_floats view view-Obeys reads 4 (λ rec. Unit) file memory lists
      file-IsOrder ((tt, (tt, tt)), ((tt, tt), tt)) file-Opened

fetch_all-AllOf_example :
    AllOf storage no_floats view view-Obeys reads 4
      (order_of storage no_floats view view-Obeys reads 4 file)
      lists
      (fetch_all storage no_floats view view-Obeys reads 4 4 file memory)
unfolding compare reccmp memcmp
fetch_all-AllOf_example =
    fetch_all-AllOf storage no_floats view view-Obeys reads 4 (λ rec. Unit) 4 file memory lists
      file-IsOrder ((tt, (tt, tt)), ((tt, tt), tt)) (((refl, tt), (tt, tt)), ((tt, tt), tt))
      file-Opened (omega arith)

compare-lexicographic_example :
    compare no_floats Datatype.string 1 4 rec2 rec3
    ≡ lexicographic (copy 4 (drop 1 rec2)) (copy 4 (drop 1 rec3))
compare-lexicographic_example = compare-lexicographic no_floats 1 4 rec2 rec3

-- The smallest record comes first.
smallest :
    (f' : SortedFile) × (s' : Memory) × (next storage no_floats 4 file memory
      ≡ some (ok rec2, f', s'))
unfolding next find_smallest fetch better consumed compare reccmp memcmp min scan_next scan_step
    advance advance_on examine next_page turn_to first_record next_record find_used get_record
    Page.get_record read place memcpy set_slot init match_rec
smallest = (_, _, refl)
