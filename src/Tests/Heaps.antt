-- ===== src/Tests/Heaps.antt =====
-- Runs of the scans of part5/part5/heapfile.C, and the theorems on a file of two pages.
use ubase.Base.{length, ◌+◌, ◌≡◌, inl, inr, refl, none, some, [], ◌∷◌, arith, drop}
use ubase.HeapFile.{HeapFile, turn_to}
use ubase.HeapFile.Change.{delete_record}
use ubase.HeapFile.Change.Laws.{DeleteOf, delete_record-DeleteOf}
use ubase.HeapFile.Match.{Filter, Datatype, Operator, match_rec, int_of, holds, diff, int_diff}
use ubase.HeapFile.Match.Order.{
  match_rec-order, biased, compares, c_string, string_compares, match_rec-string,
}
use ubase.HeapFile.Insert
use ubase.HeapFile.Insert.Laws.{InsertOf, insert_record-InsertOf}
use ubase.HeapFile.Insert.Ready.{Ready}
use ubase.HeapFile.Position.{At}
use ubase.HeapFile.Scan.{
  HeapFileScan, reset_scan, scan_next, scan_step, advance, advance_on, examine, next_page,
}
use ubase.HeapFile.Scan.Mark.{Marked, ResetOf, reset_scan-ResetOf}
use ubase.HeapFile.Scan.Next.{NextOf, scan_next-NextOf}
use ubase.HeapFile.Scan.Next.Round.{left}
use ubase.HeapFile.Scan.Records.{drop_until}
use ubase.Page.{
  init, place, insert_record, find_empty, memcpy, set_slot, first_record, next_record, find_used,
  get_record, read,
}
use ubase.HeapFile.Scan.Next.Round.{left}
use ubase.Status.{ok}
use ubase.Tests.Memory.{
  Memory, set, storage, view, view-Obeys, rec3, p2-IsValid, p3-IsValid, entry, memory, heap,
  heap-At, no_floats, negative, scan, second_scan, second_scan-At,
}

-- The record of page 2 is not negative, that of page 3 is.
found :
    (sc' : HeapFileScan) × (s' : Memory) × (scan_next storage no_floats 4 scan memory
      ≡ some (ok (record { page_no = 3; slot_no = 0 }), sc', s'))
unfolding scan_next scan_step advance advance_on examine next_page turn_to first_record next_record
    find_used get_record read place memcpy set_slot init match_rec holds diff int_of int_diff
found = (_, _, refl)

scan_next-NextOf_example :
    NextOf storage no_floats view view-Obeys scan memory
      (length (left storage no_floats view view-Obeys scan memory (3 ∷ [])) + 1)
      (drop_until no_floats scan.filter
        (left storage no_floats view view-Obeys scan memory (3 ∷ [])))
      (scan_next storage no_floats 4 scan memory)
unfolding place init set_slot
scan_next-NextOf_example =
    scan_next-NextOf storage no_floats view view-Obeys 4 scan memory (3 ∷ []) heap-At (omega arith)

delete_record-DeleteOf_example :
    DeleteOf storage no_floats view view-Obeys second_scan memory
      (3 ∷ [])
      (delete_record storage second_scan memory)
delete_record-DeleteOf_example =
    delete_record-DeleteOf storage no_floats view view-Obeys second_scan memory (3 ∷ [])
      second_scan-At

match_rec-order_example :
    match_rec no_floats (some negative) rec3
    ≡ compares Operator.lt (biased (int_of (drop 1 rec3))) (biased (int_of negative.filter))
unfolding int_of
match_rec-order_example =
    match_rec-order no_floats negative rec3 refl (omega arith) (omega arith)
      (omega arith, (omega arith, (omega arith, (omega arith, (omega arith, tt)))))
      (omega arith, (omega arith, (omega arith, (omega arith, tt)))) (omega arith, omega arith)

-- The four bytes behind the first one, as a string.
abbrev string_filter : Filter
string_filter = record {
  offset = 1;
  length = 4;
  type = Datatype.string;
  filter = 254 ∷ 0 ∷ [];
  op = Operator.gt;
}

match_rec-string_example :
    match_rec no_floats (some string_filter) rec3
    ≡ string_compares Operator.gt (c_string 4 (drop 1 rec3)) (c_string 4 string_filter.filter)
match_rec-string_example =
    match_rec-string no_floats string_filter rec3 refl (omega arith) (omega arith)

-- A scan on page 3 that was marked before the first record.
abbrev third : HeapFile
third = record heap { cur_page = 3; cur_page_no = 3; cur_idx = 1 }

abbrev marked : HeapFileScan
marked = record scan { base = third; marked_page_no = 2; marked_rec = none; marked_idx = 0 }

third-At : At storage view third memory []
third-At = record {
  cur = (omega arith, refl, omega arith);
  hdr = (omega arith, refl, omega arith);
  distinct = (((λ e. omega arith), tt), (tt, tt));
  saved = inl (omega arith, inr (inr refl));
  pool = tt;
  saves = tt;
  chain = refl;
  valid = p3-IsValid;
  valids = tt;
}

marked-Marked : Marked storage no_floats view view-Obeys marked memory (3 ∷ [])
marked-Marked = record {
  distinct = (heap-At).distinct;
  saves = ((omega arith, inr (inr refl)), ((omega arith, inr (inr refl)), tt));
  chain = (refl, refl);
  valid = p2-IsValid;
  valids = (p3-IsValid, tt);
}

reset_scan-ResetOf_example :
    ResetOf storage no_floats view view-Obeys marked memory
      (3 ∷ [])
      (reset_scan storage no_floats marked memory)
reset_scan-ResetOf_example =
    reset_scan-ResetOf storage no_floats view view-Obeys marked memory [] (3 ∷ []) third-At
      marked-Marked

heap-Ready : Ready storage view view-Obeys heap memory (3 ∷ [])
unfolding place init
heap-Ready = record {
  here = heap-At;
  live = (omega arith, (omega arith, (omega arith, tt)));
  fits = (omega arith, (omega arith, tt));
  free = λ j low high. ground arith;
}

insert_record-InsertOf_example :
    InsertOf storage view view-Obeys heap memory
      (7 ∷ 8 ∷ [])
      (Insert.insert_record storage 2 (7 ∷ 8 ∷ []) heap memory)
insert_record-InsertOf_example =
    insert_record-InsertOf storage view view-Obeys 2 (7 ∷ 8 ∷ []) heap memory (3 ∷ []) heap-Ready
      (omega arith) (omega arith) (omega arith)

-- A page that the header calls full is passed over.
abbrev full_first : Memory
full_first = record memory {
  headers = λ g. record (memory.headers g) {
    pages =
        set 0 (record { page_no = some 2; free_space = some 3 })
          (set 1 (entry 3) (λ i. record { page_no = none; free_space = none }));
  };
}

second_page :
    (h' : HeapFile) × (s' : Memory) × (Insert.insert_record storage 2 (7 ∷ 8 ∷ []) heap full_first
      ≡ some (ok (record { page_no = 3; slot_no = 1 }), h', s'))
unfolding Insert.insert_record Insert.find_room Insert.lacks Insert.leave_page Insert.read_next
    Insert.put_record Insert.enter_record insert_record place find_empty memcpy set_slot init
second_page = (_, _, refl)
