-- ===== src/Tests/Memory.antt =====
-- A file of two pages in a storage in memory.
use ubase.Base.{
  ℕ, ◌≡◌, inl, inr, refl, true, false, Bool-cases, ltb, none, some, List, [], ◌∷◌, ◌==◌,
  if◌then◌else◌, arith,
}
use ubase.HeapFile.{HeapFile}
use ubase.HeapFile.Match.{Diff, Filter, Operator, Datatype}
use ubase.HeapFile.Position.{At}
use ubase.HeapFile.Scan.{HeapFileScan}
use ubase.Page.{Page, Record, init, place, insert_record, find_empty, memcpy, set_slot}
use ubase.Page.Slot.{empty}
use ubase.Page.Insert.{lookup-insert_record}
use ubase.HeapFile.Turn.{ReadFails}
use ubase.Page.Valid.{IsValid, init-IsValid}
use ubase.Status.{ok, file_eof}
use ubase.Storage.{PageEntry}
pub use ubase.Tests.Evicting.{Memory, set, storage, view}
pub use ubase.Tests.Evicting.Laws.{view-Obeys}

abbrev blank : Page
blank = record {
  bytes = λ k. 0;
  slot = λ i. empty;
  slot_cnt = 0;
  free_ptr = 0;
  free_space = 0;
  next_page = none;
  cur_page = 0;
}

abbrev p0 : ℕ → Page
p0 n = init blank n

-- Page 2 holds a record of five bytes, page 3 one of four.
abbrev pub rec2 : Record
rec2 = 9 ∷ 1 ∷ 0 ∷ 0 ∷ 0 ∷ []

abbrev pub rec3 : Record
rec3 = 9 ∷ 254 ∷ 255 ∷ 255 ∷ 255 ∷ []

abbrev p2 : Page
p2 = place (p0 2) rec2 0 9 1

abbrev p3 : Page
p3 = place (p0 3) rec3 0 9 1

insert2 : insert_record (p0 2) rec2 ≡ ok (record { page_no = 2; slot_no = 0 }, p2)
unfolding insert_record place find_empty memcpy set_slot init
insert2 = refl

insert3 : insert_record (p0 3) rec3 ≡ ok (record { page_no = 3; slot_no = 0 }, p3)
unfolding insert_record place find_empty memcpy set_slot init
insert3 = refl

pub p2-IsValid : IsValid p2
p2-IsValid = (lookup-insert_record (p0 2) rec2 (init-IsValid blank 2).0 (omega arith) insert2).0

pub p3-IsValid : IsValid p3
p3-IsValid = (lookup-insert_record (p0 3) rec3 (init-IsValid blank 3).0 (omega arith) insert3).0

abbrev pub entry : ℕ → PageEntry
entry n = record { page_no = some n; free_space = some 4071 }

-- The pages 2 and 3 of the first two files, the header pages and they pinned.
abbrev pages : ℕ → Page
pages g =
    if g == 2
    then p2
    else if g == 3
    then p3
    else if g == 102
    then p2
    else if g == 103
    then p3
    else blank

abbrev pub memory : Memory
memory = record {
  disk = pages;
  frames = pages;
  pins = λ g. 1;
  marked = λ g. false;
  headers = λ g. record {
    file_name = [];
    rec_cnt = 2;
    page_cnt = 2;
    pages = set 0 (entry 2) (set 1 (entry 3) (λ i. record { page_no = none; free_space = none }));
  };
  next = 4;
}

abbrev pub heap : HeapFile
heap = record {
  file = 0;
  header_page = 1;
  header_page_no = 1;
  hdr_dirty = false;
  cur_page = 2;
  has_page = true;
  cur_page_no = 2;
  cur_idx = 0;
  cur_dirty = false;
  cur_rec = none;
}

pub heap-At : At storage view heap memory (3 ∷ [])
heap-At = record {
  cur = (omega arith, refl, omega arith);
  hdr = (omega arith, refl, omega arith);
  distinct = (((λ e. omega arith), ((λ e. omega arith), tt)), (((λ e. omega arith), tt), (tt, tt)));
  saved = inl (omega arith, inr (inr refl));
  pool = tt;
  saves = ((omega arith, inr (inr refl)), tt);
  chain = (refl, refl);
  valid = p2-IsValid;
  valids = (p3-IsValid, tt);
}

abbrev pub no_floats : List ℕ → List ℕ → Diff
no_floats a b = Diff.unordered

-- The four bytes behind the first one, as a number below 0.
abbrev pub negative : Filter
negative = record {
  offset = 1;
  length = 4;
  type = Datatype.integer;
  filter = 0 ∷ 0 ∷ 0 ∷ 0 ∷ [];
  op = Operator.lt;
}

abbrev pub scan : HeapFileScan
scan = record {
  base = heap;
  filter = some negative;
  marked_page_no = 0;
  marked_rec = none;
  marked_idx = 0;
}

abbrev pub second_scan : HeapFileScan
second_scan = record scan {
  base = record heap { cur_rec = some (record { page_no = 2; slot_no = 0 }) };
}

pub second_scan-At : At storage view second_scan.base memory (3 ∷ [])
second_scan-At = record {
  cur = (omega arith, refl, omega arith);
  hdr = (omega arith, refl, omega arith);
  distinct = (heap-At).distinct;
  saved = inl (omega arith, inr (inr refl));
  pool = tt;
  saves = ((omega arith, inr (inr refl)), tt);
  chain = (refl, refl);
  valid = p2-IsValid;
  valids = (p3-IsValid, tt);
}

abbrev pub whole : HeapFileScan
whole = record scan { filter = none }

pub reads : ¬ ReadFails storage view view-Obeys file_eof
reads (f, n, s, s', e) = elim (Bool-cases (ltb n 100)) [
  | inl q ↦ let done = rw q at e in absurd (cc)
  | inr q ↦ let failed = rw q at e in absurd (cc)
]
