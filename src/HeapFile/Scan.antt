-- ===== src/HeapFile/Scan.antt =====
-- The class `HeapFileScan` of part5/part5/heapfile.h and heapfile.C.
--
-- The loop of `scanNext` runs on fuel, and answers `none` where the fuel is used up. `none` for the
-- filter stands for NULL. An operation returns the new object and the new state of the storage.
pub mod Records
pub mod Position
pub mod Listing
pub mod Next
pub mod Mark
use Prim.Native.String.{String}
use ubase.Base.{
  ℕ, zero, suc, ◌+◌, Bool, true, false, ◌&&◌, ◌||◌, not, Option, none, some, List, ◌==◌,
  if◌then◌else◌,
}
use ubase.HeapFile.{HeapFile, number, turn_to, open_heap, unpin_last, close_heap}
use ubase.HeapFile.Match.{Filter, Datatype, Operator, Diff, match_rec}
use ubase.HeapFile.Match.Datatype.{integer, float, string}
use ubase.Page
use ubase.Page.{Page, Rid, Record}
use ubase.Status.{
  Status, Result, ok, err, no_records, end_of_page, file_eof, bad_page_no, bad_scan_parm,
}
use ubase.Storage.{Storage}

pub record HeapFileScan : Type 0 where
  pub base : HeapFile
  pub filter : Option Filter
  pub marked_page_no : ℕ
  pub marked_rec : Option Rid
  pub marked_idx : ℕ

-- An `int` parameter: n, or -(n + 1).
pub data ℤ : Type 0 where
  pos : ℕ → ℤ
  negsuc : ℕ → ℤ

-- What one round of the loop of `scanNext` leads to.
pub data Step : Type 0 where
  again : Step
  answer : Result Rid → Step

-- `length` has the size of the type, where the type has one.
unfoldable pub has_size : Datatype → ℕ → Bool
has_size integer n = n == 4
has_size float n = n == 4
has_size string n = true

-- The check of the parameters; every `Datatype` and every `Operator` passes it.
unfoldable pub make_filter : (offset length : ℤ) → Datatype → List ℕ → Operator → Option Filter
unfolding has_size
make_filter (ℤ.negsuc _) length type filter op = none
make_filter (ℤ.pos _) (ℤ.negsuc _) type filter op = none
make_filter (ℤ.pos offset) (ℤ.pos length) type filter op =
    if length == 0 || not (has_size type length)
    then none
    else some (record { offset = offset; length = length; type = type; filter = filter; op = op })

abbrev pub widen : Result Rid → Result (Option Rid)
widen (ok rid) = ok (some rid)
widen (err e) = err e

-- The next record of a page, or the code by which the page ends, or another one.
unfoldable pub advance_on : Page → Option Rid → Result (Option Rid)
advance_on p none = Page.first_record p
advance_on p (some rid) = widen (Page.next_record p rid)

module _ (st : Storage) (float_diff : List ℕ → List ℕ → Diff) where
  open st use {State, page, set_page, header, set_header}

  abbrev pub S : Type 0 → Type 0
  S A = HeapFileScan → State → Result A × HeapFileScan × State

  abbrev pub set_base : HeapFileScan → (HeapFile → HeapFile) → HeapFileScan
  set_base sc change = record sc { base = change sc.base }

  -- The constructor; the other members keep what the memory held.
  unfoldable pub new_scan : HeapFileScan → String → State → Result HeapFileScan × State
  unfolding open_heap
  new_scan memory name s =
      let (r, s1) = open_heap st name s in
      elim r [ err e ↦ (err e, s1) | ok h ↦ (ok (record memory { base = h; filter = none }), s1) ]

  -- `turn_to` for the object of a scan.
  abbrev pub turn : (page_no : ℕ) → (HeapFile → HeapFile) → S (Unit {0})
  turn page_no change sc s =
      let (r, h, s1) = turn_to st page_no change sc.base s in (r, record sc { base = h }, s1)

  -- The scan goes to the first page, unless it is there already: then it stays where it is.
  unfoldable pub rewind : S (Unit {0})
  unfolding turn_to
  rewind sc s =
      let first = number ((header s sc.base.header_page).pages 0).page_no in
      if sc.base.cur_page_no == first
      then (ok tt, sc, s)
      else turn first (λ h. record h { cur_dirty = false; cur_rec = none; cur_idx = 0 }) sc s

  unfoldable pub start_scan :
      (offset length : ℤ) → Datatype → Option (List ℕ) → Operator → S (Unit {0})
  unfolding rewind make_filter
  start_scan offset length type filter op sc s =
      let (r, sc1, s1) = rewind sc s in
      elim r [
        | err e ↦ (err e, sc1, s1)
        | ok _ ↦ elim filter [
          | none ↦ (ok tt, record sc1 { filter = none }, s1)
          | some bytes ↦ elim (make_filter offset length type bytes op) [
            | none ↦ (err bad_scan_parm, sc1, s1)
            | some f ↦ (ok tt, record sc1 { filter = some f }, s1)
          ]
        ]
      ]

  unfoldable pub end_scan : S (Unit {0})
  end_scan sc s = (ok tt, sc, s)

  -- The destructors of the scan and of the file.
  unfoldable pub close_scan : HeapFileScan → State → State
  unfolding unpin_last close_heap
  close_scan sc s =
      let (h, s1) = unpin_last st sc.base s in close_heap st (record h { cur_dirty = false }) s1

  unfoldable pub mark_scan : S (Unit {0})
  mark_scan sc s = (
    ok tt,
    record sc {
      marked_page_no = sc.base.cur_page_no;
      marked_rec = sc.base.cur_rec;
      marked_idx = sc.base.cur_idx;
    },
    s,
  )

  -- On the marked page itself nothing is done, the position in it included. A `readPage` that fails
  -- leaves `curPageNo`.
  unfoldable pub reset_scan : S (Unit {0})
  unfolding turn_to
  reset_scan sc s =
      if sc.marked_page_no == sc.base.cur_page_no
      then (ok tt, sc, s)
      else (let (r, sc1, s1) =
            turn sc.marked_page_no
              (λ h. record h {
                cur_dirty = false;
                cur_rec = sc.marked_rec;
                cur_idx = sc.marked_idx;
              })
              sc s in
          elim r [
            | ok _ ↦ (ok tt, sc1, s1)
            | err e ↦
                (err e, set_base sc1 (λ h. record h { cur_page_no = sc.base.cur_page_no }), s1)
          ])

  -- Without a current record the source reads in front of the slots; here that is an error.
  unfoldable pub get_record : HeapFileScan → State → Result Record
  get_record sc s = elim sc.base.cur_rec [
    | none ↦ err bad_page_no
    | some rid ↦ Page.get_record (page s sc.base.cur_page) rid
  ]

  -- The record of the new position, which is `cur_rec`, is tested.
  unfoldable pub examine : HeapFileScan → State → Step × HeapFileScan × State
  unfolding get_record match_rec
  examine sc s = elim sc.base.cur_rec [
    | none ↦ (answer (err bad_page_no), sc, s)
    | some rid ↦ elim (Page.get_record (page s sc.base.cur_page) rid) [
      | err e ↦ (answer (err e), sc, s)
      | ok rec ↦ ((if match_rec float_diff sc.filter rec then answer (ok rid) else again), sc, s)
    ]
  ]

  -- The current page has no further record.
  unfoldable pub next_page : HeapFileScan → State → Step × HeapFileScan × State
  unfolding turn_to
  next_page sc s =
      let idx = suc sc.base.cur_idx in
      elim ((header s sc.base.header_page).pages idx).page_no [
        | none ↦ (answer (err file_eof), sc, s)
        | some page_no ↦
            let (r, sc1, s1) =
              turn page_no (λ h. record h { cur_idx = idx; cur_rec = none }) sc s in
            elim r [ err e ↦ (answer (err e), sc1, s1) | ok _ ↦ (again, sc1, s1) ]
      ]

  unfoldable pub advance : HeapFileScan → State → Result (Option Rid)
  unfolding advance_on
  advance sc s = advance_on (page s sc.base.cur_page) sc.base.cur_rec

  -- What a round does with the answer. `ok none` does not occur on a valid page.
  abbrev pub proceed : Result (Option Rid) → HeapFileScan → State → Step × HeapFileScan × State
  proceed (ok r) sc s = examine (set_base sc (λ h. record h { cur_rec = r })) s
  proceed (err no_records) sc s = next_page sc s
  proceed (err end_of_page) sc s = next_page sc s
  proceed (err e) sc s = (answer (err e), sc, s)

  -- A round of the loop.
  unfoldable pub scan_step : HeapFileScan → State → Step × HeapFileScan × State
  unfolding advance examine next_page
  scan_step sc s = proceed (advance sc s) sc s

  unfoldable pub scan_next :
      (fuel : ℕ) → HeapFileScan → State → Option (Result Rid × HeapFileScan × State)
  unfolding scan_step
  scan_next zero sc s = none
  scan_next (suc fuel) sc s =
      let (step, sc1, s1) = scan_step sc s in
      elim step [ again ↦ scan_next fuel sc1 s1 | answer r ↦ some (r, sc1, s1) ]
