-- ===== src/HeapFile/Change.antt =====
-- The updates of the current record of a scan: `HeapFileScan::deleteRecord`, `updateRecord` and
-- `markDirty` of part5/part5/heapfile.C.
pub mod Laws
use ubase.Base.{ℕ, suc, true, Option, none, some, List, ◌==◌, if◌then◌else◌}
use ubase.HeapFile.{HeapFile}
use ubase.HeapFile.Scan.{HeapFileScan, S}
use ubase.Page
use ubase.Page.{Page, Rid, Record}
use ubase.Status.{Result, ok, err, bad_page_no}
use ubase.Storage.{Storage}

-- The current record, if there is one and it is on the current page.
unfoldable pub current : HeapFileScan → Option Rid
current sc = elim sc.base.cur_rec [
  | none ↦ none
  | some rid ↦ if rid.page_no == sc.base.cur_page_no then some rid else none
]

module _ (st : Storage) where
  open st use {State, page, set_page, header, set_header}

  unfoldable pub mark_dirty : HeapFileScan → HeapFileScan
  mark_dirty sc = record sc { base = record sc.base { cur_dirty = true } }

  -- The record count is increased here too.
  unfoldable pub count : HeapFileScan → State → HeapFileScan × State
  count sc s =
      let hdr = sc.base.header_page in
      (
        record sc { base = record sc.base { hdr_dirty = true } },
        set_header hdr (record (header s hdr) { rec_cnt = suc (header s hdr).rec_cnt }) s,
      )

  unfoldable pub delete_record : HeapFileScan → State → Result (Unit {0}) × HeapFileScan × State
  unfolding current count mark_dirty
  delete_record sc s = elim (current sc) [
    | none ↦ (err bad_page_no, sc, s)
    | some rid ↦ elim (Page.delete_record (page s sc.base.cur_page) rid) [
      | err e ↦ (err e, sc, s)
      | ok p ↦
          let (sc1, s1) = count (mark_dirty sc) (set_page sc.base.cur_page p s) in (ok tt, sc1, s1)
    ]
  ]

  unfoldable pub update_record :
      Record → HeapFileScan → State → Result (Unit {0}) × HeapFileScan × State
  unfolding current mark_dirty
  update_record rec sc s = elim (current sc) [
    | none ↦ (err bad_page_no, sc, s)
    | some rid ↦ elim (Page.update_record (page s sc.base.cur_page) rec rid) [
      | err e ↦ (err e, sc, s)
      | ok p ↦ (ok tt, mark_dirty sc, set_page sc.base.cur_page p s)
    ]
  ]
