-- ===== src/HeapFile/Insert.antt =====
-- The class `InsertFileScan` of part5/part5/heapfile.h and heapfile.C.
--
-- The loop of `insertRecord` that looks for a page with room runs on fuel, and answers `none` where the
-- fuel is used up.
pub mod Ready
pub mod Leave
pub mod Room
pub mod Laws
use Prim.Native.String.{String}
use ubase.Base.{ℕ, zero, suc, ◌+◌, Bool, true, false, Option, none, some, ltb, length}
use ubase.HeapFile.{HeapFile, open_heap, set_entry, init_page, unpin_last, close_heap}
use ubase.Page
use ubase.Page.{Page, Rid, Record, slot_size}
use ubase.Status.{Result, ok, err}
use ubase.Storage.{Storage}

-- What a round of the loop leads to: another round, the end of the loop, or the end of the operation.
pub data Search : Type 0 where
  again : Search
  there : Search
  failed : Result Rid → Search

-- `freeSpace < need`; -1 is below every need.
unfoldable pub lacks : Option ℕ → ℕ → Bool
lacks none need = true
lacks (some space) need = ltb space need

module _ (st : Storage) where
  open st use {State, page, set_page, header, set_header}

  -- The constructor.
  unfoldable pub new_insert : String → State → Result HeapFile × State
  unfolding open_heap
  new_insert name s =
      let (r, s1) = open_heap st name s in
      elim r [ err e ↦ (err e, s1) | ok h ↦ (ok (record h { cur_rec = none }), s1) ]

  -- The destructors of the scan and of the file.
  unfoldable pub close_insert : HeapFile → State → State
  unfolding unpin_last close_heap
  close_insert h s = let (h1, s1) = unpin_last st h s in close_heap st h1 s1

  -- The header gets the entry of one more page.
  unfoldable pub enter_page : (hdr idx frame page_no : ℕ) → State → State
  enter_page hdr idx frame page_no s =
      let old = header s hdr in
      set_header hdr
        (record old {
          page_cnt = suc old.page_cnt;
          pages = set_entry old.pages idx (record {
            page_no = some page_no;
            free_space = some (Page.get_free_space (page s frame));
          });
        })
        s

  -- The last page was full; a new one becomes the current page. `curPageNo` is passed to `allocPage` by
  -- reference, and may be set where the call fails.
  unfoldable pub add_page : HeapFile → State → Search × HeapFile × State
  unfolding enter_page
  add_page h s =
      let (r, page_no, s1) = st.alloc_page h.file h.cur_page_no s in
      elim r [
        | err e ↦ (failed (err e), record h { cur_page_no = page_no }, s1)
        | ok frame ↦
            let idx = suc h.cur_idx in
            (
              there,
              record h {
                cur_page_no = page_no;
                cur_page = frame;
                cur_rec = none;
                cur_idx = idx;
                hdr_dirty = true;
              },
              enter_page h.header_page idx frame page_no (init_page st frame page_no s1),
            )
      ]

  unfoldable pub read_next : (page_no : ℕ) → HeapFile → State → Search × HeapFile × State
  read_next page_no h s =
      let (r, s1) = st.read_page h.file page_no s in
      let h1 = record h { cur_page_no = page_no } in
      elim r [
        | err e ↦ (failed (err e), h1, s1)
        | ok frame ↦
            (again, record h1 { cur_page = frame; cur_rec = none; cur_idx = suc h.cur_idx }, s1)
      ]

  -- The body of the loop.
  unfoldable pub leave_page : HeapFile → State → Search × HeapFile × State
  unfolding add_page read_next
  leave_page h s =
      let (r, s1) = st.unpin_page h.file h.cur_page_no h.cur_dirty false s in
      elim r [
        | err e ↦ (failed (err e), h, s1)
        | ok _ ↦ elim ((header s1 h.header_page).pages (suc h.cur_idx)).page_no [
          | none ↦ add_page h s1
          | some page_no ↦ read_next page_no h s1
        ]
      ]

  unfoldable pub find_room : (fuel need : ℕ) → HeapFile → State → Option (Search × HeapFile × State)
  unfolding leave_page lacks
  find_room zero need h s = none
  find_room (suc fuel) need h s =
      elim (lacks ((header s h.header_page).pages h.cur_idx).free_space need) [
        | false ↦ some (there, h, s)
        | true ↦
            let (step, h1, s1) = leave_page h s in
            elim step [
              | again ↦ find_room fuel need h1 s1
              | there ↦ some (there, h1, s1)
              | failed r ↦ some (failed r, h1, s1)
            ]
      ]

  -- The record was put on the current page, which is now `p`.
  unfoldable pub enter_record : Rid → Page → HeapFile → State → HeapFile × State
  enter_record rid p h s =
      let s1 = set_page h.cur_page p s in
      let old = header s1 h.header_page in
      (
        record h { cur_rec = some rid; cur_dirty = true; hdr_dirty = true },
        set_header h.header_page
            (record old {
              rec_cnt = suc old.rec_cnt;
              pages = set_entry old.pages h.cur_idx (record (old.pages h.cur_idx) {
                free_space = some (Page.get_free_space (page s1 h.cur_page));
              });
            })
            s1,
      )

  unfoldable pub put_record : Record → HeapFile → State → Result Rid × HeapFile × State
  unfolding enter_record
  put_record rec h s = elim (Page.insert_record (page s h.cur_page) rec) [
    | err e ↦ (err e, h, s)
    | ok (rid, p) ↦ let (h1, s1) = enter_record rid p h s in (ok rid, h1, s1)
  ]

  unfoldable pub insert_record :
      (fuel : ℕ) → Record → HeapFile → State → Option (Result Rid × HeapFile × State)
  unfolding find_room put_record
  insert_record fuel rec h s = elim (find_room fuel (length rec + slot_size) h s) [
    | none ↦ none
    | some (failed r, h1, s1) ↦ some (r, h1, s1)
    | some (_, h1, s1) ↦ some (put_record rec h1 s1)
  ]
