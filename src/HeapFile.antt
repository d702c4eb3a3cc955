-- ===== src/HeapFile.antt =====
-- The class `HeapFile` of part5/part5/heapfile.h and heapfile.C, and the creation of heap files.
--
-- The page number -1 that is passed to `readPage` is 0, which `File::readPage` rejects as well; the
-- record id NULLRID is `none`. `has_page` is false where `curPage` is NULL. An operation returns the
-- new object and the new state of the storage, also when it fails.
pub mod Match
pub mod Position
pub mod Turn
pub mod Scan
pub mod Change
pub mod Insert
use Prim.Native.String.{String}
use ubase.Base.{ℕ, suc, ◌+◌, Bool, true, false, Option, none, some, List, ◌==◌, if◌then◌else◌}
use ubase.Page
use ubase.Page.{Page, Rid, Record}
use ubase.Status.{Status, Result, ok, err}
use ubase.Storage.{Storage, PageEntry, FileHdrPage}

-- (PAGESIZE - 2 * sizeof(int) - MAXNAMESIZE) / sizeof(pageEntry)
abbrev pub dir_cnt : ℕ
dir_cnt = 504

abbrev pub number : Option ℕ → ℕ
number none = 0
number (some n) = n

pub record HeapFile : Type 0 where
  pub file : ℕ
  pub header_page : ℕ
  pub header_page_no : ℕ
  pub hdr_dirty : Bool
  pub cur_page : ℕ
  pub has_page : Bool
  pub cur_page_no : ℕ
  pub cur_idx : ℕ
  pub cur_dirty : Bool
  pub cur_rec : Option Rid

abbrev pub set_entry : (ℕ → PageEntry) → ℕ → PageEntry → ℕ → PageEntry
set_entry pages i e j = if j == i then e else pages j

module _ (st : Storage) where
  open st use {State, page, set_page, header, set_header}

  -- Operations on the storage.
  abbrev pub M : Type 0 → Type 0
  M A = State → Result A × State

  abbrev pub and_then : {A B : Type 0} → Result A → State → (A → M B) → Result B × State
  and_then (ok a) s k = k a s
  and_then (err e) s k = (err e, s)

  infixl 5 ◌>>=◌ ◌>>◌
  abbrev pub ◌>>=◌ : {A B : Type 0} → M A → (A → M B) → M B
  ◌>>=◌ m k s = let (r, s') = m s in and_then r s' k

  abbrev pub ◌>>◌ : {A B : Type 0} → M A → M B → M B
  m >> k = m >>= λ _. k

  abbrev pub ignore : {A B : Type 0} → M A → M B → M B
  ignore m k s = k (m s).1

  abbrev pub modify : (State → State) → M (Unit {0})
  modify f s = (ok tt, f s)

  -- The header page of a file with no data page.
  unfoldable pub empty_header : String → FileHdrPage
  empty_header name = record {
    file_name = st.string_object name;
    rec_cnt = 0;
    page_cnt = 0;
    pages = λ i. record { page_no = none; free_space = none };
  }

  -- A new page in a frame is initialised.
  abbrev pub init_page : (frame page_no : ℕ) → State → State
  init_page frame page_no s = set_page frame (Page.init (page s frame) page_no) s

  -- The header gets its first data page.
  abbrev pub enter_first : (hdr frame page_no : ℕ) → State → State
  enter_first hdr frame page_no s =
      set_header hdr
        (record (header s hdr) {
          page_cnt = 1;
          pages = set_entry (header s hdr).pages 0 (record {
            page_no = some page_no;
            free_space = some (Page.get_free_space (page s frame));
          });
        })
        s

  -- `allocPage` for a variable that was not set, and is not read where the call fails.
  abbrev new_page : (file : ℕ) → M (ℕ × ℕ)
  new_page file s =
      let (r, page_no, s1) = st.alloc_page file 0 s in
      (elim r [ err e ↦ err e | ok frame ↦ ok (page_no, frame) ], s1)

  -- The results of `flushFile` and `closeFile` are only printed.
  unfoldable pub create_heap_file : String → M (Unit {0})
  unfolding empty_header
  create_heap_file name =
      st.create_file name
      >> (st.open_file name >>= λ file. new_page file >>= λ (hdr_no, hdr).
          modify (set_header hdr (empty_header name))
          >> (new_page file >>= λ (page_no, frame).
              modify (init_page frame page_no)
              >> modify (enter_first hdr frame page_no)
              >> st.unpin_page file hdr_no true false
              >> st.unpin_page file page_no true false
              >> ignore (st.flush_file file) (ignore (st.close_file file) (modify (λ s. s)))))

  unfoldable pub destroy_heap_file : String → M (Unit {0})
  destroy_heap_file name = st.destroy_file name

  -- The constructor. Where one of the first three calls fails the source goes on with values that were
  -- never set; here the constructor ends with the error.
  unfoldable pub open_heap : String → M HeapFile
  open_heap name = st.open_file name >>= λ file. st.get_first_page file >>= λ first.
      st.read_page file (number first) >>= λ hdr. λ s.
        let first_no = number ((header s hdr).pages 0).page_no in
        (st.read_page file first_no >>= λ frame. λ s'. (
          ok (record {
            file = file;
            header_page = hdr;
            header_page_no = 1;
            hdr_dirty = false;
            cur_page = frame;
            has_page = true;
            cur_page_no = first_no;
            cur_idx = 0;
            cur_dirty = false;
            cur_rec = none;
          }),
          s',
        ))
          s

  -- The part of the destructors of the scans that comes before that of `HeapFile`.
  unfoldable pub unpin_last : HeapFile → State → HeapFile × State
  unpin_last h s =
      if h.has_page
      then (
        record h { has_page = false; cur_page_no = 0 },
        (st.unpin_page h.file h.cur_page_no h.cur_dirty false s).1,
      )
      else (h, s)

  -- The destructor. What the calls answer is only printed.
  unfoldable pub close_heap : HeapFile → State → State
  unfolding unpin_last
  close_heap h s =
      let s1 = (st.unpin_page h.file h.header_page_no h.hdr_dirty false s).1 in
      let (h2, s2) = unpin_last h s1 in (st.close_file h.file s2).1

  unfoldable pub get_rec_cnt : HeapFile → State → ℕ
  get_rec_cnt h s = (header s h.header_page).rec_cnt

  -- Operations that change the object too.
  abbrev pub H : Type 0 → Type 0
  H A = HeapFile → State → Result A × HeapFile × State

  -- The current page is given up, and another one read. `change` is what the object gets when the
  -- page is there.
  unfoldable pub turn_to : (page_no : ℕ) → (HeapFile → HeapFile) → H (Unit {0})
  turn_to page_no change h s =
      let (r, s1) = st.unpin_page h.file h.cur_page_no h.cur_dirty false s in
      let h1 = record h { cur_page_no = page_no } in
      let (r2, s2) = st.read_page h.file page_no s1 in
      elim r [
        | err e ↦ (err e, h, s1)
        | ok _ ↦ elim r2 [
          | err e ↦ (err e, h1, s2)
          | ok frame ↦ (ok tt, change (record h1 { cur_page = frame }), s2)
        ]
      ]

  -- A record of the current page.
  abbrev pub on_page : {A : Type 0} → (Page → Result A) → H A
  on_page read h s = (read (page s h.cur_page), h, s)

  unfoldable pub get_record : Rid → H Record
  unfolding turn_to
  get_record rid h s =
      if rid.page_no == h.cur_page_no
      then on_page (λ p. Page.get_record p rid) h s
      else (let (r, h1, s1) = turn_to rid.page_no (λ x. record x { cur_dirty = false }) h s in
          elim r [
            | err e ↦ (err e, h1, s1)
            | ok _ ↦
                (Page.get_record (page s1 h1.cur_page) rid, record h1 { cur_rec = some rid }, s1)
          ])
