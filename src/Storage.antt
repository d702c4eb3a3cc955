-- ===== src/Storage.antt =====
-- What the heap files of part5/part5/heapfile.C use of the buffer manager `bufMgr` (buf.h), of `db` and
-- `File` (db.h), and of the frames of the buffer pool, which they see as data pages (page.h) or as
-- header pages. A `Page*` into the pool is the number of its frame.
pub mod Laws
use Prim.Native.String.{String}
use ubase.Base.{ℕ, Bool, Option, List}
use ubase.Page.{Page}
use ubase.Status.{Result}

-- `struct pageEntry`; -1 is `none`
pub record PageEntry : Type 0 where
  pub page_no : Option ℕ
  pub free_space : Option ℕ

-- `pages` goes on behind the DIRCNT entries with what the memory holds there.
pub record FileHdrPage : Type 0 where
  pub file_name : List ℕ
  pub rec_cnt : ℕ
  pub page_cnt : ℕ
  pub pages : ℕ → PageEntry

pub record Storage : Type 1 where
  pub State : Type 0
  -- `BufMgr`
  pub read_page : (file page_no : ℕ) → State → Result ℕ × State
  pub unpin_page : (file page_no : ℕ) → (dirty love_it : Bool) → State → Result (Unit {0}) × State
  -- with the page number that the caller's variable holds before and after: it is passed by reference,
  -- and may be set where the call fails
  pub alloc_page : (file page_no : ℕ) → State → Result ℕ × ℕ × State
  pub flush_file : (file : ℕ) → State → Result (Unit {0}) × State
  -- `DB`
  pub create_file : String → State → Result (Unit {0}) × State
  pub destroy_file : String → State → Result (Unit {0}) × State
  pub open_file : String → State → Result ℕ × State
  pub close_file : (file : ℕ) → State → Result (Unit {0}) × State
  -- `File`
  pub get_first_page : (file : ℕ) → State → Result (Option ℕ) × State
  -- a frame, read and written
  pub page : State → ℕ → Page
  pub set_page : ℕ → Page → State → State
  pub header : State → ℕ → FileHdrPage
  pub set_header : ℕ → FileHdrPage → State → State
  -- the first `fileName.length()` bytes of the object `fileName`
  pub string_object : String → List ℕ
