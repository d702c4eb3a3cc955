-- ===== src/File.antt =====
-- The class `File` of part5/part5/db.C: the pages of one Unix file, with the list of its free pages.
-- `fd` is the member `unixFile`. An operation takes the state of the disk and returns the new one,
-- also when it fails.
pub mod Allocate
pub mod Dispose
pub mod FreeList
pub mod Cycle
use Prim.Native.String.{String}
use ubase.Base.{ℕ, ◌+◌, Bool, true, false, ◌||◌, Option, none, some, ltb, leb, ◌==◌, if◌then◌else◌}
use ubase.Status.{
  Status, Result, ok, err, unix_err, bad_page_no, bad_page_ptr, file_exists, file_not_open,
}
use ubase.Unix.{DbPage, Unix, created, exists, failed}

-- `pageNo == other`, where -1 is `none`
abbrev pub is_page : Option ℕ → ℕ → Bool
is_page none n = false
is_page (some m) n = m == n

module _ (u : Unix) where
  open u use {
    Disk, Block, zero_block, db_page, with_db_page, read_at, write_at, create_excl, open_rdwr,
    close_fd, unlink,
  }

  abbrev pub M : Type 0 → Type 0
  M A = Disk → Result A × Disk

  abbrev pub pure : {A : Type 0} → A → M A
  pure a w = (ok a, w)

  abbrev pub fail : {A : Type 0} → Status → M A
  fail s w = (err s, w)

  abbrev pub and_then : {A B : Type 0} → Result A → Disk → (A → M B) → Result B × Disk
  and_then (ok a) w k = k a w
  and_then (err s) w k = (err s, w)

  infixl 5 ◌>>=◌ ◌>>◌
  abbrev pub ◌>>=◌ : {A B : Type 0} → M A → (A → M B) → M B
  ◌>>=◌ m k w = let (r, w') = m w in and_then r w' k

  abbrev pub ◌>>◌ : {A B : Type 0} → M A → M B → M B
  m >> k = m >>= λ _. k

  unfoldable pub int_read : (fd page_no : ℕ) → M Block
  int_read fd page_no w = elim (read_at w fd page_no) [ none ↦ fail unix_err w | some b ↦ pure b w ]

  unfoldable pub int_write : (fd page_no : ℕ) → Block → M (Unit {0})
  int_write fd page_no b w =
      let (done, w') = write_at w fd page_no b in if done then pure tt w' else fail unix_err w'

  -- The header page of an empty file.
  abbrev pub new_header : Block
  new_header =
      with_db_page (record { next_free = none; first_page = none; num_pages = 1 }) zero_block

  -- The header is written at the start of the new file.
  unfoldable pub create : String → M (Unit {0})
  create name w =
      let (answer, w1) = create_excl w name in
      elim answer [
        | exists ↦ fail file_exists w1
        | failed ↦ fail unix_err w1
        | created fd ↦
            let (done, w2) = write_at w1 fd 0 new_header in
            if done
            then (let (closed, w3) = close_fd w2 fd in
                if closed then pure tt w3 else fail unix_err w3)
            else fail unix_err w2
      ]

  -- `remove(3)` of a file is unlink(2).
  unfoldable pub destroy : String → M (Unit {0})
  destroy name w = let (done, w') = unlink w name in if done then pure tt w' else fail unix_err w'

  -- The first free page is taken, or the file grows by one page.
  unfoldable pub allocate_page : (fd : ℕ) → M ℕ
  unfolding int_read int_write
  allocate_page fd = do
    header ← int_read fd 0
    let h = db_page header
    elim h.next_free [
      | some page_no ↦ do
        first_free ← int_read fd page_no
        int_write fd 0
            (with_db_page (record h { next_free = (db_page first_free).next_free }) header)
        pure page_no
      | none ↦ do
        int_write fd h.num_pages zero_block
        int_write fd 0 (
            with_db_page
              (record h {
                num_pages = h.num_pages + 1;
                first_page = elim h.first_page [ none ↦ some h.num_pages | some p ↦ some p ];
              })
              header)
        pure h.num_pages
    ]

  unfoldable pub dispose_page : (fd page_no : ℕ) → M (Unit {0})
  unfolding int_read int_write
  dispose_page fd page_no = if ltb page_no 1 then fail bad_page_no else do
    header ← int_read fd 0
    let h = db_page header
    if is_page h.first_page page_no || leb h.num_pages page_no then fail bad_page_no else do
      int_read fd page_no
      int_write fd page_no
          (with_db_page (record (db_page zero_block) { next_free = h.next_free }) zero_block)
      int_write fd 0 (with_db_page (record h { next_free = some page_no }) header)

  -- `given`: the page pointer is not NULL.
  unfoldable pub read_page : (given : Bool) (fd page_no : ℕ) → M Block
  unfolding int_read
  read_page given fd page_no =
      if given
      then (if ltb page_no 1 then fail bad_page_no else int_read fd page_no)
      else fail bad_page_ptr

  unfoldable pub write_page : (given : Bool) (fd page_no : ℕ) → Block → M (Unit {0})
  unfolding int_write
  write_page given fd page_no b =
      if given
      then (if ltb page_no 1 then fail bad_page_no else int_write fd page_no b)
      else fail bad_page_ptr

  unfoldable pub get_first_page : (fd : ℕ) → M (Option ℕ)
  unfolding int_read
  get_first_page fd = do header ← int_read fd 0; pure (db_page header).first_page
