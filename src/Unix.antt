-- ===== src/Unix.antt =====
-- What part5/part5/db.C takes from the operating system and from the C++ object representation: calls
-- of open, lseek, read, write, close and unlink, and the view of a page's first bytes as a `DBPage`.
-- `lseek` and the `read` or `write` of one page behind it are one operation here.
use Prim.Native.String.{String}
use ubase.Base.{ℕ, Bool, true, ◌≡◌, ◌≢◌, Option, some}

-- `DBPage`, the header of a file. The page number -1 is `none`.
pub record DbPage : Type 0 where
  pub next_free : Option ℕ
  pub first_page : Option ℕ
  pub num_pages : ℕ

-- The answers of open(2) with O_CREAT and O_EXCL.
pub data Created : Type 0 where
  created : ℕ → Created
  exists : Created
  failed : Created

pub record Unix : Type 1 where
  pub Disk : Type 0
  pub Block : Type 0
  -- a page of zero bytes
  pub zero_block : Block
  -- `*(DBPage*)&page`, read and assigned
  pub db_page : Block → DbPage
  pub with_db_page : DbPage → Block → Block
  -- `none` and `false`: the call failed, or moved less than a page
  pub read_at : Disk → (fd page_no : ℕ) → Option Block
  pub write_at : Disk → (fd page_no : ℕ) → Block → Bool × Disk
  pub create_excl : Disk → String → Created × Disk
  pub open_rdwr : Disk → String → Option ℕ × Disk
  pub close_fd : Disk → ℕ → Bool × Disk
  pub unlink : Disk → String → Bool × Disk
  pub db_page-with : (h : DbPage) (b : Block) → db_page (with_db_page h b) ≡ h
  pub read-write :
      (w : Disk) (fd n : ℕ) (b : Block)
      → (write_at w fd n b).0 ≡ true
      → read_at (write_at w fd n b).1 fd n ≡ some b
  pub read-write_ne :
      (w : Disk) (fd n m : ℕ) (b : Block)
      → m ≢ n
      → (write_at w fd n b).0 ≡ true
      → read_at (write_at w fd n b).1 fd m ≡ read_at w fd m
