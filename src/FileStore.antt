-- ===== src/FileStore.antt =====
-- What the buffer manager uses of the class `File`: part5/part5/db.h. A `File*` is its address.
-- The pages' contents and the state of the disk are the implementation's.
use ubase.Base.{ℕ}
use ubase.Status.{Result}

pub record FileStore : Type 1 where
  pub Disk : Type 0
  pub Content : Type 0
  pub read_page : (file page_no : ℕ) → Disk → Result Content × Disk
  pub write_page : (file page_no : ℕ) → Content → Disk → Result (Unit {0}) × Disk
  pub allocate_page : (file : ℕ) → Disk → Result ℕ × Disk
  pub dispose_page : (file page_no : ℕ) → Disk → Result (Unit {0}) × Disk
