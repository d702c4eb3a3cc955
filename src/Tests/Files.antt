-- ===== src/Tests/Files.antt =====
-- Runs of the class `File`, part5/part5/db.C, on a disk in memory whose pages are their headers.
use ubase.Base.{
  ℕ, ◌<◌, ◌≡◌, ◌≢◌, refl, true, false, ◌&&◌, Option, none, some, [], ◌∷◌, ◌==◌, if◌then◌else◌,
  arith,
}
use ubase.File
use ubase.File.Allocate.{Allocates, allocate_page-Allocates}
use ubase.File.Dispose.{Disposes, dispose_page-Disposes}
use ubase.File.Cycle.{dispose_page-allocate_page}
use ubase.File.FreeList.{IsFile}
use ubase.Status.{ok}
use ubase.Unix.{DbPage, Unix}
use ubase.Unix.Created.{failed}

abbrev Store : Type 0
Store = ℕ → ℕ → Option DbPage

abbrev store : Store → ℕ → ℕ → DbPage → Store
store w fd n b fd' n' = if fd' == fd && n' == n then some b else w fd' n'

abbrev zeros : DbPage
zeros = record { next_free = some 0; first_page = some 0; num_pages = 0 }

store_self : (w : Store) (fd n : ℕ) (b : DbPage) → store w fd n b fd n ≡ some b
store_self w fd n b = ground arith

store_other : (w : Store) (fd n m : ℕ) (b : DbPage) → m ≢ n → store w fd n b fd m ≡ w fd m
store_other w fd n m b ne = ground arith

abbrev memory : Unix
memory = record {
  Disk = Store;
  Block = DbPage;
  zero_block = zeros;
  db_page = λ b. b;
  with_db_page = λ h b. h;
  read_at = λ w fd n. w fd n;
  write_at = λ w fd n b. (true, store w fd n b);
  create_excl = λ w name. (failed, w);
  open_rdwr = λ w name. (none, w);
  close_fd = λ w fd. (true, w);
  unlink = λ w name. (false, w);
  db_page-with = λ h b. refl;
  read-write = λ w fd n b done. store_self w fd n b;
  read-write_ne = λ w fd n m b ne done. store_other w fd n m b ne;
}

-- A file of three pages, of which page 2 is free.
abbrev header : DbPage
header = record { next_free = some 2; first_page = some 1; num_pages = 3 }

abbrev last_free : DbPage
last_free = record { next_free = none; first_page = some 0; num_pages = 0 }

abbrev disk : Store
disk fd n =
    if n == 0
    then some header
    else (if n == 2 then some last_free else (if n == 1 then some zeros else none))

present : (m : ℕ) → m < 3 → (b : DbPage) × (disk 4 m ≡ some b)
present m lt = (if m == 0 then header else (if m == 2 then last_free else zeros), ground arith)

disk-IsFile : IsFile memory disk 4 (2 ∷ []) 3 (some 1)
disk-IsFile = record {
  header = header;
  at_zero = refl;
  pages = refl;
  first_user = refl;
  chain = (refl, (last_free, refl, refl));
  range = ((omega arith, omega arith, λ e. ground arith), tt);
  distinct = (tt, tt);
  present = present;
}

allocate_page-Allocates_example :
    Allocates memory 4 (2 ∷ []) 3 (some 1) (File.allocate_page memory 4 disk)
allocate_page-Allocates_example =
    allocate_page-Allocates memory disk 4 (2 ∷ []) 3 (some 1) (omega arith) disk-IsFile

dispose_page-Disposes_example :
    Disposes memory disk 4 1 (2 ∷ []) 3 (some 1) (File.dispose_page memory 4 1 disk)
dispose_page-Disposes_example =
    dispose_page-Disposes memory disk 4 1 (2 ∷ []) 3 (some 1) disk-IsFile
      (λ e. omega (arith, e), tt)

-- A file of four pages, of which page 2 is free and page 3 is not.
abbrev big_header : DbPage
big_header = record { next_free = some 2; first_page = some 1; num_pages = 4 }

abbrev bigger : Store
bigger fd n = if n == 0 then some big_header else (if n == 3 then some zeros else disk fd n)

bigger_present : (m : ℕ) → m < 4 → (b : DbPage) × (bigger 4 m ≡ some b)
bigger_present m lt =
    (if m == 0 then big_header else (if m == 2 then last_free else zeros), ground arith)

bigger-IsFile : IsFile memory bigger 4 (2 ∷ []) 4 (some 1)
bigger-IsFile = record {
  header = big_header;
  at_zero = refl;
  pages = refl;
  first_user = refl;
  chain = (refl, (last_free, refl, refl));
  range = ((omega arith, omega arith, λ e. ground arith), tt);
  distinct = (tt, tt);
  present = bigger_present;
}

dispose_page-allocate_page_example :
    (w1 : Store) × (w2 : Store) × (File.dispose_page memory 4 3 bigger ≡ (ok tt, w1))
    × (File.allocate_page memory 4 w1 ≡ (ok 3, w2))
    × IsFile memory w2 4 (2 ∷ []) 4 (some 1)
dispose_page-allocate_page_example =
    dispose_page-allocate_page memory bigger 4 3 (2 ∷ []) 4 (some 1) (λ w fd n b. refl)
      bigger-IsFile (λ e. omega (arith, e), tt) (omega arith) (omega arith) (λ e. ground arith)
