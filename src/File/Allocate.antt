-- ===== src/File/Allocate.antt =====
-- `File::allocatePage`: the head of the free list is taken, or the file grows.
use ubase.Base.{
  ℕ, ◌+◌, ◌<◌, ◌≡◌, inl, inr, refl, ◌∙◌, true, Option, none, some, List, [], ◌∷◌, arith, Bool-cases,
}
use ubase.File.{int_read, int_write, allocate_page}
use ubase.Status.{Result, ok, err, unix_err}
use ubase.Unix.{DbPage, Unix}
use ubase.File.FreeList.{
  Chain, IsFile, Chain-write, present-write, WritesSucceed, failed_write, not_header,
}

module _ (u : Unix) where
  open u use {
    Disk, Block, zero_block, db_page, with_db_page, read_at, write_at, db_page-with, read-write,
    read-write_ne,
  }

  -- A file without free pages, after it grew by a page of zeros and the header was written.
  extend-IsFile :
      (w : Disk) (fd n : ℕ) (first : Option ℕ)
      → (f : IsFile u w fd [] n first)
      → (write_at w fd (db_page f.header).num_pages zero_block).0 ≡ true
      → (new : DbPage) → {h : Block} → db_page h ≡ new
      → new.num_pages ≡ (db_page f.header).num_pages + 1
      → new.next_free ≡ (db_page f.header).next_free
      → new.first_page ≡ (elim (db_page f.header).first_page [
        | none ↦ some (db_page f.header).num_pages
        | some p ↦ some p
      ])
      → (write_at (write_at w fd (db_page f.header).num_pages zero_block).1 fd 0 h).0 ≡ true
      → IsFile u
          (write_at (write_at w fd (db_page f.header).num_pages zero_block).1 fd 0 h).1
          fd
          []
          (n + 1)
          (elim first [ none ↦ some n | some q ↦ some q ])
  extend-IsFile w fd n first f done new {h} e count next user done' =
      let k = (db_page f.header).num_pages in
      let w1 = (write_at w fd k zero_block).1 in
      let same = f.pages in
      let same' = f.first_user in
      record {
        header = h;
        at_zero = read-write w1 fd 0 h done';
        pages = rw e (omega arith);
        first_user = rw e (ground arith);
        chain = rw e (next ∙ f.chain);
        range = tt;
        distinct = tt;
        present = λ m lt.
            present-write u w1 fd 0 m (n + 1) h done'
              (λ j lt'. present-write u w fd k j n zero_block done f.present (ground arith))
              (inl lt);
      }

  -- What allocation may answer: the head of the free list, which the list loses; or, if the list is
  -- empty, the number of pages, which grows; or UNIXERR, if a write failed.
  abbrev pub Allocates : ℕ → List ℕ → ℕ → Option ℕ → Result ℕ × Disk → Type 0
  Allocates fd (x ∷ xs) n first (ok p, w') = (p ≡ x) × IsFile u w' fd xs n first
  Allocates fd [] n first (ok p, w') =
      (p ≡ n) × IsFile u w' fd [] (n + 1) (elim first [ none ↦ some n | some q ↦ some q ])
  Allocates fd free n first (err s, w') = (s ≡ unix_err) × ¬ WritesSucceed u

  -- The free list without its head, after the header was written.
  pop-IsFile :
      (w : Disk) (fd x : ℕ) (xs : List ℕ) (n : ℕ) (first : Option ℕ) (b : Block)
      → 0 < n
      → (f : IsFile u w fd (x ∷ xs) n first) → read_at w fd x ≡ some b
      → Chain u w fd (db_page b).next_free xs
      → (h : Block) → db_page h ≡ record (db_page f.header) { next_free = (db_page b).next_free }
      → (write_at w fd 0 h).0 ≡ true
      → IsFile u (write_at w fd 0 h).1 fd xs n first
  pop-IsFile w fd x xs n first b pos f at rest h e done = record {
    header = h;
    at_zero = read-write w fd 0 h done;
    pages = rw e f.pages;
    first_user = rw e f.first_user;
    chain = rw e (
        Chain-write u w fd 0 h (db_page b).next_free xs done (not_header u xs n first f.range.1)
          rest);
    range = f.range.1;
    distinct = f.distinct.1;
    present = λ m lt. present-write u w fd 0 m n h done f.present (inl lt);
  }

  -- On a file with at least its header page, `allocatePage` returns the head of the free list, which
  -- the list loses, or, if the list is empty, the number of pages, which grows by one, the page being
  -- the first user page if there was none. It returns UNIXERR only if a write can fail.
  pub allocate_page-Allocates :
      (w : Disk) (fd : ℕ) (free : List ℕ) (n : ℕ) (first : Option ℕ)
      → 0 < n
      → IsFile u w fd free n first
      → Allocates fd free n first (allocate_page u fd w)
  unfolding allocate_page int_read int_write
  allocate_page-Allocates w fd [] n first pos f =
      let hd = db_page f.header in
      let k = hd.num_pages in
      let new : DbPage = record hd {
        num_pages = k + 1;
        first_page = elim hd.first_page [ none ↦ some k | some p ↦ some p ];
      } in
      let h = with_db_page new f.header in
      let w1 = (write_at w fd k zero_block).1 in
      let at = f.at_zero in
      let last = f.chain in
      elim (Bool-cases (write_at w fd k zero_block).0) [
        | inl done ↦ elim (Bool-cases (write_at w1 fd 0 h).0) [
          | inl done' ↦
              let run : allocate_page u fd w ≡ (ok k, (write_at w1 fd 0 h).1) = ground arith in
              rw run (
                f.pages,
                extend-IsFile w fd n first f done new (db_page-with new f.header) refl refl refl
                    done',
              )
          | inr bad ↦
              let run : allocate_page u fd w ≡ (err unix_err, (write_at w1 fd 0 h).1) =
                ground arith in
              rw run (refl, failed_write u w1 fd 0 h bad)
        ]
        | inr bad ↦
            let run : allocate_page u fd w ≡ (err unix_err, w1) = ground arith in
            rw run (refl, failed_write u w fd k zero_block bad)
      ]
  allocate_page-Allocates w fd (x ∷ xs) n first pos f =
      let (e, (b, at, rest)) = f.chain in
      let new : DbPage = record (db_page f.header) { next_free = (db_page b).next_free } in
      let h = with_db_page new f.header in
      let zero_at = f.at_zero in
      elim (Bool-cases (write_at w fd 0 h).0) [
        | inl done ↦
            let run : allocate_page u fd w ≡ (ok x, (write_at w fd 0 h).1) = ground arith in
            rw run (
              refl,
              pop-IsFile w fd x xs n first b pos f at rest h (db_page-with new f.header) done,
            )
        | inr bad ↦
            let run : allocate_page u fd w ≡ (err unix_err, (write_at w fd 0 h).1) = ground arith in
            rw run (refl, failed_write u w fd 0 h bad)
      ]
