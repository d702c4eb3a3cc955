-- ===== src/File/Dispose.antt =====
-- `File::disposePage`: a page is put in front of the free list.
use ubase.Base.{
  Avoids, ℕ, ◌≤◌, ◌<◌, ◌≡◌, ◌≢◌, ◌⊎◌, inl, inr, refl, ap, ◌∙◌, ◌||◌, true, false, Option, some,
  List, ◌∷◌, arith, ltb, leb, Bool-cases,
}
use ubase.File.{is_page, int_read, int_write, dispose_page}
use ubase.Status.{Result, ok, err, unix_err, bad_page_no}
use ubase.Unix.{DbPage, Unix}
use ubase.File.FreeList.{
  IsFile, Chain-write, present-write, WritesSucceed, failed_write, not_header,
}

module _ (u : Unix) where
  open u use {
    Disk, Block, zero_block, db_page, with_db_page, read_at, write_at, db_page-with, read-write,
    read-write_ne,
  }

  push-IsFile :
      (w : Disk) (fd p n : ℕ) (free : List ℕ) (first : Option ℕ)
      → (f : IsFile u w fd free n first) → 0 < p
      → p < n
      → first ≢ some p
      → Avoids p free
      → (a h : Block) → (db_page a).next_free ≡ (db_page f.header).next_free
      → db_page h ≡ record (db_page f.header) { next_free = some p }
      → (write_at w fd p a).0 ≡ true
      → (write_at (write_at w fd p a).1 fd 0 h).0 ≡ true
      → IsFile u (write_at (write_at w fd p a).1 fd 0 h).1 fd (p ∷ free) n first
  push-IsFile w fd p n free first f pos lt user apart a h link e done done' =
      let w1 = (write_at w fd p a).1 in
      record {
        header = h;
        at_zero = read-write w1 fd 0 h done';
        pages = rw e f.pages;
        first_user = rw e f.first_user;
        chain = rw e (
          refl,
          (
            a,
            read-write_ne w1 fd 0 p h (omega arith) done' ∙ read-write w fd p a done,
            Chain-write u w1 fd 0 h _ free done' (not_header u free n first f.range)
                (Chain-write u w fd p a _ free done apart (rw link f.chain)),
          ),
        );
        range = ((pos, lt, user), f.range);
        distinct = (apart, f.distinct);
        present = λ m low.
            present-write u w1 fd 0 m n h done'
              (λ j lt'. present-write u w fd p j n a done f.present (inl lt')) (inl low);
      }

  -- What disposal may answer: BADPAGENO, and then the disk is as before, for the header, the first
  -- user page and a page that is not in the file; otherwise the page stands in front of the free
  -- list, or a write failed.
  abbrev pub Disposes : Disk → ℕ → ℕ → List ℕ → ℕ → Option ℕ → Result (Unit {0}) × Disk → Type 0
  Disposes w fd p free n first (ok _, w') =
      ((0 < p) × (p < n) × (first ≢ some p)) × IsFile u w' fd (p ∷ free) n first
  Disposes w fd p free n first (err s, w') =
      ((s ≡ bad_page_no) × (w' ≡ w) × ((p ≡ 0) ⊎ (n ≤ p) ⊎ (first ≡ some p)))
      ⊎ ((s ≡ unix_err) × ((0 < p) × (p < n) × (first ≢ some p)) × ¬ WritesSucceed u)

  -- Disposal of a page that passes the checks.
  dispose_run :
      (w : Disk) (fd p : ℕ) (free : List ℕ) (n : ℕ) (first : Option ℕ)
      → IsFile u w fd free n first
      → Avoids p free
      → 0 < p
      → p < n
      → first ≢ some p
      → Disposes w fd p free n first (dispose_page u fd p w)
  unfolding dispose_page int_read int_write
  dispose_run w fd p free n first f apart pos lt user =
      let hd = db_page f.header in
      let at = f.at_zero in
      let pages = f.pages in
      let first_user = f.first_user in
      let old = f.present p lt in
      let there = old.1 in
      let link : DbPage = record (db_page zero_block) { next_free = hd.next_free } in
      let a = with_db_page link zero_block in
      let new : DbPage = record hd { next_free = some p } in
      let h = with_db_page new f.header in
      let w1 = (write_at w fd p a).1 in
      let inner : (is_page hd.first_page p || leb hd.num_pages p) ≡ false = ground arith in
      elim (Bool-cases (write_at w fd p a).0) [
        | inl done ↦ elim (Bool-cases (write_at w1 fd 0 h).0) [
          | inl done' ↦
              let run : dispose_page u fd p w ≡ (ok tt, (write_at w1 fd 0 h).1) = ground arith in
              rw run (
                (pos, lt, user),
                push-IsFile w fd p n free first f pos lt user apart a h
                    (ap (λ r. r.next_free) (db_page-with link zero_block))
                    (db_page-with new f.header) done done',
              )
          | inr bad ↦
              let run : dispose_page u fd p w ≡ (err unix_err, (write_at w1 fd 0 h).1) =
                ground arith in
              rw run (inr (refl, (pos, lt, user), failed_write u w1 fd 0 h bad))
        ]
        | inr bad ↦
            let run : dispose_page u fd p w ≡ (err unix_err, w1) = ground arith in
            rw run (inr (refl, (pos, lt, user), failed_write u w fd p a bad))
      ]

  -- On a file whose free list does not hold the page, `disposePage` puts it in front of the free list
  -- if the page is in the file, is not the header and not the first user page, and every write
  -- succeeds. For the header, the first user page and a page outside the file it returns BADPAGENO and
  -- leaves the disk; else it returns UNIXERR, and only if a write can fail.
  pub dispose_page-Disposes :
      (w : Disk) (fd p : ℕ) (free : List ℕ) (n : ℕ) (first : Option ℕ)
      → IsFile u w fd free n first
      → Avoids p free
      → Disposes w fd p free n first (dispose_page u fd p w)
  unfolding dispose_page int_read int_write
  dispose_page-Disposes w fd p free n first f apart =
      let hd = db_page f.header in
      let at = f.at_zero in
      let pages = f.pages in
      let user = f.first_user in
      elim (Bool-cases (ltb p 1)) [
        | inl low ↦
            let run : dispose_page u fd p w ≡ (err bad_page_no, w) = ground arith in
            rw run (inl (refl, refl, inl (ground arith)))
        | inr pos ↦ elim (Bool-cases (is_page hd.first_page p || leb hd.num_pages p)) [
          | inl bad ↦
              let run : dispose_page u fd p w ≡ (err bad_page_no, w) = ground arith in
              rw run (inl (refl, refl, inr (ground arith)))
          | inr good ↦
              dispose_run w fd p free n first f apart (ground arith) (ground arith)
                (λ q. ground arith)
        ]
      ]
