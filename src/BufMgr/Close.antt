-- ===== src/BufMgr/Close.antt =====
-- The destructor of the buffer manager of part5/part5/buf.C: changed pages are written to their files.
use mathlib.Core.Path.{subst}
use ubase.Base.{
  ℕ, zero, suc, ◌+◌, ◌≤◌, ◌<◌, ◌≡◌, ◌≢◌, inl, inr, refl, sym, ap, ◌∙◌, true, ◌&&◌, if◌then◌else◌,
  ◌==◌, Bool-cases, ==_iff, arith, List, some, ap,
}
use ubase.BufHash.{PageKey}
use ubase.BufHash.Laws.{frame_of}
use ubase.BufMgr.{BufMgr, key}
use ubase.BufMgr.Valid.{IsValid, desc_key}
use ubase.FileStore.{FileStore}

-- The rounds for the `k` frames from `i` on.
unfoldable pub close_loop :
    (fs : FileStore) → (k i : ℕ) → BufMgr fs → FileStore.Disk fs → FileStore.Disk fs
close_loop fs zero i s disk = disk
close_loop fs (suc k) i s disk =
    let d = s.buf_table i in
    close_loop fs k (suc i) s
      (if d.valid && d.dirty then (fs.write_page d.file d.page_no (s.buf_pool i) disk).1 else disk)

-- The destructor, and the disk that it leaves.
unfoldable pub close_pool : (fs : FileStore) → BufMgr fs → FileStore.Disk fs
unfolding close_loop
close_pool fs s = close_loop fs s.num_bufs 0 s s.disk

-- What a write does to a page in use, of a file that is open: it reads back, the other pages are left, and
-- the pages in use are in use.
module _ (fs : FileStore) (look : FileStore.Disk fs → PageKey → FileStore.Content fs)
    (InUse : FileStore.Disk fs → PageKey → Type 0)
    (reads_back : (f p : ℕ) (c : FileStore.Content fs) (d : FileStore.Disk fs)
      → InUse d (key f p)
      → look (fs.write_page f p c d).1 (key f p) ≡ c)
    (leaves : (f p : ℕ) (c : FileStore.Content fs) (d : FileStore.Disk fs) (k : PageKey)
      → InUse d (key f p)
      → k ≢ key f p
      → look (fs.write_page f p c d).1 k ≡ look d k)
    (stays : (f p : ℕ) (c : FileStore.Content fs) (d : FileStore.Disk fs) (k : PageKey)
      → InUse d (key f p)
      → InUse d k
      → InUse (fs.write_page f p c d).1 k)
    (s : BufMgr fs) where
  -- The frame has a page that was changed.
  abbrev pub IsDirty : ℕ → Type 0
  IsDirty i = ((s.buf_table i).valid && (s.buf_table i).dirty) ≡ true

  -- The pages of the changed frames are in use.
  abbrev pub Writable : FileStore.Disk fs → Type 0
  Writable disk = (j : ℕ) → j < s.num_bufs → IsDirty j → InUse disk (desc_key (s.buf_table j))

  Writable-write :
      (i : ℕ) (disk : FileStore.Disk fs)
      → i < s.num_bufs
      → IsDirty i
      → Writable disk
      → Writable (fs.write_page (s.buf_table i).file (s.buf_table i).page_no (s.buf_pool i) disk).1
  Writable-write i disk lt dirty used j low dirty_j =
      stays (s.buf_table i).file (s.buf_table i).page_no (s.buf_pool i) disk
        (desc_key (s.buf_table j)) (used i lt dirty) (used j low dirty_j)

  close_loop-others :
      (k i : ℕ) (disk : FileStore.Disk fs) (p : PageKey)
      → i + k ≤ s.num_bufs
      → Writable disk
      → ((j : ℕ) → i ≤ j → j < i + k → IsDirty j → p ≢ desc_key (s.buf_table j))
      → look (close_loop fs k i s disk) p ≡ look disk p
  unfolding close_loop
  close_loop-others zero i disk p fits used away = refl
  close_loop-others (suc k) i disk p fits used away =
      let d = s.buf_table i in
      let later : (j : ℕ) → suc i ≤ j → j < suc i + k → IsDirty j → p ≢ desc_key (s.buf_table j) =
        λ j low high dirty. away j (omega (arith, low)) (omega (arith, high)) dirty in
      elim (Bool-cases (d.valid && d.dirty)) [
        | inl e ↦
            rw (close_loop, e)
              (close_loop-others k (suc i) _ p (omega (arith, fits))
                  (Writable-write i disk (omega (arith, fits)) e used) later
                ∙ leaves d.file d.page_no (s.buf_pool i) disk p (used i (omega (arith, fits)) e)
                    (away i (omega arith) (omega arith) e))
        | inr e ↦
            rw (close_loop, e) (close_loop-others k (suc i) disk p (omega (arith, fits)) used later)
      ]

  -- No two frames hold one page.
  abbrev IsInjective : Type 0
  IsInjective =
      (i j : ℕ)
      → i < s.num_bufs
      → j < s.num_bufs
      → IsDirty i
      → IsDirty j
      → desc_key (s.buf_table i) ≡ desc_key (s.buf_table j)
      → i ≡ j

  close_loop-now :
      (k i : ℕ) (disk : FileStore.Disk fs)
      → IsInjective
      → i + suc k ≤ s.num_bufs
      → Writable disk
      → IsDirty i
      → look (close_loop fs (suc k) i s disk) (desc_key (s.buf_table i)) ≡ s.buf_pool i
  unfolding close_loop
  close_loop-now k i disk apart fits used dirty =
      let d = s.buf_table i in
      rw (close_loop, dirty)
        (close_loop-others k (suc i) _ (desc_key d) (omega (arith, fits))
            (Writable-write i disk (omega (arith, fits)) dirty used)
            (λ j low high dirty_j e.
              let same : i ≡ j =
                apart i j (omega (arith, fits)) (omega (arith, fits, high)) dirty dirty_j e in
              omega (arith, same, low))
          ∙ reads_back d.file d.page_no (s.buf_pool i) disk (used i (omega (arith, fits)) dirty))

  close_loop-written :
      (k i : ℕ) (disk : FileStore.Disk fs) (j : ℕ)
      → IsInjective
      → i + k ≤ s.num_bufs
      → Writable disk
      → i ≤ j
      → j < i + k
      → IsDirty j
      → look (close_loop fs k i s disk) (desc_key (s.buf_table j)) ≡ s.buf_pool j
  unfolding close_loop
  close_loop-written zero i disk j apart fits used low high dirty =
      absurd (omega (arith, low, high))
  close_loop-written (suc k) i disk j apart fits used low high dirty = elim (Bool-cases (i == j)) [
    | inl q ↦
        let same : i ≡ j = (==_iff i j).0 q in
        subst (λ n. look (close_loop fs (suc k) i s disk) (desc_key (s.buf_table n)) ≡ s.buf_pool n)
          same (close_loop-now k i disk apart fits used (subst IsDirty (sym same) dirty))
    | inr q ↦
        let next : suc i ≤ j = ground (arith, low, q) in
        let d = s.buf_table i in
        elim (Bool-cases (d.valid && d.dirty)) [
          | inl e ↦
              rw (close_loop, e)
                (close_loop-written k (suc i) _ j apart (omega (arith, fits))
                  (Writable-write i disk (omega (arith, fits)) e used) next (omega (arith, high))
                  dirty)
          | inr e ↦
              rw (close_loop, e)
                (close_loop-written k (suc i) disk j apart (omega (arith, fits)) used next
                  (omega (arith, high)) dirty)
        ]
  ]

  dirty-valid : (i : ℕ) → IsDirty i → (s.buf_table i).valid ≡ true
  dirty-valid i h = ground arith

  -- The changed pages are on the disk, each with what its frame holds, and the others as before.
  abbrev pub WritesDirty : FileStore.Disk fs → Type 0
  WritesDirty disk =
      ((j : ℕ) → j < s.num_bufs → IsDirty j → look disk (desc_key (s.buf_table j)) ≡ s.buf_pool j)
      × ((p : PageKey)
          → ((j : ℕ) → j < s.num_bufs → IsDirty j → p ≢ desc_key (s.buf_table j))
          → look disk p ≡ look s.disk p)

  -- The destructor of a valid pool whose changed pages are in use writes the changed pages, all of them,
  -- each with what its frame holds, and no others.
  pub close_pool-WritesDirty :
      (free : List ℕ) → IsValid fs s free → Writable s.disk → WritesDirty (close_pool fs s)
  unfolding close_pool
  close_pool-WritesDirty free v used = (
    λ j low dirty.
        close_loop-written s.num_bufs 0 s.disk j
          (λ a b la lb da db e.
            let same : some a ≡ some b =
              sym (v.mapped a la (dirty-valid a da))
              ∙ ap (frame_of s.hash_table) e
              ∙ v.mapped b lb (dirty-valid b db) in
            cc)
          (omega arith) used (omega arith) (omega (arith, low)) dirty,
    λ p away.
        close_loop-others s.num_bufs 0 s.disk p (omega arith) used
          (λ j low high dirty. away j (omega (arith, high)) dirty),
  )
