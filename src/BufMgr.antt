-- ===== src/BufMgr.antt =====
-- The buffer manager of part5/part5/buf.h and buf.C.
--
-- A frame is its index in `bufTable` and `bufPool`, and a `Page*` into the pool is the index of its
-- frame. The links `next` and `prior` of the descriptors are those of `upl`, the ring of unpinned
-- frames, with `rearUPL` and `frontUPL`. NULL as a `File*` is 0. The page number -1 of a frame that
-- was cleared is 0, the header's number, which no frame holds. Each operation returns the new state,
-- also when it fails; the assertions of the source, which end the program, are not modelled.
pub mod Valid
pub mod Alloc
pub mod Evict
pub mod Disk
pub mod Round
pub mod Pin
pub mod Flush
pub mod Dispose
pub mod AllocPage
pub mod Unpin
pub mod Read
pub mod Repin
pub mod Enter
pub mod New
pub mod Close
use ubase.Base.{
  ℕ, zero, suc, ◌+◌, ◌-◌, ◌*◌, ◌/◌, Bool, true, false, not, ◌&&◌, ◌||◌, ltb, ◌==◌, if◌then◌else◌,
}
use ubase.BufHash
use ubase.BufHash.{PageKey, BufHashTbl}
use ubase.FileStore.{FileStore}
use ubase.Ring
use ubase.Ring.{Ring}
use ubase.Status.{
  Status, Result, ok, err, bad_file, hash_not_found, buffer_exceeded, page_not_pinned, bad_buffer,
  page_pinned,
}

pub record BufDesc : Type 0 where
  pub file : ℕ
  pub page_no : ℕ
  pub pin_cnt : ℕ
  pub dirty : Bool
  pub valid : Bool

-- `Clear`, but for the links.
abbrev pub clear : BufDesc
clear = record { file = 0; page_no = 0; pin_cnt = 0; dirty = false; valid = false }

-- `Set`, but for the links.
abbrev pub set_desc : (file page_no : ℕ) → BufDesc
set_desc file page_no = record {
  file = file;
  page_no = page_no;
  pin_cnt = 1;
  dirty = false;
  valid = true;
}

abbrev pub key : (file page_no : ℕ) → PageKey
key file page_no = record { file = file; page_no = page_no }

-- The `next` and `prior` of a descriptor become NULL.
unfoldable pub clear_links : Ring → ℕ → Ring
unfolding Ring.set Ring.null
clear_links r i = record r {
  next = Ring.set r.next i (Ring.null r);
  prior = Ring.set r.prior i (Ring.null r);
}

module _ (fs : FileStore) where
  open fs use {Disk, Content}

  pub record BufMgr : Type 0 where
    pub num_bufs : ℕ
    pub hash_table : BufHashTbl
    pub buf_table : ℕ → BufDesc
    pub upl : Ring
    pub buf_pool : ℕ → Content
    pub disk : Disk

  abbrev pub M : Type 0 → Type 0
  M A = BufMgr → Result A × BufMgr

  abbrev pub pure : {A : Type 0} → A → M A
  pure a s = (ok a, s)

  abbrev pub and_then : {A B : Type 0} → Result A → BufMgr → (A → M B) → Result B × BufMgr
  and_then (ok a) s k = k a s
  and_then (err e) s k = (err e, s)

  infixl 5 ◌>>=◌ ◌>>◌
  abbrev pub ◌>>=◌ : {A B : Type 0} → M A → (A → M B) → M B
  ◌>>=◌ m k s = let (r, s') = m s in and_then r s' k

  abbrev pub ◌>>◌ : {A B : Type 0} → M A → M B → M B
  m >> k = m >>= λ _. k

  unfoldable pub set_frame : BufMgr → ℕ → BufDesc → BufMgr
  set_frame s i d = record s { buf_table = λ j. if j == i then d else s.buf_table j }

  -- The constructor: all frames are in the ring, in order.
  unfoldable pub new : (bufs : ℕ) → (ℕ → Content) → Disk → BufMgr
  unfolding BufHash.new
  new bufs pool disk = record {
    num_bufs = bufs;
    hash_table = BufHash.new (bufs * 12 / 10 * 2 / 2 + 1);
    buf_table = λ i. clear;
    upl = record {
      next = λ i. if i == bufs then 0 else suc i;
      prior = λ i. if i == 0 then bufs else i - 1;
      rear = 0;
      front = bufs;
    };
    buf_pool = pool;
    disk = disk;
  }

  -- `victim->Clear()`
  unfoldable pub clear_frame : BufMgr → ℕ → BufMgr
  unfolding set_frame clear_links
  clear_frame s i = record (set_frame s i clear) { upl = clear_links s.upl i }

  -- What `allocBuf` does with a victim that holds a page, once its data is on disk.
  unfoldable pub evict : (i : ℕ) → M ℕ
  evict i s =
      let d = s.buf_table i in
      elim (BufHash.remove s.hash_table (key d.file d.page_no)) [
        | err e ↦ (err e, s)
        | ok t ↦ (ok i, clear_frame (record s { hash_table = t }) i)
      ]

  -- The frame's page is written to its file, and is no longer dirty.
  unfoldable pub write_back : (i : ℕ) → M (Unit {0})
  unfolding set_frame
  write_back i s =
      let d = s.buf_table i in
      let (r, disk) = fs.write_page d.file d.page_no (s.buf_pool i) s.disk in
      let s' = record s { disk = disk } in
      elim r [ err e ↦ (err e, s') | ok _ ↦ (ok tt, set_frame s' i (record d { dirty = false })) ]

  -- The victim leaves the ring, and its page the pool.
  unfoldable pub take_frame : (i : ℕ) → M ℕ
  take_frame i s =
      let s1 = record s { upl = Ring.take_rear s.upl } in
      if (s.buf_table i).valid
      then (if (s.buf_table i).dirty then (write_back i >> evict i) s1 else evict i s1)
      else (ok i, clear_frame s1 i)

  unfoldable pub alloc_buf : M ℕ
  alloc_buf s =
      if s.upl.front == s.upl.rear then (err buffer_exceeded, s) else take_frame s.upl.rear s

  unfoldable pub release_buf : ℕ → BufMgr → BufMgr
  unfolding Ring.push_rear
  release_buf i s = record s { upl = Ring.push_rear s.upl i }

  -- `hashTable->insert`, and `Set` if it succeeds; the frame is given back if it fails.
  unfoldable pub enter : (i file page_no : ℕ) → M ℕ
  enter i file page_no s = elim (BufHash.insert s.hash_table (key file page_no) i) [
    | err e ↦ (err e, release_buf i s)
    | ok t ↦
        let s' = set_frame (record s { hash_table = t }) i (set_desc file page_no) in
        (ok i, record s' { upl = clear_links s'.upl i })
  ]

  -- `file->readPage` into the frame, which is given back if it fails.
  unfoldable pub load : (i file page_no : ℕ) → M ℕ
  load i file page_no s =
      let (r, disk) = fs.read_page file page_no s.disk in
      elim r [
        | err e ↦ (err e, release_buf i (record s { disk = disk }))
        | ok c ↦
            enter i file page_no
              (record s { disk = disk; buf_pool = λ j. if j == i then c else s.buf_pool j })
      ]

  -- A page that is in the pool is pinned once more.
  unfoldable pub pin : ℕ → M ℕ
  pin i s =
      let d = s.buf_table i in
      let s' = if d.pin_cnt == 0 then record s { upl = Ring.unlink s.upl i } else s in
      if d.valid
      then (ok i, set_frame s' i (record d { pin_cnt = d.pin_cnt + 1 }))
      else (err bad_buffer, s)

  -- The result is the frame of the page.
  unfoldable pub read_page : (file page_no : ℕ) → M ℕ
  read_page file page_no s =
      if file == 0
      then (err bad_file, s)
      else elim (BufHash.lookup s.hash_table (key file page_no)) [
        | err _ ↦ (alloc_buf >>= λ i. load i file page_no) s
        | ok i ↦ pin i s
      ]

  unfoldable pub unpin_page : (file page_no : ℕ) → (dirty love_it : Bool) → M (Unit {0})
  unpin_page file page_no dirty love_it s = elim (BufHash.lookup s.hash_table (key file page_no)) [
    | err _ ↦ (err hash_not_found, s)
    | ok i ↦
        let d = s.buf_table i in
        let s' = set_frame s i (record d { dirty = dirty || d.dirty; pin_cnt = d.pin_cnt - 1 }) in
        if not d.valid
        then (err bad_buffer, s)
        else (if d.pin_cnt == 0
            then (err page_not_pinned, s)
            else (if d.pin_cnt == 1
                then (
                  ok tt,
                  record s' {
                    upl = if love_it then Ring.push_front s.upl i else Ring.push_rear s.upl i;
                  },
                )
                else (ok tt, s')))
  ]

  unfoldable pub alloc_page : (file : ℕ) → M (ℕ × ℕ)
  alloc_page file s =
      let (r, disk) = fs.allocate_page file s.disk in
      elim r [
        | err e ↦ (err e, record s { disk = disk })
        | ok page_no ↦
            (alloc_buf >>= λ i.
            if ltb i s.num_bufs
            then (enter i file page_no >>= λ j. pure (page_no, j))
            else pure (page_no, i))
              (record s { disk = disk })
      ]

  unfoldable pub dispose_page : (file page_no : ℕ) → M (Unit {0})
  dispose_page file page_no s = elim (BufHash.lookup s.hash_table (key file page_no)) [
    | err _ ↦ (err hash_not_found, s)
    | ok i ↦
        let d = s.buf_table i in
        if not d.valid || not (d.file == file) || not (d.page_no == page_no)
        then (err bad_buffer, s)
        else (if ltb 0 d.pin_cnt
            then (err page_pinned, s)
            else elim (BufHash.remove s.hash_table (key file page_no)) [
              | err e ↦ (err e, s)
              | ok t ↦
                  let s' =
                    set_frame (record s { hash_table = t }) i
                      (record d { file = 0; page_no = 0; dirty = false; valid = false }) in
                  let (r, disk) = fs.dispose_page file page_no s'.disk in
                  (r, record s' { disk = disk })
            ])
  ]

  -- The frame's page leaves the pool. The result of `hashTable->remove` is not looked at.
  unfoldable pub drop_frame : (i file : ℕ) → M (Unit {0})
  drop_frame i file s =
      let d = s.buf_table i in
      let t : BufHashTbl = elim (BufHash.remove s.hash_table (key file d.page_no)) [
        | ok t ↦ t
        | err _ ↦ s.hash_table
      ] in
      (
        ok tt,
        set_frame (record s { hash_table = t }) i
            (record d { file = 0; page_no = 0; valid = false }),
      )

  -- One round of the loop of `flushFile`.
  unfoldable pub flush_frame : (i file : ℕ) → M (Unit {0})
  flush_frame i file s =
      let d = s.buf_table i in
      if d.valid && d.file == file
      then (if ltb 0 d.pin_cnt
          then (err page_pinned, s)
          else (if d.dirty then (write_back i >> drop_frame i file) s else drop_frame i file s))
      else (if not d.valid && d.file == file then (err bad_buffer, s) else (ok tt, s))

  -- The rounds for the `k` frames from `i` on.
  unfoldable pub flush_loop : (k i file : ℕ) → M (Unit {0})
  flush_loop zero i file s = (ok tt, s)
  flush_loop (suc k) i file s =
      let rest = flush_loop k (suc i) file in (flush_frame i file >> rest) s

  unfoldable pub flush_file : (file : ℕ) → M (Unit {0})
  flush_file file s = flush_loop s.num_bufs 0 file s
