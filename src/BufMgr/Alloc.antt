-- ===== src/BufMgr/Alloc.antt =====
-- `allocBuf` of part5/part5/buf.C, on every branch.
use ubase.Base.{
  ℕ, ◌≡◌, ◌≢◌, inl, inr, refl, sym, ap, ◌∙◌, true, false, List, [], ◌∷◌, arith, ◌==◌, ◌&&◌,
  if◌then◌else◌, Bool-cases, Option-cases,
}
use mathlib.Core.Path.{subst}
use ubase.BufHash.{PageKey, page_eq}
use ubase.BufHash.Laws.{frame_of}
use ubase.BufMgr.{
  BufMgr, clear_frame, set_frame, evict, write_back, take_frame, alloc_buf, and_then, ◌>>◌,
}
use ubase.BufMgr.Valid.{pins, IsValid}
use ubase.FileStore.{FileStore}
use ubase.Ring
use ubase.Ring.{Ring}
use ubase.Status.{Result, Result-cases, ok, err, buffer_exceeded}
use ubase.BufMgr.Evict.{Evicts, take-IsPool, evict-Evicts, write_back-IsPool, clear-Evicts}

module _ (fs : FileStore) where
  open fs use {Disk}

  -- What writing the frame's page leaves of the disk.
  abbrev pub saved_disk : BufMgr fs → ℕ → Disk
  saved_disk s x = let d = s.buf_table x in (fs.write_page d.file d.page_no (s.buf_pool x) s.disk).1

  -- The disk with the page of the victim, if that was changed.
  abbrev pub disk_without : BufMgr fs → ℕ → Disk
  disk_without s x = let d = s.buf_table x in if d.valid && d.dirty then saved_disk s x else s.disk

  -- What `allocBuf` may answer: BUFFEREXCEEDED, and nothing changed, if the ring is empty; otherwise
  -- the frame at the rear, or the error of the call that writes its page back.
  abbrev pub Allocs : BufMgr fs → List ℕ → Result ℕ × BufMgr fs → Type 0
  Allocs s [] r = r ≡ (err buffer_exceeded, s)
  Allocs s (x ∷ xs) (ok i, s') = (i ≡ x) × Evicts fs s xs x s' × (s'.disk ≡ disk_without s x)
  Allocs s (x ∷ xs) (err e, s') =
      ((s.buf_table x).valid ≡ true)
      × ((s.buf_table x).dirty ≡ true)
      × ((fs.write_page (s.buf_table x).file (s.buf_table x).page_no (s.buf_pool x) s.disk).0
          ≡ err e)
      × (s'.disk ≡ saved_disk s x)

  -- What is evicted is judged from an earlier state with the same pages and contents.
  Evicts-from :
      (s s1 : BufMgr fs) (free : List ℕ) (h : ℕ) (s' : BufMgr fs)
      → s1.num_bufs ≡ s.num_bufs
      → s1.buf_pool ≡ s.buf_pool
      → s1.hash_table ≡ s.hash_table
      → ((i : ℕ) → i ≢ h → s1.buf_table i ≡ s.buf_table i)
      → ((k : PageKey) → pins fs s1 k ≡ pins fs s k)
      → Evicts fs s1 free h s'
      → Evicts fs s free h s'
  Evicts-from s s1 free h s' size pool table others pinned ev = record {
    pool = ev.pool;
    size = ev.size ∙ size;
    cleared = ev.cleared;
    others = λ i ne. ev.others i ne ∙ others i ne;
    contents = ev.contents ∙ pool;
    gone = ev.gone;
    pinned = λ k. ev.pinned k ∙ pinned k;
    new = λ k e. ev.new k (ap (λ t. frame_of t k) table ∙ e);
  }

  pub write_back-pins :
      (s : BufMgr fs) (h : ℕ) (disk : Disk) (k : PageKey)
      → pins fs
          (set_frame fs (record s { disk = disk }) h (record (s.buf_table h) { dirty = false }))
          k
        ≡ pins fs s k
  unfolding pins set_frame
  write_back-pins s h disk k = elim (Option-cases (frame_of s.hash_table k)) [
    | inl e ↦ ground arith
    | inr (i, e) ↦ elim (Bool-cases (i == h)) [
      | inl q ↦
          let same : i ≡ h = ground arith in ground (arith, ap (λ j. (s.buf_table j).pin_cnt) same)
      | inr ne ↦ ground arith
    ]
  ]

  -- What `write_back` leaves when the write succeeds.
  unfoldable pub written : (s : BufMgr fs) (i : ℕ) → BufMgr fs
  written s i =
      set_frame fs
        (record s {
          disk =
              (fs.write_page (s.buf_table i).file (s.buf_table i).page_no (s.buf_pool i) s.disk).1;
        })
        i (record (s.buf_table i) { dirty = false })

  pub write_back_done :
      (s : BufMgr fs) (i : ℕ)
      → (fs.write_page (s.buf_table i).file (s.buf_table i).page_no (s.buf_pool i) s.disk).0 ≡ ok tt
      → write_back fs i s ≡ (ok tt, written s i)
  unfolding write_back written
  write_back_done s i e = rw (write_back, e) refl

  take_dirty :
      (s : BufMgr fs) (x : ℕ)
      → (s.buf_table x).valid ≡ true
      → (s.buf_table x).dirty ≡ true
      → take_frame fs x s
        ≡ ◌>>◌ fs (write_back fs x) (evict fs x) (record s { upl = Ring.take_rear s.upl })
  unfolding take_frame
  take_dirty s x valid dirty = rw (take_frame, valid, dirty) refl

  take_dirty-Allocs :
      (s : BufMgr fs) (x : ℕ) (xs : List ℕ)
      → IsValid fs s (x ∷ xs)
      → (s.buf_table x).valid ≡ true
      → (s.buf_table x).dirty ≡ true
      → Allocs s (x ∷ xs) (take_frame fs x s)
  unfolding take_frame write_back set_frame written pins
  take_dirty-Allocs s x xs v valid dirty =
      let d = s.buf_table x in
      let s1 : BufMgr fs = record s { upl = Ring.take_rear s.upl } in
      let w = fs.write_page d.file d.page_no (s.buf_pool x) s.disk in
      elim (Result-cases w.0) [
        | inr (e, failed) ↦
            let run : take_frame fs x s ≡ (err e, record s1 { disk = w.1 }) = ground arith in
            subst (Allocs s (x ∷ xs)) (sym run) (valid, dirty, failed, refl)
        | inl (_, done) ↦
            let s2 = set_frame fs (record s1 { disk = w.1 }) x (record d { dirty = false }) in
            let p = write_back-IsPool fs s1 xs x x w.1 (take-IsPool fs s x xs v) in
            let step : take_frame fs x s ≡ evict fs x s2 =
              take_dirty s x valid dirty
              ∙ (ap (λ r. and_then fs {A = Unit {0}} {B = ℕ} r.0 r.1 (λ _. evict fs x))
                  (write_back_done s1 x done)) in
            let (s', run, ev, disk) = evict-Evicts fs s2 xs x p v.members.0.0 (ground arith) in
            let whole : take_frame fs x s ≡ (ok x, s') = step ∙ run in
            let saved : saved_disk s x ≡ disk_without s x = rw (valid, dirty) refl in
            subst (Allocs s (x ∷ xs)) (sym whole) (
              refl,
              Evicts-from s s2 xs x s' refl refl refl (λ i ne. ground arith)
                  (λ k. write_back-pins s1 x w.1 k ∙ refl) ev,
              disk ∙ saved,
            )
      ]

  take_frame-Allocs :
      (s : BufMgr fs) (x : ℕ) (xs : List ℕ)
      → IsValid fs s (x ∷ xs)
      → Allocs s (x ∷ xs) (take_frame fs x s)
  unfolding take_frame pins clear_frame set_frame
  take_frame-Allocs s x xs v =
      let s1 : BufMgr fs = record s { upl = Ring.take_rear s.upl } in
      let p = take-IsPool fs s x xs v in
      let lt = v.members.0.0 in
      let unchanged : (s.buf_table x).valid ≡ false → s.disk ≡ disk_without s x = λ e. rw e refl in
      elim (Bool-cases (s.buf_table x).valid) [
        | inr invalid ↦ rw invalid (
          refl,
          Evicts-from s s1 xs x (clear_frame fs s1 x) refl refl refl (λ i ne. refl) (λ k. refl)
              (clear-Evicts fs s1 xs x p lt invalid),
          unchanged invalid,
        )
        | inl valid ↦ elim (Bool-cases (s.buf_table x).dirty) [
          | inr clean ↦
              let (s', run, ev, disk) = evict-Evicts fs s1 xs x p lt valid in
              let kept : s.disk ≡ disk_without s x = rw (valid, clean) refl in
              rw (valid, clean, run)
                (
                  refl,
                  Evicts-from s s1 xs x s' refl refl refl (λ i ne. refl) (λ k. refl) ev,
                  disk ∙ kept,
                )
          | inl dirty ↦ take_dirty-Allocs s x xs v valid dirty
        ]
      ]

  -- On a valid pool `allocBuf` returns BUFFEREXCEEDED, and changes nothing, if the ring is empty. Else it
  -- returns the frame at the rear: the pool is as valid as before with that frame in hand, the frame
  -- is cleared and no page is in it, the other frames, the contents and all pin counts are kept, and the
  -- disk is as the write of the frame's page leaves it if that page is dirty, and as before if not. Or
  -- it returns the error of that write, if the page is dirty, with the disk that the write leaves.
  pub alloc_buf-Allocs :
      (s : BufMgr fs) (free : List ℕ) → IsValid fs s free → Allocs s free (alloc_buf fs s)
  unfolding alloc_buf
  alloc_buf-Allocs s [] v = ground (arith, v.ring.at_rear)
  alloc_buf-Allocs s (x ∷ xs) v =
      let more : (s.upl.front == s.upl.rear) ≡ false =
        ground (arith, v.ring.outside.0, v.ring.at_rear) in
      let run : alloc_buf fs s ≡ take_frame fs x s =
        rw more (ap (λ y. take_frame fs y s) v.ring.at_rear) in
      subst (Allocs s (x ∷ xs)) (sym run) (take_frame-Allocs s x xs v)
