-- ===== src/BufMgr/Valid.antt =====
-- The invariant of the buffer pool.
use ubase.Base.{
  ℕ, ◌<◌, ◌≡◌, ◌≢◌, sym, ap, ◌∙◌, true, false, none, some, List, All, Avoids, has, All-mono,
}
use ubase.BufHash.{PageKey, page_eq}
use ubase.BufHash.Laws
use ubase.BufHash.Laws.{frame_of}
use ubase.BufMgr.{BufMgr, BufDesc, key, clear_links}
use ubase.FileStore.{FileStore}
use ubase.Ring.{Ring, set, null}
use ubase.Ring.Bypass.{IsRing}
use ubase.Ring.Seg.{frame, set_other}

-- The page of a descriptor.
abbrev pub desc_key : BufDesc → PageKey
desc_key d = key d.file d.page_no

-- `free` are the frames of the ring, from the rear to the front; `h` is a frame that an operation has
-- taken from the ring and not yet used, or no frame if `h` is not below `numBufs`.
pub record IsPool (fs : FileStore) (s : BufMgr fs) (free : List ℕ) (h : ℕ) : Type 0 where
  pub ring : IsRing s.upl free
  pub sentinel : s.upl.front ≡ s.num_bufs
  pub table : Laws.IsTable s.hash_table
  pub members : All (λ i. (i < s.num_bufs) × ((s.buf_table i).pin_cnt ≡ 0)) free
  pub in_hand : Avoids h free
  pub unused : h < s.num_bufs → (s.buf_table h).pin_cnt ≡ 0
  pub unpinned : (i : ℕ) → i < s.num_bufs → (s.buf_table i).pin_cnt ≡ 0 → i ≢ h → has i free ≡ true
  pub mapped :
      (i : ℕ)
      → i < s.num_bufs
      → (s.buf_table i).valid ≡ true
      → frame_of s.hash_table (desc_key (s.buf_table i)) ≡ some i
  pub frames :
      (k : PageKey) (i : ℕ)
      → frame_of s.hash_table k ≡ some i
      → (i < s.num_bufs) × ((s.buf_table i).valid ≡ true) × (desc_key (s.buf_table i) ≡ k)
  pub idle :
      (i : ℕ)
      → i < s.num_bufs
      → (s.buf_table i).valid ≡ false
      → ((s.buf_table i).pin_cnt ≡ 0) × ((s.buf_table i).file ≡ 0)

-- How often a page is pinned; a page that is not in the pool is not.
unfoldable pub pins : (fs : FileStore) → BufMgr fs → PageKey → ℕ
pins fs s k = elim (frame_of s.hash_table k) [ none ↦ 0 | some i ↦ (s.buf_table i).pin_cnt ]

-- Between operations no frame is in hand.
abbrev pub IsValid : (fs : FileStore) → BufMgr fs → List ℕ → Type 0
IsValid fs s free = IsPool fs s free s.num_bufs

-- The links of a descriptor outside the ring do not matter.
pub clear_links-IsRing :
    (r : Ring) (i : ℕ) (xs : List ℕ)
    → i ≢ r.front
    → Avoids i xs
    → IsRing r xs
    → IsRing (clear_links r i) xs
unfolding clear_links
clear_links-IsRing r i xs ne apart v = record {
  cycle =
      frame r.next r.prior (set r.next i (null r)) (set r.prior i (null r)) r.front xs r.front
        (set_other r.next i (null r) r.front (λ q. ne (sym q)))
        (set_other r.prior i (null r) r.front (λ q. ne (sym q)))
        (All-mono _ _ xs
          (λ z h. (set_other r.next i (null r) z h, set_other r.prior i (null r) z h)) apart)
        v.cycle;
  at_rear = v.at_rear;
  outside = v.outside;
  distinct = v.distinct;
}

-- The invariant speaks of the pin counts, the valid bits and the pages of the frames, and not of the
-- dirty bits, the contents or the disk.
pub IsPool-retable :
    (fs : FileStore) (s : BufMgr fs) (free : List ℕ) (h : ℕ) (buf_table : ℕ → BufDesc)
    (buf_pool : ℕ → FileStore.Content fs) (disk : FileStore.Disk fs)
    → ((i : ℕ)
        → ((buf_table i).pin_cnt ≡ (s.buf_table i).pin_cnt)
          × ((buf_table i).valid ≡ (s.buf_table i).valid)
          × (desc_key (buf_table i) ≡ desc_key (s.buf_table i)))
    → IsPool fs s free h
    → IsPool fs (record s { buf_table = buf_table; buf_pool = buf_pool; disk = disk }) free h
IsPool-retable fs s free h buf_table buf_pool disk same v = record {
  ring = v.ring;
  sentinel = v.sentinel;
  table = v.table;
  members = All-mono _ _ free (λ i m. (m.0, (same i).0 ∙ m.1)) v.members;
  in_hand = v.in_hand;
  unused = λ lt. (same h).0 ∙ v.unused lt;
  unpinned = λ i low pin ne. v.unpinned i low (sym (same i).0 ∙ pin) ne;
  mapped = λ i low valid.
      ap (frame_of s.hash_table) (same i).2 ∙ v.mapped i low (sym (same i).1 ∙ valid);
  frames =
      λ k i e. let (low, valid, at) = v.frames k i e in (low, (same i).1 ∙ valid, (same i).2 ∙ at);
  idle = λ i low e.
      let old = v.idle i low (sym (same i).1 ∙ e) in
      ((same i).0 ∙ old.0, ap (λ k. k.file) (same i).2 ∙ old.1);
}
