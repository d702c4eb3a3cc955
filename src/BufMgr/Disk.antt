-- ===== src/BufMgr/Disk.antt =====
-- What `flushFile` of part5/part5/buf.C does to the disk: it only writes pages.
use ubase.Base.{ℕ, zero, suc, Bool, true, false, ◌&&◌, not, ltb, ◌==◌, inl, inr, if◌then◌else◌}
use ubase.BufMgr.{
  BufMgr, set_frame, write_back, drop_frame, flush_frame, flush_loop, flush_file, and_then, ◌>>◌,
}
use ubase.FileStore.{FileStore}
use ubase.Status.{Result, Result-cases, ok, err, page_pinned, bad_buffer}

module _ {ℓ} (fs : FileStore) (P : FileStore.Disk fs → Type ℓ)
    (keep : (file page_no : ℕ) (c : FileStore.Content fs) (w : FileStore.Disk fs)
      → P w
      → P (fs.write_page file page_no c w).1) where
  write_back-keeps : (s : BufMgr fs) (i : ℕ) → P s.disk → P (write_back fs i s).1.disk
  unfolding write_back
  write_back-keeps s i p =
      let d = s.buf_table i in
      let w = fs.write_page d.file d.page_no (s.buf_pool i) s.disk in
      let p' = keep d.file d.page_no (s.buf_pool i) s.disk p in
      elim (Result-cases w.0) [
        | inl (_, e) ↦ rw (write_back, e) p'
        | inr (_, e) ↦ rw (write_back, e) p'
      ]

  then_drop :
      (r : Result (Unit {0}) × BufMgr fs) (i file : ℕ)
      → P r.1.disk
      → P (and_then fs {A = Unit {0}} {B = Unit {0}} r.0 r.1 (λ _. drop_frame fs i file)).1.disk
  unfolding drop_frame set_frame
  then_drop (ok _, s) i file p = p
  then_drop (err e, s) i file p = p

  if-keeps :
      (b : Bool) (x y : Result (Unit {0}) × BufMgr fs)
      → P x.1.disk
      → P y.1.disk
      → P (if b then x else y).1.disk
  if-keeps true x y p q = p
  if-keeps false x y p q = q

  flush_frame-keeps : (s : BufMgr fs) (i file : ℕ) → P s.disk → P (flush_frame fs i file s).1.disk
  unfolding flush_frame
  flush_frame-keeps s i file p =
      let d = s.buf_table i in
      let dirty = ◌>>◌ fs (write_back fs i) (drop_frame fs i file) s in
      let clean = drop_frame fs i file s in
      let written = then_drop (write_back fs i s) i file (write_back-keeps s i p) in
      let dropped = if-keeps d.dirty dirty clean written (then_drop (ok tt, s) i file p) in
      if-keeps (d.valid && d.file == file)
        (if ltb 0 d.pin_cnt then (err page_pinned, s) else (if d.dirty then dirty else clean))
        (if not d.valid && d.file == file then (err bad_buffer, s) else (ok tt, s))
        (if-keeps (ltb 0 d.pin_cnt) (err page_pinned, s) (if d.dirty then dirty else clean) p
          dropped)
        (if-keeps (not d.valid && d.file == file) (err bad_buffer, s) (ok tt, s) p p)

  then_loop :
      (k i file : ℕ) (r : Result (Unit {0}) × BufMgr fs)
      → ((s : BufMgr fs) → P s.disk → P (flush_loop fs k i file s).1.disk)
      → P r.1.disk
      → P (and_then fs {A = Unit {0}} {B = Unit {0}} r.0 r.1 (λ _. flush_loop fs k i file)).1.disk
  then_loop k i file (ok _, s) rest p = rest s p
  then_loop k i file (err e, s) rest p = p

  flush_loop-keeps : (s : BufMgr fs) (k i file : ℕ) → P s.disk → P (flush_loop fs k i file s).1.disk
  unfolding flush_loop
  flush_loop-keeps s zero i file p = p
  flush_loop-keeps s (suc k) i file p =
      then_loop k (suc i) file (flush_frame fs i file s) (λ s1. flush_loop-keeps s1 k (suc i) file)
        (flush_frame-keeps s i file p)

  -- What every write of a page keeps, `flushFile` keeps.
  pub flush_file-keeps : (s : BufMgr fs) (file : ℕ) → P s.disk → P (flush_file fs file s).1.disk
  unfolding flush_file
  flush_file-keeps s file p = flush_loop-keeps s s.num_bufs 0 file p
