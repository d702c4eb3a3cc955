-- ===== src/BufMgr/Round.antt =====
-- One round of the loop of `flushFile` of part5/part5/buf.C.
use ubase.Base.{
  ℕ, ◌<◌, ◌≡◌, ◌≢◌, ◌⊎◌, inl, inr, refl, sym, ap, ◌∙◌, true, false, some, List, ltb, arith, ◌==◌,
  ◌&&◌, ==_iff, if◌then◌else◌, Bool-cases,
}
use mathlib.Core.Path.{subst}
use ubase.BufHash.{PageKey, page_eq, same_page, same_page_iff}
use ubase.BufHash.Laws.{frame_of, remove_both}
use ubase.BufMgr.{
  BufMgr, BufDesc, key, set_frame, write_back, drop_frame, flush_frame, and_then, ◌>>◌,
}
use ubase.BufMgr.Alloc.{written, write_back_done, write_back-pins}
use ubase.BufMgr.Dispose.{dropped, dropped-IsValid, dropped-pins}
use ubase.BufMgr.Evict.{write_back-IsPool}
use ubase.BufMgr.Valid.{pins, IsValid, IsPool-retable}
use ubase.FileStore.{FileStore}
use ubase.Status.{Status, Result, Result-cases, ok, err, page_pinned}

module _ (fs : FileStore) where
  open fs use {Disk, Content}

  -- The pool is valid with the same ring and contents, no pin count changed, and the pages of the
  -- other files are in their frames.
  pub record Same (s : BufMgr fs) (free : List ℕ) (file : ℕ) (s' : BufMgr fs) : Type 0 where
    pub pool : IsValid fs s' free
    pub size : s'.num_bufs ≡ s.num_bufs
    pub pinned : (j : PageKey) → pins fs s' j ≡ pins fs s j
    pub contents : s'.buf_pool ≡ s.buf_pool
    pub kept : (j : PageKey) → j.file ≢ file → frame_of s'.hash_table j ≡ frame_of s.hash_table j

  pub Same-trans :
      (s s1 s2 : BufMgr fs) (free : List ℕ) (file : ℕ)
      → Same s free file s1
      → Same s1 free file s2
      → Same s free file s2
  Same-trans s s1 s2 free file a b = record {
    pool = b.pool;
    size = b.size ∙ a.size;
    pinned = λ j. b.pinned j ∙ a.pinned j;
    contents = b.contents ∙ a.contents;
    kept = λ j ne. b.kept j ne ∙ a.kept j ne;
  }

  -- The frame holds no page of the file.
  abbrev pub IsFree : BufMgr fs → (n file : ℕ) → Type 0
  IsFree s n file = ((s.buf_table n).valid ≡ false) ⊎ ((s.buf_table n).file ≢ file)

  -- The disk after the page of the frame has been written, if it is a changed one of the file.
  abbrev pub with_frame : BufMgr fs → (n file : ℕ) → Disk → Disk
  with_frame s n file disk =
      let d = s.buf_table n in
      if d.valid && d.dirty && d.file == file
      then (fs.write_page d.file d.page_no (s.buf_pool n) disk).1
      else disk

  -- The frame holds a page of the file that is pinned, with the answer PAGEPINNED, or that is changed
  -- and whose write to the disk fails with the answer; the disk is what this leaves.
  abbrev pub FailsWith : BufDesc → Content → (file : ℕ) → Disk → Status → Disk → Type 0
  FailsWith d page file disk e disk' =
      (d.valid ≡ true)
      × (d.file ≡ file)
      × (((e ≡ page_pinned) × (0 < d.pin_cnt) × (disk' ≡ disk))
          ⊎ ((d.dirty ≡ true)
              × ((fs.write_page file d.page_no page disk).0 ≡ err e)
              × (disk' ≡ (fs.write_page file d.page_no page disk).1)))

  abbrev pub FailsAt : BufMgr fs → (n file : ℕ) → Disk → Status → Disk → Type 0
  FailsAt s n file disk e disk' = FailsWith (s.buf_table n) (s.buf_pool n) file disk e disk'

  -- One round.
  abbrev pub RoundOf : BufMgr fs → List ℕ → (i file : ℕ) → Result (Unit {0}) × BufMgr fs → Type 0
  RoundOf s free i file (ok _, s') =
      Same s free file s'
      × IsFree s' i file
      × ((n : ℕ) → n ≢ i → s'.buf_table n ≡ s.buf_table n)
      × (s'.disk ≡ with_frame s i file s.disk)
  RoundOf s free i file (err e, s') = Same s free file s' × FailsAt s i file s.disk e s'.disk

  -- Dropping the frame does not touch the disk.
  abbrev DropOf : BufMgr fs → List ℕ → (i file : ℕ) → Result (Unit {0}) × BufMgr fs → Type 0
  DropOf s free i file (ok _, s') =
      Same s free file s'
      × IsFree s' i file
      × ((n : ℕ) → n ≢ i → s'.buf_table n ≡ s.buf_table n)
      × (s'.disk ≡ s.disk)
  DropOf s free i file (err e, s') = ⊥

  drop_frame-DropOf :
      (s : BufMgr fs) (free : List ℕ) (i file : ℕ)
      → IsValid fs s free
      → i < s.num_bufs
      → (s.buf_table i).valid ≡ true
      → (s.buf_table i).file ≡ file
      → (s.buf_table i).pin_cnt ≡ 0
      → DropOf s free i file (drop_frame fs i file s)
  unfolding drop_frame set_frame
  drop_frame-DropOf s free i file v lt valid mine idle =
      let d = s.buf_table i in
      let k = key file d.page_no in
      let at : frame_of s.hash_table k ≡ some i =
        ap (λ f. frame_of s.hash_table (key f d.page_no)) (sym mine) ∙ v.mapped i lt valid in
      let (t, removed, table, look) = (remove_both s.hash_table k v.table).0 (λ q. cc) in
      let d' = record d { file = 0; page_no = 0; valid = false } in
      let s1 = dropped fs s free v k i at idle t table look d' idle refl refl in
      let run : drop_frame fs i file s ≡ (ok tt, s1) = rw (drop_frame, removed) refl in
      subst (DropOf s free i file) (sym run) (
        record {
          pool = dropped-IsValid fs s free v k i at idle t table look d' idle refl refl;
          size = refl;
          pinned = dropped-pins fs s free v k i at idle t table look d' idle refl refl;
          contents = refl;
          kept = λ j ne. elim (Bool-cases (same_page j k)) [
            | inl q ↦ absurd (ne (ap (λ x. x.file) ((same_page_iff j k).0 q)))
            | inr q ↦ ground (arith, look j)
          ];
        },
        inl (ground arith),
        λ n ne. ground arith,
        refl,
      )

  -- The frame's page was written, or the write failed.
  rewritten-Same :
      (s : BufMgr fs) (free : List ℕ) (i file : ℕ) (disk : Disk)
      → IsValid fs s free
      → Same s free file (record s { disk = disk })
  unfolding pins
  rewritten-Same s free i file disk v = record {
    pool =
        IsPool-retable fs s free s.num_bufs s.buf_table s.buf_pool disk (λ n. (refl, refl, refl)) v;
    size = refl;
    pinned = λ j. refl;
    contents = refl;
    kept = λ j ne. refl;
  }

  written-Same :
      (s : BufMgr fs) (free : List ℕ) (i file : ℕ)
      → IsValid fs s free
      → Same s free file (written fs s i)
  unfolding written set_frame
  written-Same s free i file v =
      let disk =
        (fs.write_page (s.buf_table i).file (s.buf_table i).page_no (s.buf_pool i) s.disk).1 in
      record {
        pool = write_back-IsPool fs s free i s.num_bufs disk v;
        size = refl;
        pinned = write_back-pins fs s i disk;
        contents = refl;
        kept = λ j ne. refl;
      }

  -- A frame that was dropped once its page was as it is on the disk that is left.
  dropped-RoundOf :
      (s s1 : BufMgr fs) (free : List ℕ) (i file : ℕ)
      → Same s free file s1
      → ((n : ℕ) → n ≢ i → s1.buf_table n ≡ s.buf_table n)
      → s1.disk ≡ with_frame s i file s.disk
      → (r : Result (Unit {0}) × BufMgr fs) → DropOf s1 free i file r
      → RoundOf s free i file r
  dropped-RoundOf s s1 free i file a others disk (ok _, s') (b, clear, rest, same) =
      (Same-trans s s1 s' free file a b, clear, λ n ne. rest n ne ∙ others n ne, same ∙ disk)
  dropped-RoundOf s s1 free i file a others disk (err e, s') h = absurd h

  -- The round of a dirty page of the file.
  dirty-RoundOf :
      (s : BufMgr fs) (free : List ℕ) (i file : ℕ)
      → IsValid fs s free
      → i < s.num_bufs
      → (s.buf_table i).valid ≡ true
      → (s.buf_table i).file ≡ file
      → (s.buf_table i).pin_cnt ≡ 0
      → (s.buf_table i).dirty ≡ true
      → RoundOf s free i file (◌>>◌ fs (write_back fs i) (drop_frame fs i file) s)
  unfolding write_back written set_frame
  dirty-RoundOf s free i file v lt valid mine idle dirty =
      let d = s.buf_table i in
      let w = fs.write_page d.file d.page_no (s.buf_pool i) s.disk in
      elim (Result-cases w.0) [
        | inr (e, failed) ↦
            let written : write_back fs i s ≡ (err e, record s { disk = w.1 }) =
              rw (write_back, failed) refl in
            let run : ◌>>◌ fs (write_back fs i) (drop_frame fs i file) s
                ≡ (err e, record s { disk = w.1 }) =
              ap
                (λ r. and_then fs {A = Unit {0}} {B = Unit {0}} r.0 r.1 (λ _. drop_frame fs i file))
                written in
            subst (RoundOf s free i file) (sym run) (
              rewritten-Same s free i file w.1 v,
              (
                valid,
                mine,
                inr (
                  dirty,
                  ap (λ f. (fs.write_page f d.page_no (s.buf_pool i) s.disk).0) (sym mine) ∙ failed,
                  ap (λ f. (fs.write_page f d.page_no (s.buf_pool i) s.disk).1) mine,
                ),
              ),
            )
        | inl (_, done) ↦
            let s1 = written fs s i in
            let run : ◌>>◌ fs (write_back fs i) (drop_frame fs i file) s ≡ drop_frame fs i file s1 =
              ap
                (λ r. and_then fs {A = Unit {0}} {B = Unit {0}} r.0 r.1 (λ _. drop_frame fs i file))
                (write_back_done fs s i done) in
            let a = written-Same s free i file v in
            subst (RoundOf s free i file) (sym run) (
              dropped-RoundOf s s1 free i file a (λ n ne. ground arith)
                (rw (valid, dirty, (==_iff d.file file).1 mine) refl) (drop_frame fs i file s1)
                (drop_frame-DropOf s1 free i file a.pool lt (ground arith) (ground arith)
                  (ground arith)))
      ]

  passed :
      (s : BufMgr fs) (i file : ℕ)
      → ((s.buf_table i).file == file) ≡ false
      → flush_frame fs i file s ≡ (ok tt, s)
  unfolding flush_frame
  passed s i file other = ground arith

  in_round :
      (s : BufMgr fs) (i file : ℕ)
      → (s.buf_table i).valid ≡ true
      → ((s.buf_table i).file == file) ≡ true
      → ltb 0 (s.buf_table i).pin_cnt ≡ false
      → (s.buf_table i).dirty ≡ true
      → flush_frame fs i file s ≡ ◌>>◌ fs (write_back fs i) (drop_frame fs i file) s
  unfolding flush_frame
  in_round s i file valid mine idle dirty = rw (flush_frame, valid, mine, idle, dirty) refl

  pub flush_frame-RoundOf :
      (s : BufMgr fs) (free : List ℕ) (i file : ℕ)
      → IsValid fs s free
      → i < s.num_bufs
      → file ≢ 0
      → RoundOf s free i file (flush_frame fs i file s)
  unfolding flush_frame pins
  flush_frame-RoundOf s free i file v lt some_file =
      let d = s.buf_table i in
      let same : Same s free file s = record {
        pool = v;
        size = refl;
        pinned = λ j. refl;
        contents = refl;
        kept = λ j ne. refl;
      } in
      elim (Bool-cases d.valid) [
        | inr invalid ↦
            let other : (d.file == file) ≡ false = ground (arith, (v.idle i lt invalid).1) in
            subst (RoundOf s free i file) (sym (passed s i file other))
              (same, inl invalid, λ n ne. refl, rw invalid refl)
        | inl valid ↦ elim (Bool-cases (d.file == file)) [
          | inr other ↦ subst (RoundOf s free i file) (sym (passed s i file other)) (
            same,
            inr (λ q. ground arith),
            λ n ne. refl,
            elim (Bool-cases d.dirty) [
              | inl q ↦ rw (valid, q, other) refl
              | inr q ↦ rw (valid, q) refl
            ],
          )
          | inl mine ↦ elim (Bool-cases (ltb 0 d.pin_cnt)) [
            | inl busy ↦
                let run : flush_frame fs i file s ≡ (err page_pinned, s) =
                  rw (flush_frame, valid, mine, busy) refl in
                subst (RoundOf s free i file) (sym run)
                  (same, (valid, ground arith, inl (refl, ground arith, refl)))
            | inr idle ↦ elim (Bool-cases d.dirty) [
              | inl dirty ↦
                  let run : flush_frame fs i file s
                      ≡ ◌>>◌ fs (write_back fs i) (drop_frame fs i file) s =
                    in_round s i file valid mine idle dirty in
                  subst (RoundOf s free i file) (sym run)
                    (dirty-RoundOf s free i file v lt valid (ground arith) (ground arith) dirty)
              | inr clean ↦
                  let run : flush_frame fs i file s ≡ drop_frame fs i file s =
                    rw (flush_frame, valid, mine, idle, clean) refl in
                  subst (RoundOf s free i file) (sym run) (
                    dropped-RoundOf s s free i file same (λ n ne. refl) (rw (valid, clean) refl)
                      (drop_frame fs i file s)
                      (drop_frame-DropOf s free i file v lt valid (ground arith) (ground arith)))
            ]
          ]
        ]
      ]
