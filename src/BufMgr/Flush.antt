-- ===== src/BufMgr/Flush.antt =====
-- `flushFile` of part5/part5/buf.C: after it, no page of the file is in the pool.
use ubase.Base.{
  ℕ, zero, suc, ◌+◌, ◌≤◌, ◌<◌, ◌≡◌, ◌≢◌, ◌⊎◌, inl, inr, refl, sym, ap, ◌∙◌, false, none, List,
  arith, ◌==◌, Bool-cases, Option-cases,
}
use mathlib.Core.Path.{subst}
use ubase.BufHash.{page_eq}
use ubase.BufHash.Laws.{frame_of}
use ubase.BufMgr.{BufMgr, key, flush_frame, flush_loop, flush_file, and_then}
use ubase.BufMgr.Valid.{IsValid}
use ubase.FileStore.{FileStore}
use ubase.Status.{Status, Result, ok, err}
use ubase.BufMgr.Round.{
  Same, Same-trans, with_frame, FailsWith, FailsAt, IsFree, RoundOf, flush_frame-RoundOf,
}

module _ (fs : FileStore) where
  open fs use {Disk, Content}

  -- The disk after the changed pages of the file in the `k` frames from `i` on have been written, in the
  -- order of the frames.
  abbrev pub flushed_disk : BufMgr fs → (file k i : ℕ) → Disk → Disk
  flushed_disk s file zero i disk = disk
  flushed_disk s file (suc k) i disk = flushed_disk s file k (suc i) (with_frame fs s i file disk)

  -- It depends on these frames only.
  flushed_disk-congr :
      (s s1 : BufMgr fs) (file k i : ℕ) (disk : Disk)
      → s1.buf_pool ≡ s.buf_pool
      → ((n : ℕ) → i ≤ n → s1.buf_table n ≡ s.buf_table n)
      → flushed_disk s1 file k i disk ≡ flushed_disk s file k i disk
  flushed_disk-congr s s1 file zero i disk pool table = refl
  flushed_disk-congr s s1 file (suc k) i disk pool table =
      let same : with_frame fs s1 i file disk ≡ with_frame fs s i file disk =
        rw (pool, table i (omega arith)) refl in
      ap (flushed_disk s1 file k (suc i)) same
      ∙ flushed_disk-congr s s1 file k (suc i) (with_frame fs s i file disk) pool
          (λ n le. table n (omega (arith, le)))

  -- The first frame, from `i` on and of `k`, that has no good end; those before it are written.
  abbrev pub Stops : BufMgr fs → (file k i : ℕ) → Disk → Status → Disk → Type 0
  Stops s file k i disk e disk' =
      (j : ℕ) × (j < k) × FailsAt fs s (i + j) file (flushed_disk s file j i disk) e disk'

  Stops-carry :
      (s s1 : BufMgr fs) (file k i : ℕ) (e : Status) (disk' : Disk)
      → s1.buf_pool ≡ s.buf_pool
      → ((n : ℕ) → n ≢ i → s1.buf_table n ≡ s.buf_table n)
      → s1.disk ≡ with_frame fs s i file s.disk
      → Stops s1 file k (suc i) s1.disk e disk'
      → Stops s file (suc k) i s.disk e disk'
  Stops-carry s s1 file k i e disk' pool table disk (j, lt, fails) =
      let n = suc i + j in
      let there : n ≡ i + suc j = omega arith in
      let written_before = flushed_disk s file (suc j) i s.disk in
      let written : flushed_disk s1 file j (suc i) s1.disk ≡ flushed_disk s file (suc j) i s.disk =
        flushed_disk-congr s s1 file j (suc i) s1.disk pool
          (λ m le. table m (λ q. omega (arith, q, le)))
        ∙ ap (flushed_disk s file j (suc i)) disk in
      let fails1 : FailsAt fs s1 n file (flushed_disk s file (suc j) i s.disk) e disk' =
        subst (λ d. FailsAt fs s1 n file d e disk') written fails in
      let fails2 : FailsAt fs s n file (flushed_disk s file (suc j) i s.disk) e disk' =
        subst (λ c. FailsWith fs (s.buf_table n) (c n) file written_before e disk') pool
          (subst (λ d. FailsWith fs d (s1.buf_pool n) file written_before e disk')
            (table n (λ q. omega (arith, q))) fails1) in
      (
        suc j,
        omega (arith, lt),
        subst (λ m. FailsAt fs s m file (flushed_disk s file (suc j) i s.disk) e disk') there
            fails2,
      )

  -- The rounds from `i` on: no frame from there on holds a page of the file, and those before are left.
  abbrev LoopOf : BufMgr fs → List ℕ → (k i file : ℕ) → Result (Unit {0}) × BufMgr fs → Type 0
  LoopOf s free k i file (ok _, s') =
      Same fs s free file s'
      × ((n : ℕ) → i ≤ n → n < i + k → IsFree fs s' n file)
      × ((n : ℕ) → n < i → s'.buf_table n ≡ s.buf_table n)
      × (s'.disk ≡ flushed_disk s file k i s.disk)
  LoopOf s free k i file (err e, s') = Same fs s free file s' × Stops s file k i s.disk e s'.disk

  LoopOf-carry :
      (s s1 : BufMgr fs) (free : List ℕ) (k i file : ℕ)
      → Same fs s free file s1
      → IsFree fs s1 i file
      → ((n : ℕ) → n ≢ i → s1.buf_table n ≡ s.buf_table n)
      → s1.disk ≡ with_frame fs s i file s.disk
      → (r : Result (Unit {0}) × BufMgr fs) → LoopOf s1 free k (suc i) file r
      → LoopOf s free (suc k) i file r
  LoopOf-carry s s1 free k i file a clear others disk (ok _, s') (b, rest, before, after) = (
    Same-trans fs s s1 s' free file a b,
    λ n low high. elim (Bool-cases (n == i)) [
      | inl q ↦
          let here : s1.buf_table i ≡ s'.buf_table n =
            ap s1.buf_table (ground arith) ∙ sym (before n (ground arith)) in
          subst (λ d. (d.valid ≡ false) ⊎ (d.file ≢ file)) here clear
      | inr q ↦ rest n (ground arith) (omega arith)
    ],
    λ n low. before n (omega arith) ∙ others n (λ q. omega (arith, q, low)),
    after
        ∙ flushed_disk-congr s s1 file k (suc i) s1.disk a.contents
            (λ n le. others n (λ q. omega (arith, q, le)))
        ∙ ap (flushed_disk s file k (suc i)) disk,
  )
  LoopOf-carry s s1 free k i file a clear others disk (err e, s') (b, why) = (
    Same-trans fs s s1 s' free file a b,
    Stops-carry s s1 file k i e s'.disk a.contents others disk why,
  )

  after_round :
      (s : BufMgr fs) (free : List ℕ) (k i file : ℕ)
      → i + suc k ≤ s.num_bufs
      → ((s1 : BufMgr fs)
          → IsValid fs s1 free
          → suc i + k ≤ s1.num_bufs
          → LoopOf s1 free k (suc i) file (flush_loop fs k (suc i) file s1))
      → (r : Result (Unit {0}) × BufMgr fs) → RoundOf fs s free i file r
      → LoopOf s free
          (suc k)
          i
          file
          (and_then fs {A = Unit {0}} {B = Unit {0}} r.0 r.1 (λ _. flush_loop fs k (suc i) file))
  after_round s free k i file low rest (ok _, s1) (a, clear, others, disk) =
      LoopOf-carry s s1 free k i file a clear others disk (flush_loop fs k (suc i) file s1)
        (rest s1 a.pool (omega (arith, low, a.size)))
  after_round s free k i file low rest (err e, s1) (a, fails) =
      let here : i ≡ i + 0 = omega arith in
      (a, (0, omega arith, subst (λ n. FailsAt fs s n file s.disk e s1.disk) here fails))

  flush_loop-LoopOf :
      (s : BufMgr fs) (free : List ℕ) (k i file : ℕ)
      → IsValid fs s free
      → i + k ≤ s.num_bufs
      → file ≢ 0
      → LoopOf s free k i file (flush_loop fs k i file s)
  unfolding flush_loop
  flush_loop-LoopOf s free zero i file v low some_file = (
    record { pool = v; size = refl; pinned = λ j. refl; contents = refl; kept = λ j ne. refl },
    λ n from to. absurd (omega arith),
    λ n before. refl,
    refl,
  )
  flush_loop-LoopOf s free (suc k) i file v low some_file =
      after_round s free k i file low
        (λ s1 v1 low1. flush_loop-LoopOf s1 free k (suc i) file v1 low1 some_file)
        (flush_frame fs i file s) (flush_frame-RoundOf fs s free i file v (omega arith) some_file)

  abbrev pub FlushOf : BufMgr fs → List ℕ → ℕ → Result (Unit {0}) × BufMgr fs → Type 0
  FlushOf s free file (ok _, s') =
      Same fs s free file s'
      × ((p : ℕ) → frame_of s'.hash_table (key file p) ≡ none)
      × (s'.disk ≡ flushed_disk s file s.num_bufs 0 s.disk)
  FlushOf s free file (err e, s') =
      Same fs s free file s' × Stops s file s.num_bufs 0 s.disk e s'.disk

  flushed :
      (s : BufMgr fs) (free : List ℕ) (file : ℕ) (r : Result (Unit {0}) × BufMgr fs)
      → LoopOf s free s.num_bufs 0 file r
      → FlushOf s free file r
  flushed s free file (ok _, s') (a, clear, _, disk) = (
    a,
    λ p. elim (Option-cases (frame_of s'.hash_table (key file p))) [
      | inl e ↦ e
      | inr (n, e) ↦
          let (low, valid, here) = a.pool.frames (key file p) n e in
          absurd (elim (clear n (omega arith) (omega (arith, low, a.size))) [
            | inl invalid ↦ cc
            | inr other ↦ other (ap (λ k. k.file) here)
          ])
    ],
    disk,
  )
  flushed s free file (err e, s') h = h

  -- `flushFile` of a file that is not NULL, on a valid pool. If it returns OK, no page of the file is in
  -- the pool, and the disk is as the writes of the file's changed pages, in the order of the frames,
  -- leave it. An error is that of a frame of the file, up to which the changed pages have been written:
  -- PAGEPINNED, and it is pinned, or the error of the write of its page. In both cases the pool is
  -- valid with the same ring and contents, no pin count changed, and the pages of the other files are
  -- in their frames.
  pub flush_file-FlushOf :
      (s : BufMgr fs) (free : List ℕ) (file : ℕ)
      → IsValid fs s free
      → file ≢ 0
      → FlushOf s free file (flush_file fs file s)
  unfolding flush_file
  flush_file-FlushOf s free file v some_file =
      flushed s free file (flush_loop fs s.num_bufs 0 file s)
        (flush_loop-LoopOf s free s.num_bufs 0 file v (omega arith) some_file)
