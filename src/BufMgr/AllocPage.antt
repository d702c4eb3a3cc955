-- ===== src/BufMgr/AllocPage.antt =====
-- `allocPage` of part5/part5/buf.C, on every branch.
use ubase.Base.{
  ℕ, ◌<◌, ◌≡◌, ◌≢◌, ◌⊎◌, inl, inr, refl, sym, ◌∙◌, true, some, List, [], ◌∷◌, ltb, arith,
  if◌then◌else◌, Option-cases,
}
use mathlib.Core.Path.{subst}
use ubase.BufHash.{PageKey, page_eq}
use ubase.BufHash.Laws.{frame_of, insert_both}
use ubase.BufMgr.{BufMgr, key, enter, alloc_buf, alloc_page, release_buf, ◌>>=◌, and_then, pure}
use ubase.BufMgr.Alloc.{Allocs, alloc_buf-Allocs}
use ubase.BufMgr.Enter.{Reads, enter-Reads, release_buf-IsValid}
use ubase.BufMgr.Evict.{Evicts}
use ubase.BufMgr.Read.{Keeps}
use ubase.BufMgr.Valid.{pins, IsPool, IsValid, IsPool-retable}
use ubase.FileStore.{FileStore}
use ubase.Status.{Result, Result-cases, ok, err, hash_tbl_error}

module _ (fs : FileStore) where
  open fs use {Disk}

  abbrev EnterOf : BufMgr fs → (file page_no : ℕ) → Result ℕ × BufMgr fs → Type 0
  EnterOf s file page_no (ok i, s') =
      Reads fs s (key file page_no) i s' × (s'.buf_pool ≡ s.buf_pool)
  EnterOf s file page_no (err e, s') = Keeps fs s s'

  enter-EnterOf :
      (s : BufMgr fs) (free : List ℕ) (h file page_no : ℕ)
      → IsPool fs s free h
      → h < s.num_bufs
      → ((k : PageKey) → frame_of s.hash_table k ≢ some h)
      → EnterOf s file page_no (enter fs h file page_no s)
  unfolding enter pins release_buf
  enter-EnterOf s free h file page_no v lt gone =
      elim (Option-cases (frame_of s.hash_table (key file page_no))) [
        | inl absent ↦
            let (s', run, reads, same, _) = enter-Reads fs s free h file page_no v lt gone absent in
            subst (EnterOf s file page_no) (sym run) (reads, same)
        | inr (i, at) ↦
            let failed = (insert_both s.hash_table (key file page_no) h v.table).1 (λ q. cc) in
            let run : enter fs h file page_no s ≡ (err hash_tbl_error, release_buf fs h s) =
              rw (enter, failed) refl in
            subst (EnterOf s file page_no) (sym run)
              (h ∷ free, release_buf-IsValid fs s free h v lt, λ j. refl)
      ]

  -- What `allocPage` may answer. OK: the page that `File::allocatePage` returned is in the pool, in the
  -- frame, pinned once more than before, and no frame's contents changed. An error: no pin count
  -- changed, or the write of the rear frame's page failed, after the page was allocated in the file.
  abbrev pub AllocPageOf : BufMgr fs → List ℕ → ℕ → Result (ℕ × ℕ) × BufMgr fs → Type 0
  AllocPageOf s free file (ok (page_no, i), s') =
      ((fs.allocate_page file s.disk).0 ≡ ok page_no)
      × Reads fs s (key file page_no) i s'
      × (s'.buf_pool ≡ s.buf_pool)
  AllocPageOf s free file (err e, s') =
      Keeps fs s s'
      ⊎ Allocs fs (record s { disk = (fs.allocate_page file s.disk).1 }) free (err e, s')

  entered :
      (s s0 s1 : BufMgr fs) (free xs : List ℕ) (x file page_no : ℕ)
      → (fs.allocate_page file s.disk).0 ≡ ok page_no
      → ((j : PageKey) → pins fs s0 j ≡ pins fs s j)
      → s0.buf_pool ≡ s.buf_pool
      → Evicts fs s0 xs x s1
      → (r : Result ℕ × BufMgr fs) → EnterOf s1 file page_no r
      → AllocPageOf s free file (and_then fs r.0 r.1 (λ j. pure fs (page_no, j)))
  entered s s0 s1 free xs x file page_no done keep contents ev (ok i, s') (reads, same) = (
    done,
    record {
      free = reads.free;
      pool = reads.pool;
      found = reads.found;
      pinned = λ j. ground (
        arith,
        reads.pinned j,
        ev.pinned j,
        ev.pinned (key file page_no),
        keep j,
        keep (key file page_no),
      );
    },
    same ∙ ev.contents ∙ contents,
  )
  entered s s0 s1 free xs x file page_no done keep contents ev (err e, s') (free', v, same) =
      inl (free', v, λ j. same j ∙ ev.pinned j ∙ keep j)

  abbrev rest : ℕ → ℕ → ℕ → ℕ → BufMgr fs → Result (ℕ × ℕ) × BufMgr fs
  rest num_bufs file page_no i =
      if ltb i num_bufs
      then ◌>>=◌ fs (enter fs i file page_no) (λ j. pure fs (page_no, j))
      else pure fs (page_no, i)

  allocated :
      (s : BufMgr fs) (free : List ℕ) (file page_no : ℕ)
      → IsValid fs s free
      → (fs.allocate_page file s.disk).0 ≡ ok page_no
      → (r : Result ℕ × BufMgr fs)
      → Allocs fs (record s { disk = (fs.allocate_page file s.disk).1 }) free r
      → AllocPageOf s free file (and_then fs r.0 r.1 (rest s.num_bufs file page_no))
  unfolding pins
  allocated s [] file page_no v done r same =
      let s0 : BufMgr fs = record s { disk = (fs.allocate_page file s.disk).1 } in
      let v0 =
        IsPool-retable fs s [] s.num_bufs s.buf_table s.buf_pool s0.disk (λ i. (refl, refl, refl))
          v in
      subst (λ q. AllocPageOf s [] file (and_then fs q.0 q.1 (rest s.num_bufs file page_no)))
        (sym same) (inl ([], v0, λ j. refl))
  allocated s (x ∷ xs) file page_no v done (ok i, s1) (same, ev, _) =
      let s0 : BufMgr fs = record s { disk = (fs.allocate_page file s.disk).1 } in
      let low : x < s1.num_bufs = omega (arith, v.members.0.0, ev.size) in
      let low' : ltb i s.num_bufs ≡ true = ground (arith, v.members.0.0, same) in
      rw low' (
        entered s s0 s1 (x ∷ xs) xs x file page_no done (λ j. refl) refl ev
          (enter fs i file page_no s1)
          (subst (λ n. EnterOf s1 file page_no (enter fs n file page_no s1)) (sym same)
            (enter-EnterOf s1 xs x file page_no ev.pool low ev.gone)))
  allocated s (x ∷ xs) file page_no v done (err e, s1) fails = inr fails

  -- `allocPage` on a valid pool. If it returns OK, the pool is valid and the page that
  -- `File::allocatePage` returned is in the returned frame and pinned once more, no other pin count
  -- changed, and no frame's contents did: the new page reads as what its frame held before. If it
  -- returns an error, the pool is valid and no pin count changed, or the rear frame's page is dirty
  -- and writing it failed.
  pub alloc_page-AllocPageOf :
      (s : BufMgr fs) (free : List ℕ) (file : ℕ)
      → IsValid fs s free
      → AllocPageOf s free file (alloc_page fs file s)
  unfolding alloc_page pins
  alloc_page-AllocPageOf s free file v =
      let w = fs.allocate_page file s.disk in
      let s0 : BufMgr fs = record s { disk = w.1 } in
      let v0 =
        IsPool-retable fs s free s.num_bufs s.buf_table s.buf_pool w.1 (λ i. (refl, refl, refl))
          v in
      elim (Result-cases w.0) [
        | inr (e, failed) ↦
            let run : alloc_page fs file s ≡ (err e, s0) = rw (alloc_page, failed) refl in
            subst (AllocPageOf s free file) (sym run) (inl (free, v0, λ j. refl))
        | inl (page_no, done) ↦
            let run : alloc_page fs file s
                ≡ ◌>>=◌ fs (alloc_buf fs) (rest s.num_bufs file page_no) s0 =
              rw (alloc_page, done) refl in
            subst (AllocPageOf s free file) (sym run) (
              allocated s free file page_no v done (alloc_buf fs s0)
                (alloc_buf-Allocs fs s0 free v0))
      ]
