-- ===== src/BufMgr/Read.antt =====
-- `readPage` of part5/part5/buf.C, on every branch.
use ubase.Base.{
  ℕ, ◌<◌, ◌≡◌, ◌≢◌, ◌⊎◌, inl, inr, refl, sym, ap, ◌∙◌, none, some, List, [], ◌∷◌, arith, ◌==◌,
  if◌then◌else◌, Bool-cases, Option-cases,
}
use mathlib.Core.Path.{subst}
use ubase.BufHash
use ubase.BufHash.{PageKey, page_eq, same_page, same_page_iff}
use ubase.BufHash.Laws.{frame_of, lookup-frame_of}
use ubase.BufMgr.{BufMgr, key, pin, load, read_page, alloc_buf, release_buf, ◌>>=◌, and_then}
use ubase.BufMgr.Alloc.{Allocs, alloc_buf-Allocs}
use ubase.BufMgr.Enter.{Reads, enter-Reads, release_buf-IsValid}
use ubase.BufMgr.Evict.{Evicts}
use ubase.BufMgr.Valid.{pins, IsPool, IsValid, IsPool-retable}
use ubase.FileStore.{FileStore}
use ubase.Status.{Result, Result-cases, ok, err, bad_file, hash_not_found}
use ubase.BufMgr.Pin.{pin-Reads}

module _ (fs : FileStore) where
  open fs use {Disk, Content}

  -- The pool is valid, and no pin count changed.
  abbrev pub Keeps : BufMgr fs → BufMgr fs → Type 0
  Keeps s s' = (free : List ℕ) × IsValid fs s' free × ((j : PageKey) → pins fs s' j ≡ pins fs s j)

  abbrev LoadOf : BufMgr fs → (file page_no : ℕ) → Result ℕ × BufMgr fs → Type 0
  LoadOf s file page_no (ok i, s') =
      Reads fs s (key file page_no) i s'
      × (fs.read_page file page_no s.disk ≡ (ok (s'.buf_pool i), s'.disk))
      × ((j : ℕ) → j ≢ i → s'.buf_pool j ≡ s.buf_pool j)
  LoadOf s file page_no (err e, s') = Keeps s s'

  load-LoadOf :
      (s : BufMgr fs) (free : List ℕ) (h file page_no : ℕ)
      → IsPool fs s free h
      → h < s.num_bufs
      → ((k : PageKey) → frame_of s.hash_table k ≢ some h)
      → frame_of s.hash_table (key file page_no) ≡ none
      → LoadOf s file page_no (load fs h file page_no s)
  unfolding load pins release_buf
  load-LoadOf s free h file page_no v lt gone absent =
      let w = fs.read_page file page_no s.disk in
      elim (Result-cases w.0) [
        | inr (e, failed) ↦
            let s1 : BufMgr fs = record s { disk = w.1 } in
            let p =
              IsPool-retable fs s free h s.buf_table s.buf_pool w.1 (λ i. (refl, refl, refl)) v in
            let run : load fs h file page_no s ≡ (err e, release_buf fs h s1) =
              rw (load, failed) refl in
            subst (LoadOf s file page_no) (sym run)
              (h ∷ free, release_buf-IsValid fs s1 free h p lt, λ j. refl)
        | inl (c, done) ↦
            let pool : ℕ → Content = λ j. if j == h then c else s.buf_pool j in
            let s1 : BufMgr fs = record s { disk = w.1; buf_pool = pool } in
            let p = IsPool-retable fs s free h s.buf_table pool w.1 (λ i. (refl, refl, refl)) v in
            let (s', run, reads, same_pool, same_disk) =
              enter-Reads fs s1 free h file page_no p lt gone absent in
            let whole : load fs h file page_no s ≡ (ok h, s') = rw (load, done) refl ∙ run in
            let kept : c ≡ s'.buf_pool h = ground (arith, ap (λ f. f h) same_pool) in
            subst (LoadOf s file page_no) (sym whole) (
              record {
                free = reads.free;
                pool = reads.pool;
                found = reads.found;
                pinned = reads.pinned;
              },
              ap (λ r. (r, w.1)) done
                  ∙ ap (λ x. (ok x, w.1)) kept
                  ∙ ap (λ x. (ok (s'.buf_pool h), x)) (sym same_disk),
              λ j ne. ground (arith, ap (λ f. f j) same_pool),
            )
      ]

  -- What `readPage` may answer. OK: the page is in the pool and pinned once more; it was there, or its
  -- contents are what `File::readPage` returned and the other frames keep theirs. An error: no pin
  -- count changed, or the write of the rear frame's page failed.
  abbrev pub ReadOf : BufMgr fs → List ℕ → (file page_no : ℕ) → Result ℕ × BufMgr fs → Type 0
  ReadOf s free file page_no (ok i, s') =
      Reads fs s (key file page_no) i s'
      × (((frame_of s.hash_table (key file page_no) ≡ some i) × (s'.buf_pool ≡ s.buf_pool))
          ⊎ ((frame_of s.hash_table (key file page_no) ≡ none)
              × ((disk : Disk) × (fs.read_page file page_no disk ≡ (ok (s'.buf_pool i), s'.disk)))
              × ((j : ℕ) → j ≢ i → s'.buf_pool j ≡ s.buf_pool j)))
  ReadOf s free file page_no (err e, s') = Keeps s s' ⊎ Allocs fs s free (err e, s')

  loaded :
      (s s1 : BufMgr fs) (free xs : List ℕ) (x i file page_no : ℕ)
      → Evicts fs s xs x s1
      → frame_of s.hash_table (key file page_no) ≡ none
      → (r : Result ℕ × BufMgr fs) → LoadOf s1 file page_no r
      → ReadOf s free file page_no r
  loaded s s1 free xs x i file page_no ev absent (ok n, s') (reads, run, others) = (
    record {
      free = reads.free;
      pool = reads.pool;
      found = reads.found;
      pinned = λ j. ground (arith, reads.pinned j, ev.pinned j, ev.pinned (key file page_no));
    },
    inr (absent, (s1.disk, run), λ j ne. others j ne ∙ ap (λ f. f j) ev.contents),
  )
  loaded s s1 free xs x i file page_no ev absent (err e, s') (free', v, same) =
      inl (free', v, λ j. same j ∙ ev.pinned j)

  allocated :
      (s : BufMgr fs) (free : List ℕ) (file page_no : ℕ)
      → IsValid fs s free
      → frame_of s.hash_table (key file page_no) ≡ none
      → (r : Result ℕ × BufMgr fs) → Allocs fs s free r
      → ReadOf s free file page_no (and_then fs r.0 r.1 (λ i. load fs i file page_no))
  allocated s [] file page_no v absent r same =
      subst (λ q. ReadOf s [] file page_no (and_then fs q.0 q.1 (λ i. load fs i file page_no)))
        (sym same) (inl ([], v, λ j. refl))
  allocated s (x ∷ xs) file page_no v absent (ok i, s1) (same, ev, _) =
      let low : x < s1.num_bufs = omega (arith, v.members.0.0, ev.size) in
      loaded s s1 (x ∷ xs) xs x i file page_no ev absent (load fs i file page_no s1) (
        subst (λ n. LoadOf s1 file page_no (load fs n file page_no s1)) (sym same)
          (load-LoadOf s1 xs x file page_no ev.pool low ev.gone (ev.new (key file page_no) absent)))
  allocated s (x ∷ xs) file page_no v absent (err e, s1) fails = inr fails

  -- `readPage` on a valid pool. If it returns OK, the pool is valid, the page is in the returned frame
  -- and pinned once more, and no other pin count changed; the page was in that frame before, or its
  -- contents are what `File::readPage` returned and the other frames' contents are kept. If it
  -- returns an error, the pool is valid and no pin count changed, or the rear frame's page is dirty
  -- and writing it failed.
  pub read_page-ReadOf :
      (s : BufMgr fs) (free : List ℕ) (file page_no : ℕ)
      → IsValid fs s free
      → ReadOf s free file page_no (read_page fs file page_no s)
  unfolding read_page
  read_page-ReadOf s free file page_no v =
      let look = lookup-frame_of s.hash_table (key file page_no) in
      elim (Bool-cases (file == 0)) [
        | inl null_file ↦
            let run : read_page fs file page_no s ≡ (err bad_file, s) =
              rw (read_page, null_file) refl in
            subst (ReadOf s free file page_no) (sym run) (inl (free, v, λ j. refl))
        | inr some_file ↦ elim (Option-cases (frame_of s.hash_table (key file page_no))) [
          | inl absent ↦
              let miss : BufHash.lookup s.hash_table (key file page_no) ≡ err hash_not_found =
                look ∙ rw absent refl in
              let run : read_page fs file page_no s
                  ≡ ◌>>=◌ fs (alloc_buf fs) (λ i. load fs i file page_no) s =
                rw (read_page, some_file, miss) refl in
              subst (ReadOf s free file page_no) (sym run) (
                allocated s free file page_no v absent (alloc_buf fs s)
                  (alloc_buf-Allocs fs s free v))
          | inr (i, at) ↦
              let hit : BufHash.lookup s.hash_table (key file page_no) ≡ ok i = look ∙ rw at refl in
              let run : read_page fs file page_no s ≡ pin fs i s =
                rw (read_page, some_file, hit) refl in
              let (s', pinned, reads, same, _) = pin-Reads fs s free v (key file page_no) i at in
              subst (ReadOf s free file page_no) (sym (run ∙ pinned)) (reads, inl (at, same))
        ]
      ]
