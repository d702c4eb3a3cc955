-- ===== src/BufMgr/Dispose.antt =====
-- `disposePage` of part5/part5/buf.C, on every branch: an unpinned page leaves the pool, and its frame
-- stays in the ring.
use ubase.Base.{
  ℕ, ◌<◌, ◌≡◌, ◌≢◌, ◌⊎◌, inl, inr, refl, sym, ap, ◌∙◌, false, not, ◌||◌, none, some, List, All-mono,
  ltb, arith, ◌==◌, if◌then◌else◌, Bool-cases, Option-cases,
}
use mathlib.Core.Path.{subst}
use ubase.BufHash
use ubase.BufHash.{PageKey, page_eq, same_page, same_page_iff, BufHashTbl}
use ubase.BufHash.Laws
use ubase.BufHash.Laws.{frame_of, lookup-frame_of, remove_both}
use ubase.BufMgr.{BufMgr, BufDesc, key, set_frame, dispose_page}
use ubase.BufMgr.Valid.{pins, IsValid, desc_key, IsPool-retable}
use ubase.FileStore.{FileStore}
use ubase.Status.{Result, ok, err, hash_not_found, page_pinned}

module _ (fs : FileStore) where
  open fs use {Disk}

  module _ (s : BufMgr fs) (free : List ℕ) (v : IsValid fs s free) (k : PageKey) (i : ℕ)
      (at : frame_of s.hash_table k ≡ some i) (idle : (s.buf_table i).pin_cnt ≡ 0) (t : BufHashTbl)
      (table : Laws.IsTable t)
      (look : (j : PageKey)
        → frame_of t j ≡ (if same_page j k then none else frame_of s.hash_table j))
      (d : BufDesc) (unused : d.pin_cnt ≡ 0) (invalid : d.valid ≡ false)
      (no_file : d.file ≡ 0) where
    abbrev pub dropped : BufMgr fs
    dropped = set_frame fs (record s { hash_table = t }) i d

    -- The table keeps the pages of the other frames, and no others.
    dropped_kept :
        (j : PageKey) (n : ℕ) → n ≢ i → frame_of s.hash_table j ≡ some n → frame_of t j ≡ some n
    dropped_kept j n ne e = elim (Bool-cases (same_page j k)) [
      | inl q ↦ absurd (ground (arith, ap (frame_of s.hash_table) ((same_page_iff j k).0 q)))
      | inr q ↦ ground (arith, look j)
    ]

    dropped_old :
        (j : PageKey) (n : ℕ) → frame_of t j ≡ some n → (n ≢ i) × (frame_of s.hash_table j ≡ some n)
    dropped_old j n e =
        let old : frame_of s.hash_table j ≡ some n = ground (arith, look j) in
        let (_, _, there) = v.frames j n old in
        let (_, _, here) = v.frames k i at in
        (
          λ q.
              let same = sym there ∙ ap (λ m. desc_key (s.buf_table m)) q ∙ here in
              ground (arith, look j, (same_page_iff j k).1 same),
          old,
        )

    pub dropped-IsValid : IsValid fs dropped free
    unfolding set_frame
    dropped-IsValid = record {
      ring = v.ring;
      sentinel = v.sentinel;
      table = table;
      members = All-mono _ _ free (λ j m. ground arith) v.members;
      in_hand = v.in_hand;
      unused = λ no. absurd (omega arith);
      unpinned = λ j low pin ne. elim (Bool-cases (j == i)) [
        | inl q ↦
            let same : j ≡ i = ground arith in
            v.unpinned j low (ap (λ m. (s.buf_table m).pin_cnt) same ∙ idle) ne
        | inr q ↦ v.unpinned j low (ground arith) ne
      ];
      mapped = λ j low valid.
          let ne : j ≢ i = λ q. ground arith in
          ground
            (arith, dropped_kept (desc_key (s.buf_table j)) j ne (v.mapped j low (ground arith)));
      frames = λ j n e. let (ne, old) = dropped_old j n e in ground (arith, v.frames j n old);
      idle = λ j low e. (ground (arith, v.idle j low), ground (arith, v.idle j low));
    }

    pub dropped-pins : (j : PageKey) → pins fs dropped j ≡ pins fs s j
    unfolding set_frame pins
    dropped-pins j = elim (Option-cases (frame_of t j)) [
      | inl e ↦ elim (Bool-cases (same_page j k)) [
        | inl q ↦ let same = ap (frame_of s.hash_table) ((same_page_iff j k).0 q) in ground arith
        | inr q ↦ ground (arith, look j)
      ]
      | inr (n, e) ↦ let (ne, old) = dropped_old j n e in ground arith
    ]

  -- The page is not in the pool any more, which is valid with the same ring; no pin count changed.
  pub record Disposed (s : BufMgr fs) (free : List ℕ) (k : PageKey) (s' : BufMgr fs) : Type 0 where
    pub pool : IsValid fs s' free
    pub was : (frame_of s.hash_table k ≢ none) × (pins fs s k ≡ 0)
    pub gone : frame_of s'.hash_table k ≡ none
    pub kept : (j : PageKey) → j ≢ k → frame_of s'.hash_table j ≡ frame_of s.hash_table j
    pub pinned : (j : PageKey) → pins fs s' j ≡ pins fs s j

  abbrev pub DisposeOf :
      BufMgr fs → List ℕ → (file page_no : ℕ) → Result (Unit {0}) × BufMgr fs → Type 0
  DisposeOf s free file page_no (ok u, s') =
      Disposed s free (key file page_no) s'
      × (fs.dispose_page file page_no s.disk ≡ (ok u, s'.disk))
  DisposeOf s free file page_no (err e, s') =
      ((e ≡ hash_not_found) × (s' ≡ s) × (frame_of s.hash_table (key file page_no) ≡ none))
      ⊎ ((e ≡ page_pinned) × (s' ≡ s) × (0 < pins fs s (key file page_no)))
      ⊎ (Disposed s free (key file page_no) s'
          × (fs.dispose_page file page_no s.disk ≡ (err e, s'.disk)))

  answered :
      (s : BufMgr fs) (free : List ℕ) (file page_no : ℕ) (s1 : BufMgr fs)
      → s1.disk ≡ s.disk
      → (r : Result (Unit {0}) × Disk) → fs.dispose_page file page_no s.disk ≡ r
      → Disposed s free (key file page_no) (record s1 { disk = r.1 })
      → DisposeOf s free file page_no (r.0, record s1 { disk = r.1 })
  answered s free file page_no s1 same (ok u, w) run d = (d, run)
  answered s free file page_no s1 same (err e, w) run d = inr (inr (d, run))

  disposed :
      (s : BufMgr fs) (free : List ℕ) (v : IsValid fs s free) (k : PageKey) (i : ℕ)
      (at : frame_of s.hash_table k ≡ some i) (idle : (s.buf_table i).pin_cnt ≡ 0) (t : BufHashTbl)
      (table : Laws.IsTable t)
      (look : (j : PageKey)
        → frame_of t j ≡ (if same_page j k then none else frame_of s.hash_table j))
      (d : BufDesc) (unused : d.pin_cnt ≡ 0) (invalid : d.valid ≡ false) (no_file : d.file ≡ 0)
      (disk : Disk)
      → Disposed s free k (record (set_frame fs (record s { hash_table = t }) i d) { disk = disk })
  unfolding set_frame pins
  disposed s free v k i at idle t table look d unused invalid no_file disk =
      let s1 = dropped s free v k i at idle t table look d unused invalid no_file in
      record {
        pool =
            IsPool-retable fs s1 free s.num_bufs s1.buf_table s.buf_pool disk
              (λ j. (refl, refl, refl))
              (dropped-IsValid s free v k i at idle t table look d unused invalid no_file);
        was = (λ q. cc, ground arith);
        gone = ground (arith, look k, (same_page_iff k k).1 refl);
        kept = λ j ne. elim (Bool-cases (same_page j k)) [
          | inl q ↦ absurd (ne ((same_page_iff j k).0 q))
          | inr q ↦ ground (arith, look j)
        ];
        pinned = dropped-pins s free v k i at idle t table look d unused invalid no_file;
      }

  -- `disposePage` on a valid pool. A page that is not in the pool gives HASHNOTFOUND and a pinned one
  -- PAGEPINNED, and nothing changes. Any other page leaves the pool, which stays valid with the same
  -- ring, the other pages in their frames and no pin count changed; the answer is then that of
  -- `File::disposePage`, also if that is an error.
  pub dispose_page-DisposeOf :
      (s : BufMgr fs) (free : List ℕ) (file page_no : ℕ)
      → IsValid fs s free
      → DisposeOf s free file page_no (dispose_page fs file page_no s)
  unfolding dispose_page pins set_frame
  dispose_page-DisposeOf s free file page_no v =
      let k = key file page_no in
      let look = lookup-frame_of s.hash_table k in
      elim (Option-cases (frame_of s.hash_table k)) [
        | inl absent ↦
            let miss : BufHash.lookup s.hash_table k ≡ err hash_not_found = look ∙ rw absent refl in
            let run : dispose_page fs file page_no s ≡ (err hash_not_found, s) =
              rw (dispose_page, miss) refl in
            subst (DisposeOf s free file page_no) (sym run) (inl (refl, refl, absent))
        | inr (i, at) ↦
            let hit : BufHash.lookup s.hash_table k ≡ ok i = look ∙ rw at refl in
            let (lt, valid, here) = v.frames k i at in
            let d = s.buf_table i in
            let mine : (not d.valid || not (d.file == file) || not (d.page_no == page_no)) ≡ false =
              ground (arith, ap (λ q. q.file) here, ap (λ q. q.page_no) here) in
            elim (Bool-cases (ltb 0 (s.buf_table i).pin_cnt)) [
              | inl busy ↦
                  let run : dispose_page fs file page_no s ≡ (err page_pinned, s) =
                    rw (dispose_page, hit, mine, busy) refl in
                  subst (DisposeOf s free file page_no) (sym run)
                    (inr (inl (refl, refl, ground arith)))
              | inr idle ↦
                  let (t, removed, table, looks) =
                    (remove_both s.hash_table k v.table).0 (λ q. cc) in
                  let d' = record d { file = 0; page_no = 0; dirty = false; valid = false } in
                  let s1 = set_frame fs (record s { hash_table = t }) i d' in
                  let w = fs.dispose_page file page_no s.disk in
                  let run : dispose_page fs file page_no s ≡ (w.0, record s1 { disk = w.1 }) =
                    rw (dispose_page, hit, mine, idle, removed) refl in
                  subst (DisposeOf s free file page_no) (sym run) (
                    answered s free file page_no s1 refl w refl (
                      disposed s free v k i at (ground arith) t table looks d' (ground arith) refl
                        refl w.1))
            ]
      ]
