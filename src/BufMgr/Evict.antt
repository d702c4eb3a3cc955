-- ===== src/BufMgr/Evict.antt =====
-- Part of `allocBuf` of part5/part5/buf.C: a victim leaves the ring and, with its page, the hash table.
use ubase.Base.{
  ℕ, ◌<◌, ◌≡◌, ◌≢◌, inl, inr, refl, sym, ap, ◌∙◌, true, false, none, some, List, ◌∷◌, arith, ◌==◌,
  if◌then◌else◌, All-mono, Bool-cases, Option-cases,
}
use ubase.BufHash.{PageKey, page_eq, same_page, same_page_iff, BufHashTbl}
use ubase.BufHash.Laws
use ubase.BufHash.Laws.{frame_of, remove_both}
use ubase.BufMgr.{BufMgr, clear_frame, set_frame, evict}
use ubase.BufMgr.Valid.{pins, IsPool-retable, IsPool, IsValid, desc_key, clear_links-IsRing}
use ubase.FileStore.{FileStore}
use ubase.Ring
use ubase.Ring.{Ring}
use ubase.Ring.Laws.{take_rear-IsRing}
use ubase.Status.{ok}

module _ (fs : FileStore) where
  open fs use {Disk}

  -- The frame at the rear is taken in hand.
  pub take-IsPool :
      (s : BufMgr fs) (x : ℕ) (xs : List ℕ)
      → IsValid fs s (x ∷ xs)
      → IsPool fs (record s { upl = Ring.take_rear s.upl }) xs x
  unfolding Ring.take_rear
  take-IsPool s x xs v =
      let (at, ring) = take_rear-IsRing s.upl x xs v.ring in
      record {
        ring = ring;
        sentinel = v.sentinel;
        table = v.table;
        members = v.members.1;
        in_hand = v.ring.distinct.0;
        unused = λ lt. v.members.0.1;
        unpinned = λ i lt pin ne. ground (arith, v.unpinned i lt pin (λ q. omega arith));
        mapped = v.mapped;
        frames = v.frames;
        idle = v.idle;
      }

  -- A frame in hand that holds no page is cleared.
  pub clear-IsPool :
      (s : BufMgr fs) (free : List ℕ) (h : ℕ)
      → IsPool fs s free h
      → h < s.num_bufs
      → ((k : PageKey) → frame_of s.hash_table k ≢ some h)
      → IsPool fs (clear_frame fs s h) free h
  unfolding clear_frame set_frame
  clear-IsPool s free h v lt gone = record {
    ring = clear_links-IsRing s.upl h free (λ q. omega arith) v.in_hand v.ring;
    sentinel = v.sentinel;
    table = v.table;
    members = All-mono _ _ free (λ i m. ground arith) v.members;
    in_hand = v.in_hand;
    unused = λ _. ground arith;
    unpinned = λ i low pin ne. ground (arith, v.unpinned i low);
    mapped = λ i low valid. ground (arith, v.mapped i low);
    frames = λ k i e.
        let old = v.frames k i e in let ne : i ≢ h = λ q. gone k (e ∙ ap some q) in ground arith;
    idle = λ i low e. (ground (arith, v.idle i low), ground (arith, v.idle i low));
  }

  -- The victim's page leaves the hash table, and the frame is cleared.
  pub record Evicts (s : BufMgr fs) (free : List ℕ) (h : ℕ) (s' : BufMgr fs) : Type 0 where
    pub pool : IsPool fs s' free h
    pub size : s'.num_bufs ≡ s.num_bufs
    pub cleared : (s'.buf_table h).valid ≡ false
    pub others : (i : ℕ) → i ≢ h → s'.buf_table i ≡ s.buf_table i
    pub contents : s'.buf_pool ≡ s.buf_pool
    pub gone : (k : PageKey) → frame_of s'.hash_table k ≢ some h
    pub pinned : (k : PageKey) → pins fs s' k ≡ pins fs s k
    pub new : (k : PageKey) → frame_of s.hash_table k ≡ none → frame_of s'.hash_table k ≡ none

  module _ (s : BufMgr fs) (free : List ℕ) (h : ℕ) (v : IsPool fs s free h) (lt : h < s.num_bufs)
      (valid : (s.buf_table h).valid ≡ true) (t : BufHashTbl) (table : Laws.IsTable t)
      (look : (j : PageKey)
        → frame_of t j ≡ (
            if same_page j (desc_key (s.buf_table h)) then none else frame_of s.hash_table j)) where
    removed_gone : (k : PageKey) → frame_of t k ≢ some h
    removed_gone k e =
        let old : frame_of s.hash_table k ≡ some h = ground (arith, look k) in
        let (_, _, same) = v.frames k h old in
        ground (arith, look k, (same_page_iff k (desc_key (s.buf_table h))).1 (sym same))

    removed_kept :
        (k : PageKey) (i : ℕ) → i ≢ h → frame_of s.hash_table k ≡ some i → frame_of t k ≡ some i
    removed_kept k i ne e = elim (Bool-cases (same_page k (desc_key (s.buf_table h)))) [
      | inl q ↦
          let same = (same_page_iff k (desc_key (s.buf_table h))).0 q in
          absurd (ground (arith, ap (frame_of s.hash_table) same, v.mapped h lt valid))
      | inr q ↦ ground (arith, look k)
    ]

    removed-pins :
        (k : PageKey) → pins fs (clear_frame fs (record s { hash_table = t }) h) k ≡ pins fs s k
    unfolding clear_frame set_frame pins
    removed-pins k = elim (Option-cases (frame_of s.hash_table k)) [
      | inl e ↦ ground (arith, look k)
      | inr (i, e) ↦ elim (Bool-cases (i == h)) [
        | inl q ↦
            let same : i ≡ h = ground arith in
            let (_, _, at) = v.frames k i e in
            let back =
              (same_page_iff k (desc_key (s.buf_table h))).1
                (sym at ∙ ap (λ j. desc_key (s.buf_table j)) same) in
            ground (arith, look k, v.unused lt, ap (λ j. (s.buf_table j).pin_cnt) same)
        | inr ne ↦ ground (arith, removed_kept k i (λ q. ground arith) e)
      ]
    ]

    removed-Evicts : Evicts s free h (clear_frame fs (record s { hash_table = t }) h)
    unfolding clear_frame set_frame
    removed-Evicts = record {
      pool = record {
        ring = clear_links-IsRing s.upl h free (λ q. omega (arith, v.sentinel)) v.in_hand v.ring;
        sentinel = v.sentinel;
        table = table;
        members = All-mono _ _ free (λ i m. ground arith) v.members;
        in_hand = v.in_hand;
        unused = λ _. ground arith;
        unpinned = λ i low pin ne. ground (arith, v.unpinned i low);
        mapped = λ i low ok_i.
            let ne : i ≢ h = λ q. ground arith in
            let old = v.mapped i low (ground arith) in
            ground (arith, removed_kept (desc_key (s.buf_table i)) i ne old);
        frames = λ k i e.
            let ne : i ≢ h = λ q. removed_gone k (e ∙ ap some q) in
            let old : frame_of s.hash_table k ≡ some i = ground (arith, look k) in
            ground (arith, v.frames k i old);
        idle = λ i low e. (ground (arith, v.idle i low), ground (arith, v.idle i low));
      };
      size = refl;
      cleared = ground arith;
      others = λ i ne. ground arith;
      contents = refl;
      gone = removed_gone;
      pinned = removed-pins;
      new = λ k e. ground (arith, look k);
    }

  pub evict-Evicts :
      (s : BufMgr fs) (free : List ℕ) (h : ℕ)
      → IsPool fs s free h
      → h < s.num_bufs
      → (s.buf_table h).valid ≡ true
      → (s' : BufMgr fs) × (evict fs h s ≡ (ok h, s')) × Evicts s free h s' × (s'.disk ≡ s.disk)
  unfolding evict clear_frame set_frame
  evict-Evicts s free h v lt valid =
      let there = v.mapped h lt valid in
      let (t, run, table, look) =
        (remove_both s.hash_table (desc_key (s.buf_table h)) v.table).0 (λ q. cc) in
      (
        clear_frame fs (record s { hash_table = t }) h,
        rw (run, evict),
        removed-Evicts s free h v lt valid t table look,
        refl,
      )

  -- Writing a page back changes neither the pool's frames nor its pages.
  pub write_back-IsPool :
      (s : BufMgr fs) (free : List ℕ) (h n : ℕ) (disk : Disk)
      → IsPool fs s free n
      → IsPool fs
          (set_frame fs (record s { disk = disk }) h (record (s.buf_table h) { dirty = false }))
          free
          n
  unfolding set_frame
  write_back-IsPool s free h n disk v =
      IsPool-retable fs s free n
        (λ j. if j == h then record (s.buf_table h) { dirty = false } else s.buf_table j) s.buf_pool
        disk
        (λ i. elim (Bool-cases (i == h)) [
          | inl q ↦
              let same : i ≡ h = ground arith in
              (
                ground (arith, ap (λ j. (s.buf_table j).pin_cnt) same),
                ground (arith, ap (λ j. (s.buf_table j).valid) same),
                ground (arith, ap (λ j. desc_key (s.buf_table j)) same),
              )
          | inr q ↦ (ground arith, ground arith, ground arith)
        ])
        v

  -- A clean victim is evicted; one that holds no page is only cleared.
  pub clear-Evicts :
      (s : BufMgr fs) (free : List ℕ) (h : ℕ)
      → IsPool fs s free h
      → h < s.num_bufs
      → (s.buf_table h).valid ≡ false
      → Evicts s free h (clear_frame fs s h)
  unfolding clear_frame set_frame pins
  clear-Evicts s free h v lt invalid =
      let gone : (k : PageKey) → frame_of s.hash_table k ≢ some h =
        λ k e. let (_, valid, _) = v.frames k h e in cc in
      record {
        pool = clear-IsPool s free h v lt gone;
        size = refl;
        cleared = ground arith;
        others = λ i ne. ground arith;
        contents = refl;
        gone = gone;
        pinned = λ k. elim (Option-cases (frame_of s.hash_table k)) [
          | inl e ↦ ground arith
          | inr (i, e) ↦ elim (Bool-cases (i == h)) [
            | inl q ↦ let same : i ≡ h = ground arith in absurd (gone k (e ∙ ap some same))
            | inr ne ↦ ground arith
          ]
        ];
        new = λ k e. e;
      }
