-- ===== src/BufMgr/Enter.antt =====
-- What `readPage` and `allocPage` of part5/part5/buf.C do with the frame that `allocBuf` returned:
-- a page enters the pool in it, or it is given back.
use ubase.Base.{
  ℕ, suc, ◌<◌, ◌≡◌, ◌≢◌, ◌⊎◌, inl, inr, refl, ap, ◌∙◌, none, some, List, ◌∷◌, Avoids, arith, ◌==◌,
  if◌then◌else◌, All-mono, All-both, Bool-cases, Option-cases,
}
use ubase.BufHash.{PageKey, page_eq, same_page, same_page_iff, BufHashTbl}
use ubase.BufHash.Laws
use ubase.BufHash.Laws.{frame_of, insert_both}
use ubase.BufMgr.{BufMgr, key, set_desc, clear_links, set_frame, release_buf, enter}
use ubase.BufMgr.Valid.{pins, IsPool, IsValid, desc_key, clear_links-IsRing}
use ubase.FileStore.{FileStore}
use ubase.Ring.{push_rear}
use ubase.Ring.Laws.{push_rear-IsRing}
use ubase.Status.{ok}

module _ (fs : FileStore) where
  -- No frame of the list is the sentinel.
  pub not_sentinel :
      (s : BufMgr fs) (free : List ℕ) (h : ℕ) → IsPool fs s free h → Avoids s.num_bufs free
  not_sentinel s free h v = All-mono _ _ free (λ i m q. omega (arith, m.0, q)) v.members

  pub release_buf-IsValid :
      (s : BufMgr fs) (free : List ℕ) (h : ℕ)
      → IsPool fs s free h
      → h < s.num_bufs
      → IsValid fs (release_buf fs h s) (h ∷ free)
  unfolding release_buf push_rear
  release_buf-IsValid s free h v lt = record {
    ring = push_rear-IsRing s.upl h free v.ring (λ q. omega (arith, v.sentinel)) v.in_hand;
    sentinel = v.sentinel;
    table = v.table;
    members = ((lt, v.unused lt), v.members);
    in_hand = (λ q. omega arith, not_sentinel s free h v);
    unused = λ no. absurd (omega arith);
    unpinned = λ i low pin ne. elim (Bool-cases (i == h)) [
      | inl q ↦ ground arith
      | inr q ↦ ground (arith, v.unpinned i low pin (ground arith))
    ];
    mapped = v.mapped;
    frames = v.frames;
    idle = v.idle;
  }

  module _ (s : BufMgr fs) (free : List ℕ) (h file page_no : ℕ) (v : IsPool fs s free h)
      (lt : h < s.num_bufs) (gone : (k : PageKey) → frame_of s.hash_table k ≢ some h)
      (absent : frame_of s.hash_table (key file page_no) ≡ none) (t : BufHashTbl)
      (table : Laws.IsTable t)
      (look : (j : PageKey)
        → frame_of t j
          ≡ (if same_page j (key file page_no) then some h else frame_of s.hash_table j)) where
    abbrev filled : BufMgr fs
    filled =
        let s' = set_frame fs (record s { hash_table = t }) h (set_desc file page_no) in
        record s' { upl = clear_links s'.upl h }

    filled_old :
        (k : PageKey) (i : ℕ)
        → frame_of t k ≡ some i
        → ((k ≡ key file page_no) × (i ≡ h)) ⊎ ((i ≢ h) × (frame_of s.hash_table k ≡ some i))
    filled_old k i e = elim (Bool-cases (same_page k (key file page_no))) [
      | inl q ↦ inl ((same_page_iff k (key file page_no)).0 q, ground (arith, look k))
      | inr q ↦
          let old : frame_of s.hash_table k ≡ some i = ground (arith, look k) in
          inr (λ same. gone k (old ∙ ap some same), old)
    ]

    filled_new : frame_of t (key file page_no) ≡ some h
    filled_new = ground (
      arith,
      look (key file page_no),
      (same_page_iff (key file page_no) (key file page_no)).1 refl,
    )

    filled_kept : (k : PageKey) (i : ℕ) → frame_of s.hash_table k ≡ some i → frame_of t k ≡ some i
    filled_kept k i e = elim (Bool-cases (same_page k (key file page_no))) [
      | inl q ↦
          let same = (same_page_iff k (key file page_no)).0 q in
          absurd (ground (arith, ap (frame_of s.hash_table) same))
      | inr q ↦ ground (arith, look k)
    ]

    filled-IsValid : IsValid fs filled free
    unfolding set_frame clear_links
    filled-IsValid = record {
      ring = clear_links-IsRing s.upl h free (λ q. omega (arith, v.sentinel)) v.in_hand v.ring;
      sentinel = v.sentinel;
      table = table;
      members = All-mono _ _ free (λ i m. ground arith) (All-both _ _ free v.members v.in_hand);
      in_hand = not_sentinel s free h v;
      unused = λ no. absurd (omega arith);
      unpinned = λ i low pin ne. ground (arith, v.unpinned i low);
      mapped = λ i low valid. elim (Bool-cases (i == h)) [
        | inl q ↦ let same : i ≡ h = ground arith in ground (arith, filled_new)
        | inr q ↦
            ground (arith, filled_kept (desc_key (s.buf_table i)) i (v.mapped i low (ground arith)))
      ];
      frames = λ k i e. elim (filled_old k i e) [
        | inl (same, at) ↦ (omega (arith, at, lt), ground arith, ground arith)
        | inr (ne, old) ↦ ground (arith, v.frames k i old)
      ];
      idle = λ i low e. (ground (arith, v.idle i low), ground (arith, v.idle i low));
    }

    filled-pins :
        (k : PageKey)
        → pins fs filled k ≡ (if same_page k (key file page_no) then 1 else pins fs s k)
    unfolding set_frame pins
    filled-pins k = elim (Option-cases (frame_of t k)) [
      | inl e ↦ ground (arith, look k)
      | inr (i, e) ↦ elim (filled_old k i e) [
        | inl (same, at) ↦ let here = (same_page_iff k (key file page_no)).1 same in ground arith
        | inr (ne, old) ↦ elim (Bool-cases (same_page k (key file page_no))) [
          | inl q ↦ absurd (ground (arith, look k))
          | inr q ↦ ground arith
        ]
      ]
    ]

  -- The page is in the pool, in the frame, and pinned once more than before; no other pin count changed.
  pub record Reads (s : BufMgr fs) (k : PageKey) (i : ℕ) (s' : BufMgr fs) : Type 0 where
    pub free : List ℕ
    pub pool : IsValid fs s' free
    pub found : frame_of s'.hash_table k ≡ some i
    pub pinned :
        (j : PageKey) → pins fs s' j ≡ (if same_page j k then suc (pins fs s k) else pins fs s j)

  absent-pins : (s : BufMgr fs) (k : PageKey) → frame_of s.hash_table k ≡ none → pins fs s k ≡ 0
  unfolding pins
  absent-pins s k e = ground arith

  pub enter-Reads :
      (s : BufMgr fs) (free : List ℕ) (h file page_no : ℕ)
      → IsPool fs s free h
      → h < s.num_bufs
      → ((k : PageKey) → frame_of s.hash_table k ≢ some h)
      → frame_of s.hash_table (key file page_no) ≡ none
      → (s' : BufMgr fs) × (enter fs h file page_no s ≡ (ok h, s'))
        × Reads s (key file page_no) h s'
        × (s'.buf_pool ≡ s.buf_pool)
        × (s'.disk ≡ s.disk)
  unfolding enter set_frame clear_links
  enter-Reads s free h file page_no v lt gone absent =
      let (t, run, table, look) =
        (insert_both s.hash_table (key file page_no) h v.table).0 absent in
      let none_yet = absent-pins s (key file page_no) absent in
      (
        filled s free h file page_no v lt gone absent t table look,
        rw (enter, run) refl,
        record {
          free = free;
          pool = filled-IsValid s free h file page_no v lt gone absent t table look;
          found = filled_new s free h file page_no v lt gone absent t table look;
          pinned =
              λ j. rw none_yet (filled-pins s free h file page_no v lt gone absent t table look j);
        },
        refl,
        refl,
      )
