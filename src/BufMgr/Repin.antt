-- ===== src/BufMgr/Repin.antt =====
-- The pin count of a page that is in the pool changes, and its frame enters or leaves the ring:
-- `readPage` and `unPinPage` of part5/part5/buf.C.
use ubase.Base.{
  ℕ, ◌<◌, ◌≡◌, ◌≢◌, inl, inr, sym, ap, ◌∙◌, true, some, List, All, has, arith, ◌==◌, if◌then◌else◌,
  All-mono, Bool-cases, Option-cases,
}
use ubase.BufHash.{PageKey, page_eq, same_page, same_page_iff}
use ubase.BufHash.Laws.{frame_of}
use ubase.BufMgr.{BufMgr, BufDesc, set_frame}
use ubase.BufMgr.Valid.{pins, IsValid, desc_key}
use ubase.FileStore.{FileStore}
use ubase.Ring.{Ring}
use ubase.Ring.Bypass.{IsRing}

module _ (fs : FileStore) (s : BufMgr fs) (free : List ℕ) (v : IsValid fs s free) (k : PageKey)
    (i : ℕ) (at : frame_of s.hash_table k ≡ some i) (d : BufDesc) (ok_d : d.valid ≡ true)
    (same_d : desc_key d ≡ desc_key (s.buf_table i)) (r : Ring) where
  abbrev pub repinned : BufMgr fs
  repinned = set_frame fs (record s { upl = r }) i d

  pub repinned-IsValid :
      (free' : List ℕ)
      → IsRing r free'
      → r.front ≡ s.upl.front
      → All (λ j. (j < s.num_bufs) × ((if j == i then d else s.buf_table j).pin_cnt ≡ 0)) free'
      → ((j : ℕ)
          → j < s.num_bufs
          → (if j == i then d else s.buf_table j).pin_cnt ≡ 0
          → has j free' ≡ true)
      → IsValid fs repinned free'
  unfolding set_frame
  repinned-IsValid free' ring front members unpinned =
      let (lt, valid, here) = v.frames k i at in
      record {
        ring = ring;
        sentinel = front ∙ v.sentinel;
        table = v.table;
        members = members;
        in_hand = All-mono _ _ free' (λ j m q. omega (arith, m.0, q)) members;
        unused = λ no. absurd (omega arith);
        unpinned = λ j low pin ne. unpinned j low pin;
        mapped = λ j low ok_j. elim (Bool-cases (j == i)) [
          | inl q ↦
              let same : j ≡ i = ground arith in
              let found = ap (frame_of s.hash_table) (same_d ∙ here) ∙ at in ground arith
          | inr q ↦ ground (arith, v.mapped j low)
        ];
        frames = λ j n e.
            let (low, ok_n, there) = v.frames j n e in
            elim (Bool-cases (n == i)) [
              | inl q ↦
                  let same : n ≡ i = ground arith in
                  let key_d = same_d ∙ ap (λ m. desc_key (s.buf_table m)) (sym same) ∙ there in
                  (low, ground arith, ground arith)
              | inr q ↦ ground arith
            ];
        idle = λ j low e. (ground (arith, v.idle j low), ground (arith, v.idle j low));
      }

  pub repinned-pins :
      (j : PageKey) → pins fs repinned j ≡ (if same_page j k then d.pin_cnt else pins fs s j)
  unfolding set_frame pins
  repinned-pins j =
      let (lt, valid, here) = v.frames k i at in
      elim (Option-cases (frame_of s.hash_table j)) [
        | inl e ↦ elim (Bool-cases (same_page j k)) [
          | inl q ↦ absurd (ground (arith, ap (frame_of s.hash_table) ((same_page_iff j k).0 q)))
          | inr q ↦ ground arith
        ]
        | inr (n, e) ↦
            let (low, ok_n, there) = v.frames j n e in
            elim (Bool-cases (same_page j k)) [
              | inl q ↦
                  let same = ap (frame_of s.hash_table) ((same_page_iff j k).0 q) in ground arith
              | inr q ↦
                  let ne : n ≢ i = λ e'.
                    let same = sym there ∙ ap (λ m. desc_key (s.buf_table m)) e' ∙ here in
                    ground (arith, (same_page_iff j k).1 same) in
                  ground arith
            ]
      ]
