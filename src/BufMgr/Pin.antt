-- ===== src/BufMgr/Pin.antt =====
-- `readPage` of part5/part5/buf.C when the page is in the pool: it is pinned once more.
use ubase.Base.{
  ℕ, ◌+◌, ◌<◌, ◌≡◌, ◌≢◌, inl, inr, refl, sym, ap, ◌∙◌, true, some, List, ◌∷◌, ◌++◌, All, IsDistinct,
  has, has-split, All-without, has-without, arith, ◌==◌, if◌then◌else◌, All-mono, Bool-cases,
}
use mathlib.Core.Path.{subst}
use ubase.BufHash.{PageKey, page_eq}
use ubase.BufHash.Laws.{frame_of}
use ubase.BufMgr.{BufMgr, set_frame, pin}
use ubase.BufMgr.Enter.{Reads}
use ubase.BufMgr.Repin.{repinned, repinned-IsValid, repinned-pins}
use ubase.BufMgr.Valid.{pins, IsValid}
use ubase.FileStore.{FileStore}
use ubase.Ring
use ubase.Ring.{Ring}
use ubase.Ring.Bypass.{IsRing}
use ubase.Ring.Laws.{unlink-IsRing}
use ubase.Status.{ok}

module _ (fs : FileStore) where
  open fs use {Disk, Content}

  module _ (s : BufMgr fs) (free : List ℕ) (v : IsValid fs s free) (k : PageKey) (i : ℕ)
      (at : frame_of s.hash_table k ≡ some i) where
    pinned-Reads :
        (r : Ring) (free' : List ℕ)
        → IsValid fs
            (repinned fs s free v k i at
              (record (s.buf_table i) { pin_cnt = (s.buf_table i).pin_cnt + 1 })
              (v.frames k i at).1
              refl
              r)
            free'
        → Reads fs s k i (
            repinned fs s free v k i at
              (record (s.buf_table i) { pin_cnt = (s.buf_table i).pin_cnt + 1 })
              (v.frames k i at).1
              refl
              r)
    unfolding set_frame pins
    pinned-Reads r free' p =
        let d = record (s.buf_table i) { pin_cnt = (s.buf_table i).pin_cnt + 1 } in
        record {
          free = free';
          pool = p;
          found = at;
          pinned = λ j.
              let e = repinned-pins fs s free v k i at d (v.frames k i at).1 refl r j in
              ground arith;
        }

    idle_unpinned :
        (xs ys : List ℕ)
        → free ≡ xs ++ i ∷ ys
        → (j : ℕ) → j < s.num_bufs
        → (if j == i
            then record (s.buf_table i) { pin_cnt = (s.buf_table i).pin_cnt + 1 }
            else s.buf_table j).pin_cnt
          ≡ 0
        → has j (xs ++ ys) ≡ true
    idle_unpinned xs ys same j low none_left =
        let ne : j ≢ i = λ q. ground arith in
        has-without xs i ys j ne
          (ap (has j) (sym same) ∙ v.unpinned j low (ground arith) (λ q. omega (arith, low, q)))

    pub pin-Reads :
        (s' : BufMgr fs) × (pin fs i s ≡ (ok i, s'))
        × Reads fs s k i s'
        × (s'.buf_pool ≡ s.buf_pool)
        × (s'.disk ≡ s.disk)
    unfolding pin set_frame Ring.unlink
    pin-Reads =
        let d = record (s.buf_table i) { pin_cnt = (s.buf_table i).pin_cnt + 1 } in
        let (lt, valid, here) = v.frames k i at in
        elim (Bool-cases ((s.buf_table i).pin_cnt == 0)) [
          | inl idle ↦
              let member = v.unpinned i lt (ground arith) (λ q. omega (arith, lt, q)) in
              let (xs, ys, same) = has-split i free member in
              let ring = unlink-IsRing s.upl xs i ys (subst (IsRing s.upl) same v.ring) in
              let r = Ring.unlink s.upl i in
              let distinct = subst IsDistinct same v.ring.distinct in
              let p =
                repinned-IsValid fs s free v k i at d valid refl r (xs ++ ys) ring refl
                  (All-mono _ _ (xs ++ ys) (λ j m. ground arith)
                    (All-without _ xs i ys distinct (subst (All _) same v.members)))
                  (λ j low none_left. idle_unpinned xs ys same j low none_left) in
              (
                repinned fs s free v k i at d valid refl r,
                ground arith,
                pinned-Reads r (xs ++ ys) p,
                refl,
                refl,
              )
          | inr busy ↦
              let p =
                repinned-IsValid fs s free v k i at d valid refl s.upl free v.ring refl
                  (All-mono _ _ free
                    (λ j m.
                      let ne : j ≢ i =
                        λ q. ground (arith, m.1, ap (λ n. (s.buf_table n).pin_cnt) q) in
                      ground arith)
                    v.members)
                  (λ j low none_left.
                    ground (arith, v.unpinned j low (ground arith) (λ q. omega (arith, low, q)))) in
              (
                repinned fs s free v k i at d valid refl s.upl,
                ground arith,
                pinned-Reads s.upl free p,
                refl,
                refl,
              )
        ]
