-- ===== src/BufMgr/Unpin.antt =====
-- `unPinPage` of part5/part5/buf.C, on every branch.
use ubase.Base.{
  ℕ, suc, ◌-◌, ◌<◌, ◌≡◌, ◌≢◌, ◌⊎◌, inl, inr, refl, sym, ap, ◌∙◌, Bool, true, false, none, some,
  List, [], ◌∷◌, ◌++◌, All, Avoids, has, All-append, has-append, arith, ◌==◌, if◌then◌else◌, ◌||◌,
  All-mono, Bool-cases, Option-cases,
}
use mathlib.Core.Path.{subst}
use ubase.BufHash
use ubase.BufHash.{PageKey, page_eq, same_page, same_page_iff}
use ubase.BufHash.Laws.{frame_of, lookup-frame_of}
use ubase.BufMgr.{BufMgr, BufDesc, key, set_frame, unpin_page}
use ubase.BufMgr.Repin.{repinned-IsValid, repinned-pins}
use ubase.BufMgr.Valid.{pins, IsValid}
use ubase.FileStore.{FileStore}
use ubase.Ring
use ubase.Ring.{Ring}
use ubase.Ring.Bypass.{IsRing}
use ubase.Ring.Laws.{push_rear-IsRing, push_front-IsRing}
use ubase.Status.{Result, ok, err, hash_not_found, page_not_pinned}

module _ (fs : FileStore) where
  -- The ring after a frame's last pin was given up: a loved page stands at the front, another at the
  -- rear.
  abbrev pub returned : (love_it : Bool) → ℕ → List ℕ → List ℕ
  returned true i free = free ++ i ∷ []
  returned false i free = i ∷ free

  -- The page in the frame is pinned once less than before; no other pin count changed.
  pub record Unpins (s : BufMgr fs) (free : List ℕ) (k : PageKey) (dirty love_it : Bool)
      (s' : BufMgr fs) : Type 0 where
    pub frame : ℕ
    pub left : ℕ
    pub found : frame_of s.hash_table k ≡ some frame
    pub was : pins fs s k ≡ suc left
    pub pool : IsValid fs s' (if left == 0 then returned love_it frame free else free)
    pub pinned : (j : PageKey) → pins fs s' j ≡ (if same_page j k then left else pins fs s j)
    pub marked : (s'.buf_table frame).dirty ≡ (dirty || (s.buf_table frame).dirty)
    pub contents : s'.buf_pool ≡ s.buf_pool

  abbrev pub UnpinOf :
      BufMgr fs → List ℕ → PageKey → (dirty love_it : Bool) → Result (Unit {0}) × BufMgr fs → Type 0
  UnpinOf s free k dirty love_it (ok _, s') = Unpins s free k dirty love_it s'
  UnpinOf s free k dirty love_it (err e, s') =
      (s' ≡ s)
      × (((e ≡ hash_not_found) × (frame_of s.hash_table k ≡ none))
          ⊎ ((e ≡ page_not_pinned) × (frame_of s.hash_table k ≢ none) × (pins fs s k ≡ 0)))

  module _ (s : BufMgr fs) (free : List ℕ) (v : IsValid fs s free) (k : PageKey) (i : ℕ)
      (at : frame_of s.hash_table k ≡ some i) (dirty : Bool) where
    abbrev given : BufDesc
    given = record (s.buf_table i) {
      dirty = dirty || (s.buf_table i).dirty;
      pin_cnt = (s.buf_table i).pin_cnt - 1;
    }

    given-IsValid :
        (r : Ring) (free' : List ℕ)
        → (s.buf_table i).pin_cnt ≢ 0
        → IsRing r free'
        → r.front ≡ s.upl.front
        → All
            (λ j.
              ((j < s.num_bufs) × ((s.buf_table j).pin_cnt ≡ 0)) ⊎ ((j ≡ i) × (given.pin_cnt ≡ 0)))
            free'
        → ((j : ℕ)
            → j < s.num_bufs
            → (if j == i then given else s.buf_table j).pin_cnt ≡ 0
            → has j free' ≡ true)
        → IsValid fs (set_frame fs (record s { upl = r }) i given) free'
    given-IsValid r free' busy ring front members unpinned =
        let (lt, valid, here) = v.frames k i at in
        repinned-IsValid fs s free v k i at given valid refl r free' ring front
          (All-mono _ _ free'
            (λ j m. elim m [
              | inl (low, pin) ↦
                  let ne : j ≢ i = λ q. busy (ap (λ n. (s.buf_table n).pin_cnt) (sym q) ∙ pin) in
                  (low, ground arith)
              | inr (e, zero_left) ↦ (omega (arith, e, lt), ground arith)
            ])
            members)
          unpinned

    not_free : (s.buf_table i).pin_cnt ≢ 0 → Avoids i free
    not_free busy =
        All-mono _ _ free (λ j m q. ground (arith, m.1, ap (λ n. (s.buf_table n).pin_cnt) q))
          v.members

    given-Unpins :
        (r : Ring) (love_it : Bool)
        → (s.buf_table i).pin_cnt ≢ 0
        → IsValid fs
            (set_frame fs (record s { upl = r }) i given)
            (if given.pin_cnt == 0 then returned love_it i free else free)
        → Unpins s free k dirty love_it (set_frame fs (record s { upl = r }) i given)
    unfolding set_frame pins
    given-Unpins r love_it busy p =
        let (lt, valid, here) = v.frames k i at in
        record {
          frame = i;
          left = given.pin_cnt;
          found = at;
          was = ground arith;
          pool = p;
          pinned = repinned-pins fs s free v k i at given valid refl r;
          marked = ground arith;
          contents = refl;
        }

    left_facts :
        (s.buf_table i).pin_cnt ≡ 1
        → ((s.buf_table i).pin_cnt ≢ 0)
          × (i ≢ s.upl.front)
          × (given.pin_cnt ≡ 0)
          × All
              (λ j.
                ((j < s.num_bufs) × ((s.buf_table j).pin_cnt ≡ 0))
                ⊎ ((j ≡ i) × (given.pin_cnt ≡ 0)))
              free
    left_facts one =
        let (lt, valid, here) = v.frames k i at in
        (
          λ q. omega (arith, one, q),
          λ q. omega (arith, q, lt, v.sentinel),
          ground arith,
          All-mono _ _ free (λ j m. inl m) v.members,
        )

    left_IsValid :
        (love_it : Bool)
        → (s.buf_table i).pin_cnt ≡ 1
        → IsValid fs
            (set_frame fs
              (record s {
                upl = if love_it then Ring.push_front s.upl i else Ring.push_rear s.upl i;
              })
              i
              given)
            (returned love_it i free)
    unfolding Ring.push_front Ring.push_rear
    left_IsValid true one =
        let (busy, ne, none_left, old) = left_facts one in
        given-IsValid (Ring.push_front s.upl i) (free ++ i ∷ []) busy
          (push_front-IsRing s.upl i free v.ring ne (not_free busy)) refl
          (All-append _ free (i ∷ []) old (inr (refl, none_left), tt))
          (λ j low pin.
            let more = has-append j free (i ∷ []) in
            elim (Bool-cases (j == i)) [
              | inl q ↦ ground arith
              | inr q ↦ ground (arith, v.unpinned j low (ground arith) (λ e. omega (arith, e, low)))
            ])
    left_IsValid false one =
        let (busy, ne, none_left, old) = left_facts one in
        given-IsValid (Ring.push_rear s.upl i) (i ∷ free) busy
          (push_rear-IsRing s.upl i free v.ring ne (not_free busy)) refl
          (inr (refl, none_left), old)
          (λ j low pin. elim (Bool-cases (j == i)) [
            | inl q ↦ ground arith
            | inr q ↦ ground (arith, v.unpinned j low (ground arith) (λ e. omega (arith, e, low)))
          ])

    kept_IsValid :
        (s.buf_table i).pin_cnt ≢ 0
        → (s.buf_table i).pin_cnt ≢ 1
        → IsValid fs (set_frame fs (record s { upl = s.upl }) i given) free
    kept_IsValid busy more =
        given-IsValid s.upl free busy v.ring refl (All-mono _ _ free (λ j m. inl m) v.members)
          (λ j low pin. elim (Bool-cases (j == i)) [
            | inl q ↦ absurd (ground arith)
            | inr q ↦ ground (arith, v.unpinned j low (ground arith) (λ e. omega (arith, e, low)))
          ])

  -- `unPinPage` on a valid pool. A page that is not in the pool gives HASHNOTFOUND and one that is not
  -- pinned PAGENOTPINNED, and nothing changes; it gives no other error. Otherwise the page is pinned
  -- once less, and dirty if it was or the caller says so. When its last pin is given up, its frame
  -- enters the ring, at the front if the page is loved and at the rear if not. The pool stays valid,
  -- and no other pin count changes.
  pub unpin_page-UnpinOf :
      (s : BufMgr fs) (free : List ℕ) (file page_no : ℕ) (dirty love_it : Bool)
      → IsValid fs s free
      → UnpinOf s free (key file page_no) dirty love_it (unpin_page fs file page_no dirty love_it s)
  unfolding unpin_page pins set_frame
  unpin_page-UnpinOf s free file page_no dirty love_it v =
      let k = key file page_no in
      let look = lookup-frame_of s.hash_table k in
      elim (Option-cases (frame_of s.hash_table k)) [
        | inl absent ↦
            let miss : BufHash.lookup s.hash_table k ≡ err hash_not_found = look ∙ rw absent refl in
            let run : unpin_page fs file page_no dirty love_it s ≡ (err hash_not_found, s) =
              rw (unpin_page, miss) refl in
            subst (UnpinOf s free k dirty love_it) (sym run) (refl, inl (refl, absent))
        | inr (i, at) ↦
            let hit : BufHash.lookup s.hash_table k ≡ ok i = look ∙ rw at refl in
            let (lt, valid, here) = v.frames k i at in
            elim (Bool-cases ((s.buf_table i).pin_cnt == 0)) [
              | inl idle ↦
                  let run : unpin_page fs file page_no dirty love_it s ≡ (err page_not_pinned, s) =
                    rw (unpin_page, hit, valid, idle) refl in
                  subst (UnpinOf s free k dirty love_it) (sym run)
                    (refl, inr (refl, λ q. cc, ground arith))
              | inr busy ↦ elim (Bool-cases ((s.buf_table i).pin_cnt == 1)) [
                | inl one ↦
                    let r = if love_it then Ring.push_front s.upl i else Ring.push_rear s.upl i in
                    let run : unpin_page fs file page_no dirty love_it s ≡ (
                      ok tt,
                      set_frame fs (record s { upl = r }) i (given s free v k i at dirty),
                    ) =
                      rw (unpin_page, hit, valid, busy, one) refl in
                    let p = left_IsValid s free v k i at dirty love_it (ground arith) in
                    let z : ((s.buf_table i).pin_cnt - 1 == 0) ≡ true = ground arith in
                    subst (UnpinOf s free k dirty love_it) (sym run)
                      (given-Unpins s free v k i at dirty r love_it (ground arith) (rw z p))
                | inr more ↦
                    let run : unpin_page fs file page_no dirty love_it s ≡ (
                      ok tt,
                      set_frame fs (record s { upl = s.upl }) i (given s free v k i at dirty),
                    ) =
                      rw (unpin_page, hit, valid, busy, more) refl in
                    let p = kept_IsValid s free v k i at dirty (ground arith) (ground arith) in
                    let z : ((s.buf_table i).pin_cnt - 1 == 0) ≡ false = ground arith in
                    subst (UnpinOf s free k dirty love_it) (sym run)
                      (given-Unpins s free v k i at dirty s.upl love_it (ground arith) (rw z p))
              ]
            ]
      ]
