-- ===== src/Page/Release.antt =====
-- The part of `deleteRecord` that gives back a record: its slot becomes empty, the records behind it
-- move, and every other slot reads as before.
use ubase.Base.{
  ℕ, ◌+◌, ◌-◌, ◌≤◌, ◌<◌, ◌≡◌, ◌≢◌, ◌⊎◌, inl, inr, sym, none, arith, ltb, ◌==◌, if◌then◌else◌,
  Bool-cases,
}
use ubase.Page.{empty, used, Page, release, shift, set_slot, read}
use ubase.Page.Bytes.{read-bcopy_below, read-bcopy_moved}
use ubase.Page.Slots.{total, size, total-set_slot, total_congr, Slot-cases, shift_slots_lem}
use ubase.Page.Valid.{IsPacked, content}

module _ (p : Page) (i o l : ℕ) (v : IsPacked p) (low : i < p.slot_cnt)
    (e : p.slot i ≡ used o l) where
  -- Where another record goes.
  abbrev moved : ℕ → ℕ
  moved o' = if ltb o o' then o' - l else o'

  pub release_slot :
      (j : ℕ)
      → (release p i o l).slot j ≡ (
          if j == i
          then empty
          else if (o + l) == p.free_ptr
          then p.slot j
          else if ltb j p.slot_cnt
          then shift o l (p.slot j)
          else p.slot j)
  unfolding release set_slot
  release_slot j = ground (arith, shift_slots_lem p.slot o l p.slot_cnt 0 j)

  release_old :
      (j o' l' : ℕ)
      → j < p.slot_cnt
      → j ≢ i
      → p.slot j ≡ used o' l'
      → (release p i o l).slot j ≡ used (moved o') l'
  unfolding shift
  release_old j o' l' lt ne e' =
      let own = v.inside i o l low e in
      let fits = v.inside j o' l' lt e' in
      let gap = v.apart i j o l o' l' low lt (λ q. ne (sym q)) e e' in
      rw (release_slot j) (ground arith)

  release_none : (j : ℕ) → p.slot j ≡ empty → (release p i o l).slot j ≡ empty
  unfolding shift
  release_none j e' = rw (release_slot j) (ground arith)

  release_new :
      (j a n : ℕ)
      → j < p.slot_cnt
      → (release p i o l).slot j ≡ used a n
      → (j ≢ i) × ((o' : ℕ) × (p.slot j ≡ used o' n) × (a ≡ moved o'))
  release_new j a n lt h = elim (Bool-cases (j == i)) [
    | inl q ↦ absurd (ground (arith, release_slot j))
    | inr q ↦ elim (Slot-cases (p.slot j)) [
      | inl bare ↦ absurd (ground (arith, release_none j bare))
      | inr (o', l', e') ↦
          let old = release_old j o' l' lt (ground arith) e' in
          (ground arith, (o', ground arith, ground arith))
    ]
  ]

  read-release :
      (j o' l' : ℕ)
      → j < p.slot_cnt
      → j ≢ i
      → p.slot j ≡ used o' l'
      → read (release p i o l).bytes (moved o') l' ≡ read p.bytes o' l'
  unfolding release
  read-release j o' l' lt ne e' =
      let own = v.inside i o l low e in
      let fits = v.inside j o' l' lt e' in
      let gap = v.apart i j o l o' l' low lt (λ q. ne (sym q)) e e' in
      let cnt = p.free_ptr - (o + l) in
      elim (Bool-cases ((o + l) == p.free_ptr)) [
        | inl q ↦ ground arith
        | inr q ↦ elim (Bool-cases (ltb o o')) [
          | inl after ↦
              let same = read-bcopy_moved p.bytes o l cnt o' l' (ground arith) (omega arith) in
              ground (arith, same)
          | inr before ↦
              let same = read-bcopy_below p.bytes (o + l) o cnt o' l' (ground arith) in
              ground (arith, same)
        ]
      ]

  pub content-release :
      (j : ℕ)
      → j < p.slot_cnt
      → content (release p i o l).bytes ((release p i o l).slot j)
        ≡ (if j == i then none else content p.bytes (p.slot j))
  unfolding content
  content-release j lt = elim (Bool-cases (j == i)) [
    | inl q ↦ rw (release_slot j) (ground arith)
    | inr q ↦ elim (Slot-cases (p.slot j)) [
      | inl bare ↦ rw (release_none j bare, bare) (ground arith)
      | inr (o', l', e') ↦
          rw (release_old j o' l' lt (ground arith) e', e')
            (ground (arith, read-release j o' l' lt (ground arith) e'))
    ]
  ]

  total-release : total (release p i o l).slot p.slot_cnt + l ≡ p.free_ptr
  unfolding size set_slot
  total-release =
      let cleared = total-set_slot p.slot p.slot_cnt i empty low in
      let same = total_congr (release p i o l).slot (set_slot p.slot i empty) p.slot_cnt (λ j lt.
        elim (Bool-cases (j == i)) [
          | inl q ↦ rw (release_slot j) (ground arith)
          | inr q ↦ elim (Slot-cases (p.slot j)) [
            | inl bare ↦ rw (release_none j bare) (ground arith)
            | inr (o', l', e') ↦ rw (release_old j o' l' lt (ground arith) e') (ground arith)
          ]
        ]) in
      ground (arith, v.compact)

  pub release_fields :
      ((release p i o l).slot_cnt ≡ p.slot_cnt)
      × ((release p i o l).free_ptr ≡ p.free_ptr - l)
      × ((release p i o l).free_space ≡ p.free_space + l)
  unfolding release
  release_fields = ground arith

  release_inside :
      (j a n : ℕ)
      → j < p.slot_cnt
      → (release p i o l).slot j ≡ used a n
      → (0 < n) × (a + n ≤ p.free_ptr - l)
  release_inside j a n lt h =
      let (ne, (o', e', place)) = release_new j a n lt h in
      let own = v.inside i o l low e in
      let fits = v.inside j o' n lt e' in
      let gap = v.apart i j o l o' n low lt (λ q. ne (sym q)) e e' in ground arith

  release_apart :
      (j k a n a' n' : ℕ)
      → j < p.slot_cnt
      → k < p.slot_cnt
      → j ≢ k
      → (release p i o l).slot j ≡ used a n
      → (release p i o l).slot k ≡ used a' n'
      → (a + n ≤ a') ⊎ (a' + n' ≤ a)
  release_apart j k a n a' n' lt lt' apart h h' =
      let (ne, (b, e', place)) = release_new j a n lt h in
      let (ne', (b', e'', place')) = release_new k a' n' lt' h' in
      let fits = v.inside j b n lt e' in
      let fits' = v.inside k b' n' lt' e'' in
      let gap = v.apart i j o l b n low lt (λ q. ne (sym q)) e e' in
      let gap' = v.apart i k o l b' n' low lt' (λ q. ne' (sym q)) e e'' in
      let between = v.apart j k b n b' n' lt lt' apart e' e'' in ground arith

  pub release-IsPacked : IsPacked (release p i o l)
  release-IsPacked =
      let (cnt, ptr, space) = release_fields in
      let own = v.inside i o l low e in
      record {
        space = omega (arith, v.space);
        compact = rw (cnt, ptr) (omega (arith, total-release));
        inside = λ j a n lt h. rw ptr (release_inside j a n (rw cnt at lt) h);
        apart = λ j k a n a' n' lt lt'. release_apart j k a n a' n' (rw cnt at lt) (rw cnt at lt');
      }
