-- ===== src/Page/Delete.antt =====
-- `deleteRecord`: the page loses one record, the others read as before, and the slot array is
-- shortened.
use ubase.Base.{
  ℕ, zero, suc, ◌<◌, ◌≡◌, ◌≢◌, ◌⊎◌, ◌↔◌, inl, inr, refl, sym, ap, ◌∙◌, true, none, arith, ltb, leb,
  ◌==◌, if◌then◌else◌, Bool-cases,
}
use ubase.Page.{
  Rid, Slot, empty, used, Page, delete_record, release, trim_page, check_slot, last_is_empty,
  is_empty, trim, shift,
}
use ubase.Page.Slots.{total_drop, Slot-cases, Trims, trim-Trims}
use ubase.Page.Valid.{IsPacked, IsValid, lookup, content}
use ubase.Page.Release.{content-release, release-IsPacked, release_fields, release_slot}
use ubase.Status.{Result, Result-cases, ok, err, invalid_slot_no}

content_empty : (b : ℕ → ℕ) (s : Slot) → is_empty s ≡ true → content b s ≡ none
unfolding content is_empty
content_empty b empty h = refl
content_empty b (used o l) h = cc

-- Shortening the slot array of a page whose last slot is empty.
module _ (q : Page) (c : ℕ) (e : q.slot_cnt ≡ suc c) (v : IsPacked q)
    (hole : is_empty (q.slot c) ≡ true) where
  trimmed : Trims q.slot q.slot_cnt q.free_space (trim q.slot q.slot_cnt q.free_space)
  trimmed = rw e (trim-Trims q.slot c q.free_space hole)

  trim_page-IsValid : IsValid (trim_page q)
  unfolding trim_page
  trim_page-IsValid =
      let t = trimmed in
      record {
        packed = record {
          space = omega (arith, v.space, t.balance);
          compact = omega (arith, v.compact, total_drop q.slot _ q.slot_cnt t.shorter t.dropped);
          inside = λ i o l lt. v.inside i o l (omega (arith, t.shorter));
          apart = λ i j o l o' l' lt lt'.
              v.apart i j o l o' l' (omega (arith, t.shorter)) (omega (arith, t.shorter));
        };
        last = t.last;
      }

  lookup-trim_page : (j : ℕ) → lookup (trim_page q) j ≡ lookup q j
  unfolding lookup trim_page
  lookup-trim_page j =
      let t = trimmed in
      elim (Bool-cases (ltb j (trim q.slot q.slot_cnt q.free_space).0)) [
        | inl lt ↦ ground (arith, t.shorter)
        | inr ge ↦ elim (Bool-cases (ltb j q.slot_cnt)) [
          | inl lt ↦
              rw (ge, lt)
                (sym (content_empty q.bytes (q.slot j) (t.dropped j (ground arith) (ground arith))))
          | inr ge' ↦ rw (ge, ge')
        ]
      ]

-- A slot array without its last slot is as short as before, if the last one stays.
last_is_empty-congr :
    (f g : ℕ → Slot) (c i : ℕ)
    → suc i ≢ c
    → ((j : ℕ) → j < c → j ≢ i → is_empty (g j) ≡ is_empty (f j))
    → last_is_empty g c ≡ last_is_empty f c
unfolding last_is_empty
last_is_empty-congr f g zero i ne h = refl
last_is_empty-congr f g (suc c) i ne h = h c (omega arith) (λ e. ne (ap suc (sym e)))

check_slot-lookup :
    (p : Page) (rid : Rid) (r : Result (ℕ × ℕ))
    → check_slot p rid ≡ r
    → ((lookup p rid.slot_no ≡ none) × (r ≡ err invalid_slot_no))
      ⊎ ((o : ℕ) × (l : ℕ) × (r ≡ ok (o, l))
          × (rid.slot_no < p.slot_cnt)
          × (p.slot rid.slot_no ≡ used o l)
          × (lookup p rid.slot_no ≢ none))
unfolding check_slot lookup content
check_slot-lookup p rid r h = elim (Slot-cases (p.slot rid.slot_no)) [
  | inl e ↦ inl (ground arith, ground arith)
  | inr (o, l, e) ↦ elim (Bool-cases (leb p.slot_cnt rid.slot_no)) [
    | inl q ↦ inl (ground arith, ground arith)
    | inr q ↦ inr (o, l, ground arith, ground arith, e, λ none_there. ground arith)
  ]
]

module _ (p : Page) (i o l : ℕ) (v : IsValid p) (low : i < p.slot_cnt)
    (e : p.slot i ≡ used o l) where
  lookup-release : (j : ℕ) → lookup (release p i o l) j ≡ (if j == i then none else lookup p j)
  unfolding lookup
  lookup-release j =
      let fields = release_fields p i o l v.packed low e in
      elim (Bool-cases (ltb j p.slot_cnt)) [
        | inl lt ↦ rw (fields.0, lt) (content-release p i o l v.packed low e j (ground arith))
        | inr ge ↦ rw (fields.0, ge) (ground arith)
      ]

  cleared : is_empty ((release p i o l).slot i) ≡ true
  unfolding is_empty
  cleared = rw (release_slot p i o l v.packed low e i) (ground arith)

  -- Whether or not the slot array is shortened, the result is valid and lacks the record.
  abbrev Lacks : Page → Type 0
  Lacks p' = IsValid p' × ((j : ℕ) → lookup p' j ≡ (if j == i then none else lookup p j))

  trimmed-Lacks : suc i ≡ p.slot_cnt → Lacks (trim_page (release p i o l))
  trimmed-Lacks at_end =
      let packed = release-IsPacked p i o l v.packed low e in
      let cnt = (release_fields p i o l v.packed low e).0 ∙ sym at_end in
      (
        trim_page-IsValid (release p i o l) i cnt packed cleared,
        λ j. lookup-trim_page (release p i o l) i cnt packed cleared j ∙ lookup-release j,
      )

  kept-Lacks : suc i ≢ p.slot_cnt → Lacks (release p i o l)
  unfolding is_empty shift
  kept-Lacks inner = (
    record {
      packed = release-IsPacked p i o l v.packed low e;
      last = rw (release_fields p i o l v.packed low e).0 (
          last_is_empty-congr p.slot (release p i o l).slot p.slot_cnt i inner
            (λ j lt ne. rw (release_slot p i o l v.packed low e j) (ground arith))
          ∙ v.last);
    },
    lookup-release,
  )

-- A successful `deleteRecord` on a valid page leaves a valid page on which the slot number holds no
-- record and every other one reads as before.
pub lookup-delete_record :
    (p : Page) (rid : Rid) {p' : Page}
    → IsValid p
    → delete_record p rid ≡ ok p'
    → IsValid p' × ((j : ℕ) → lookup p' j ≡ (if j == rid.slot_no then none else lookup p j))
unfolding delete_record
lookup-delete_record p rid {p'} v h = elim (check_slot-lookup p rid (check_slot p rid) refl) [
  | inl (absent, failed) ↦ absurd (ground arith)
  | inr (o, l, done, low, e, present) ↦ elim (Bool-cases (suc rid.slot_no == p.slot_cnt)) [
    | inl q ↦
        let same : p' ≡ trim_page (release p rid.slot_no o l) = ground arith in
        rw same (trimmed-Lacks p rid.slot_no o l v low e (ground arith))
    | inr q ↦
        let same : p' ≡ release p rid.slot_no o l = ground arith in
        rw same (kept-Lacks p rid.slot_no o l v low e (ground arith))
  ]
]

-- `deleteRecord` succeeds exactly on the slot numbers that hold a record, and returns INVALIDSLOTNO
-- on all others.
pub delete_record-IsDefined :
    (p : Page) (rid : Rid)
    → ((lookup p rid.slot_no ≡ none) ↔ (delete_record p rid ≡ err invalid_slot_no))
      × ((lookup p rid.slot_no ≢ none) ↔ ((p' : Page) × (delete_record p rid ≡ ok p')))
unfolding delete_record
delete_record-IsDefined p rid = elim (check_slot-lookup p rid (check_slot p rid) refl) [
  | inl (absent, failed) ↦ (
    ((λ _. ground arith), (λ _. absent)),
    ((λ present. absurd (present absent)), (λ (p', h). absurd (ground arith))),
  )
  | inr (o, l, done, low, e, present) ↦ (
    (λ absent. absurd (present absent), λ failed. absurd (ground arith)),
    (
      λ _. elim (Result-cases (delete_record p rid)) [
        | inl r ↦ r
        | inr (s, failed) ↦ absurd (ground arith)
      ],
      λ _. present,
    ),
  )
]
