-- ===== src/Page/Insert.antt =====
-- `insertRecord`: the page gains one record, and nothing else changes.
use ubase.Base.{
  ℕ, suc, ◌+◌, ◌*◌, ◌≤◌, ◌<◌, ◌≡◌, ◌≢◌, ◌⊎◌, ◌↔◌, inl, inr, refl, ap, none, some, arith, ltb, ◌==◌,
  if◌then◌else◌, length, Bool-cases,
}
use ubase.Page.{
  rid_at, Record, Rid, empty, used, Page, slot_size, insert_record, place, set_slot, find_empty,
  is_empty,
}
use ubase.Page.Bytes.{read-memcpy, read-memcpy_apart}
use ubase.Page.Slots.{
  total, size, total-set_slot, total_congr, find_empty_bounds, find_empty-IsEmpty, find_empty_least,
  last-set_used, Slot-cases,
}
use ubase.Page.Valid.{IsValid, lookup, content}
use ubase.Status.{Result-cases, ok, err, no_space}

-- The two ways in which a slot is chosen, and the space that it takes.
record Takes (p : Page) (rec : Record) (i taken cnt : ℕ) : Type 0 where
  fits : taken ≤ p.free_space
  bound : i < cnt
  free : (i ≡ p.slot_cnt) ⊎ ((i < p.slot_cnt) × (p.slot i ≡ empty))
  grown : (cnt ≡ p.slot_cnt) ⊎ ((i ≡ p.slot_cnt) × (cnt ≡ suc p.slot_cnt))
  exact : taken + slot_size * p.slot_cnt ≡ length rec + slot_size * cnt

module _ (p : Page) (rec : Record) (i taken cnt : ℕ) (v : IsValid p) (filled : 0 < length rec)
    (t : Takes p rec i taken cnt) where
  place_old :
      (j o l : ℕ)
      → j < cnt
      → j ≢ i
      → (place p rec i taken cnt).slot j ≡ used o l
      → (j < p.slot_cnt) × (p.slot j ≡ used o l)
  unfolding place set_slot
  place_old j o l lt ne e = ground (arith, t.grown)

  place-total : total (place p rec i taken cnt).slot cnt ≡ p.free_ptr + length rec
  unfolding place total size set_slot
  place-total = elim t.grown [
    | inl e ↦
        let free : p.slot i ≡ empty = ground (arith, t.free, t.bound) in
        ground (
          arith,
          v.compact,
          total-set_slot p.slot p.slot_cnt i (used p.free_ptr (length rec))
              (omega (arith, t.bound)),
        )
    | inr (e, e') ↦
        let rest =
          total_congr (set_slot p.slot i (used p.free_ptr (length rec))) p.slot p.slot_cnt
            (λ j lt. ground arith) in
        rw e' (ground (arith, v.compact, rest))
  ]

  place-IsValid : IsValid (place p rec i taken cnt)
  unfolding place set_slot
  place-IsValid = record {
    packed = record {
      space = omega (arith, v.space, t.fits, t.exact);
      compact = place-total;
      inside = λ j o l lt e. elim (Bool-cases (j == i)) [
        | inl q ↦ ground arith
        | inr q ↦
            let (low, old) = place_old j o l lt (ground arith) e in
            let fits = v.inside j o l low old in omega arith
      ];
      apart = λ j k o l o' l' lt lt' ne e e'. elim (Bool-cases (j == i)) [
        | inl q ↦
            let (low, old) = place_old k o' l' lt' (ground arith) e' in
            let fits = v.inside k o' l' low old in ground arith
        | inr q ↦ elim (Bool-cases (k == i)) [
          | inl q' ↦
              let (low, old) = place_old j o l lt (ground arith) e in
              let fits = v.inside j o l low old in ground arith
          | inr q' ↦
              let (low, old) = place_old j o l lt (ground arith) e in
              let (low', old') = place_old k o' l' lt' (ground arith) e' in
              v.apart j k o l o' l' low low' ne old old'
        ]
      ];
    };
    last = last-set_used p.slot cnt i p.free_ptr (length rec) (ground (arith, t.grown, v.last));
  }

  place-lookup :
      (j : ℕ) → lookup (place p rec i taken cnt) j ≡ (if j == i then some rec else lookup p j)
  unfolding lookup content place set_slot
  place-lookup j = elim (Bool-cases (j == i)) [
    | inl q ↦ ground (arith, t.bound, read-memcpy p.bytes p.free_ptr rec)
    | inr q ↦ elim (Slot-cases (p.slot j)) [
      | inl e ↦ ground (arith, t.grown)
      | inr (o, l, e) ↦ elim (Bool-cases (ltb j p.slot_cnt)) [
        | inl lt ↦
            let fits = v.inside j o l (ground arith) e in
            ground (arith, t.grown, read-memcpy_apart p.bytes p.free_ptr rec o l (inl fits.1))
        | inr ge ↦ ground (arith, t.grown)
      ]
    ]
  ]

  place_absent : lookup p i ≡ none
  unfolding lookup content
  place_absent = ground (arith, t.free)

-- What a successful call did.
insert_record-Takes :
    (p : Page) (rec : Record) {rid : Rid} {p' : Page}
    → insert_record p rec ≡ ok (rid, p')
    → (taken : ℕ) × (cnt : ℕ) × Takes p rec rid.slot_no taken cnt
      × (rid ≡ rid_at p rid.slot_no)
      × (p' ≡ place p rec rid.slot_no taken cnt)
unfolding insert_record
insert_record-Takes p rec {rid} {p'} h =
    let i = find_empty p.slot p.slot_cnt 0 in
    let bounds = find_empty_bounds p.slot p.slot_cnt 0 in
    elim (Bool-cases (i == p.slot_cnt)) [
      | inl e ↦ (
        length rec + slot_size,
        suc p.slot_cnt,
        record {
          fits = ground arith;
          bound = ground arith;
          free = ground arith;
          grown = ground arith;
          exact = omega arith;
        },
        ground arith,
        ground arith,
      )
      | inr e ↦
          let hole = find_empty-IsEmpty p.slot p.slot_cnt 0 (ground arith) in
          (
            length rec,
            p.slot_cnt,
            record {
              fits = ground arith;
              bound = ground arith;
              free = ground arith;
              grown = inl refl;
              exact = refl;
            },
            ground arith,
            ground arith,
          )
    ]

-- A successful `insertRecord` of a record that is not empty on a valid page returns the page's number
-- and a slot number that held no record. The page stays valid, the new record reads at that slot
-- number, and every other slot number reads as before.
pub lookup-insert_record :
    (p : Page) (rec : Record) {rid : Rid} {p' : Page}
    → IsValid p
    → 0 < length rec
    → insert_record p rec ≡ ok (rid, p')
    → IsValid p'
      × (rid.page_no ≡ p.cur_page)
      × (lookup p rid.slot_no ≡ none)
      × ((j : ℕ) → lookup p' j ≡ (if j == rid.slot_no then some rec else lookup p j))
lookup-insert_record p rec {rid} {p'} v filled h =
    let (taken, cnt, t, here, e) = insert_record-Takes p rec h in
    rw e (
      place-IsValid p rec rid.slot_no taken cnt v filled t,
      ap (λ r. r.page_no) here,
      place_absent p rec rid.slot_no taken cnt v filled t,
      place-lookup p rec rid.slot_no taken cnt v filled t,
    )

-- The record fits beside a new slot entry, or it fits and a slot is empty.
abbrev pub HasRoom : Page → Record → Type 0
HasRoom p rec =
    (length rec + slot_size ≤ p.free_space)
    ⊎ ((length rec ≤ p.free_space) × (j : ℕ) × (j < p.slot_cnt) × (p.slot j ≡ empty))

insert_record_cases :
    (p : Page) (rec : Record)
    → (HasRoom p rec × (r : Rid × Page) × (insert_record p rec ≡ ok r))
      ⊎ ((HasRoom p rec → ⊥) × (insert_record p rec ≡ err no_space))
unfolding insert_record is_empty
insert_record_cases p rec =
    let i = find_empty p.slot p.slot_cnt 0 in
    let bounds = find_empty_bounds p.slot p.slot_cnt 0 in
    let hole = find_empty-IsEmpty p.slot p.slot_cnt 0 in
    elim (Result-cases (insert_record p rec)) [
      | inl (r, e) ↦ elim (Bool-cases (i == p.slot_cnt)) [
        | inl new ↦ inl (inl (ground arith), r, e)
        | inr old ↦ inl (inr (ground arith, i, ground arith, hole (ground arith)), r, e)
      ]
      | inr (s, e) ↦ inr (
        λ room. elim room [
          | inl fits ↦ ground arith
          | inr (fits, j, lt, empty_j) ↦
              let found = find_empty_least p.slot p.slot_cnt 0 j (omega arith) in
              ground (arith, found)
        ],
        ground arith,
      )
    ]

-- `insertRecord` succeeds exactly if the record fits beside a new slot entry, or fits and there is an
-- empty slot; it returns NOSPACE exactly if neither holds.
pub insert_record-HasRoom :
    (p : Page) (rec : Record)
    → (HasRoom p rec ↔ ((r : Rid × Page) × (insert_record p rec ≡ ok r)))
      × ((HasRoom p rec → ⊥) ↔ (insert_record p rec ≡ err no_space))
insert_record-HasRoom p rec = elim (insert_record_cases p rec) [
  | inl (room, r, e) ↦
      ((λ _. (r, e), λ _. room), (λ full. absurd (full room), λ e'. absurd (ground arith)))
  | inr (full, e) ↦ ((λ room. absurd (full room), λ r. absurd (ground arith)), (λ _. e, λ _. full))
]
