-- ===== src/Page/Update.antt =====
-- `getRecord` and `updateRecord`: reading and overwriting a record in place.
use ubase.Base.{
  ℕ, zero, suc, ◌+◌, ◌-◌, ◌<◌, ◌≡◌, inl, inr, refl, ap, ◌∙◌, none, some, arith, ltb, ◌==◌,
  if◌then◌else◌, length, get_or, Bool-cases,
}
use ubase.Page.{Record, Rid, used, Page, update_record, get_record, check_slot, memcpy, read}
use ubase.Page.Bytes.{read-memcpy, read-memcpy_apart, length-read}
use ubase.Page.Slots.{Slot-cases}
use ubase.Page.Valid.{IsValid, lookup, content}
use ubase.Status.{ok, err, invalid_slot_no}

-- On the slot numbers below `slotCnt`, `getRecord` returns the record that the slot number holds, and
-- INVALIDSLOTNO if it holds none.
pub get_record-lookup :
    (p : Page) (rid : Rid)
    → rid.slot_no < p.slot_cnt
    → get_record p rid
      ≡ (elim (lookup p rid.slot_no) [ none ↦ err invalid_slot_no | some r ↦ ok r ])
unfolding get_record lookup content
get_record-lookup p rid lt = ground arith

-- A slot number that holds a record, with the place of the record.
pub lookup-some :
    (p : Page) (i : ℕ) {r : Record}
    → lookup p i ≡ some r
    → (i < p.slot_cnt)
      × ((o : ℕ) × (p.slot i ≡ used o (length r)) × (r ≡ read p.bytes o (length r)))
unfolding lookup content
lookup-some p i {r} h = elim (Slot-cases (p.slot i)) [
  | inl e ↦ absurd (ground arith)
  | inr (o, l, e) ↦
      let same : r ≡ read p.bytes o l = ground arith in
      let len : length r ≡ l = rw same (length-read p.bytes o l) in
      (ground arith, (o, rw len e, rw len same))
]

lookup-memcpy :
    (p : Page) (rec : Record) (i o : ℕ)
    → IsValid p
    → i < p.slot_cnt
    → p.slot i ≡ used o (length rec)
    → (j : ℕ)
    → lookup (record p { bytes = memcpy p.bytes o rec }) j
      ≡ (if j == i then some rec else lookup p j)
unfolding lookup content
lookup-memcpy p rec i o v low e j = elim (Bool-cases (j == i)) [
  | inl q ↦
      let same : j ≡ i = ground arith in ground (arith, ap p.slot same, read-memcpy p.bytes o rec)
  | inr q ↦ elim (Slot-cases (p.slot j)) [
    | inl e' ↦ ground arith
    | inr (o', l', e') ↦ elim (Bool-cases (ltb j p.slot_cnt)) [
      | inl lt ↦
          let gap = v.apart j i o' l' o (length rec) (ground arith) low (ground arith) e' e in
          ground (arith, read-memcpy_apart p.bytes o rec o' l' gap)
      | inr ge ↦ ground arith
    ]
  ]
]

get_or-read : (f : ℕ → ℕ) (a n : ℕ) → 0 < n → get_or (read f a n) 0 0 ≡ f a
unfolding read
get_or-read f a zero h = absurd (omega arith)
get_or-read f a (suc n) h = refl

update_record-copies :
    (p : Page) (rec : Record) (rid : Rid) {o l : ℕ}
    → rid.slot_no < p.slot_cnt
    → p.slot rid.slot_no ≡ used o l
    → update_record p rec rid ≡ ok (record p { bytes = memcpy p.bytes o rec })
unfolding update_record check_slot
update_record-copies p rec rid low e = ground arith

-- `updateRecord` of a slot number that holds a record, by a record of the same length, succeeds; the
-- page stays valid, the new record reads at the slot number, and every other slot number reads as
-- before.
pub lookup-update_record :
    (p : Page) (rec : Record) (rid : Rid) {old : Record}
    → IsValid p
    → lookup p rid.slot_no ≡ some old
    → length rec ≡ length old
    → (p' : Page) × (update_record p rec rid ≡ ok p')
      × IsValid p'
      × ((j : ℕ) → lookup p' j ≡ (if j == rid.slot_no then some rec else lookup p j))
lookup-update_record p rec rid {old} v h same =
    let (low, (o, e, _)) = lookup-some p rid.slot_no h in
    (
      record p { bytes = memcpy p.bytes o rec },
      update_record-copies p rec rid low e,
      record {
        packed = record {
          space = v.space;
          compact = v.compact;
          inside = v.inside;
          apart = v.apart;
        };
        last = v.last;
      },
      lookup-memcpy p rec rid.slot_no o v low (rw same e),
    )

-- On a valid page, a record that is one byte longer than the one that it replaces is copied whole:
-- `updateRecord` returns OK, and the first byte of the record that lies right behind is then the
-- last byte of the new record.
pub update_record-Overruns :
    (p : Page) (rec : Record) (rid : Rid) (j o l l' : ℕ)
    → IsValid p
    → rid.slot_no < p.slot_cnt
    → j < p.slot_cnt
    → p.slot rid.slot_no ≡ used o l
    → p.slot j ≡ used (o + l) l'
    → length rec ≡ suc l
    → (p' : Page) × (r : Record) × (update_record p rec rid ≡ ok p')
      × (lookup p' j ≡ some r)
      × (get_or r 0 0 ≡ get_or rec l 0)
unfolding lookup content memcpy
update_record-Overruns p rec rid j o l l' v low low' e e' long = (
  record p { bytes = memcpy p.bytes o rec },
  read (memcpy p.bytes o rec) (o + l) l',
  update_record-copies p rec rid low e,
  ground arith,
  get_or-read (memcpy p.bytes o rec) (o + l) l' (v.inside j (o + l) l' low' e').0
      ∙ (let same : o + l - o ≡ l = omega arith in ground (arith, ap (λ k. get_or rec k 0) same)),
)
