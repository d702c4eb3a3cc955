-- ===== src/HeapFile/Scan/Position.antt =====
-- How a scan steps on within a page, and the records that are left there.
use mathlib.Core.Path.{subst}
use ubase.Base.{
  ℕ, suc, ◌+◌, ◌-◌, ◌≡◌, ◌⊎◌, inl, inr, refl, sym, ap, ◌∙◌, false, Option, none, some, [], ◌∷◌,
  arith, ◌==◌, if◌then◌else◌, Bool-cases,
}
use ubase.HeapFile.Scan.{advance_on, widen}
use ubase.HeapFile.Scan.Records.{records, behind, records_after, FoundIn, find_used-FoundIn}
use ubase.Page.{Page, used, Rid, read, rid_at, find_used, first_record, next_record}
use ubase.Page.Scan.{FirstOf, first_record-FirstOf}
use ubase.Page.Valid.{IsValid}
use ubase.Status.{Result, ok, err, no_records, end_of_page}

-- What the step may answer, given the position before it.
abbrev pub AdvanceOf : Page → Option Rid → Result (Option Rid) → Type 0
AdvanceOf p cur (err e) = ((e ≡ no_records) ⊎ (e ≡ end_of_page)) × (records_after p cur ≡ [])
AdvanceOf p cur (ok none) = ⊥
AdvanceOf p cur (ok (some rid)) =
    (o : ℕ) × (l : ℕ) × (p.slot rid.slot_no ≡ used o l)
    × (records_after p cur ≡ (rid, read p.bytes o l) ∷ records_after p (some rid))

found :
    (p : Page) (cur : Option Rid) (m : ℕ)
    → FoundIn p (p.slot_cnt - behind cur) (behind cur) (some m)
    → AdvanceOf p cur (ok (some (rid_at p m)))
found p cur m (o, l, s, low, high, same) =
    let total : behind cur + (p.slot_cnt - behind cur) ≡ p.slot_cnt = omega arith in
    (o, l, s, same ∙ ap (λ k. (rid_at p m, read p.bytes o l) ∷ records p (k - suc m) (suc m)) total)

advance_first : (p : Page) → IsValid p → AdvanceOf p none (first_record p)
unfolding first_record
advance_first p v = elim (Bool-cases (p.slot_cnt == 0)) [
  | inl e ↦
      let none_there : p.slot_cnt - 0 ≡ 0 = ground arith in
      rw e (inl refl, ap (λ k. records p k 0) none_there)
  | inr e ↦ rw e (go (find_used p.slot p.slot_cnt 0) (find_used-FoundIn p p.slot_cnt 0) (written e))
]
  where
    written :
        (p.slot_cnt == 0) ≡ false
        → FirstOf p
            (ok (elim (find_used p.slot p.slot_cnt 0) [ none ↦ none | some i ↦ some (rid_at p i) ]))
    written e =
        subst
          (λ b. FirstOf p (
            if b
            then err no_records
            else ok (elim (find_used p.slot p.slot_cnt 0) [
              | none ↦ none
              | some i ↦ some (rid_at p i)
            ])))
          e (first_record-FirstOf p v)

    go :
        (r : Option ℕ)
        → FoundIn p p.slot_cnt 0 r
        → FirstOf p (ok (elim r [ none ↦ none | some i ↦ some (rid_at p i) ]))
        → AdvanceOf p none (ok (elim r [ none ↦ none | some i ↦ some (rid_at p i) ]))
    go none h w = w
    go (some m) h w =
        let whole : p.slot_cnt - 0 ≡ p.slot_cnt = omega arith in
        found p none m (subst (λ k. FoundIn p k 0 (some m)) (sym whole) h)

advance_next : (p : Page) (cur : Rid) → AdvanceOf p (some cur) (widen (next_record p cur))
unfolding next_record
advance_next p cur =
    let k = p.slot_cnt - suc cur.slot_no in
    go (find_used p.slot k (suc cur.slot_no)) (find_used-FoundIn p k (suc cur.slot_no))
  where
    go :
        (r : Option ℕ)
        → FoundIn p (p.slot_cnt - suc cur.slot_no) (suc cur.slot_no) r
        → AdvanceOf p
            (some cur)
            (widen (elim r [ none ↦ err end_of_page | some i ↦ ok (rid_at p i) ]))
    go none h = (inr refl, h)
    go (some m) h = found p (some cur) m h

pub advance_on-AdvanceOf :
    (p : Page) (cur : Option Rid) → IsValid p → AdvanceOf p cur (advance_on p cur)
unfolding advance_on
advance_on-AdvanceOf p none v = advance_first p v
advance_on-AdvanceOf p (some cur) v = advance_next p cur
