-- ===== src/Page/Cycle.antt =====
-- Operations of part5/part5/page.C, one after the other.
use ubase.Base.{
  some, refl, ◌≢◌, ℕ, ◌<◌, ◌≡◌, ◌≢◌, inl, inr, sym, ap, ◌∙◌, none, arith, ◌==◌, length, Bool-cases,
}
use ubase.Page.{Record, Rid, Page, insert_record, delete_record, get_record}
use ubase.Page.Valid.{IsValid, lookup}
use ubase.Page.Insert.{lookup-insert_record}
use ubase.Page.Delete.{lookup-delete_record, delete_record-IsDefined}
use ubase.Page.Update.{get_record-lookup, lookup-some}
use ubase.Status.{ok, err, invalid_slot_no}

-- After a successful `insertRecord` of a record that is not empty on a valid page, `deleteRecord` of
-- the returned record id succeeds, and the page is valid and holds what it held before.
pub delete_record-insert_record :
    (p : Page) (rec : Record) {rid : Rid} {p' : Page}
    → IsValid p
    → 0 < length rec
    → insert_record p rec ≡ ok (rid, p')
    → (q : Page) × (delete_record p' rid ≡ ok q) × IsValid q × ((j : ℕ) → lookup q j ≡ lookup p j)
delete_record-insert_record p rec {rid} {p'} v filled h =
    let (v', _, absent, look) = lookup-insert_record p rec v filled h in
    let present : lookup p' rid.slot_no ≢ none = λ q. ground (arith, look rid.slot_no) in
    let (q, run) = (delete_record-IsDefined p' rid).1.0 present in
    let (valid, look') = lookup-delete_record p' rid v' run in
    (
      q,
      run,
      valid,
      λ j. look' j ∙ (elim (Bool-cases (j == rid.slot_no)) [
        | inl e ↦
            let same : j ≡ rid.slot_no = ground arith in rw e (sym (ap (lookup p) same ∙ absent))
        | inr e ↦ rw e (rw (look j, e))
      ]),
    )

-- A record of the abstract view is what `getRecord` returns.
lookup-get_record :
    (p : Page) (rid : Rid) {r : Record} → lookup p rid.slot_no ≡ some r → get_record p rid ≡ ok r
lookup-get_record p rid h = get_record-lookup p rid (lookup-some p rid.slot_no h).0 ∙ rw h refl

-- After a successful `insertRecord` of a record that is not empty on a valid page, `getRecord` of the
-- returned record id returns the record. A record that `getRecord` of a slot number below `slotCnt`
-- returned before, it returns after.
pub get_record-insert_record :
    (p : Page) (rec : Record) {rid : Rid} {p' : Page} (other : Rid) {old : Record}
    → IsValid p
    → 0 < length rec
    → insert_record p rec ≡ ok (rid, p')
    → other.slot_no < p.slot_cnt
    → get_record p other ≡ ok old
    → (get_record p' rid ≡ ok rec) × (get_record p' other ≡ ok old)
get_record-insert_record p rec {rid} {p'} other {old} v filled h low before =
    let (_, _, absent, look) = lookup-insert_record p rec v filled h in
    let there : lookup p other.slot_no ≡ some old = ground (arith, get_record-lookup p other low) in
    let kept : lookup p' other.slot_no ≡ some old =
      elim (Bool-cases (other.slot_no == rid.slot_no)) [
        | inl e ↦
            let same : other.slot_no ≡ rid.slot_no = ground arith in
            absurd (ground (arith, ap (lookup p) same))
        | inr e ↦ ground (arith, look other.slot_no)
      ] in
    (lookup-get_record p' rid (ground (arith, look rid.slot_no)), lookup-get_record p' other kept)

-- After a successful `deleteRecord` on a valid page, `getRecord` of every other record that is on the
-- page still returns it, and a second `deleteRecord` of the same record id returns INVALIDSLOTNO.
pub get_record-delete_record :
    (p : Page) (rid : Rid) {p' : Page} (other : Rid) {old : Record}
    → IsValid p
    → delete_record p rid ≡ ok p'
    → other.slot_no < p.slot_cnt
    → other.slot_no ≢ rid.slot_no
    → get_record p other ≡ ok old
    → (get_record p' other ≡ ok old) × (delete_record p' rid ≡ err invalid_slot_no)
get_record-delete_record p rid {p'} other {old} v h low ne before =
    let (_, look) = lookup-delete_record p rid v h in
    let there : lookup p other.slot_no ≡ some old = ground (arith, get_record-lookup p other low) in
    (
      lookup-get_record p' other (ground (arith, look other.slot_no)),
      (delete_record-IsDefined p' rid).0.0 (ground (arith, look rid.slot_no)),
    )
