-- ===== src/Tests/Pages.antt =====
-- Runs of the page operations of part5/part5/page.C, and the theorems on a page of two records.
use ubase.Base.{ℕ, ◌<◌, ◌≡◌, ◌↔◌, refl, none, some, [], ◌∷◌, get_or, ◌==◌, if◌then◌else◌, arith}
use ubase.Page.{
  Page, Rid, Record, init, insert_record, delete_record, update_record, get_record, place, release,
  find_empty, memcpy, bcopy, set_slot, shift_slots, shift, trim_page, trim, check_slot, read,
}
use ubase.Page.Slot.{empty}
use ubase.Page.Delete.{lookup-delete_record}
use ubase.Page.Insert.{lookup-insert_record, insert_record-HasRoom, HasRoom}
use ubase.Page.Update.{lookup-update_record, update_record-Overruns}
use ubase.Page.Valid.{lookup, IsValid, init-IsValid}
use ubase.Status.{ok, err, no_space}

abbrev blank : Page
blank = record {
  bytes = λ k. 0;
  slot = λ i. empty;
  slot_cnt = 0;
  free_ptr = 0;
  free_space = 0;
  next_page = none;
  cur_page = 0;
}

abbrev rid : ℕ → Rid
rid i = record { page_no = 7; slot_no = i }

abbrev p0 : Page
p0 = init blank 7

abbrev p1 : Page
p1 = place p0 (1 ∷ 2 ∷ 3 ∷ []) 0 7 1

abbrev p2 : Page
p2 = place p1 (4 ∷ 5 ∷ []) 1 6 2

abbrev p3 : Page
p3 = release p2 0 0 3

insert1 : insert_record p0 (1 ∷ 2 ∷ 3 ∷ []) ≡ ok (rid 0, p1)
unfolding insert_record place find_empty memcpy set_slot init
insert1 = refl

insert2 : insert_record p1 (4 ∷ 5 ∷ []) ≡ ok (rid 1, p2)
unfolding insert_record place find_empty memcpy set_slot init
insert2 = refl

delete1 : delete_record p2 (rid 0) ≡ ok p3
unfolding delete_record release place check_slot memcpy bcopy set_slot shift_slots shift trim_page
    trim init
delete1 = refl

moved : get_record p3 (rid 1) ≡ ok (4 ∷ 5 ∷ [])
unfolding get_record read release place memcpy bcopy set_slot shift_slots shift init
moved = refl

p0-IsValid : IsValid p0
p0-IsValid = (init-IsValid blank 7).0

p1-IsValid : IsValid p1
p1-IsValid = (lookup-insert_record p0 (1 ∷ 2 ∷ 3 ∷ []) p0-IsValid (omega arith) insert1).0

p2-IsValid : IsValid p2
p2-IsValid = (lookup-insert_record p1 (4 ∷ 5 ∷ []) p1-IsValid (omega arith) insert2).0

lookup-insert_record_example :
    IsValid p2
    × (7 ≡ p1.cur_page)
    × (lookup p1 1 ≡ none)
    × ((j : ℕ) → lookup p2 j ≡ (if j == 1 then some (4 ∷ 5 ∷ []) else lookup p1 j))
lookup-insert_record_example =
    lookup-insert_record p1 (4 ∷ 5 ∷ []) {rid = rid 1} {p' = p2} p1-IsValid (omega arith) insert2

lookup-delete_record_example :
    IsValid p3 × ((j : ℕ) → lookup p3 j ≡ (if j == 0 then none else lookup p2 j))
lookup-delete_record_example = lookup-delete_record p2 (rid 0) {p' = p3} p2-IsValid delete1

insert_record-HasRoom_example :
    (HasRoom p1 (4 ∷ 5 ∷ []) ↔ ((r : Rid × Page) × (insert_record p1 (4 ∷ 5 ∷ []) ≡ ok r)))
    × ((HasRoom p1 (4 ∷ 5 ∷ []) → ⊥) ↔ (insert_record p1 (4 ∷ 5 ∷ []) ≡ err no_space))
insert_record-HasRoom_example = insert_record-HasRoom p1 (4 ∷ 5 ∷ [])

lookup2 : lookup p2 0 ≡ some (1 ∷ 2 ∷ 3 ∷ [])
unfolding lookup place memcpy set_slot init read
lookup2 = refl

read1 : get_record p1 (rid 0) ≡ ok (1 ∷ 2 ∷ 3 ∷ [])
unfolding get_record read place memcpy set_slot init
read1 = refl

read2 : get_record p2 (rid 1) ≡ ok (4 ∷ 5 ∷ [])
unfolding get_record read place memcpy set_slot init
read2 = refl

low1 : (rid 0).slot_no < p1.slot_cnt
unfolding place
low1 = omega arith

low2 : (rid 1).slot_no < p2.slot_cnt
unfolding place
low2 = omega arith

lookup-update_record_example :
    (p' : Page) × (update_record p2 (9 ∷ 8 ∷ 7 ∷ []) (rid 0) ≡ ok p')
    × IsValid p'
    × ((j : ℕ) → lookup p' j ≡ (if j == 0 then some (9 ∷ 8 ∷ 7 ∷ []) else lookup p2 j))
lookup-update_record_example =
    lookup-update_record p2 (9 ∷ 8 ∷ 7 ∷ []) (rid 0) p2-IsValid lookup2 refl

update_record-Overruns_example :
    (p' : Page) × (r : Record) × (update_record p2 (9 ∷ 8 ∷ 7 ∷ 6 ∷ []) (rid 0) ≡ ok p')
    × (lookup p' 1 ≡ some r)
    × (get_or r 0 0 ≡ 6)
unfolding place set_slot init
update_record-Overruns_example =
    update_record-Overruns p2 (9 ∷ 8 ∷ 7 ∷ 6 ∷ []) (rid 0) 1 0 3 2 p2-IsValid (omega arith)
      (omega arith) refl refl refl
