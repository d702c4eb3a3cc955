-- ===== src/Page.antt =====
-- The slotted page of part5/part5/page.h and page.C.
--
-- `slot[-i]` of the source is `slot i` here, and `slotCnt`, which counts down from 0, is
-- `slot_cnt`, which counts up. The length -1 that marks a free slot is `empty`, the page number -1
-- is `none`. The array `data[]` and the slot array, which grow towards one another in one block of
-- memory, are two functions. A record is the list of its bytes.
mod Bytes
pub mod Slots
pub mod Valid
pub mod Insert
mod Release
pub mod Delete
pub mod Update
pub mod Scan
pub mod Cycle
use ubase.Base.{
  ℕ, zero, suc, ◌+◌, ◌-◌, ◌*◌, Bool, true, false, ◌&&◌, Option, none, some, List, [], ◌∷◌, ltb, leb,
  ◌==◌, if◌then◌else◌, length, get_or,
}
use ubase.Status.{Status, no_space, no_records, end_of_page, invalid_slot_no, Result, ok, err}

-- `struct RID`, for a record that exists
pub record Rid : Type 0 where
  pub page_no : ℕ
  pub slot_no : ℕ

abbrev pub Record : Type 0
Record = List ℕ

pub data Slot : Type 0 where
  empty : Slot
  used : (offset length : ℕ) → Slot

abbrev pub slot_size : ℕ
slot_size = 4

-- sizeof(slot_t) + 4 * sizeof(short) + 2 * sizeof(int)
abbrev pub dp_fixed : ℕ
dp_fixed = 20

abbrev pub page_size : ℕ
page_size = 4096

pub record Page : Type 0 where
  pub bytes : ℕ → ℕ
  pub slot : ℕ → Slot
  pub slot_cnt : ℕ
  pub free_ptr : ℕ
  pub free_space : ℕ
  pub next_page : Option ℕ
  pub cur_page : ℕ

-- `data` and `slot` keep what the memory held.
unfoldable pub init : Page → ℕ → Page
init p page_no = record p {
  next_page = none;
  slot_cnt = 0;
  cur_page = page_no;
  free_ptr = 0;
  free_space = page_size - dp_fixed + slot_size;
}

unfoldable pub set_next_page : Page → Option ℕ → Page
set_next_page p page_no = record p { next_page = page_no }

unfoldable pub get_next_page : Page → Option ℕ
get_next_page p = p.next_page

unfoldable pub get_free_space : Page → ℕ
get_free_space p = p.free_space

-- `memcpy(&data[offset], rec.data, rec.length)`
unfoldable pub memcpy : (ℕ → ℕ) → ℕ → Record → ℕ → ℕ
memcpy bytes offset rec k =
    if leb offset k && ltb k (offset + length rec) then get_or rec (k - offset) 0 else bytes k

-- `bcopy(&data[from], &data[to], cnt)`
unfoldable pub bcopy : (ℕ → ℕ) → (from to cnt : ℕ) → ℕ → ℕ
bcopy bytes from to cnt k =
    if leb to k && ltb k (to + cnt) then bytes (from + (k - to)) else bytes k

unfoldable pub set_slot : (ℕ → Slot) → ℕ → Slot → ℕ → Slot
set_slot slot i s j = if j == i then s else slot j

-- The search for an empty slot, from `i` on, with `k` slots left.
unfoldable pub find_empty : (ℕ → Slot) → (k i : ℕ) → ℕ
find_empty slot zero i = i
find_empty slot (suc k) i = elim (slot i) [ empty ↦ i | used _ _ ↦ find_empty slot k (suc i) ]

-- What `insertRecord` does once it has the slot and the space: `taken` bytes, and a new slot count.
unfoldable pub place : Page → Record → (i taken slot_cnt : ℕ) → Page
unfolding memcpy set_slot
place p rec i taken slot_cnt = record p {
  free_space = p.free_space - taken;
  slot_cnt = slot_cnt;
  slot = set_slot p.slot i (used p.free_ptr (length rec));
  bytes = memcpy p.bytes p.free_ptr rec;
  free_ptr = p.free_ptr + length rec;
}

unfoldable pub insert_record : Page → Record → Result (Rid × Page)
unfolding place find_empty
insert_record p rec =
    let i = find_empty p.slot p.slot_cnt 0 in
    let rid : Rid = record { page_no = p.cur_page; slot_no = i } in
    if i == p.slot_cnt
    then (if ltb p.free_space (length rec + slot_size)
        then err no_space
        else ok (rid, place p rec i (length rec + slot_size) (suc p.slot_cnt)))
    else (if ltb p.free_space (length rec)
        then err no_space
        else ok (rid, place p rec i (length rec) p.slot_cnt))

-- The check that `updateRecord` and `deleteRecord` make: the offset and length of a record.
unfoldable pub check_slot : Page → Rid → Result (ℕ × ℕ)
check_slot p rid = elim (p.slot rid.slot_no) [
  | empty ↦ err invalid_slot_no
  | used offset len ↦ if leb p.slot_cnt rid.slot_no then err invalid_slot_no else ok (offset, len)
]

-- `rec.length` is not compared with the slot's length.
unfoldable pub update_record : Page → Record → Rid → Result Page
unfolding check_slot memcpy
update_record p rec rid = elim (check_slot p rid) [
  | err s ↦ err s
  | ok (offset, len) ↦ ok (record p { bytes = memcpy p.bytes offset rec })
]

unfoldable pub shift : (offset len : ℕ) → Slot → Slot
shift offset len empty = empty
shift offset len (used o l) = if ltb offset o then used (o - len) l else used o l

-- The loop over the `k` slots from `i` on that closes the hole in the offsets.
unfoldable pub shift_slots : (offset len : ℕ) → (k i : ℕ) → (ℕ → Slot) → ℕ → Slot
unfolding shift set_slot
shift_slots offset len zero i slot = slot
shift_slots offset len (suc k) i slot =
    shift_slots offset len k (suc i) (set_slot slot i (shift offset len (slot i)))

-- The record's bytes and slot are given back; the records behind it move up.
unfoldable pub release : Page → (i offset len : ℕ) → Page
unfolding bcopy set_slot shift_slots
release p i offset len =
    let p' = if (offset + len) == p.free_ptr then p else record p {
      bytes = bcopy p.bytes (offset + len) offset (p.free_ptr - (offset + len));
      slot = shift_slots offset len p.slot_cnt 0 p.slot;
    } in
    record p' {
      free_space = p'.free_space + len;
      free_ptr = p'.free_ptr - len;
      slot = set_slot p'.slot i empty;
    }

unfoldable pub is_empty : Slot → Bool
is_empty empty = true
is_empty (used _ _) = false

-- `slotCnt < 0 && slot[slotCnt + 1].length == -1`
unfoldable pub last_is_empty : (ℕ → Slot) → ℕ → Bool
unfolding is_empty
last_is_empty slot zero = false
last_is_empty slot (suc c) = is_empty (slot c)

-- The `do` loop that shortens the slot array: the new slot count and free space.
unfoldable pub trim : (ℕ → Slot) → (slot_cnt free_space : ℕ) → ℕ × ℕ
unfolding last_is_empty
trim slot zero space = (zero, space)
trim slot (suc c) space =
    let rest = trim slot c (space + slot_size) in
    if last_is_empty slot c then rest else (c, space + slot_size)

unfoldable pub trim_page : Page → Page
unfolding trim
trim_page p =
    let (c, space) = trim p.slot p.slot_cnt p.free_space in
    record p { slot_cnt = c; free_space = space }

unfoldable pub delete_record : Page → Rid → Result Page
unfolding check_slot release trim_page
delete_record p rid = elim (check_slot p rid) [
  | err s ↦ err s
  | ok (offset, len) ↦
      let p' = release p rid.slot_no offset len in
      ok (if suc rid.slot_no == p.slot_cnt then trim_page p' else p')
]

-- The loops of `firstRecord` and `nextRecord`: the first used slot from `i` on, with `k` left.
unfoldable pub find_used : (ℕ → Slot) → (k i : ℕ) → Option ℕ
find_used slot zero i = none
find_used slot (suc k) i = elim (slot i) [ empty ↦ find_used slot k (suc i) | used _ _ ↦ some i ]

abbrev pub rid_at : Page → ℕ → Rid
rid_at p i = record { page_no = p.cur_page; slot_no = i }

-- `ok none`: OK is returned, and `firstRid` is not written.
unfoldable pub first_record : Page → Result (Option Rid)
unfolding find_used
first_record p =
    if p.slot_cnt == 0
    then err no_records
    else ok (elim (find_used p.slot p.slot_cnt 0) [ none ↦ none | some i ↦ some (rid_at p i) ])

unfoldable pub next_record : Page → Rid → Result Rid
unfolding find_used
next_record p cur = elim (find_used p.slot (p.slot_cnt - suc cur.slot_no) (suc cur.slot_no)) [
  | none ↦ err end_of_page
  | some i ↦ ok (rid_at p i)
]

-- The `n` bytes from `offset` on.
unfoldable pub read : (ℕ → ℕ) → (offset n : ℕ) → Record
read bytes offset zero = []
read bytes offset (suc n) = bytes offset ∷ read bytes (suc offset) n

-- The slot number is not compared with `slotCnt`.
unfoldable pub get_record : Page → Rid → Result Record
unfolding read
get_record p rid = elim (p.slot rid.slot_no) [
  | empty ↦ err invalid_slot_no
  | used offset len ↦ ok (read p.bytes offset len)
]
