-- ===== src/Page/Scan.antt =====
-- `firstRecord` and `nextRecord`: the records of a page in the order of their slot numbers.
use ubase.Base.{
  ℕ, zero, suc, ◌+◌, ◌-◌, ◌≤◌, ◌<◌, ◌≡◌, ◌≢◌, inl, inr, refl, true, false, Option, none, some,
  arith, ltb, ◌==◌, Bool-cases,
}
use ubase.Page.{
  Rid, Slot, Page, first_record, next_record, find_used, is_empty, rid_at, last_is_empty,
}
use ubase.Page.Slots.{Found, find_used-Found}
use ubase.Page.Valid.{IsValid, lookup, content}
use ubase.Status.{Result, ok, err, no_records, end_of_page}

lookup_absent : (p : Page) (j : ℕ) → is_empty (p.slot j) ≡ true → lookup p j ≡ none
unfolding lookup content is_empty
lookup_absent p j h = ground arith

lookup_present :
    (p : Page) (j : ℕ) → j < p.slot_cnt → is_empty (p.slot j) ≡ false → lookup p j ≢ none
unfolding lookup content is_empty
lookup_present p j lt h = λ q. ground arith

lookup_outside : (p : Page) (j : ℕ) → p.slot_cnt ≤ j → lookup p j ≡ none
unfolding lookup
lookup_outside p j h = ground arith

-- The first slot number from `i` on that holds a record.
pub record IsFirst (p : Page) (i : ℕ) (rid : Rid) : Type 0 where
  pub page : rid.page_no ≡ p.cur_page
  pub from : i ≤ rid.slot_no
  pub present : lookup p rid.slot_no ≢ none
  pub before : (j : ℕ) → i ≤ j → j < rid.slot_no → lookup p j ≡ none

abbrev NoneFrom : Page → ℕ → Type 0
NoneFrom p i = (j : ℕ) → i ≤ j → lookup p j ≡ none

Found-IsFirst :
    (p : Page) (i limit m : ℕ)
    → m < p.slot_cnt
    → Found p.slot i limit (some m)
    → IsFirst p i (rid_at p m)
Found-IsFirst p i limit m le (low, high, there, before) = record {
  page = refl;
  from = low;
  present = lookup_present p m le there;
  before = λ j a b. lookup_absent p j (before j a b);
}

Found-NoneFrom :
    (p : Page) (i limit : ℕ) → p.slot_cnt ≤ limit → Found p.slot i limit none → NoneFrom p i
Found-NoneFrom p i limit le found j low = elim (Bool-cases (ltb j limit)) [
  | inl lt ↦ lookup_absent p j (found j low (ground arith))
  | inr ge ↦ lookup_outside p j (ground arith)
]

-- What `nextRecord` may answer: the next record behind the current one, or ENDOFPAGE if there is none.
abbrev pub NextOf : Page → Rid → Result Rid → Type 0
NextOf p cur (ok rid) = IsFirst p (suc cur.slot_no) rid
NextOf p cur (err s) = (s ≡ end_of_page) × ((j : ℕ) → suc cur.slot_no ≤ j → lookup p j ≡ none)

-- `nextRecord` returns the first record behind the current slot number, and ENDOFPAGE only if there
-- is none.
pub next_record-NextOf : (p : Page) (cur : Rid) → NextOf p cur (next_record p cur)
unfolding next_record
next_record-NextOf p cur =
    let i = suc cur.slot_no in
    let k = p.slot_cnt - suc cur.slot_no in
    go (find_used p.slot k i) (find_used-Found p.slot k i (i + k) refl)
  where
    go :
        (r : Option ℕ)
        → Found p.slot (suc cur.slot_no) (suc cur.slot_no + (p.slot_cnt - suc cur.slot_no)) r
        → NextOf p cur (elim r [ none ↦ err end_of_page | some i ↦ ok (rid_at p i) ])
    go none found = (refl, Found-NoneFrom p _ _ (omega arith) found)
    go (some m) found = Found-IsFirst p _ _ m (omega arith) found

last_used :
    (slot : ℕ → Slot) (c : ℕ)
    → last_is_empty slot c ≡ false
    → c ≢ 0
    → (j : ℕ) × (j < c) × (is_empty (slot j) ≡ false)
unfolding last_is_empty
last_used slot zero h ne = absurd (ne refl)
last_used slot (suc c) h ne = (c, omega arith, h)

-- What `firstRecord` may answer: the first record, or NORECORDS if there is none.
abbrev pub FirstOf : Page → Result (Option Rid) → Type 0
FirstOf p (ok (some rid)) = IsFirst p 0 rid
FirstOf p (ok none) = ⊥
FirstOf p (err s) = (s ≡ no_records) × ((j : ℕ) → lookup p j ≡ none)

-- On a valid page `firstRecord` returns the first record, and NORECORDS only if the page holds none.
-- It never returns OK without writing its result.
pub first_record-FirstOf : (p : Page) → IsValid p → FirstOf p (first_record p)
unfolding first_record
first_record-FirstOf p v = elim (Bool-cases (p.slot_cnt == 0)) [
  | inl e ↦ rw e (refl, λ j. lookup_outside p j (ground arith))
  | inr e ↦
      let there = last_used p.slot p.slot_cnt v.last (ground arith) in
      rw e (
        go there (find_used p.slot p.slot_cnt 0)
          (find_used-Found p.slot p.slot_cnt 0 p.slot_cnt (omega arith)))
]
  where
    go :
        (c : ℕ) × (c < p.slot_cnt) × (is_empty (p.slot c) ≡ false)
        → (r : Option ℕ) → Found p.slot 0 p.slot_cnt r
        → FirstOf p (ok (elim r [ none ↦ none | some i ↦ some (rid_at p i) ]))
    go (c, lt, there) none found = let gone = found c (omega arith) lt in cc
    go there (some m) found = Found-IsFirst p 0 _ m found.1 found
