-- ===== src/Page/Valid.antt =====
-- The invariant of a slotted page and the records that it holds.
use ubase.Base.{
  ℕ, ◌+◌, ◌-◌, ◌*◌, ◌≤◌, ◌<◌, ◌≡◌, ◌≢◌, ◌⊎◌, refl, false, Option, none, some, arith, ltb,
  if◌then◌else◌,
}
use ubase.Page.{
  Record, Slot, empty, used, Page, slot_size, page_size, dp_fixed, init, read, last_is_empty,
}
use ubase.Page.Slots.{total}

-- What a slot stands for: the bytes of its record, if it is used.
unfoldable pub content : (ℕ → ℕ) → Slot → Option Record
content bytes empty = none
content bytes (used o l) = some (read bytes o l)

-- The records of a page, by slot number: the abstract view of the page.
unfoldable pub lookup : Page → ℕ → Option Record
unfolding content
lookup p i = if ltb i p.slot_cnt then content p.bytes (p.slot i) else none

-- `data[]`, the slot array and the free space fill the page; the records are not empty, are kept
-- compacted below `freePtr` and do not overlap.
pub record IsPacked (p : Page) : Type 0 where
  pub space : p.free_ptr + p.free_space + slot_size * p.slot_cnt ≡ page_size - dp_fixed + slot_size
  pub compact : total p.slot p.slot_cnt ≡ p.free_ptr
  pub inside : (i o l : ℕ) → i < p.slot_cnt → p.slot i ≡ used o l → (0 < l) × (o + l ≤ p.free_ptr)
  pub apart :
      (i j o l o' l' : ℕ)
      → i < p.slot_cnt
      → j < p.slot_cnt
      → i ≢ j
      → p.slot i ≡ used o l
      → p.slot j ≡ used o' l'
      → (o + l ≤ o') ⊎ (o' + l' ≤ o)

-- The slot array is also as short as it can be.
pub record IsValid (p : Page) : Type 0 where
  pub packed : IsPacked p
  pub open packed use *
  pub last : last_is_empty p.slot p.slot_cnt ≡ false

-- A page that was just initialised is valid and holds no record.
pub init-IsValid : (p : Page) (n : ℕ) → IsValid (init p n) × ((i : ℕ) → lookup (init p n) i ≡ none)
unfolding init lookup last_is_empty total
init-IsValid p n = (
  record {
    packed = record {
      space = omega arith;
      compact = refl;
      inside = λ i o l lt e. absurd (omega arith);
      apart = λ i j o l o' l' lt. absurd (omega arith);
    };
    last = refl;
  },
  λ i. ground arith,
)
