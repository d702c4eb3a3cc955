-- ===== src/Page/Slots.antt =====
-- The loops over the slot array, and the bytes that its slots hold.
use ubase.Base.{
  ℕ, zero, suc, ◌+◌, ◌*◌, ◌≤◌, ◌<◌, ◌≡◌, refl, ap, true, false, ◌⊎◌, ◌&&◌, Option, none, some,
  arith, ltb, leb, ◌==◌, if◌then◌else◌, Bool-cases, inl, inr,
}
use ubase.Page.{
  Slot, empty, used, slot_size, set_slot, find_empty, find_used, shift, shift_slots, is_empty,
  last_is_empty, trim,
}

pub Slot-cases : (s : Slot) → (s ≡ empty) ⊎ ((o : ℕ) × (l : ℕ) × (s ≡ used o l))
Slot-cases empty = inl refl
Slot-cases (used o l) = inr (o, l, refl)

module _ (slot : ℕ → Slot) where
  pub find_empty_bounds : (k i : ℕ) → (i ≤ find_empty slot k i) × (find_empty slot k i ≤ i + k)
  unfolding find_empty
  find_empty_bounds zero i = omega arith
  find_empty_bounds (suc k) i = ground (arith, find_empty_bounds k (suc i))

  pub find_empty-IsEmpty :
      (k i : ℕ) → find_empty slot k i < i + k → slot (find_empty slot k i) ≡ empty
  unfolding find_empty
  find_empty-IsEmpty zero i h = absurd (omega arith)
  find_empty-IsEmpty (suc k) i h = ground (arith, find_empty-IsEmpty k (suc i))

  -- Every slot before the one that is found is used.
  pub find_empty_least : (k i j : ℕ) → i ≤ j → j < find_empty slot k i → is_empty (slot j) ≡ false
  unfolding find_empty is_empty
  find_empty_least zero i j low high = absurd (omega arith)
  find_empty_least (suc k) i j low high = elim (Bool-cases (i == j)) [
    | inl e ↦ let same : i ≡ j = ground arith in ground (arith, ap slot same)
    | inr ne ↦ ground (arith, find_empty_least k (suc i) j)
  ]

-- The loop moves exactly the slots of its range.
pub shift_slots_lem :
    (slot : ℕ → Slot) (offset len k i j : ℕ)
    → shift_slots offset len k i slot j
      ≡ (if leb i j && ltb j (i + k) then shift offset len (slot j) else slot j)
unfolding shift_slots set_slot
shift_slots_lem slot offset len zero i j = ground arith
shift_slots_lem slot offset len (suc k) i j = elim (Bool-cases (j == i)) [
  | inl e ↦
      let same : j ≡ i = ground arith in
      rw (shift_slots_lem (set_slot slot i (shift offset len (slot i))) offset len k (suc i) j)
        (ground (arith, ap slot same))
  | inr ne ↦
      rw (shift_slots_lem (set_slot slot i (shift offset len (slot i))) offset len k (suc i) j)
        (ground arith)
]

-- The search finds the first used slot of its range, or there is none.
abbrev pub Found : (ℕ → Slot) → (i limit : ℕ) → Option ℕ → Type 0
Found slot i limit none = (j : ℕ) → i ≤ j → j < limit → is_empty (slot j) ≡ true
Found slot i limit (some m) =
    (i ≤ m)
    × (m < limit)
    × (is_empty (slot m) ≡ false)
    × ((j : ℕ) → i ≤ j → j < m → is_empty (slot j) ≡ true)

find_used-Found_step :
    (slot : ℕ → Slot) (i limit : ℕ) (r : Option ℕ)
    → is_empty (slot i) ≡ true
    → Found slot (suc i) limit r
    → Found slot i limit r
find_used-Found_step slot i limit none e h = λ j low high. elim (Bool-cases (i == j)) [
  | inl q ↦ let same : i ≡ j = ground arith in ground (arith, ap slot same)
  | inr q ↦ h j (ground arith) high
]
find_used-Found_step slot i limit (some m) e h = (
  omega arith,
  h.1,
  h.2,
  λ j low high. elim (Bool-cases (i == j)) [
    | inl q ↦ let same : i ≡ j = ground arith in ground (arith, ap slot same)
    | inr q ↦ h.3 j (ground arith) high
  ],
)

pub find_used-Found :
    (slot : ℕ → Slot) (k i limit : ℕ) → limit ≡ i + k → Found slot i limit (find_used slot k i)
unfolding find_used is_empty
find_used-Found slot zero i limit h = λ j low high. absurd (omega arith)
find_used-Found slot (suc k) i limit h =
    go (slot i) refl (find_used-Found slot k (suc i) limit (omega arith))
  where
    go :
        (s : Slot)
        → slot i ≡ s
        → Found slot (suc i) limit (find_used slot k (suc i))
        → Found slot i limit (elim s [ empty ↦ find_used slot k (suc i) | used _ _ ↦ some i ])
    go empty e rest = find_used-Found_step slot i limit (find_used slot k (suc i)) (rw e) rest
    go (used o l) e rest = (omega arith, omega arith, rw e, λ j low high. absurd (omega arith))

-- What the loop of `deleteRecord` leaves: the slots that it drops are empty, the last is used, and
-- each slot's four bytes are free again.
pub record Trims (slot : ℕ → Slot) (c space : ℕ) (r : ℕ × ℕ) : Type 0 where
  pub shorter : r.0 ≤ c
  pub balance : r.1 + slot_size * r.0 ≡ space + slot_size * c
  pub last : last_is_empty slot r.0 ≡ false
  pub dropped : (j : ℕ) → r.0 ≤ j → j < c → is_empty (slot j) ≡ true

at_last : (slot : ℕ → Slot) (c j : ℕ) → is_empty (slot c) ≡ true → c ≡ j → is_empty (slot j) ≡ true
at_last slot c j h e = rw (← e) h

pub trim-Trims :
    (slot : ℕ → Slot) (c space : ℕ)
    → is_empty (slot c) ≡ true
    → Trims slot (suc c) space (trim slot (suc c) space)
unfolding trim last_is_empty
trim-Trims slot zero space h = record {
  shorter = omega arith;
  balance = omega arith;
  last = refl;
  dropped = λ j low high. at_last slot zero j h (omega arith);
}
trim-Trims slot (suc c) space h = elim (Bool-cases (is_empty (slot c))) [
  | inl e ↦
      let t = trim-Trims slot c (space + slot_size) e in
      rw e (record {
        shorter = omega arith;
        balance = omega arith;
        last = t.last;
        dropped = λ j low high. elim (Bool-cases (j == suc c)) [
          | inl q ↦ at_last slot (suc c) j h (ground arith)
          | inr q ↦ t.dropped j low (ground arith)
        ];
      })
  | inr e ↦ rw e (record {
    shorter = omega arith;
    balance = omega arith;
    last = e;
    dropped = λ j low high. at_last slot (suc c) j h (omega arith);
  })
]

-- The bytes that the slots below `n` hold.
unfoldable pub size : Slot → ℕ
size empty = 0
size (used _ l) = l

unfoldable pub total : (ℕ → Slot) → ℕ → ℕ
unfolding size
total slot zero = 0
total slot (suc n) = total slot n + size (slot n)

pub total_congr :
    (f g : ℕ → Slot) (n : ℕ) → ((j : ℕ) → j < n → size (f j) ≡ size (g j)) → total f n ≡ total g n
unfolding total
total_congr f g zero h = refl
total_congr f g (suc n) h =
    omega (arith, total_congr f g n (λ j lt. h j (omega arith)), h n (omega arith))

pub total-set_slot :
    (slot : ℕ → Slot) (n i : ℕ) (s : Slot)
    → i < n
    → total (set_slot slot i s) n + size (slot i) ≡ total slot n + size s
unfolding total set_slot
total-set_slot slot zero i s h = absurd (omega arith)
total-set_slot slot (suc n) i s h = elim (Bool-cases (n == i)) [
  | inl e ↦
      let same : n ≡ i = ground arith in
      let rest = total_congr (set_slot slot i s) slot n (λ j lt. ground arith) in
      ground (arith, rest, ap slot same)
  | inr ne ↦ ground (arith, total-set_slot slot n i s)
]

-- Empty slots hold nothing.
pub total_drop :
    (slot : ℕ → Slot) (c n : ℕ)
    → c ≤ n
    → ((j : ℕ) → c ≤ j → j < n → is_empty (slot j) ≡ true)
    → total slot n ≡ total slot c
unfolding total size is_empty
total_drop slot c zero le h = ground (arith)
total_drop slot c (suc n) le h = elim (Bool-cases (c == suc n)) [
  | inl e ↦ let same : suc n ≡ c = ground arith in ap (total slot) same
  | inr ne ↦
      ground (arith, total_drop slot c n (ground arith) (λ j low high. h j low (omega arith)), h n)
]

-- A slot array whose last slot is used, or becomes so.
pub last-set_used :
    (slot : ℕ → Slot) (c i o l : ℕ)
    → (last_is_empty slot c ≡ false) ⊎ (c ≡ suc i)
    → last_is_empty (set_slot slot i (used o l)) c ≡ false
unfolding last_is_empty set_slot is_empty
last-set_used slot zero i o l h = refl
last-set_used slot (suc c) i o l h = ground arith
