-- ===== src/HeapFile/Scan/Records.antt =====
-- The records of a heap file in the order in which a scan meets them.
use ubase.Base.{
  ℕ, zero, suc, ◌+◌, ◌-◌, ◌≤◌, ◌<◌, ◌≡◌, inl, inr, refl, Option, none, some, List, [], ◌∷◌, ◌++◌,
  arith, sym, ◌∙◌, if◌then◌else◌,
}
use mathlib.Core.Path.{subst}
use ubase.HeapFile.Match.{Filter, Diff, match_rec}
use ubase.Page.{Page, empty, used, Rid, Record, read, rid_at, find_used}
use ubase.Page.Slots.{Slot-cases}
use ubase.Storage.{PageEntry}

abbrev pub Entry : Type 0
Entry = Rid × Record

-- The records in the `k` slots from `i` on.
abbrev pub records : Page → (k i : ℕ) → List Entry
records p zero i = []
records p (suc k) i = elim (p.slot i) [
  | empty ↦ records p k (suc i)
  | used o l ↦ (rid_at p i, read p.bytes o l) ∷ records p k (suc i)
]

-- The first slot number behind a record id.
abbrev pub behind : Option Rid → ℕ
behind none = 0
behind (some rid) = suc rid.slot_no

abbrev pub records_after : Page → Option Rid → List Entry
records_after p cur = records p (p.slot_cnt - behind cur) (behind cur)

-- The records of the pages of a list.
abbrev pub records_of : (ℕ → Page) → List ℕ → List Entry
records_of content [] = []
records_of content (n ∷ ns) = records_after (content n) none ++ records_of content ns

-- The pages that the header names from an index on, up to the first free entry.
abbrev pub Chain : (ℕ → PageEntry) → ℕ → List ℕ → Type 0
Chain pages i [] = (pages i).page_no ≡ none
Chain pages i (n ∷ ns) = ((pages i).page_no ≡ some n) × Chain pages (suc i) ns

-- The list from the first record on that the filter lets through.
abbrev pub drop_until : (List ℕ → List ℕ → Diff) → Option Filter → List Entry → List Entry
drop_until float_diff f [] = []
drop_until float_diff f (e ∷ es) =
    let rest = drop_until float_diff f es in if match_rec float_diff f e.1 then e ∷ es else rest

-- What the search for a used slot answers, and the records of the same slots.
abbrev pub FoundIn : Page → (k i : ℕ) → Option ℕ → Type 0
FoundIn p k i none = records p k i ≡ []
FoundIn p k i (some m) =
    (o : ℕ) × (l : ℕ) × (p.slot m ≡ used o l)
    × (i ≤ m)
    × (m < i + k)
    × (records p k i ≡ (rid_at p m, read p.bytes o l) ∷ records p (i + k - suc m) (suc m))

records-empty : (p : Page) (k i : ℕ) → p.slot i ≡ empty → records p (suc k) i ≡ records p k (suc i)
records-empty p k i e = rw (records, e) refl

records-used :
    (p : Page) (k i : ℕ) {o l : ℕ}
    → p.slot i ≡ used o l
    → records p (suc k) i ≡ (rid_at p i, read p.bytes o l) ∷ records p k (suc i)
records-used p k i e = rw (records, e) refl

FoundIn-shift :
    (p : Page) (k i : ℕ) (r : Option ℕ)
    → p.slot i ≡ empty
    → FoundIn p k (suc i) r
    → FoundIn p (suc k) i r
FoundIn-shift p k i none e h = records-empty p k i e ∙ h
FoundIn-shift p k i (some m) e (o, l, s, low, high, same) =
    let equal : suc i + k - suc m ≡ i + suc k - suc m = omega arith in
    (o, l, s, omega arith, omega arith, records-empty p k i e ∙ rw (sym equal) same)

pub find_used-FoundIn : (p : Page) (k i : ℕ) → FoundIn p k i (find_used p.slot k i)
unfolding find_used
find_used-FoundIn p zero i = refl
find_used-FoundIn p (suc k) i = elim (Slot-cases (p.slot i)) [
  | inl e ↦
      let same : find_used p.slot (suc k) i ≡ find_used p.slot k (suc i) = rw (find_used, e) refl in
      subst (FoundIn p (suc k) i) (sym same)
        (FoundIn-shift p k i (find_used p.slot k (suc i)) e (find_used-FoundIn p k (suc i)))
  | inr (o, l, e) ↦
      let same : find_used p.slot (suc k) i ≡ some i = rw (find_used, e) refl in
      let rest : i + suc k - suc i ≡ k = omega arith in
      subst (FoundIn p (suc k) i) (sym same)
        (o, l, e, omega arith, omega arith, rw rest (records-used p k i e))
]
