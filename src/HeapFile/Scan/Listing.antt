-- ===== src/HeapFile/Scan/Listing.antt =====
-- The records behind a position of a page depend on the page's `lookup` only.
use ubase.Base.{
  ℕ, zero, suc, ◌+◌, ◌-◌, ◌≤◌, ◌<◌, ◌≡◌, inl, inr, refl, sym, ap, ◌∙◌, true, Option, none, some,
  List, [], ◌∷◌, arith, ltb,
}
use ubase.HeapFile.Scan.Records.{Entry, records, behind, records_after}
use ubase.Page.{Page, Rid, Record}
use ubase.Page.Slots.{Slot-cases}
use ubase.Page.Valid.{lookup, content}

abbrev put : ℕ → ℕ → Option Record → List Entry → List Entry
put c i none es = es
put c i (some r) es = (record { page_no = c; slot_no = i }, r) ∷ es

-- The entries of a map, for a page number and `k` slot numbers from `i` on.
abbrev listing : (ℕ → Option Record) → (c k i : ℕ) → List Entry
listing f c zero i = []
listing f c (suc k) i = put c i (f i) (listing f c k (suc i))

records-listing :
    (p : Page) (k i : ℕ) → k ≤ p.slot_cnt - i → records p k i ≡ listing (lookup p) p.cur_page k i
unfolding lookup content
records-listing p zero i h = refl
records-listing p (suc k) i h =
    let rest = records-listing p k (suc i) (omega arith) in
    let low : i < p.slot_cnt = omega arith in
    let inside : ltb i p.slot_cnt ≡ true = ground arith in
    elim (Slot-cases (p.slot i)) [
      | inl e ↦ rw (records, listing, lookup, inside, content, e) rest
      | inr (o, l, e) ↦ rw (records, listing, lookup, inside, content, e, rest) refl
    ]

listing-congr :
    (f g : ℕ → Option Record) (c k i : ℕ)
    → ((j : ℕ) → i ≤ j → f j ≡ g j)
    → listing f c k i ≡ listing g c k i
listing-congr f g c zero i h = refl
listing-congr f g c (suc k) i h =
    rw (h i (omega arith), listing-congr f g c k (suc i) (λ j le. h j (omega arith))) refl

listing-none :
    (f : ℕ → Option Record) (c d i : ℕ) → ((j : ℕ) → i ≤ j → f j ≡ none) → listing f c d i ≡ []
listing-none f c zero i h = refl
listing-none f c (suc d) i h =
    rw (h i (omega arith)) (listing-none f c d (suc i) (λ j le. h j (omega arith)))

listing-extend :
    (f : ℕ → Option Record) (c k d i total : ℕ)
    → total ≡ k + d
    → ((j : ℕ) → i + k ≤ j → f j ≡ none)
    → listing f c total i ≡ listing f c k i
listing-extend f c zero d i total e h = listing-none f c total i (λ j le. h j (omega arith))
listing-extend f c (suc k) d i zero e h = absurd (omega arith)
listing-extend f c (suc k) d i (suc total) e h =
    ap (put c i (f i))
      (listing-extend f c k d (suc i) total (omega arith) (λ j le. h j (omega arith)))

pub lookup-outside : (p : Page) (j : ℕ) → p.slot_cnt ≤ j → lookup p j ≡ none
unfolding lookup
lookup-outside p j h = ground arith

records_after-listing :
    (p : Page) (cur : Option Rid) (total : ℕ)
    → p.slot_cnt ≤ total
    → records_after p cur ≡ listing (lookup p) p.cur_page total (behind cur)
records_after-listing p cur total h =
    let k = p.slot_cnt - behind cur in
    records-listing p k (behind cur) (omega arith)
    ∙ sym (
        listing-extend (lookup p) p.cur_page k (total - k) (behind cur) total (omega arith)
          (λ j le. lookup-outside p j (omega arith)))

-- Two pages that hold the same records behind a position.
pub records_after-congr :
    (p q : Page) (cur : Option Rid)
    → p.cur_page ≡ q.cur_page
    → ((j : ℕ) → behind cur ≤ j → lookup p j ≡ lookup q j)
    → records_after p cur ≡ records_after q cur
records_after-congr p q cur same h =
    let total = p.slot_cnt + q.slot_cnt in
    records_after-listing p cur total (omega arith)
    ∙ ap (λ c. listing (lookup p) c total (behind cur)) same
    ∙ listing-congr (lookup p) (lookup q) q.cur_page total (behind cur) h
    ∙ sym (records_after-listing q cur total (omega arith))
