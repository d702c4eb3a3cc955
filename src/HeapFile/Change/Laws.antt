-- ===== src/HeapFile/Change/Laws.antt =====
-- `deleteRecord` and `updateRecord` of a scan: what the file holds, and what is left to the scan.
use mathlib.Core.Path.{subst}
use ubase.Base.{
  ℕ, suc, ◌≤◌, ◌≡◌, ◌≢◌, ◌⊎◌, inl, inr, refl, sym, ap, ◌∙◌, true, Option, none, some, Option-cases,
  List, [], ◌∷◌, All, All-mono, All-both, ◌==◌, if◌then◌else◌, arith,
}
use ubase.HeapFile.Change.{current, mark_dirty, count, delete_record}
use ubase.HeapFile.Match.{Diff}
use ubase.HeapFile.Scan.{HeapFileScan}
use ubase.HeapFile.Scan.Listing.{records_after-congr}
use ubase.HeapFile.Scan.Next.Round.{left}
use ubase.HeapFile.Position.{At}
use ubase.HeapFile.Scan.Records.{behind, records_of, Chain}
use ubase.Page
use ubase.Page.{Page, Rid, Record}
use ubase.Page.Delete.{lookup-delete_record, delete_record-IsDefined}
use ubase.Page.Valid.{IsValid, lookup}
use ubase.Status.{Result, ok, err, bad_page_no, invalid_slot_no}
use ubase.Storage.{Storage}
use ubase.Storage.Laws.{View, Obeys}

records_of-congr :
    (c d : ℕ → Page) (ns : List ℕ) → All (λ n. c n ≡ d n) ns → records_of c ns ≡ records_of d ns
records_of-congr c d [] h = refl
records_of-congr c d (n ∷ ns) h = rw (h.0, records_of-congr c d ns h.1) refl

delete_record-cur_page :
    (p : Page) (rid : Rid) {p' : Page} → Page.delete_record p rid ≡ ok p' → p'.cur_page ≡ p.cur_page
unfolding Page.delete_record Page.release Page.trim_page Page.check_slot
delete_record-cur_page p rid h = ground arith

-- The current record of a scan is on the current page.
pub current-cur_rec :
    (sc : HeapFileScan) (rid : Rid)
    → current sc ≡ some rid
    → (sc.base.cur_rec ≡ some rid) × (rid.page_no ≡ sc.base.cur_page_no)
unfolding current
current-cur_rec sc rid h = (ground arith, ground arith)

skips :
    (sc : HeapFileScan) (rid : Rid) (j : ℕ)
    → sc.base.cur_rec ≡ some rid
    → behind sc.base.cur_rec ≤ j
    → (r : Option Record) → (if j == rid.slot_no then none else r) ≡ r
skips sc rid j e le r =
    let low : suc rid.slot_no ≤ j = subst (λ c. behind c ≤ j) e le in ground arith

module _ (st : Storage) (float_diff : List ℕ → List ℕ → Diff) (v : View st) (laws : Obeys v) where
  open st use {State, page, set_page, header}
  open v use {content, Pinned, Saved}

  -- The current page of the scan, and its header.
  abbrev pub here_page : HeapFileScan → State → Page
  here_page sc s = content s sc.base.file sc.base.cur_page_no

  -- A page is written over the current one that holds the same records behind the current one.
  pub record Rewrote (sc sc' : HeapFileScan) (s s' : State) (ns : List ℕ) (p : Page) : Type 0 where
    pub here : At st v sc'.base s' ns
    pub left_same : left st float_diff v laws sc' s' ns ≡ left st float_diff v laws sc s ns
    pub put : here_page sc' s' ≡ p
    pub other :
        (n : ℕ)
        → n ≢ sc.base.cur_page_no
        → n ≢ sc.base.header_page_no
        → content s' sc.base.file n ≡ content s sc.base.file n

  others :
      (sc : HeapFileScan) (s s' : State) (ns : List ℕ)
      → At st v sc.base s ns
      → ((n : ℕ)
          → n ≢ sc.base.cur_page_no
          → n ≢ sc.base.header_page_no
          → content s' sc.base.file n ≡ content s sc.base.file n)
      → All (λ n. content s' sc.base.file n ≡ content s sc.base.file n) ns
  others sc s s' ns at same =
      All-mono _ _ ns (λ n (a, b). same n b a) (All-both _ _ ns at.distinct.0.1 at.distinct.1.0)

  rewritten :
      (sc : HeapFileScan) (s : State) (ns : List ℕ) (p : Page)
      → At st v sc.base s ns
      → IsValid p
      → p.cur_page ≡ (here_page sc s).cur_page
      → ((j : ℕ) → behind sc.base.cur_rec ≤ j → lookup p j ≡ lookup (here_page sc s) j)
      → Rewrote sc (mark_dirty st sc) s (set_page sc.base.cur_page p s) ns p
        × (header (set_page sc.base.cur_page p s) sc.base.header_page
            ≡ header s sc.base.header_page)
  unfolding mark_dirty
  rewritten sc s ns p at valid same_no same =
      let s' = set_page sc.base.cur_page p s in
      let w = laws.write s sc.base.file sc.base.cur_page_no sc.base.cur_page p at.pool at.cur in
      let frames : sc.base.header_page ≢ sc.base.cur_page = λ e. at.distinct.0.0 (
        sym (
          laws.distinct s sc.base.file sc.base.header_page_no sc.base.cur_page_no
            sc.base.header_page at.pool at.hdr
            (subst (Pinned s sc.base.file sc.base.cur_page_no) (sym e) at.cur))) in
      let hdr = w.headers sc.base.header_page frames in
      let rest = others sc s s' ns at (λ n a b. w.other n a) in
      (
        record {
          here = record {
            pool = w.pool;
            cur = w.pinned _ _ at.cur;
            hdr = w.pinned _ _ at.hdr;
            distinct = at.distinct;
            saved = inr refl;
            saves =
                All-mono _ _ ns (λ n (a, c). w.saved n a c)
                  (All-both _ _ ns at.distinct.1.0 at.saves);
            chain = subst (λ h. Chain h.pages (suc sc.base.cur_idx) ns) (sym hdr) at.chain;
            valid = subst IsValid (sym w.put) valid;
            valids =
                All-mono _ _ ns (λ n (e, good). subst IsValid (sym e) good)
                  (All-both _ _ ns rest at.valids);
          };
          left_same =
              rw
                (
                  w.put,
                  records_after-congr p (here_page sc s) sc.base.cur_rec same_no same,
                  records_of-congr (content s' sc.base.file) (content s sc.base.file) ns rest,
                )
                refl;
          put = w.put;
          other = λ n a b. w.other n a;
        },
        hdr,
      )

  -- The header is written, its entries aside.
  counted :
      (sc : HeapFileScan) (s : State) (ns : List ℕ)
      → At st v sc.base s ns
      → sc.base.cur_dirty ≡ true
      → Rewrote sc (count st sc s).0 s (count st sc s).1 ns (here_page sc s)
        × (header (count st sc s).1 sc.base.header_page ≡ record (header s sc.base.header_page) {
          rec_cnt = suc (header s sc.base.header_page).rec_cnt;
        })
  unfolding count
  counted sc s ns at dirty =
      let s' = (count st sc s).1 in
      let w =
        laws.write_header s sc.base.file sc.base.header_page_no sc.base.header_page _ at.pool
          at.hdr in
      let cur_same = w.other sc.base.cur_page_no at.distinct.0.0 in
      let rest = others sc s s' ns at (λ n a b. w.other n b) in
      (
        record {
          here = record {
            pool = w.pool;
            cur = w.pinned _ _ at.cur;
            hdr = w.pinned _ _ at.hdr;
            distinct = at.distinct;
            saved = inr dirty;
            saves =
                All-mono _ _ ns (λ n (a, c). w.saved n a c)
                  (All-both _ _ ns at.distinct.0.1 at.saves);
            chain = subst (λ h. Chain h.pages (suc sc.base.cur_idx) ns) (sym w.put) at.chain;
            valid = subst IsValid (sym cur_same) at.valid;
            valids =
                All-mono _ _ ns (λ n (e, good). subst IsValid (sym e) good)
                  (All-both _ _ ns rest at.valids);
          };
          left_same =
              rw
                (
                  cur_same,
                  records_of-congr (content s' sc.base.file) (content s sc.base.file) ns rest,
                )
                refl;
          put = cur_same;
          other = λ n a b. w.other n b;
        },
        w.put,
      )

  -- The data pages other than the current one are as they were.
  abbrev pub OthersSame : HeapFileScan → State → State → Type 0
  OthersSame sc s s' =
      (n : ℕ)
      → n ≢ sc.base.cur_page_no
      → n ≢ sc.base.header_page_no
      → content s' sc.base.file n ≡ content s sc.base.file n

  -- What `deleteRecord` may answer.
  abbrev pub DeleteOf :
      HeapFileScan → State → List ℕ → Result (Unit {0}) × HeapFileScan × State → Type 0
  DeleteOf sc s ns (ok _, sc', s') =
      (rid : Rid) × (current sc ≡ some rid)
      × (sc' ≡ record sc { base = record sc.base { cur_dirty = true; hdr_dirty = true } })
      × At st v sc'.base s' ns
      × (left st float_diff v laws sc' s' ns ≡ left st float_diff v laws sc s ns)
      × ((j : ℕ)
          → lookup (here_page sc' s') j
            ≡ (if j == rid.slot_no then none else lookup (here_page sc s) j))
      × OthersSame sc s s'
      × ((header s' sc.base.header_page).rec_cnt ≡ suc (header s sc.base.header_page).rec_cnt)
  DeleteOf sc s ns (err e, sc', s') =
      ((e ≡ bad_page_no) ⊎ (e ≡ invalid_slot_no)) × (sc' ≡ sc) × (s' ≡ s)

  -- The page answers OK.
  deleted :
      (sc : HeapFileScan) (s : State) (ns : List ℕ) (rid : Rid) (p : Page)
      → At st v sc.base s ns
      → current sc ≡ some rid
      → Page.delete_record (here_page sc s) rid ≡ ok p
      → DeleteOf sc s ns (
        ok tt,
        (count st (mark_dirty st sc) (set_page sc.base.cur_page p s)).0,
        (count st (mark_dirty st sc) (set_page sc.base.cur_page p s)).1,
      )
  unfolding mark_dirty count
  deleted sc s ns rid p at cur e =
      let (valid, looks) = lookup-delete_record (here_page sc s) rid at.valid e in
      let slot : sc.base.cur_rec ≡ some rid = (current-cur_rec sc rid cur).0 in
      let (w, hdr) =
        rewritten sc s ns p at valid (delete_record-cur_page (here_page sc s) rid e)
          (λ j le. looks j ∙ skips sc rid j slot le (lookup (here_page sc s) j)) in
      let s1 = set_page sc.base.cur_page p s in
      let (w', hdr') = counted (mark_dirty st sc) s1 ns w.here refl in
      (
        rid,
        cur,
        refl,
        w'.here,
        w'.left_same ∙ w.left_same,
        λ j. ap (λ q. lookup q j) (w'.put ∙ w.put) ∙ looks j,
        λ n a b. w'.other n a b ∙ w.other n a b,
        ap (λ h. h.rec_cnt) hdr' ∙ ap (λ h. suc h.rec_cnt) hdr,
      )

  -- `deleteRecord` takes exactly the current record out of the file, and the scan goes on with the same
  -- records behind it, wherever the page has moved their bytes; the record count of the header grows by
  -- one. It fails, and changes nothing, where there is no current record on the current page or the
  -- page does not hold it any more.
  pub delete_record-DeleteOf :
      (sc : HeapFileScan) (s : State) (ns : List ℕ)
      → At st v sc.base s ns
      → DeleteOf sc s ns (delete_record st sc s)
  unfolding delete_record
  delete_record-DeleteOf sc s ns at = elim (Option-cases (current sc)) [
    | inl e ↦
        let run : delete_record st sc s ≡ (err bad_page_no, sc, s) = rw (delete_record, e) refl in
        subst (DeleteOf sc s ns) (sym run) (inl refl, refl, refl)
    | inr (rid, e) ↦
        let p = here_page sc s in
        let held = laws.held s sc.base.file sc.base.cur_page_no sc.base.cur_page at.pool at.cur in
        let read = ap (λ q. Page.delete_record q rid) held in
        let (fails, works) = delete_record-IsDefined p rid in
        elim (Option-cases (lookup p rid.slot_no)) [
          | inl gone ↦
              let run : delete_record st sc s ≡ (err invalid_slot_no, sc, s) =
                rw (delete_record, e, read ∙ fails.0 gone) refl in
              subst (DeleteOf sc s ns) (sym run) (inr refl, refl, refl)
          | inr (r, there) ↦
              let (p', done) = works.0 (λ q. cc) in
              let w = count st (mark_dirty st sc) (set_page sc.base.cur_page p' s) in
              let run : delete_record st sc s ≡ (ok tt, w.0, w.1) =
                rw (delete_record, e, read ∙ done) refl in
              subst (DeleteOf sc s ns) (sym run) (deleted sc s ns rid p' at e done)
        ]
  ]
