-- ===== src/HeapFile/Scan/Mark.antt =====
-- `markScan` and `resetScan` of part5/part5/heapfile.C.
use mathlib.Core.Path.{subst}
use ubase.Base.{
  ℕ, suc, ◌≡◌, ◌≢◌, ◌⊎◌, inl, inr, refl, sym, ap, false, Bool-cases, List, ◌∷◌, ◌++◌, ◌==◌, All,
  All-mono, IsDistinct, arith,
}
use ubase.HeapFile.{HeapFile, turn_to}
use ubase.HeapFile.Match.{Diff}
use ubase.HeapFile.Position.{At}
use ubase.HeapFile.Scan.{HeapFileScan, mark_scan, reset_scan, set_base}
use ubase.HeapFile.Scan.Next.Round.{left}
use ubase.HeapFile.Scan.Records.{Entry, Chain, records_after, records_of}
use ubase.HeapFile.Turn.{ReadFails, TurnOf, turn_to-TurnOf}
use ubase.Page.Valid.{IsValid}
use ubase.Status.{Result, ok, err}
use ubase.Storage.{Storage}
use ubase.Storage.Laws.{View, Obeys}

module _ (st : Storage) (float_diff : List ℕ → List ℕ → Diff) (v : View st) (laws : Obeys v) where
  open st use {State, header}
  open v use {content, Saved}

  -- The mark of a scan is a position of its file, with the pages `ms` behind it, none of which has changes
  -- that the pool does not know of.
  pub record Marked (sc : HeapFileScan) (s : State) (ms : List ℕ) : Type 0 where
    pub distinct : IsDistinct (sc.base.header_page_no ∷ sc.marked_page_no ∷ ms)
    pub chain : Chain (header s sc.base.header_page).pages (suc sc.marked_idx) ms
    pub saves : All (λ n. Saved s sc.base.file n) (sc.marked_page_no ∷ ms)
    pub valid : IsValid (content s sc.base.file sc.marked_page_no)
    pub valids : All (λ n. IsValid (content s sc.base.file n)) ms

  -- The records behind the mark.
  abbrev pub marked_left : HeapFileScan → State → List ℕ → List Entry
  marked_left sc s ms =
      records_after (content s sc.base.file sc.marked_page_no) sc.marked_rec
      ++ records_of (content s sc.base.file) ms

  -- `markScan` marks the position of the scan.
  pub mark_scan-Marked :
      (sc : HeapFileScan) (s : State) (ns : List ℕ)
      → Saved s sc.base.file sc.base.cur_page_no
      → At st v sc.base s ns
      → Marked (mark_scan st float_diff sc s).1 s ns
        × (marked_left (mark_scan st float_diff sc s).1 s ns ≡ left st float_diff v laws sc s ns)
  unfolding mark_scan
  mark_scan-Marked sc s ns clean at = (
    record {
      distinct = at.distinct;
      chain = at.chain;
      saves = (clean, at.saves);
      valid = at.valid;
      valids = at.valids;
    },
    refl,
  )

  -- What `resetScan` may answer.
  abbrev pub ResetOf :
      HeapFileScan → State → List ℕ → Result (Unit {0}) × HeapFileScan × State → Type 0
  ResetOf sc s ms (ok _, sc', s') =
      (content s' ≡ content s)
      × (((sc.marked_page_no ≡ sc.base.cur_page_no) × (sc' ≡ sc) × (s' ≡ s))
          ⊎ ((sc.marked_page_no ≢ sc.base.cur_page_no)
              × At st v sc'.base s' ms
              × (left st float_diff v laws sc' s' ms ≡ marked_left sc s ms)))
  ResetOf sc s ms (err e, sc', s') = ReadFails st v laws e

  abbrev back : HeapFileScan → HeapFile → HeapFile
  back sc h = record h { cur_dirty = false; cur_rec = sc.marked_rec; cur_idx = sc.marked_idx }

  returned :
      (sc : HeapFileScan) (s : State) (ns ms : List ℕ) (w : Result (Unit {0}) × HeapFile × State)
      → At st v sc.base s ns
      → Marked sc s ms
      → sc.marked_page_no ≢ sc.base.cur_page_no
      → TurnOf st v laws sc.base s sc.marked_page_no (back sc) w
      → ResetOf sc s ms (elim w.0 [
        | ok _ ↦ (ok tt, record sc { base = w.1 }, w.2)
        | err e ↦ (
          err e,
          set_base st float_diff
              (record sc { base = w.1 })
              (λ h. record h { cur_page_no = sc.base.cur_page_no }),
          w.2,
        )
      ])
  returned sc s ns ms (err e, h', s') at m ne t = t
  returned sc s ns ms (ok _, h', s') at m ne (g, same_h, t) =
      let (header_pin, header_same) =
        t.kept sc.base.header_page_no sc.base.header_page (λ e. at.distinct.0.0 (sym e)) at.hdr in
      subst (λ h. ResetOf sc s ms (ok tt, record sc { base = h }, s')) (sym same_h)
        (
          t.same,
          inr (
            ne,
            record {
              pool = t.apart.pool at.pool;
              cur = t.there;
              hdr = header_pin;
              distinct = m.distinct;
              saved = inl t.saved;
              saves = All-mono _ _ ms (λ n c. t.apart.saved sc.base.file n c) m.saves.1;
              chain = subst (λ x. Chain x.pages (suc sc.marked_idx) ms) (sym header_same) m.chain;
              valid = subst (λ c. IsValid (c sc.base.file sc.marked_page_no)) (sym t.same) m.valid;
              valids = subst (λ c. All (λ n. IsValid (c sc.base.file n)) ms) (sym t.same) m.valids;
            },
            ap
                (λ c.
                  records_after (c sc.base.file sc.marked_page_no) sc.marked_rec
                  ++ records_of (c sc.base.file) ms)
                t.same,
          ),
        )

  -- `resetScan`, where the mark is a position of the file and the pool knows of all changes of the pages
  -- from it on: from another page it goes back to the mark, and leaves the scan with the records behind
  -- the mark; on the marked page it changes nothing. No page changes then. It fails only with a code of
  -- `readPage`.
  pub reset_scan-ResetOf :
      (sc : HeapFileScan) (s : State) (ns ms : List ℕ)
      → At st v sc.base s ns
      → Marked sc s ms
      → ResetOf sc s ms (reset_scan st float_diff sc s)
  unfolding reset_scan
  reset_scan-ResetOf sc s ns ms at m =
      elim (Bool-cases (sc.marked_page_no == sc.base.cur_page_no)) [
        | inl e ↦
            let same : sc.marked_page_no ≡ sc.base.cur_page_no = ground arith in
            let run : reset_scan st float_diff sc s ≡ (ok tt, sc, s) = rw (reset_scan, e) refl in
            subst (ResetOf sc s ms) (sym run) (refl, inl (same, refl, refl))
        | inr e ↦
            let ne : sc.marked_page_no ≢ sc.base.cur_page_no = λ q. ground (arith, q) in
            let w = turn_to st sc.marked_page_no (back sc) sc.base s in
            let run : reset_scan st float_diff sc s ≡ (elim w.0 [
              | ok _ ↦ (ok tt, record sc { base = w.1 }, w.2)
              | err e ↦ (
                err e,
                set_base st float_diff (record sc { base = w.1 })
                    (λ h. record h { cur_page_no = sc.base.cur_page_no }),
                w.2,
              )
            ]) =
              rw (reset_scan, e) refl in
            subst (ResetOf sc s ms) (sym run) (
              returned sc s ns ms w at m ne (
                turn_to-TurnOf st v laws sc.base s sc.marked_page_no (back sc) at.pool at.cur
                  at.saved m.saves.0))
      ]
