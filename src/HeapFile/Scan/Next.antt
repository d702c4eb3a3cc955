-- ===== src/HeapFile/Scan/Next.antt =====
-- `scanNext` against the list of the records that are left to a scan.
pub mod Round
use mathlib.Core.Path.{subst}
use ubase.Base.{
  ℕ, zero, suc, ◌+◌, ◌<◌, ◌≡◌, ◌⊎◌, inl, inr, refl, sym, ◌∙◌, Option, none, some, List, [], ◌∷◌,
  length, arith,
}
use ubase.HeapFile.Match.{Diff}
use ubase.HeapFile.Scan.{HeapFileScan, Step, again, answer, scan_step, scan_next}
use ubase.HeapFile.Scan.Next.Round.{RoundOf, Same, Same-trans, Answer, scan_step-RoundOf, left}
use ubase.HeapFile.Position.{At}
use ubase.HeapFile.Scan.Records.{Entry, drop_until}
use ubase.Page.{Rid}
use ubase.Status.{Result, ok, err, file_eof}
use ubase.Storage.{Storage}
use ubase.Storage.Laws.{View, Obeys}

module _ (st : Storage) (float_diff : List ℕ → List ℕ → Diff) (v : View st) (laws : Obeys v) where
  open st use {State}

  -- What `scanNext` may answer for a scan with the pages `ns` behind it. Where it returns a record id,
  -- that record, the current one, which `getRecord` now returns, is the first one left that passes
  -- the filter, and the records behind it are what is
  -- left now; FILEEOF is returned only where none passes; any other code is one of `readPage`. Neither
  -- a page nor the filter has changed, and fewer than `total` records and pages are left.
  abbrev pub NextOf :
      HeapFileScan → State → ℕ → List Entry → Option (Result Rid × HeapFileScan × State) → Type 0
  NextOf sc s total found none = ⊥
  NextOf sc s total found (some r) = Answer st float_diff v laws sc s total found r

  Answer-after :
      (sc : HeapFileScan) (s : State) (sc1 : HeapFileScan) (s1 : State) (total total1 : ℕ)
      (found found1 : List Entry) (r : Option (Result Rid × HeapFileScan × State))
      → Same st float_diff v laws sc s sc1 s1
      → found1 ≡ found
      → total1 < total
      → NextOf sc1 s1 total1 found1 r
      → NextOf sc s total found r
  Answer-after sc s sc1 s1 total total1 found found1 none same e less h = absurd h
  Answer-after sc s sc1 s1 total total1 found found1 (some (ok rid, sc', s')) same e less
        (rec, ns', here, kept, cur, got, q, small) =
      (
        rec,
        ns',
        here,
        Same-trans st float_diff v laws same kept,
        cur,
        got,
        sym e ∙ q,
        omega (arith, small, less),
      )
  Answer-after sc s sc1 s1 total total1 found found1 (some (err x, sc', s')) same e less
        (inl (q, kept, gone)) =
      inl (q, Same-trans st float_diff v laws same kept, sym e ∙ gone)
  Answer-after sc s sc1 s1 total total1 found found1 (some (err x, sc', s')) same e less (inr h) =
      inr h

  -- The loop of `scanNext` ends: it needs one round more than there are records and pages left. It
  -- returns the first record left that passes the filter, and leaves the scan with the records behind
  -- that one; or FILEEOF if there is none; or an error of `readPage`.
  pub scan_next-NextOf :
      (fuel : ℕ) (sc : HeapFileScan) (s : State) (ns : List ℕ)
      → At st v sc.base s ns
      → length (left st float_diff v laws sc s ns) + length ns < fuel
      → NextOf sc s
          (length (left st float_diff v laws sc s ns) + length ns)
          (drop_until float_diff sc.filter (left st float_diff v laws sc s ns))
          (scan_next st float_diff fuel sc s)
  unfolding scan_next
  scan_next-NextOf zero sc s ns here enough = absurd (omega arith)
  scan_next-NextOf (suc fuel) sc s ns here enough =
      let w = scan_step st float_diff sc s in
      go w.0 w.1 w.2 (scan_step-RoundOf st float_diff v laws sc s ns here) (scan_next-NextOf fuel)
    where
      go :
          (step : Step) (sc1 : HeapFileScan) (s1 : State)
          → RoundOf st float_diff v laws sc s ns (step, sc1, s1)
          → ((sc : HeapFileScan) (s : State) (ns : List ℕ)
              → At st v sc.base s ns
              → length (left st float_diff v laws sc s ns) + length ns < fuel
              → NextOf sc s
                  (length (left st float_diff v laws sc s ns) + length ns)
                  (drop_until float_diff sc.filter (left st float_diff v laws sc s ns))
                  (scan_next st float_diff fuel sc s))
          → NextOf sc s
              (length (left st float_diff v laws sc s ns) + length ns)
              (drop_until float_diff sc.filter (left st float_diff v laws sc s ns))
              (elim step [
                | again ↦ scan_next st float_diff fuel sc1 s1
                | answer r ↦ some (r, sc1, s1)
              ])
      go again sc1 s1 (ns1, here1, same, found, less) rest =
          Answer-after sc s sc1 s1 _ _ _ _ _ same (rw same.filter found) less
            (rest sc1 s1 ns1 here1 (omega arith))
      go (answer r) sc1 s1 h rest = h
