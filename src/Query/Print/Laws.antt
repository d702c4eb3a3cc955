-- ===== src/Query/Print/Laws.antt =====
-- The loop of `UT_Print` of part5/part5/print.C against the records that are left to its scan.
use mathlib.Core.Path.{subst}
use ubase.Base.{
  ℕ, zero, suc, ◌+◌, ◌<◌, ◌≡◌, inl, inr, refl, sym, ap, ◌∙◌, Option, none, some, List, [], ◌∷◌,
  length, arith, Bool, if◌then◌else◌,
}
use ubase.Catalog.{next, scanned, current, and_then}
use ubase.HeapFile.Match.{Diff}
use ubase.HeapFile.Scan.{HeapFileScan, scan_next, get_record}
use ubase.HeapFile.Scan.Next.{NextOf}
use ubase.HeapFile.Scan.Next.Round.{left}
use ubase.HeapFile.Turn.{ReadFails}
use ubase.Page.{Record, Rid}
use ubase.Query.Print.{print_all}
use ubase.SortedFile.Fetch.{Scans, Scans-NextOf, records}
use ubase.Status.{Status, Result, ok, err, file_eof}
use ubase.Storage.{Storage}
use ubase.Storage.Laws.{View, Obeys}

module _ (st : Storage) (float_diff : List ℕ → List ℕ → Diff) (memory : HeapFileScan) (v : View st)
    (laws : Obeys v) (no_eof : ¬ ReadFails st v laws file_eof) (fuel : ℕ) where
  open st use {State}

  -- What the loop may answer.
  abbrev pub PrintOf : List Record → Option (Result (List Record × HeapFileScan) × State) → Type 0
  PrintOf q none = ⊥
  PrintOf q (some (ok (recs, sc'), s')) = recs ≡ q
  PrintOf q (some (err e, s')) = ReadFails st v laws e

  -- The record is printed in front of the others.
  printed :
      (rec : Record) (q : List Record) (r : Option (Result (List Record × HeapFileScan) × State))
      → PrintOf q r
      → PrintOf
          (rec ∷ q)
          (and_then st float_diff memory r (λ (recs, sc2) s2. some (ok (rec ∷ recs, sc2), s2)))
  printed rec q none h = h
  printed rec q (some (err e, s')) h = h
  printed rec q (some (ok (recs, sc'), s')) h = ap (λ l. rec ∷ l) h

  -- The body of the loop, once `scanNext` has answered.
  abbrev body :
      (rounds : ℕ)
      → Bool × HeapFileScan
      → State
      → Option (Result (List Record × HeapFileScan) × State)
  body rounds (found, sc1) =
      if found
      then (λ s1. and_then st float_diff memory (current st float_diff memory sc1 s1) (λ rec s2.
          and_then st float_diff memory (print_all st float_diff memory rounds fuel sc1 s2)
            (λ (recs, sc2) s3. some (ok (rec ∷ recs, sc2), s3))))
      else (λ s1. some (ok ([], sc1), s1))

  fails :
      (rounds : ℕ) (q : List Record) (e : Status) (sc' : HeapFileScan) (s' : State)
      → ReadFails st v laws e
      → PrintOf q (
          and_then st float_diff memory
            (scanned st float_diff memory (some (err e, sc', s')))
            (body rounds))
  fails rounds q file_eof sc' s' h = absurd (no_eof h)
  fails rounds q e sc' s' h = h

  -- With fewer rounds the loop prints what is left.
  abbrev Rest : (rounds : ℕ) → Type 0
  Rest rounds =
      (sc : HeapFileScan) (s : State) (q : List Record)
      → Scans st float_diff v laws no_eof fuel sc s q
      → length q < rounds
      → PrintOf q (print_all st float_diff memory rounds fuel sc s)

  round :
      (rounds : ℕ) (sc : HeapFileScan) (s : State) (q : List Record)
      (h : Scans st float_diff v laws no_eof fuel sc s q)
      (r : Option (Result Rid × HeapFileScan × State))
      → NextOf st float_diff v laws sc s
          (length (left st float_diff v laws sc s h.ns) + length h.ns)
          (left st float_diff v laws sc s h.ns)
          r
      → length q < suc rounds
      → Rest rounds
      → PrintOf q (and_then st float_diff memory (scanned st float_diff memory r) (body rounds))
  round rounds sc s q h none answer low rest = answer
  round rounds sc s q h (some (err e, sc', s')) (inl (eof, same, gone)) low rest =
      subst
        (λ x. PrintOf q (
          and_then st float_diff memory (scanned st float_diff memory (some (err x, sc', s')))
            (body rounds)))
        (sym eof) (sym (sym h.to_come ∙ ap records gone))
  round rounds sc s q h (some (err e, sc', s')) (inr failed) low rest =
      fails rounds q e sc' s' failed
  round rounds sc s q h (some (ok rid, sc', s')) (rec, ns', at, same, cur, got, found, small) low
        rest =
      let q' = records (left st float_diff v laws sc' s' ns') in
      let now : q ≡ rec ∷ q' = sym h.to_come ∙ ap records found in
      let scans : Scans st float_diff v laws no_eof fuel sc' s' q' = record {
        ns = ns';
        at = at;
        no_filter = same.filter ∙ h.no_filter;
        to_come = refl;
        enough = omega (arith, small, h.enough);
      } in
      let tail = rest sc' s' q' scans (omega (arith, low, ap length now)) in
      subst
        (λ l. PrintOf l (
          and_then st float_diff memory (some (get_record st float_diff sc' s', s')) (λ rec s2.
            and_then st float_diff memory (print_all st float_diff memory rounds fuel sc' s2)
              (λ (recs, sc2) s3. some (ok (rec ∷ recs, sc2), s3)))))
        (sym now)
        (subst
          (λ x. PrintOf (rec ∷ q') (
            and_then st float_diff memory (some (x, s')) (λ rec s2.
              and_then st float_diff memory (print_all st float_diff memory rounds fuel sc' s2)
                (λ (recs, sc2) s3. some (ok (rec ∷ recs, sc2), s3)))))
          (sym got) (printed rec q' (print_all st float_diff memory rounds fuel sc' s') tail))

  -- The loop of `UT_Print` ends within one round more than there are records, and prints exactly the
  -- records that are left to its scan, in their order, or fails with a code of `readPage`.
  pub print_all-PrintOf :
      (rounds : ℕ) (sc : HeapFileScan) (s : State) (q : List Record)
      → Scans st float_diff v laws no_eof fuel sc s q
      → length q < rounds
      → PrintOf q (print_all st float_diff memory rounds fuel sc s)
  unfolding print_all next
  print_all-PrintOf zero sc s q h low = absurd (omega (arith, low))
  print_all-PrintOf (suc rounds) sc s q h low =
      round rounds sc s q h (scan_next st float_diff fuel sc s)
        (Scans-NextOf st float_diff v laws no_eof fuel h) low (print_all-PrintOf rounds)
