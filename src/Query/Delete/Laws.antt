-- ===== src/Query/Delete/Laws.antt =====
-- The loop of `QU_Delete` of part5/part5/delete.C.
use ubase.Base.{ℕ, ◌+◌, ◌<◌, ◌≡◌, ◌⊎◌, some, List, length}
use ubase.HeapFile.Match.{Diff}
use ubase.HeapFile.Position.{At}
use ubase.HeapFile.Scan.{HeapFileScan}
use ubase.HeapFile.Scan.Next.Round.{left}
use ubase.Page
use ubase.Page.{Page, Rid, Record}
use ubase.Query.Delete.{Deleted, delete_all}
use ubase.Status.{Status, Result, ok, err, bad_page_no, invalid_slot_no}
use ubase.Storage.{Storage}
use ubase.Storage.Laws.{View, Obeys}
use ubase.Query.Delete.Matching.{matching}
use ubase.Query.Delete.Emptied.{EndOf, Took}

module _ (st : Storage) (float_diff : List ℕ → List ℕ → Diff) (memory : HeapFileScan) (v : View st)
    (laws : Obeys v) where
  open st use {State, page, header}
  open v use {content}

  -- What is left after the current record was deleted.
  abbrev CurrentOf :
      HeapFileScan → State → List ℕ → Rid → Result (Unit {0}) × HeapFileScan × State → Type 0
  CurrentOf sc s ns rid (ok _, sc', s') =
      At st v sc'.base s' ns
      × (left st float_diff v laws sc' s' ns ≡ left st float_diff v laws sc s ns)
      × Took st float_diff memory v laws sc s sc' s' rid
  CurrentOf sc s ns rid (err e, sc', s') = (e ≡ bad_page_no) ⊎ (e ≡ invalid_slot_no)

  abbrev RecordOf : Result Record → Type 0
  RecordOf (ok rec) = Unit
  RecordOf (err e) = (e ≡ bad_page_no) ⊎ (e ≡ invalid_slot_no)

  -- The loop with fewer rounds ends.
  abbrev Rest : (rounds fuel : ℕ) → Type 0
  Rest rounds fuel =
      (sc : HeapFileScan) (s : State) (ns : List ℕ)
      → At st v sc.base s ns
      → length (left st float_diff v laws sc s ns) < rounds
      → length (left st float_diff v laws sc s ns) + length ns < fuel
      → EndOf st float_diff memory v laws sc s
          (matching float_diff sc.filter (left st float_diff v laws sc s ns))
          (delete_all st float_diff memory rounds fuel sc s)

  -- What the loop does with the answer of its body.
  abbrev goes_on :
      (rounds fuel : ℕ) → Result (Unit {0}) × HeapFileScan × State → Deleted st float_diff memory
  goes_on rounds fuel w = elim w.0 [
    | err e ↦ some (err e, w.1, w.2)
    | ok _ ↦ delete_all st float_diff memory rounds fuel w.1 w.2
  ]
