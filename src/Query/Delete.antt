-- ===== src/Query/Delete.antt =====
-- The relational operator `QU_Delete` of part5/part5/delete.C, with a comparison value that is not NULL.
--
-- `atoi` and `atof` of the C library, which give the four bytes of a number here, are parameters, and
-- so is the description `ad`, which stays as the stack has it where the attribute is not found. The
-- loop over the records runs on `rounds`, the scans on `fuel`.
pub mod Emptied
pub mod Laws
pub mod Matching
use Prim.Native.String.{String}
use ubase.Base.{ℕ, zero, suc, ◌-◌, ◌+◌, Option, none, some, List, ltb, if◌then◌else◌, ◌==◌}
use ubase.Catalog.{C}
use ubase.Catalog.Descriptors.{AttrDesc}
use ubase.Catalog.Relations.{rel_get_info, attr_get_info}
use ubase.HeapFile.Change.{delete_record}
use ubase.HeapFile.Match.{Diff, Datatype, Operator, wrap, half}
use ubase.HeapFile.Scan.{HeapFileScan, ℤ, new_scan, start_scan, scan_next, get_record, close_scan}
use ubase.Page.{Rid, Record}
use ubase.Status.{Status, Result, ok, err, file_eof}
use ubase.Query.{signed, key, described}
use ubase.Storage.{Storage}

module _ (st : Storage) (float_diff : List ℕ → List ℕ → Diff) (memory : HeapFileScan) where
  open st use {State}

  abbrev pub Deleted : Type 0
  Deleted = Option (Result (Unit {0}) × HeapFileScan × State)

  -- The body of the loop: the record is read and deleted.
  unfoldable pub delete_current : HeapFileScan → State → Result (Unit {0}) × HeapFileScan × State
  unfolding get_record delete_record
  delete_current sc s = elim (get_record st float_diff sc s) [
    | err e ↦ (err e, sc, s)
    | ok _ ↦ delete_record st sc s
  ]

  abbrev pub finish : Result Rid → HeapFileScan → State → Deleted
  finish (err file_eof) sc s = some (ok tt, sc, s)
  finish (err e) sc s = some (err e, sc, s)
  finish (ok _) sc s = none

  -- The loop over the records that the scan finds.
  unfoldable pub delete_all : (rounds fuel : ℕ) → HeapFileScan → State → Deleted
  unfolding scan_next delete_current
  delete_all zero fuel sc s = none
  delete_all (suc rounds) fuel sc s = elim (scan_next st float_diff fuel sc s) [
    | none ↦ none
    | some (err e, sc1, s1) ↦ finish (err e) sc1 s1
    | some (ok _, sc1, s1) ↦
        let (r, sc2, s2) = delete_current sc1 s1 in
        elim r [ err e ↦ some (err e, sc2, s2) | ok _ ↦ delete_all rounds fuel sc2 s2 ]
  ]

  -- `QU_Delete` behind the two look-ups, with the description of the attribute.
  unfoldable pub delete_matching :
      (atoi atof : List ℕ → List ℕ)
      → (rounds fuel : ℕ) → AttrDesc
      → Operator
      → Datatype
      → List ℕ
      → HeapFileScan
      → State
      → Option (Result (Unit {0}) × State)
  unfolding key signed start_scan delete_all close_scan
  delete_matching atoi atof rounds fuel ad op type value sc s =
      let (r, sc1, s1) =
        start_scan st float_diff (signed ad.attr_offset) (signed ad.attr_len) type
          (some (key atoi atof ad.attr_type value)) op sc s in
      elim r [
        | err e ↦ some (err e, s1)
        | ok _ ↦ elim (delete_all rounds fuel sc1 s1) [
          | none ↦ none
          | some (err e, sc2, s2) ↦ some (err e, s2)
          | some (ok _, sc2, s2) ↦ some (ok tt, close_scan st float_diff sc2 s2)
        ]
      ]

  -- `QU_Delete`. Where it returns early the scan of the relation stays open.
  unfoldable pub qu_delete :
      (atoi atof : List ℕ → List ℕ)
      → (ad : AttrDesc) → (rounds fuel : ℕ) → (relation attr_name : String) → Operator
      → Datatype
      → List ℕ
      → C st float_diff memory (Unit {0})
  unfolding new_scan rel_get_info attr_get_info delete_matching
  qu_delete atoi atof ad rounds fuel relation attr_name op type value s =
      let (r, s1) = new_scan st float_diff memory relation s in
      elim r [
        | err e ↦ some (err e, s1)
        | ok sc ↦ elim (rel_get_info st float_diff memory fuel relation s1) [
          | none ↦ none
          | some (err e, s2) ↦ some (err e, s2)
          | some (ok _, s2) ↦
              elim (attr_get_info st float_diff memory rounds fuel relation attr_name s2) [
                | none ↦ none
                | some (err e, s3) ↦ some (err e, s3)
                | some (ok d, s3) ↦
                    delete_matching atoi atof rounds fuel (described ad d) op type value sc s3
              ]
        ]
      ]
