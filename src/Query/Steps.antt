-- ===== src/Query/Steps.antt =====
-- The calls that the relational operators of part5/part5 make of the heap files, as operations that may
-- run out of fuel.
use Prim.Native.String.{String}
use ubase.Base.{ℕ, Bool, true, false, Option, none, some, List}
use ubase.Catalog.{C}
use ubase.Catalog.Descriptors.{AttrDesc, AttrInfo}
use ubase.Catalog.Relations.{attr_get_info}
use ubase.HeapFile.{HeapFile}
use ubase.HeapFile.Insert.{new_insert, insert_record, close_insert}
use ubase.HeapFile.Match.{Diff, Datatype, Operator}
use ubase.HeapFile.Scan.{HeapFileScan, ℤ, new_scan, start_scan, scan_next, close_scan}
use ubase.Page.{Rid, Record}
use ubase.Query.{described}
use ubase.Query.Bytes.{string_of}
use ubase.Status.{Result, ok, err, file_eof}
use ubase.Storage.{Storage}

module _ (st : Storage) (float_diff : List ℕ → List ℕ → Diff) (memory : HeapFileScan) where
  open st use {State}

  abbrev Op : Type 0 → Type 0
  Op A = C st float_diff memory A

  abbrev pub open_scan : String → Op HeapFileScan
  open_scan name s = some (new_scan st float_diff memory name s)

  abbrev pub open_insert : String → Op HeapFile
  open_insert name s = some (new_insert st name s)

  abbrev started : Result (Unit {0}) × HeapFileScan × State → Option (Result HeapFileScan × State)
  started (ok _, sc, s) = some (ok sc, s)
  started (err e, sc, s) = some (err e, s)

  abbrev pub begin :
      (offset length : ℤ) → Datatype → Option (List ℕ) → Operator → HeapFileScan → Op HeapFileScan
  begin offset len type filter op sc s =
      started (start_scan st float_diff offset len type filter op sc s)

  abbrev more :
      Option (Result Rid × HeapFileScan × State) → Option (Result (Bool × HeapFileScan) × State)
  more none = none
  more (some (err file_eof, sc, s)) = some (ok (false, sc), s)
  more (some (r, sc, s)) = some (ok (true, sc), s)

  -- `scanNext(rid) != FILEEOF`: every other code counts as a record.
  unfoldable pub until_eof : (fuel : ℕ) → HeapFileScan → Op (Bool × HeapFileScan)
  unfolding scan_next
  until_eof fuel sc s = more (scan_next st float_diff fuel sc s)

  abbrev inserted : Option (Result Rid × HeapFile × State) → Option (Result HeapFile × State)
  inserted none = none
  inserted (some (ok rid, h, s)) = some (ok h, s)
  inserted (some (err e, h, s)) = some (err e, s)

  abbrev pub insert : (fuel : ℕ) → Record → HeapFile → Op HeapFile
  insert fuel rec h s = inserted (insert_record st fuel rec h s)

  abbrev pub end_scan : HeapFileScan → Op (Unit {0})
  end_scan sc s = some (ok tt, close_scan st float_diff sc s)

  abbrev pub end_insert : HeapFile → Op (Unit {0})
  end_insert h s = some (ok tt, close_insert st h s)

  abbrev get_description :
      AttrDesc → Option (Result (Option AttrDesc) × State) → Option (Result AttrDesc × State)
  get_description ad none = none
  get_description ad (some (err e, s)) = some (err e, s)
  get_description ad (some (ok d, s)) = some (ok (described ad d), s)

  -- `attrCat->getInfo` with names in arrays; `ad` is what the description holds before.
  abbrev pub describe : (rounds fuel : ℕ) → AttrDesc → AttrInfo → Op AttrDesc
  describe rounds fuel ad a s = get_description ad (
      attr_get_info st float_diff memory rounds fuel (string_of a.rel_name) (string_of a.attr_name)
        s)
