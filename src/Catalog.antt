-- ===== src/Catalog.antt =====
-- The catalogs of part5/part5/catalog.h, catalog.C, create.C and destroy.C: the relations and their
-- attributes, kept as records of the heap files `relcat` and `attrcat`.
--
-- A `char[32]` is the list of its bytes. The objects that an operation makes with `new` are values; where
-- it returns early the source does not delete them, so that their pages stay pinned. The scans run on
-- fuel: `none` is an operation that has used it up. `memory` is what a new `HeapFileScan` finds in the
-- members that its constructor does not set.
pub mod Descriptors
pub mod Relations
pub mod Names
pub mod Cycle
use Prim.Native.String.{String}
use ubase.Base.{
  ℕ, zero, suc, ◌+◌, Bool, true, false, Option, none, some, List, [], ◌∷◌, ◌++◌, length, drop,
  if◌then◌else◌, ◌||◌,
}
use ubase.Catalog.Descriptors.{
  RelDesc, AttrDesc, rel_bytes, rel_of, attr_bytes, attr_of, c_str, max_name, is_name,
}
use ubase.HeapFile.{HeapFile}
use ubase.HeapFile.Insert.{new_insert, insert_record, close_insert}
use ubase.HeapFile.Change.{delete_record}
use ubase.HeapFile.Match.{Diff, Datatype, Operator}
use ubase.HeapFile.Scan.{HeapFileScan, ℤ, new_scan, start_scan, scan_next, get_record, close_scan}
use ubase.Page.{Rid, Record}
use ubase.Status.{Status, Result, ok, err, bad_cat_parm, rel_not_found, file_eof}
use ubase.Storage.{Storage}

abbrev pub rel_cat_name : String
rel_cat_name = "relcat"

abbrev pub attr_cat_name : String
attr_cat_name = "attrcat"

abbrev pub is_empty : String → Bool
is_empty String.[] = true
is_empty (String.◌∷◌ c s) = false

abbrev pub string_length : String → ℕ
string_length String.[] = 0
string_length (String.◌∷◌ c s) = suc (string_length s)

module _ (st : Storage) (float_diff : List ℕ → List ℕ → Diff) (memory : HeapFileScan) where
  open st use {State}

  -- Operations that may run out of fuel.
  abbrev pub C : Type 0 → Type 0
  C A = State → Option (Result A × State)

  abbrev pub and_then :
      {A B : Type 0} → Option (Result A × State) → (A → C B) → Option (Result B × State)
  and_then none k = none
  and_then (some (err e, s)) k = some (err e, s)
  and_then (some (ok a, s)) k = k a s

  infixl 5 ◌>>=◌
  abbrev pub ◌>>=◌ : {A B : Type 0} → C A → (A → C B) → C B
  ◌>>=◌ m k s = and_then (m s) k

  abbrev pub pure : {A : Type 0} → A → C A
  pure a s = some (ok a, s)

  abbrev pub fail : {A : Type 0} → Status → C A
  fail e s = some (err e, s)

  -- A scan of a catalog for the records that begin with the first `n` bytes of a name. What `startScan`
  -- returns is not looked at.
  unfoldable pub begin_scan : (cat : String) → (n : ℕ) → (name : String) → C HeapFileScan
  unfolding new_scan start_scan c_str
  begin_scan cat n name s =
      let (r, s1) = new_scan st float_diff memory cat s in
      elim r [
        | err e ↦ some (err e, s1)
        | ok sc ↦
            let (_, sc1, s2) =
              start_scan st float_diff (ℤ.pos 0) (ℤ.pos n) Datatype.string (some (c_str name))
                Operator.eq sc s1 in
            some (ok sc1, s2)
      ]

  abbrev pub scanned :
      Option (Result Rid × HeapFileScan × State) → Option (Result (Bool × HeapFileScan) × State)
  scanned none = none
  scanned (some (ok rid, sc, s)) = some (ok (true, sc), s)
  scanned (some (err file_eof, sc, s)) = some (ok (false, sc), s)
  scanned (some (err e, sc, s)) = some (err e, s)

  -- Whether there is a next record.
  unfoldable pub next : (fuel : ℕ) → HeapFileScan → C (Bool × HeapFileScan)
  unfolding scan_next
  next fuel sc s = scanned (scan_next st float_diff fuel sc s)

  abbrev pub current : HeapFileScan → C Record
  current sc s = some (get_record st float_diff sc s, s)

  abbrev pub removed :
      Result (Unit {0}) × HeapFileScan × State → Option (Result HeapFileScan × State)
  removed (ok _, sc, s) = some (ok sc, s)
  removed (err e, sc, s) = some (err e, s)

  abbrev pub remove : HeapFileScan → C HeapFileScan
  remove sc s = removed (delete_record st sc s)

  abbrev pub close : HeapFileScan → C (Unit {0})
  close sc s = some (ok tt, close_scan st float_diff sc s)

  -- A record is put into a catalog, through an `InsertFileScan` of its own.
  abbrev pub inserted : Option (Result Rid × HeapFile × State) → Option (Result HeapFile × State)
  inserted none = none
  inserted (some (ok rid, h, s)) = some (ok h, s)
  inserted (some (err e, h, s)) = some (err e, s)

  unfoldable pub add_record : (fuel : ℕ) → (cat : String) → Record → C (Unit {0})
  unfolding new_insert insert_record close_insert
  add_record fuel cat rec s =
      let (r, s1) = new_insert st cat s in
      elim r [
        | err e ↦ some (err e, s1)
        | ok h ↦
            and_then (inserted (insert_record st fuel rec h s1))
              (λ h1 s2. some (ok tt, close_insert st h1 s2))
      ]
