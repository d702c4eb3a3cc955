-- ===== src/Query/Update.antt =====
-- The relational operator `QU_Update` of part5/part5/update.C, which deletes the records that match.
--
-- `rd` is what the description of the attribute holds at first.
use Prim.Native.String.{String}
use ubase.Base.{
  ℕ, zero, suc, Bool, true, false, Option, none, some, List, [], ◌∷◌, if◌then◌else◌, ◌==◌,
}
use ubase.Catalog.{C, ◌>>=◌, pure, fail, current, remove, is_empty}
use ubase.Catalog.Descriptors.{AttrDesc, AttrInfo}
use ubase.Catalog.Relations.{attr_get_info}
use ubase.HeapFile.Match.{Diff, Operator}
use ubase.HeapFile.Match.Datatype.{string, integer, float}
use ubase.HeapFile.Scan.{HeapFileScan}
use ubase.Query.{signed, key, described}
use ubase.Query.Bytes.{string_of}
use ubase.Query.Steps.{open_scan, open_insert, begin, until_eof, end_scan, end_insert}
use ubase.Status.{Status, Result, ok, err, bad_cat_parm}
use ubase.Storage.{Storage}

module _ (st : Storage) (float_diff : List ℕ → List ℕ → Diff) (memory : HeapFileScan) where
  abbrev Op : Type 0 → Type 0
  Op A = C st float_diff memory A

  infixl 5 ◌>>◌
  abbrev ◌>>◌ : {A B : Type 0} → Op A → (A → Op B) → Op B
  m >> k = ◌>>=◌ st float_diff memory m k

  abbrev give : {A : Type 0} → A → Op A
  give a = pure st float_diff memory a

  abbrev stop : {A : Type 0} → Status → Op A
  stop e = fail st float_diff memory e

  -- The catalog is asked for each of the values; what it says is not used.
  unfoldable pub look_up_values : (rounds fuel : ℕ) → List AttrInfo → Op (Unit {0})
  unfolding attr_get_info string_of
  look_up_values rounds fuel [] = give tt
  look_up_values rounds fuel (a ∷ values) =
      attr_get_info st float_diff memory rounds fuel (string_of a.rel_name) (string_of a.attr_name)
      >> λ _. look_up_values rounds fuel values

  unfoldable pub update_all : (rounds fuel : ℕ) → List AttrInfo → HeapFileScan → Op HeapFileScan
  unfolding until_eof look_up_values
  update_all zero fuel values sc = λ s. none
  update_all (suc rounds) fuel values sc = until_eof st float_diff memory fuel sc >> λ (found, sc1).
      if found
      then (current st float_diff memory sc1 >> λ rec. remove st float_diff memory sc1 >> λ sc2.
          look_up_values rounds fuel values >> λ _. update_all rounds fuel values sc2)
      else give sc1

  -- The answer where the scan of an integer attribute does not start is OK.
  abbrev unstarted :
      (integer_ : Bool)
      → Option (Result HeapFileScan × st.State)
      → Option (Result (Option HeapFileScan) × st.State)
  unstarted b none = none
  unstarted b (some (ok sc, s)) = some (ok (some sc), s)
  unstarted true (some (err e, s)) = some (ok none, s)
  unstarted false (some (err e, s)) = some (err e, s)

  unfoldable pub begin_update :
      (atoi atof : List ℕ → List ℕ)
      → AttrDesc
      → Operator
      → (value : List ℕ) → HeapFileScan
      → Op (Option HeapFileScan)
  unfolding signed key
  begin_update atoi atof rd op value sc s =
      let type =
        if rd.attr_type == 1 then integer else if rd.attr_type == 2 then float else string in
      unstarted (rd.attr_type == 1) (
        begin st float_diff memory (signed rd.attr_offset) (signed rd.attr_len) type
          (some (key atoi atof rd.attr_type value)) op sc s)

  unfoldable pub qu_update :
      (atoi atof : List ℕ → List ℕ)
      → (rd : AttrDesc) → (rounds fuel : ℕ) → (relation : String) → (values : List AttrInfo)
      → (attr_name : String) → Operator
      → (value : List ℕ) → Op (Unit {0})
  unfolding attr_get_info begin_update update_all
  qu_update atoi atof rd rounds fuel relation values attr_name op value =
      if is_empty relation
      then stop bad_cat_parm
      else open_insert st float_diff memory relation >> λ h.
          open_scan st float_diff memory relation >> λ sc.
          attr_get_info st float_diff memory rounds fuel relation attr_name >> λ d.
          begin_update atoi atof (described rd d) op value sc >> λ start. elim start [
            | none ↦ give tt
            | some sc1 ↦ update_all rounds fuel values sc1 >> λ sc2.
                end_scan st float_diff memory sc2 >> λ _. end_insert st float_diff memory h
          ]
