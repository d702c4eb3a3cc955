-- ===== src/Query/Select.antt =====
-- The relational operators `QU_Select` and `ScanSelect` of part5/part5/select.C.
--
-- `stack` is what the memory of the new records' bytes holds, `ad` and `rd` what the two descriptions do.
use Prim.Native.String.{String}
use ubase.Base.{ℕ, zero, suc, Option, none, some, List, [], ◌∷◌, if◌then◌else◌, ◌==◌}
use ubase.Catalog.{C, ◌>>=◌, pure, current}
use ubase.Catalog.Descriptors.{AttrDesc, AttrInfo, strcpy}
use ubase.Catalog.Relations.{attr_get_info}
use ubase.HeapFile.{HeapFile}
use ubase.HeapFile.Match.{Diff, Operator}
use ubase.HeapFile.Match.Datatype.{string, integer, float}
use ubase.HeapFile.Scan.{HeapFileScan}
use ubase.Query.{signed, key}
use ubase.Query.Bytes.{total_len, project, string_of}
use ubase.Query.Steps.{
  open_scan, open_insert, begin, until_eof, insert, end_scan, end_insert, describe,
}
use ubase.SortedFile.{copy}
use ubase.Storage.{Storage}

module _ (st : Storage) (float_diff : List ℕ → List ℕ → Diff) (memory : HeapFileScan) where
  abbrev Op : Type 0 → Type 0
  Op A = C st float_diff memory A

  infixl 5 ◌>>◌
  abbrev ◌>>◌ : {A B : Type 0} → Op A → (A → Op B) → Op B
  m >> k = ◌>>=◌ st float_diff memory m k

  abbrev give : {A : Type 0} → A → Op A
  give a = pure st float_diff memory a

  -- The scan starts with a filter of the type of the attribute; NULL stays NULL.
  unfoldable pub begin_select :
      (atoi atof : List ℕ → List ℕ)
      → AttrDesc
      → Operator
      → (filter : Option (List ℕ)) → HeapFileScan
      → Op HeapFileScan
  unfolding signed key
  begin_select atoi atof ad op filter sc =
      let type =
        if ad.attr_type == 1 then integer else if ad.attr_type == 2 then float else string in
      begin st float_diff memory (signed ad.attr_offset) (signed ad.attr_len) type
        (elim filter [ none ↦ none | some bytes ↦ some (key atoi atof ad.attr_type bytes) ]) op sc

  -- The loop; `buf` holds the bytes of the new record.
  unfoldable pub select_all :
      (rounds fuel : ℕ)
      → List AttrDesc
      → (buf : List ℕ) → HeapFileScan
      → HeapFile
      → Op (HeapFileScan × HeapFile)
  unfolding until_eof project
  select_all zero fuel attrs buf sc h = λ s. none
  select_all (suc rounds) fuel attrs buf sc h =
      until_eof st float_diff memory fuel sc >> λ (found, sc1).
      if found
      then (current st float_diff memory sc1 >> λ rec.
          let buf1 = project attrs 0 rec buf in
          insert st float_diff memory fuel buf1 h >> λ h1. select_all rounds fuel attrs buf1 sc1 h1)
      else give (sc1, h)

  unfoldable pub scan_select :
      (atoi atof : List ℕ → List ℕ)
      → (stack : List ℕ) → (rounds fuel : ℕ) → (result : String) → List AttrDesc
      → AttrDesc
      → Operator
      → (filter : Option (List ℕ)) → (rec_len : ℕ) → Op (Unit {0})
  unfolding string_of begin_select select_all copy
  scan_select atoi atof stack rounds fuel result attrs ad op filter rec_len =
      open_scan st float_diff memory (string_of ad.rel_name) >> λ sc.
      open_insert st float_diff memory result >> λ h.
      begin_select atoi atof ad op filter sc >> λ sc1.
      select_all rounds fuel attrs (copy rec_len stack) sc1 h >> λ (sc2, h1).
      end_scan st float_diff memory sc2 >> λ _. end_insert st float_diff memory h1

  -- The loop of `QU_Select` and of `QU_NL_Join` over the projection: the descriptions.
  unfoldable pub describe_all : (rounds fuel : ℕ) → AttrDesc → List AttrInfo → Op (List AttrDesc)
  unfolding attr_get_info string_of
  describe_all rounds fuel ad [] = give []
  describe_all rounds fuel ad (a ∷ names) = describe st float_diff memory rounds fuel ad a >> λ ad1.
      describe_all rounds fuel ad1 names >> λ attrs. give (ad1 ∷ attrs)

  -- The relation of the first name of the projection.
  abbrev first_relation : List AttrInfo → List ℕ
  first_relation [] = []
  first_relation (a ∷ names) = a.rel_name

  unfoldable pub qu_select :
      (atoi atof : List ℕ → List ℕ)
      → (stack : List ℕ) → (ad rd : AttrDesc) → (rounds fuel : ℕ) → (result : String)
      → List AttrInfo
      → (attr : Option AttrInfo) → Operator
      → (value : List ℕ) → Op (Unit {0})
  unfolding attr_get_info string_of describe_all total_len strcpy scan_select
  qu_select atoi atof stack ad rd rounds fuel result names none op value =
      describe_all rounds fuel ad names >> λ attrs.
      scan_select atoi atof stack rounds fuel result attrs
        (record rd {
          attr_offset = 0;
          attr_len = 0;
          attr_type = 0;
          rel_name = strcpy rd.rel_name (first_relation names);
        })
        op none (total_len attrs)
  qu_select atoi atof stack ad rd rounds fuel result names (some a) op value =
      describe_all rounds fuel ad names >> λ attrs.
      describe st float_diff memory rounds fuel rd a >> λ rd1.
      scan_select atoi atof stack rounds fuel result attrs rd1 op (some value) (total_len attrs)
