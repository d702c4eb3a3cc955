-- ===== src/Query/Join.antt =====
-- The joins of part5/part5/join.C: `QU_Join` and the nested-loops join; the other two make no result.
--
-- `stack` is what the memory of the new records' bytes holds, `ad`, `ad1` and `ad2` what the descriptions
-- do. The source copies a string of the outer record over a single `char`, and reads it back from there:
-- here it is the bytes of the string. `matchRec`, which nothing calls, is left out.
use Prim.Native.String.{String}
use ubase.Base.{
  ℕ, zero, suc, ◌+◌, Bool, true, false, none, some, List, [], ◌∷◌, if◌then◌else◌, ◌==◌,
}
use ubase.Catalog.{C, ◌>>=◌, pure, current}
use ubase.Catalog.Descriptors.{AttrDesc, AttrInfo, same_string}
use ubase.Catalog.Relations.{attr_get_info}
use ubase.HeapFile.{HeapFile}
use ubase.HeapFile.Match.{Diff, Datatype, Operator}
use ubase.HeapFile.Match.Datatype.{string, integer, float}
use ubase.HeapFile.Scan.{HeapFileScan, ℤ}
use ubase.Page.{Record}
use ubase.Query.{signed}
use ubase.Query.Bytes.{put, field, total_len, string_of}
use ubase.Query.Steps.{
  open_scan, open_insert, begin, until_eof, insert, end_scan, end_insert, describe,
}
use ubase.SortedFile.{copy}
use ubase.Storage.{Storage}
use ubase.Query.Select.{describe_all}

-- `JoinType`
pub data JoinType : Type 0 where
  nl_join : JoinType
  sm_join : JoinType
  hash_join : JoinType

abbrev pub is_eq : Operator → Bool
is_eq Operator.eq = true
is_eq op = false

-- The bytes of a joined record, with the names of the projection and their descriptions.
unfoldable pub join_record :
    (names : List AttrInfo)
    → List AttrDesc
    → (outer inner : AttrInfo) → (at : ℕ) → (rec record_ : Record) → (buf : List ℕ) → List ℕ
unfolding same_string put field
join_record [] attrs outer inner at rec record_ buf = buf
join_record (n ∷ names) [] outer inner at rec record_ buf = buf
join_record (n ∷ names) (a ∷ attrs) outer inner at rec record_ buf =
    let buf1 = if same_string n.rel_name outer.rel_name then put at (field a rec) buf else buf in
    let buf2 =
      if same_string n.rel_name inner.rel_name then put at (field a record_) buf1 else buf1 in
    join_record names attrs outer inner (at + a.attr_len) rec record_ buf2

module _ (st : Storage) (float_diff : List ℕ → List ℕ → Diff) (memory : HeapFileScan) where
  abbrev Op : Type 0 → Type 0
  Op A = C st float_diff memory A

  infixl 5 ◌>>◌
  abbrev ◌>>◌ : {A B : Type 0} → Op A → (A → Op B) → Op B
  m >> k = ◌>>=◌ st float_diff memory m k

  abbrev give : {A : Type 0} → A → Op A
  give a = pure st float_diff memory a

  -- The scan of the inner relation starts with the attribute of the outer record.
  unfoldable pub begin_inner :
      (outer inner : AttrDesc) → Operator → Record → HeapFileScan → Op HeapFileScan
  unfolding signed field
  begin_inner outer inner op rec sc =
      let start = λ (type : Datatype).
        begin st float_diff memory (signed inner.attr_offset) (signed inner.attr_len) type
          (some (field outer rec)) op sc in
      if outer.attr_type == 1
      then start integer
      else if outer.attr_type == 2
      then start float
      else if outer.attr_type == 0
      then start string
      else give sc

  -- The inner loop.
  unfoldable pub join_inner :
      (rounds fuel : ℕ)
      → (names : List AttrInfo) → List AttrDesc
      → (outer inner : AttrInfo) → (rec : Record) → (buf : List ℕ) → HeapFileScan
      → HeapFile
      → Op (List ℕ × HeapFileScan × HeapFile)
  unfolding until_eof join_record
  join_inner zero fuel names attrs outer inner rec buf sc h = λ s. none
  join_inner (suc rounds) fuel names attrs outer inner rec buf sc h =
      until_eof st float_diff memory fuel sc >> λ (found, sc1).
      if found
      then (current st float_diff memory sc1 >> λ rec2.
          let buf1 = join_record names attrs outer inner 0 rec rec2 buf in
          insert st float_diff memory fuel buf1 h >> λ h1.
          join_inner rounds fuel names attrs outer inner rec buf1 sc1 h1)
      else give (buf, sc1, h)

  -- The outer loop.
  unfoldable pub join_outer :
      (rounds fuel : ℕ)
      → (names : List AttrInfo) → List AttrDesc
      → (outer inner : AttrInfo) → (ad1 ad2 : AttrDesc) → Operator
      → (buf : List ℕ) → HeapFileScan
      → HeapFile
      → Op (HeapFileScan × HeapFile)
  unfolding until_eof string_of begin_inner join_inner
  join_outer zero fuel names attrs outer inner ad1 ad2 op buf sc h = λ s. none
  join_outer (suc rounds) fuel names attrs outer inner ad1 ad2 op buf sc h =
      until_eof st float_diff memory fuel sc >> λ (found, sc1).
      if found
      then (open_scan st float_diff memory (string_of inner.rel_name) >> λ in_sc.
          current st float_diff memory sc1 >> λ rec. begin_inner ad1 ad2 op rec in_sc >> λ in_sc1.
          join_inner rounds fuel names attrs outer inner rec buf in_sc1 h >> λ (buf1, in_sc2, h1).
          end_scan st float_diff memory in_sc2 >> λ _.
          join_outer rounds fuel names attrs outer inner ad1 ad2 op buf1 sc1 h1)
      else give (sc1, h)

  unfoldable pub qu_nl_join :
      (stack : List ℕ)
      → (ad ad1 ad2 : AttrDesc) → (rounds fuel : ℕ) → (result : String) → (names : List AttrInfo)
      → (outer : AttrInfo) → Operator
      → (inner : AttrInfo) → Op (Unit {0})
  unfolding string_of describe_all attr_get_info total_len copy join_outer
  qu_nl_join stack ad ad1 ad2 rounds fuel result names outer op inner =
      open_scan st float_diff memory (string_of outer.rel_name) >> λ sc.
      open_insert st float_diff memory result >> λ h.
      describe_all st float_diff memory rounds fuel ad names >> λ attrs.
      describe st float_diff memory rounds fuel ad1 outer >> λ outer_ad.
      describe st float_diff memory rounds fuel ad2 inner >> λ inner_ad.
      begin st float_diff memory (ℤ.pos 0) (ℤ.pos 0) string none Operator.eq sc >> λ sc1.
      join_outer rounds fuel names attrs outer inner outer_ad inner_ad op
        (copy (total_len attrs) stack) sc1 h
      >> λ (sc2, h1). end_scan st float_diff memory sc2 >> λ _. end_insert st float_diff memory h1

  unfoldable pub qu_sm_join : Op (Unit {0})
  qu_sm_join = give tt

  unfoldable pub qu_hash_join : Op (Unit {0})
  qu_hash_join = give tt

  unfoldable pub qu_join :
      (stack : List ℕ)
      → (ad ad1 ad2 : AttrDesc) → JoinType
      → (rounds fuel : ℕ) → (result : String) → (names : List AttrInfo) → (outer : AttrInfo)
      → Operator
      → (inner : AttrInfo) → Op (Unit {0})
  unfolding qu_nl_join qu_sm_join qu_hash_join
  qu_join stack ad ad1 ad2 nl_join rounds fuel result names outer op inner =
      qu_nl_join stack ad ad1 ad2 rounds fuel result names outer op inner
  qu_join stack ad ad1 ad2 sm_join rounds fuel result names outer op inner = qu_sm_join
  qu_join stack ad ad1 ad2 hash_join rounds fuel result names outer op inner =
      if is_eq op
      then qu_hash_join
      else qu_nl_join stack ad ad1 ad2 rounds fuel result names outer op inner
