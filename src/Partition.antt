-- ===== src/Partition.antt =====
-- The class `Partition` of part5/part5/partition.h and partition.C: a heap file is split by a hash
-- function.
--
-- The caller's `hashfcn` is a parameter. Where it does not stay below the number of partitions the source
-- reads behind its array, and `none` is the answer here, as where a loop has used up its rounds.
use Prim.Native.String.{String, ◌++◌}
use ubase.Base.{ℕ, zero, suc, Option, none, some, List, [], ◌∷◌}
use ubase.Catalog.{C, ◌>>=◌, pure, current, next}
use ubase.HeapFile.{HeapFile}
use ubase.HeapFile.Match.{Diff, Datatype, Operator}
use ubase.HeapFile.Scan.{HeapFileScan, ℤ}
use ubase.Page.{Record}
use ubase.Query.Steps.{open_insert, begin, insert, end_insert}
use ubase.SortedFile.{decimal}
use ubase.Base.{if◌then◌else◌}
use ubase.Storage.{Storage}

unfoldable pub part_name : String → ℕ → String
unfolding decimal
part_name file_name p = "/tmp/" ++ file_name ++ "." ++ decimal 10 p ++ "\0"

-- The partition with the number, and the list with another one in its place.
abbrev pub focus : ℕ → List HeapFile → Option (HeapFile × (HeapFile → List HeapFile))
focus p [] = none
focus zero (h ∷ hs) = some (h, λ x. x ∷ hs)
focus (suc p) (h ∷ hs) = elim (focus p hs) [
  | none ↦ none
  | some (found, back) ↦ some (found, λ x. h ∷ back x)
]

module _ (st : Storage) (float_diff : List ℕ → List ℕ → Diff) (memory : HeapFileScan) where
  abbrev Op : Type 0 → Type 0
  Op A = C st float_diff memory A

  infixl 5 ◌>>◌
  abbrev ◌>>◌ : {A B : Type 0} → Op A → (A → Op B) → Op B
  m >> k = ◌>>=◌ st float_diff memory m k

  abbrev give : {A : Type 0} → A → Op A
  give a = pure st float_diff memory a

  -- The files of the partitions from number `p` on.
  unfoldable pub open_parts : (count p : ℕ) → String → Op (List HeapFile)
  unfolding part_name
  open_parts zero p file_name = give []
  open_parts (suc count) p file_name =
      open_insert st float_diff memory (part_name file_name p) >> λ h.
      open_parts count (suc p) file_name >> λ hs. give (h ∷ hs)

  -- The loop over the records.
  unfoldable pub split_all :
      (hashfcn : Record → ℕ → ℕ)
      → (total : ℕ) → (rounds fuel : ℕ) → HeapFileScan
      → List HeapFile
      → Op (HeapFileScan × List HeapFile)
  unfolding next
  split_all hashfcn total zero fuel sc parts = λ s. none
  split_all hashfcn total (suc rounds) fuel sc parts =
      next st float_diff memory fuel sc >> λ (found, sc1).
      if found
      then (current st float_diff memory sc1 >> λ rec. elim (focus (hashfcn rec total) parts) [
        | none ↦ λ s. none
        | some (h, back) ↦ insert st float_diff memory fuel rec h >> λ h1.
            split_all hashfcn total rounds fuel sc1 (back h1)
      ])
      else give (sc1, parts)

  unfoldable pub close_parts : List HeapFile → Op (Unit {0})
  close_parts [] = give tt
  close_parts (h ∷ hs) = end_insert st float_diff memory h >> λ _. close_parts hs

  -- The constructor. The names that it hands out are those of `part_name`; `endScan` does nothing.
  unfoldable pub new_partition :
      (hashfcn : Record → ℕ → ℕ)
      → (total : ℕ) → (rounds fuel : ℕ) → (file_name : String) → HeapFileScan
      → Op HeapFileScan
  unfolding open_parts split_all close_parts
  new_partition hashfcn total rounds fuel file_name rel = open_parts total 0 file_name >> λ parts.
      begin st float_diff memory (ℤ.pos 0) (ℤ.pos 4) Datatype.integer none Operator.eq rel
      >> λ rel1. split_all hashfcn total rounds fuel rel1 parts >> λ (rel2, parts1).
          close_parts parts1 >> λ _. give rel2

  -- The destructor, for the partitions from number `p` on.
  unfoldable pub destroy_parts : (count p : ℕ) → String → st.State → st.State
  unfolding part_name
  destroy_parts zero p file_name s = s
  destroy_parts (suc count) p file_name s =
      destroy_parts count (suc p) file_name (st.destroy_file (part_name file_name p) s).1
