-- ===== src/Query/Insert.antt =====
-- The relational operator `QU_Insert` of part5/part5/insert.C.
--
-- `stack` is what the memory of the new record's bytes holds. A name ends within its 32 bytes.
use Prim.Native.String.{String}
use ubase.Base.{ℕ, List, length, if◌then◌else◌, ◌==◌}
use ubase.Catalog.{C, ◌>>=◌, pure, fail}
use ubase.Catalog.Descriptors.{AttrInfo}
use ubase.Catalog.Relations.{get_rel_info}
use ubase.HeapFile.Match.{Diff}
use ubase.HeapFile.Scan.{HeapFileScan}
use ubase.Query.Bytes.{total_len, fill}
use ubase.Query.Steps.{open_insert, insert, end_insert}
use ubase.SortedFile.{copy}
use ubase.Status.{Status, attribute_lack}
use ubase.Storage.{Storage}

module _ (st : Storage) (float_diff : List ℕ → List ℕ → Diff) (memory : HeapFileScan) where
  abbrev Op : Type 0 → Type 0
  Op A = C st float_diff memory A

  infixl 5 ◌>>◌
  abbrev ◌>>◌ : {A B : Type 0} → Op A → (A → Op B) → Op B
  m >> k = ◌>>=◌ st float_diff memory m k

  abbrev give : {A : Type 0} → A → Op A
  give a = pure st float_diff memory a

  abbrev stop : {A : Type 0} → Status → Op A
  stop e = fail st float_diff memory e

  unfoldable pub qu_insert :
      (atoi atof : List ℕ → List ℕ)
      → (stack : List ℕ) → (rounds fuel : ℕ) → (relation : String) → List AttrInfo
      → Op (Unit {0})
  unfolding get_rel_info total_len fill copy
  qu_insert atoi atof stack rounds fuel relation values =
      open_insert st float_diff memory relation >> λ h.
      get_rel_info st float_diff memory rounds fuel relation >> λ attrs.
      if length attrs == length values
      then (insert st float_diff memory fuel
            (fill atoi atof attrs values (copy (total_len attrs) stack)) h
          >> λ h1. end_insert st float_diff memory h1)
      else stop attribute_lack
