-- ===== src/Query/Load.antt =====
-- `UT_Load` of part5/part5/load.C: the loading of a relation from a file of records.
--
-- The system calls are parameters: whether `open` and `close` succeed, and what the calls of `read`
-- answer one after the other, where `none` is -1. `stack` is what the memory of the buffer holds.
pub mod Laws
use Prim.Native.String.{String}
use ubase.Base.{ℕ, Bool, true, false, Option, none, some, List, [], ◌∷◌, if◌then◌else◌, ◌||◌}
use ubase.Base.Eq.{string_eq}
use ubase.Catalog.{C, ◌>>=◌, pure, fail, is_empty, rel_cat_name, attr_cat_name}
use ubase.Catalog.Relations.{get_rel_info, rel_get_info}
use ubase.HeapFile.{HeapFile}
use ubase.HeapFile.Match.{Diff}
use ubase.HeapFile.Scan.{HeapFileScan}
use ubase.Query.Bytes.{put, total_len}
use ubase.Query.Steps.{open_insert, insert, end_insert}
use ubase.SortedFile.{copy}
use ubase.Status.{Status, bad_cat_parm, unix_err}
use ubase.Storage.{Storage}

module _ (st : Storage) (float_diff : List ℕ → List ℕ → Diff) (memory : HeapFileScan) where
  abbrev Op : Type 0 → Type 0
  Op A = C st float_diff memory A

  infixl 5 ◌>>◌
  abbrev ◌>>◌ : {A B : Type 0} → Op A → (A → Op B) → Op B
  m >> k = ◌>>=◌ st float_diff memory m k

  abbrev give : {A : Type 0} → A → Op A
  give a = pure st float_diff memory a

  abbrev stop : {A : Type 0} → Status → Op A
  stop e = fail st float_diff memory e

  -- The loop over the file. A `read` that fails is not the end of the file: the record that the buffer
  -- holds is inserted again. `none` is a loop for which more answers are needed.
  unfoldable pub load_all :
      (fuel : ℕ) → (answers : List (Option (List ℕ))) → (buf : List ℕ) → HeapFile → Op HeapFile
  unfolding put
  load_all fuel [] buf h = λ s. none
  load_all fuel (some [] ∷ answers) buf h = give h
  load_all fuel (some (b ∷ bytes) ∷ answers) buf h =
      let buf1 = put 0 (b ∷ bytes) buf in
      insert st float_diff memory fuel buf1 h >> λ h1. load_all fuel answers buf1 h1
  load_all fuel (none ∷ answers) buf h =
      insert st float_diff memory fuel buf h >> λ h1. load_all fuel answers buf h1

  unfoldable pub ut_load :
      (opens closes : Bool)
      → (answers : List (Option (List ℕ))) → (stack : List ℕ) → (rounds fuel : ℕ)
      → (relation file_name : String) → Op (Unit {0})
  unfolding rel_get_info get_rel_info total_len copy load_all
  ut_load opens closes answers stack rounds fuel relation file_name =
      if is_empty relation
        || (is_empty file_name
            || (string_eq.beq relation rel_cat_name || string_eq.beq relation attr_cat_name))
      then stop bad_cat_parm
      else if opens
      then (rel_get_info st float_diff memory fuel relation >> λ _.
          get_rel_info st float_diff memory rounds fuel relation >> λ attrs.
          open_insert st float_diff memory relation >> λ h.
          load_all fuel answers (copy (total_len attrs) stack) h >> λ h1.
          end_insert st float_diff memory h1 >> λ _. if closes then give tt else stop unix_err)
      else stop unix_err
