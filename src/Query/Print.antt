-- ===== src/Query/Print.antt =====
-- `UT_Print` and `UT_computeWidth` of part5/part5/print.C: the records that are printed, and the
-- columns' widths.
--
-- `stack` is what the memory of the widths holds. What `startScan` returns is not looked at.
pub mod Laws
use Prim.Native.String.{String}
use ubase.Base.{
  ℕ, zero, suc, Bool, true, false, Option, none, some, List, [], ◌∷◌, if◌then◌else◌, ltb, ◌==◌,
}
use ubase.Catalog.{C, ◌>>=◌, pure, is_empty, rel_cat_name, next, current}
use ubase.Catalog.Descriptors.{AttrDesc, RelDesc}
use ubase.Catalog.Relations.{rel_get_info, get_rel_info}
use ubase.HeapFile.Match.{Diff, Datatype, Operator}
use ubase.HeapFile.Scan.{HeapFileScan, ℤ, start_scan}
use ubase.Page.{Record}
use ubase.Query.Steps.{open_scan, end_scan}
use ubase.SortedFile.{min}
use ubase.Status.{Result, ok, err, file_eof, rel_not_found}
use ubase.Storage.{Storage}

-- `MAX`
unfoldable pub max : ℕ → ℕ → ℕ
max a b = if ltb b a then a else b

-- `strlen`
unfoldable pub strlen : List ℕ → ℕ
strlen [] = 0
strlen (b ∷ bytes) = let rest = strlen bytes in if b == 0 then 0 else suc rest

-- The width of a column; a type that is none of the three leaves it as it is.
unfoldable pub width : AttrDesc → (stack : ℕ) → ℕ
unfolding min max strlen
width a stack =
    if a.attr_type == 0
    then min (max (strlen a.attr_name) a.attr_len) 30
    else if ltb a.attr_type 3
    then min (max (strlen a.attr_name) 5) 7
    else stack

unfoldable pub compute_width : List AttrDesc → (stack : ℕ) → List ℕ
unfolding width
compute_width [] stack = []
compute_width (a ∷ attrs) stack = width a stack ∷ compute_width attrs stack

module _ (st : Storage) (float_diff : List ℕ → List ℕ → Diff) (memory : HeapFileScan) where
  abbrev Op : Type 0 → Type 0
  Op A = C st float_diff memory A

  infixl 5 ◌>>◌
  abbrev ◌>>◌ : {A B : Type 0} → Op A → (A → Op B) → Op B
  m >> k = ◌>>=◌ st float_diff memory m k

  abbrev give : {A : Type 0} → A → Op A
  give a = pure st float_diff memory a

  open st use {State}

  -- The loop: the records that are printed, in their order.
  unfoldable pub print_all : (rounds fuel : ℕ) → HeapFileScan → Op (List Record × HeapFileScan)
  unfolding next
  print_all zero fuel sc = λ s. none
  print_all (suc rounds) fuel sc = next st float_diff memory fuel sc >> λ (found, sc1).
      if found
      then (current st float_diff memory sc1 >> λ rec.
          print_all rounds fuel sc1 >> λ (recs, sc2). give (rec ∷ recs, sc2))
      else give ([], sc1)

  -- The look-up of the relation.
  abbrev known : Option (Result RelDesc × State) → Option (Result RelDesc × State)
  known none = none
  known (some (ok rd, s)) = some (ok rd, s)
  known (some (err file_eof, s)) = some (err rel_not_found, s)
  known (some (err e, s)) = some (err e, s)

  abbrev begin_print : HeapFileScan → Op HeapFileScan
  begin_print sc s =
      let (r, sc1, s1) =
        start_scan st float_diff (ℤ.pos 0) (ℤ.pos 0) Datatype.string none Operator.eq sc s in
      some (ok sc1, s1)

  unfoldable pub ut_print :
      (rounds fuel : ℕ) → (relation : String) → (stack : ℕ) → Op (List ℕ × List Record)
  unfolding rel_get_info get_rel_info compute_width print_all start_scan
  ut_print rounds fuel relation stack =
      let name = if is_empty relation then rel_cat_name else relation in
      (λ s. known (rel_get_info st float_diff memory fuel name s)) >> λ rd.
      get_rel_info st float_diff memory rounds fuel name >> λ attrs.
      open_scan st float_diff memory name >> λ sc. begin_print sc >> λ sc1.
      print_all rounds fuel sc1 >> λ (recs, sc2).
      end_scan st float_diff memory sc2 >> λ _. give (compute_width attrs stack, recs)
