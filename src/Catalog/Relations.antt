-- ===== src/Catalog/Relations.antt =====
-- The operations of `RelCatalog` and `AttrCatalog` of part5/part5/catalog.C, create.C and destroy.C.
use Prim.Native.String.{String}
use ubase.Base.{
  ℕ, zero, suc, ◌+◌, Bool, Option, none, some, List, [], ◌∷◌, length, drop, if◌then◌else◌, ◌||◌,
  leb, ◌==◌, get_or,
}
use ubase.Base.Eq.{string_eq}
use ubase.Catalog.{
  rel_cat_name, attr_cat_name, is_empty, string_length, C, ◌>>=◌, pure, fail, begin_scan, next,
  current, remove, close, add_record,
}
use ubase.Catalog.Descriptors.{
  RelDesc, AttrDesc, AttrInfo, rel_bytes, rel_of, attr_bytes, attr_of, c_str, max_name, is_name,
  strcpy, duplicated,
}
use ubase.HeapFile.{create_heap_file, destroy_heap_file}
use ubase.HeapFile.Match.{Diff}
use ubase.HeapFile.Scan.{HeapFileScan}
use ubase.Page.{Record}
use ubase.Status.{
  Status, Result, ok, err, bad_cat_parm, rel_not_found, rel_exists, file_eof, name_too_long,
  dupl_attr,
}
use ubase.Storage.{Storage}

module _ (st : Storage) (float_diff : List ℕ → List ℕ → Diff) (memory : HeapFileScan) where
  open st use {State}

  abbrev Op : Type 0 → Type 0
  Op A = C st float_diff memory A

  infixl 5 ◌>>◌
  abbrev ◌>>◌ : {A B : Type 0} → Op A → (A → Op B) → Op B
  m >> k = ◌>>=◌ st float_diff memory m k

  abbrev give : {A : Type 0} → A → Op A
  give a = pure st float_diff memory a

  abbrev stop : {A : Type 0} → Status → Op A
  stop e = fail st float_diff memory e

  abbrev scan_of : String → String → Op HeapFileScan
  scan_of cat relation = begin_scan st float_diff memory cat max_name relation

  abbrev next_of : ℕ → HeapFileScan → Op (Bool × HeapFileScan)
  next_of fuel sc = next st float_diff memory fuel sc

  -- `RelCatalog::getInfo`. Where no record is found the scan stays open.
  unfoldable pub rel_get_info : (fuel : ℕ) → String → Op RelDesc
  unfolding begin_scan next rel_of
  rel_get_info fuel relation =
      if is_empty relation
      then stop bad_cat_parm
      else scan_of rel_cat_name relation >> λ sc. next_of fuel sc >> λ (found, sc1).
          if found
          then (current st float_diff memory sc1 >> λ rec.
              close st float_diff memory sc1 >> λ _. give (rel_of rec))
          else stop rel_not_found

  unfoldable pub rel_add_info : (fuel : ℕ) → RelDesc → Op (Unit {0})
  unfolding add_record rel_bytes
  rel_add_info fuel d = add_record st float_diff memory fuel rel_cat_name (rel_bytes d)

  -- `RelCatalog::removeInfo`: the scan compares as many bytes as the name has.
  unfoldable pub rel_remove_info : (fuel : ℕ) → String → Op (Unit {0})
  unfolding begin_scan next
  rel_remove_info fuel relation =
      if is_empty relation
      then stop bad_cat_parm
      else begin_scan st float_diff memory rel_cat_name (string_length relation) relation >> λ sc.
          next_of fuel sc >> λ (found, sc1).
          if found
          then (remove st float_diff memory sc1 >> λ sc2. close st float_diff memory sc2)
          else stop file_eof

  -- The loops of `AttrCatalog::getInfo` and `removeInfo`: the scan at the attribute, if there is one.
  unfoldable pub find_attr :
      (rounds fuel : ℕ) → List ℕ → HeapFileScan → Op (Option Record × HeapFileScan)
  unfolding next is_name
  find_attr zero fuel name sc = λ s. none
  find_attr (suc rounds) fuel name sc = next_of fuel sc >> λ (found, sc1).
      if found
      then (current st float_diff memory sc1 >> λ rec.
          if is_name (drop max_name rec) name
          then give (some rec, sc1)
          else find_attr rounds fuel name sc1)
      else give (none, sc1)

  -- `AttrCatalog::getInfo`; `none` is a description that was not set, which is OK.
  unfoldable pub attr_get_info :
      (rounds fuel : ℕ) → (relation attr_name : String) → Op (Option AttrDesc)
  unfolding begin_scan find_attr attr_of c_str
  attr_get_info rounds fuel relation attr_name = scan_of attr_cat_name relation >> λ sc.
      find_attr rounds fuel (c_str attr_name) sc >> λ (rec, sc1).
      close st float_diff memory sc1 >> λ _.
      give (elim rec [ none ↦ none | some r ↦ some (attr_of r) ])

  unfoldable pub attr_add_info : (fuel : ℕ) → AttrDesc → Op (Unit {0})
  unfolding add_record attr_bytes
  attr_add_info fuel d = add_record st float_diff memory fuel attr_cat_name (attr_bytes d)

  -- `AttrCatalog::removeInfo`, for the bytes of a name; an attribute that is not there is OK.
  unfoldable pub attr_remove_info : (rounds fuel : ℕ) → String → List ℕ → Op (Unit {0})
  unfolding begin_scan find_attr
  attr_remove_info rounds fuel relation attr_name =
      if is_empty relation || get_or attr_name 0 0 == 0
      then stop bad_cat_parm
      else scan_of attr_cat_name relation >> λ sc.
          find_attr rounds fuel attr_name sc >> λ (rec, sc1). elim rec [
            | none ↦ close st float_diff memory sc1
            | some _ ↦ remove st float_diff memory sc1 >> λ sc2. close st float_diff memory sc2
          ]

  -- The loop of `getRelInfo`.
  unfoldable pub collect : (rounds fuel : ℕ) → HeapFileScan → Op (List AttrDesc × HeapFileScan)
  unfolding next attr_of
  collect zero fuel sc = λ s. none
  collect (suc rounds) fuel sc = next_of fuel sc >> λ (found, sc1).
      if found
      then (current st float_diff memory sc1 >> λ rec.
          collect rounds fuel sc1 >> λ (attrs, sc2). give (attr_of rec ∷ attrs, sc2))
      else give ([], sc1)

  -- `AttrCatalog::getRelInfo`; the array for ten descriptions is a list.
  unfoldable pub get_rel_info : (rounds fuel : ℕ) → String → Op (List AttrDesc)
  unfolding rel_get_info begin_scan collect
  get_rel_info rounds fuel relation =
      if is_empty relation
      then stop bad_cat_parm
      else rel_get_info fuel relation >> λ _. scan_of attr_cat_name relation >> λ sc.
          collect rounds fuel sc >> λ (attrs, sc1).
          close st float_diff memory sc1 >> λ _. give attrs

  -- The loop of `createRel` over the attributes; `ad` is the one structure that all of them use.
  unfoldable pub add_attrs :
      (fuel : ℕ) → (ad : AttrDesc) → (offset : ℕ) → List AttrInfo → Op (Unit {0})
  unfolding attr_add_info strcpy
  add_attrs fuel ad offset [] = give tt
  add_attrs fuel ad offset (a ∷ attrs) =
      let ad1 : AttrDesc = record {
        rel_name = strcpy ad.rel_name a.rel_name;
        attr_name = strcpy ad.attr_name a.attr_name;
        attr_offset = offset;
        attr_type = a.attr_type;
        attr_len = a.attr_len;
      } in
      attr_add_info fuel ad1 >> λ _. add_attrs fuel ad1 (offset + a.attr_len) attrs

  abbrev lift : {A : Type 0} → (State → Result A × State) → Op A
  lift m s = some (m s)

  -- The catalogs have no such relation.
  abbrev absent : Option (Result RelDesc × State) → Option (Result (Unit {0}) × State)
  absent none = none
  absent (some (ok _, s)) = some (err rel_exists, s)
  absent (some (err rel_not_found, s)) = some (ok tt, s)
  absent (some (err e, s)) = some (err e, s)

  -- `RelCatalog::createRel`; `rd` and `ad` are what the two structures hold at first.
  unfoldable pub create_rel :
      (fuel : ℕ) → (rd : RelDesc) → (ad : AttrDesc) → String → List AttrInfo → Op (Unit {0})
  unfolding rel_get_info rel_add_info add_attrs duplicated strcpy c_str create_heap_file
  create_rel fuel rd ad relation attrs =
      if is_empty relation || length attrs == 0
      then stop bad_cat_parm
      else if leb max_name (string_length relation)
      then stop name_too_long
      else (λ s. absent (rel_get_info fuel relation s)) >> λ _.
          if duplicated attrs
          then stop dupl_attr
          else rel_add_info fuel
              (record { rel_name = strcpy rd.rel_name (c_str relation); attr_cnt = length attrs })
            >> λ _. add_attrs fuel ad 0 attrs >> λ _. lift (create_heap_file st relation)

  -- The loop of `dropRelation`.
  unfoldable pub remove_attrs : (rounds fuel : ℕ) → String → List AttrDesc → Op (Unit {0})
  unfolding attr_remove_info
  remove_attrs rounds fuel relation [] = give tt
  remove_attrs rounds fuel relation (d ∷ ds) =
      attr_remove_info rounds fuel relation d.attr_name >> λ _. remove_attrs rounds fuel relation ds

  unfoldable pub drop_relation : (rounds fuel : ℕ) → String → Op (Unit {0})
  unfolding get_rel_info remove_attrs
  drop_relation rounds fuel relation =
      if is_empty relation
      then stop bad_cat_parm
      else get_rel_info rounds fuel relation >> λ attrs. remove_attrs rounds fuel relation attrs

  -- `RelCatalog::destroyRel`
  unfoldable pub destroy_rel : (rounds fuel : ℕ) → String → Op (Unit {0})
  unfolding rel_get_info drop_relation rel_remove_info destroy_heap_file
  destroy_rel rounds fuel relation =
      if is_empty relation
        || string_eq.beq relation rel_cat_name
        || string_eq.beq relation attr_cat_name
      then stop bad_cat_parm
      else lift (destroy_heap_file st relation) >> λ _. rel_get_info fuel relation >> λ _.
          drop_relation rounds fuel relation >> λ _. rel_remove_info fuel relation
