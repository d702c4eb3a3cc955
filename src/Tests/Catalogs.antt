-- ===== src/Tests/Catalogs.antt =====
-- Runs of the catalogs of part5/part5: catalog.C and create.C.
use ubase.Base.{ℕ, ◌≡◌, ◌↔◌, refl, true, false, List, [], ◌∷◌, arith}
use ubase.Catalog.Cycle.{attr_of-attr_bytes}
use ubase.Catalog.Descriptors.{
  AttrDesc, AttrInfo, attr_bytes, attr_of, duplicated, c_str, strcpy, has_name, is_name,
}
use ubase.Catalog.Names.{AllDiffer, duplicated-AllDiffer}
use ubase.HeapFile.Match.{strncmp}

abbrev zeros : List ℕ
zeros =
    0 ∷ 0 ∷ 0 ∷ 0 ∷ 0 ∷ 0 ∷ 0 ∷ 0 ∷ 0 ∷ 0 ∷ 0 ∷ 0 ∷ 0 ∷ 0 ∷ 0 ∷ 0 ∷ 0 ∷ 0 ∷ 0 ∷ 0 ∷ 0 ∷ 0 ∷ 0 ∷ 0
    ∷ 0 ∷ 0 ∷ 0 ∷ 0 ∷ 0 ∷ 0 ∷ 0 ∷ 0 ∷ []

abbrev age : AttrDesc
age = record {
  rel_name = strcpy zeros (c_str "emp");
  attr_name = strcpy zeros (c_str "age");
  attr_offset = 300;
  attr_type = 1;
  attr_len = 4;
}

attr_of-attr_bytes_example : attr_of (attr_bytes age) ≡ age
unfolding strcpy c_str
attr_of-attr_bytes_example =
    attr_of-attr_bytes age refl refl (omega arith) (omega arith) (omega arith)

abbrev info : List ℕ → AttrInfo
info name = record {
  rel_name = c_str "emp";
  attr_name = name;
  attr_type = 1;
  attr_len = 4;
  attr_value = [];
}

abbrev twice : List AttrInfo
twice = info (c_str "age") ∷ info (c_str "name") ∷ info (c_str "age") ∷ []

twice-duplicated : duplicated twice ≡ true
unfolding duplicated has_name is_name strncmp c_str
twice-duplicated = refl

duplicated-AllDiffer_example : (duplicated twice ≡ false) ↔ AllDiffer twice
duplicated-AllDiffer_example = duplicated-AllDiffer twice
