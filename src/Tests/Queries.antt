-- ===== src/Tests/Queries.antt =====
-- Runs of the records that the relational operators of part5/part5 build.
use ubase.Base.{ℕ, ◌≡◌, ◌≢◌, ap, get_or, refl, arith, List, [], ◌∷◌}
use ubase.Catalog.Descriptors.{AttrDesc, AttrInfo, c_str, same_string}
use ubase.Page.{Record}
use ubase.Query.Bytes.{put, project, fill, fill_attr, total_len}
use ubase.Query.Bytes.Fill.{fill-value, Holds}
use ubase.Query.Bytes.Project.{project-fields, fields}
use ubase.Query.Load.{load_all}
use ubase.Query.Load.Laws.{load_all-insert_each, insert_each, answers}
use ubase.SortedFile.{copy}
use ubase.Query.Print.{print_all}
use ubase.Query.Print.Laws.{PrintOf, print_all-PrintOf}
use ubase.SortedFile.Fetch.{Scans}
use ubase.Page.{place, init, set_slot, memcpy, read}
use ubase.Tests.Memory.{
  whole, reads, view, view-Obeys, heap-At, rec2, rec3, storage, no_floats, scan, heap, memory,
}

abbrev zeros : List ℕ
zeros = 0 ∷ 0 ∷ 0 ∷ 0 ∷ []

-- A string of two bytes in front of a number.
abbrev name_attr : AttrDesc
name_attr = record {
  rel_name = c_str "emp";
  attr_name = c_str "name";
  attr_offset = 0;
  attr_type = 0;
  attr_len = 2;
}

abbrev age : AttrDesc
age = record {
  rel_name = c_str "emp";
  attr_name = c_str "age";
  attr_offset = 2;
  attr_type = 1;
  attr_len = 4;
}

abbrev value : List ℕ → List ℕ → AttrInfo
value name bytes = record {
  rel_name = c_str "emp";
  attr_name = name;
  attr_type = 0;
  attr_len = 0;
  attr_value = bytes;
}

-- The values, in another order than the attributes.
abbrev values : List AttrInfo
values = value (c_str "age") (c_str "7") ∷ value (c_str "name") (c_str "Al") ∷ []

abbrev atoi : List ℕ → List ℕ
atoi bytes = 7 ∷ 0 ∷ 0 ∷ 0 ∷ []

abbrev stack : List ℕ
stack = 9 ∷ 9 ∷ 9 ∷ 9 ∷ 9 ∷ 9 ∷ []

filled : fill atoi atoi (name_attr ∷ age ∷ []) values stack ≡ 65 ∷ 108 ∷ 7 ∷ 0 ∷ 0 ∷ 0 ∷ []
unfolding fill fill_attr same_string c_str put copy
filled = refl

-- The values of the age are the first, and the last.
abbrev ages : List AttrInfo
ages = value (c_str "age") (c_str "8") ∷ values

fill-value_example :
    let array = fill atoi atoi (name_attr ∷ age ∷ []) ages stack in
    (age.attr_type ≡ 1 → Holds array 2 4 (atoi (c_str "7")))
    × (age.attr_type ≡ 2 → Holds array 2 4 (atoi (c_str "7")))
    × (age.attr_type ≢ 1 → age.attr_type ≢ 2 → Holds array 2 4 (c_str "7"))
unfolding total_len c_str
fill-value_example =
    fill-value atoi atoi (name_attr ∷ []) [] age (value (c_str "age") (c_str "8") ∷ [])
      (value (c_str "name") (c_str "Al") ∷ []) (value (c_str "age") (c_str "7")) stack
      (refl, (refl, tt)) refl refl ((λ e. omega (arith, ap (λ xs. get_or xs 0 0) e)), tt)

abbrev al : Record
al = 65 ∷ 108 ∷ 7 ∷ 0 ∷ 0 ∷ 0 ∷ []

project-fields_example :
    project (age ∷ name_attr ∷ []) 0 al stack ≡ fields (age ∷ name_attr ∷ []) al
unfolding total_len
project-fields_example = project-fields (age ∷ name_attr ∷ []) al stack refl

load_all-insert_each_example :
    load_all storage no_floats scan 4 (answers (al ∷ stack ∷ [])) stack heap memory
    ≡ insert_each storage no_floats scan 4 (al ∷ stack ∷ []) heap memory
load_all-insert_each_example =
    load_all-insert_each storage no_floats scan 4 (al ∷ stack ∷ []) stack heap memory
      ((refl, (5, refl)), ((refl, (5, refl)), tt))

whole-Scans : Scans storage no_floats view view-Obeys reads 4 whole memory (rec2 ∷ rec3 ∷ [])
unfolding place init set_slot memcpy read
whole-Scans = record {
  ns = 3 ∷ [];
  at = heap-At;
  no_filter = refl;
  to_come = refl;
  enough = omega arith;
}

print_all-PrintOf_example :
    PrintOf storage no_floats scan view view-Obeys reads 4
      (rec2 ∷ rec3 ∷ [])
      (print_all storage no_floats scan 3 4 whole memory)
print_all-PrintOf_example =
    print_all-PrintOf storage no_floats scan view view-Obeys reads 4 3 whole memory
      (rec2 ∷ rec3 ∷ []) whole-Scans (omega arith)
