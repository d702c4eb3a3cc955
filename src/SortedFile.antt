-- ===== src/SortedFile.antt =====
-- The class `SortedFile` of part5/part5/sort.h and sort.C: the comparison of records, what the
-- constructor asks of its parameters, and the structures.
--
-- What `reccmp` returns is a `Diff` here, whose `unordered` is the conversion to an `int` of a difference
-- that is not a number, which C leaves undefined; it is not greater than 0. Bytes behind a record are 0.
pub mod Merge
pub mod All
pub mod Fetch
pub mod Find
pub mod Laws
pub mod Order
pub mod Pick
pub mod Runs
pub mod Next
use Prim.Native.String.{String, ◌++◌}
use ubase.Base.{
  ℕ, zero, suc, ◌-◌, ◌/◌, ◌%◌, Bool, true, false, Option, none, some, List, [], ◌∷◌, ltb, ◌==◌, not,
  if◌then◌else◌, drop, get_or, ◌||◌,
}
use ubase.HeapFile.Match.{Diff, Datatype, int_of, int_diff}
use ubase.HeapFile.Match.Datatype.{string, integer, float}
use ubase.HeapFile.Match.Diff.{less, equal, greater, unordered}
use ubase.HeapFile.Scan.{HeapFileScan, ℤ, has_size}
use ubase.Page.{Rid, Record}
use ubase.Status.{Result, ok, err, bad_sort_parm, insuf_mem}

-- `MIN`
unfoldable pub min : ℕ → ℕ → ℕ
min a b = if ltb a b then a else b

-- `memcmp` of the C library: the first `n` bytes, as unsigned numbers
unfoldable pub memcmp : ℕ → List ℕ → List ℕ → Diff
memcmp zero xs ys = equal
memcmp (suc n) xs ys =
    let a = get_or xs 0 0 in
    let b = get_or ys 0 0 in
    let rest = memcmp n (drop 1 xs) (drop 1 ys) in
    if ltb a b then less else if ltb b a then greater else rest

-- `memcpy` of `n` bytes
unfoldable pub copy : ℕ → List ℕ → List ℕ
copy zero xs = []
copy (suc n) xs = let rest = copy n (drop 1 xs) in get_or xs 0 0 ∷ rest

unfoldable pub reccmp :
    (float_diff : List ℕ → List ℕ → Diff) → (p1 p2 : List ℕ) → (p1_len p2_len : ℕ) → Datatype → Diff
unfolding int_of int_diff min memcmp
reccmp float_diff p1 p2 p1_len p2_len integer = int_diff (int_of p1) (int_of p2)
reccmp float_diff p1 p2 p1_len p2_len float = float_diff p1 p2
reccmp float_diff p1 p2 p1_len p2_len string = memcmp (min p1_len p2_len) p1 p2

-- `reccmp(...) > 0`
abbrev pub is_greater : Diff → Bool
is_greater less = false
is_greater equal = false
is_greater greater = true
is_greater unordered = false

-- `SORTREC`; `length` is the length of `field`.
pub record SortRec : Type 0 where
  pub rid : Rid
  pub field : List ℕ
  pub length : ℕ

-- `intcmp`, `floatcmp` and `stringcmp`
unfoldable pub sortcmp : (float_diff : List ℕ → List ℕ → Diff) → Datatype → SortRec → SortRec → Diff
unfolding reccmp
sortcmp float_diff type a b = reccmp float_diff a.field b.field a.length b.length type

-- `RUN`, once its scan is started. A record id with a negative page number is `none`.
pub record Run : Type 0 where
  pub name : String
  pub in_file : HeapFileScan
  pub valid : Bool
  pub rec : Record
  pub rid : Option Rid
  pub mark : Option Rid

pub record SortedFile : Type 0 where
  pub file_name : String
  pub type : Datatype
  pub offset : ℕ
  pub length : ℕ
  pub max_items : ℕ
  pub runs : List Run

-- The checks of the constructor; every `Datatype` passes the second one.
unfoldable pub sort_params : (offset len : ℤ) → Datatype → (max_items : ℤ) → Result (ℕ × ℕ × ℕ)
unfolding has_size
sort_params (ℤ.negsuc _) len type max_items = err bad_sort_parm
sort_params (ℤ.pos offset) (ℤ.negsuc _) type max_items = err bad_sort_parm
sort_params (ℤ.pos offset) (ℤ.pos len) type (ℤ.negsuc _) =
    if ltb len 1 || not (has_size type len) then err bad_sort_parm else err insuf_mem
sort_params (ℤ.pos offset) (ℤ.pos len) type (ℤ.pos max_items) =
    if ltb len 1 || not (has_size type len)
    then err bad_sort_parm
    else if ltb max_items 2
    then err insuf_mem
    else ok (offset, len, max_items)

abbrev digits : List String
digits = "0" ∷ "1" ∷ "2" ∷ "3" ∷ "4" ∷ "5" ∷ "6" ∷ "7" ∷ "8" ∷ "9" ∷ []

-- A number in decimal digits, of which it has at most `fuel`.
unfoldable pub decimal : (fuel : ℕ) → ℕ → String
decimal zero n = ""
decimal (suc fuel) n =
    let rest = decimal fuel (n / 10) in
    if ltb n 10 then get_or digits n "" else rest ++ get_or digits (n % 10) ""

-- The name of the file of a run: `ends` puts the byte 0 behind it. `size()` has at most twenty digits.
unfoldable pub run_name : String → ℕ → String
unfolding decimal
run_name file_name number = file_name ++ ".sort." ++ decimal 20 number ++ "\0"
