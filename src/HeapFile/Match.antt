-- ===== src/HeapFile/Match.antt =====
-- `HeapFileScan::matchRec` of part5/part5/heapfile.C: the test of a record against the filter of a scan.
--
-- `filter` is the list of the bytes that the pointer leads to; behind them a string ends. A 32-bit
-- `int` is the number that its four bytes make, lowest first. What the source makes of a record is
-- only compared with 0.0, so that it is a `Diff` here; the difference of two floats is a parameter,
-- and `unordered` where it is not a number.
pub mod Order
use ubase.Base.{
  ℕ, zero, suc, ◌+◌, ◌-◌, ◌*◌, ◌%◌, Bool, true, false, Option, none, some, List, [], ◌∷◌, ltb, leb,
  ◌==◌, if◌then◌else◌, length, drop, get_or,
}
use ubase.Page.{Record}

pub data Datatype : Type 0 where
  string : Datatype
  integer : Datatype
  float : Datatype

pub data Operator : Type 0 where
  lt : Operator
  lte : Operator
  eq : Operator
  gte : Operator
  gt : Operator
  ne : Operator

-- The members of a scan that `startScan` sets.
pub record Filter : Type 0 where
  pub offset : ℕ
  pub length : ℕ
  pub type : Datatype
  pub filter : List ℕ
  pub op : Operator

pub data Diff : Type 0 where
  less : Diff
  equal : Diff
  greater : Diff
  unordered : Diff

-- 2 ^ 32
abbrev pub wrap : ℕ
wrap = 4294967296

-- 2 ^ 31
abbrev pub half : ℕ
half = 2147483648

-- `memcpy(&i, bytes, 4)`
unfoldable pub int_of : List ℕ → ℕ
int_of bytes =
    get_or bytes 0 0
    + 256 * get_or bytes 1 0
    + 65536 * get_or bytes 2 0
    + 16777216 * get_or bytes 3 0

-- `iattr - ifltr`, which wraps, against 0
unfoldable pub int_diff : ℕ → ℕ → Diff
int_diff a b =
    let d = (a + wrap - b) % wrap in if d == 0 then equal else if ltb d half then greater else less

-- `strncmp` of the C library: the first `n` bytes, as unsigned numbers, up to the end of a string
unfoldable pub strncmp : ℕ → List ℕ → List ℕ → Diff
strncmp zero xs ys = equal
strncmp (suc n) xs ys =
    let a = get_or xs 0 0 in
    let b = get_or ys 0 0 in
    let rest = strncmp n (drop 1 xs) (drop 1 ys) in
    if ltb a b then less else if ltb b a then greater else if a == 0 then equal else rest

-- The `switch` on the operator.
unfoldable pub holds : Operator → Diff → Bool
holds lt d = elim d [ less ↦ true | _ ↦ false ]
holds lte d = elim d [ less ↦ true | equal ↦ true | _ ↦ false ]
holds eq d = elim d [ equal ↦ true | _ ↦ false ]
holds gte d = elim d [ greater ↦ true | equal ↦ true | _ ↦ false ]
holds gt d = elim d [ greater ↦ true | _ ↦ false ]
holds ne d = elim d [ equal ↦ false | _ ↦ true ]

module _ (float_diff : List ℕ → List ℕ → Diff) where
  -- The `switch` on the type.
  unfoldable pub diff : Filter → Record → Diff
  unfolding int_of int_diff strncmp
  diff f rec =
      let attr = drop f.offset rec in
      elim f.type [
        | integer ↦ int_diff (int_of attr) (int_of f.filter)
        | float ↦ float_diff attr f.filter
        | string ↦ strncmp f.length attr f.filter
      ]

  unfoldable pub match_rec : Option Filter → Record → Bool
  unfolding diff holds
  match_rec none rec = true
  match_rec (some f) rec =
      if leb (length rec) (f.offset + f.length - 1) then false else holds f.op (diff f rec)
