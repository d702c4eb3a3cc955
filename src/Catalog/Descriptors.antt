-- ===== src/Catalog/Descriptors.antt =====
-- The descriptors of part5/part5/catalog.h, as structures and as the bytes of a record.
use Prim.Native.Char.{code}
use Prim.Native.String.{String}
use ubase.Base.{
  ℕ, zero, suc, ◌/◌, ◌%◌, List, [], ◌∷◌, ◌++◌, drop, Bool, true, false, ◌||◌, ◌==◌, if◌then◌else◌,
}
use ubase.HeapFile.Match.{int_of, strncmp, Diff}
use ubase.HeapFile.Match.Diff.{equal, less, greater, unordered}

abbrev pub max_name : ℕ
max_name = 32

pub record RelDesc : Type 0 where
  pub rel_name : List ℕ
  pub attr_cnt : ℕ

pub record AttrDesc : Type 0 where
  pub rel_name : List ℕ
  pub attr_name : List ℕ
  pub attr_offset : ℕ
  pub attr_type : ℕ
  pub attr_len : ℕ

pub record AttrInfo : Type 0 where
  pub rel_name : List ℕ
  pub attr_name : List ℕ
  pub attr_type : ℕ
  pub attr_len : ℕ
  pub attr_value : List ℕ

-- The characters of a string and the byte 0 behind them.
unfoldable pub c_str : String → List ℕ
c_str String.[] = 0 ∷ []
c_str (String.◌∷◌ c s) = code c ∷ c_str s

abbrev pub take : ℕ → List ℕ → List ℕ
take zero xs = []
take (suc n) [] = []
take (suc n) (x ∷ xs) = x ∷ take n xs

-- The four bytes of an `int`, lowest first.
unfoldable pub int_bytes : ℕ → List ℕ
int_bytes n = n % 256 ∷ n / 256 % 256 ∷ n / 65536 % 256 ∷ n / 16777216 % 256 ∷ []

-- The bytes of a structure, as a record holds them.
unfoldable pub rel_bytes : RelDesc → List ℕ
unfolding int_bytes
rel_bytes d = d.rel_name ++ int_bytes d.attr_cnt

unfoldable pub attr_bytes : AttrDesc → List ℕ
unfolding int_bytes
attr_bytes d =
    d.rel_name
    ++ (d.attr_name ++ (int_bytes d.attr_offset ++ (int_bytes d.attr_type ++ int_bytes d.attr_len)))

-- `memcpy` of a record into a structure
unfoldable pub rel_of : List ℕ → RelDesc
unfolding int_of
rel_of bytes = record { rel_name = take max_name bytes; attr_cnt = int_of (drop max_name bytes) }

unfoldable pub attr_of : List ℕ → AttrDesc
unfolding int_of
attr_of bytes = record {
  rel_name = take max_name bytes;
  attr_name = take max_name (drop 32 bytes);
  attr_offset = int_of (drop 64 bytes);
  attr_type = int_of (drop 68 bytes);
  attr_len = int_of (drop 72 bytes);
}

abbrev pub is_equal : Diff → Bool
is_equal equal = true
is_equal less = false
is_equal greater = false
is_equal unordered = false

-- The test of an attribute's name in a record of `attrcat`.
unfoldable pub is_name : List ℕ → List ℕ → Bool
unfolding strncmp
is_name bytes name = is_equal (strncmp max_name bytes name)

-- `strcmp(a, b) == 0`: the same bytes up to the byte 0; behind the bytes of a list are 0s
unfoldable pub same_string : List ℕ → List ℕ → Bool
same_string [] [] = true
same_string [] (b ∷ ys) = b == 0
same_string (a ∷ xs) [] = a == 0
same_string (a ∷ xs) (b ∷ ys) =
    let rest = same_string xs ys in if a == b then (if a == 0 then true else rest) else false

-- `strcpy` into an array of characters
unfoldable pub strcpy : (to from : List ℕ) → List ℕ
strcpy to [] = to
strcpy [] (b ∷ from) = []
strcpy (c ∷ to) (b ∷ from) = let rest = strcpy to from in b ∷ (if b == 0 then to else rest)

-- Whether the list holds a name that is the same in its first 32 bytes.
unfoldable pub has_name : List ℕ → List AttrInfo → Bool
unfolding is_name
has_name name [] = false
has_name name (a ∷ attrs) = is_name name a.attr_name || has_name name attrs

-- The two loops of `createRel` that look for a name that occurs twice.
unfoldable pub duplicated : List AttrInfo → Bool
unfolding has_name
duplicated [] = false
duplicated (a ∷ attrs) = has_name a.attr_name attrs || duplicated attrs
