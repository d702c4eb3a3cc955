-- ===== src/Query/Bytes.antt =====
-- The records that the relational operators of part5/part5 build: insert.C, select.C, join.C.
--
-- What is written behind the array of the bytes is lost here, and behind the bytes that are read there
-- are 0s.
pub mod Fill
pub mod Project
pub mod Put
use Prim.Native.Char.{Char, char, IsScalar}
use Prim.Native.Nat.{Ordering, compare}
use Prim.Native.String.{String}
use ubase.Base.{ℕ, zero, suc, ◌+◌, ◌%◌, ◌≡◌, sym, List, [], ◌∷◌, drop, if◌then◌else◌, ◌==◌, arith}
use mathlib.Core.Path.{subst}
use ubase.Catalog.Descriptors.{AttrDesc, AttrInfo, same_string}
use ubase.Page.{Record}
use ubase.Query.{key}
use ubase.SortedFile.{copy}

-- `memcpy(&data[offset], bytes, ...)`
unfoldable pub put : (offset : ℕ) → (bytes buf : List ℕ) → List ℕ
put offset bytes [] = []
put zero [] (d ∷ buf) = d ∷ buf
put zero (b ∷ bytes) (d ∷ buf) = b ∷ put zero bytes buf
put (suc offset) bytes (d ∷ buf) = d ∷ put offset bytes buf

-- The bytes of an attribute in a record.
unfoldable pub field : AttrDesc → Record → List ℕ
unfolding copy
field a rec = copy a.attr_len (drop a.attr_offset rec)

unfoldable pub total_len : List AttrDesc → ℕ
total_len [] = 0
total_len (a ∷ attrs) = a.attr_len + total_len attrs

-- The loop of `ScanSelect` that copies the attributes one behind the other, from `at` on.
unfoldable pub project : List AttrDesc → (at : ℕ) → Record → (buf : List ℕ) → List ℕ
unfolding put field
project [] at rec buf = buf
project (a ∷ attrs) at rec buf = project attrs (at + a.attr_len) rec (put at (field a rec) buf)

-- The inner loop of `QU_Insert`: the values that have the name of the attribute.
unfoldable pub fill_attr :
    (atoi atof : List ℕ → List ℕ) → AttrDesc → List AttrInfo → (buf : List ℕ) → List ℕ
unfolding same_string key copy put
fill_attr atoi atof a [] buf = buf
fill_attr atoi atof a (x ∷ values) buf = fill_attr atoi atof a values (
    if same_string a.attr_name x.attr_name
    then put a.attr_offset (copy a.attr_len (key atoi atof a.attr_type x.attr_value)) buf
    else buf)

-- The outer loop.
unfoldable pub fill :
    (atoi atof : List ℕ → List ℕ) → List AttrDesc → List AttrInfo → (buf : List ℕ) → List ℕ
unfolding fill_attr
fill atoi atof [] values buf = buf
fill atoi atof (a ∷ attrs) values buf =
    fill atoi atof attrs values (fill_attr atoi atof a values buf)

byte_below : (b : ℕ) → compare (b % 256) 55296 ≡ Ordering.lt
byte_below b = ground arith

pub byte-IsScalar : (b : ℕ) → IsScalar (b % 256)
byte-IsScalar b = rw (byte_below b) tt

-- The string of an array of characters, up to the byte 0.
unfoldable pub string_of : List ℕ → String
string_of [] = ""
string_of (b ∷ bytes) =
    let rest = string_of bytes in
    if b == 0 then "" else String.◌∷◌ (char (b % 256) (byte-IsScalar b)) rest
