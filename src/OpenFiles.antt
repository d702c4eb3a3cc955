-- ===== src/OpenFiles.antt =====
-- The hash table of open files, part5/part5/db.C: from a file's name to the address of its `File`.
pub mod Laws
use Prim.Native.Char.{code}
use Prim.Native.String.{String}
use ubase.Base.{ℕ, ◌+◌, ◌-◌, ◌*◌, ◌%◌, ◌^◌, ltb, if◌then◌else◌}
use ubase.Base.Eq.{string_eq}
use ubase.HashTable
use ubase.HashTable.{Buckets, no_buckets}
use ubase.Status.{Result}

abbrev pub htsize : ℕ
htsize = 113

abbrev pub OpenFileHashTbl : Type 0
OpenFileHashTbl = Buckets String ℕ

-- `value` as a 32-bit pattern that wraps around. The characters are ASCII, so none is negative.
unfoldable pub hash_loop : ℕ → String → ℕ
hash_loop value String.[] = value
hash_loop value (String.◌∷◌ c s) = hash_loop ((31 * value + code c) % 2 ^ 32) s

-- The remainder of a negative `value` is that of its absolute value, negated.
unfoldable pub hash : String → ℕ
unfolding hash_loop
hash name =
    let value = hash_loop 0 name in
    if ltb value (2 ^ 31) then value % htsize else (2 ^ 32 - value) % htsize

unfoldable pub new : OpenFileHashTbl
new = no_buckets

unfoldable pub insert : OpenFileHashTbl → String → ℕ → Result OpenFileHashTbl
unfolding hash
insert t name file = HashTable.insert hash t name file

unfoldable pub find : OpenFileHashTbl → String → Result ℕ
unfolding hash
find t name = HashTable.lookup hash t name

unfoldable pub erase : OpenFileHashTbl → String → Result OpenFileHashTbl
unfolding hash
erase t name = HashTable.remove hash t name
