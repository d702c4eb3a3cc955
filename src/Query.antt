-- ===== src/Query.antt =====
-- The relational operators of part5/part5: delete.C, insert.C, select.C, update.C, join.C, and the
-- loading of a relation, load.C. Here is what they share.
--
-- `atoi` and `atof` of the C library, which give the four bytes of a number here, are parameters. The
-- loops over records run on `rounds`, the scans on `fuel`. Where an operator returns early, the scans
-- that it has made stay open.
pub mod Bytes
pub mod Delete
pub mod Insert
pub mod Join
pub mod Load
pub mod Print
pub mod Select
pub mod Steps
pub mod Update
use ubase.Base.{ℕ, suc, ◌-◌, Option, none, some, List, ltb, if◌then◌else◌, ◌==◌}
use ubase.Catalog.Descriptors.{AttrDesc}
use ubase.HeapFile.Match.{wrap, half}
use ubase.HeapFile.Scan.{ℤ}

-- The number that a 32-bit pattern stands for.
unfoldable pub signed : ℕ → ℤ
signed n = if ltb n half then ℤ.pos n else ℤ.negsuc (wrap - suc n)

-- The constant that the records are compared with.
unfoldable pub key : (atoi atof : List ℕ → List ℕ) → (attr_type : ℕ) → List ℕ → List ℕ
key atoi atof attr_type value =
    if attr_type == 1 then atoi value else (if attr_type == 2 then atof value else value)

-- A description that `getInfo` has not set stays as the stack has it.
abbrev pub described : AttrDesc → Option AttrDesc → AttrDesc
described ad none = ad
described ad (some d) = d
