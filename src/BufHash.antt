-- ===== src/BufHash.antt =====
-- The hash table of the buffer pool, part5/part5/bufHash.C: from a file and a page number to the
-- frame that holds the page. A `File*` is its address.
pub mod Laws
use ubase.Base.{ℕ, ◌+◌, ◌-◌, ◌*◌, ◌/◌, ◌%◌, ◌≡◌, ◌↔◌, Bool, ◌&&◌, ◌==◌, ltb, if◌then◌else◌, arith}
use ubase.Base.Eq.{Eq}
use ubase.HashTable
use ubase.HashTable.{Buckets, no_buckets}
use ubase.Status.{Result, ok, err}

pub record PageKey : Type 0 where
  pub file : ℕ
  pub page_no : ℕ

-- `tmpBuc->file == file && tmpBuc->pageNo == pageNo`
abbrev pub same_page : PageKey → PageKey → Bool
same_page a b = a.file == b.file && a.page_no == b.page_no

pub same_page_iff : (a b : PageKey) → (same_page a b ≡ Bool.true) ↔ (a ≡ b)
same_page_iff a b = ground arith

instance abbrev pub page_eq : Eq PageKey
page_eq = record { beq = same_page; beq_iff = same_page_iff }

pub record BufHashTbl : Type 0 where
  pub htsize : ℕ
  pub ht : Buckets PageKey ℕ

-- `hash`: the address is cast to a 32-bit `int`, and the sum with the page number wraps. The remainder
-- of a negative sum is negative, or 0, and leads in front of the array: the cell `r` places in front of
-- it is numbered `htsize + r`. What the source does there is not defined.
unfoldable pub hash : ℕ → PageKey → ℕ
hash htsize k =
    let sum = (k.file + k.page_no) % 4294967296 in
    let front = (4294967296 - sum) % htsize in
    if ltb sum 2147483648 then sum % htsize else (if front == 0 then 0 else htsize + front)

unfoldable pub new : ℕ → BufHashTbl
new htsize = record { htsize = htsize; ht = no_buckets }

unfoldable pub insert : BufHashTbl → PageKey → ℕ → Result BufHashTbl
unfolding hash
insert t k frame_no = elim (HashTable.insert (hash t.htsize) t.ht k frame_no) [
  | ok ht ↦ ok (record t { ht = ht })
  | err s ↦ err s
]

unfoldable pub lookup : BufHashTbl → PageKey → Result ℕ
unfolding hash
lookup t k = HashTable.lookup (hash t.htsize) t.ht k

unfoldable pub remove : BufHashTbl → PageKey → Result BufHashTbl
unfolding hash
remove t k = elim (HashTable.remove (hash t.htsize) t.ht k) [
  | ok ht ↦ ok (record t { ht = ht })
  | err s ↦ err s
]
