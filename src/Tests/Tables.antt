-- ===== src/Tests/Tables.antt =====
-- Runs of the two hash tables, part5/part5/bufHash.C and part5/part5/db.C.
use Prim.Native.String.{String}
use ubase.Base.{◌∙◌, ◌⊎◌, ◌<◌, ◌≡◌, ◌≢◌, refl, none, some, if◌then◌else◌, arith}
use ubase.Base.Eq.{string_eq}
use ubase.BufHash
use ubase.BufHash.{PageKey, BufHashTbl, same_page}
use ubase.BufHash.Laws
use ubase.BufHash.Laws.{
  frame_of, insert_both, frame_of-insert, frame_of-remove, lookup-frame_of, new-IsTable,
}
use ubase.OpenFiles
use ubase.OpenFiles.{OpenFileHashTbl}
use ubase.OpenFiles.Laws as FileLaws
use ubase.OpenFiles.Laws.{file_of, file_of-insert, file_of-erase}
use ubase.Status.{ok, err, hash_tbl_error}

abbrev page_key : PageKey
page_key = record { file = 1000; page_no = 3 }

abbrev pages : BufHashTbl
pages = BufHash.new 13

fresh : Laws.IsTable pages × ((k : PageKey) → frame_of pages k ≡ none)
fresh = new-IsTable 13 (omega arith)

frame_of-insert_example :
    (BufHash.hash 13 page_key < 13)
    × (((frame_of pages page_key ≡ none)
          × (t' : BufHashTbl) × (BufHash.insert pages page_key 2 ≡ ok t')
          × Laws.IsTable t'
          × ((j : PageKey)
              → Laws.IsPositive j
              → frame_of t' j ≡ (if same_page j page_key then some 2 else frame_of pages j)))
        ⊎ ((frame_of pages page_key ≢ none)
            × (BufHash.insert pages page_key 2 ≡ err hash_tbl_error)))
unfolding BufHash.new
frame_of-insert_example = frame_of-insert pages page_key 2 fresh.0 (omega arith)

inserted :
    (t' : BufHashTbl) × (BufHash.insert pages page_key 2 ≡ ok t')
    × Laws.IsTable t'
    × ((j : PageKey) → frame_of t' j ≡ (if same_page j page_key then some 2 else frame_of pages j))
inserted = (insert_both pages page_key 2 fresh.0).0 (fresh.1 page_key)

abbrev filled : BufHashTbl
filled = inserted.0

frame_of-remove_example :
    (BufHash.hash filled.htsize page_key < filled.htsize)
    × (((frame_of filled page_key ≢ none)
          × (t' : BufHashTbl) × (BufHash.remove filled page_key ≡ ok t')
          × Laws.IsTable t'
          × ((j : PageKey)
              → Laws.IsPositive j
              → frame_of t' j ≡ (if same_page j page_key then none else frame_of filled j)))
        ⊎ ((frame_of filled page_key ≡ none)
            × (BufHash.remove filled page_key ≡ err hash_tbl_error)))
frame_of-remove_example = frame_of-remove filled page_key inserted.2 (omega arith)

found : BufHash.lookup filled page_key ≡ ok 2
found = lookup-frame_of filled page_key ∙ rw (inserted.3 page_key) refl

-- An address from 2 ^ 31 on leads in front of the array.
in_front : BufHash.hash 13 (record { file = 4294967290; page_no = 2 }) ≡ 17
unfolding BufHash.hash
in_front = refl

hash_relcat : OpenFiles.hash "relcat" ≡ 52
unfolding OpenFiles.hash OpenFiles.hash_loop
hash_relcat = refl

entered :
    (t' : OpenFileHashTbl) × (OpenFiles.insert OpenFiles.new "relcat" 5 ≡ ok t')
    × FileLaws.IsTable t'
    × ((j : String)
        → file_of t' j ≡ (if string_eq.beq j "relcat" then some 5 else file_of OpenFiles.new j))
entered =
    (FileLaws.insert_both OpenFiles.new "relcat" 5 FileLaws.new-IsTable.0).0
      (FileLaws.new-IsTable.1 "relcat")

abbrev opened : OpenFileHashTbl
opened = entered.0
