-- ===== src/Lib.antt =====
-- The database system Ubase (part5/part5), from the slotted page to the relational operators.
--
-- The program is a small relational database. Its layers, from the bottom: `File` (db.C) reads and
-- writes the pages of one Unix file and keeps the free pages in a list on disk; `BufMgr` (buf.C)
-- keeps pages in frames, found by a hash table (bufHash.C), and replaces the unpinned ones, which
-- stand in a ring; `Page` (page.C) lays records out in one page. `DB` (db.C) keeps the table of
-- open files. A heap file (heapfile.C) is a header page that lists data pages; `HeapFileScan` walks
-- over its records, `InsertFileScan` adds to them. The catalogs (catalog.C, create.C, destroy.C)
-- are two heap files that describe all relations. Above them stand `SortedFile` (sort.C), which merges
-- sorted runs, `Partition` (partition.C), the relational operators (insert.C, delete.C, update.C,
-- select.C, join.C) and the utilities, which the parser calls.
--
-- The files, and the code of part5/part5 that they model:
--   Base, Base/*     shared tests, lists and the equality class
--   Status           `enum Status` of error.h; OK is `ok`, every other code is in `err`
--   Page             page.h, page.C: `insertRecord` is `insert_record`, and so on; its loops are
--                    `find_empty`, `find_used`, `shift_slots` and `trim`
--     Valid          the invariant and the abstract view, a map from slot numbers to records
--     Insert Delete Update Scan Cycle   the theorems; Bytes Slots Release carry their lemmas
--   HashTable        the chains of buckets that both hash tables use; Laws: the map they stand for
--   BufHash          `BufHashTbl` of bufHash.C; OpenFiles: `OpenFileHashTbl` of db.C
--   Unix             the system calls and the view of a page as `DBPage`, as a parameter
--   File             the class `File` of db.C; FreeList: the free list on disk; Allocate, Dispose,
--                    Cycle: the theorems
--   Ring             the links `next`, `prior`, `rearUPL`, `frontUPL` of buf.C
--   FileStore        what the buffer manager uses of `File`, the interface between the two
--   BufMgr           buf.h, buf.C; Valid: the invariant, and the abstract view, the pin count of each
--                    page; New, Alloc, Read, Unpin, AllocPage, Dispose, Flush: the theorems, by
--                    operation, with the destructor in Close; Evict, Enter, Repin, Pin, Round carry
--                    their lemmas
--   Db               `DB`, and `File::open` and `close`, of db.C; Laws, Close, Cycle: the theorems
--   Storage          what heap files use of `BufMgr`, `DB` and the frames, an interface; Laws: the contract
--                    between the buffer manager and the holder of pinned pages
--   HeapFile         `HeapFile` of heapfile.C; Match: `matchRec`; Scan: `HeapFileScan`; Change: its
--                    updates; Insert: `InsertFileScan`; Position, Turn: an open file, and the way
--                    from a page to the next; Scan/Next, Scan/Mark, Match/Order, Change/Laws,
--                    Insert/Laws: the theorems; Scan/Records, Scan/Listing, Scan/Position, Insert/Ready,
--                    Insert/Leave, Insert/Room carry their lemmas
--   Catalog          `RelCatalog` and `AttrCatalog`: Descriptors, the structures of catalog.h and the loops
--                    over names; Relations, the operations of catalog.C, create.C and destroy.C;
--                    Names, Cycle: the theorems
--   SortedFile       `SortedFile` of sort.C: Runs, the making of the sorted runs; Next, the merge and its
--                    marks; Order, Laws, All: the theorems; Merge, Pick, Fetch, Find carry the lemmas
--   Query            the relational operators: Insert, Select, Join, Update and Delete, of the files of
--                    the same names, and Load and Print, of load.C and print.C; Bytes, the records that
--                    they build; Steps, their calls of the heap files. Delete/Laws, Bytes/Fill,
--                    Bytes/Project, Load/Laws, Print/Laws: the theorems; Delete/Matching,
--                    Delete/Emptied, Bytes/Put carry their lemmas
--   Partition        `Partition` of partition.C
--   Tests            runs at concrete inputs
--
-- Choices. Numbers are natural numbers: -1 is `none` for a page number and `empty` for a slot's
-- length, and the slot array, which grows downwards from index 0, is indexed by the slot number.
-- The data bytes and the slot array of a page are two functions; the invariant's space equation
-- keeps them apart in the one block of memory that they share. The counts of a page are bounded by
-- its size, so the 16-bit fields do not wrap around and are numbers here; the 32-bit wrap of the two
-- hash functions is written out. For a `File*` from 2^31 on `BufHashTbl::hash` may lead in front of
-- its array; such a cell counts as one more bucket here. Pointers to frames are indices, pointers to
-- files are addresses. File names are ASCII. An operation returns the new state also when it fails, so what an error
-- leaves behind is part of the model. The loops of `scanNext` and of `insertRecord` run on fuel
-- and answer `none` without it: one round more than records and pages are left is enough for the
-- one, one more than pages are left for the other. The operations of the catalogs hand the fuel
-- on; their loops, and those of `SortedFile`, `Partition` and the relational operators, run on
-- `rounds` besides; for those of `QU_Delete` and `UT_Print` one round more than there are records
-- is enough, and for a caller of `SortedFile::next` too. Every other loop is structural, on the
-- slots, frames, runs or attributes that are left or on a chain.
--
-- Parameters. `Unix` states what is used of lseek, read and write: a page that was written reads
-- back, and other pages of the file are left. A write that fails may leave any disk. `FileStore`
-- has no laws of its own; the theorem on the destructor of `BufMgr` supposes that a page in use reads
-- back when it is written, and that the writes leave the other pages. `Storage` has laws of its own,
-- `Obeys`, under a condition on the pool, `Valid`, that the operations keep: a pinned page stays in
-- its frame, and reading and unpinning keep what the pages hold if changed pages are marked dirty. A
-- page that is pinned may be changed and not be marked yet; calls of `readPage` and `allocPage` that
-- fail promise nothing. That the buffer manager and `DB` fill the interface `Storage` so that `Obeys`
-- holds is assumed here; the tests fill it with a storage that evicts every page with its last pin
-- (Tests/Evicting). The difference of two floats, `qsort`, `atoi`, `atof`, the hash function of a
-- partition and what the system calls of load.C answer are parameters; of these no law is used. The
-- theorems on `next` of a sorted file and on `UT_Print` suppose besides that `readPage` does not
-- answer FILEEOF.
--
-- Not modelled: assertions, debugging output, and the destructors of the tables and of `File`;
-- failure of `new`; `matchRec` of join.C, which nothing calls; the parser, which is generated, and
-- the interpreter of its trees (parser/nodes.C, parser/interp.C), which echoes queries and calls
-- the operators; what is printed apart from the records of `UT_Print`; the earlier stages of the
-- program (part1 to part4). The constructor of `HeapFile` ends with an error where the source goes
-- on.
pub mod Base
pub mod Status
pub mod Page
pub mod HashTable
pub mod BufHash
pub mod OpenFiles
pub mod Ring
pub mod Unix
pub mod File
pub mod FileStore
pub mod BufMgr
pub mod Db
pub mod Storage
pub mod HeapFile
pub mod Catalog
pub mod SortedFile
pub mod Query
pub mod Partition
pub mod Tests
