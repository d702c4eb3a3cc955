-- ===== src/Tests/Dbs.antt =====
-- Runs of the class `DB`, part5/part5/db.C, with an operating system that opens every file.
use Prim.Native.String.{String}
use ubase.Base.{◌-◌, ◌≡◌, refl, true, false, none, some, if◌then◌else◌, arith}
use mathlib.Core.Path.{subst}
use ubase.Base.Eq.{string_eq}
use ubase.BufMgr
use ubase.Db.{World, State, file_store, open_file, close_file, destroy_file, open_object, register}
use ubase.Db.Close.{close_file-opens}
use ubase.Db.Cycle.{DestroyOf, open_file-close_file, destroy_file-DestroyOf}
use ubase.Db.Laws.{IsDb, OpenOf, opens, open_file-OpenOf}
use ubase.HashTable
use ubase.OpenFiles
use ubase.OpenFiles.Laws.{file_of, new-IsTable}
use ubase.Status.{ok}
use ubase.Unix.{DbPage, Unix}
use ubase.Unix.Created.{created}

abbrev zeros : DbPage
zeros = record { next_free = none; first_page = none; num_pages = 1 }

refuse : {A : Type 0} → false ≡ true → A
refuse e = absurd (cc)

-- The one page of every file; the descriptor is always 4.
abbrev unix : Unix
unix = record {
  Disk = Unit {0};
  Block = DbPage;
  zero_block = zeros;
  db_page = λ b. b;
  with_db_page = λ h b. h;
  read_at = λ w fd n. some zeros;
  write_at = λ w fd n b. (false, tt);
  create_excl = λ w name. (created 4, tt);
  open_rdwr = λ w name. (some 4, tt);
  close_fd = λ w fd. (true, tt);
  unlink = λ w name. (true, tt);
  db_page-with = λ h b. refl;
  read-write = λ w fd n b done. refuse done;
  read-write_ne = λ w fd n m b ne done. refl;
}

abbrev world : World unix
world = record {
  unix = tt;
  objects = λ a. record { file_name = ""; open_cnt = 0; unix_file = none };
  next_object = 1;
  open_files = OpenFiles.new;
}

abbrev start : State unix
start = BufMgr.new (file_store unix) 3 (λ i. zeros) world

start-IsDb : IsDb unix start.disk
unfolding BufMgr.new
start-IsDb = record {
  table = new-IsTable.0;
  fresh = omega arith;
  live = λ name a e. let gone = new-IsTable.1 name in cc;
}

open_file-OpenOf_example : OpenOf unix start.disk "relcat" (open_file unix "relcat" start)
open_file-OpenOf_example = open_file-OpenOf unix start "relcat" start-IsDb

abbrev opened : State unix
opened = (open_file unix "relcat" start).1

run : open_file unix "relcat" start ≡ (ok 1, opened)
unfolding open_file open_object register OpenFiles.find OpenFiles.insert OpenFiles.new
    OpenFiles.hash OpenFiles.hash_loop HashTable.lookup HashTable.insert HashTable.chain_find
    BufMgr.new
run = refl

here : IsDb unix opened.disk × (file_of opened.disk.open_files "relcat" ≡ some 1)
here =
    let (v, at, counts) = subst (OpenOf unix start.disk "relcat") run open_file-OpenOf_example in
    (v, at)

close_file-opens_example :
    (s' : State unix) × (close_file unix 1 opened ≡ (ok tt, s'))
    × IsDb unix s'.disk
    × ((n : String)
        → opens unix s'.disk n ≡ (
            if string_eq.beq n "relcat"
            then opens unix opened.disk "relcat" - 1
            else opens unix opened.disk n))
close_file-opens_example = close_file-opens unix opened "relcat" 1 here.0 here.1

open_file-close_file_example :
    (s2 : State unix) × (close_file unix 1 opened ≡ (ok tt, s2))
    × IsDb unix s2.disk
    × ((n : String) → opens unix s2.disk n ≡ opens unix start.disk n)
open_file-close_file_example = open_file-close_file unix start opened "relcat" 1 start-IsDb run

destroy_file-DestroyOf_example : DestroyOf unix opened "relcat" (destroy_file unix "relcat" opened)
destroy_file-DestroyOf_example = destroy_file-DestroyOf unix opened "relcat" here.0 refl
