-- ===== src/Db.antt =====
-- The open files of part5/part5/db.C: `File::open`, `File::close` and the class `DB`.
--
-- A `File*` is an address; `new File` takes the next one, so no address is used twice, and NULL is 0.
-- The global objects `db` and `bufMgr` and all `File` objects are one state: the disk that the buffer
-- manager sees is a `World`. The descriptor -1 is `none`.
pub mod Laws
pub mod Close
pub mod Cycle
use Prim.Native.String.{String}
use ubase.Base.{ℕ, suc, ◌+◌, ◌-◌, Bool, true, false, Option, none, some, ltb, ◌==◌, if◌then◌else◌}
use ubase.BufMgr
use ubase.BufMgr.{BufMgr}
use ubase.File
use ubase.FileStore.{FileStore}
use ubase.OpenFiles
use ubase.OpenFiles.{OpenFileHashTbl}
use ubase.Status.{
  Result, ok, err, unix_err, bad_file, bad_file_ptr, bad_page_no, file_exists, file_open,
  file_not_open,
}
use ubase.Unix.{Unix}

pub record FileObject : Type 0 where
  pub file_name : String
  pub open_cnt : ℕ
  pub unix_file : Option ℕ

abbrev pub is_empty : String → Bool
is_empty String.[] = true
is_empty (String.◌∷◌ c s) = false

module _ (u : Unix) where
  open u use {open_rdwr, close_fd}

  pub record World : Type 0 where
    pub unix : Unix.Disk u
    pub objects : ℕ → FileObject
    pub next_object : ℕ
    pub open_files : OpenFileHashTbl

  -- A page operation of a `File`, on its descriptor; a system call on the descriptor -1 fails.
  abbrev pub with_fd :
      {A : Type 0} → Option ℕ → World → (ℕ → File.M u A) → Result A → Result A × World
  with_fd none w op closed = (closed, w)
  with_fd (some fd) w op closed = let (r, d) = op fd w.unix in (r, record w { unix = d })

  abbrev pub on_file : {A : Type 0} → ℕ → World → (ℕ → File.M u A) → Result A → Result A × World
  on_file file w op closed = with_fd (w.objects file).unix_file w op closed

  abbrev pub check_page {ℓ} : {A : Type ℓ} → ℕ → Result A
  check_page page_no = if ltb page_no 1 then err bad_page_no else err unix_err

  -- What the buffer manager calls.
  abbrev pub file_store : FileStore
  file_store = record {
    Disk = World;
    Content = Unix.Block u;
    read_page = λ file n w. on_file file w (λ fd. File.read_page u true fd n) (check_page n);
    write_page = λ file n b w. on_file file w (λ fd. File.write_page u true fd n b) (check_page n);
    allocate_page = λ file w. on_file file w (λ fd. File.allocate_page u fd) (err unix_err);
    dispose_page = λ file n w. on_file file w (λ fd. File.dispose_page u fd n) (check_page n);
  }

  abbrev pub State : Type 0
  State = BufMgr file_store

  abbrev pub M : Type 0 → Type 0
  M A = BufMgr.M file_store A

  abbrev pub set_world : State → World → State
  set_world s w = record s { disk = w }

  abbrev pub set_object : World → ℕ → FileObject → World
  set_object w a o = record w { objects = λ b. if b == a then o else w.objects b }

  -- `new File(name)`
  abbrev pub new_object : World → String → World
  new_object w name =
      record (set_object w w.next_object
        (record { file_name = name; open_cnt = 0; unix_file = none })) {
          next_object = suc w.next_object;
        }

  -- `File::open`
  unfoldable pub open_object : ℕ → M (Unit {0})
  open_object a s =
      let w = s.disk in
      let o = w.objects a in
      if o.open_cnt == 0
      then (let (fd, d) = open_rdwr w.unix o.file_name in
          let w' = record w { unix = d } in
          elim fd [
            | none ↦ (err unix_err, set_world s (set_object w' a (record o { unix_file = none })))
            | some n ↦ (
              ok tt,
              set_world s (set_object w' a (record o { unix_file = some n; open_cnt = 1 })),
            )
          ])
      else (ok tt, set_world s (set_object w a (record o { open_cnt = o.open_cnt + 1 })))

  -- `::close` of a file's descriptor
  unfoldable pub close_unix : ℕ → M (Unit {0})
  close_unix a s = elim (s.disk.objects a).unix_file [
    | none ↦ (err unix_err, s)
    | some fd ↦
        let (done, d) = close_fd s.disk.unix fd in
        let s' = set_world s (record s.disk { unix = d }) in
        if done then (ok tt, s') else (err unix_err, s')
  ]

  -- `File::close`. The result of `flushFile` is not looked at.
  unfoldable pub close_object : ℕ → M (Unit {0})
  unfolding close_unix
  close_object a s =
      let o = s.disk.objects a in
      let s1 = set_world s (set_object s.disk a (record o { open_cnt = o.open_cnt - 1 })) in
      if o.open_cnt == 0
      then (err file_not_open, s)
      else (if o.open_cnt == 1
          then close_unix a (BufMgr.flush_file file_store a s1).1
          else (ok tt, s1))

  -- An operation of `File` that uses no object.
  abbrev pub on_disk : File.M u (Unit {0}) → M (Unit {0})
  on_disk op s = let (r, d) = op s.disk.unix in (r, set_world s (record s.disk { unix = d }))

  unfoldable pub create_file : String → M (Unit {0})
  create_file name s =
      if is_empty name then (err bad_file, s) else elim (OpenFiles.find s.disk.open_files name) [
        | ok _ ↦ (err file_exists, s)
        | err _ ↦ on_disk (File.create u name) s
      ]

  unfoldable pub destroy_file : String → M (Unit {0})
  destroy_file name s =
      if is_empty name then (err bad_file, s) else elim (OpenFiles.find s.disk.open_files name) [
        | ok _ ↦ (err file_open, s)
        | err _ ↦ on_disk (File.destroy u name) s
      ]

  -- A file that has just been opened enters the table.
  unfoldable pub register : String → ℕ → M ℕ
  register name a s = elim (OpenFiles.insert s.disk.open_files name a) [
    | err e ↦ (err e, s)
    | ok t ↦ (ok a, set_world s (record s.disk { open_files = t }))
  ]

  unfoldable pub open_file : String → M ℕ
  unfolding open_object register
  open_file name s =
      if is_empty name then (err bad_file, s) else elim (OpenFiles.find s.disk.open_files name) [
        | ok a ↦ BufMgr.◌>>=◌ file_store (open_object a) (λ _. BufMgr.pure file_store a) s
        | err _ ↦
            let a = s.disk.next_object in
            BufMgr.◌>>=◌ file_store (open_object a) (λ _. register name a)
              (set_world s (new_object s.disk name))
      ]

  -- The result of `file->close()` is not looked at.
  unfoldable pub close_file : ℕ → M (Unit {0})
  unfolding close_object
  close_file a s =
      let s1 = (close_object a s).1 in
      let o = s1.disk.objects a in
      if a == 0
      then (err bad_file_ptr, s)
      else (if o.open_cnt == 0
          then elim (OpenFiles.erase s1.disk.open_files o.file_name) [
            | err _ ↦ (err bad_file_ptr, s1)
            | ok t ↦ (ok tt, set_world s1 (record s1.disk { open_files = t }))
          ]
          else (ok tt, s1))
