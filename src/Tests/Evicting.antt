-- ===== src/Tests/Evicting.antt =====
-- A storage in memory that evicts pages: with the last pin a page leaves its frame, and a changed page
-- is lost if it was not marked.
pub mod Laws
use mathlib.Core.Path.{subst}
use ubase.Base.{
  ℕ, suc, ◌+◌, ◌-◌, ◌*◌, ◌≡◌, ◌≢◌, ◌<◌, ◌⊎◌, inl, inr, refl, sym, ap, ◌∙◌, Bool, true, false,
  Bool-cases, ==_iff, ◌&&◌, ◌||◌, ltb, none, some, List, [], ◌∷◌, ◌==◌, if◌then◌else◌, arith,
}
use ubase.HeapFile.{HeapFile}
use ubase.HeapFile.Match.{Diff, Filter, Operator, Datatype}
use ubase.HeapFile.Position.{At}
use ubase.HeapFile.Scan.{HeapFileScan}
use ubase.Page.{Page, Record, init, place, insert_record, find_empty, memcpy, set_slot}
use ubase.Page.Slot.{empty}
use ubase.Page.Insert.{lookup-insert_record}
use ubase.HeapFile.Turn.{ReadFails}
use ubase.Page.Valid.{IsValid, init-IsValid}
use ubase.Status.{ok, err, file_eof, bad_page_no}
use ubase.Storage.{Storage, FileHdrPage, PageEntry}
use ubase.Storage.Laws.{View, Obeys, Keeps, KeepsBut, Wrote}

-- The pages on the disk, the frames with their pin counts and marks, the headers, and the number of the
-- next new page. Page `n` of file `f` has the place `100 * f + n`, for less than 100 pages.
pub record Memory : Type 0 where
  pub disk : ℕ → Page
  pub frames : ℕ → Page
  pub pins : ℕ → ℕ
  pub marked : ℕ → Bool
  pub headers : ℕ → FileHdrPage
  pub next : ℕ

abbrev pub set : {A : Type 0} → ℕ → A → (ℕ → A) → ℕ → A
set i x f j = if j == i then x else f j

abbrev pub place_of : (file page_no : ℕ) → ℕ
place_of f n = 100 * f + n

-- A page that no one had pinned comes from the disk.
abbrev pub pin : ℕ → Memory → Memory
pin g s = record s {
  frames = set g (if s.pins g == 0 then s.disk g else s.frames g) s.frames;
  marked = set g (if s.pins g == 0 then false else s.marked g) s.marked;
  pins = set g (suc (s.pins g)) s.pins;
}

-- With the last pin the page leaves its frame, and goes to the disk if it is marked.
abbrev pub unpin : ℕ → Bool → Memory → Memory
unpin g dirty s = record s {
  disk = set g (if s.pins g == 1 && (dirty || s.marked g) then s.frames g else s.disk g) s.disk;
  marked = set g (dirty || s.marked g) s.marked;
  pins = set g (s.pins g - 1) s.pins;
}

abbrev pub storage : Storage
storage = record {
  State = Memory;
  read_page = λ f n s.
      if ltb n 100 then (ok (place_of f n), pin (place_of f n) s) else (err bad_page_no, s);
  unpin_page = λ f n d l s. (ok tt, unpin (place_of f n) d s);
  alloc_page = λ f n s.
      if ltb s.next 100
      then (
        ok (place_of f s.next),
        s.next,
        record (pin (place_of f s.next) s) {
          next = suc s.next;
          marked = set (place_of f s.next) true s.marked;
        },
      )
      else (err bad_page_no, n, s);
  flush_file = λ f s. (ok tt, s);
  create_file = λ name s. (ok tt, s);
  destroy_file = λ name s. (ok tt, s);
  open_file = λ name s. (ok 0, s);
  close_file = λ f s. (ok tt, s);
  get_first_page = λ f s. (ok (some 1), s);
  page = λ s g. s.frames g;
  set_page = λ g p s. record s { frames = set g p s.frames };
  header = λ s g. s.headers g;
  set_header = λ g h s. record s { headers = set g h s.headers };
  string_object = λ name. [];
}

abbrev pub content_at : Memory → ℕ → Page
content_at s g = if s.pins g == 0 then s.disk g else s.frames g

abbrev pub IsSaved : Memory → ℕ → Type 0
IsSaved s g = (s.pins g ≡ 0) ⊎ ((s.marked g ≡ true) ⊎ (s.frames g ≡ s.disk g))

abbrev pub view : View storage
view = record {
  content = λ s f n. content_at s (place_of f n);
  Pinned = λ s f n g. (n < 100) × (g ≡ place_of f n) × (0 < s.pins g);
  Saved = λ s f n. (n < 100) × IsSaved s (place_of f n);
  Live = λ s f n. n < s.next;
  Valid = λ s. Unit;
}
