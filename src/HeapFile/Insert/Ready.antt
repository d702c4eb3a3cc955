-- ===== src/HeapFile/Insert/Ready.antt =====
-- The state of a file that records are inserted into, for `InsertFileScan` of part5/part5/heapfile.C.
use mathlib.Core.Path.{subst}
use ubase.Base.{
  ℕ, suc, ◌+◌, ◌≤◌, ◌<◌, ◌≡◌, ◌≢◌, inr, sym, ◌∙◌, true, Option, none, some, List, [], ◌∷◌, length,
  All, All-mono, All-both, IsDistinct, arith,
}
use ubase.HeapFile.{HeapFile, dir_cnt}
use ubase.HeapFile.Position.{At}
use ubase.HeapFile.Scan.Records.{Chain}
use ubase.Page.{Page}
use ubase.Page.Valid.{IsValid}
use ubase.Storage.{Storage, PageEntry, FileHdrPage}
use ubase.Storage.Laws.{View, Obeys}

-- The space that an entry gives is there.
abbrev pub Within : Option ℕ → ℕ → Type 0
Within none space = Unit
Within (some n) space = n ≤ space

-- The entries from an index on, against the pages of a list.
abbrev pub Fits : (ℕ → PageEntry) → (ℕ → Page) → ℕ → List ℕ → Type 0
Fits pages content i [] = Unit
Fits pages content i (n ∷ ns) =
    Within (pages i).free_space (content n).free_space × Fits pages content (suc i) ns

pub Fits-congr :
    (pages pages' : ℕ → PageEntry) (c c' : ℕ → Page) (i : ℕ) (ns : List ℕ)
    → ((j : ℕ) → i ≤ j → pages' j ≡ pages j)
    → All (λ n. c' n ≡ c n) ns
    → Fits pages c i ns
    → Fits pages' c' i ns
Fits-congr pages pages' c c' i [] same all h = tt
Fits-congr pages pages' c c' i (n ∷ ns) same all h = (
  rw (same i (omega arith), all.0) h.0,
  Fits-congr pages pages' c c' (suc i) ns (λ j le. same j (omega arith)) all.1 h.1,
)

pub Chain-congr :
    (pages pages' : ℕ → PageEntry) (i : ℕ) (ns : List ℕ)
    → ((j : ℕ) → i ≤ j → pages' j ≡ pages j)
    → Chain pages i ns
    → Chain pages' i ns
Chain-congr pages pages' i [] same h = rw (same i (omega arith)) h
Chain-congr pages pages' i (n ∷ ns) same h = (
  rw (same i (omega arith)) h.0,
  Chain-congr pages pages' (suc i) ns (λ j le. same j (omega arith)) h.1,
)

-- The entries behind the last page are free.
abbrev pub IsFree : (ℕ → PageEntry) → ℕ → Type 0
IsFree pages i = (j : ℕ) → i < j → j < dir_cnt → (pages j).page_no ≡ none

module _ (st : Storage) (v : View st) (laws : Obeys v) where
  open st use {State, set_page, header, set_header}
  open v use {content, Pinned, Saved, Live, Valid}

  -- An object that is open on a file with the pages `ns` behind its current page, which the file has in
  -- use; the header gives no page more space than it has.
  pub record Ready (h : HeapFile) (s : State) (ns : List ℕ) : Type 0 where
    pub here : At st v h s ns
    pub live : All (Live s h.file) (h.header_page_no ∷ h.cur_page_no ∷ ns)
    pub fits : Fits (header s h.header_page).pages (content s h.file) h.cur_idx (h.cur_page_no ∷ ns)
    pub free : IsFree (header s h.header_page).pages (h.cur_idx + length ns)

  -- The current page and then the header have been written.
  pub record Overwrote (h : HeapFile) (s s' : State) (ns : List ℕ) (p : Page) (hdr : FileHdrPage)
      : Type 0 where
    pub here : At st v h s' ns
    pub put : content s' h.file h.cur_page_no ≡ p
    pub header_put : header s' h.header_page ≡ hdr
    pub other :
        (m : ℕ)
        → m ≢ h.cur_page_no
        → m ≢ h.header_page_no
        → content s' h.file m ≡ content s h.file m
    pub live : (m : ℕ) → Live s h.file m → Live s' h.file m

  pub others :
      (h : HeapFile) (s s' : State) (ns : List ℕ)
      → IsDistinct (h.header_page_no ∷ h.cur_page_no ∷ ns)
      → ((m : ℕ)
          → m ≢ h.cur_page_no
          → m ≢ h.header_page_no
          → content s' h.file m ≡ content s h.file m)
      → All (λ n. content s' h.file n ≡ content s h.file n) ns
  others h s s' ns d same = All-mono _ _ ns (λ n (a, b). same n b a) (All-both _ _ ns d.0.1 d.1.0)

  pub overwritten :
      (h : HeapFile) (s : State) (ns : List ℕ) (p : Page) (hdr : FileHdrPage)
      → Valid s
      → All (λ n. Saved s h.file n) ns
      → h.cur_dirty ≡ true
      → Pinned s h.file h.cur_page_no h.cur_page
      → Pinned s h.file h.header_page_no h.header_page
      → IsDistinct (h.header_page_no ∷ h.cur_page_no ∷ ns)
      → Chain hdr.pages (suc h.cur_idx) ns
      → All (λ n. IsValid (content s h.file n)) ns
      → IsValid p
      → Overwrote h s (set_header h.header_page hdr (set_page h.cur_page p s)) ns p hdr
  overwritten h s ns p hdr pool saves dirty cur head distinct chain valids valid =
      let s1 = set_page h.cur_page p s in
      let s2 = set_header h.header_page hdr s1 in
      let w = laws.write s h.file h.cur_page_no h.cur_page p pool cur in
      let w' =
        laws.write_header s1 h.file h.header_page_no h.header_page hdr w.pool
          (w.pinned h.header_page_no h.header_page head) in
      let put : content s2 h.file h.cur_page_no ≡ p = w'.other h.cur_page_no distinct.0.0 ∙ w.put in
      let other : (m : ℕ)
          → m ≢ h.cur_page_no
          → m ≢ h.header_page_no
          → content s2 h.file m ≡ content s h.file m =
        λ m a b. w'.other m b ∙ w.other m a in
      record {
        here = record {
          pool = w'.pool;
          cur = w'.pinned _ _ (w.pinned _ _ cur);
          hdr = w'.pinned _ _ (w.pinned _ _ head);
          distinct = distinct;
          saved = inr dirty;
          saves =
              All-mono _ _ ns (λ n ((a, b), c). w'.saved n a (w.saved n b c))
                (All-both _ _ ns (All-both _ _ ns distinct.0.1 distinct.1.0) saves);
          chain = subst (λ x. Chain x.pages (suc h.cur_idx) ns) (sym w'.put) chain;
          valid = subst IsValid (sym put) valid;
          valids =
              All-mono _ _ ns (λ n (e, good). subst IsValid (sym e) good)
                (All-both _ _ ns (others h s s2 ns distinct other) valids);
        };
        put = put;
        header_put = w'.put;
        other = other;
        live = λ m l. w'.live m (w.live m l);
      }

  -- The header's frame is not that of the current page.
  pub header_kept :
      (h : HeapFile) (s : State) (p : Page)
      → Valid s
      → h.cur_page_no ≢ h.header_page_no
      → Pinned s h.file h.cur_page_no h.cur_page
      → Pinned s h.file h.header_page_no h.header_page
      → header (set_page h.cur_page p s) h.header_page ≡ header s h.header_page
  header_kept h s p pool ne cur head =
      (laws.write s h.file h.cur_page_no h.cur_page p pool cur).headers h.header_page (λ e. ne (
        laws.distinct s h.file h.cur_page_no h.header_page_no h.header_page pool
          (subst (Pinned s h.file h.cur_page_no) (sym e) cur) head))
