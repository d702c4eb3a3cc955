-- ===== src/HeapFile/Position.antt =====
-- The state of a heap file that is open: what is pinned, and which pages follow.
use ubase.Base.{ℕ, suc, ◌≡◌, ◌⊎◌, true, List, ◌∷◌, All, IsDistinct}
use ubase.HeapFile.{HeapFile}
use ubase.HeapFile.Scan.Records.{Chain}
use ubase.Page.Valid.{IsValid}
use ubase.Storage.{Storage}
use ubase.Storage.Laws.{View}

module _ (st : Storage) (v : View st) where
  open st use {State, header}
  open v use {content, Pinned, Saved, Valid}

  -- An object that is open on a file with the pages `ns` behind its current page: the header page and the
  -- current page are pinned, all the data pages are valid, no page stands there twice, and no page behind
  -- the current one has changes that the pool does not know of.
  pub record At (h : HeapFile) (s : State) (ns : List ℕ) : Type 0 where
    pub pool : Valid s
    pub cur : Pinned s h.file h.cur_page_no h.cur_page
    pub hdr : Pinned s h.file h.header_page_no h.header_page
    pub distinct : IsDistinct (h.header_page_no ∷ h.cur_page_no ∷ ns)
    pub saved : Saved s h.file h.cur_page_no ⊎ (h.cur_dirty ≡ true)
    pub saves : All (λ n. Saved s h.file n) ns
    pub chain : Chain (header s h.header_page).pages (suc h.cur_idx) ns
    pub valid : IsValid (content s h.file h.cur_page_no)
    pub valids : All (λ n. IsValid (content s h.file n)) ns
