-- ===== src/Storage/Laws.antt =====
-- What a heap file relies on: the contract between the buffer manager and the holder of pinned pages.
--
-- `content` is the page of a file as a data page, wherever its bytes stand; `Pinned` says in which
-- frame a page stands that cannot be evicted, `Saved` that the page is in use and its frame, if it
-- stands in one, differs from the disk only if the pool knows the frame as dirty, and `Live` that the
-- file has the page in use. A frame that is pinned may be changed and not be marked as dirty yet;
-- `Valid` says of the pool that this is so of pinned frames only. The operations keep `Valid`, and
-- promise nothing without it.
use ubase.Base.{ℕ, Bool, true, ◌≡◌, ◌≢◌, ◌⊎◌, ◌∙◌, refl}
use ubase.Page.{Page}
use ubase.Status.{Result, ok, err}
use ubase.Storage.{Storage, FileHdrPage}

pub record View (st : Storage) : Type 1 where
  pub content : st.State → (file page_no : ℕ) → Page
  pub Pinned : st.State → (file page_no frame : ℕ) → Type 0
  pub Saved : st.State → (file page_no : ℕ) → Type 0
  pub Live : st.State → (file page_no : ℕ) → Type 0
  pub Valid : st.State → Type 0

module _ {st : Storage} (v : View st) where
  open st use {State, page, set_page, header, set_header}
  open v use {content, Pinned, Saved, Live, Valid}

  -- The pages that other files have pinned stay where they are.
  pub record Apart (file : ℕ) (s s' : State) : Type 0 where
    pub elsewhere :
        (f n g : ℕ) → f ≢ file → Pinned s f n g → Pinned s' f n g × (header s' g ≡ header s g)
    pub saved : (f n : ℕ) → Saved s f n → Saved s' f n
    pub pool : Valid s → Valid s'

  pub Apart-refl : {file : ℕ} {s : State} → Apart file s s
  Apart-refl = record { elsewhere = λ f n g ne pin. (pin, refl); saved = λ f n h. h; pool = λ h. h }

  pub Apart-trans :
      {file : ℕ} {s s1 s2 : State} → Apart file s s1 → Apart file s1 s2 → Apart file s s2
  Apart-trans a b = record {
    elsewhere = λ f n g ne pin.
        let (pin1, hdr1) = a.elsewhere f n g ne pin in
        let (pin2, hdr2) = b.elsewhere f n g ne pin1 in (pin2, hdr2 ∙ hdr1);
    saved = λ f n h. b.saved f n (a.saved f n h);
    pool = λ h. b.pool (a.pool h);
  }

  -- Nothing that a holder of pages sees has changed, page `except` of the file aside, whose pin may be
  -- gone.
  pub record KeepsBut (file except : ℕ) (s s' : State) : Type 0 where
    pub same : (f n : ℕ) → content s' f n ≡ content s f n
    pub pinned :
        (n g : ℕ) → n ≢ except → Pinned s file n g → Pinned s' file n g × (header s' g ≡ header s g)
    pub apart : Apart file s s'
    pub live : (f n : ℕ) → Live s f n → Live s' f n
    pub dead : (f n : ℕ) → Live s' f n → Live s f n

  pub record Keeps (s s' : State) : Type 0 where
    pub same : (f n : ℕ) → content s' f n ≡ content s f n
    pub pinned : (f n g : ℕ) → Pinned s f n g → Pinned s' f n g × (header s' g ≡ header s g)
    pub saved : (f n : ℕ) → Saved s f n → Saved s' f n
    pub pool : Valid s → Valid s'
    pub live : (f n : ℕ) → Live s f n → Live s' f n
    pub dead : (f n : ℕ) → Live s' f n → Live s f n

  pub Keeps-Apart : {file : ℕ} {s s' : State} → Keeps s s' → Apart file s s'
  Keeps-Apart k = record {
    elsewhere = λ f n g ne pin. k.pinned f n g pin;
    saved = k.saved;
    pool = k.pool;
  }

  -- What `readPage` answers. Where it fails nothing is promised: a victim whose page could not be written
  -- is lost to the pool.
  abbrev pub ReadOf : State → (file page_no : ℕ) → Result ℕ × State → Type 0
  ReadOf s f n (ok g, s') = Keeps s s' × Pinned s' f n g
  ReadOf s f n (err e, s') = Unit

  -- What `unPinPage` of a pinned page does.
  abbrev pub UnpinOf : State → (file page_no : ℕ) → Result (Unit {0}) × State → Type 0
  UnpinOf s f n (ok _, s') = KeepsBut f n s s'
  UnpinOf s f n (err e, s') = ⊥

  -- The page that stands in a pinned frame has been written: to `content` it is `p`, and nothing else
  -- has changed but that it may differ from the disk.
  pub record Wrote (f n g : ℕ) (p : Page) (s s' : State) : Type 0 where
    pub put : content s' f n ≡ p
    pub other : (m : ℕ) → m ≢ n → content s' f m ≡ content s f m
    pub pinned : (m k : ℕ) → Pinned s f m k → Pinned s' f m k
    pub saved : (m : ℕ) → m ≢ n → Saved s f m → Saved s' f m
    pub pool : Valid s'
    pub live : (m : ℕ) → Live s f m → Live s' f m
    pub headers : (k : ℕ) → k ≢ g → header s' k ≡ header s k

  -- The same for a header page, of which `content` says nothing.
  pub record WroteHeader (f n g : ℕ) (h : FileHdrPage) (s s' : State) : Type 0 where
    pub put : header s' g ≡ h
    pub other : (m : ℕ) → m ≢ n → content s' f m ≡ content s f m
    pub pinned : (m k : ℕ) → Pinned s f m k → Pinned s' f m k
    pub saved : (m : ℕ) → m ≢ n → Saved s f m → Saved s' f m
    pub pool : Valid s'
    pub live : (m : ℕ) → Live s f m → Live s' f m

  -- A page that was not in use is given to the file, and pinned; what it holds is left open.
  pub record Allocated (f n g : ℕ) (s s' : State) : Type 0 where
    pub fresh : ¬ Live s f n
    pub there : Pinned s' f n g
    pub now_live : Live s' f n
    pub other : (m : ℕ) → m ≢ n → content s' f m ≡ content s f m
    pub pinned : (m k : ℕ) → Pinned s f m k → Pinned s' f m k × (header s' k ≡ header s k)
    pub saved : (m : ℕ) → Saved s f m → Saved s' f m
    pub pool : Valid s'
    pub live : (m : ℕ) → Live s f m → Live s' f m

  -- Where `allocPage` fails, the file may have got a page all the same: nothing is promised then.
  abbrev pub AllocOf : State → (file : ℕ) → Result ℕ × ℕ × State → Type 0
  AllocOf s f (ok g, n, s') = Allocated f n g s s'
  AllocOf s f (err e, n, s') = Unit

  pub record Obeys : Type 0 where
    pub held : (s : State) (f n g : ℕ) → Valid s → Pinned s f n g → page s g ≡ content s f n
    pub distinct : (s : State) (f n m g : ℕ) → Valid s → Pinned s f n g → Pinned s f m g → n ≡ m
    pub read : (s : State) (f n : ℕ) → Valid s → Saved s f n → ReadOf s f n (st.read_page f n s)
    pub unpin :
        (s : State) (f n g : ℕ) (dirty love : Bool)
        → Valid s
        → Pinned s f n g
        → Saved s f n ⊎ (dirty ≡ true)
        → UnpinOf s f n (st.unpin_page f n dirty love s)
    pub write :
        (s : State) (f n g : ℕ) (p : Page)
        → Valid s
        → Pinned s f n g
        → Wrote f n g p s (set_page g p s)
    pub write_header :
        (s : State) (f n g : ℕ) (h : FileHdrPage)
        → Valid s
        → Pinned s f n g
        → WroteHeader f n g h s (set_header g h s)
    pub alloc : (s : State) (f n : ℕ) → Valid s → AllocOf s f (st.alloc_page f n s)
