-- ===== src/HeapFile/Insert/Leave.antt =====
-- The step of `insertRecord` of part5/part5/heapfile.C from a full page to the next one or to a new one.
use mathlib.Core.Path.{subst}
use ubase.Base.{
  ℕ, suc, ◌+◌, ◌-◌, ◌≤◌, ◌<◌, ◌≡◌, ◌≢◌, ◌⊎◌, inl, inr, refl, sym, ap, ◌∙◌, true, false, Option,
  none, some, List, [], ◌∷◌, length, All, IsDistinct, arith, ◌==◌,
}
use ubase.HeapFile.{HeapFile, dir_cnt, set_entry, init_page}
use ubase.HeapFile.Insert.{
  Search, again, there, failed, leave_page, add_page, read_next, enter_page,
}
use ubase.HeapFile.Insert.Ready.{Fits, IsFree, Ready, overwritten, header_kept}
use ubase.HeapFile.Scan.Records.{Chain}
use ubase.HeapFile.Turn.{ReadFails, Turned, unpinned-Turned}
use ubase.Page.{init, get_free_space, slot_size, page_size, dp_fixed}
use ubase.Page.Valid.{IsValid, init-IsValid}
use ubase.Status.{Status, Result, ok, err}
use ubase.Storage.{Storage}
use ubase.Storage.Laws.{View, Obeys, KeepsBut, UnpinOf, ReadOf, AllocOf, Allocated}

module _ (st : Storage) (v : View st) (laws : Obeys v) where
  open st use {State, page, set_page, header, set_header}
  open v use {content, Pinned, Saved, Live, Valid}

  -- `readPage` or `allocPage` can answer the code.
  abbrev pub Fails : Status → Type 0
  Fails e =
      ReadFails st v laws e
      ⊎ ((f : ℕ) × (n : ℕ) × (s : State) × (n' : ℕ) × (s' : State) × (st.alloc_page f n s
            ≡ (err e, n', s')))

  -- The object on another page of its file.
  abbrev pub stand : HeapFile → (page_no frame idx : ℕ) → HeapFile
  stand h page_no frame idx = record h {
    cur_page_no = page_no;
    cur_page = frame;
    cur_idx = idx;
    cur_rec = none;
  }

  -- A page with `need` free bytes by the header, or a new one, is the current page now; what the pages
  -- hold has not changed.
  pub record Found (h : HeapFile) (s : State) (need : ℕ) (h' : HeapFile) (s' : State) (ns : List ℕ)
      : Type 0 where
    pub file : h'.file ≡ h.file
    pub head : h'.header_page ≡ h.header_page
    pub head_no : h'.header_page_no ≡ h.header_page_no
    pub pool : Valid s'
    pub saves : All (λ n. Saved s' h.file n) ns
    pub cur : Pinned s' h.file h'.cur_page_no h'.cur_page
    pub hdr : Pinned s' h.file h.header_page_no h.header_page
    pub distinct : IsDistinct (h.header_page_no ∷ h'.cur_page_no ∷ ns)
    pub chain : Chain (header s' h.header_page).pages (suc h'.cur_idx) ns
    pub valid : IsValid (content s' h.file h'.cur_page_no)
    pub valids : All (λ n. IsValid (content s' h.file n)) ns
    pub live : All (Live s' h.file) (h.header_page_no ∷ h'.cur_page_no ∷ ns)
    pub fits : Fits (header s' h.header_page).pages (content s' h.file) (suc h'.cur_idx) ns
    pub free : IsFree (header s' h.header_page).pages (h'.cur_idx + length ns)
    pub count : (header s' h.header_page).rec_cnt ≡ (header s h.header_page).rec_cnt
    pub other :
        (m : ℕ) → Live s h.file m → m ≢ h.header_page_no → content s' h.file m ≡ content s h.file m
    pub alive : (m : ℕ) → Live s h.file m → Live s' h.file m
    pub spot :
        (Live s h.file h'.cur_page_no × (need ≤ (content s' h.file h'.cur_page_no).free_space))
        ⊎ ((¬ Live s h.file h'.cur_page_no)
            × ((content s' h.file h'.cur_page_no).slot_cnt ≡ 0)
            × ((content s' h.file h'.cur_page_no).free_space ≡ page_size - dp_fixed + slot_size))

  abbrev pub FindOf : HeapFile → State → ℕ → Option (Search × HeapFile × State) → Type 0
  FindOf h s need none = ⊥
  FindOf h s need (some (again, h', s')) = ⊥
  FindOf h s need (some (there, h', s')) = (ns : List ℕ) × Found h s need h' s' ns
  FindOf h s need (some (failed r, h', s')) = (e : Status) × (r ≡ err e) × Fails e

  -- The current page is full: another page, or a new one, follows it.
  abbrev pub LeftOf : HeapFile → State → ℕ → List ℕ → Search × HeapFile × State → Type 0
  LeftOf h s need ns (again, h', s') =
      (n : ℕ) × (g : ℕ) × (ns' : List ℕ) × (ns ≡ n ∷ ns')
      × (h' ≡ stand h n g (suc h.cur_idx))
      × Turned st v laws h.file h.cur_page_no n g s s'
  LeftOf h s need ns (there, h', s') = (ns' : List ℕ) × Found h s need h' s' ns'
  LeftOf h s need ns (failed r, h', s') = (e : Status) × (r ≡ err e) × Fails e

  reading :
      (h : HeapFile) (s s1 : State) (need n : ℕ) (ns : List ℕ) (r : Result ℕ) (s2 : State)
      → KeepsBut v h.file h.cur_page_no s s1
      → st.read_page h.file n s1 ≡ (r, s2)
      → Saved s h.file n
      → ReadOf v s1 h.file n (r, s2)
      → LeftOf h s need (n ∷ ns) (elim r [
        | err e ↦ (failed (err e), record h { cur_page_no = n }, s2)
        | ok frame ↦ (again, stand h n frame (suc h.cur_idx), s2)
      ])
  reading h s s1 need n ns (err e) s2 u q clean k = (e, refl, inl (h.file, n, s1, s2, q))
  reading h s s1 need n ns (ok g) s2 u q clean k =
      (n, g, ns, refl, refl, unpinned-Turned st v laws h s s1 s2 n g u clean k)

  -- The new page, initialised and entered into the header.
  adding :
      (h : HeapFile) (s s1 : State) (need n g : ℕ) (s2 : State)
      → Ready st v laws h s []
      → suc (suc h.cur_idx) < dir_cnt
      → KeepsBut v h.file h.cur_page_no s s1
      → Allocated v h.file n g s1 s2
      → Found h s need
          (record (stand h n g (suc h.cur_idx)) { hdr_dirty = true })
          (enter_page st h.header_page (suc h.cur_idx) g n (init_page st g n s2))
          []
  unfolding enter_page init get_free_space
  adding h s s1 need n g s2 ready small u a =
      let idx = suc h.cur_idx in
      let hn = h.header_page_no in
      let (pin1, hdr1) =
        u.pinned hn h.header_page (λ e. ready.here.distinct.0.0 (sym e)) ready.here.hdr in
      let (pin2, hdr2) = a.pinned hn h.header_page pin1 in
      let live_hn = u.live h.file hn ready.live.0 in
      let ne : n ≢ hn = λ e. a.fresh (subst (Live s1 h.file) (sym e) live_hn) in
      let h' : HeapFile = record (stand h n g idx) { cur_dirty = true } in
      let p = init (page s2 g) n in
      let s3 = set_page g p s2 in
      let same : header s3 h.header_page ≡ header s h.header_page =
        header_kept st v laws h' s2 p a.pool ne a.there pin2 ∙ hdr2 ∙ hdr1 in
      let behind : (j : ℕ)
          → idx < j
          → j < dir_cnt
          → (set_entry (header s3 h.header_page).pages idx
              (record { page_no = some n; free_space = some (page s3 g).free_space }) j).page_no
            ≡ none =
        λ j low high.
          let free : ((header s h.header_page).pages j).page_no ≡ none =
            ready.free j (omega arith) high in
          let there : ((header s3 h.header_page).pages j).page_no ≡ none =
            ap (λ x. (x.pages j).page_no) same ∙ free in
          let other : (j == idx) ≡ false = ground arith in rw other there in
      let w =
        overwritten st v laws h' s2 [] p _ a.pool tt refl a.there pin2 ((ne, tt), (tt, tt))
          (behind (suc idx) (omega arith) small) tt (init-IsValid (page s2 g) n).0 in
      record {
        file = refl;
        head = refl;
        head_no = refl;
        pool = w.here.pool;
        saves = tt;
        cur = w.here.cur;
        hdr = w.here.hdr;
        distinct = ((ne, tt), (tt, tt));
        chain = w.here.chain;
        valid = w.here.valid;
        valids = tt;
        live = (w.live hn (a.live hn live_hn), (w.live n a.now_live, tt));
        fits = tt;
        free =
            λ j low high. ap (λ x. (x.pages j).page_no) w.header_put ∙ behind j (omega arith) high;
        count = ap (λ x. x.rec_cnt) w.header_put ∙ ap (λ x. x.rec_cnt) same;
        other = λ m l out.
            let old : m ≢ n = λ e. a.fresh (subst (Live s1 h.file) e (u.live h.file m l)) in
            w.other m old out ∙ a.other m old ∙ u.same h.file m;
        alive = λ m l. w.live m (a.live m (u.live h.file m l));
        spot = inr (
          (λ l. a.fresh (u.live h.file n l)),
          ap (λ x. x.slot_cnt) w.put,
          ap (λ x. x.free_space) w.put,
        );
      }

  allocating :
      (h : HeapFile) (s s1 : State) (need : ℕ) (r : Result ℕ) (n : ℕ) (s2 : State)
      → Ready st v laws h s []
      → suc (suc h.cur_idx) < dir_cnt
      → KeepsBut v h.file h.cur_page_no s s1
      → st.alloc_page h.file h.cur_page_no s1 ≡ (r, n, s2)
      → AllocOf v s1 h.file (r, n, s2)
      → LeftOf h s need [] (elim r [
        | err e ↦ (failed (err e), record h { cur_page_no = n }, s2)
        | ok g ↦ (
          there,
          record (stand h n g (suc h.cur_idx)) { hdr_dirty = true },
          enter_page st h.header_page (suc h.cur_idx) g n (init_page st g n s2),
        )
      ])
  allocating h s s1 need (err e) n s2 ready small u q a =
      (e, refl, inr (h.file, h.cur_page_no, s1, n, s2, q))
  allocating h s s1 need (ok g) n s2 ready small u q a =
      ([], adding h s s1 need n g s2 ready small u a)

  unpinned :
      (h : HeapFile) (s : State) (need : ℕ) (ns : List ℕ) (r : Result (Unit {0})) (s1 : State)
      → Ready st v laws h s ns
      → suc (suc (h.cur_idx + length ns)) < dir_cnt
      → UnpinOf v s h.file h.cur_page_no (r, s1)
      → LeftOf h s need ns (elim r [
        | err e ↦ (failed (err e), h, s1)
        | ok _ ↦ elim ((header s1 h.header_page).pages (suc h.cur_idx)).page_no [
          | none ↦ add_page st h s1
          | some n ↦ read_next st n h s1
        ]
      ])
  unfolding add_page read_next
  unpinned h s need ns (err e) s1 ready small u = absurd u
  unpinned h s need [] (ok _) s1 ready small u =
      let hdr1 =
        (u.pinned h.header_page_no h.header_page (λ e. ready.here.distinct.0.0 (sym e))
          ready.here.hdr).1 in
      subst
        (λ o.
          LeftOf h s need [] (elim o [ none ↦ add_page st h s1 | some n ↦ read_next st n h s1 ]))
        (sym (ap (λ x. (x.pages (suc h.cur_idx)).page_no) hdr1 ∙ ready.here.chain))
        (allocating h s s1 need _ _ _ ready (omega (arith, small)) u refl
          (laws.alloc s1 h.file h.cur_page_no (u.apart.pool ready.here.pool)))
  unpinned h s need (n ∷ ns) (ok _) s1 ready small u =
      let hdr1 =
        (u.pinned h.header_page_no h.header_page (λ e. ready.here.distinct.0.0 (sym e))
          ready.here.hdr).1 in
      subst
        (λ o.
          LeftOf h s need (n ∷ ns)
            (elim o [ none ↦ add_page st h s1 | some n ↦ read_next st n h s1 ]))
        (sym (ap (λ x. (x.pages (suc h.cur_idx)).page_no) hdr1 ∙ ready.here.chain.0))
        (reading h s s1 need n ns _ _ u refl ready.here.saves.0 (
          laws.read s1 h.file n (u.apart.pool ready.here.pool)
            (u.apart.saved h.file n ready.here.saves.0)))

  pub leave_page-LeftOf :
      (h : HeapFile) (s : State) (need : ℕ) (ns : List ℕ)
      → Ready st v laws h s ns
      → suc (suc (h.cur_idx + length ns)) < dir_cnt
      → LeftOf h s need ns (leave_page st h s)
  unfolding leave_page
  leave_page-LeftOf h s need ns ready small = unpinned h s need ns _ _ ready small (
      laws.unpin s h.file h.cur_page_no h.cur_page h.cur_dirty false ready.here.pool ready.here.cur
        ready.here.saved)
