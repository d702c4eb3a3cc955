-- ===== src/HeapFile/Turn.antt =====
-- The step from a page to the next one, over the contract of the storage.
use mathlib.Core.Path.{subst}
use ubase.Base.{
  List, ◌∷◌, All, All-mono, suc, none, inl, sym, ℕ, ◌≡◌, ◌≢◌, ◌⊎◌, refl, ◌∙◌, fun_ext, true, false,
}
use ubase.HeapFile.{HeapFile, turn_to}
use ubase.HeapFile.Position.{At}
use ubase.HeapFile.Scan.Records.{Chain}
use ubase.Page.Valid.{IsValid}
use ubase.Status.{Result, ok, err, Status}
use ubase.Storage.{Storage}
use ubase.Storage.Laws.{Apart, Apart-trans, Keeps-Apart, KeepsBut, View, Obeys, ReadOf, UnpinOf}

module _ (st : Storage) (v : View st) (laws : Obeys v) where
  open st use {State, page, header}
  open v use {content, Pinned, Saved, Live, Valid}

  -- A `readPage` can answer the code.
  abbrev pub ReadFails : Status → Type 0
  ReadFails e = (f : ℕ) × (n : ℕ) × (s : State) × (s' : State) × (st.read_page f n s ≡ (err e, s'))

  -- From the state `s`, page `c` of the file has been given up and page `n` been read.
  pub record Turned (file c n frame : ℕ) (s s' : State) : Type 0 where
    pub same : content s' ≡ content s
    pub kept :
        (m g : ℕ) → m ≢ c → Pinned s file m g → Pinned s' file m g × (header s' g ≡ header s g)
    pub apart : Apart v file s s'
    pub there : Pinned s' file n frame
    pub live : (m : ℕ) → Live s file m → Live s' file m
    pub dead : (m : ℕ) → Live s' file m → Live s file m
    pub saved : Saved s' file n

  abbrev pub TurnOf :
      HeapFile → State → ℕ → (HeapFile → HeapFile) → Result (Unit {0}) × HeapFile × State → Type 0
  TurnOf h s n change (err e, h', s') = ReadFails e
  TurnOf h s n change (ok _, h', s') =
      (g : ℕ) × (h' ≡ change (record h { cur_page_no = n; cur_page = g }))
      × Turned h.file h.cur_page_no n g s s'

  pub unpinned-Turned :
      (h : HeapFile) (s s1 s2 : State) (n g : ℕ)
      → KeepsBut v h.file h.cur_page_no s s1
      → Saved s h.file n
      → ReadOf v s1 h.file n (ok g, s2)
      → Turned h.file h.cur_page_no n g s s2
  unpinned-Turned h s s1 s2 n g u saved (k, there) = record {
    same = fun_ext (λ f. fun_ext (λ m. k.same f m ∙ u.same f m));
    kept = λ m g' ne pin.
        let (pin1, hdr1) = u.pinned m g' ne pin in
        let (pin2, hdr2) = k.pinned h.file m g' pin1 in (pin2, hdr2 ∙ hdr1);
    apart = Apart-trans v u.apart (Keeps-Apart v k);
    there = there;
    live = λ m l. k.live h.file m (u.live h.file m l);
    dead = λ m l. u.dead h.file m (k.dead h.file m l);
    saved = k.saved h.file n (u.apart.saved h.file n saved);
  }

  after :
      (h : HeapFile) (s : State) (n : ℕ) (change : HeapFile → HeapFile) (r : Result (Unit {0}))
      (s1 : State) (r2 : Result ℕ) (s2 : State)
      → Valid s
      → Saved s h.file n
      → UnpinOf v s h.file h.cur_page_no (r, s1)
      → st.read_page h.file n s1 ≡ (r2, s2)
      → (Valid s1 → Saved s1 h.file n → ReadOf v s1 h.file n (r2, s2))
      → TurnOf h s n change (elim r [
        | err e ↦ (err e, h, s1)
        | ok _ ↦ elim r2 [
          | err e ↦ (err e, record h { cur_page_no = n }, s2)
          | ok frame ↦ (ok tt, change (record h { cur_page_no = n; cur_page = frame }), s2)
        ]
      ])
  after h s n change (err e) s1 r2 s2 pool clean u q k = absurd u
  after h s n change (ok _) s1 (err e) s2 pool clean u q k = (h.file, n, s1, s2, q)
  after h s n change (ok _) s1 (ok g) s2 pool clean u q k = (
    g,
    refl,
    unpinned-Turned h s s1 s2 n g u clean (k (u.apart.pool pool) (u.apart.saved h.file n clean)),
  )

  pub turn_to-TurnOf :
      (h : HeapFile) (s : State) (n : ℕ) (change : HeapFile → HeapFile)
      → Valid s
      → Pinned s h.file h.cur_page_no h.cur_page
      → Saved s h.file h.cur_page_no ⊎ (h.cur_dirty ≡ true)
      → Saved s h.file n
      → TurnOf h s n change (turn_to st n change h s)
  unfolding turn_to
  turn_to-TurnOf h s n change pool pin saved clean =
      let u = st.unpin_page h.file h.cur_page_no h.cur_dirty false s in
      let w = st.read_page h.file n u.1 in
      after h s n change u.0 u.1 w.0 w.1 pool clean
        (laws.unpin s h.file h.cur_page_no h.cur_page h.cur_dirty false pool pin saved) refl
        (laws.read u.1 h.file n)

  -- The object stands on the next page then.
  pub Turned-At :
      (h : HeapFile) (s s' : State) (n g : ℕ) (ns : List ℕ)
      → At st v h s (n ∷ ns)
      → Turned h.file h.cur_page_no n g s s'
      → At st v
          (record h { cur_page_no = n; cur_page = g; cur_idx = suc h.cur_idx; cur_rec = none })
          s'
          ns
  Turned-At h s s' n g ns here t =
      let (header_pin, header_same) =
        t.kept h.header_page_no h.header_page (λ e. here.distinct.0.0 (sym e)) here.hdr in
      record {
        pool = t.apart.pool here.pool;
        cur = t.there;
        hdr = header_pin;
        distinct = (here.distinct.0.1, here.distinct.1.1);
        saved = inl t.saved;
        saves = All-mono _ _ ns (λ m c. t.apart.saved h.file m c) here.saves.1;
        chain =
            subst (λ h'. Chain h'.pages (suc (suc h.cur_idx)) ns) (sym header_same) here.chain.1;
        valid = subst (λ c. IsValid (c h.file n)) (sym t.same) here.valids.0;
        valids = subst (λ c. All (λ m. IsValid (c h.file m)) ns) (sym t.same) here.valids.1;
      }
