-- ===== src/HeapFile/Insert/Room.antt =====
-- The loop of `insertRecord` of part5/part5/heapfile.C that looks for a page with room.
use mathlib.Core.Path.{subst}
use ubase.Base.{
  ℕ, zero, suc, ◌+◌, ◌≤◌, ◌<◌, ◌≡◌, inl, inr, refl, sym, ap, ◌∙◌, false, Option, none, some, List,
  ◌∷◌, length, All-mono, All-of, arith, Bool-cases,
}
use ubase.HeapFile.{HeapFile, dir_cnt}
use ubase.HeapFile.Insert.{Search, again, there, failed, lacks, leave_page, find_room}
use ubase.HeapFile.Insert.Ready.{Within, Fits-congr, Ready}
use ubase.HeapFile.Turn.{Turned, Turned-At}
use ubase.Storage.{Storage}
use ubase.Storage.Laws.{View, Obeys}
use ubase.HeapFile.Insert.Leave.{stand, Found, FindOf, LeftOf, leave_page-LeftOf}

module _ (st : Storage) (v : View st) (laws : Obeys v) where
  open st use {State, page, set_page, header, set_header}
  open v use {content, Pinned, Live}

  -- The next page is as good a place to look as the one before it.
  Turned-Ready :
      (h : HeapFile) (s s' : State) (n g : ℕ) (ns : List ℕ)
      → Ready st v laws h s (n ∷ ns)
      → Turned st v laws h.file h.cur_page_no n g s s'
      → Ready st v laws (stand st v laws h n g (suc h.cur_idx)) s' ns
  Turned-Ready h s s' n g ns ready t =
      let same =
        (t.kept h.header_page_no h.header_page (λ e. ready.here.distinct.0.0 (sym e))
          ready.here.hdr).1 in
      record {
        here = Turned-At st v laws h s s' n g ns ready.here t;
        live = (t.live _ ready.live.0, All-mono _ _ (n ∷ ns) (λ m l. t.live m l) ready.live.1.1);
        fits =
            Fits-congr (header s h.header_page).pages (header s' h.header_page).pages
              (content s h.file) (content s' h.file) (suc h.cur_idx) (n ∷ ns)
              (λ j le. ap (λ x. x.pages j) same)
              (All-of _ (n ∷ ns) (λ m. ap (λ c. c h.file m) t.same)) ready.fits.1;
        free = λ j low high. ap (λ x. (x.pages j).page_no) same ∙ ready.free j (omega arith) high;
      }

  -- The current page itself has room.
  staying :
      (h : HeapFile) (s : State) (need : ℕ) (ns : List ℕ)
      → Ready st v laws h s ns
      → lacks ((header s h.header_page).pages h.cur_idx).free_space need ≡ false
      → Found st v laws h s need h s ns
  unfolding lacks
  staying h s need ns ready e = record {
    file = refl;
    head = refl;
    head_no = refl;
    pool = ready.here.pool;
    saves = ready.here.saves;
    cur = ready.here.cur;
    hdr = ready.here.hdr;
    distinct = ready.here.distinct;
    chain = ready.here.chain;
    valid = ready.here.valid;
    valids = ready.here.valids;
    live = ready.live;
    fits = ready.fits.1;
    free = ready.free;
    count = refl;
    other = λ m l ne. refl;
    alive = λ m l. l;
    spot = inl (ready.live.1.0, enough _ _ ready.fits.0 e);
  }
    where
      enough : (o : Option ℕ) (space : ℕ) → Within o space → lacks o need ≡ false → need ≤ space
      enough none space w e = absurd (cc)
      enough (some k) space w e = ground (arith, w)

  Found-after :
      (h : HeapFile) (s : State) (need n g : ℕ) (s1 : State) (h' : HeapFile) (s' : State)
      (ns : List ℕ)
      → (header s1 h.header_page ≡ header s h.header_page)
      → Turned st v laws h.file h.cur_page_no n g s s1
      → Found st v laws (stand st v laws h n g (suc h.cur_idx)) s1 need h' s' ns
      → Found st v laws h s need h' s' ns
  Found-after h s need n g s1 h' s' ns same t w = record {
    file = w.file;
    head = w.head;
    head_no = w.head_no;
    pool = w.pool;
    saves = w.saves;
    cur = w.cur;
    hdr = w.hdr;
    distinct = w.distinct;
    chain = w.chain;
    valid = w.valid;
    valids = w.valids;
    live = w.live;
    fits = w.fits;
    free = w.free;
    count = w.count ∙ ap (λ x. x.rec_cnt) same;
    other = λ m l ne. w.other m (t.live m l) ne ∙ ap (λ c. c h.file m) t.same;
    alive = λ m l. w.alive m (t.live m l);
    spot = elim w.spot [
      | inl (l, room) ↦ inl (t.dead h'.cur_page_no l, room)
      | inr (gone, empty, space) ↦ inr ((λ l. gone (t.live h'.cur_page_no l)), empty, space)
    ];
  }

  FindOf-after :
      (h : HeapFile) (s : State) (need n g : ℕ) (s1 : State)
      (r : Option (Search × HeapFile × State))
      → (header s1 h.header_page ≡ header s h.header_page)
      → Turned st v laws h.file h.cur_page_no n g s s1
      → FindOf st v laws (stand st v laws h n g (suc h.cur_idx)) s1 need r
      → FindOf st v laws h s need r
  FindOf-after h s need n g s1 none same t w = absurd w
  FindOf-after h s need n g s1 (some (again, h', s')) same t w = absurd w
  FindOf-after h s need n g s1 (some (there, h', s')) same t (ns, w) =
      (ns, Found-after h s need n g s1 h' s' ns same t w)
  FindOf-after h s need n g s1 (some (failed r, h', s')) same t w = w

  -- What a round of the loop leads to, given the rounds that follow.
  rounds :
      (fuel need : ℕ) (h : HeapFile) (s : State) (ns : List ℕ) (step : Search) (h1 : HeapFile)
      (s1 : State)
      → Ready st v laws h s ns
      → suc (suc (h.cur_idx + length ns)) < dir_cnt
      → length ns < suc fuel
      → LeftOf st v laws h s need ns (step, h1, s1)
      → ((h : HeapFile) (s : State) (ns : List ℕ)
          → Ready st v laws h s ns
          → suc (suc (h.cur_idx + length ns)) < dir_cnt
          → length ns < fuel
          → FindOf st v laws h s need (find_room st fuel need h s))
      → FindOf st v laws h s need (elim step [
        | again ↦ find_room st fuel need h1 s1
        | there ↦ some (there, h1, s1)
        | failed r ↦ some (failed r, h1, s1)
      ])
  rounds fuel need h s ns again h1 s1 ready small enough (n, g, ns', same_ns, same_h, t) rest =
      let ready' = subst (Ready st v laws h s) same_ns ready in
      let len : length ns ≡ suc (length ns') = ap length same_ns in
      let same =
        (t.kept h.header_page_no h.header_page (λ e. ready.here.distinct.0.0 (sym e))
          ready.here.hdr).1 in
      subst (λ x. FindOf st v laws h s need (find_room st fuel need x s1)) (sym same_h)
        (FindOf-after h s need n g s1 _ same t (
          rest (stand st v laws h n g (suc h.cur_idx)) s1 ns' (Turned-Ready h s s1 n g ns' ready' t)
            (omega (arith, small, len)) (omega (arith, enough, len))))
  rounds fuel need h s ns there h1 s1 ready small enough found rest = found
  rounds fuel need h s ns (failed r) h1 s1 ready small enough w rest = w

  -- The search ends within one round more than there are pages left.
  pub find_room-FindOf :
      (fuel need : ℕ) (h : HeapFile) (s : State) (ns : List ℕ)
      → Ready st v laws h s ns
      → suc (suc (h.cur_idx + length ns)) < dir_cnt
      → length ns < fuel
      → FindOf st v laws h s need (find_room st fuel need h s)
  unfolding find_room
  find_room-FindOf zero need h s ns ready small enough = absurd (omega arith)
  find_room-FindOf (suc fuel) need h s ns ready small enough =
      elim (Bool-cases (lacks ((header s h.header_page).pages h.cur_idx).free_space need)) [
        | inl e ↦
            let w = leave_page st h s in
            let run : find_room st (suc fuel) need h s ≡ (elim w.0 [
              | again ↦ find_room st fuel need w.1 w.2
              | there ↦ some (there, w.1, w.2)
              | failed r ↦ some (failed r, w.1, w.2)
            ]) =
              rw (find_room, e) refl in
            subst (FindOf st v laws h s need) (sym run) (
              rounds fuel need h s ns w.0 w.1 w.2 ready small enough
                (leave_page-LeftOf st v laws h s need ns ready small) (find_room-FindOf fuel need))
        | inr e ↦
            let run : find_room st (suc fuel) need h s ≡ some (there, h, s) =
              rw (find_room, e) refl in
            subst (FindOf st v laws h s need) (sym run) (ns, staying h s need ns ready e)
      ]
