-- ===== src/HeapFile/Insert/Laws.antt =====
-- `InsertFileScan::insertRecord` of part5/part5/heapfile.C, as a whole.
use mathlib.Core.Path.{subst}
use ubase.Base.{
  ℕ, suc, ◌+◌, ◌-◌, ◌≤◌, ◌<◌, ◌≡◌, ◌≢◌, ◌⊎◌, inl, inr, refl, sym, ap, ◌∙◌, true, false, Option,
  none, some, List, ◌∷◌, length, All-mono, leb, arith, Bool-cases, if◌then◌else◌, ◌==◌,
}
use ubase.HeapFile.{HeapFile, dir_cnt, set_entry}
use ubase.HeapFile.Insert.{Search, again, there, failed, put_record, enter_record, insert_record}
use ubase.HeapFile.Insert.Ready.{Fits-congr, Chain-congr, Ready, others, overwritten, header_kept}
use ubase.HeapFile.Insert.Leave.{Fails, Found, FindOf}
use ubase.HeapFile.Insert.Room.{find_room-FindOf}
use ubase.HeapFile.Scan.Listing.{lookup-outside}
use ubase.Page
use ubase.Page.{Page, Rid, Record, get_free_space, slot_size, page_size, dp_fixed}
use ubase.Page.Insert.{lookup-insert_record, insert_record-HasRoom, HasRoom}
use ubase.Page.Valid.{lookup}
use ubase.Status.{Result, ok, err, no_space}
use ubase.Storage.{Storage}
use ubase.Storage.Laws.{View, Obeys}

module _ (st : Storage) (v : View st) (laws : Obeys v) where
  open st use {State, page, set_page, header, set_header}
  open v use {content, Pinned, Live}

  -- One record more, and nothing else: on a page that the file had, or on a new one.
  pub record Inserted (h : HeapFile) (s : State) (rec : Record) (rid : Rid) (h' : HeapFile)
      (s' : State) : Type 0 where
    pub page_of :
        (Live s h.file h'.cur_page_no
          × (lookup (content s h.file h'.cur_page_no) rid.slot_no ≡ none)
          × ((j : ℕ)
              → lookup (content s' h.file h'.cur_page_no) j ≡ (
                  if j == rid.slot_no
                  then some rec
                  else lookup (content s h.file h'.cur_page_no) j)))
        ⊎ ((¬ Live s h.file h'.cur_page_no)
            × ((j : ℕ)
                → lookup (content s' h.file h'.cur_page_no) j
                  ≡ (if j == rid.slot_no then some rec else none)))
    pub other :
        (m : ℕ)
        → Live s h.file m
        → m ≢ h'.cur_page_no
        → m ≢ h.header_page_no
        → content s' h.file m ≡ content s h.file m
    pub alive : (m : ℕ) → Live s h.file m → Live s' h.file m
    pub count : (header s' h.header_page).rec_cnt ≡ suc (header s h.header_page).rec_cnt

  -- What `insertRecord` may answer.
  abbrev pub InsertOf : HeapFile → State → Record → Option (Result Rid × HeapFile × State) → Type 0
  InsertOf h s rec none = ⊥
  InsertOf h s rec (some (ok rid, h', s')) =
      (ns : List ℕ) × Ready st v laws h' s' ns × Inserted h s rec rid h' s'
  InsertOf h s rec (some (err e, h', s')) =
      Fails st v laws e ⊎ ((e ≡ no_space) × (page_size - dp_fixed < length rec))

  -- The object as the search left it, with the file and the header spelled as they were before.
  abbrev same_file : HeapFile → HeapFile → HeapFile
  same_file h x = record x {
    file = h.file;
    header_page = h.header_page;
    header_page_no = h.header_page_no;
  }

  -- The page that was found takes the record.
  entered :
      (h : HeapFile) (s : State) (rec : Record) (x : HeapFile) (s' : State) (ns : List ℕ)
      (rid : Rid) (p : Page)
      → Found st v laws h s (length rec + slot_size) x s' ns
      → 0 < length rec
      → Page.insert_record (content s' h.file x.cur_page_no) rec ≡ ok (rid, p)
      → InsertOf h s rec (
          some (
            ok rid,
            (enter_record st rid p (same_file h x) s').0,
            (enter_record st rid p (same_file h x) s').1,
          ))
  unfolding enter_record get_free_space
  entered h s rec x s' ns rid p w filled e =
      let (valid, _, absent, looks) =
        lookup-insert_record (content s' h.file x.cur_page_no) rec w.valid filled e in
      let y : HeapFile = (enter_record st rid p (same_file h x) s').0 in
      let s2 = (enter_record st rid p (same_file h x) s').1 in
      let s1 = set_page x.cur_page p s' in
      let wrote = laws.write s' h.file x.cur_page_no x.cur_page p w.pool w.cur in
      let same = header_kept st v laws y s' p w.pool w.distinct.0.0 w.cur w.hdr in
      let on_page : page s1 x.cur_page ≡ p =
        laws.held s1 h.file x.cur_page_no x.cur_page wrote.pool
          (wrote.pinned x.cur_page_no x.cur_page w.cur)
        ∙ wrote.put in
      let pages =
        set_entry (header s1 h.header_page).pages x.cur_idx
          (record ((header s1 h.header_page).pages x.cur_idx) {
            free_space = some (page s1 x.cur_page).free_space;
          }) in
      let behind : (j : ℕ) → suc x.cur_idx ≤ j → pages j ≡ (header s' h.header_page).pages j =
        λ j le.
          let other : (j == x.cur_idx) ≡ false = ground arith in
          rw other (ap (λ k. k.pages j) same) in
      let o =
        overwritten st v laws y s' ns p _ w.pool w.saves refl w.cur w.hdr w.distinct
          (Chain-congr (header s' h.header_page).pages pages (suc x.cur_idx) ns behind w.chain)
          w.valids valid in
      let final : (j : ℕ)
          → suc x.cur_idx ≤ j
          → (header s2 h.header_page).pages j ≡ (header s' h.header_page).pages j =
        λ j le. ap (λ k. k.pages j) o.header_put ∙ behind j le in
      let self : (x.cur_idx == x.cur_idx) ≡ true = ground arith in
      let entry : ((header s2 h.header_page).pages x.cur_idx).free_space ≡ some p.free_space =
        ap (λ k. (k.pages x.cur_idx).free_space) o.header_put
        ∙ rw self (ap (λ q. some q.free_space) on_page) in
      (
        ns,
        record {
          here = o.here;
          live = All-mono _ _ (h.header_page_no ∷ x.cur_page_no ∷ ns) (λ m l. o.live m l) w.live;
          fits = (
            rw (entry, o.put) (omega arith),
            Fits-congr (header s' h.header_page).pages (header s2 h.header_page).pages
                (content s' h.file) (content s2 h.file) (suc x.cur_idx) ns final
                (others st v laws y s' s2 ns w.distinct o.other) w.fits,
          );
          free = λ j low high. ap (λ k. k.page_no) (final j (omega arith)) ∙ w.free j low high;
        },
        record {
          page_of = elim w.spot [
            | inl (l, room) ↦
                let same_page = w.other x.cur_page_no l w.distinct.0.0 in
                inl (
                  l,
                  ap (λ q. lookup q rid.slot_no) (sym same_page) ∙ absent,
                  λ j.
                      ap (λ q. lookup q j) o.put
                      ∙ looks j
                      ∙ ap (λ q. if j == rid.slot_no then some rec else lookup q j) same_page,
                )
            | inr (gone, empty, space) ↦ inr (
              gone,
              λ j.
                  ap (λ q. lookup q j) o.put
                  ∙ looks j
                  ∙ ap (λ r. if j == rid.slot_no then some rec else r)
                      (lookup-outside (content s' h.file x.cur_page_no) j (omega (arith, empty))),
            )
          ];
          other = λ m l a b. o.other m a b ∙ w.other m l b;
          alive = λ m l. o.live m (w.alive m l);
          count = ap (λ k. k.rec_cnt) o.header_put ∙ ap (λ k. suc k.rec_cnt) same ∙ ap suc w.count;
        },
      )

  -- The page answers NOSPACE only where the record is too long for an empty page.
  room_or_long :
      (h : HeapFile) (s : State) (rec : Record) (x : HeapFile) (s' : State) (ns : List ℕ)
      → Found st v laws h s (length rec + slot_size) x s' ns
      → HasRoom (content s' h.file x.cur_page_no) rec
        ⊎ ((¬ HasRoom (content s' h.file x.cur_page_no) rec) × (page_size - dp_fixed < length rec))
  room_or_long h s rec x s' ns w = elim w.spot [
    | inl (l, room) ↦ inl (inl room)
    | inr (gone, empty, space) ↦ elim (Bool-cases (leb (length rec) (page_size - dp_fixed))) [
      | inl short ↦
          let low : length rec ≤ page_size - dp_fixed = ground arith in
          inl (inl (omega (arith, space, low)))
      | inr long ↦
          let high : page_size - dp_fixed < length rec = ground arith in
          inr (
            (λ room. elim room [
              | inl le ↦ omega (arith, le, space, high)
              | inr (le, j, lt, e) ↦ omega (arith, lt, empty)
            ]),
            high,
          )
    ]
  ]

  put_record-InsertOf :
      (h : HeapFile) (s : State) (rec : Record) (x : HeapFile) (s' : State) (ns : List ℕ)
      → Found st v laws h s (length rec + slot_size) x s' ns
      → 0 < length rec
      → InsertOf h s rec (some (put_record st rec (same_file h x) s'))
  unfolding put_record
  put_record-InsertOf h s rec x s' ns w filled =
      let y = same_file h x in
      let held = laws.held s' h.file x.cur_page_no x.cur_page w.pool w.cur in
      let read = ap (λ q. Page.insert_record q rec) held in
      let (works, fails) = insert_record-HasRoom (content s' h.file x.cur_page_no) rec in
      elim (room_or_long h s rec x s' ns w) [
        | inl room ↦
            let ((rid, p), e) = works.0 room in
            let z = enter_record st rid p y s' in
            let run : put_record st rec y s' ≡ (ok rid, z.0, z.1) =
              rw (put_record, read ∙ e) refl in
            subst (λ r. InsertOf h s rec (some r)) (sym run)
              (entered h s rec x s' ns rid p w filled e)
        | inr (full, long) ↦
            let run : put_record st rec y s' ≡ (err no_space, y, s') =
              rw (put_record, read ∙ fails.0 full) refl in
            subst (λ r. InsertOf h s rec (some r)) (sym run) (inr (refl, long))
      ]

  -- With the search for a page behind it.
  finished :
      (h : HeapFile) (s : State) (rec : Record) (r : Option (Search × HeapFile × State))
      → 0 < length rec
      → FindOf st v laws h s (length rec + slot_size) r
      → InsertOf h s rec (elim r [
        | none ↦ none
        | some (failed q, h1, s1) ↦ some (q, h1, s1)
        | some (_, h1, s1) ↦ some (put_record st rec h1 s1)
      ])
  finished h s rec none filled w = absurd w
  finished h s rec (some (again, h1, s1)) filled w = absurd w
  finished h s rec (some (failed q, h1, s1)) filled (e, same, fails) =
      subst (λ q. InsertOf h s rec (some (q, h1, s1))) (sym same) (inl fails)
  finished h s rec (some (there, h1, s1)) filled (ns, w) =
      let same : same_file h h1 ≡ h1 = rw (sym w.file, sym w.head, sym w.head_no) refl in
      subst (λ x. InsertOf h s rec (some (put_record st rec x s1))) same
        (put_record-InsertOf h s rec h1 s1 ns w filled)

  -- `insertRecord` of a record that is not empty, on a file in which the header has an entry left behind
  -- the next one: it ends within one round more than there are pages left. If it returns OK, exactly one
  -- slot, which held no record, holds the new record, on a page of the file or on a new one; all other
  -- records are as before, the record count has grown by one, and the file is ready for the next
  -- insertion. It returns NOSPACE only for a record that an empty page cannot hold, and otherwise only
  -- codes of `readPage` and `allocPage`.
  pub insert_record-InsertOf :
      (fuel : ℕ) (rec : Record) (h : HeapFile) (s : State) (ns : List ℕ)
      → Ready st v laws h s ns
      → suc (suc (h.cur_idx + length ns)) < dir_cnt
      → length ns < fuel
      → 0 < length rec
      → InsertOf h s rec (insert_record st fuel rec h s)
  unfolding insert_record
  insert_record-InsertOf fuel rec h s ns ready small enough filled =
      finished h s rec _ filled
        (find_room-FindOf st v laws fuel (length rec + slot_size) h s ns ready small enough)
