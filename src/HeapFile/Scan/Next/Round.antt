-- ===== src/HeapFile/Scan/Next/Round.antt =====
-- One round of the loop of `scanNext`: a record or a page is used up.
use mathlib.Core.Path.{subst}
use ubase.Base.{
  ℕ, suc, ◌+◌, ◌<◌, ◌≡◌, ◌⊎◌, inl, inr, refl, sym, ap, ◌∙◌, Option, none, some, List, [], ◌∷◌, ◌++◌,
  length, arith, Bool-cases,
}
use ubase.HeapFile.{HeapFile, turn_to}
use ubase.HeapFile.Position.{At}
use ubase.HeapFile.Match.{Diff, match_rec}
use ubase.HeapFile.Scan
use ubase.HeapFile.Scan.{
  HeapFileScan, Step, again, answer, scan_step, advance, advance_on, proceed, next_page, examine,
  turn,
}
use ubase.HeapFile.Scan.Position.{AdvanceOf, advance_on-AdvanceOf}
use ubase.HeapFile.Scan.Records.{Entry, records_after, records_of, drop_until}
use ubase.HeapFile.Turn.{Turned-At, ReadFails, TurnOf, turn_to-TurnOf}
use ubase.Page.{Rid, Record, get_record, used, read}
use ubase.Status.{Result, ok, err, file_eof}
use ubase.Storage.{Storage}
use ubase.Storage.Laws.{Apart, Apart-refl, Apart-trans, View, Obeys}

module _ (st : Storage) (float_diff : List ℕ → List ℕ → Diff) (v : View st) (laws : Obeys v) where
  open st use {State, page, header}
  open v use {content, Pinned, Saved}

  -- The records that are left to the scan.
  abbrev pub left : HeapFileScan → State → List ℕ → List Entry
  left sc s ns =
      records_after (content s sc.base.file sc.base.cur_page_no) sc.base.cur_rec
      ++ records_of (content s sc.base.file) ns

  -- The pages are as they were, and so are the filter, the file and its header, and the pages that other
  -- files have pinned.
  pub record Same (sc : HeapFileScan) (s : State) (sc' : HeapFileScan) (s' : State) : Type 0 where
    pub content : content s' ≡ content s
    pub filter : sc'.filter ≡ sc.filter
    pub file : sc'.base.file ≡ sc.base.file
    pub header_page : sc'.base.header_page ≡ sc.base.header_page
    pub header_page_no : sc'.base.header_page_no ≡ sc.base.header_page_no
    pub header : header s' sc'.base.header_page ≡ header s sc.base.header_page
    pub apart : Apart v sc.base.file s s'

  repositioned :
      (sc : HeapFileScan) (s : State) (r : Option Rid)
      → Same sc s (record sc { base = record sc.base { cur_rec = r } }) s
  repositioned sc s r = record {
    content = refl;
    filter = refl;
    file = refl;
    header_page = refl;
    header_page_no = refl;
    header = refl;
    apart = Apart-refl v;
  }

  pub Same-trans :
      {sc sc1 sc2 : HeapFileScan} {s s1 s2 : State}
      → Same sc s sc1 s1
      → Same sc1 s1 sc2 s2
      → Same sc s sc2 s2
  Same-trans {s1 = s1} {s2} a b = record {
    content = b.content ∙ a.content;
    filter = b.filter ∙ a.filter;
    file = b.file ∙ a.file;
    header_page = b.header_page ∙ a.header_page;
    header_page_no = b.header_page_no ∙ a.header_page_no;
    header = b.header ∙ a.header;
    apart = Apart-trans v a.apart (subst (λ f. Apart v f s1 s2) a.file b.apart);
  }

  -- An answer of `scanNext`, where the records from the first match on are
  -- `found`, and `total` records and pages were left.
  abbrev pub Answer :
      HeapFileScan → State → ℕ → List Entry → Result Rid × HeapFileScan × State → Type 0
  Answer sc s total found (ok rid, sc', s') =
      (rec : Record) × (ns' : List ℕ) × At st v sc'.base s' ns'
      × Same sc s sc' s'
      × (sc'.base.cur_rec ≡ some rid)
      × (Scan.get_record st float_diff sc' s' ≡ ok rec)
      × (found ≡ (rid, rec) ∷ left sc' s' ns')
      × (length (left sc' s' ns') + length ns' < total)
  Answer sc s total found (err e, sc', s') =
      ((e ≡ file_eof) × Same sc s sc' s' × (found ≡ [])) ⊎ ReadFails st v laws e

  abbrev pub RoundOf : HeapFileScan → State → List ℕ → Step × HeapFileScan × State → Type 0
  RoundOf sc s ns (again, sc', s') =
      (ns' : List ℕ) × At st v sc'.base s' ns'
      × Same sc s sc' s'
      × (drop_until float_diff sc.filter (left sc' s' ns')
          ≡ drop_until float_diff sc.filter (left sc s ns))
      × (length (left sc' s' ns') + length ns' < length (left sc s ns) + length ns)
  RoundOf sc s ns (answer r, sc', s') =
      Answer sc s (length (left sc s ns) + length ns)
        (drop_until float_diff sc.filter (left sc s ns)) (r, sc', s')

  -- The current page is used up.
  turned :
      (sc : HeapFileScan) (s : State) (n : ℕ) (ns : List ℕ)
      (w : Result (Unit {0}) × HeapFile × State)
      → At st v sc.base s (n ∷ ns)
      → records_after (content s sc.base.file sc.base.cur_page_no) sc.base.cur_rec ≡ []
      → TurnOf st v laws sc.base s n
          (λ h. record h { cur_idx = suc sc.base.cur_idx; cur_rec = none })
          w
      → RoundOf sc s (n ∷ ns) (elim w.0 [
        | err e ↦ (answer (err e), record sc { base = w.1 }, w.2)
        | ok _ ↦ (again, record sc { base = w.1 }, w.2)
      ])
  turned sc s n ns (err e, h', s') here gone t = inr t
  turned sc s n ns (ok _, h', s') here gone (g, same_h, t) =
      let moved : records_after (content s' sc.base.file n) none
            ++ records_of (content s' sc.base.file) ns
          ≡ left sc s (n ∷ ns) =
        rw (gone, t.same) refl in
      subst (λ h. RoundOf sc s (n ∷ ns) (again, record sc { base = h }, s')) (sym same_h)
        (
          ns,
          Turned-At st v laws sc.base s s' n g ns here t,
          record {
            content = t.same;
            filter = refl;
            file = refl;
            header_page = refl;
            header_page_no = refl;
            apart = t.apart;
            header =
                (t.kept sc.base.header_page_no sc.base.header_page (λ e. here.distinct.0.0 (sym e))
                  here.hdr).1;
          },
          ap (drop_until float_diff sc.filter) moved,
          omega (arith, ap length moved),
        )

  next_page-RoundOf :
      (sc : HeapFileScan) (s : State) (ns : List ℕ)
      → At st v sc.base s ns
      → records_after (content s sc.base.file sc.base.cur_page_no) sc.base.cur_rec ≡ []
      → RoundOf sc s ns (next_page st float_diff sc s)
  unfolding next_page
  next_page-RoundOf sc s [] here gone =
      let run : next_page st float_diff sc s ≡ (answer (err file_eof), sc, s) =
        rw (next_page, here.chain) refl in
      subst (RoundOf sc s []) (sym run)
        (inl (refl, repositioned sc s sc.base.cur_rec, rw gone refl))
  next_page-RoundOf sc s (n ∷ ns) here gone =
      let change : HeapFile → HeapFile =
        λ h. record h { cur_idx = suc sc.base.cur_idx; cur_rec = none } in
      let w = turn st float_diff n change sc s in
      let run : next_page st float_diff sc s
          ≡ (elim w.0 [ err e ↦ (answer (err e), w.1, w.2) | ok _ ↦ (again, w.1, w.2) ]) =
        rw (next_page, here.chain.0) refl in
      subst (RoundOf sc s (n ∷ ns)) (sym run) (
        turned sc s n ns (turn_to st n change sc.base s) here gone
          (turn_to-TurnOf st v laws sc.base s n change here.pool here.cur here.saved here.saves.0))

  -- The record of the new position is looked at.
  examine-RoundOf :
      (sc : HeapFileScan) (s : State) (ns : List ℕ) (rid : Rid) (o l : ℕ)
      → At st v sc.base s ns
      → (content s sc.base.file sc.base.cur_page_no).slot rid.slot_no ≡ used o l
      → records_after (content s sc.base.file sc.base.cur_page_no) sc.base.cur_rec
        ≡ (rid, read (content s sc.base.file sc.base.cur_page_no).bytes o l)
          ∷ records_after (content s sc.base.file sc.base.cur_page_no) (some rid)
      → RoundOf sc s ns
          (examine st float_diff (record sc { base = record sc.base { cur_rec = some rid } }) s)
  unfolding examine get_record Scan.get_record
  examine-RoundOf sc s ns rid o l here slot next =
      let p = content s sc.base.file sc.base.cur_page_no in
      let rec = read p.bytes o l in
      let sc' : HeapFileScan = record sc { base = record sc.base { cur_rec = some rid } } in
      let there : get_record (page s sc.base.cur_page) rid ≡ ok rec =
        ap (λ q. get_record q rid)
          (laws.held s sc.base.file sc.base.cur_page_no sc.base.cur_page here.pool here.cur)
        ∙ rw (get_record, slot) refl in
      let here' : At st v sc'.base s ns = record {
        pool = here.pool;
        cur = here.cur;
        hdr = here.hdr;
        distinct = here.distinct;
        saved = here.saved;
        saves = here.saves;
        chain = here.chain;
        valid = here.valid;
        valids = here.valids;
      } in
      let cons : left sc s ns ≡ (rid, rec) ∷ left sc' s ns =
        ap (λ xs. xs ++ records_of (content s sc.base.file) ns) next in
      elim (Bool-cases (match_rec float_diff sc.filter rec)) [
        | inl e ↦
            let run : examine st float_diff sc' s ≡ (answer (ok rid), sc', s) =
              rw (examine, there, e) refl in
            subst (RoundOf sc s ns) (sym run) (
              rec,
              ns,
              here',
              repositioned sc s (some rid),
              refl,
              there,
              rw (cons, drop_until, e) refl,
              omega (arith, ap length cons),
            )
        | inr e ↦
            let run : examine st float_diff sc' s ≡ (again, sc', s) = rw (examine, there, e) refl in
            subst (RoundOf sc s ns) (sym run) (
              ns,
              here',
              repositioned sc s (some rid),
              rw (cons, drop_until, e) refl,
              omega (arith, ap length cons),
            )
      ]

  proceed-RoundOf :
      (sc : HeapFileScan) (s : State) (ns : List ℕ) (r : Result (Option Rid))
      → At st v sc.base s ns
      → AdvanceOf (content s sc.base.file sc.base.cur_page_no) sc.base.cur_rec r
      → RoundOf sc s ns (proceed st float_diff r sc s)
  proceed-RoundOf sc s ns (err e) here (inl q, gone) =
      subst (λ e. RoundOf sc s ns (proceed st float_diff (err e) sc s)) (sym q)
        (next_page-RoundOf sc s ns here gone)
  proceed-RoundOf sc s ns (err e) here (inr q, gone) =
      subst (λ e. RoundOf sc s ns (proceed st float_diff (err e) sc s)) (sym q)
        (next_page-RoundOf sc s ns here gone)
  proceed-RoundOf sc s ns (ok none) here a = absurd a
  proceed-RoundOf sc s ns (ok (some rid)) here (o, l, slot, next) =
      examine-RoundOf sc s ns rid o l here slot next

  pub scan_step-RoundOf :
      (sc : HeapFileScan) (s : State) (ns : List ℕ)
      → At st v sc.base s ns
      → RoundOf sc s ns (scan_step st float_diff sc s)
  unfolding scan_step advance
  scan_step-RoundOf sc s ns here =
      let held = laws.held s sc.base.file sc.base.cur_page_no sc.base.cur_page here.pool here.cur in
      proceed-RoundOf sc s ns _ here (
        subst
          (λ p.
            AdvanceOf (content s sc.base.file sc.base.cur_page_no) sc.base.cur_rec
              (advance_on p sc.base.cur_rec))
          (sym held)
          (advance_on-AdvanceOf (content s sc.base.file sc.base.cur_page_no) sc.base.cur_rec
            here.valid))
