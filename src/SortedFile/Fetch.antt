-- ===== src/SortedFile/Fetch.antt =====
-- The runs of part5/part5/sort.C over the contract of the storage, and how one of them fetches a record.
use mathlib.Core.Path.{subst}
use ubase.Base.{
  ℕ, suc, ◌+◌, ◌<◌, ◌≡◌, ◌⊎◌, inl, inr, refl, sym, ap, ◌∙◌, true, false, if◌then◌else◌, Option,
  none, some, List, [], ◌∷◌, map, length, arith, All, All-mono, Avoids,
}
use ubase.HeapFile.{HeapFile}
use ubase.HeapFile.Match.{Diff, match_rec}
use ubase.HeapFile.Position.{At}
use ubase.HeapFile.Scan.{HeapFileScan, scan_next}
use ubase.HeapFile.Scan.Next.{NextOf, scan_next-NextOf}
use ubase.HeapFile.Scan.Next.Round.{Same, left}
use ubase.HeapFile.Scan.Records.{Chain, Entry, drop_until}
use ubase.HeapFile.Turn.{ReadFails}
use ubase.Page.{Rid, Record}
use ubase.Page.Valid.{IsValid}
use ubase.SortedFile.{Run}
use ubase.SortedFile.Next.{Fetched, fetch, fetch_on, fetched}
use ubase.Status.{Status, Result, ok, err, file_eof}
use ubase.Storage.{Storage}
use ubase.Storage.Laws.{View, Obeys}

drop_until-none :
    (float_diff : List ℕ → List ℕ → Diff) (es : List Entry) → drop_until float_diff none es ≡ es
unfolding match_rec
drop_until-none float_diff [] = refl
drop_until-none float_diff (e ∷ es) = refl

abbrev pub records : List Entry → List Record
records es = map (λ e. e.1) es

abbrev pub file_of : Run → ℕ
file_of run = run.in_file.base.file

module _ (st : Storage) (float_diff : List ℕ → List ℕ → Diff) (v : View st) (laws : Obeys v)
    (no_eof : ¬ ReadFails st v laws file_eof) (fuel : ℕ) where
  open st use {State, page, header}
  open v use {content, Pinned, Saved, Valid}

  -- The scan has the records to come, and the fuel is enough for it.
  pub record Scans (sc : HeapFileScan) (s : State) (q : List Record) : Type 0 where
    pub ns : List ℕ
    pub at : At st v sc.base s ns
    pub no_filter : sc.filter ≡ none
    pub to_come : records (left st float_diff v laws sc s ns) ≡ q
    pub enough : length (left st float_diff v laws sc s ns) + length ns < fuel

  -- What `scanNext` then answers.
  pub Scans-NextOf :
      {sc : HeapFileScan} {s : State} {q : List Record} (h : Scans sc s q)
      → NextOf st float_diff v laws sc s
          (length (left st float_diff v laws sc s h.ns) + length h.ns)
          (left st float_diff v laws sc s h.ns)
          (scan_next st float_diff fuel sc s)
  Scans-NextOf {sc} {s} h =
      let es = left st float_diff v laws sc s h.ns in
      subst
        (λ found.
          NextOf st float_diff v laws sc s (length es + length h.ns) found
            (scan_next st float_diff fuel sc s))
        (ap (λ f. drop_until float_diff f es) h.no_filter ∙ drop_until-none float_diff es)
        (scan_next-NextOf st float_diff v laws fuel sc s h.ns h.at h.enough)

  -- The run has its next record in memory, if there is one.
  abbrev pub Loaded : State → Run → List Record → Type 0
  Loaded s run [] = (run.valid ≡ true) × (run.rid ≡ none)
  Loaded s run (a ∷ q) =
      (run.valid ≡ true)
      × ((rid : Rid) × (run.rid ≡ some rid))
      × (run.rec ≡ a)
      × Scans run.in_file s q

  -- The run has the records `q` left.
  abbrev pub RunOf : State → Run → List Record → Type 0
  RunOf s run q = ((run.valid ≡ false) × Scans run.in_file s q) ⊎ Loaded s run q

  -- Only the pages of files of the list may be elsewhere, or not be pinned any more.
  pub record Frame (files : List ℕ) (s s' : State) : Type 0 where
    pub same : content s' ≡ content s
    pub elsewhere :
        (f n g : ℕ) → Avoids f files → Pinned s f n g → Pinned s' f n g × (header s' g ≡ header s g)
    pub saved : (f n : ℕ) → Saved s f n → Saved s' f n
    pub pool : Valid s → Valid s'

  pub Frame-refl : {files : List ℕ} {s : State} → Frame files s s
  Frame-refl = record {
    same = refl;
    elsewhere = λ f n g ne pin. (pin, refl);
    saved = λ f n h. h;
    pool = λ h. h;
  }

  pub Frame-cons :
      {f : ℕ} {files : List ℕ} {s s1 s2 : State}
      → Frame (f ∷ []) s s1
      → Frame files s1 s2
      → Frame (f ∷ files) s s2
  Frame-cons a b = record {
    same = b.same ∙ a.same;
    elsewhere = λ f n g ne pin.
        let (pin1, hdr1) = a.elsewhere f n g (ne.0, tt) pin in
        let (pin2, hdr2) = b.elsewhere f n g ne.1 pin1 in (pin2, hdr2 ∙ hdr1);
    saved = λ f n h. b.saved f n (a.saved f n h);
    pool = λ h. b.pool (a.pool h);
  }

  At-Frame :
      {files : List ℕ} {s s' : State} (h : HeapFile) (ns : List ℕ)
      → Frame files s s'
      → Avoids h.file files
      → At st v h s ns
      → At st v h s' ns
  At-Frame {s = s} {s'} h ns frame away at =
      let (hdr, same) = frame.elsewhere h.file h.header_page_no h.header_page away at.hdr in
      record {
        pool = frame.pool at.pool;
        saves = All-mono _ _ ns (λ n c. frame.saved h.file n c) at.saves;
        cur = (frame.elsewhere h.file h.cur_page_no h.cur_page away at.cur).0;
        hdr = hdr;
        distinct = at.distinct;
        saved = elim at.saved [ inl e ↦ inl (frame.saved h.file h.cur_page_no e) | inr e ↦ inr e ];
        chain = subst (λ h'. Chain h'.pages (suc h.cur_idx) ns) (sym same) at.chain;
        valid = subst (λ c. IsValid (c h.file h.cur_page_no)) (sym frame.same) at.valid;
        valids = subst (λ c. All (λ n. IsValid (c h.file n)) ns) (sym frame.same) at.valids;
      }

  Scans-Frame :
      {files : List ℕ} {s s' : State} {sc : HeapFileScan} {q : List Record}
      → Frame files s s'
      → Avoids sc.base.file files
      → Scans sc s q
      → Scans sc s' q
  Scans-Frame {sc = sc} frame away h = record {
    ns = h.ns;
    at = At-Frame sc.base h.ns frame away h.at;
    no_filter = h.no_filter;
    to_come = rw frame.same h.to_come;
    enough = rw frame.same h.enough;
  }

  pub Loaded-Frame :
      {files : List ℕ} {s s' : State} (run : Run) (q : List Record)
      → Frame files s s'
      → Avoids (file_of run) files
      → Loaded s run q
      → Loaded s' run q
  Loaded-Frame run [] frame away h = h
  Loaded-Frame run (a ∷ q) frame away (valid, rid, rec, scans) =
      (valid, rid, rec, Scans-Frame frame away scans)

  -- What a run has left does not depend on the other files.
  pub RunOf-Frame :
      {files : List ℕ} {s s' : State} (run : Run) (q : List Record)
      → Frame files s s'
      → Avoids (file_of run) files
      → RunOf s run q
      → RunOf s' run q
  RunOf-Frame run q frame away (inl (h, scans)) = inl (h, Scans-Frame frame away scans)
  RunOf-Frame run q frame away (inr h) = inr (Loaded-Frame run q frame away h)

  Loaded-valid : (s : State) (run : Run) (q : List Record) → Loaded s run q → run.valid ≡ true
  Loaded-valid s run [] h = h.0
  Loaded-valid s run (a ∷ q) h = h.0

  -- What `fetch` may do.
  abbrev pub FetchOf : State → Run → List Record → Fetched st float_diff → Type 0
  FetchOf s run q none = ⊥
  FetchOf s run q (some (ok _, run', s')) =
      Loaded s' run' q × (file_of run' ≡ file_of run) × Frame (file_of run ∷ []) s s'
  FetchOf s run q (some (err e, run', s')) = ReadFails st v laws e

  Same-Frame :
      {sc sc' : HeapFileScan} {s s' : State}
      → Same st float_diff v laws sc s sc' s'
      → Frame (sc.base.file ∷ []) s s'
  Same-Frame same = record {
    same = same.content;
    elsewhere = λ f n g ne pin. same.apart.elsewhere f n g (λ e. ne.0 (sym e)) pin;
    saved = same.apart.saved;
    pool = same.apart.pool;
  }

  ended :
      (s : State) (run : Run) (q : List Record) (e : Status) (sc' : HeapFileScan) (s' : State)
      → ReadFails st v laws e
      → FetchOf s run q (fetch_on st float_diff run (some (err e, sc', s')))
  ended s run q file_eof sc' s' h = absurd (no_eof h)
  ended s run q e sc' s' h = h

  loaded :
      (s : State) (run : Run) (q : List Record) (ns : List ℕ)
      (r : Option (Result Rid × HeapFileScan × State))
      → run.in_file.filter ≡ none
      → records (left st float_diff v laws run.in_file s ns) ≡ q
      → length (left st float_diff v laws run.in_file s ns) + length ns < fuel
      → NextOf st float_diff v laws run.in_file s
          (length (left st float_diff v laws run.in_file s ns) + length ns)
          (left st float_diff v laws run.in_file s ns)
          r
      → FetchOf s run q (fetch_on st float_diff run r)
  loaded s run q ns none nf come enough h = h
  loaded s run q ns (some (ok rid, sc', s')) nf come enough
        (rec, ns', at, same, cur, got, found, small) =
      let now : q ≡ rec ∷ records (left st float_diff v laws sc' s' ns') =
        sym come ∙ ap records found in
      let scans : Scans sc' s' (records (left st float_diff v laws sc' s' ns')) = record {
        ns = ns';
        at = at;
        no_filter = same.filter ∙ nf;
        to_come = refl;
        enough = omega (arith, small, enough);
      } in
      let got_it : fetch_on st float_diff run (some (ok rid, sc', s'))
          ≡ some
              (ok tt, record run { in_file = sc'; rid = some rid; rec = rec; valid = true }, s') =
        ap (λ r. fetched st float_diff run r sc' rid s') got in
      subst (FetchOf s run q) (sym got_it) (
        subst
            (λ p.
              Loaded s' (record run { in_file = sc'; rid = some rid; rec = rec; valid = true }) p)
            (sym now) (refl, (rid, refl), refl, scans),
        same.file,
        Same-Frame same,
      )
  loaded s run q ns (some (err e, sc', s')) nf come enough (inl (eof, same, gone)) =
      let over : q ≡ [] = sym come ∙ ap records gone in
      subst (λ x. FetchOf s run q (fetch_on st float_diff run (some (err x, sc', s')))) (sym eof)
        (
          subst (λ p. Loaded s' (record run { in_file = sc'; rid = none; valid = true }) p)
              (sym over) (refl, refl),
          same.file,
          Same-Frame same,
        )
  loaded s run q ns (some (err e, sc', s')) nf come enough (inr fails) =
      ended s run q e sc' s' fails

  -- A run that has no record in memory fetches the first one it has left, or comes to its end, or
  -- fails with a code of `readPage`; it ends within the fuel, and the other runs have what they had.
  pub fetch-FetchOf :
      (s : State) (run : Run) (q : List Record)
      → RunOf s run q
      → FetchOf s run q (fetch st float_diff fuel run s)
  unfolding fetch
  fetch-FetchOf s run q (inr h) =
      let run_it : fetch st float_diff fuel run s ≡ some (ok tt, run, s) =
        rw (fetch, Loaded-valid s run q h) refl in
      subst (FetchOf s run q) (sym run_it) (h, refl, Frame-refl)
  fetch-FetchOf s run q (inl (invalid, scans)) =
      let run_it : fetch st float_diff fuel run s
          ≡ fetch_on st float_diff run (scan_next st float_diff fuel run.in_file s) =
        ap
          (λ b.
            if b
            then some (ok tt, run, s)
            else fetch_on st float_diff run (scan_next st float_diff fuel run.in_file s))
          invalid in
      subst (FetchOf s run q) (sym run_it) (
        loaded s run q scans.ns (scan_next st float_diff fuel run.in_file s) scans.no_filter
          scans.to_come scans.enough (Scans-NextOf scans))
