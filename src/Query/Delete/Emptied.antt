-- ===== src/Query/Delete/Emptied.antt =====
-- What the loop of `QU_Delete` of part5/part5/delete.C leaves of a file.
use mathlib.Core.Path.{subst}
use ubase.Base.{
  ℕ, suc, ◌+◌, ◌≡◌, ◌⊎◌, inl, inr, ap, none, some, List, ◌∷◌, length, arith, ◌==◌, ◌&&◌,
  if◌then◌else◌, ◌≢◌, ◌∙◌,
}
use ubase.HeapFile.Match.{Diff}
use ubase.HeapFile.Scan.{HeapFileScan}
use ubase.HeapFile.Scan.Next.Round.{Same}
use ubase.HeapFile.Scan.Records.{Entry}
use ubase.HeapFile.Turn.{ReadFails}
use ubase.Page.{Rid}
use ubase.Page.Valid.{lookup}
use ubase.Query.Delete.{Deleted}
use ubase.Status.{ok, err, file_eof, bad_page_no, invalid_slot_no}
use ubase.Storage.{Storage}
use ubase.Storage.Laws.{View, Obeys}
use ubase.Query.Delete.Matching.{hits, either}

module _ (st : Storage) (float_diff : List ℕ → List ℕ → Diff) (memory : HeapFileScan) (v : View st)
    (laws : Obeys v) where
  open st use {State, page, header}
  open v use {content}

  -- The records `es` are gone from the data pages of a file, every other record is where it was, and
  -- the header counts them.
  pub record Emptied (f header_page_no header_page : ℕ) (s s' : State) (es : List Entry)
      : Type 0 where
    pub looks :
        (n j : ℕ)
        → n ≢ header_page_no
        → lookup (content s' f n) j ≡ (if hits es n j then none else lookup (content s f n) j)
    pub count : (header s' header_page).rec_cnt ≡ (header s header_page).rec_cnt + length es

  -- How the loop may end: with exactly the records `es` deleted, with a code of `readPage`, or with one
  -- by which a page refuses a record.
  abbrev pub EndOf : HeapFileScan → State → List Entry → Deleted st float_diff memory → Type 0
  EndOf sc s es none = ⊥
  EndOf sc s es (some (ok _, sc', s')) =
      Emptied sc.base.file sc.base.header_page_no sc.base.header_page s s' es
      ⊎ ReadFails st v laws file_eof
  EndOf sc s es (some (err e, sc', s')) =
      ReadFails st v laws e ⊎ ((e ≡ bad_page_no) ⊎ (e ≡ invalid_slot_no))

  -- One record is deleted.
  pub record Took (sc : HeapFileScan) (s : State) (sc' : HeapFileScan) (s' : State) (rid : Rid)
      : Type 0 where
    pub filter : sc'.filter ≡ sc.filter
    pub file : sc'.base.file ≡ sc.base.file
    pub header_page : sc'.base.header_page ≡ sc.base.header_page
    pub header_page_no : sc'.base.header_page_no ≡ sc.base.header_page_no
    pub looks :
        (n j : ℕ)
        → n ≢ sc.base.header_page_no
        → lookup (content s' sc.base.file n) j ≡ (
            if n == rid.page_no && j == rid.slot_no
            then none
            else lookup (content s sc.base.file n) j)
    pub count : (header s' sc.base.header_page).rec_cnt ≡ suc (header s sc.base.header_page).rec_cnt

  pub Same-Took :
      {sc sc1 sc2 : HeapFileScan} {s s1 s2 : State} {rid : Rid}
      → Same st float_diff v laws sc s sc1 s1
      → Took sc1 s1 sc2 s2 rid
      → Took sc s sc2 s2 rid
  Same-Took {sc} {sc1} {sc2} {s} {s1} {s2} {rid} same took = record {
    filter = took.filter ∙ same.filter;
    file = took.file ∙ same.file;
    header_page = took.header_page ∙ same.header_page;
    header_page_no = took.header_page_no ∙ same.header_page_no;
    looks = λ n j far.
        subst
          (λ f.
            lookup (content s2 f n) j
            ≡ (if n == rid.page_no && j == rid.slot_no then none else lookup (content s f n) j))
          same.file
          (took.looks n j (λ e. far (e ∙ same.header_page_no))
            ∙ ap
                (λ c.
                  if n == rid.page_no && j == rid.slot_no
                  then none
                  else lookup (c sc1.base.file n) j)
                same.content);
    count =
        subst (λ p. (header s2 p).rec_cnt ≡ suc (header s1 sc1.base.header_page).rec_cnt)
          same.header_page took.count
        ∙ ap (λ h. suc h.rec_cnt) same.header;
  }

  Took-Emptied :
      {sc sc' : HeapFileScan} {s s' s2 : State} {e : Entry} {es : List Entry}
      → Took sc s sc' s' e.0
      → Emptied sc'.base.file sc'.base.header_page_no sc'.base.header_page s' s2 es
      → Emptied sc.base.file sc.base.header_page_no sc.base.header_page s s2 (e ∷ es)
  Took-Emptied {sc} {sc'} {s} {s'} {s2} {e} {es} took rest = record {
    looks = λ n j far.
        let later : lookup (content s2 sc.base.file n) j
            ≡ (if hits es n j then none else lookup (content s' sc.base.file n) j) =
          subst
            (λ f.
              lookup (content s2 f n) j ≡ (if hits es n j then none else lookup (content s' f n) j))
            took.file (rest.looks n j (λ q. far (q ∙ took.header_page_no))) in
        let first = took.looks n j far in
        either (n == e.0.page_no && j == e.0.slot_no) (hits es n j) _ first later;
    count =
        let later : (header s2 sc.base.header_page).rec_cnt
            ≡ (header s' sc.base.header_page).rec_cnt + length es =
          subst (λ p. (header s2 p).rec_cnt ≡ (header s' p).rec_cnt + length es) took.header_page
            rest.count in
        omega (arith, later, took.count);
  }

  pub Took-EndOf :
      {sc sc' : HeapFileScan} {s s' : State} (e : Entry) (es : List Entry)
      → Took sc s sc' s' e.0
      → (w : Deleted st float_diff memory) → EndOf sc' s' es w
      → EndOf sc s (e ∷ es) w
  Took-EndOf e es took none h = h
  Took-EndOf e es took (some (ok _, sc2, s2)) (inl rest) = inl (Took-Emptied took rest)
  Took-EndOf e es took (some (ok _, sc2, s2)) (inr fails) = inr fails
  Took-EndOf e es took (some (err x, sc2, s2)) h = h
