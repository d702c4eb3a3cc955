-- ===== src/Query/Delete/Matching.antt =====
-- The records that a scan of `QU_Delete` of part5/part5/delete.C will find, as lists.
use ubase.Base.{
  ℕ, ◌≡◌, inl, inr, refl, Option, none, List, [], ◌∷◌, length, arith, ◌≤◌, Bool-cases, Bool, true,
  false, ◌==◌, ◌&&◌, ◌||◌, if◌then◌else◌, ◌∙◌,
}
use ubase.HeapFile.Match.{Diff, Filter, match_rec}
use ubase.HeapFile.Scan.Records.{Entry, drop_until}
use ubase.Page.{Record}

pub drop_until_shorter :
    (float_diff : List ℕ → List ℕ → Diff) (f : Option Filter) (es : List Entry)
    → length (drop_until float_diff f es) ≤ length es
drop_until_shorter float_diff f [] = omega arith
drop_until_shorter float_diff f (e ∷ es) = elim (Bool-cases (match_rec float_diff f e.1)) [
  | inl q ↦ rw (drop_until, q) (omega arith)
  | inr q ↦ rw (drop_until, q) (omega (arith, drop_until_shorter float_diff f es))
]

-- The records that pass the filter.
abbrev pub matching : (List ℕ → List ℕ → Diff) → Option Filter → List Entry → List Entry
matching float_diff f [] = []
matching float_diff f (e ∷ es) =
    let rest = matching float_diff f es in if match_rec float_diff f e.1 then e ∷ rest else rest

-- Whether one of the records has the page number and the slot number.
abbrev pub hits : List Entry → (page_no slot_no : ℕ) → Bool
hits [] n j = false
hits (e ∷ es) n j = (n == e.0.page_no && j == e.0.slot_no) || hits es n j

pub drop_until_none :
    (float_diff : List ℕ → List ℕ → Diff) (f : Option Filter) (es : List Entry)
    → drop_until float_diff f es ≡ []
    → matching float_diff f es ≡ []
drop_until_none float_diff f [] h = refl
drop_until_none float_diff f (x ∷ es) h = elim (Bool-cases (match_rec float_diff f x.1)) [
  | inl q ↦ let same : x ∷ es ≡ [] = rw (drop_until, q) at h in absurd (cc)
  | inr q ↦
      let h' : drop_until float_diff f es ≡ [] = rw (drop_until, q) at h in
      rw (matching, q) (drop_until_none float_diff f es h')
]

-- The first record of `drop_until` passes the filter.
pub drop_until_first :
    (float_diff : List ℕ → List ℕ → Diff) (f : Option Filter) (es : List Entry) {e : Entry}
    {rest : List Entry}
    → drop_until float_diff f es ≡ e ∷ rest
    → matching float_diff f es ≡ e ∷ matching float_diff f rest
drop_until_first float_diff f [] h = absurd (cc)
drop_until_first float_diff f (x ∷ es) {e} {rest} h =
    elim (Bool-cases (match_rec float_diff f x.1)) [
      | inl q ↦
          let same : x ∷ es ≡ e ∷ rest = rw (drop_until, q) at h in
          let tail : es ≡ rest = cc in let head : x ≡ e = cc in rw (matching, q, tail, head) refl
      | inr q ↦
          let h' : drop_until float_diff f es ≡ e ∷ rest = rw (drop_until, q) at h in
          rw (matching, q) (drop_until_first float_diff f es h')
    ]

pub either :
    (a b : Bool) (r : Option Record) {r1 r2 : Option Record}
    → r1 ≡ (if a then none else r)
    → r2 ≡ (if b then none else r1)
    → r2 ≡ (if a || b then none else r)
either true true r h k = k
either true false r h k = k ∙ h
either false true r h k = k
either false false r h k = k ∙ h
