-- ===== src/BufHash/Laws.antt =====
-- The pool's hash table refines a finite map from pages to frames.
use ubase.Base.{
  Option-cases, ◌⊎◌, ℕ, ◌+◌, ◌<◌, ◌%◌, true, ltb, ◌≡◌, ◌≢◌, Option, none, some, arith,
  if◌then◌else◌, inl, inr,
}
use ubase.HashTable.Laws
use ubase.BufHash.{PageKey, page_eq, same_page, BufHashTbl, hash, new, insert, lookup, remove}
use ubase.Status.{ok, err, hash_tbl_error, hash_not_found}

-- The map that the table stands for.
unfoldable pub frame_of : BufHashTbl → PageKey → Option ℕ
frame_of t = Laws.view (hash t.htsize) t.ht

-- The array has a bucket, and no page stands twice in a chain.
pub record IsTable (t : BufHashTbl) : Type 0 where
  pub room : 0 < t.htsize
  pub distinct : Laws.IsTable (hash t.htsize) t.ht

pub new-IsTable : (n : ℕ) → 0 < n → IsTable (new n) × ((k : PageKey) → frame_of (new n) k ≡ none)
unfolding new frame_of
new-IsTable n h = (record { room = h; distinct = λ i. tt }, λ k. Laws.view-no_buckets (hash n) k)

-- The sum of the address and the page number is a positive `int`.
abbrev pub IsPositive : PageKey → Type 0
IsPositive k = k.file + k.page_no < 2147483648

-- The access to the array of buckets is within its bounds then.
hash-lt : (t : BufHashTbl) (k : PageKey) → IsTable t → IsPositive k → hash t.htsize k < t.htsize
unfolding hash
hash-lt t k v pos =
    let whole : (k.file + k.page_no) % 4294967296 ≡ k.file + k.page_no = omega (arith, pos) in
    let up : ltb (k.file + k.page_no) 2147483648 ≡ true = ground (arith, pos) in
    rw (whole, up) (grind (arith, v.room))

pub insert_both :
    (t : BufHashTbl) (k : PageKey) (f : ℕ)
    → IsTable t
    → (frame_of t k ≡ none
        → (t' : BufHashTbl) × (insert t k f ≡ ok t')
          × IsTable t'
          × ((j : PageKey) → frame_of t' j ≡ (if same_page j k then some f else frame_of t j)))
      × (frame_of t k ≢ none → insert t k f ≡ err hash_tbl_error)
unfolding insert frame_of
insert_both t k f v =
    let def = Laws.insert-IsDefined (hash t.htsize) t.ht k f in
    (
      λ absent.
          let (ht', run) = def.0.0 absent in
          let (d, _, look) = Laws.view-insert (hash t.htsize) t.ht k f v.distinct run in
          (record t { ht = ht' }, rw (run, insert), record { room = v.room; distinct = d }, look),
      λ present. rw (def.1.0 present, insert),
    )

pub remove_both :
    (t : BufHashTbl) (k : PageKey)
    → IsTable t
    → (frame_of t k ≢ none
        → (t' : BufHashTbl) × (remove t k ≡ ok t')
          × IsTable t'
          × ((j : PageKey) → frame_of t' j ≡ (if same_page j k then none else frame_of t j)))
      × (frame_of t k ≡ none → remove t k ≡ err hash_tbl_error)
unfolding remove frame_of
remove_both t k v =
    let def = Laws.remove-IsDefined (hash t.htsize) t.ht k in
    (
      λ present.
          let (ht', run) = def.0.0 present in
          let (d, _, look) = Laws.view-remove (hash t.htsize) t.ht k v.distinct run in
          (record t { ht = ht' }, rw (run, remove), record { room = v.room; distinct = d }, look),
      λ absent. rw (def.1.0 absent, remove),
    )

-- `lookup` returns the frame of a page that the table holds, and HASHNOTFOUND for all others.
pub lookup-frame_of :
    (t : BufHashTbl) (k : PageKey)
    → lookup t k ≡ (elim (frame_of t k) [ none ↦ err hash_not_found | some f ↦ ok f ])
unfolding lookup frame_of
lookup-frame_of t k = Laws.lookup-view (hash t.htsize) t.ht k

-- Of pages for which the sum of the file's address and the page number is a positive `int`: the access to
-- the array is within its bounds; `insert` of a page that the table does not hold succeeds and adds it,
-- leaving the other pages' frames; of a page that it holds it returns HASHTBLERROR.
pub frame_of-insert :
    (t : BufHashTbl) (k : PageKey) (f : ℕ)
    → IsTable t
    → IsPositive k
    → (hash t.htsize k < t.htsize)
      × (((frame_of t k ≡ none)
            × (t' : BufHashTbl) × (insert t k f ≡ ok t')
            × IsTable t'
            × ((j : PageKey)
                → IsPositive j
                → frame_of t' j ≡ (if same_page j k then some f else frame_of t j)))
          ⊎ ((frame_of t k ≢ none) × (insert t k f ≡ err hash_tbl_error)))
frame_of-insert t k f v pos = (
  hash-lt t k v pos,
  elim (Option-cases (frame_of t k)) [
    | inl e ↦
        let (t2, run, table, look) = (insert_both t k f v).0 e in
        inl (e, t2, run, table, λ j _. look j)
    | inr (_, e) ↦ let ne : frame_of t k ≢ none = λ q. cc in inr (ne, (insert_both t k f v).1 ne)
  ],
)

-- Of pages for which the sum of the file's address and the page number is a positive `int`: the access to
-- the array is within its bounds; `remove` of a page that the table holds succeeds and takes it away,
-- leaving the other pages' frames; of a page that it does not hold it returns HASHTBLERROR.
pub frame_of-remove :
    (t : BufHashTbl) (k : PageKey)
    → IsTable t
    → IsPositive k
    → (hash t.htsize k < t.htsize)
      × (((frame_of t k ≢ none)
            × (t' : BufHashTbl) × (remove t k ≡ ok t')
            × IsTable t'
            × ((j : PageKey)
                → IsPositive j
                → frame_of t' j ≡ (if same_page j k then none else frame_of t j)))
          ⊎ ((frame_of t k ≡ none) × (remove t k ≡ err hash_tbl_error)))
frame_of-remove t k v pos = (
  hash-lt t k v pos,
  elim (Option-cases (frame_of t k)) [
    | inl e ↦ inr (e, (remove_both t k v).1 e)
    | inr (_, e) ↦
        let ne : frame_of t k ≢ none = λ q. cc in
        let (t2, run, table, look) = (remove_both t k v).0 ne in
        inl (ne, t2, run, table, λ j _. look j)
  ],
)
