-- ===== src/OpenFiles/Laws.antt =====
-- The table of open files refines a finite map from names to file objects.
use Prim.Native.String.{String}
use ubase.Base.{Option-cases, ◌⊎◌, inl, inr, ℕ, ◌≡◌, ◌≢◌, Option, none, some, if◌then◌else◌}
use ubase.Base.Eq.{string_eq}
use ubase.HashTable.Laws
use ubase.OpenFiles.{OpenFileHashTbl, hash, new, insert, find, erase}
use ubase.Status.{ok, err, hash_tbl_error, hash_not_found}

-- The map that the table stands for.
unfoldable pub file_of : OpenFileHashTbl → String → Option ℕ
file_of t = Laws.view hash t

abbrev pub IsTable : OpenFileHashTbl → Type 0
IsTable t = Laws.IsTable hash t

pub new-IsTable : IsTable new × ((name : String) → file_of new name ≡ none)
unfolding new file_of
new-IsTable = (λ i. tt, λ name. Laws.view-no_buckets hash name)

pub insert_both :
    (t : OpenFileHashTbl) (name : String) (file : ℕ)
    → IsTable t
    → (file_of t name ≡ none
        → (t' : OpenFileHashTbl) × (insert t name file ≡ ok t')
          × IsTable t'
          × ((j : String)
              → file_of t' j ≡ (if string_eq.beq j name then some file else file_of t j)))
      × (file_of t name ≢ none → insert t name file ≡ err hash_tbl_error)
unfolding insert file_of
insert_both t name file v =
    let def = Laws.insert-IsDefined hash t name file in
    (
      λ absent.
          let (t', run) = def.0.0 absent in
          let (d, _, look) = Laws.view-insert hash t name file v run in (t', run, d, look),
      λ present. def.1.0 present,
    )

pub erase_both :
    (t : OpenFileHashTbl) (name : String)
    → IsTable t
    → (file_of t name ≢ none
        → (t' : OpenFileHashTbl) × (erase t name ≡ ok t')
          × IsTable t'
          × ((j : String) → file_of t' j ≡ (if string_eq.beq j name then none else file_of t j)))
      × (file_of t name ≡ none → erase t name ≡ err hash_tbl_error)
unfolding erase file_of
erase_both t name v =
    let def = Laws.remove-IsDefined hash t name in
    (
      λ present.
          let (t', run) = def.0.0 present in
          let (d, _, look) = Laws.view-remove hash t name v run in (t', run, d, look),
      λ absent. def.1.0 absent,
    )

-- `find` returns the file object of a name that is in the table, and HASHNOTFOUND for all others.
pub find-file_of :
    (t : OpenFileHashTbl) (name : String)
    → find t name ≡ (elim (file_of t name) [ none ↦ err hash_not_found | some f ↦ ok f ])
unfolding find file_of
find-file_of t name = Laws.lookup-view hash t name

-- `insert` of a name that is not in the table succeeds and adds it, leaving the other names' files;
-- of a name that is in the table it returns HASHTBLERROR.
pub file_of-insert :
    (t : OpenFileHashTbl) (k : String) (f : ℕ)
    → IsTable t
    → ((file_of t k ≡ none)
        × (t' : OpenFileHashTbl) × (insert t k f ≡ ok t')
        × IsTable t'
        × ((j : String) → file_of t' j ≡ (if string_eq.beq j k then some f else file_of t j)))
      ⊎ ((file_of t k ≢ none) × (insert t k f ≡ err hash_tbl_error))
file_of-insert t k f v = elim (Option-cases (file_of t k)) [
  | inl e ↦ let (t2, run, table, look) = (insert_both t k f v).0 e in inl (e, t2, run, table, look)
  | inr (_, e) ↦ let ne : file_of t k ≢ none = λ q. cc in inr (ne, (insert_both t k f v).1 ne)
]

-- `erase` of a name that is in the table succeeds and takes it away, leaving the other names' files;
-- of any other name it returns HASHTBLERROR.
pub file_of-erase :
    (t : OpenFileHashTbl) (k : String)
    → IsTable t
    → ((file_of t k ≢ none)
        × (t' : OpenFileHashTbl) × (erase t k ≡ ok t')
        × IsTable t'
        × ((j : String) → file_of t' j ≡ (if string_eq.beq j k then none else file_of t j)))
      ⊎ ((file_of t k ≡ none) × (erase t k ≡ err hash_tbl_error))
file_of-erase t k v = elim (Option-cases (file_of t k)) [
  | inl e ↦ inr (e, (erase_both t k v).1 e)
  | inr (_, e) ↦
      let ne : file_of t k ≢ none = λ q. cc in
      let (t2, run, table, look) = (erase_both t k v).0 ne in inl (ne, t2, run, table, look)
]
