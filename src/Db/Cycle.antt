-- ===== src/Db/Cycle.antt =====
-- Operations of the class `DB` of part5/part5/db.C, one after the other, and the guards against open
-- files.
use Prim.Native.String.{String}
use ubase.Base.{
  ℕ, ◌<◌, ◌≡◌, ◌≢◌, ◌↔◌, refl, sym, ap, ◌∙◌, false, inl, inr, arith, Bool-cases, Option-cases,
}
use mathlib.Core.Path.{subst}
use ubase.Base.Eq.{string_eq}
use ubase.Db.{State, is_empty, on_disk, open_file, close_file, destroy_file}
use ubase.Db.Close.{Alike, Alike-IsDb, close_file-opens}
use ubase.Db.Laws.{IsDb, opens, OpenOf, open_file-OpenOf}
use ubase.File
use ubase.OpenFiles
use ubase.OpenFiles.Laws.{file_of, find-file_of}
use ubase.Status.{Result, ok, err, file_open, hash_not_found}
use ubase.Unix.{Unix}

module _ (u : Unix) where
  -- After a successful `openFile`, `closeFile` of the object that it returned succeeds, and every file
  -- is open as often as before; the table and the objects agree.
  pub open_file-close_file :
      (s s1 : State u) (name : String) (a : ℕ)
      → IsDb u s.disk
      → open_file u name s ≡ (ok a, s1)
      → (s2 : State u) × (close_file u a s1 ≡ (ok tt, s2))
        × IsDb u s2.disk
        × ((n : String) → opens u s2.disk n ≡ opens u s.disk n)
  open_file-close_file s s1 name a v run =
      let (v1, at, counts) = subst (OpenOf u s.disk name) run (open_file-OpenOf u s name v) in
      let (s2, closed, v2, counts2) = close_file-opens u s1 name a v1 at in
      (
        s2,
        closed,
        v2,
        λ n. elim (Bool-cases (string_eq.beq n name)) [
          | inl q ↦
              let same = ap (opens u s.disk) ((string_eq.beq_iff n name).0 q) in
              let here = counts name in
              ground (arith, counts2 n, here, (string_eq.beq_iff name name).1 refl)
          | inr q ↦ ground (arith, counts2 n, counts n)
        ],
      )

  on_disk-Alike : (s : State u) (op : File.M u (Unit {0})) → Alike u s.disk (on_disk u op s).1.disk
  on_disk-Alike s op = record { objects = refl; files = refl; next = refl }

  destroy_answers : (name : String) (w : Unix.Disk u) → (File.destroy u name w).0 ≢ err file_open
  unfolding File.destroy
  destroy_answers name w = ground arith

  abbrev pub DestroyOf : State u → String → Result (Unit {0}) × State u → Type 0
  DestroyOf s name r =
      ((0 < opens u s.disk name) ↔ (r.0 ≡ err file_open))
      × IsDb u r.1.disk
      × ((n : String) → opens u r.1.disk n ≡ opens u s.disk n)

  -- `destroyFile` of a name that is not empty, where the table and the objects agree, returns FILEOPEN
  -- exactly if the file is open. It changes no count, and the table and the objects agree again.
  pub destroy_file-DestroyOf :
      (s : State u) (name : String)
      → IsDb u s.disk
      → is_empty name ≡ false
      → DestroyOf s name (destroy_file u name s)
  unfolding opens destroy_file
  destroy_file-DestroyOf s name v filled = elim (Option-cases (file_of s.disk.open_files name)) [
    | inl absent ↦
        let miss : OpenFiles.find s.disk.open_files name ≡ err hash_not_found =
          find-file_of s.disk.open_files name ∙ rw absent refl in
        let run : destroy_file u name s ≡ on_disk u (File.destroy u name) s =
          rw (destroy_file, filled, miss) refl in
        let (v', kept) =
          Alike-IsDb u s.disk (on_disk u (File.destroy u name) s).1.disk
            (on_disk-Alike s (File.destroy u name)) v in
        subst (DestroyOf s name) (sym run) (
          (λ more. absurd (ground arith), λ e. absurd (destroy_answers name s.disk.unix e)),
          v',
          kept,
        )
    | inr (a, at) ↦
        let hit : OpenFiles.find s.disk.open_files name ≡ ok a =
          find-file_of s.disk.open_files name ∙ rw at refl in
        let run : destroy_file u name s ≡ (err file_open, s) =
          rw (destroy_file, filled, hit) refl in
        let (_, _, _, counted) = v.live name a at in
        subst (DestroyOf s name) (sym run) ((λ _. refl, λ _. ground arith), v, λ n. refl)
  ]
