-- ===== src/File/Cycle.antt =====
-- `File::disposePage` and `File::allocatePage` of part5/part5/db.C, one after the other.
use ubase.Base.{Avoids, ℕ, ◌<◌, ◌≡◌, ◌≢◌, inl, inr, refl, ap, Option, some, List, ◌∷◌, arith}
use ubase.File.{allocate_page, dispose_page}
use ubase.File.Allocate.{Allocates, allocate_page-Allocates}
use ubase.File.Dispose.{Disposes, dispose_page-Disposes}
use ubase.File.FreeList.{IsFile, WritesSucceed}
use ubase.Status.{Result, ok, err}
use ubase.Unix.{Unix}

module _ (u : Unix) where
  open u use {Disk}

  -- A page that passes the checks was put on the list.
  disposed :
      (w : Disk) (fd p : ℕ) (free : List ℕ) (n : ℕ) (first : Option ℕ)
      → WritesSucceed u
      → 0 < p
      → p < n
      → first ≢ some p
      → (r : Result (Unit {0}) × Disk) → Disposes u w fd p free n first r
      → (w' : Disk) × (r ≡ (ok tt, w')) × IsFile u w' fd (p ∷ free) n first
  disposed w fd p free n first writes pos lt user (ok _, w') d = (w', refl, d.1)
  disposed w fd p free n first writes pos lt user (err e, w') (inl (_, _, why)) =
      absurd (ground arith)
  disposed w fd p free n first writes pos lt user (err e, w') (inr (_, _, fails)) =
      absurd (fails writes)

  allocated :
      (fd p : ℕ) (free : List ℕ) (n : ℕ) (first : Option ℕ)
      → WritesSucceed u
      → (r : Result ℕ × Disk) → Allocates u fd (p ∷ free) n first r
      → (w' : Disk) × (r ≡ (ok p, w')) × IsFile u w' fd free n first
  allocated fd p free n first writes (ok q, w') (e, f) = (w', ap (λ x. (ok x, w')) e, f)
  allocated fd p free n first writes (err e, w') (_, fails) = absurd (fails writes)

  -- Where every write succeeds, a page that is in the file, not on the free list, and neither the header
  -- nor the first user page can be disposed of, and the next `allocatePage` returns it. The file then
  -- has the free list that it had before.
  pub dispose_page-allocate_page :
      (w : Disk) (fd p : ℕ) (free : List ℕ) (n : ℕ) (first : Option ℕ)
      → WritesSucceed u
      → IsFile u w fd free n first
      → Avoids p free
      → 0 < p
      → p < n
      → first ≢ some p
      → (w1 : Disk) × (w2 : Disk) × (dispose_page u fd p w ≡ (ok tt, w1))
        × (allocate_page u fd w1 ≡ (ok p, w2))
        × IsFile u w2 fd free n first
  dispose_page-allocate_page w fd p free n first writes f apart pos lt user =
      let (w1, run, f1) =
        disposed w fd p free n first writes pos lt user (dispose_page u fd p w)
          (dispose_page-Disposes u w fd p free n first f apart) in
      let (w2, run', f2) =
        allocated fd p free n first writes (allocate_page u fd w1)
          (allocate_page-Allocates u w1 fd (p ∷ free) n first (omega arith) f1) in
      (w1, w2, run, run', f2)
