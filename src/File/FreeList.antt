-- ===== src/File/FreeList.antt =====
-- The free list of a file, from the header through the pages that were disposed of.
use ubase.Base.{
  All, Avoids, IsDistinct, ℕ, ◌<◌, ◌≡◌, ◌≢◌, ◌⊎◌, inl, inr, ap, ◌∙◌, true, false, Option, none,
  some, List, [], ◌∷◌, arith, ◌==◌, Bool-cases,
}
use ubase.Unix.{Unix}

module _ (u : Unix) where
  open u use {
    Disk, Block, zero_block, db_page, with_db_page, read_at, write_at, db_page-with, read-write,
    read-write_ne,
  }

  -- From `head` the fields `nextFree` lead through the pages `xs` and end in -1.
  abbrev pub Chain : Disk → ℕ → Option ℕ → List ℕ → Type 0
  Chain w fd head [] = head ≡ none
  Chain w fd head (x ∷ xs) =
      (head ≡ some x)
      × ((b : Block) × (read_at w fd x ≡ some b) × Chain w fd (db_page b).next_free xs)

  -- A file with `n` pages, the header included, whose free pages are `free`.
  pub record IsFile (w : Disk) (fd : ℕ) (free : List ℕ) (n : ℕ) (first : Option ℕ) : Type 0 where
    pub header : Block
    pub at_zero : read_at w fd 0 ≡ some header
    pub pages : (db_page header).num_pages ≡ n
    pub first_user : (db_page header).first_page ≡ first
    pub chain : Chain w fd (db_page header).next_free free
    pub range : All (λ x. (0 < x) × (x < n) × (first ≢ some x)) free
    pub distinct : IsDistinct free
    pub present : (m : ℕ) → m < n → (b : Block) × (read_at w fd m ≡ some b)

  -- A write to a page outside the list leaves the list.
  pub Chain-write :
      (w : Disk) (fd n : ℕ) (b : Block) (head : Option ℕ) (xs : List ℕ)
      → (write_at w fd n b).0 ≡ true
      → Avoids n xs
      → Chain w fd head xs
      → Chain (write_at w fd n b).1 fd head xs
  Chain-write w fd n b head [] done apart c = c
  Chain-write w fd n b head (x ∷ xs) done apart (e, (c, at, rest)) = (
    e,
    (
      c,
      read-write_ne w fd n x b apart.0 done ∙ at,
      Chain-write w fd n b (db_page c).next_free xs done apart.1 rest,
    ),
  )

  pub present-write :
      (w : Disk) (fd n m k : ℕ) (b : Block)
      → (write_at w fd n b).0 ≡ true
      → ((j : ℕ) → j < k → (c : Block) × (read_at w fd j ≡ some c))
      → (m < k) ⊎ (m ≡ n)
      → (c : Block) × (read_at (write_at w fd n b).1 fd m ≡ some c)
  present-write w fd n m k b done old which = elim (Bool-cases (m == n)) [
    | inl e ↦
        let same : m ≡ n = ground arith in
        (b, ap (λ j. read_at (write_at w fd n b).1 fd j) same ∙ read-write w fd n b done)
    | inr e ↦
        let (c, at) = old m (ground arith) in (c, read-write_ne w fd n m b (ground arith) done ∙ at)
  ]

  -- Every call of write(2) succeeds.
  abbrev pub WritesSucceed : Type 0
  WritesSucceed = (w : Disk) (fd n : ℕ) (b : Block) → (write_at w fd n b).0 ≡ true

  pub failed_write :
      (w : Disk) (fd n : ℕ) (b : Block) → (write_at w fd n b).0 ≡ false → ¬ WritesSucceed
  failed_write w fd n b e all = cc (all w fd n b)

  pub not_header :
      (xs : List ℕ) (n : ℕ) (first : Option ℕ)
      → All (λ x. (0 < x) × (x < n) × (first ≢ some x)) xs
      → Avoids 0 xs
  not_header [] n first h = tt
  not_header (x ∷ xs) n first (h, rest) = (omega arith, not_header xs n first rest)
