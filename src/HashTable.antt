-- ===== src/HashTable.antt =====
-- A chained hash table, as the buffer pool's table of pages and the table of open files both
-- implement it: an array of linked buckets, here a function from the index to the list of its nodes.
-- `index` is the hash function at the table's size.
pub mod Laws
use ubase.Base.{ℕ, Option, none, some, List, [], ◌∷◌, ◌==◌, if◌then◌else◌}
use ubase.Base.Eq.{Eq}
use ubase.Status.{Result, ok, err, hash_tbl_error, hash_not_found}

abbrev pub Buckets {ℓ} : Type ℓ → Type ℓ → Type ℓ
Buckets K V = ℕ → List (K × V)

-- The constructors set every bucket to NULL.
abbrev pub no_buckets {ℓ} : {K V : Type ℓ} → Buckets K V
no_buckets i = []

unfoldable pub set_bucket {ℓ} : {K V : Type ℓ} → Buckets K V → ℕ → List (K × V) → Buckets K V
set_bucket ht i c j = if j == i then c else ht j

module _ {ℓ} {K V : Type ℓ} ⦃eq : Eq K⦄ where
  -- The loop of `lookup`.
  unfoldable pub chain_find : K → List (K × V) → Option V
  chain_find k [] = none
  chain_find k ((j, v) ∷ c) = if eq.beq j k then some v else chain_find k c

  -- The loop of `remove`: the chain without the first node of the key, `none` if there is no node.
  unfoldable pub chain_remove : K → List (K × V) → Option (List (K × V))
  chain_remove k [] = none
  chain_remove k ((j, v) ∷ c) =
      if eq.beq j k
      then some c
      else elim (chain_remove k c) [ none ↦ none | some c' ↦ some ((j, v) ∷ c') ]

module _ {ℓ} {K V : Type ℓ} ⦃eq : Eq K⦄ (index : K → ℕ) where
  unfoldable pub insert : Buckets K V → K → V → Result (Buckets K V)
  unfolding chain_find set_bucket
  insert ht k v = elim (chain_find k (ht (index k))) [
    | some _ ↦ err hash_tbl_error
    | none ↦ ok (set_bucket ht (index k) ((k, v) ∷ ht (index k)))
  ]

  unfoldable pub lookup : Buckets K V → K → Result V
  unfolding chain_find
  lookup ht k = elim (chain_find k (ht (index k))) [ some v ↦ ok v | none ↦ err hash_not_found ]

  unfoldable pub remove : Buckets K V → K → Result (Buckets K V)
  unfolding chain_remove set_bucket
  remove ht k = elim (chain_remove k (ht (index k))) [
    | some c ↦ ok (set_bucket ht (index k) c)
    | none ↦ err hash_tbl_error
  ]
