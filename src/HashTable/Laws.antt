-- ===== src/HashTable/Laws.antt =====
-- The table refines a function from keys to optional values.
use ubase.Base.{
  ℕ, ◌≡◌, ◌≢◌, ◌↔◌, inl, inr, refl, sym, ap, Option, none, some, List, [], ◌∷◌, ◌==◌, arith,
  if◌then◌else◌, Bool-cases, Option-cases,
}
use ubase.Base.Eq.{Eq}
use ubase.HashTable.{
  Buckets, no_buckets, set_bucket, chain_find, chain_remove, insert, lookup, remove,
}
use ubase.Status.{ok, err, hash_tbl_error, hash_not_found}

module _ {ℓ} {K V : Type ℓ} ⦃eq : Eq K⦄ where
  -- No key stands twice in a chain.
  abbrev pub IsDistinct : List (K × V) → Type ℓ
  IsDistinct [] = Unit
  IsDistinct ((k, v) ∷ c) = (chain_find k c ≡ none) × IsDistinct c

  chain_find-remove :
      (k j : K) (c c' : List (K × V))
      → IsDistinct c
      → chain_remove k c ≡ some c'
      → IsDistinct c' × (chain_find j c' ≡ (if eq.beq j k then none else chain_find j c))
  unfolding chain_find chain_remove
  chain_find-remove k j [] c' d h = cc
  chain_find-remove k j ((i, v) ∷ c) c' d h = elim (Option-cases (chain_remove k c)) [
    | inl gone ↦ ground (arith, eq.beq_iff i k, eq.beq_iff j k, eq.beq_iff i j)
    | inr (c'', e) ↦
        let at_j = chain_find-remove k j c c'' d.1 e in
        let at_i = chain_find-remove k i c c'' d.1 e in
        ground (arith, eq.beq_iff i k, eq.beq_iff j k, eq.beq_iff i j)
  ]

  chain_remove-none :
      (k : K) (c : List (K × V)) → (chain_remove k c ≡ none) ↔ (chain_find k c ≡ none)
  unfolding chain_find chain_remove
  chain_remove-none k [] = (λ _. refl, λ _. refl)
  chain_remove-none k ((j, v) ∷ c) = let ih = chain_remove-none k c in ground arith

module _ {ℓ} {K V : Type ℓ} ⦃eq : Eq K⦄ (index : K → ℕ) where
  -- The value that a table holds for a key.
  unfoldable pub view : Buckets K V → K → Option V
  view ht k = chain_find k (ht (index k))

  abbrev pub IsTable : Buckets K V → Type ℓ
  IsTable ht = (i : ℕ) → IsDistinct (ht i)

  pub view-no_buckets : (k : K) → ◌≡◌ {A = Option V} (view no_buckets k) none
  unfolding view chain_find
  view-no_buckets k = refl

  pub view-insert :
      (ht : Buckets K V) (k : K) (v : V) {ht' : Buckets K V}
      → IsTable ht
      → insert index ht k v ≡ ok ht'
      → IsTable ht'
        × (view ht k ≡ none)
        × ((j : K) → view ht' j ≡ (if eq.beq j k then some v else view ht j))
  unfolding insert view set_bucket chain_find
  view-insert ht k v {ht'} d h =
      let absent : chain_find k (ht (index k)) ≡ none = ground arith in
      let same : ht' ≡ set_bucket ht (index k) ((k, v) ∷ ht (index k)) = ground arith in
      rw same (
        λ i. elim (Bool-cases (i == index k)) [
          | inl e ↦ rw e (absent, d (index k))
          | inr e ↦ rw e (d i)
        ],
        absent,
        λ j. elim (Bool-cases (eq.beq j k)) [
          | inl e ↦
              let path = (eq.beq_iff j k).0 e in
              let back = (eq.beq_iff k j).1 (sym path) in ground (arith, ap index path)
          | inr e ↦ elim (Bool-cases (eq.beq k j)) [
            | inl e' ↦ absurd (cc ((eq.beq_iff j k).1 (sym ((eq.beq_iff k j).0 e'))))
            | inr e' ↦ ground (arith)
          ]
        ],
      )

  -- `insert` fails, with HASHTBLERROR, exactly on the keys that the table holds.
  pub insert-IsDefined :
      (ht : Buckets K V) (k : K) (v : V)
      → ((view ht k ≡ none) ↔ ((ht' : Buckets K V) × (insert index ht k v ≡ ok ht')))
        × ((view ht k ≢ none) ↔ (insert index ht k v ≡ err hash_tbl_error))
  unfolding insert view
  insert-IsDefined ht k v = elim (Option-cases (chain_find k (ht (index k)))) [
    | inl e ↦ (
      (λ _. (set_bucket ht (index k) ((k, v) ∷ ht (index k)), ground arith), λ _. e),
      (λ present. absurd (present e), λ failed. absurd (ground arith)),
    )
    | inr (w, e) ↦ (
      (λ absent. absurd (ground arith), λ (ht', done). absurd (ground arith)),
      (λ _. ground arith, λ _. λ absent. ground arith),
    )
  ]

  pub view-remove :
      (ht : Buckets K V) (k : K) {ht' : Buckets K V}
      → IsTable ht
      → remove index ht k ≡ ok ht'
      → IsTable ht'
        × (view ht k ≢ none)
        × ((j : K) → view ht' j ≡ (if eq.beq j k then none else view ht j))
  unfolding remove view set_bucket
  view-remove ht k {ht'} d h = elim (Option-cases (chain_remove k (ht (index k)))) [
    | inl gone ↦ absurd (ground arith)
    | inr (c, e) ↦
        let same : ht' ≡ set_bucket ht (index k) c = ground arith in
        rw same (
          λ i. elim (Bool-cases (i == index k)) [
            | inl q ↦ rw q (chain_find-remove k k (ht (index k)) c (d (index k)) e).0
            | inr q ↦ rw q (d i)
          ],
          λ absent. cc ((chain_remove-none k (ht (index k))).1 absent),
          λ j.
              let moved = (chain_find-remove k j (ht (index k)) c (d (index k)) e).1 in
              elim (Bool-cases (eq.beq j k)) [
                | inl q ↦ ground (arith, ap index ((eq.beq_iff j k).0 q))
                | inr q ↦ ground arith
              ],
        )
  ]

  pub remove-IsDefined :
      (ht : Buckets K V) (k : K)
      → ((view ht k ≢ none) ↔ ((ht' : Buckets K V) × (remove index ht k ≡ ok ht')))
        × ((view ht k ≡ none) ↔ (remove index ht k ≡ err hash_tbl_error))
  unfolding remove view
  remove-IsDefined ht k =
      let (gone→absent, absent→gone) = chain_remove-none k (ht (index k)) in
      elim (Option-cases (chain_remove k (ht (index k)))) [
        | inl e ↦ (
          (λ present. absurd (present (gone→absent e)), λ (ht', done). absurd (ground arith)),
          (λ _. ground arith, λ _. gone→absent e),
        )
        | inr (c, e) ↦ (
          (λ _. (set_bucket ht (index k) c, ground arith), λ _. λ absent. cc (absent→gone absent)),
          (λ absent. absurd (cc (absent→gone absent)), λ failed. absurd (ground arith)),
        )
      ]

  -- `lookup` returns what the table holds.
  pub lookup-view :
      (ht : Buckets K V) (k : K)
      → lookup index ht k ≡ (elim (view ht k) [ none ↦ err hash_not_found | some v ↦ ok v ])
  unfolding lookup view
  lookup-view ht k = ground arith
