-- ===== src/Base/Lists.antt =====
-- Lists measured and indexed by native numbers, under the library's names.
use Prim.Native.Nat.{ℕ, zero, suc, ◌+◌}
use mathlib.Core.Path.{◌≡◌, refl, sym, ap, subst}
use mathlib.Core.Bool.{Bool, true, false, ◌||◌}
use ubase.Base.Tests.{◌==◌, Bool-cases}
use mathlib.Core.Logic.{◌≢◌, inl, inr}
use mathlib.Core.List.{List, [], ◌∷◌, ◌++◌}
use native.Mathlib.Omega.{arith}

module _ {ℓ} {A : Type ℓ} where
  abbrev pub length : List A → ℕ
  length [] = 0
  length (x ∷ xs) = suc (length xs)

  abbrev pub get_or : List A → ℕ → A → A
  get_or [] i d = d
  get_or (x ∷ xs) zero d = x
  get_or (x ∷ xs) (suc i) d = get_or xs i d

  pub length-append : (xs ys : List A) → length (xs ++ ys) ≡ length xs + length ys
  length-append [] ys = omega arith
  length-append (x ∷ xs) ys = omega (arith, length-append xs ys)

abbrev pub All {ℓ κ} : {A : Type ℓ} → (A → Type κ) → List A → Type κ
All P [] = Unit
All P (x ∷ xs) = P x × All P xs

-- The number is not in the list.
abbrev pub Avoids : ℕ → List ℕ → Type 0
Avoids x = All (λ y. y ≢ x)

abbrev pub IsDistinct : List ℕ → Type 0
IsDistinct [] = Unit
IsDistinct (x ∷ xs) = Avoids x xs × IsDistinct xs

pub All-append {ℓ κ} :
    {A : Type ℓ} (P : A → Type κ) (xs ys : List A) → All P xs → All P ys → All P (xs ++ ys)
All-append P [] ys h k = k
All-append P (x ∷ xs) ys h k = (h.0, All-append P xs ys h.1 k)

pub All-append_inv {ℓ κ} :
    {A : Type ℓ} (P : A → Type κ) (xs ys : List A) → All P (xs ++ ys) → All P xs × All P ys
All-append_inv P [] ys h = (tt, h)
All-append_inv P (x ∷ xs) ys h = let (a, b) = All-append_inv P xs ys h.1 in ((h.0, a), b)

pub All-mono {ℓ κ μ} :
    {A : Type ℓ} (P : A → Type κ) (Q : A → Type μ) (xs : List A)
    → ((x : A) → P x → Q x)
    → All P xs
    → All Q xs
All-mono P Q [] f h = tt
All-mono P Q (x ∷ xs) f h = (f x h.0, All-mono P Q xs f h.1)

pub All-both {ℓ κ μ} :
    {A : Type ℓ} (P : A → Type κ) (Q : A → Type μ) (xs : List A)
    → All P xs
    → All Q xs
    → All (λ x. P x × Q x) xs
All-both P Q [] h k = tt
All-both P Q (x ∷ xs) h k = ((h.0, k.0), All-both P Q xs h.1 k.1)

pub All-of {ℓ κ} : {A : Type ℓ} (P : A → Type κ) (xs : List A) → ((x : A) → P x) → All P xs
All-of P [] f = tt
All-of P (x ∷ xs) f = (f x, All-of P xs f)

-- Two lists without repetition that have no number in common.
pub IsDistinct-append :
    (xs ys : List ℕ)
    → IsDistinct xs
    → IsDistinct ys
    → All (λ y. Avoids y xs) ys
    → IsDistinct (xs ++ ys)
IsDistinct-append [] ys d e h = e
IsDistinct-append (x ∷ xs) ys d e h = (
  All-append (λ z. z ≢ x) xs ys d.0 (All-mono _ _ ys (λ y k. λ q. k.0 (sym q)) h),
  IsDistinct-append xs ys d.1 e (All-mono _ _ ys (λ y k. k.1) h),
)

pub IsDistinct-append_inv :
    (xs ys : List ℕ)
    → IsDistinct (xs ++ ys)
    → IsDistinct xs × IsDistinct ys × All (λ y. Avoids y xs) ys
IsDistinct-append_inv [] ys d = (tt, d, All-of _ ys (λ y. tt))
IsDistinct-append_inv (x ∷ xs) ys d =
    let (a, b) = All-append_inv (λ z. z ≢ x) xs ys d.0 in
    let (e, f, h) = IsDistinct-append_inv xs ys d.1 in
    (
      (a, e),
      f,
      All-mono _ _ ys (λ y k. ((λ q. k.0 (sym q)), k.1))
          (All-both (λ y. y ≢ x) (λ y. Avoids y xs) ys b h),
    )

-- Whether the number is in the list.
abbrev pub has : ℕ → List ℕ → Bool
has i [] = false
has i (x ∷ xs) = i == x || has i xs

pub has-append : (i : ℕ) (xs ys : List ℕ) → has i (xs ++ ys) ≡ (has i xs || has i ys)
has-append i [] ys = refl
has-append i (x ∷ xs) ys = ground (arith, has-append i xs ys)

pub has-split :
    (i : ℕ) (xs : List ℕ)
    → has i xs ≡ true
    → (xs1 : List ℕ) × (xs2 : List ℕ) × (xs ≡ xs1 ++ i ∷ xs2)
has-split i [] h = absurd (cc)
has-split i (x ∷ xs) h = elim (Bool-cases (i == x)) [
  | inl e ↦ let same : x ≡ i = ground arith in ([], xs, ap (λ y. y ∷ xs) same)
  | inr e ↦
      let (xs1, xs2, same) = has-split i xs (ground arith) in (x ∷ xs1, xs2, ap (λ l. x ∷ l) same)
]

pub Avoids-has : (i : ℕ) (xs : List ℕ) → Avoids i xs → has i xs ≡ false
Avoids-has i [] h = refl
Avoids-has i (x ∷ xs) h = ground (arith, h.0, Avoids-has i xs h.1)

pub has-Avoids : (i : ℕ) (xs : List ℕ) → has i xs ≡ false → Avoids i xs
has-Avoids i [] h = tt
has-Avoids i (x ∷ xs) h = (λ e. ground arith, has-Avoids i xs (ground arith))

pub All-has {ℓ} : (P : ℕ → Type ℓ) (i : ℕ) (xs : List ℕ) → All P xs → has i xs ≡ true → P i
All-has P i xs h e =
    let (xs1, xs2, same) = has-split i xs e in
    (All-append_inv P xs1 (i ∷ xs2) (subst (All P) same h)).1.0

-- A number in a list without repetition is taken out.
pub All-without {ℓ} :
    (P : ℕ → Type ℓ) (xs : List ℕ) (i : ℕ) (ys : List ℕ)
    → IsDistinct (xs ++ i ∷ ys)
    → All P (xs ++ i ∷ ys)
    → All (λ j. P j × (j ≢ i)) (xs ++ ys)
All-without P xs i ys d h =
    let (_, distinct, apart) = IsDistinct-append_inv xs (i ∷ ys) d in
    let (left, right) = All-append_inv P xs (i ∷ ys) h in
    All-append _ xs ys (All-both _ _ xs left apart.0) (All-both _ _ ys right.1 distinct.0)

pub has-without :
    (xs : List ℕ) (i : ℕ) (ys : List ℕ) (j : ℕ)
    → j ≢ i
    → has j (xs ++ i ∷ ys) ≡ true
    → has j (xs ++ ys) ≡ true
has-without xs i ys j ne h = ground (arith, has-append j xs (i ∷ ys), has-append j xs ys)

abbrev pub drop {ℓ} : {A : Type ℓ} → ℕ → List A → List A
drop zero xs = xs
drop (suc n) [] = []
drop (suc n) (x ∷ xs) = drop n xs
