-- ===== src/Ring/Seg.antt =====
-- Stretches of a doubly linked list.
use ubase.Base.{ℕ, ◌≡◌, ◌≢◌, sym, ◌∙◌, List, [], ◌∷◌, ◌++◌, All, Avoids, IsDistinct, arith}
use ubase.Ring.{set}

-- From `a` the links lead through `xs` to `b`, and back.
abbrev pub Seg : (next prior : ℕ → ℕ) → ℕ → List ℕ → ℕ → Type 0
Seg next prior a [] b = (next a ≡ b) × (prior b ≡ a)
Seg next prior a (x ∷ xs) b = (next a ≡ x) × (prior x ≡ a) × Seg next prior x xs b

-- The last of `a` and the list.
abbrev pub last : ℕ → List ℕ → ℕ
last a [] = a
last a (x ∷ xs) = last x xs

pub split :
    (next prior : ℕ → ℕ) (a : ℕ) (xs : List ℕ) (x : ℕ) (ys : List ℕ) (b : ℕ)
    → Seg next prior a (xs ++ x ∷ ys) b
    → Seg next prior a xs x × Seg next prior x ys b
split next prior a [] x ys b (n, p, s) = ((n, p), s)
split next prior a (z ∷ xs) x ys b (n, p, s) =
    let (left, right) = split next prior z xs x ys b s in ((n, p, left), right)

pub join :
    (next prior : ℕ → ℕ) (a : ℕ) (xs : List ℕ) (x : ℕ) (ys : List ℕ) (b : ℕ)
    → Seg next prior a xs x
    → Seg next prior x ys b
    → Seg next prior a (xs ++ x ∷ ys) b
join next prior a [] x ys b (n, p) s = (n, p, s)
join next prior a (z ∷ xs) x ys b (n, p, t) s = (n, p, join next prior z xs x ys b t s)

-- The links at the end of a stretch.
pub last-links :
    (next prior : ℕ → ℕ) (a : ℕ) (xs : List ℕ) (b : ℕ)
    → Seg next prior a xs b
    → (next (last a xs) ≡ b) × (prior b ≡ last a xs)
last-links next prior a [] b s = s
last-links next prior a (x ∷ xs) b (n, p, s) = last-links next prior x xs b s

-- Links elsewhere do not matter.
pub frame :
    (next prior next' prior' : ℕ → ℕ) (a : ℕ) (xs : List ℕ) (b : ℕ)
    → next' a ≡ next a
    → prior' b ≡ prior b
    → All (λ x. (next' x ≡ next x) × (prior' x ≡ prior x)) xs
    → Seg next prior a xs b
    → Seg next' prior' a xs b
frame next prior next' prior' a [] b ea eb h (n, p) = (ea ∙ n, eb ∙ p)
frame next prior next' prior' a (x ∷ xs) b ea eb (ex, h) (n, p, s) =
    (ea ∙ n, ex.1 ∙ p, frame next prior next' prior' x xs b ex.0 eb h s)

pub set_other : (f : ℕ → ℕ) (i v j : ℕ) → j ≢ i → set f i v j ≡ f j
unfolding set
set_other f i v j ne = ground arith

pub set_self : (f : ℕ → ℕ) (i v : ℕ) → set f i v i ≡ v
unfolding set
set_self f i v = ground arith

pub last-Avoids : (c a : ℕ) (xs : List ℕ) → a ≢ c → Avoids c xs → last a xs ≢ c
last-Avoids c a [] ne h = ne
last-Avoids c a (x ∷ xs) ne h = last-Avoids c x xs h.0 h.1

-- A stretch ends at `c` instead, once its last link leads there and back.
pub retarget :
    (next prior : ℕ → ℕ) (a : ℕ) (xs : List ℕ) (b c : ℕ)
    → Avoids a xs
    → IsDistinct xs
    → Avoids c xs
    → Seg next prior a xs b
    → Seg (set next (last a xs) c) (set prior c (last a xs)) a xs c
retarget next prior a [] b c out d off s = (set_self next a c, set_self prior c a)
retarget next prior a (x ∷ xs) b c out d off (n, p, s) = (
  set_other next (last x xs) c a (λ e. last-Avoids a x xs out.0 out.1 (sym e)) ∙ n,
  set_other prior c (last x xs) x off.0 ∙ p,
  retarget next prior x xs b c d.0 d.1 off.1 s,
)
