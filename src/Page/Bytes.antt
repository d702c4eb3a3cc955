-- ===== src/Page/Bytes.antt =====
-- Reading back what `memcpy` and `bcopy` wrote into `data[]`.
use ubase.Base.{
  ℕ, zero, suc, ◌+◌, ◌-◌, ◌≤◌, ◌<◌, ◌≡◌, refl, ap, ◌⊎◌, [], ◌∷◌, arith, length, get_or,
}
use ubase.Page.{Record, memcpy, bcopy, read}

pub read_congr :
    (f g : ℕ → ℕ) (a b n : ℕ) → ((k : ℕ) → k < n → f (a + k) ≡ g (b + k)) → read f a n ≡ read g b n
unfolding read
read_congr f g a b zero h = refl
read_congr f g a b (suc n) h =
    ground (arith, h 0, read_congr f g (suc a) (suc b) n (λ k lt. ground (arith, h (suc k))))

read_list :
    (f : ℕ → ℕ) (a : ℕ) (xs : Record)
    → ((k : ℕ) → k < length xs → f (a + k) ≡ get_or xs k 0)
    → read f a (length xs) ≡ xs
unfolding read
read_list f a [] h = refl
read_list f a (x ∷ xs) h =
    ground (arith, h 0, read_list f (suc a) xs (λ k lt. ground (arith, h (suc k))))

pub length-read : (f : ℕ → ℕ) (a n : ℕ) → length (read f a n) ≡ n
unfolding read
length-read f a zero = refl
length-read f a (suc n) = ap suc (length-read f (suc a) n)

-- The bytes that were copied are read back.
pub read-memcpy : (f : ℕ → ℕ) (a : ℕ) (rec : Record) → read (memcpy f a rec) a (length rec) ≡ rec
unfolding memcpy
read-memcpy f a rec = read_list (memcpy f a rec) a rec (λ k lt. ground arith)

-- A range of bytes that the copy does not touch reads as before.
pub read-memcpy_apart :
    (f : ℕ → ℕ) (a : ℕ) (rec : Record) (b n : ℕ)
    → (b + n ≤ a) ⊎ (a + length rec ≤ b)
    → read (memcpy f a rec) b n ≡ read f b n
unfolding memcpy
read-memcpy_apart f a rec b n h = read_congr (memcpy f a rec) f b b n (λ k lt. ground arith)

-- Below the target `bcopy` changes nothing; a range that was moved reads at its new place.
pub read-bcopy_below :
    (f : ℕ → ℕ) (from to cnt b n : ℕ) → b + n ≤ to → read (bcopy f from to cnt) b n ≡ read f b n
unfolding bcopy
read-bcopy_below f from to cnt b n h =
    read_congr (bcopy f from to cnt) f b b n (λ k lt. ground arith)

pub read-bcopy_moved :
    (f : ℕ → ℕ) (to len cnt b n : ℕ)
    → to + len ≤ b
    → b + n ≤ to + len + cnt
    → read (bcopy f (to + len) to cnt) (b - len) n ≡ read f b n
unfolding bcopy
read-bcopy_moved f to len cnt b n low high =
    read_congr (bcopy f (to + len) to cnt) f (b - len) b n (λ k lt.
      let same : to + len + (b - len + k - to) ≡ b + k = omega arith in ground (arith, ap f same))
