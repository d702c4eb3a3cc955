-- ===== src/Query/Bytes/Put.antt =====
-- Writing into the bytes of a record, in part5/part5/insert.C and select.C.
use ubase.Base.{ℕ, zero, suc, ◌+◌, ◌≤◌, ◌≡◌, refl, ap, List, [], ◌∷◌, ◌++◌, length, drop, arith}
use ubase.Query.Bytes.{put}
use ubase.SortedFile.{copy}

pub length-copy : (n : ℕ) (xs : List ℕ) → length (copy n xs) ≡ n
unfolding copy
length-copy zero xs = refl
length-copy (suc n) xs = omega (arith, length-copy n (drop 1 xs))

pub length-put : (o : ℕ) (bytes buf : List ℕ) → length (put o bytes buf) ≡ length buf
unfolding put
length-put o bytes [] = refl
length-put zero [] (d ∷ buf) = refl
length-put zero (b ∷ bytes) (d ∷ buf) = omega (arith, length-put zero bytes buf)
length-put (suc o) bytes (d ∷ buf) = omega (arith, length-put o bytes buf)

-- What lies in front stays.
pub put-behind :
    (front bytes buf : List ℕ) (o k : ℕ)
    → o ≡ length front + k
    → put o bytes (front ++ buf) ≡ front ++ put k bytes buf
unfolding put
put-behind [] bytes buf o k e = ap (λ n. put n bytes buf) (omega (arith, e))
put-behind (x ∷ front) bytes buf zero k e = absurd (omega (arith, e))
put-behind (x ∷ front) bytes buf (suc o) k e =
    ap (λ l. x ∷ l) (put-behind front bytes buf o k (omega (arith, e)))

-- The bytes are in front then.
pub put-front :
    (bytes buf : List ℕ)
    → length bytes ≤ length buf
    → put 0 bytes buf ≡ bytes ++ drop (length bytes) buf
unfolding put
put-front [] [] le = refl
put-front [] (d ∷ buf) le = refl
put-front (b ∷ bytes) [] le = absurd (omega (arith, le))
put-front (b ∷ bytes) (d ∷ buf) le = ap (λ l. b ∷ l) (put-front bytes buf (omega (arith, le)))

pub drop-front : (front buf : List ℕ) → drop (length front) (front ++ buf) ≡ buf
drop-front [] buf = refl
drop-front (x ∷ front) buf = drop-front front buf

pub length-drop : (n : ℕ) (buf : List ℕ) → n ≤ length buf → n + length (drop n buf) ≡ length buf
length-drop zero buf le = omega arith
length-drop (suc n) [] le = absurd (omega (arith, le))
length-drop (suc n) (d ∷ buf) le = omega (arith, length-drop n buf (omega (arith, le)))

pub copy-front : (front buf : List ℕ) → copy (length front) (front ++ buf) ≡ front
unfolding copy
copy-front [] buf = refl
copy-front (x ∷ front) buf = ap (λ l. x ∷ l) (copy-front front buf)

-- The bytes in front of an index, and those behind.
pub split_at :
    (n : ℕ) (buf : List ℕ)
    → n ≤ length buf
    → (front : List ℕ) × (rest : List ℕ) × (length front ≡ n) × (buf ≡ front ++ rest)
split_at zero buf le = ([], buf, refl, refl)
split_at (suc n) [] le = absurd (omega (arith, le))
split_at (suc n) (d ∷ buf) le =
    let (front, rest, size, e) = split_at n buf (omega (arith, le)) in
    (d ∷ front, rest, omega (arith, size), ap (λ l. d ∷ l) e)
