-- ===== src/Ring/Bypass.antt =====
-- Taking a descriptor out of the ring: its neighbours are linked to one another.
use mathlib.Core.List.{append-nil}
use mathlib.Core.Path.{subst₂}
use ubase.Base.{
  ℕ, ◌≡◌, ◌≢◌, sym, ap, ◌∙◌, List, [], ◌∷◌, ◌++◌, All, Avoids, IsDistinct, All-append,
  All-append_inv, All-mono, All-both, IsDistinct-append, IsDistinct-append_inv,
}
use ubase.Ring.{Ring, set}
use ubase.Ring.Seg.{Seg, last, split, join, last-links, frame, set_other, last-Avoids, retarget}

abbrev pub first : List ℕ → ℕ → ℕ
first [] b = b
first (x ∷ xs) b = x

-- The descriptors of the ring, from the rear to the front.
pub record IsRing (r : Ring) (xs : List ℕ) : Type 0 where
  pub cycle : Seg r.next r.prior r.front xs r.front
  pub at_rear : r.rear ≡ first xs r.front
  pub outside : Avoids r.front xs
  pub distinct : IsDistinct xs

module _ (n p : ℕ → ℕ) (f : ℕ) (xs : List ℕ) (x : ℕ) (ys : List ℕ) (s : Seg n p f (xs ++ x ∷ ys) f)
    (out : Avoids f (xs ++ x ∷ ys)) (d : IsDistinct (xs ++ x ∷ ys)) where
  -- A descriptor's neighbours are linked to one another.
  pub bypass : Seg (set n (last f xs) (first ys f)) (set p (first ys f) (last f xs)) f (xs ++ ys) f
  bypass =
      go ys (split n p f xs x ys f s) (All-append_inv (λ y. y ≢ f) xs (x ∷ ys) out)
        (IsDistinct-append_inv xs (x ∷ ys) d)
    where
      go :
          (ys : List ℕ)
          → Seg n p f xs x × Seg n p x ys f
          → Avoids f xs × Avoids f (x ∷ ys)
          → IsDistinct xs × IsDistinct (x ∷ ys) × All (λ y. Avoids y xs) (x ∷ ys)
          → Seg (set n (last f xs) (first ys f)) (set p (first ys f) (last f xs)) f (xs ++ ys) f
      go [] (left, right) (out, _) (d, _, _) = rw append-nil (retarget n p f xs x f out d out left)
      go (y ∷ zs) (left, (_, _, right)) (out, (_, (fy, fz))) (d, (_, (ny, _)), (_, (ay, az))) =
          join (set n (last f xs) y) (set p y (last f xs)) f xs y zs f
            (retarget n p f xs x y out d ay left)
            (frame n p (set n (last f xs) y) (set p y (last f xs)) y zs f
              (set_other n (last f xs) y y (λ e. last-Avoids y f xs (λ q. fy (sym q)) ay (sym e)))
              (set_other p y (last f xs) f (λ q. fy (sym q)))
              (All-mono _ _ zs
                (λ z h. (
                  set_other n (last f xs) y z
                      (λ e. last-Avoids z f xs (λ q. h.0.0 (sym q)) h.1 (sym e)),
                  set_other p y (last f xs) z h.0.1,
                ))
                (All-both (λ z. (z ≢ f) × (z ≢ y)) (λ z. Avoids z xs) zs
                  (All-both (λ z. z ≢ f) (λ z. z ≢ y) zs fz ny) az))
              right)

  pub neighbours : (n x ≡ first ys f) × (p x ≡ last f xs)
  neighbours =
      let (left, right) = split n p f xs x ys f s in
      (first-link ys right, (last-links n p f xs x left).1)
    where
      first-link : (ys : List ℕ) → Seg n p x ys f → n x ≡ first ys f
      first-link [] t = t.0
      first-link (y ∷ ys) t = t.0

  pub rest_outside : Avoids f (xs ++ ys)
  rest_outside =
      let (a, b) = All-append_inv (λ y. y ≢ f) xs (x ∷ ys) out in All-append _ xs ys a b.1

  pub rest-IsDistinct : IsDistinct (xs ++ ys)
  rest-IsDistinct =
      let (a, b, c) = IsDistinct-append_inv xs (x ∷ ys) d in IsDistinct-append xs ys a b.1 c.1

  pub rest_apart : Avoids x (xs ++ ys)
  rest_apart = let (a, b, c) = IsDistinct-append_inv xs (x ∷ ys) d in All-append _ xs ys c.0 b.0

  pub not_front : x ≢ f
  not_front = (All-append_inv (λ y. y ≢ f) xs (x ∷ ys) out).1.0

  pub not_last : x ≢ last f xs
  not_last =
      let (a, b, c) = IsDistinct-append_inv xs (x ∷ ys) d in
      λ e. last-Avoids x f xs (λ q. not_front (sym q)) c.0 (sym e)

  -- The two assignments that `readPage` makes to the neighbours.
  pub bypass-links : Seg (set n (p x) (n x)) (set p (set n (p x) (n x) x) (p x)) f (xs ++ ys) f
  bypass-links =
      let (at_next, at_prior) = neighbours in
      let same : set n (p x) (n x) ≡ set n (last f xs) (first ys f) =
        λ i. set n (at_prior i) (at_next i) in
      let still : set n (p x) (n x) x ≡ first ys f =
        ap (λ g. g x) same ∙ (set_other n (last f xs) (first ys f) x not_last ∙ at_next) in
      subst₂ (λ a b. Seg a b f (xs ++ ys) f) (sym same) (λ i. set p (sym still i) (sym at_prior i))
        bypass
