-- ===== src/Ring/Push.antt =====
-- Putting a descriptor into the ring.
use ubase.Base.{
  ℕ, ◌≡◌, ◌≢◌, sym, ◌∙◌, List, [], ◌∷◌, ◌++◌, Avoids, IsDistinct, All-mono, All-both, arith,
}
use ubase.Ring.{set}
use ubase.Ring.Bypass.{first}
use ubase.Ring.Seg.{Seg, last, join, frame, set_other, set_self, last-Avoids, retarget}

pub first-ne : (x f : ℕ) (xs : List ℕ) → f ≢ x → Avoids x xs → first xs f ≢ x
first-ne x f [] ne h = ne
first-ne x f (y ∷ xs) ne h = h.0

pub first-links :
    (n p : ℕ → ℕ) (f b : ℕ) (xs : List ℕ)
    → Seg n p f xs b
    → (n f ≡ first xs b) × (p (first xs b) ≡ f)
first-links n p f b [] s = s
first-links n p f b (x ∷ xs) s = (s.0, s.1)

module _ (n p : ℕ → ℕ) (f i : ℕ) (ne : i ≢ f) where
  -- Between the sentinel and the rear.
  pub push_rear-cycle :
      (xs : List ℕ)
      → Avoids f xs
      → Avoids i xs
      → IsDistinct xs
      → Seg n p f xs f
      → Seg (set (set n i (first xs f)) f i) (set (set p i f) (first xs f) i) f (i ∷ xs) f
  push_rear-cycle [] out apart d s = (
    set_self (set n i f) f i,
    set_other (set p i f) f i i ne ∙ set_self p i f,
    (set_other (set n i f) f i i ne ∙ set_self n i f, set_self (set p i f) f i),
  )
  push_rear-cycle (y ∷ zs) (fy, fz) (iy, iz) (yz, d) (_, _, s) = (
    set_self (set n i y) f i,
    set_other (set p i f) y i i (λ q. iy (sym q)) ∙ set_self p i f,
    (
      set_other (set n i y) f i i ne ∙ set_self n i y,
      set_self (set p i f) y i,
      frame n p (set (set n i y) f i) (set (set p i f) y i) y zs f
          (set_other (set n i y) f i y fy ∙ set_other n i y y iy)
          (set_other (set p i f) y i f (λ q. fy (sym q)) ∙ set_other p i f f (λ q. ne (sym q)))
          (All-mono _ _ zs
            (λ z h. (
              set_other (set n i y) f i z h.0.0 ∙ set_other n i y z h.0.1,
              set_other (set p i f) y i z h.1 ∙ set_other p i f z h.0.1,
            ))
            (All-both (λ z. (z ≢ f) × (z ≢ i)) (λ z. z ≢ y) zs
              (All-both (λ z. z ≢ f) (λ z. z ≢ i) zs fz iz) yz))
          s,
    ),
  )

  late-set : (l j : ℕ) → j ≢ i → set (set n i f) l i j ≡ set n l i j
  unfolding set
  late-set l j h = ground arith

  -- Between the front and the sentinel.
  pub push_front-cycle :
      (xs : List ℕ)
      → Avoids f xs
      → Avoids i xs
      → IsDistinct xs
      → Seg n p f xs f
      → Seg (set (set n i f) (last f xs) i) (set (set p i (last f xs)) f i) f (xs ++ i ∷ []) f
  push_front-cycle xs out apart d s =
      let l = last f xs in
      join (set (set n i f) l i) (set (set p i l) f i) f xs i [] f
        (frame (set n l i) (set p i l) (set (set n i f) l i) (set (set p i l) f i) f xs i
          (late-set l f (λ q. ne (sym q))) (set_other (set p i l) f i i ne)
          (All-mono _ _ xs (λ z h. (late-set l z h.1, set_other (set p i l) f i z h.0))
            (All-both (λ z. z ≢ f) (λ z. z ≢ i) xs out apart))
          (retarget n p f xs f i out d apart s))
        (
          set_other (set n i f) l i i (λ q. last-Avoids i f xs (λ e. ne (sym e)) apart (sym q))
              ∙ set_self n i f,
          set_self (set p i l) f i,
        )
