-- ===== src/Ring/Laws.antt =====
-- The ring refines a list of descriptors: the rear first, the front last.
use ubase.Base.{
  ℕ, suc, ◌≡◌, ◌≢◌, refl, sym, ap, ◌∙◌, List, [], ◌∷◌, ◌++◌, Avoids, All-append, All-mono,
  IsDistinct-append, arith, ◌==◌, if◌then◌else◌,
}
use mathlib.Core.Path.{subst₂}
use ubase.Ring.{Ring, set, null, take_rear, unlink, push_rear, push_front}
use ubase.Ring.Bypass.{
  first, IsRing, neighbours, rest_outside, rest-IsDistinct, rest_apart, not_front, bypass,
  bypass-links,
}
use ubase.Ring.Push.{first-ne, first-links, push_rear-cycle, push_front-cycle}
use ubase.Ring.Seg.{Seg, last, last-links, frame, set_other}

unlink_rear :
    (n : ℕ → ℕ) (f rear i : ℕ) (xs ys : List ℕ)
    → n i ≡ first ys f
    → rear ≡ first (xs ++ i ∷ ys) f
    → Avoids i (xs ++ ys)
    → (if rear == i then n rear else rear) ≡ first (xs ++ ys) f
unlink_rear n f rear i [] ys next e h = ground (arith, ap n e)
unlink_rear n f rear i (x ∷ xs) ys next e h = ground (arith, h.0)

push_front_rear :
    (f rear i : ℕ) (xs : List ℕ)
    → rear ≡ first xs f
    → Avoids f xs
    → (if f == rear then i else rear) ≡ first (xs ++ i ∷ []) f
push_front_rear f rear i [] e h = ground arith
push_front_rear f rear i (x ∷ xs) e h = ground (arith, h.0)

-- From a ring that is not empty `allocBuf` takes the descriptor at the rear, and the others stay a
-- ring in their order.
pub take_rear-IsRing :
    (r : Ring) (x : ℕ) (xs : List ℕ) → IsRing r (x ∷ xs) → (r.rear ≡ x) × IsRing (take_rear r) xs
unfolding take_rear
take_rear-IsRing r x xs v =
    let (at_next, at_prior) =
      neighbours r.next r.prior r.front [] x xs v.cycle v.outside v.distinct in
    let g = first xs r.front in
    let next : r.next r.rear ≡ g = ap r.next v.at_rear ∙ at_next in
    let prior : r.prior r.rear ≡ r.front = ap r.prior v.at_rear ∙ at_prior in
    let apart : r.rear ≢ g =
      λ q. first-ne x r.front xs (λ e. v.outside.0 (sym e)) v.distinct.0 (sym q ∙ v.at_rear) in
    let priors : set r.prior (r.next r.rear) (r.prior r.rear) ≡ set r.prior g r.front =
      λ i. set r.prior (next i) (prior i) in
    let kept : set r.prior (r.next r.rear) (r.prior r.rear) r.rear ≡ r.front =
      ap (λ h. h r.rear) priors ∙ (set_other r.prior g r.front r.rear apart ∙ prior) in
    let nexts : set r.next (set r.prior (r.next r.rear) (r.prior r.rear) r.rear) (r.next r.rear)
        ≡ set r.next r.front g =
      λ i. set r.next (kept i) (next i) in
    (
      v.at_rear,
      record {
        cycle =
            subst₂ (λ a b. Seg a b r.front xs r.front) (sym nexts) (sym priors)
              (bypass r.next r.prior r.front [] x xs v.cycle v.outside v.distinct);
        at_rear =
            ap (λ h. h r.rear) nexts
            ∙ (set_other r.next r.front g r.rear (λ q. v.outside.0 (sym v.at_rear ∙ q)) ∙ next);
        outside = v.outside.1;
        distinct = v.distinct.1;
      },
    )

-- `readPage` takes a descriptor of the ring out of it, wherever it stands, and the others stay a ring
-- in their order.
pub unlink-IsRing :
    (r : Ring) (xs : List ℕ) (i : ℕ) (ys : List ℕ)
    → IsRing r (xs ++ i ∷ ys)
    → IsRing (unlink r i) (xs ++ ys)
unfolding unlink null
unlink-IsRing r xs i ys v =
    let n1 = set r.next (r.prior i) (r.next i) in
    let p1 = set r.prior (n1 i) (r.prior i) in
    let apart = rest_apart r.next r.prior r.front xs i ys v.cycle v.outside v.distinct in
    let ne = not_front r.next r.prior r.front xs i ys v.cycle v.outside v.distinct in
    record {
      cycle =
          frame n1 p1 (set n1 i (suc r.front)) (set p1 i (suc r.front)) r.front (xs ++ ys) r.front
            (set_other n1 i _ r.front (λ q. ne (sym q)))
            (set_other p1 i _ r.front (λ q. ne (sym q)))
            (All-mono _ _ (xs ++ ys) (λ z h. (set_other n1 i _ z h, set_other p1 i _ z h)) apart)
            (bypass-links r.next r.prior r.front xs i ys v.cycle v.outside v.distinct);
      at_rear =
          unlink_rear r.next r.front r.rear i xs ys
            (neighbours r.next r.prior r.front xs i ys v.cycle v.outside v.distinct).0 v.at_rear
            apart;
      outside = rest_outside r.next r.prior r.front xs i ys v.cycle v.outside v.distinct;
      distinct = rest-IsDistinct r.next r.prior r.front xs i ys v.cycle v.outside v.distinct;
    }

-- `releaseBuf`, and `unPinPage` of a page that is not loved, put a descriptor that is not in the ring
-- at its rear, and the others stay in their order.
pub push_rear-IsRing :
    (r : Ring) (i : ℕ) (xs : List ℕ)
    → IsRing r xs
    → i ≢ r.front
    → Avoids i xs
    → IsRing (push_rear r i) (i ∷ xs)
unfolding push_rear
push_rear-IsRing r i xs v ne apart =
    let g = first xs r.front in
    let off : r.rear ≢ i = λ q. first-ne i r.front xs (λ e. ne (sym e)) apart (sym v.at_rear ∙ q) in
    let prior : r.prior r.rear ≡ r.front =
      ap r.prior v.at_rear ∙ (first-links r.next r.prior r.front r.front xs v.cycle).1 in
    let kept : set r.prior i (r.prior r.rear) r.rear ≡ r.front =
      set_other r.prior i (r.prior r.rear) r.rear off ∙ prior in
    let nexts : set (set r.next i r.rear) (set r.prior i (r.prior r.rear) r.rear) i
        ≡ set (set r.next i g) r.front i =
      λ j. set (set r.next i (v.at_rear j)) (kept j) i in
    let priors : set (set r.prior i (r.prior r.rear)) r.rear i ≡ set (set r.prior i r.front) g i =
      λ j. set (set r.prior i (prior j)) (v.at_rear j) i in
    record {
      cycle =
          subst₂ (λ a b. Seg a b r.front (i ∷ xs) r.front) (sym nexts) (sym priors)
            (push_rear-cycle r.next r.prior r.front i ne xs v.outside apart v.distinct v.cycle);
      at_rear = refl;
      outside = (ne, v.outside);
      distinct = (apart, v.distinct);
    }

-- `unPinPage` of a page that is loved puts a descriptor that is not in the ring at its front, and the
-- others stay in their order.
pub push_front-IsRing :
    (r : Ring) (i : ℕ) (xs : List ℕ)
    → IsRing r xs
    → i ≢ r.front
    → Avoids i xs
    → IsRing (push_front r i) (xs ++ i ∷ [])
unfolding push_front
push_front-IsRing r i xs v ne apart =
    let l = last r.front xs in
    let prior : r.prior r.front ≡ l = (last-links r.next r.prior r.front xs r.front v.cycle).1 in
    let kept : set r.prior i (r.prior r.front) r.front ≡ l =
      set_other r.prior i (r.prior r.front) r.front (λ q. ne (sym q)) ∙ prior in
    let nexts : set (set r.next i r.front) (set r.prior i (r.prior r.front) r.front) i
        ≡ set (set r.next i r.front) l i =
      λ j. set (set r.next i r.front) (kept j) i in
    let priors : set (set r.prior i (r.prior r.front)) r.front i ≡ set (set r.prior i l) r.front i =
      λ j. set (set r.prior i (prior j)) r.front i in
    record {
      cycle =
          subst₂ (λ a b. Seg a b r.front (xs ++ i ∷ []) r.front) (sym nexts) (sym priors)
            (push_front-cycle r.next r.prior r.front i ne xs v.outside apart v.distinct v.cycle);
      at_rear = push_front_rear r.front r.rear i xs v.at_rear v.outside;
      outside = All-append _ xs (i ∷ []) v.outside (ne, tt);
      distinct = IsDistinct-append xs (i ∷ []) v.distinct (tt, tt) (apart, tt);
    }
