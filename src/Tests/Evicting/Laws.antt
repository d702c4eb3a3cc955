-- ===== src/Tests/Evicting/Laws.antt =====
-- The storage in memory keeps the contract.
use mathlib.Core.Path.{subst}
use ubase.Base.{
  ℕ, suc, ◌-◌, ◌≡◌, ◌≢◌, ◌<◌, ◌⊎◌, inl, inr, refl, sym, ap, ◌∙◌, Bool, true, false, Bool-cases,
  ==_iff, ◌||◌, ltb, ◌==◌, arith,
}
use ubase.Storage.Laws.{Obeys, Keeps, KeepsBut, Wrote}
use ubase.Tests.Evicting.{Memory, set, place_of, pin, unpin, content_at, IsSaved, view}

-- A property of all places, from the place that an operation changes and from the others.
by_place : (g : ℕ) (P : ℕ → Type 0) → P g → ((k : ℕ) → (k == g) ≡ false → P k) → (k : ℕ) → P k
by_place g P own others k = elim (Bool-cases (k == g)) [
  | inl e ↦ let same : g ≡ k = ground arith in subst P same own
  | inr e ↦ others k e
]

self : (g : ℕ) → (g == g) ≡ true
self g = ground arith

module _ (g : ℕ) (s : Memory) where
  pin-content : (k : ℕ) → content_at (pin g s) k ≡ content_at s k
  pin-content =
      by_place g (λ k. content_at (pin g s) k ≡ content_at s k)
        (let up : (suc (s.pins g) == 0) ≡ false = ground arith in rw (self g, up) refl)
        (λ k e. rw e refl)

  pin-IsSaved : (k : ℕ) → IsSaved s k → IsSaved (pin g s) k
  pin-IsSaved =
      by_place g (λ k. IsSaved s k → IsSaved (pin g s) k)
        (λ h. rw (self g) (elim (Bool-cases (s.pins g == 0)) [
          | inl e ↦ rw e (inr (inr refl))
          | inr e ↦ elim h [ inl q ↦ absurd (ground (arith, q, e)) | inr r ↦ rw e (inr r) ]
        ]))
        (λ k e h. rw e h)

  module _ (d : Bool) where
    unpin-content :
        0 < s.pins g
        → IsSaved s g ⊎ (d ≡ true)
        → (k : ℕ) → content_at (unpin g d s) k ≡ content_at s k
    unpin-content lt h =
        by_place g (λ k. content_at (unpin g d s) k ≡ content_at s k)
          (let some_pins : (s.pins g == 0) ≡ false = ground (arith, lt) in
            elim (Bool-cases (s.pins g == 1)) [
              | inl one ↦
                  let last : (s.pins g - 1 == 0) ≡ true = ground (arith, one) in
                  elim (Bool-cases (d || s.marked g)) [
                    | inl e ↦ rw (self g, last, one, e, some_pins) refl
                    | inr e ↦ elim h [
                      | inr q ↦ absurd (ground (arith, q, e))
                      | inl saved ↦ elim saved [
                        | inl q ↦ absurd (omega (arith, q, lt))
                        | inr r ↦ elim r [
                          | inl m ↦ absurd (ground (arith, m, e))
                          | inr same ↦ rw (self g, last, one, e, some_pins) (sym same)
                        ]
                      ]
                    ]
                  ]
              | inr more ↦
                  let left : (s.pins g - 1 == 0) ≡ false = ground (arith, more, lt) in
                  rw (self g, left, some_pins) refl
            ])
          (λ k e. rw e refl)

    unpin-IsSaved : (k : ℕ) → IsSaved s k → IsSaved (unpin g d s) k
    unpin-IsSaved =
        by_place g (λ k. IsSaved s k → IsSaved (unpin g d s) k)
          (λ h. rw (self g) (elim (Bool-cases (d || s.marked g)) [
            | inl e ↦ inr (inl e)
            | inr e ↦ elim h [
              | inl q ↦ inl (omega (arith, q))
              | inr r ↦ elim r [
                | inl m ↦ absurd (ground (arith, e, m))
                | inr same ↦ elim (Bool-cases (s.pins g == 1)) [
                  | inl q ↦ rw (q, e) (inr (inr same))
                  | inr q ↦ rw q (inr (inr same))
                ]
              ]
            ]
          ]))
          (λ k e h. rw e h)

place_of_both : (f n k m : ℕ) → n < 100 → m < 100 → place_of f n ≡ place_of k m → (f ≡ k) × (n ≡ m)
place_of_both f n k m ln lm e = (omega (arith, e, ln, lm), omega (arith, e, ln, lm))

alloc-IsSaved :
    (g : ℕ) (s : Memory) (k : ℕ)
    → IsSaved s k
    → IsSaved (record (pin g s) { next = suc s.next; marked = set g true s.marked }) k
alloc-IsSaved g s =
    by_place g
      (λ k.
        IsSaved s k
        → IsSaved (record (pin g s) { next = suc s.next; marked = set g true s.marked }) k)
      (λ h. inr (inl (rw (self g) refl))) (λ k e h. rw e h)

more_pins : (g : ℕ) (s : Memory) (k : ℕ) → 0 < s.pins k → 0 < (pin g s).pins k
more_pins g s k h = ground (arith, h)

other_pins :
    (g : ℕ) (d : Bool) (s : Memory) (k : ℕ) → k ≢ g → 0 < s.pins k → 0 < (unpin g d s).pins k
other_pins g d s k ne h = ground (arith, ne, h)

own_pin : (g : ℕ) (s : Memory) → 0 < (pin g s).pins g
own_pin g s = ground arith

other_place : (f n m : ℕ) → m ≢ n → (place_of f m == place_of f n) ≡ false
other_place f n m ne = elim (Bool-cases (place_of f m == place_of f n)) [
  | inl e ↦
      let same : place_of f m ≡ place_of f n = (==_iff _ _).0 e in absurd (ne (omega (arith, same)))
  | inr e ↦ e
]

held :
    (s : Memory) (f n g : ℕ)
    → g ≡ place_of f n
    → 0 < s.pins g
    → s.frames g ≡ content_at s (place_of f n)
held s f n g e pos =
    let some_pins : (s.pins (place_of f n) == 0) ≡ false = ground (arith, pos, ap s.pins e) in
    rw some_pins (ap s.frames e)

pinned-Keeps : (s : Memory) (g : ℕ) → Keeps view s (pin g s)
pinned-Keeps s g = record {
  same = λ f n. pin-content g s (place_of f n);
  pinned = λ f n k (l, e, pos). ((l, e, more_pins g s k pos), refl);
  saved = λ f n (l, h). (l, pin-IsSaved g s (place_of f n) h);
  pool = λ h. h;
  live = λ f n h. h;
  dead = λ f n h. h;
}

unpinned-KeepsBut :
    (s : Memory) (f n : ℕ) (d : Bool)
    → n < 100
    → 0 < s.pins (place_of f n)
    → IsSaved s (place_of f n) ⊎ (d ≡ true)
    → KeepsBut view f n s (unpin (place_of f n) d s)
unpinned-KeepsBut s f n d ln pos h =
    let g = place_of f n in
    record {
      same = λ f' m. unpin-content g s d pos h (place_of f' m);
      pinned = λ m k ne (lm, e, more).
          let away : k ≢ g = λ q. ne (place_of_both f m f n lm ln (sym e ∙ q)).1 in
          ((lm, e, other_pins g d s k away more), refl);
      apart = record {
        elsewhere = λ f' m k ne (lm, e, more).
            let away : k ≢ g = λ q. ne (place_of_both f' m f n lm ln (sym e ∙ q)).0 in
            ((lm, e, other_pins g d s k away more), refl);
        saved = λ f' m (l, q). (l, unpin-IsSaved g s d (place_of f' m) q);
        pool = λ q. q;
      };
      live = λ f' m q. q;
      dead = λ f' m q. q;
    }

pub view-Obeys : Obeys view
view-Obeys = record {
  held = λ s f n g pool (l, e, pos). held s f n g e pos;
  distinct =
      λ s f n m g pool (l, e, pos) (l', e', pos'). (place_of_both f n f m l l' (sym e ∙ e')).1;
  read = λ s f n pool (l, clean).
      let low : ltb n 100 ≡ true = ground (arith, l) in
      rw low (pinned-Keeps s (place_of f n), (l, refl, own_pin (place_of f n) s));
  unpin = λ s f n g d love pool (l, e, pos) clean.
      unpinned-KeepsBut s f n d l (subst (λ k. 0 < s.pins k) e pos)
        (elim clean [ inl q ↦ inl q.1 | inr q ↦ inr q ]);
  write = λ s f n g p pool (l, e, pos).
      subst (λ k. Wrote view f n k p s (record s { frames = set k p s.frames })) (sym e)
        (let pos' = subst (λ k. 0 < s.pins k) e pos in
          let some_pins : (s.pins (place_of f n) == 0) ≡ false = ground (arith, pos') in
          record {
            put = rw (some_pins, self (place_of f n)) refl;
            other = λ m ne. rw (other_place f n m ne) refl;
            pinned = λ m k h. h;
            saved = λ m ne (lm, h). (lm, rw (other_place f n m ne) h);
            pool = tt;
            live = λ m h. h;
            headers = λ k ne. refl;
          });
  write_header = λ s f n g h pool pin. record {
    put = rw (self g) refl;
    other = λ m ne. refl;
    pinned = λ m k q. q;
    saved = λ m ne q. q;
    pool = tt;
    live = λ m q. q;
  };
  alloc = λ s f n pool. elim (Bool-cases (ltb s.next 100)) [
    | inl low ↦
        let g = place_of f s.next in
        let l : s.next < 100 = ground arith in
        rw low (record {
          fresh = λ lt. omega (arith, lt);
          there = (l, refl, own_pin g s);
          now_live = omega arith;
          other = λ m ne. pin-content g s (place_of f m);
          pinned = λ m k (lm, e, pos). ((lm, e, more_pins g s k pos), refl);
          saved = λ m (lm, h). (lm, alloc-IsSaved g s (place_of f m) h);
          pool = tt;
          live = λ m h. omega (arith, h);
        })
    | inr high ↦ rw high tt
  ];
}
