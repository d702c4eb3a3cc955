-- ===== src/BufMgr/New.antt =====
-- The constructor of the class `BufMgr`, part5/part5/buf.C.
use ubase.Base.{
  ℕ, zero, suc, ◌+◌, ◌*◌, ◌/◌, ◌≤◌, ◌<◌, ◌≡◌, refl, sym, ap, ◌∙◌, true, List, [], ◌∷◌, All,
  IsDistinct, has, arith, ◌==◌, if◌then◌else◌, All-mono, inl, inr, Bool-cases, ◌-◌,
}
use ubase.BufHash
use ubase.BufHash.Laws.{new-IsTable}
use ubase.BufMgr.{new}
use ubase.BufMgr.Valid.{pins, IsValid}
use ubase.FileStore.{FileStore}
use ubase.Ring.Bypass.{first, IsRing}
use ubase.Ring.Seg.{Seg}

-- The numbers of `k` frames, from `i` on.
abbrev pub frames_from : ℕ → ℕ → List ℕ
frames_from zero i = []
frames_from (suc k) i = i ∷ frames_from k (suc i)

frames_from-All : (k i : ℕ) → All (λ x. (i ≤ x) × (x < i + k)) (frames_from k i)
frames_from-All zero i = tt
frames_from-All (suc k) i = (
  ground arith,
  All-mono _ _ (frames_from k (suc i)) (λ x h. ground arith) (frames_from-All k (suc i)),
)

frames_from-IsDistinct : (k i : ℕ) → IsDistinct (frames_from k i)
frames_from-IsDistinct zero i = tt
frames_from-IsDistinct (suc k) i = (
  All-mono _ _ (frames_from k (suc i)) (λ x h q. omega (arith, h.0, q)) (frames_from-All k (suc i)),
  frames_from-IsDistinct k (suc i),
)

frames_from-has : (k i x : ℕ) → i ≤ x → x < i + k → has x (frames_from k i) ≡ true
frames_from-has zero i x low high = absurd (ground arith)
frames_from-has (suc k) i x low high = elim (Bool-cases (x == i)) [
  | inl e ↦ ground arith
  | inr e ↦ ground (arith, frames_from-has k (suc i) x (ground arith) (ground arith))
]

frames_from-Seg :
    (bufs k i a : ℕ) (next prior : ℕ → ℕ)
    → i + k ≡ bufs
    → next a ≡ i
    → prior i ≡ a
    → ((j : ℕ) → j < bufs → next j ≡ suc j)
    → ((j : ℕ) → prior (suc j) ≡ j)
    → Seg next prior a (frames_from k i) bufs
frames_from-Seg bufs zero i a next prior e n p step back =
    let same : i ≡ bufs = omega arith in (n ∙ same, ap prior (sym same) ∙ p)
frames_from-Seg bufs (suc k) i a next prior e n p step back = (
  n,
  p,
  frames_from-Seg bufs k (suc i) i next prior (omega arith) (step i (omega arith)) (back i) step
      back,
)

frames_from-first : (k i : ℕ) → i ≡ first (frames_from k i) (i + k)
frames_from-first zero i = omega arith
frames_from-first (suc k) i = refl

new-IsRing :
    (bufs : ℕ)
    → IsRing
        (record {
          next = λ i. if i == bufs then 0 else suc i;
          prior = λ i. if i == 0 then bufs else i - 1;
          rear = 0;
          front = bufs;
        })
        (frames_from bufs 0)
new-IsRing bufs = record {
  cycle =
      frames_from-Seg bufs bufs 0 bufs (λ i. if i == bufs then 0 else suc i)
        (λ i. if i == 0 then bufs else i - 1) (omega arith) (ground arith) refl
        (λ j lt. ground arith) (λ j. ground arith);
  at_rear = frames_from-first bufs 0 ∙ ap (first (frames_from bufs 0)) (omega arith);
  outside =
      All-mono _ _ (frames_from bufs 0) (λ i h q. omega (arith, h.1, q)) (frames_from-All bufs 0);
  distinct = frames_from-IsDistinct bufs 0;
}

-- A pool that was just made of one frame or more is valid, with all its frames in the ring in their
-- order, and no page is pinned in it.
pub new-IsValid :
    (fs : FileStore) (bufs : ℕ) (pool : ℕ → FileStore.Content fs) (disk : FileStore.Disk fs)
    → 0 < bufs
    → IsValid fs (new fs bufs pool disk) (frames_from bufs 0)
      × ((k : BufHash.PageKey) → pins fs (new fs bufs pool disk) k ≡ 0)
unfolding new pins
new-IsValid fs bufs pool disk _ =
    let fresh = new-IsTable (bufs * 12 / 10 * 2 / 2 + 1) (omega arith) in
    (
      record {
        ring = new-IsRing bufs;
        sentinel = refl;
        table = fresh.0;
        members =
            All-mono _ _ (frames_from bufs 0) (λ i h. (omega (arith, h.1), refl))
              (frames_from-All bufs 0);
        in_hand =
            All-mono _ _ (frames_from bufs 0) (λ i h q. omega (arith, h.1, q))
              (frames_from-All bufs 0);
        unused = λ lt. refl;
        unpinned = λ i lt _ _. frames_from-has bufs 0 i (omega arith) (omega (arith, lt));
        mapped = λ i lt valid. absurd (ground arith);
        frames = λ k i e. absurd (ground (arith, fresh.1 k));
        idle = λ i lt e. (refl, refl);
      },
      λ k. rw (pins, fresh.1 k) refl,
    )
