-- ===== src/Ring.antt =====
-- The list of unpinned frames of part5/part5/buf.C, a ring of descriptors linked both ways.
--
-- A `BufDesc*` is the index of the descriptor in `bufTable`; the sentinel that `frontUPL` points to
-- has the index `front` behind them all, and NULL is `null`, the index of no descriptor.
pub mod Seg
pub mod Bypass
pub mod Push
pub mod Laws
use ubase.Base.{ℕ, suc, ◌==◌, if◌then◌else◌}

pub record Ring : Type 0 where
  pub next : ℕ → ℕ
  pub prior : ℕ → ℕ
  pub rear : ℕ
  pub front : ℕ

unfoldable pub set : (ℕ → ℕ) → ℕ → ℕ → ℕ → ℕ
set f i v j = if j == i then v else f j

unfoldable pub null : Ring → ℕ
null r = suc r.front

-- `allocBuf`: the rear descriptor leaves the ring, and keeps its own links.
unfoldable pub take_rear : Ring → Ring
unfolding set
take_rear r =
    let prior = set r.prior (r.next r.rear) (r.prior r.rear) in
    let next = set r.next (prior r.rear) (r.next r.rear) in
    record r { prior = prior; next = next; rear = next r.rear }

-- `readPage`: a descriptor leaves the ring, wherever it stands.
unfoldable pub unlink : Ring → ℕ → Ring
unfolding set null
unlink r i =
    let rear = if r.rear == i then r.next r.rear else r.rear in
    let next = set r.next (r.prior i) (r.next i) in
    let prior = set r.prior (next i) (r.prior i) in
    record r { next = set next i (null r); prior = set prior i (null r); rear = rear }

-- `releaseBuf`, and `unPinPage` of a page that is not loved: a descriptor enters at the rear.
unfoldable pub push_rear : Ring → ℕ → Ring
unfolding set
push_rear r i =
    let next = set r.next i r.rear in
    let prior = set r.prior i (r.prior r.rear) in
    record r { next = set next (prior r.rear) i; prior = set prior r.rear i; rear = i }

-- `unPinPage` of a page that is loved: a descriptor enters at the front.
unfoldable pub push_front : Ring → ℕ → Ring
unfolding set
push_front r i =
    let next = set r.next i r.front in
    let prior = set r.prior i (r.prior r.front) in
    record r {
      next = set next (prior r.front) i;
      prior = set prior r.front i;
      rear = if r.front == r.rear then i else r.rear;
    }
