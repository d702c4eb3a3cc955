-- ===== src/Tests/Pool.antt =====
-- Runs of the ring of unpinned frames and of the buffer manager, part5/part5/buf.C.
use ubase.BufMgr.Close.{close_pool, WritesDirty, close_pool-WritesDirty}
use ubase.Base.{
  ◌≢◌, inl, inr, ap, ◌∙◌, Bool-cases, ==_iff, true, false, List, ℕ, suc, ◌≡◌, refl, [], ◌∷◌, ◌==◌,
  if◌then◌else◌, arith,
}
use ubase.BufHash.{PageKey}
use ubase.BufMgr
use ubase.BufMgr.{BufMgr, alloc_buf}
use ubase.BufMgr.Alloc.{Allocs, alloc_buf-Allocs}
use ubase.BufMgr.New.{new-IsValid}
use ubase.BufMgr.AllocPage.{AllocPageOf, alloc_page-AllocPageOf}
use ubase.BufMgr.Dispose.{DisposeOf, dispose_page-DisposeOf}
use ubase.BufMgr.Enter.{Reads}
use ubase.BufMgr.Flush.{FlushOf, flush_file-FlushOf}
use ubase.BufMgr.Read.{ReadOf, read_page-ReadOf}
use ubase.BufMgr.Unpin.{UnpinOf, Unpins, returned, unpin_page-UnpinOf}
use ubase.HashTable
use ubase.BufHash
use mathlib.Core.Path.{subst}
use ubase.FileStore.{FileStore}
use ubase.Ring.{Ring, take_rear, unlink, push_rear}
use ubase.Ring.Bypass.{IsRing}
use ubase.Ring.Laws.{unlink-IsRing}
use ubase.Status.{ok}

abbrev store : FileStore
store = record {
  Disk = ℕ → ℕ → ℕ;
  Content = ℕ;
  read_page = λ file n w. (ok (w file n), w);
  write_page =
      λ file n c w. (ok tt, λ f m. if f == file then (if m == n then c else w f m) else w f m);
  allocate_page = λ file w. (ok 9, w);
  dispose_page = λ file n w. (ok tt, w);
}

abbrev zero_disk : ℕ → ℕ → ℕ
zero_disk file n = 0

abbrev pool : BufMgr store
pool = BufMgr.new store 3 (λ i. 0) zero_disk

abbrev ring : Ring
ring = record {
  next = λ i. if i == 3 then 0 else suc i;
  prior = λ i. if i == 0 then 3 else (if i == 1 then 0 else (if i == 2 then 1 else 2));
  rear = 0;
  front = 3;
}

ring-IsRing : IsRing ring (0 ∷ 1 ∷ 2 ∷ [])
ring-IsRing = record {
  cycle = ((refl, refl, (refl, refl, (refl, refl, (refl, refl)))));
  at_rear = refl;
  outside = (λ e. omega (arith, e), (λ e. omega (arith, e), (λ e. omega (arith, e), tt)));
  distinct = (
    (λ e. omega (arith, e), (λ e. omega (arith, e), tt)),
    ((λ e. omega (arith, e), tt), (tt, tt)),
  );
}

unlink-IsRing_example : IsRing (unlink ring 1) (0 ∷ 2 ∷ [])
unlink-IsRing_example = unlink-IsRing ring (0 ∷ []) 1 (2 ∷ []) ring-IsRing

alloc_buf-Allocs_example : Allocs store pool (0 ∷ 1 ∷ 2 ∷ []) (alloc_buf store pool)
alloc_buf-Allocs_example =
    alloc_buf-Allocs store pool (0 ∷ 1 ∷ 2 ∷ [])
      (new-IsValid store 3 (λ i. 0) zero_disk (omega arith)).0

-- With three frames, the table of pages has four buckets.
buckets : pool.hash_table.htsize ≡ 4
unfolding BufMgr.new
buckets = refl

read_page-ReadOf_example : ReadOf store pool (0 ∷ 1 ∷ 2 ∷ []) 5 2 (BufMgr.read_page store 5 2 pool)
read_page-ReadOf_example =
    read_page-ReadOf store pool (0 ∷ 1 ∷ 2 ∷ []) 5 2
      (new-IsValid store 3 (λ i. 0) zero_disk (omega arith)).0

alloc_page-AllocPageOf_example :
    AllocPageOf store pool (0 ∷ 1 ∷ 2 ∷ []) 5 (BufMgr.alloc_page store 5 pool)
alloc_page-AllocPageOf_example =
    alloc_page-AllocPageOf store pool (0 ∷ 1 ∷ 2 ∷ []) 5
      (new-IsValid store 3 (λ i. 0) zero_disk (omega arith)).0

-- The pool after page 2 of file 5 was read, and after it was unpinned, dirty and not loved.
abbrev pool1 : BufMgr store
pool1 = (BufMgr.read_page store 5 2 pool).1

abbrev pool2 : BufMgr store
pool2 = (BufMgr.unpin_page store 5 2 true false pool1).1

read_run : BufMgr.read_page store 5 2 pool ≡ (ok 0, pool1)
unfolding BufMgr.read_page BufMgr.new BufMgr.alloc_buf BufMgr.take_frame BufMgr.clear_frame
    BufMgr.load BufMgr.enter BufHash.new BufHash.lookup BufHash.insert BufHash.hash HashTable.insert
    HashTable.lookup HashTable.chain_find HashTable.set_bucket BufMgr.set_frame BufMgr.clear_links
    take_rear
read_run = refl

reads : Reads store pool (BufMgr.key 5 2) 0 pool1
reads =
    (subst (ReadOf store pool (0 ∷ 1 ∷ 2 ∷ []) 5 2) read_run (
      read_page-ReadOf store pool (0 ∷ 1 ∷ 2 ∷ []) 5 2
        (new-IsValid store 3 (λ i. 0) zero_disk (omega arith)).0)).0

unpin_run : BufMgr.unpin_page store 5 2 true false pool1 ≡ (ok tt, pool2)
unfolding BufMgr.unpin_page BufMgr.read_page BufMgr.new BufMgr.alloc_buf BufMgr.take_frame
    BufMgr.clear_frame BufMgr.load BufMgr.enter BufHash.new BufHash.lookup BufHash.insert
    BufHash.hash HashTable.insert HashTable.lookup HashTable.chain_find HashTable.set_bucket
    BufMgr.set_frame BufMgr.clear_links take_rear push_rear
unpin_run = refl

unpins : Unpins store pool1 reads.free (BufMgr.key 5 2) true false pool2
unpins =
    subst (UnpinOf store pool1 reads.free (BufMgr.key 5 2) true false) unpin_run
      (unpin_page-UnpinOf store pool1 reads.free 5 2 true false reads.pool)

unpin_page-UnpinOf_example :
    UnpinOf store pool1 reads.free
      (BufMgr.key 5 2)
      true
      false
      (BufMgr.unpin_page store 5 2 true false pool1)
unpin_page-UnpinOf_example = unpin_page-UnpinOf store pool1 reads.free 5 2 true false reads.pool

abbrev free2 : List ℕ
free2 = if unpins.left == 0 then returned store false unpins.frame reads.free else reads.free

dispose_page-DisposeOf_example :
    DisposeOf store pool2 free2 5 2 (BufMgr.dispose_page store 5 2 pool2)
dispose_page-DisposeOf_example = dispose_page-DisposeOf store pool2 free2 5 2 unpins.pool

flush_file-FlushOf_example : FlushOf store pool2 free2 5 (BufMgr.flush_file store 5 pool2)
flush_file-FlushOf_example =
    flush_file-FlushOf store pool2 free2 5 unpins.pool (λ e. omega (arith, e))

abbrev look : (ℕ → ℕ → ℕ) → PageKey → ℕ
look w k = w k.file k.page_no

abbrev InUse : (ℕ → ℕ → ℕ) → PageKey → Type 0
InUse w k = Unit

stays :
    (f p c : ℕ) (w : ℕ → ℕ → ℕ) (k : PageKey)
    → InUse w (BufMgr.key f p)
    → InUse w k
    → InUse (store.write_page f p c w).1 k
stays f p c w k a b = tt

reads_back :
    (f p c : ℕ) (w : ℕ → ℕ → ℕ)
    → InUse w (BufMgr.key f p)
    → look (store.write_page f p c w).1 (BufMgr.key f p) ≡ c
reads_back f p c w used = ground arith

same_key : (k : PageKey) (f p : ℕ) → k.file ≡ f → k.page_no ≡ p → k ≡ BufMgr.key f p
same_key k f p e q = ap (λ x. BufMgr.key x k.page_no) e ∙ ap (BufMgr.key f) q

leaves :
    (f p c : ℕ) (w : ℕ → ℕ → ℕ) (k : PageKey)
    → InUse w (BufMgr.key f p)
    → k ≢ BufMgr.key f p
    → look (store.write_page f p c w).1 k ≡ look w k
leaves f p c w k used ne = elim (Bool-cases (k.file == f)) [
  | inl a ↦ elim (Bool-cases (k.page_no == p)) [
    | inl b ↦ absurd (ne (same_key k f p ((==_iff k.file f).0 a) ((==_iff k.page_no p).0 b)))
    | inr b ↦ rw (a, b) refl
  ]
  | inr a ↦ rw a refl
]

close_pool-WritesDirty_example :
    WritesDirty store look InUse reads_back leaves stays pool2 (close_pool store pool2)
close_pool-WritesDirty_example =
    close_pool-WritesDirty store look InUse reads_back leaves stays pool2 free2 unpins.pool
      (λ j low dirty. tt)
