-- ===== src/Heap/Replace.antt =====
-- heap_replace_least, heap_delete and heap_adjust_siftdown of log_heap.c.
use logstats.Base.{
  ℕ, zero, suc, ◌+◌, ◌≤◌, ◌<◌, ◌≡◌, ◌≢◌, refl, Bool, arith, ℤ, positive, ◌==◌, update, count,
  count-update, count-suc, Bool-cases, inl, inr, bit, none, some, ap,
}
use logstats.Heap.{
  Heap, Hole, InsertFunc, sift_down, heap_delete, heap_replace_least, heap_adjust_siftdown,
}
use logstats.Heap.Order.{Ordered, Compares, Keeps, none-Keeps, SiftInv, root_least}
use logstats.Heap.Down.{sift_down-Ordered}
use logstats.Heap.Moves.{sift_down_still, sift_down-count, sift_down_bound}

-- An ordered array is one with a free root, for any `x`.
root-SiftInv :
    {E : Type 0} (key : E → ℕ) (x : E) (n : ℕ) (a : ℕ → E)
    → 0 < n
    → Ordered key n a
    → SiftInv key x n 0 a
root-SiftInv key x n a h o = record {
  inside = h;
  edges = λ p d q r t u v. o p d q r t;
  bridged = λ p d q r t u v. absurd (omega arith);
  above = λ p q r. absurd (omega arith);
}

-- `new` was offered to the heap `old`: what is left is an ordered heap `left` of as many elements,
-- and `out` is a least element of all.
pub record Replaced {E S : Type 0} (key : E → ℕ) (old : Heap E S) (new out : E) (left : Heap E S)
    : Type 0 where
  pub ordered : Ordered key left.len left.heap
  pub len : left.len ≡ old.len
  pub least : (i : ℕ) → i < left.len → key out ≤ key (left.heap i)
  pub least_new : key out ≤ key new
  pub exchange :
      (p : E → Bool)
      → count p left.heap left.len + bit (p out) ≡ count p old.heap old.len + bit (p new)

module _ {E S : Type 0} (hbt : Heap E S) (key : E → ℕ) (s : S) (c : Compares hbt.cmp key s)
    (o : Ordered key hbt.len hbt.heap) where
  -- Where the comparison is that of the keys and the insert function does not touch what it reads,
  -- heap_replace_least on an ordered heap that is not empty leaves an ordered heap of the same size
  -- and gives out one with a least key of all, the offered one included; no other element comes or
  -- goes.
  pub heap_replace_least-Replaced :
      (new : E) (func : InsertFunc E S)
      → Keeps hbt.cmp key func
      → 0 < hbt.len
      → let r = heap_replace_least hbt new func s in Replaced key hbt new r.0 r.1
  unfolding heap_replace_least
  heap_replace_least-Replaced new func keeps h =
      let v = root-SiftInv key new hbt.len hbt.heap h o in
      let sorted =
        sift_down-Ordered hbt.cmp func key keeps new hbt.len hbt.len 0 hbt.heap s (omega arith) c
          v in
      let low = root_least key hbt.heap hbt.len in
      let gt = c.above new (hbt.heap 0) in
      elim (Bool-cases (positive (hbt.cmp s new (hbt.heap 0)))) [
        | inr le ↦ rw le (record {
          ordered = o;
          len = refl;
          least = λ i q. ground (arith, low i o q);
          least_new = omega arith;
          exchange = λ p. refl;
        })
        | inl more ↦ rw more (record {
          ordered = sorted.0;
          len = refl;
          least =
              sift_down_bound hbt.cmp func new hbt.len key (key (hbt.heap 0)) hbt.len 0 hbt.heap s h
                (ground arith) (λ r q. low r o q);
          least_new = ground arith;
          exchange = λ p. ground (
            arith,
            sift_down-count hbt.cmp func new hbt.len p hbt.len hbt.len 0 hbt.heap s (omega arith) h,
            count-update p hbt.heap 0 new hbt.len,
          );
        })
      ]

-- What heap_delete took from the heap `old`: a least element `out`; `left` holds the others, in
-- order.
pub record Removed {E S : Type 0} (key : E → ℕ) (old : Heap E S) (out : E) (left : Heap E S)
    : Type 0 where
  pub ordered : Ordered key left.len left.heap
  pub len : left.len + 1 ≡ old.len
  pub least : (i : ℕ) → i < left.len → key out ≤ key (left.heap i)
  pub exchange :
      (p : E → Bool) → count p left.heap left.len + bit (p out) ≡ count p old.heap old.len

module _ {E S : Type 0} (hbt : Heap E S) (key : E → ℕ) (s : S) (c : Compares hbt.cmp key s) where
  -- heap_delete on a heap of `k + 2` elements.
  abbrev deleted : ℕ → Heap E S
  deleted k =
      let n = suc k in
      let h = sift_down hbt.cmp none (hbt.heap n) n n 0 hbt.heap s in
      record hbt { heap = update h.heap h.index (hbt.heap n); len = n }

  deleted-Removed :
      (k : ℕ)
      → Ordered key (suc (suc k)) hbt.heap
      → Removed key (record hbt { len = suc (suc k) }) (hbt.heap 0) (deleted k)
  deleted-Removed k o =
      let n = suc k in
      let x = hbt.heap n in
      let low = root_least key hbt.heap (suc n) in
      let v = root-SiftInv key x n hbt.heap (omega arith) (λ p d q r t. o p d q r (omega arith)) in
      record {
        ordered =
            (sift_down-Ordered hbt.cmp none key (none-Keeps hbt.cmp key) x n n 0 hbt.heap s
              (omega arith) c v).0;
        len = omega arith;
        least =
            sift_down_bound hbt.cmp none x n key (key (hbt.heap 0)) n 0 hbt.heap s (omega arith)
              (low n o (omega arith)) (λ r q. low r o (omega arith));
        exchange = λ p. ground (
          arith,
          sift_down-count hbt.cmp none x n p n n 0 hbt.heap s (omega arith) (omega arith),
          count-update p hbt.heap 0 x n,
          count-suc p hbt.heap n,
        );
      }

-- The outcome of heap_delete: what it returns is as `Removed` says.
pub Deletes : {E S : Type 0} → (E → ℕ) → Heap E S → S → Type 0
Deletes {E} {S} key hbt s =
    (r : E × Heap E S) × (heap_delete hbt s ≡ some r) × Removed key hbt r.0 r.1

Deletes-of_len :
    {E S : Type 0} (key : E → ℕ) (s : S) (heap : ℕ → E) (n m : ℕ) (cmp : S → E → E → ℤ)
    → let hbt : Heap E S = record { heap = heap; len = n; max_size = m; cmp = cmp } in
      Compares cmp key s → Ordered key n heap → 0 < n → Deletes key hbt s
unfolding Deletes heap_delete
Deletes-of_len key s heap zero m cmp c o h = elim h [ ]
Deletes-of_len key s heap (suc zero) m cmp c o h = (
  (heap 0, record { heap = heap; len = 0; max_size = m; cmp = cmp }),
  refl,
  record {
    ordered = λ p d q r t. absurd (omega arith);
    len = omega arith;
    least = λ i t. absurd (omega arith);
    exchange = λ p. ground (arith, count-suc p heap 0);
  },
)
Deletes-of_len {E} {S} key s heap (suc (suc k)) m cmp c o h =
    let hbt : Heap E S = record { heap = heap; len = suc (suc k); max_size = m; cmp = cmp } in
    ((heap 0, deleted hbt key s c k), ground arith, deleted-Removed hbt key s c k o)

-- On an ordered heap that is not empty, where the comparison is that of the keys, heap_delete
-- returns an element with a least key and leaves the others, each as often as before, in order.
pub heap_delete-Deletes :
    {E S : Type 0} (hbt : Heap E S) (key : E → ℕ) (s : S)
    → Compares hbt.cmp key s
    → Ordered key hbt.len hbt.heap
    → 0 < hbt.len
    → Deletes key hbt s
heap_delete-Deletes hbt key s c o h =
    Deletes-of_len key s hbt.heap hbt.len hbt.max_size hbt.cmp c o h

module _ {E S : Type 0} (hbt : Heap E S) (index : ℕ) (func : InsertFunc E S) (s : S) where
  -- Where the comparison is that of the new keys and the insert function does not touch what it
  -- reads, heap_adjust_siftdown leaves an ordered heap, if the heap was ordered by the old keys and
  -- only the key of the element at `index` rose.
  pub heap_adjust_siftdown-Ordered :
      (old key : E → ℕ)
      → Compares hbt.cmp key s
      → Keeps hbt.cmp key func
      → Ordered old hbt.len hbt.heap
      → index < hbt.len
      → old (hbt.heap index) ≤ key (hbt.heap index)
      → ((r : ℕ) → r < hbt.len → r ≢ index → key (hbt.heap r) ≡ old (hbt.heap r))
      → let r = heap_adjust_siftdown hbt index func s in Ordered key hbt.len r.0.heap
  unfolding heap_adjust_siftdown
  heap_adjust_siftdown-Ordered old key c keeps o h raised same =
      let x = hbt.heap index in
      let h' = sift_down hbt.cmp func x hbt.len hbt.len index hbt.heap s in
      let sorted =
        (sift_down-Ordered hbt.cmp func key keeps x hbt.len hbt.len index hbt.heap s (omega arith) c
          v).0 in
      let still = sift_down_still hbt.cmp func x hbt.len hbt.len index hbt.heap s h in
      elim (Bool-cases (h'.index == index)) [
        | inl e ↦ rw e λ p d q r t. ground (arith, still (ground arith), o p d, sorted p d)
        | inr e ↦ rw e sorted
      ]
    where
      v : SiftInv key (hbt.heap index) hbt.len index hbt.heap
      v = record {
        inside = h;
        edges = λ p d q r t u w. ground (arith, same p, same d, o p d);
        bridged = λ p d q r t u w. ground (arith, same p, same d, o p index, o index d);
        above = λ p q r. ground (arith, same p, o p index);
      }

  -- heap_adjust_siftdown at an index of the heap keeps the size of the heap and every element as often
  -- as it was, whatever the comparison answers.
  pub heap_adjust_siftdown-count :
      (p : E → Bool)
      → index < hbt.len
      → let r = heap_adjust_siftdown hbt index func s in
        (r.0.len ≡ hbt.len) × (count p r.0.heap hbt.len ≡ count p hbt.heap hbt.len)
  unfolding heap_adjust_siftdown
  heap_adjust_siftdown-count p h =
      let x = hbt.heap index in
      let n = hbt.len in
      let h' = sift_down hbt.cmp func x n n index hbt.heap s in
      let moved = sift_down-count hbt.cmp func x n p n n index hbt.heap s (omega arith) h in
      elim (Bool-cases (h'.index == index)) [
        | inl e ↦ rw e (
          refl,
          ap (λ (h : Hole E S). count p h.heap n)
              (sift_down_still hbt.cmp func x n n index hbt.heap s h (ground arith)),
        )
        | inr e ↦ rw e (refl, ground (arith, moved, count-update p hbt.heap index x n))
      ]
