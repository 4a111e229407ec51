-- ===== src/Heap/Down.antt =====
-- The sifting loop of log_heap.c restores the heap order and loses no element.
use logstats.Base.{
  ℕ, zero, suc, ◌+◌, ◌*◌, ◌≤◌, ◌<◌, inl, inr, arith, ℤ, positive, ltb, update, Bool-cases,
}
use logstats.Heap.{InsertFunc, notify, smaller_child, sift_down}
use logstats.Heap.Order.{Ordered, Compares, Keeps, SiftInv}

-- `m` is the child of `i` with the smaller key.
record IsSmallerChild {E : Type 0} (key : E → ℕ) (n i : ℕ) (a : ℕ → E) (m : ℕ) : Type 0 where
  inside : m < n
  first : 2 * i + 1 ≤ m
  last : m ≤ 2 * i + 2
  least : (c : ℕ) → 2 * i + 1 ≤ c → c ≤ 2 * i + 2 → c < n → key (a m) ≤ key (a c)

module _ {E S : Type 0} (cmp : S → E → E → ℤ) (func : InsertFunc E S) (key : E → ℕ) where
  smaller_child-IsSmallerChild :
      (n i : ℕ) (a : ℕ → E) (s : S)
      → Compares cmp key s
      → 2 * i + 1 < n
      → IsSmallerChild key n i a (smaller_child cmp n a s (2 * i + 1))
  unfolding smaller_child
  smaller_child-IsSmallerChild n i a s c h =
      let l = 2 * i + 1 in
      let t = c.above (a l) (a (l + 1)) in
      record {
        inside = ground arith;
        first = ground arith;
        last = ground arith;
        least = λ d p q r. ground (arith, t);
      }

module _ {E : Type 0} (key : E → ℕ) (x : E) (n i : ℕ) (a : ℕ → E) (v : SiftInv key x n i a) where
  -- Moving the smaller child into the free position frees the child's.
  sink-SiftInv :
      (m : ℕ)
      → IsSmallerChild key n i a m
      → key (a m) < key x
      → SiftInv key x n m (update a i (a m))
  sink-SiftInv m k lt = record {
    inside = k.inside;
    edges = λ p c q r t u w. ground (arith, v.edges p c, v.bridged p m, k.least c);
    bridged = λ p c q r t u w. ground (arith, v.edges m c);
    above = λ p q r. ground arith;
  }

  -- Where both children are no smaller, `x` fits into the free position.
  fits-Ordered :
      ((c : ℕ) → 2 * i + 1 ≤ c → c ≤ 2 * i + 2 → c < n → key x ≤ key (a c))
      → Ordered key n (update a i x)
  fits-Ordered h = λ p c q r t. ground (arith, v.edges p c, v.above p, h c)

module _ {E S : Type 0} (cmp : S → E → E → ℤ) (func : InsertFunc E S) (key : E → ℕ)
    (keeps : Keeps cmp key func) (x : E) (n : ℕ) where
  -- The array with `x` in the place that the loop found is in order.
  pub sift_down-Ordered :
      (fuel i : ℕ) (a : ℕ → E) (s : S)
      → n ≤ i + fuel
      → Compares cmp key s
      → SiftInv key x n i a
      → let h = sift_down cmp func x n fuel i a s in
        Ordered key n (update h.heap h.index x) × (h.index < n)
  unfolding sift_down
  sift_down-Ordered zero i a s f c v = absurd (omega (arith, v.inside))
  sift_down-Ordered (suc fuel) i a s f c v = elim (Bool-cases (ltb (2 * i + 1) n)) [
    | inr leaf ↦ rw leaf (fits-Ordered key x n i a v (λ d p q r. absurd (ground arith)), v.inside)
    | inl more ↦
        let m = smaller_child cmp n a s (2 * i + 1) in
        let k = smaller_child-IsSmallerChild cmp func key n i a s c (ground arith) in
        elim (Bool-cases (positive (cmp s x (a m)))) [
          | inl gt ↦
              rw (more, gt)
                (sift_down-Ordered fuel m (update a i (a m)) (notify func (a m) i s)
                  (omega (arith, k.first)) (keeps (a m) i s c)
                  (sink-SiftInv key x n i a v m k (ground (arith, c.above x (a m)))))
          | inr le ↦
              rw (more, le)
                (
                  fits-Ordered key x n i a v
                      (λ d p q r. ground (arith, c.above x (a m), k.least d p q r)),
                  v.inside,
                )
        ]
  ]
