-- ===== src/Heap/Sort.antt =====
-- heap_sort of log_heap.c.
use logstats.Base.{
  ℕ, zero, suc, ◌≤◌, ◌<◌, ◌≡◌, ◌≢◌, refl, Bool, arith, ℤ, ltb, update, count, count-update,
  none_of_count, count_of_none, Bool-cases, inl, inr, ◌∙◌, none,
}
use logstats.Heap.{Heap, sift_down, sort_loop, heap_sort}
use logstats.Heap.Order.{Ordered, Compares, none-Keeps, root_least}
use logstats.Heap.Down.{sift_down-Ordered}
use logstats.Heap.Moves.{sift_down_frame, sift_down-count}

-- Keys fall, or stay, from each entry to the next.
abbrev pub Descending : {E : Type 0} → (E → ℕ) → ℕ → (ℕ → E) → Type 0
Descending key n a = (i j : ℕ) → i ≤ j → j < n → key (a j) ≤ key (a i)

-- The entries from `k` on are in their places: they descend, and none is above an earlier one.
abbrev SortedFrom : {E : Type 0} → (E → ℕ) → (k n : ℕ) → (ℕ → E) → Type 0
SortedFrom key k n a = (i j : ℕ) → i ≤ j → k ≤ j → j < n → key (a j) ≤ key (a i)

-- The exchange at the head of a round.
abbrev exchange : {E : Type 0} → ℕ → (ℕ → E) → ℕ → E
exchange k a = update (update a k (a 0)) 0 (a k)

exchange-count :
    {E : Type 0} (p : E → Bool) (a : ℕ → E) (k n : ℕ)
    → k < n
    → count p (exchange k a) n ≡ count p a n
exchange-count p a k n h = ground (
  arith,
  count-update p (update a k (a 0)) 0 (a k) n,
  count-update p a k (a 0) n,
  count-update p a 0 (a k) n,
)

module _ {E S : Type 0} (cmp : S → E → E → ℤ) (s : S) where
  -- The array after the round that takes the root of the first `k + 1` entries.
  abbrev round : ℕ → (ℕ → E) → ℕ → E
  round k a = let h = sift_down cmp none (a k) k k 0 (exchange k a) s in update h.heap h.index (a k)

  round-count :
      (p : E → Bool) (a : ℕ → E) (k n : ℕ) → 0 < k → k < n → count p (round k a) n ≡ count p a n
  round-count p a k n h lt =
      let b = exchange k a in
      ground (
        arith,
        sift_down-count cmp none (a k) k p n k 0 b s (omega arith) h,
        count-update p b 0 (a k) n,
        exchange-count p a k n,
      )

  round_frame : (a : ℕ → E) (k q : ℕ) → 0 < k → k ≤ q → round k a q ≡ exchange k a q
  round_frame a k q h le =
      let f = sift_down_frame cmp none (a k) k k 0 (exchange k a) s h in ground (arith, f.2 q)

  module _ (key : E → ℕ) (c : Compares cmp key s) where
    round-Ordered : (a : ℕ → E) (k : ℕ) → 0 < k → Ordered key (suc k) a → Ordered key k (round k a)
    round-Ordered a k h o =
        (sift_down-Ordered cmp none key (none-Keeps cmp key) (a k) k k 0 (exchange k a) s
          (omega arith) c
          (record {
            inside = h;
            edges = λ p d q r t u v. ground (arith, o p d);
            bridged = λ p d q r t u v. absurd (omega arith);
            above = λ p q r. absurd (omega arith);
          })).0

  sort_loop-round :
      (k : ℕ) (a : ℕ → E) → k ≢ 1 → sort_loop cmp s (suc k) a ≡ sort_loop cmp s k (round k a)
  unfolding sort_loop
  sort_loop-round k a ne = ground arith

  -- A bound below the first `k + 1` keys stays one.
  round_bound :
      (key : E → ℕ) (bound : ℕ) (a : ℕ → E) (k : ℕ)
      → 0 < k
      → ((r : ℕ) → r < suc k → bound ≤ key (a r))
      → (i : ℕ) → i < suc k
      → bound ≤ key (round k a i)
  round_bound key bound a k h all i lt =
      let test : E → Bool = λ e. ltb (key e) bound in
      let start = count_of_none test a (suc k) (λ r q. ground (arith, all r q)) in
      let end =
        none_of_count test (round k a) (suc k) i
          (round-count test a k (suc k) h (omega arith) ∙ start) lt in
      ground (arith, end)

  module _ (key : E → ℕ) (c : Compares cmp key s) where
    round-SortedFrom :
        (a : ℕ → E) (k n : ℕ)
        → 0 < k
        → Ordered key (suc k) a
        → SortedFrom key (suc k) n a
        → SortedFrom key k n (round k a)
    round-SortedFrom a k n h o t i j le lj ln =
        let b = exchange k a j in
        let fj = round_frame a k j h lj in
        let low =
          round_bound key (key b) a k h
            λ r q. ground (arith, t r j, root_least key a (suc k) r o q) in
        elim (Bool-cases (ltb k i)) [
          | inl late ↦ rw fj (ground (arith, round_frame a k i h, t i j))
          | inr early ↦ rw fj (low i (ground arith))
        ]

    -- The last two rounds: for two entries, and for one.
    sort_loop-SortedFrom_two :
        (n : ℕ) (a : ℕ → E)
        → Ordered key 2 a
        → SortedFrom key 2 n a
        → SortedFrom key 0 n (sort_loop cmp s 2 a)
    unfolding sort_loop
    sort_loop-SortedFrom_two n a o t = λ i j le lj ln. ground (arith, o 0 1, t i j, t 0 j, t 1 j)

    sort_loop-SortedFrom_one :
        (n : ℕ) (a : ℕ → E) → SortedFrom key 1 n a → SortedFrom key 0 n (sort_loop cmp s 1 a)
    unfolding sort_loop sift_down
    sort_loop-SortedFrom_one n a t = λ i j le lj ln. ground (arith, t i j)

    sort_loop-SortedFrom :
        (k n : ℕ) (a : ℕ → E)
        → Ordered key k a
        → SortedFrom key k n a
        → SortedFrom key 0 n (sort_loop cmp s k a)
    sort_loop-SortedFrom zero n a o t = unfold sort_loop in t
    sort_loop-SortedFrom (suc zero) n a o t = sort_loop-SortedFrom_one n a t
    sort_loop-SortedFrom (suc (suc zero)) n a o t = sort_loop-SortedFrom_two n a o t
    sort_loop-SortedFrom (suc (suc (suc k))) n a o t =
        let m = suc (suc k) in
        rw (sort_loop-round m a (omega arith)) (
          sort_loop-SortedFrom (suc (suc k)) n (round m a) (round-Ordered key c a m (omega arith) o)
            (round-SortedFrom a m n (omega arith) o t))

  sort_loop-count :
      (p : E → Bool) (k n : ℕ) (a : ℕ → E) → k ≤ n → count p (sort_loop cmp s k a) n ≡ count p a n
  unfolding sort_loop
  sort_loop-count p zero n a le = refl
  sort_loop-count p (suc zero) n a le =
      let b = update a 0 (a 0) in
      let d = update b 0 (a 0) in
      let h = sift_down cmp none (a 0) 0 0 0 d s in
      ground
        (arith, count-update p d 0 (a 0) n, count-update p b 0 (a 0) n, count-update p a 0 (a 0) n)
  sort_loop-count p (suc (suc zero)) n a le = exchange-count p a 1 n le
  sort_loop-count p (suc (suc (suc k))) n a le =
      let m = suc (suc k) in
      rw (sort_loop-round m a (omega arith)) (
        sort_loop-count p (suc (suc k)) n (round m a) (omega arith)
        ∙ round-count p a m n (omega arith) le)

module _ {E S : Type 0} (hbt : Heap E S) (s : S) where
  -- Sorting keeps every element as often as it was among the first `len`, also in a heap out of
  -- order and whatever the comparison answers.
  pub heap_sort-count :
      (p : E → Bool) → count p (heap_sort hbt s).heap hbt.len ≡ count p hbt.heap hbt.len
  unfolding heap_sort
  heap_sort-count p = sort_loop-count hbt.cmp s p hbt.len hbt.len hbt.heap (omega arith)

  -- Where the comparison is that of the keys, sorting an ordered heap leaves its first `len`
  -- entries in descending order of their keys, and each element stands there as often as before.
  pub heap_sort-Descending :
      (key : E → ℕ)
      → Compares hbt.cmp key s
      → Ordered key hbt.len hbt.heap
      → Descending key hbt.len (heap_sort hbt s).heap
        × ((p : E → Bool) → count p (heap_sort hbt s).heap hbt.len ≡ count p hbt.heap hbt.len)
  unfolding heap_sort
  heap_sort-Descending key c o = (
    λ i j le lt.
        sort_loop-SortedFrom hbt.cmp s key c hbt.len hbt.len hbt.heap o
          (λ i j q r t. absurd (omega arith)) i j le (omega arith) lt,
    heap_sort-count,
  )

  pub heap_sort_shape : (heap_sort hbt s).len ≡ hbt.len
  unfolding heap_sort
  heap_sort_shape = refl
