-- ===== src/Heap/Moves.antt =====
-- What the sifting loop of log_heap.c does to any array, ordered or not: it stays inside the first
-- `n` entries, moves each entry at most, and ends at or below the position where it began.
use logstats.Base.{
  ℕ, zero, suc, ◌+◌, ◌-◌, ◌*◌, ◌/◌, ◌≤◌, ◌<◌, ◌≡◌, refl, Bool, arith, ℤ, positive, ltb, ◌==◌,
  update, count, count-move, none_of_count, count_of_none, Bool-cases, inl, inr, ◌∙◌,
}
use logstats.Heap.{
  Heap, InsertFunc, notify, smaller_child, sift_down, sift_up, heap_insert, heap_adjust_siftdown,
  heap_replace_least,
}

module _ {E S : Type 0} (cmp : S → E → E → ℤ) (n : ℕ) where
  -- The child that is chosen is a child, inside the array.
  pub smaller_child_bounds :
      (a : ℕ → E) (s : S) (i : ℕ)
      → 2 * i + 1 < n
      → let m = smaller_child cmp n a s (2 * i + 1) in (2 * i + 1 ≤ m) × (m ≤ 2 * i + 2) × (m < n)
  unfolding smaller_child
  smaller_child_bounds a s i h = ground arith

module _ {E S : Type 0} (cmp : S → E → E → ℤ) (func : InsertFunc E S) (x : E) (n : ℕ) where
  -- The loop stops inside the array, and leaves the entries from `n` on alone.
  pub sift_down_frame :
      (fuel i : ℕ) (a : ℕ → E) (s : S)
      → i < n
      → let h = sift_down cmp func x n fuel i a s in
        (h.index < n) × (i ≤ h.index) × ((q : ℕ) → n ≤ q → h.heap q ≡ a q)
  unfolding sift_down
  sift_down_frame zero i a s v = (v, omega arith, λ q h. refl)
  sift_down_frame (suc fuel) i a s v =
      let m = smaller_child cmp n a s (2 * i + 1) in
      elim (Bool-cases (ltb (2 * i + 1) n)) [
        | inr leaf ↦ rw leaf (v, omega arith, λ q h. refl)
        | inl more ↦
            let k = smaller_child_bounds cmp n a s i (ground arith) in
            elim (Bool-cases (positive (cmp s x (a m)))) [
              | inr le ↦ rw (more, le) (v, omega arith, λ q h. refl)
              | inl gt ↦
                  let ih = sift_down_frame fuel m (update a i (a m)) (notify func (a m) i s) k.2 in
                  rw (more, gt) (ih.0, omega arith, λ q o. ground (arith, ih.2 q o))
            ]
      ]

  -- Where the loop stops at once, it has written nothing.
  pub sift_down_still :
      (fuel i : ℕ) (a : ℕ → E) (s : S)
      → i < n
      → (sift_down cmp func x n fuel i a s).index ≡ i
      → sift_down cmp func x n fuel i a s ≡ record { index = i; heap = a; state = s }
  unfolding sift_down
  sift_down_still zero i a s v e = refl
  sift_down_still (suc fuel) i a s v e =
      let m = smaller_child cmp n a s (2 * i + 1) in
      elim (Bool-cases (ltb (2 * i + 1) n)) [
        | inr leaf ↦ rw leaf
        | inl more ↦
            let k = smaller_child_bounds cmp n a s i (ground arith) in
            elim (Bool-cases (positive (cmp s x (a m)))) [
              | inr le ↦ rw (more, le)
              | inl gt ↦
                  let deep =
                    sift_down_frame fuel m (update a i (a m)) (notify func (a m) i s) k.2 in
                  let e' = rw (more, gt) at e in absurd (omega (arith, deep.1, e'))
            ]
      ]

  -- With `x` in the place that the loop found, the array has the elements it would have with `x`
  -- in the place where the loop began.
  pub sift_down-count :
      (p : E → Bool) (N fuel i : ℕ) (a : ℕ → E) (s : S)
      → n ≤ N
      → i < n
      → let h = sift_down cmp func x n fuel i a s in
        count p (update h.heap h.index x) N ≡ count p (update a i x) N
  unfolding sift_down
  sift_down-count p N zero i a s le v = refl
  sift_down-count p N (suc fuel) i a s le v =
      let m = smaller_child cmp n a s (2 * i + 1) in
      elim (Bool-cases (ltb (2 * i + 1) n)) [
        | inr leaf ↦ rw leaf
        | inl more ↦
            let k = smaller_child_bounds cmp n a s i (ground arith) in
            elim (Bool-cases (positive (cmp s x (a m)))) [
              | inr le ↦ rw (more, le)
              | inl gt ↦
                  let b = update a i (a m) in
                  rw (more, gt)
                    (sift_down-count p N fuel m b (notify func (a m) i s) le k.2
                      ∙ count-move p x a i m N (omega arith) (omega arith) (omega arith))
            ]
      ]

  -- A bound below `x` and below the keys of the first `n` entries holds afterwards.
  pub sift_down_bound :
      (key : E → ℕ) (bound fuel i : ℕ) (a : ℕ → E) (s : S)
      → i < n
      → bound ≤ key x
      → ((r : ℕ) → r < n → bound ≤ key (a r))
      → let h = sift_down cmp func x n fuel i a s in
        (q : ℕ) → q < n → bound ≤ key (update h.heap h.index x q)
  sift_down_bound key bound fuel i a s v hx all q lt =
      let test : E → Bool = λ e. ltb (key e) bound in
      let h = sift_down cmp func x n fuel i a s in
      let start = count_of_none test (update a i x) n (λ r o. ground (arith, all r o)) in
      let end =
        none_of_count test (update h.heap h.index x) n q
          (sift_down-count test n fuel i a s (omega arith) v ∙ start) lt in
      ground (arith, end)

-- What every call of the insert function keeps of the memory, the loops keep.
module _ {ℓ} {E S : Type 0} (P : S → Type ℓ) (cmp : S → E → E → ℤ) (func : InsertFunc E S)
    (keep : (e : E) (idx : ℕ) (s : S) → P s → P (notify func e idx s)) where
  pub sift_down_keeps :
      (x : E) (n fuel i : ℕ) (a : ℕ → E) (s : S) → P s → P (sift_down cmp func x n fuel i a s).state
  unfolding sift_down
  sift_down_keeps x n zero i a s h = h
  sift_down_keeps x n (suc fuel) i a s h =
      let m = smaller_child cmp n a s (2 * i + 1) in
      elim (Bool-cases (ltb (2 * i + 1) n)) [
        | inr leaf ↦ rw leaf h
        | inl more ↦ elim (Bool-cases (positive (cmp s x (a m)))) [
          | inr le ↦ rw (more, le) h
          | inl gt ↦
              rw (more, gt)
                (sift_down_keeps x n fuel m (update a i (a m)) (notify func (a m) i s)
                  (keep (a m) i s h))
        ]
      ]

  pub sift_up_keeps : (fuel i : ℕ) (a : ℕ → E) (s : S) → P s → P (sift_up cmp func fuel i a s).state
  unfolding sift_up
  sift_up_keeps zero i a s h = h
  sift_up_keeps (suc fuel) i a s h =
      let j = (i - 1) / 2 in
      elim (Bool-cases (i == 0)) [
        | inl root ↦ rw root h
        | inr more ↦ elim (Bool-cases (positive (cmp s (a j) (a i)))) [
          | inr le ↦ rw (more, le) h
          | inl gt ↦
              rw (more, gt)
                (sift_up_keeps fuel j (update a i (a j)) (notify func (a j) i s) (keep (a j) i s h))
        ]
      ]

module _ {ℓ} {E S : Type 0} (P : S → Type ℓ) (hbt : Heap E S) (func : InsertFunc E S)
    (keep : (e : E) (idx : ℕ) (s : S) → P s → P (notify func e idx s)) (s : S) (h : P s) where
  pub heap_insert_keeps : (x : E) → P (heap_insert hbt x func s).2
  unfolding heap_insert
  heap_insert_keeps x = keep x _ _ (
      sift_up_keeps P hbt.cmp func keep (suc hbt.len) hbt.len (update hbt.heap hbt.len x)
        (notify func x hbt.len s) (keep x hbt.len s h))

  pub heap_adjust_siftdown_keeps : (index : ℕ) → P (heap_adjust_siftdown hbt index func s).1
  unfolding heap_adjust_siftdown
  heap_adjust_siftdown_keeps index =
      let x = hbt.heap index in
      let kept = sift_down_keeps P hbt.cmp func keep x hbt.len hbt.len index hbt.heap s h in
      let r = sift_down hbt.cmp func x hbt.len hbt.len index hbt.heap s in
      elim (Bool-cases (r.index == index)) [
        | inl e ↦ rw e kept
        | inr e ↦ rw e (keep x r.index r.state kept)
      ]

  pub heap_replace_least_keeps : (new : E) → P (heap_replace_least hbt new func s).2
  unfolding heap_replace_least
  heap_replace_least_keeps new =
      let kept = sift_down_keeps P hbt.cmp func keep new hbt.len hbt.len 0 hbt.heap s h in
      elim (Bool-cases (positive (hbt.cmp s new (hbt.heap 0)))) [
        | inl e ↦ rw e (keep new _ _ kept)
        | inr e ↦ rw e h
      ]
