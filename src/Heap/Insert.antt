-- ===== src/Heap/Insert.antt =====
-- heap_insert of log_heap.c. Its loop compares the parent with what stands at the free position,
-- which is the inserted element in the first round only.
use logstats.Base.{
  ℕ, zero, suc, ◌+◌, ◌-◌, ◌*◌, ◌/◌, ◌≤◌, ◌<◌, ◌≡◌, ◌↔◌, refl, Bool, true, false, arith, ℤ, positive,
  ltb, ◌==◌, update, count, subst, sym, count-update, count-update_ge, count-suc, count-move,
  Bool-cases, inl, inr, bit, if◌then◌else◌, ◌∙◌,
}
use logstats.Heap.{Heap, InsertFunc, notify, sift_up, heap_insert}
use logstats.Heap.Order.{Ordered, Compares, Keeps}

module _ {E S : Type 0} (cmp : S → E → E → ℤ) (func : InsertFunc E S) where
  -- With `x` in the place that the loop found, the array has the elements it would have with `x`
  -- in the place where the loop began.
  sift_up-count :
      (x : E) (p : E → Bool) (n fuel i : ℕ) (a : ℕ → E) (s : S)
      → i < n
      → let h = sift_up cmp func fuel i a s in
        (count p (update h.heap h.index x) n ≡ count p (update a i x) n) × (h.index ≤ i)
  unfolding sift_up
  sift_up-count x p n zero i a s v = (refl, omega arith)
  sift_up-count x p n (suc fuel) i a s v =
      let j = (i - 1) / 2 in
      elim (Bool-cases (i == 0)) [
        | inl root ↦ rw root (refl, omega arith)
        | inr more ↦ elim (Bool-cases (positive (cmp s (a j) (a i)))) [
          | inr le ↦ rw (more, le) (refl, omega arith)
          | inl gt ↦
              let ih =
                sift_up-count x p n fuel j (update a i (a j)) (notify func (a j) i s)
                  (omega arith) in
              rw (more, gt)
                (ih.0 ∙ count-move p x a i j n v (omega arith) (ground arith), omega arith)
        ]
      ]

  -- The loop stops at once where the entry at `i` is not below its parent.
  sift_up_rests :
      (key : E → ℕ) (fuel i : ℕ) (a : ℕ → E) (s : S)
      → Compares cmp key s
      → (0 < i → key (a ((i - 1) / 2)) ≤ key (a i))
      → sift_up cmp func fuel i a s ≡ record { index = i; heap = a; state = s }
  unfolding sift_up
  sift_up_rests key zero i a s c h = refl
  sift_up_rests key (suc fuel) i a s c h = ground (arith, c.above (a ((i - 1) / 2)) (a i))

module _ {E S : Type 0} (cmp : S → E → E → ℤ) (func : InsertFunc E S) where
  -- One round of the loop that moves the parent down.
  sift_up_rises :
      (key : E → ℕ) (fuel i : ℕ) (a : ℕ → E) (s : S)
      → Compares cmp key s
      → 0 < i
      → key (a i) < key (a ((i - 1) / 2))
      → let j = (i - 1) / 2 in
        sift_up cmp func (suc fuel) i a s
        ≡ sift_up cmp func fuel j (update a i (a j)) (notify func (a j) i s)
  unfolding sift_up
  sift_up_rises key fuel i a s c h lt = ground (arith, c.above (a ((i - 1) / 2)) (a i))

-- The array that heap_insert leaves: `x` at the end, or in its parent's place.
abbrev placed : {E : Type 0} → ℕ → (ℕ → E) → E → Bool → ℕ → E
placed n a x risen =
    let j = (n - 1) / 2 in
    let b = update a n x in if risen then update (update b n (b j)) j x else update b n x

-- Whether `x` is below the parent of the entry `n`.
abbrev below_parent : {E : Type 0} → (E → ℕ) → ℕ → (ℕ → E) → E → Bool
below_parent key n a x = if n == 0 then false else ltb (key x) (key (a ((n - 1) / 2)))

module _ {E : Type 0} (key : E → ℕ) (n : ℕ) (a : ℕ → E) (x : E) (o : Ordered key n a) where
  -- `x` is not below the grandparent of the new entry.
  abbrev pub NotBelowGrandparent : Type 0
  NotBelowGrandparent =
      (g p : ℕ) → 2 * g + 1 ≤ p → p ≤ 2 * g + 2 → 2 * p + 1 ≤ n → n ≤ 2 * p + 2 → key (a g) ≤ key x

  placed-Ordered :
      (risen : Bool)
      → risen ≡ below_parent key n a x
      → Ordered key (suc n) (placed n a x risen) ↔ NotBelowGrandparent
  placed-Ordered true e = (
    λ r g p q t u v. ground (arith, e, r g p q t (omega arith)),
    λ h p c q t u. ground (arith, e, o p c q t, h p ((n - 1) / 2), o ((n - 1) / 2) c),
  )
  placed-Ordered false e =
      (λ r g p q t u v. ground (arith, e, o g p q t), λ h p c q t u. ground (arith, e, o p c q t))

module _ {E S : Type 0} (hbt : Heap E S) (x : E) (func : InsertFunc E S) (s : S) where
  -- heap_insert adds `x` and keeps every other element, whatever the comparison answers; the index
  -- that it returns is that of `x`.
  pub heap_insert-count :
      (p : E → Bool)
      → let r = heap_insert hbt x func s in
        (count p r.1.heap r.1.len ≡ count p hbt.heap hbt.len + bit (p x))
        × (r.1.len ≡ hbt.len + 1)
        × (r.0 < r.1.len)
        × (r.1.heap r.0 ≡ x)
  unfolding heap_insert
  heap_insert-count p =
      let n = hbt.len in
      let b = update hbt.heap n x in
      let c =
        sift_up-count hbt.cmp func x p (suc n) (suc n) n b (notify func x n s) (omega arith) in
      (
        ground (
          arith,
          c.0,
          count-update p b n x (suc n),
          count-suc p b n,
          count-update_ge p hbt.heap n x n,
        ),
        refl,
        omega (arith, c.1),
        ground arith,
      )

  -- Where `x` goes in an ordered heap: to the end, or to the place of the parent that it is below.
  heap_insert-placed :
      (key : E → ℕ)
      → Compares hbt.cmp key s
      → Keeps hbt.cmp key func
      → Ordered key hbt.len hbt.heap
      → (heap_insert hbt x func s).1.heap
        ≡ placed hbt.len hbt.heap x (below_parent key hbt.len hbt.heap x)
  unfolding heap_insert
  heap_insert-placed key c keeps o =
      let n = hbt.len in
      let j = (n - 1) / 2 in
      let b = update hbt.heap n x in
      let s1 = notify func x n s in
      let c1 = keeps x n s c in
      elim (Bool-cases (below_parent key n hbt.heap x)) [
        | inl risen ↦ rw (
          risen,
          sift_up_rises hbt.cmp func key n n b s1 c1 (ground arith) (ground arith),
          sift_up_rests hbt.cmp func key n j (update b n (b j)) (notify func (b j) n s1)
              (keeps (b j) n s1 c1) (λ h. ground (arith, o ((j - 1) / 2) j)),
        )
        | inr rests ↦
            rw (rests, sift_up_rests hbt.cmp func key (suc n) n b s1 c1 (λ h. ground arith)) refl
      ]

  -- Where the comparison is that of the keys and the insert function does not touch what it reads,
  -- heap_insert on an ordered heap leaves an ordered heap exactly if `x` is not below the grandparent
  -- of the new last entry.
  pub heap_insert-Ordered_iff :
      (key : E → ℕ)
      → Compares hbt.cmp key s
      → Keeps hbt.cmp key func
      → (o : Ordered key hbt.len hbt.heap)
      → Ordered key (suc hbt.len) (heap_insert hbt x func s).1.heap
        ↔ NotBelowGrandparent key hbt.len hbt.heap x o
  unfolding heap_insert
  heap_insert-Ordered_iff key c keeps o =
      subst (λ a. Ordered key (suc hbt.len) a ↔ NotBelowGrandparent key hbt.len hbt.heap x o)
        (sym (heap_insert-placed key c keeps o))
        (placed-Ordered key hbt.len hbt.heap x o (below_parent key hbt.len hbt.heap x) refl)
