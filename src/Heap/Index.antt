-- ===== src/Heap/Index.antt =====
-- The insert function of log_heap.c records in each element where it stands. Which operations keep
-- that record right.
use logstats.Base.{
  ℕ, zero, suc, ◌+◌, ◌-◌, ◌*◌, ◌/◌, ◌<◌, ◌≡◌, ◌≢◌, refl, ap, subst, sym, true, false, arith, ℤ, pos,
  positive, ltb, ◌==◌, update, Bool-cases, inl, inr, ◌∙◌,
}
use logstats.Heap.{
  Heap, Hole, InsertFunc, notify, smaller_child, sift_down, sift_up, heap_insert,
  heap_adjust_siftdown, heap_replace_least,
}
use logstats.Heap.Moves.{smaller_child_bounds, sift_down_still}

-- `index` reads the position that `func` writes, each in the element that it is given.
pub record Records {E S : Type 0} (index : S → E → ℤ) (func : InsertFunc E S) : Type 0 where
  pub here : (e : E) (i : ℕ) (s : S) → index (notify func e i s) e ≡ pos i
  pub other : (e e' : E) (i : ℕ) (s : S) → e ≢ e' → index (notify func e i s) e' ≡ index s e'

module _ {E S : Type 0} (index : S → E → ℤ) where
  -- Each of the first `n` entries has its position on record.
  abbrev pub Tracked : ℕ → (ℕ → E) → S → Type 0
  Tracked n a s = (q : ℕ) → q < n → index s (a q) ≡ pos q

  -- As `Tracked`, with the position `i` free for `x`, which stands nowhere else.
  pub record TrackedBut (x : E) (n i : ℕ) (a : ℕ → E) (s : S) : Type 0 where
    pub tracked : (q : ℕ) → q < n → q ≢ i → index s (a q) ≡ pos q
    pub fresh : (q : ℕ) → q < n → q ≢ i → x ≢ a q

  module _ (func : InsertFunc E S) (r : Records index func) (x : E) (n : ℕ) where
    apart :
        (i m q : ℕ) (a : ℕ → E) (s : S)
        → m < n
        → m ≢ i
        → TrackedBut x n i a s
        → q < n
        → q ≢ m
        → q ≢ i
        → a m ≢ a q
    apart i m q a s h ne t p d e same =
        ground (arith, ap (index s) same, t.tracked m h ne, t.tracked q p e)

    -- The entry `m` moves to the free position and is told so.
    move-TrackedBut :
        (i m : ℕ) (a : ℕ → E) (s : S)
        → m < n
        → m ≢ i
        → TrackedBut x n i a s
        → TrackedBut x n m (update a i (a m)) (notify func (a m) i s)
    move-TrackedBut i m a s h ne t = record {
      tracked = λ q p d. elim (Bool-cases (i == q)) [
        | inl e ↦ rw e (r.here (a m) i s ∙ ground arith)
        | inr e ↦ rw e (
            r.other (a m) (a q) i s (λ same. apart i m q a s h ne t p d (ground arith) same)
            ∙ t.tracked q p (ground arith))
      ];
      fresh = λ q p d. ground (arith, t.fresh q p, t.fresh m h ne);
    }

    -- `x` is put at the free position and told so.
    put-Tracked :
        (i : ℕ) (a : ℕ → E) (s : S)
        → TrackedBut x n i a s
        → Tracked n (update a i x) (notify func x i s)
    put-Tracked i a s t q p = elim (Bool-cases (i == q)) [
      | inl e ↦ rw e (r.here x i s ∙ ground arith)
      | inr e ↦
          rw e (r.other x (a q) i s (t.fresh q p (ground arith)) ∙ t.tracked q p (ground arith))
    ]

    sift_down-TrackedBut :
        (cmp : S → E → E → ℤ) (fuel i : ℕ) (a : ℕ → E) (s : S)
        → TrackedBut x n i a s
        → let h = sift_down cmp func x n fuel i a s in TrackedBut x n h.index h.heap h.state
    unfolding sift_down
    sift_down-TrackedBut cmp zero i a s t = t
    sift_down-TrackedBut cmp (suc fuel) i a s t =
        let m = smaller_child cmp n a s (2 * i + 1) in
        elim (Bool-cases (ltb (2 * i + 1) n)) [
          | inr leaf ↦ rw leaf t
          | inl more ↦
              let k = smaller_child_bounds cmp n a s i (ground arith) in
              elim (Bool-cases (positive (cmp s x (a m)))) [
                | inr le ↦ rw (more, le) t
                | inl gt ↦
                    rw (more, gt)
                      (sift_down-TrackedBut cmp fuel m (update a i (a m)) (notify func (a m) i s)
                        (move-TrackedBut i m a s k.2 (omega arith) t))
              ]
        ]

    sift_up-TrackedBut :
        (cmp : S → E → E → ℤ) (fuel i : ℕ) (a : ℕ → E) (s : S)
        → i < n
        → TrackedBut x n i a s
        → let h = sift_up cmp func fuel i a s in TrackedBut x n h.index h.heap h.state
    unfolding sift_up
    sift_up-TrackedBut cmp zero i a s v t = t
    sift_up-TrackedBut cmp (suc fuel) i a s v t =
        let j = (i - 1) / 2 in
        elim (Bool-cases (i == 0)) [
          | inl root ↦ rw root t
          | inr more ↦ elim (Bool-cases (positive (cmp s (a j) (a i)))) [
            | inr le ↦ rw (more, le) t
            | inl gt ↦
                rw (more, gt)
                  (sift_up-TrackedBut cmp fuel j (update a i (a j)) (notify func (a j) i s)
                    (omega arith) (move-TrackedBut i j a s (omega arith) (ground arith) t))
          ]
        ]

  -- The loop does not touch an element that is not in the array.
  sift_down_absent :
      (func : InsertFunc E S) (r : Records index func) (cmp : S → E → E → ℤ) (x e : E)
      (n fuel i : ℕ) (a : ℕ → E) (s : S)
      → ((q : ℕ) → q < n → q ≢ i → a q ≢ e)
      → let h = sift_down cmp func x n fuel i a s in
        (index h.state e ≡ index s e) × ((q : ℕ) → q < n → q ≢ h.index → h.heap q ≢ e)
  unfolding sift_down
  sift_down_absent func r cmp x e n zero i a s t = (refl, t)
  sift_down_absent func r cmp x e n (suc fuel) i a s t =
      let m = smaller_child cmp n a s (2 * i + 1) in
      elim (Bool-cases (ltb (2 * i + 1) n)) [
        | inr leaf ↦ rw leaf (refl, t)
        | inl more ↦
            let k = smaller_child_bounds cmp n a s i (ground arith) in
            elim (Bool-cases (positive (cmp s x (a m)))) [
              | inr le ↦ rw (more, le) (refl, t)
              | inl gt ↦
                  let away = t m k.2 (omega arith) in
                  let ih =
                    sift_down_absent func r cmp x e n fuel m (update a i (a m))
                      (notify func (a m) i s) (λ q p d. ground (arith, t q p, away)) in
                  rw (more, gt) (ih.0 ∙ r.other (a m) e i s away, ih.1)
            ]
      ]

module _ {E S : Type 0} (index : S → E → ℤ) (func : InsertFunc E S) (r : Records index func)
    (hbt : Heap E S) (s : S) (t : Tracked index hbt.len hbt.heap s) where
  -- Where the insert function records positions and each entry has its own on record, inserting an
  -- element that is not in the heap keeps every position on record, that of the new
  -- element included.
  pub heap_insert-Tracked :
      (x : E)
      → ((q : ℕ) → q < hbt.len → x ≢ hbt.heap q)
      → let (at, heap, s') = heap_insert hbt x func s in
        Tracked index heap.len heap.heap s' × (index s' x ≡ pos at)
  unfolding heap_insert
  heap_insert-Tracked x absent =
      let n = hbt.len in
      let b = update hbt.heap n x in
      let s1 = notify func x n s in
      let apart_of : (q : ℕ) → q ≢ n → (n == q) ≡ false = λ q d. ground arith in
      let start : TrackedBut index x (suc n) n b s1 = record {
        tracked = λ q p d.
            rw (apart_of q d)
              (r.other x (hbt.heap q) n s (absent q (omega arith)) ∙ t q (omega arith));
        fresh = λ q p d. ground (arith, absent q);
      } in
      let h =
        sift_up-TrackedBut index func r x (suc n) hbt.cmp (suc n) n b s1 (omega arith) start in
      let end = put-Tracked index func r x (suc n) _ _ _ h in
      (λ q p. end q (omega arith), r.here x _ _)

  -- Where the insert function records positions and each entry has its own on record, sifting down
  -- the element at `i` keeps every position on record.
  pub heap_adjust_siftdown-Tracked :
      (i : ℕ)
      → i < hbt.len
      → let (heap, s') = heap_adjust_siftdown hbt i func s in Tracked index heap.len heap.heap s'
  unfolding heap_adjust_siftdown
  heap_adjust_siftdown-Tracked i v =
      let n = hbt.len in
      let x = hbt.heap i in
      let h = sift_down hbt.cmp func x n n i hbt.heap s in
      let start : TrackedBut index x n i hbt.heap s = record {
        tracked = λ q p d. t q p;
        fresh = λ q p d e. ground (arith, ap (index s) e, t i v, t q p);
      } in
      elim (Bool-cases (h.index == i)) [
        | inl e ↦ rw e (
            subst (λ (h : Hole E S). Tracked index n h.heap h.state)
              (sym (sift_down_still hbt.cmp func x n n i hbt.heap s v (ground arith))) t)
        | inr e ↦ rw e (
            put-Tracked index func r x n _ _ _
              (sift_down-TrackedBut index func r x n hbt.cmp n i hbt.heap s start))
      ]

  -- Where the insert function records positions and each entry has its own on record, replacing the
  -- root by `new`, which is above it and not in the heap, keeps every position on record; and the
  -- element that leaves the heap keeps the record that it stands at the root.
  pub heap_replace_least-Tracked :
      (new : E)
      → 0 < hbt.len
      → ((q : ℕ) → q < hbt.len → new ≢ hbt.heap q)
      → positive (hbt.cmp s new (hbt.heap 0)) ≡ true
      → let (out, heap, s') = heap_replace_least hbt new func s in
        Tracked index heap.len heap.heap s'
        × (out ≡ hbt.heap 0)
        × (index s' out ≡ pos 0)
        × ((q : ℕ) → q < heap.len → heap.heap q ≢ out)
  unfolding heap_replace_least
  heap_replace_least-Tracked new v absent gt =
      let n = hbt.len in
      let old = hbt.heap 0 in
      let h = sift_down hbt.cmp func new n n 0 hbt.heap s in
      let start : TrackedBut index new n 0 hbt.heap s = record {
        tracked = λ q p d. t q p;
        fresh = λ q p d. absent q p;
      } in
      let gone =
        sift_down_absent index func r hbt.cmp new old n n 0 hbt.heap s
          (λ q p d e. ground (arith, ap (index s) e, t 0 v, t q p)) in
      rw gt (
        put-Tracked index func r new n _ _ _
            (sift_down-TrackedBut index func r new n hbt.cmp n 0 hbt.heap s start),
        refl,
        r.other new old h.index h.state (absent 0 v) ∙ gone.0 ∙ t 0 v,
        λ q p. ground (arith, gone.1 q p, absent 0 v),
      )
