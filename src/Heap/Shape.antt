-- ===== src/Heap/Shape.antt =====
-- The size and the comparison of a heap through the operations of log_heap.c, and its tests.
use logstats.Base.{
  ℕ, zero, suc, ◌+◌, ◌≡◌, refl, false, arith, ltb, leb, ◌==◌, if◌then◌else◌, Bool-cases, inl, inr,
  positive, negative, none, some,
}
use logstats.Heap.{
  Heap, InsertFunc, sift_down, heap_insert, heap_adjust_siftdown, heap_replace_least,
  heap_reach_roof, heap_min_less_than, heap_copy, copy_loop,
}

module _ {E S : Type 0} (hbt : Heap E S) where
  pub heap_reach_roof-eq : (roof : ℕ) → heap_reach_roof hbt roof ≡ leb roof hbt.len
  unfolding heap_reach_roof
  heap_reach_roof-eq roof = refl

  pub heap_min_less_than-eq :
      (s : S) (e : E) → heap_min_less_than hbt s e ≡ negative (hbt.cmp s (hbt.heap 0) e)
  unfolding heap_min_less_than
  heap_min_less_than-eq s e = refl

  pub heap_insert_shape :
      (x : E) (func : InsertFunc E S) (s : S)
      → let r = heap_insert hbt x func s in (r.1.len ≡ hbt.len + 1) × (r.1.cmp ≡ hbt.cmp)
  unfolding heap_insert
  heap_insert_shape x func s = (refl, refl)

  pub heap_adjust_siftdown_shape :
      (index : ℕ) (func : InsertFunc E S) (s : S)
      → let r = heap_adjust_siftdown hbt index func s in (r.0.len ≡ hbt.len) × (r.0.cmp ≡ hbt.cmp)
  unfolding heap_adjust_siftdown
  heap_adjust_siftdown_shape index func s =
      let h = sift_down hbt.cmp func (hbt.heap index) hbt.len hbt.len index hbt.heap s in
      elim (Bool-cases (h.index == index)) [ inl e ↦ rw e (refl, refl) | inr e ↦ rw e (refl, refl) ]

  pub heap_replace_least_shape :
      (new : E) (func : InsertFunc E S) (s : S)
      → let r = heap_replace_least hbt new func s in (r.1.len ≡ hbt.len) × (r.1.cmp ≡ hbt.cmp)
  unfolding heap_replace_least
  heap_replace_least_shape new func s = elim (Bool-cases (positive (hbt.cmp s new (hbt.heap 0)))) [
    | inl e ↦ rw e (refl, refl)
    | inr e ↦ rw e (refl, refl)
  ]

pub heap_replace_least_refuses :
    {E S : Type 0} (hbt : Heap E S) (new : E) (func : InsertFunc E S) (s : S)
    → positive (hbt.cmp s new (hbt.heap 0)) ≡ false
    → heap_replace_least hbt new func s ≡ (new, hbt, s)
unfolding heap_replace_least
heap_replace_least_refuses hbt new func s e = rw e

copy_loop-eq :
    {E : Type 0} (n : ℕ) (from to : ℕ → E) (i : ℕ)
    → copy_loop n from to i ≡ (if ltb i n then from i else to i)
unfolding copy_loop
copy_loop-eq zero from to i = ground arith
copy_loop-eq (suc n) from to i = ground (arith, copy_loop-eq n from to i)

-- A copy, where malloc finds memory, agrees with the heap on its entries, its size and its
-- comparison; behind them it holds what the new memory held.
pub heap_copy_lem :
    {E S : Type 0} (hbt : Heap E S) (block : ℕ → E)
    → (heap_copy hbt none ≡ none)
      × ((copy : Heap E S) × (heap_copy hbt (some block) ≡ some copy)
          × (copy.len ≡ hbt.len)
          × (copy.cmp ≡ hbt.cmp)
          × ((i : ℕ) → copy.heap i ≡ (if ltb i hbt.len then hbt.heap i else block i)))
unfolding heap_copy
heap_copy_lem hbt block = (
  refl,
  (
    record hbt { heap = copy_loop hbt.len hbt.heap block },
    refl,
    refl,
    refl,
    copy_loop-eq hbt.len hbt.heap block,
  ),
)
