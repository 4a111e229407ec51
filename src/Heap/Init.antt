-- ===== src/Heap/Init.antt =====
-- heap_init of src/log_heap.c.
use logstats.Base.{
  ℕ, ◌≡◌, refl, ℤ, pos, negsuc, Option, none, some, ltb, ◌==◌, Ensures, ensures_some, ensures_none,
  ensures_if,
}
use logstats.Heap.{Heap, heap_init, max_heap_node_num}

pub heap_init-empty :
    {E S : Type 0} (max_size : ℤ) (cmp : S → E → E → ℤ) (block : Option (ℕ → E))
    → Ensures (λ (h : Heap E S). (h.len ≡ 0) × (h.cmp ≡ cmp)) (heap_init max_size cmp block)
unfolding heap_init
heap_init-empty (negsuc _) cmp block = ensures_none
heap_init-empty (pos max_size) cmp none = ensures_none
heap_init-empty (pos max_size) cmp (some block) =
    ensures_if (max_size == 0) _ _ ensures_none
      (ensures_if (ltb max_heap_node_num max_size) _ _ ensures_none (ensures_some (refl, refl)))
