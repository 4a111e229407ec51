-- ===== src/NameTree/Compare.antt =====
-- The comparison of src/log_name_tree.c orders nodes by their counts, while these are below 2^31; and
-- when the heap of a name tree stays in order.
use logstats.Base.{
  ℕ, ◌+◌, ◌-◌, ◌%◌, ◌^◌, ◌≤◌, ◌<◌, ◌≡◌, ◌≢◌, sym, subst, ◌∙◌, true, Bool-cases, inl, inr, some, ℤ,
  pos, negsuc, positive, negative, to_int, ltb, arith,
}
use logstats.Heap
use logstats.Heap.{Heap, notify}
use logstats.Heap.Order.{Ordered, Compares, Keeps}
use logstats.Heap.Replace.{heap_adjust_siftdown-Ordered, heap_replace_least-Replaced}
use logstats.Heap.Shape.{heap_reach_roof-eq}
use logstats.MemPool.{Ptr}
use logstats.NameTree.{Nodes, elem_compare, elem_insert, update_heap, count_sighting, roof}
use logstats.NameTree.Bump.{sighted}

-- Every node has fewer than 2^31 sightings.
abbrev pub SmallCounts : Nodes → Type 0
SmallCounts nodes = (e : Ptr) → (nodes e).count < 2 ^ 31

abbrev pub count_of : Nodes → Ptr → ℕ
count_of nodes e = (nodes e).count

difference_positive :
    (a b : ℕ) → a < 2 ^ 31 → b < 2 ^ 31 → positive (to_int ((a + 2 ^ 32 - b) % 2 ^ 32)) ≡ ltb b a
unfolding to_int
difference_positive a b ha hb = ground arith

difference_negative :
    (a b : ℕ) → a < 2 ^ 31 → b < 2 ^ 31 → negative (to_int ((a + 2 ^ 32 - b) % 2 ^ 32)) ≡ ltb a b
unfolding to_int
difference_negative a b ha hb = ground arith

-- Where every count is below 2^31, elem_compare is positive exactly if the first count is the greater,
-- and negative exactly if it is the smaller.
pub elem_compare-Compares :
    (nodes : Nodes) → SmallCounts nodes → Compares elem_compare (count_of nodes) nodes
unfolding elem_compare
elem_compare-Compares nodes h = record {
  above = λ a b. difference_positive (nodes a).count (nodes b).count (h a) (h b);
  below = λ a b. difference_negative (nodes a).count (nodes b).count (h a) (h b);
}

-- Recording a position does not change a comparison.
elem_compare-elem_insert :
    (nodes : Nodes) (e : Ptr) (idx : ℕ) (a b : Ptr)
    → elem_compare (notify (some elem_insert) e idx nodes) a b ≡ elem_compare nodes a b
unfolding elem_compare Heap.notify
elem_compare-elem_insert nodes e idx a b = ground arith

pub elem_insert-Keeps : (key : Ptr → ℕ) → Keeps elem_compare key (some elem_insert)
elem_insert-Keeps key e idx s c = record {
  above = λ a b. rw (elem_compare-elem_insert s e idx a b) (c.above a b);
  below = λ a b. rw (elem_compare-elem_insert s e idx a b) (c.below a b);
}

module _ (heap : Heap Ptr Nodes) (nv : Ptr) (nodes : Nodes) (uses : heap.cmp ≡ elem_compare)
    (small : SmallCounts (sighted nv nodes)) (o : Ordered (count_of nodes) heap.len heap.heap) where
  -- The keys after the sighting is counted.
  abbrev key : Ptr → ℕ
  key = count_of (sighted nv nodes)

  compares : Compares heap.cmp key (sighted nv nodes)
  compares =
      subst (λ f. Compares f key (sighted nv nodes)) (sym uses)
        (elem_compare-Compares (sighted nv nodes) small)

  keeps : Keeps heap.cmp key (some elem_insert)
  keeps = subst (λ f. Keeps f key (some elem_insert)) (sym uses) (elem_insert-Keeps key)

  -- The node stands in the heap at `i` and nowhere else, and its count does not wrap.
  sifted-Ordered :
      (i : ℕ)
      → i < heap.len
      → heap.heap i ≡ nv
      → ((r : ℕ) → r < heap.len → r ≢ i → heap.heap r ≢ nv)
      → (nodes nv).count + 1 < 2 ^ 32
      → Ordered key heap.len
          (Heap.heap_adjust_siftdown heap i (some elem_insert) (sighted nv nodes)).0.heap
  sifted-Ordered i h at only fits =
      heap_adjust_siftdown-Ordered heap i (some elem_insert) (sighted nv nodes) (count_of nodes) key
        compares keeps o h (ground arith) (λ r l ne. ground (arith, only r l ne))

  -- The node does not stand in the heap, which has elements.
  replaced-Ordered :
      ((q : ℕ) → q < heap.len → heap.heap q ≢ nv)
      → 0 < heap.len
      → let r = Heap.heap_replace_least heap nv (some elem_insert) (sighted nv nodes) in
        Ordered key r.1.len r.1.heap
  replaced-Ordered absent h =
      let start : Ordered key heap.len heap.heap =
        λ p d q r t. ground (arith, o p d q r t, absent p, absent d) in
      (heap_replace_least-Replaced heap key (sighted nv nodes) compares start nv (some elem_insert)
        keeps h).ordered

  update_heap-Ordered_in :
      (k : ℤ) (i : ℕ)
      → k ≡ pos i
      → i < heap.len
      → heap.heap i ≡ nv
      → ((r : ℕ) → r < heap.len → r ≢ i → heap.heap r ≢ nv)
      → (nodes nv).count + 1 < 2 ^ 32
      → let r = update_heap heap nv k (sighted nv nodes) in Ordered key heap.len r.0.heap
  unfolding update_heap
  update_heap-Ordered_in (negsuc k) i e h at only fits = absurd (cc)
  update_heap-Ordered_in (pos k) i e h at only fits =
      let same : k ≡ i = ground arith in
      sifted-Ordered k (omega arith) (ground (arith, same)) (λ r l ne. only r l (omega arith)) fits

  update_heap-Ordered_full :
      (k : ℤ)
      → k ≡ negsuc 0
      → ((q : ℕ) → q < heap.len → heap.heap q ≢ nv)
      → roof ≤ heap.len
      → let r = update_heap heap nv k (sighted nv nodes) in Ordered key r.0.len r.0.heap
  unfolding update_heap
  update_heap-Ordered_full (pos k) e absent full = absurd (cc)
  update_heap-Ordered_full (negsuc k) e absent full =
      let start : Ordered key heap.len heap.heap =
        λ p d q r t. ground (arith, o p d q r t, absent p, absent d) in
      let reached : Heap.heap_reach_roof heap roof ≡ true =
        heap_reach_roof-eq heap roof ∙ ground arith in
      elim (Bool-cases (Heap.heap_min_less_than heap (sighted nv nodes) nv)) [
        | inl less ↦ rw (reached, less) (replaced-Ordered absent (omega arith))
        | inr least ↦ rw (reached, least) start
      ]

  -- The comparison is that of the counts, each below 2^31 after the sighting, and the heap is in
  -- order. A sighting of a node that stands in the heap, once and where its heap index says, keeps
  -- the heap in order by the new counts.
  pub count_sighting-Ordered :
      (i : ℕ)
      → (nodes nv).heap_index ≡ pos i
      → i < heap.len
      → heap.heap i ≡ nv
      → ((r : ℕ) → r < heap.len → r ≢ i → heap.heap r ≢ nv)
      → (nodes nv).count + 1 < 2 ^ 32
      → Ordered key heap.len (count_sighting heap nv nodes).0.heap
  unfolding count_sighting
  count_sighting-Ordered i e h at only fits =
      update_heap-Ordered_in ((sighted nv nodes) nv).heap_index i (ground arith) h at only fits

  -- The comparison is that of the counts, each below 2^31 after the sighting, and the heap is in
  -- order and full. A sighting of a node outside the heap, whose heap index is -1, keeps the heap in
  -- order by the new counts, whether or not the node takes the place of the least.
  pub count_sighting-Ordered_full :
      (nodes nv).heap_index ≡ negsuc 0
      → ((q : ℕ) → q < heap.len → heap.heap q ≢ nv)
      → roof ≤ heap.len
      → let r = (count_sighting heap nv nodes).0 in Ordered key r.len r.heap
  unfolding count_sighting
  count_sighting-Ordered_full e absent full =
      update_heap-Ordered_full ((sighted nv nodes) nv).heap_index (ground arith) absent full
