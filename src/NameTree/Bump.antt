-- ===== src/NameTree/Bump.antt =====
-- One more sighting of a name (the last part of name_tree_insert): the counts, the heap's size, the
-- recorded positions and the heap order.
use logstats.Base.{
  ℕ, ◌+◌, ◌%◌, ◌^◌, ◌≤◌, ◌<◌, ◌≡◌, refl, sym, ◌∙◌, Bool-cases, inl, inr, some, ℤ, pos, negsuc, ◌==◌,
  if◌then◌else◌, update, arith, leb→gt,
}
use logstats.Heap
use logstats.Heap.{Heap, notify}
use logstats.Heap.Moves.{heap_insert_keeps, heap_adjust_siftdown_keeps, heap_replace_least_keeps}
use logstats.Heap.Shape.{
  heap_reach_roof-eq, heap_insert_shape, heap_adjust_siftdown_shape, heap_replace_least_shape,
}
use logstats.MemPool.{Ptr}
use logstats.NameTree.{Nodes, elem_insert, update_heap, count_sighting, roof}

-- The contents of two memories of nodes agree but for the heap indices.
abbrev pub SameValues : Nodes → Nodes → Type 0
SameValues n n' =
    (e : Ptr) → ((n' e).fqdn ≡ (n e).fqdn) × ((n' e).count ≡ (n e).count) × ((n' e).ptr ≡ (n e).ptr)

elem_insert_keeps :
    (n : Nodes) (e : Ptr) (idx : ℕ) (s : Nodes)
    → SameValues n s
    → SameValues n (notify (some elem_insert) e idx s)
unfolding Heap.notify
elem_insert_keeps n e idx s h k = ground (arith, h k, h e)

elem_insert-SameValues : (n : Nodes) → SameValues n n
elem_insert-SameValues n e = (refl, refl, refl)

-- Updating the heap writes nothing but heap indices.
update_heap-SameValues :
    (heap : Heap Ptr Nodes) (nv : Ptr) (i : ℤ) (n : Nodes)
    → SameValues n (update_heap heap nv i n).1
unfolding update_heap
update_heap-SameValues heap nv (pos i) n =
    heap_adjust_siftdown_keeps (SameValues n) heap (some elem_insert) (elem_insert_keeps n) n
      (elem_insert-SameValues n) i
update_heap-SameValues heap nv (negsuc i) n =
    let start = elem_insert-SameValues n in
    let grown =
      heap_insert_keeps (SameValues n) heap (some elem_insert) (elem_insert_keeps n) n start nv in
    let replaced =
      heap_replace_least_keeps (SameValues n) heap (some elem_insert) (elem_insert_keeps n) n start
        nv in
    elim (Bool-cases (Heap.heap_reach_roof heap roof)) [
      | inr room ↦ rw room grown
      | inl full ↦ elim (Bool-cases (Heap.heap_min_less_than heap n nv)) [
        | inl less ↦ rw (full, less) replaced
        | inr least ↦ rw (full, least) start
      ]
    ]

-- The memory in which the node `nv` has one more sighting, modulo 2^32.
abbrev pub sighted : Ptr → Nodes → Nodes
sighted nv nodes = update nodes nv (record (nodes nv) { count = ((nodes nv).count + 1) % 2 ^ 32 })

-- The node that was seen has one more sighting, modulo 2^32; no other count changes, and no name.
pub count_sighting-count :
    (heap : Heap Ptr Nodes) (nv : Ptr) (nodes : Nodes) (e : Ptr)
    → let nodes' = (count_sighting heap nv nodes).1 in
      ((nodes' e).count ≡ (if nv == e then ((nodes e).count + 1) % 2 ^ 32 else (nodes e).count))
      × ((nodes' e).fqdn ≡ (nodes e).fqdn)
unfolding count_sighting
count_sighting-count heap nv nodes e =
    let n = sighted nv nodes in
    let same = update_heap-SameValues heap nv (n nv).heap_index n e in
    (same.1 ∙ ground arith, same.0 ∙ ground arith)

-- The nodes keep their nodes of the list.
pub count_sighting-ptr :
    (heap : Heap Ptr Nodes) (nv : Ptr) (nodes : Nodes) (e : Ptr)
    → ((count_sighting heap nv nodes).1 e).ptr ≡ (nodes e).ptr
unfolding count_sighting
count_sighting-ptr heap nv nodes e =
    let n = sighted nv nodes in
    let same = update_heap-SameValues heap nv (n nv).heap_index n e in same.2 ∙ ground arith

update_heap-len :
    (heap : Heap Ptr Nodes) (nv : Ptr) (i : ℤ) (n : Nodes)
    → heap.len ≤ roof
    → let r = (update_heap heap nv i n).0 in
      (heap.len ≤ r.len) × (r.len ≤ roof) × (r.cmp ≡ heap.cmp)
unfolding update_heap
update_heap-len heap nv (pos i) n h =
    let shape = heap_adjust_siftdown_shape heap i (some elem_insert) n in
    (omega (arith, shape.0), omega (arith, shape.0), shape.1)
update_heap-len heap nv (negsuc i) n h =
    let grown = heap_insert_shape heap nv (some elem_insert) n in
    let replaced = heap_replace_least_shape heap nv (some elem_insert) n in
    elim (Bool-cases (Heap.heap_reach_roof heap roof)) [
      | inr room ↦
          let space = leb→gt roof heap.len (sym (heap_reach_roof-eq heap roof) ∙ room) in
          rw room (omega (arith, grown.0), omega (arith, grown.0, space), grown.1)
      | inl full ↦ elim (Bool-cases (Heap.heap_min_less_than heap n nv)) [
        | inl less ↦
            rw (full, less) (omega (arith, replaced.0), omega (arith, replaced.0), replaced.1)
        | inr least ↦ rw (full, least) (omega arith, h, refl)
      ]
    ]

-- The heap of a name tree, of at most 1000 entries before a sighting, never loses an entry, never holds more than 1000, of the 10000 that its
-- array has room for, and keeps its comparison.
pub count_sighting-len :
    (heap : Heap Ptr Nodes) (nv : Ptr) (nodes : Nodes)
    → heap.len ≤ roof
    → let r = (count_sighting heap nv nodes).0 in
      (heap.len ≤ r.len) × (r.len ≤ roof) × (roof < Heap.max_heap_node_num) × (r.cmp ≡ heap.cmp)
unfolding count_sighting
count_sighting-len heap nv nodes h =
    let n = sighted nv nodes in
    let r = update_heap-len heap nv (n nv).heap_index n h in (r.0, r.1, omega arith, r.2)
