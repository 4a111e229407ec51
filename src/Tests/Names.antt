-- ===== src/Tests/Names.antt =====
-- Sightings of src/log_name_tree.c. The nodes stand at the addresses from 1 on, and the node at `e`
-- was seen `e` times.
use logstats.Base.{
  ℕ, ◌+◌, ◌-◌, ◌%◌, ◌^◌, ◌≤◌, ◌<◌, ◌≡◌, ◌≢◌, refl, ◌&&◌, arith, pos, negsuc, ltb, leb, [],
  if◌then◌else◌, update,
}
use logstats.Heap
use logstats.Heap.{Heap}
use logstats.Heap.Order.{Ordered, Compares}
use logstats.MemPool.{Ptr}
use logstats.NameTree.{Nodes, elem_compare, count_sighting, roof}
use logstats.NameTree.Bump.{sighted, count_sighting-count, count_sighting-len}
use logstats.NameTree.Compare.{
  SmallCounts, count_of, elem_compare-Compares, count_sighting-Ordered, count_sighting-Ordered_full,
}
use logstats.NameTree.Positions.{Indexed, count_sighting-Indexed, count_sighting_stale}

-- The first 1000 nodes may stand in the heap.
abbrev nodes : Nodes
nodes e = record {
  fqdn = [];
  count = if ltb e 2000 then e else 0;
  heap_index = if ltb 0 e && leb e 1000 then pos (e - 1) else negsuc 0;
  ptr = 0;
}

abbrev heap_of : ℕ → Heap Ptr Nodes
heap_of n = record { heap = λ i. i + 1; len = n; max_size = 10000; cmp = elem_compare }

small : (nv : Ptr) → SmallCounts (sighted nv nodes)
small nv e = ground arith

in_order : (n : ℕ) → n ≤ 1000 → Ordered (count_of nodes) n (λ i. i + 1)
in_order n h p c k l m = ground arith

indexed : (n : ℕ) → n ≤ 1000 → Indexed (heap_of n) nodes
indexed n h q l = ground arith

count_sighting-Ordered_example :
    Ordered (count_of (sighted 1 nodes)) 3 (count_sighting (heap_of 3) 1 nodes).0.heap
count_sighting-Ordered_example =
    count_sighting-Ordered (heap_of 3) 1 nodes refl (small 1) (in_order 3 (omega arith)) 0 refl
      (omega arith) refl (λ r h ne. omega arith) (omega arith)

-- The node 1500 takes the place of the least of a full heap.
count_sighting-Ordered_full_example :
    let r = (count_sighting (heap_of 1000) 1500 nodes).0 in
    Ordered (count_of (sighted 1500 nodes)) r.len r.heap
count_sighting-Ordered_full_example =
    count_sighting-Ordered_full (heap_of 1000) 1500 nodes refl (small 1500)
      (in_order 1000 (omega arith)) refl (λ q h. omega arith) (omega arith)

count_sighting-Indexed_example : let r = count_sighting (heap_of 3) 2 nodes in Indexed r.0 r.1
count_sighting-Indexed_example =
    count_sighting-Indexed (heap_of 3) 2 nodes (indexed 3 (omega arith)) (λ j e. ground arith)

count_sighting-count_example :
    let nodes' = (count_sighting (heap_of 3) 2 nodes).1 in
    ((nodes' 2).count ≡ (if leb 2 2 then (2 + 1) % 2 ^ 32 else 2)) × ((nodes' 2).fqdn ≡ [])
count_sighting-count_example = count_sighting-count (heap_of 3) 2 nodes 2

count_sighting-len_example :
    let r = (count_sighting (heap_of 3) 1500 nodes).0 in
    ((heap_of 3).len ≤ r.len)
    × (r.len ≤ roof)
    × (roof < Heap.max_heap_node_num)
    × (r.cmp ≡ elem_compare)
count_sighting-len_example = count_sighting-len (heap_of 3) 1500 nodes (omega arith)

-- The node 1600 does not stand in the heap, but its record says that it stands at the root.
abbrev stale : Nodes
stale = update nodes 1600 (record (nodes 1600) { heap_index = pos 0 })

count_sighting_stale_example :
    let r = (count_sighting (heap_of 3) 1600 stale).0 in
    (r.len ≡ 3) × ((q : ℕ) → q < 3 → r.heap q ≢ 1600)
count_sighting_stale_example =
    count_sighting_stale (heap_of 3) 1600 stale 0 refl (omega arith) (λ q h. omega arith)

elem_compare-Compares_example : Compares elem_compare (count_of (sighted 1 nodes)) (sighted 1 nodes)
elem_compare-Compares_example = elem_compare-Compares (sighted 1 nodes) (small 1)
