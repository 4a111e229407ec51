-- ===== src/NameTree/Positions.antt =====
-- The heap indices that the nodes of a name tree carry: right for the nodes in the heap, and out of
-- date for a node that was replaced.
use logstats.Base.{
  ℕ, ◌<◌, ◌≡◌, ◌≢◌, refl, sym, ap, ◌∙◌, Bool, Bool-cases, inl, inr, some, ℤ, pos, negsuc, positive,
  ◌==◌, arith, leb→le, count_of_none, none_of_count,
}
use logstats.Heap
use logstats.Heap.{Heap, notify}
use logstats.Heap.Replace.{heap_adjust_siftdown-count}
use logstats.Heap.Index.{
  Records, Tracked, heap_insert-Tracked, heap_adjust_siftdown-Tracked, heap_replace_least-Tracked,
}
use logstats.Heap.Shape.{heap_reach_roof-eq, heap_replace_least_refuses}
use logstats.MemPool.{Ptr}
use logstats.NameTree.{Nodes, elem_insert, update_heap, count_sighting, roof}
use logstats.NameTree.Bump.{sighted}

-- `nv->heap_index`
abbrev pub heap_index_of : Nodes → Ptr → ℤ
heap_index_of nodes e = (nodes e).heap_index

elem_insert-Records : Records heap_index_of (some elem_insert)
unfolding Heap.notify
elem_insert-Records = record { here = λ e i s. ground arith; other = λ e e' i s ne. ground arith }

-- Every node in the heap carries its position.
abbrev pub Indexed : Heap Ptr Nodes → Nodes → Type 0
Indexed heap nodes = Tracked heap_index_of heap.len heap.heap nodes

-- Counting the sighting changes no heap index.
sighted-Indexed :
    (heap : Heap Ptr Nodes) (nv : Ptr) (nodes : Nodes)
    → Indexed heap nodes
    → Indexed heap (sighted nv nodes)
sighted-Indexed heap nv nodes t q h = ground (arith, t q h)

update_heap-Indexed :
    (heap : Heap Ptr Nodes) (nv : Ptr) (i : ℤ) (n : Nodes)
    → Indexed heap n
    → (n nv).heap_index ≡ i
    → ((j : ℕ) → i ≡ pos j → j < heap.len)
    → let r = update_heap heap nv i n in Indexed r.0 r.1
unfolding update_heap
update_heap-Indexed heap nv (pos i) n t e within =
    heap_adjust_siftdown-Tracked heap_index_of (some elem_insert) elem_insert-Records heap n t i
      (within i refl)
update_heap-Indexed heap nv (negsuc i) n t e within =
    let absent : (q : ℕ) → q < heap.len → nv ≢ heap.heap q =
      λ q h same. ground (arith, ap (heap_index_of n) same, t q h) in
    elim (Bool-cases (Heap.heap_reach_roof heap roof)) [
      | inr room ↦
          rw room
            (heap_insert-Tracked heap_index_of (some elem_insert) elem_insert-Records heap n t nv
              absent).0
      | inl full ↦ elim (Bool-cases (Heap.heap_min_less_than heap n nv)) [
        | inl less ↦
            rw (full, less)
              (elim (Bool-cases (positive (heap.cmp n nv (heap.heap 0)))) [
                | inl above ↦
                    (heap_replace_least-Tracked heap_index_of (some elem_insert) elem_insert-Records
                      heap n t nv
                      (omega
                        (arith, leb→le roof heap.len (sym (heap_reach_roof-eq heap roof) ∙ full)))
                      absent above).0
                | inr refused ↦
                    rw (heap_replace_least_refuses heap nv (some elem_insert) n refused) t
              ])
        | inr least ↦ rw (full, least) t
      ]
    ]

-- Where each node in the heap has its position on record, and a heap index that is not -1 is one of
-- the heap, counting a sighting keeps the position of every node in the heap on record, that of a node that
-- enters it included.
pub count_sighting-Indexed :
    (heap : Heap Ptr Nodes) (nv : Ptr) (nodes : Nodes)
    → Indexed heap nodes
    → ((j : ℕ) → (nodes nv).heap_index ≡ pos j → j < heap.len)
    → let r = count_sighting heap nv nodes in Indexed r.0 r.1
unfolding count_sighting
count_sighting-Indexed heap nv nodes t within =
    let n = sighted nv nodes in
    update_heap-Indexed heap nv (n nv).heap_index n (sighted-Indexed heap nv nodes t) refl
      (λ j e. within j (ground arith))

update_heap_stale :
    (heap : Heap Ptr Nodes) (nv : Ptr) (k : ℤ) (n : Nodes) (i : ℕ)
    → k ≡ pos i
    → i < heap.len
    → ((q : ℕ) → q < heap.len → heap.heap q ≢ nv)
    → let r = (update_heap heap nv k n).0 in
      (r.len ≡ heap.len) × ((q : ℕ) → q < heap.len → r.heap q ≢ nv)
unfolding update_heap
update_heap_stale heap nv (negsuc k) n i e h absent = absurd (cc)
update_heap_stale heap nv (pos k) n i e h absent =
    let same : k ≡ i = ground arith in
    let is_nv : Ptr → Bool = λ p. p == nv in
    let kept = heap_adjust_siftdown-count heap k (some elem_insert) n is_nv (omega arith) in
    let start = count_of_none is_nv heap.heap heap.len (λ q l. ground (arith, absent q l)) in
    (kept.0, λ q l at. ground (arith, none_of_count is_nv _ heap.len q (kept.1 ∙ start) l))

-- A node that is not in the heap, but whose heap index is that of an entry, does not enter the heap
-- when it is seen again.
pub count_sighting_stale :
    (heap : Heap Ptr Nodes) (nv : Ptr) (nodes : Nodes) (i : ℕ)
    → (nodes nv).heap_index ≡ pos i
    → i < heap.len
    → ((q : ℕ) → q < heap.len → heap.heap q ≢ nv)
    → let r = (count_sighting heap nv nodes).0 in
      (r.len ≡ heap.len) × ((q : ℕ) → q < heap.len → r.heap q ≢ nv)
unfolding count_sighting
count_sighting_stale heap nv nodes i e h absent =
    let n = sighted nv nodes in
    update_heap_stale heap nv (n nv).heap_index n i (ground arith) h absent
