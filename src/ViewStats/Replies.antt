-- ===== src/ViewStats/Replies.antt =====
-- The replies of src/log_view_stats.c: the names seen most often, and the counters that are not 0.
use logstats.Base.{
  Option, none, ℕ, zero, suc, ◌+◌, ◌≤◌, ◌<◌, ◌≡◌, refl, sym, subst, ◌∙◌, ap, Bool, some, List, pos,
  ltb, if◌then◌else◌, arith, get_elem?, length, count, count_congr, count_le, ℤ, to_int,
}
use logstats.Heap
use logstats.Heap.{Heap}
use logstats.Heap.Order.{Ordered, Compares}
use logstats.Heap.Sort.{Descending, heap_sort-Descending, heap_sort-count, heap_sort_shape}
use logstats.Heap.Shape.{heap_copy_lem}
use logstats.MemPool.{Ptr}
use logstats.NameTree.{Nodes}
use logstats.NameTree.Tree.{Name}
use logstats.ViewStats.{StatsReply, collect, view_stats_result}

-- The entry `j` of what `collect` returns.
abbrev EntryAt : Nodes → (ℕ → Ptr) → List (Option Name) × List ℤ → (j p : ℕ) → Type 0
EntryAt nodes heap r j p =
    (get_elem? r.0 j ≡ some (some (nodes (heap p)).fqdn))
    × (get_elem? r.1 j ≡ some (to_int (nodes (heap p)).count))

collect_entry :
    (nodes : Nodes) (heap : ℕ → Ptr) (n i j : ℕ)
    → j < suc n
    → ((k : ℕ) → k < n → EntryAt nodes heap (collect nodes heap n (i + 1)) k (i + 1 + k))
    → EntryAt nodes heap (collect nodes heap (suc n) i) j (i + j)
unfolding collect
collect_entry nodes heap n i zero h ih = let here : i + 0 ≡ i = omega arith in rw here (refl, refl)
collect_entry nodes heap n i (suc j) h ih =
    let next : i + suc j ≡ i + 1 + j = omega arith in rw next (ih j (omega arith))

-- What `collect` returns, entry by entry.
collect_entries :
    (nodes : Nodes) (heap : ℕ → Ptr) (n i : ℕ)
    → let r = collect nodes heap n i in
      (length r.0 ≡ n) × (length r.1 ≡ n) × ((j : ℕ) → j < n → EntryAt nodes heap r j (i + j))
unfolding collect
collect_entries nodes heap zero i = (refl, refl, λ j h. elim h [ ])
collect_entries nodes heap (suc n) i =
    let ih = collect_entries nodes heap n (i + 1) in
    (ap suc ih.0, ap suc ih.1, λ j h. collect_entry nodes heap n i j h ih.2)

-- The sighting count of a node.
abbrev pub sightings : Nodes → Ptr → ℕ
sightings nodes e = (nodes e).count

-- The reply holds `n` names with their counts, as 32-bit signed integers: those of the first `n`
-- positions of an order of the heap's elements, each as often as in the heap, with falling counts; above
-- the count at position `k` are the counts of at most `k` of the heap's elements.
pub record Top (heap : Heap Ptr Nodes) (nodes : Nodes) (key : Name) (n : ℕ) (r : StatsReply)
    : Type 0 where
  pub key_same : r.key ≡ key
  pub names : length r.name ≡ n
  pub counts : length r.count ≡ n
  pub order : ℕ → Ptr
  pub entries :
      (j : ℕ)
      → j < n
      → (get_elem? r.name j ≡ some (some (nodes (order j)).fqdn))
        × (get_elem? r.count j ≡ some (to_int (nodes (order j)).count))
  pub elements : (p : Ptr → Bool) → count p order heap.len ≡ count p heap.heap heap.len
  pub descending : Descending (sightings nodes) heap.len order
  pub most :
      (k : ℕ)
      → k < n
      → count (λ e. ltb (sightings nodes (order k)) (sightings nodes e)) heap.heap heap.len ≤ k

-- The first `n` entries of an array that holds the heap's elements in descending order.
Top-collect :
    (heap : Heap Ptr Nodes) (nodes : Nodes) (key : Name) (n : ℕ) (a : ℕ → Ptr)
    → n ≤ heap.len
    → Descending (sightings nodes) heap.len a
    → ((p : Ptr → Bool) → count p a heap.len ≡ count p heap.heap heap.len)
    → let r = collect nodes a n 0 in
      Top heap nodes key n
        (record { key = key; name = r.0; count = r.1; value = none; maybe = none })
Top-collect heap nodes key n a le d same =
    let c = collect_entries nodes a n 0 in
    record {
      key_same = refl;
      names = c.0;
      counts = c.1;
      order = a;
      entries = λ j h.
          let whole : 0 + j ≡ j = omega arith in
          subst (λ p. EntryAt nodes a (collect nodes a n 0) j p) whole (c.2 j h);
      elements = same;
      descending = d;
      most = λ k kn.
          let above : Ptr → Bool = λ p. ltb (sightings nodes (a k)) (sightings nodes p) in
          let low = count_le above a k heap.len (λ i ki il. ground (arith, d k i ki il)) in
          omega (arith, same above, low);
    }

reply_of_copy :
    (heap copy : Heap Ptr Nodes) (nodes : Nodes) (key : Name) (topn : ℕ) (block : ℕ → Ptr)
    → Heap.heap_copy heap (some block) ≡ some copy
    → (n : ℕ) → (Heap.heap_sort copy nodes).len ≡ n
    → let r = collect nodes (Heap.heap_sort copy nodes).heap (if ltb topn n then topn else n) 0 in
      view_stats_result heap nodes key (pos topn) (some block)
      ≡ some (some (record { key = key; name = r.0; count = r.1; value = none; maybe = none }))
unfolding view_stats_result
reply_of_copy heap copy nodes key topn block run n e = rw (run, view_stats_result) (rw e refl)

-- A reply for `topn` names from a heap in order by the counts, where the comparison is that of the
-- counts and malloc finds memory, has `topn` entries, or as many as there are. Entry by entry they are the
-- name and the count, as a 32-bit signed integer, of the elements of the heap in an order in which the
-- counts fall, each element as often as in the heap; above the count at position `k` are those of at most
-- `k` elements of the heap.
pub view_stats_result-Top :
    (heap : Heap Ptr Nodes) (nodes : Nodes) (key : Name) (topn : ℕ) (block : ℕ → Ptr)
    → Compares heap.cmp (sightings nodes) nodes
    → Ordered (sightings nodes) heap.len heap.heap
    → (r : StatsReply) × (view_stats_result heap nodes key (pos topn) (some block) ≡ some (some r))
      × Top heap nodes key (if ltb topn heap.len then topn else heap.len) r
view_stats_result-Top heap nodes key topn block c o =
    let (copy, run, len, cmp, same) = (heap_copy_lem heap block).1 in
    let sorted = Heap.heap_sort copy nodes in
    let least = if ltb topn heap.len then topn else heap.len in
    let ordered : Ordered (sightings nodes) copy.len copy.heap =
      λ p d q r t. ground (arith, same p, same d, o p d, len) in
    let d =
      (heap_sort-Descending copy nodes (sightings nodes)
        (subst (λ f. Compares f (sightings nodes) nodes) (sym cmp) c) ordered).0 in
    let kept : (p : Ptr → Bool) → count p sorted.heap heap.len ≡ count p heap.heap heap.len = λ p.
      subst (λ n. count p sorted.heap n ≡ count p copy.heap n) len (heap_sort-count copy nodes p)
      ∙ count_congr p copy.heap heap.heap heap.len (λ i h. ground (arith, same i)) in
    let r = collect nodes sorted.heap least 0 in
    (
      record { key = key; name = r.0; count = r.1; value = none; maybe = none },
      reply_of_copy heap copy nodes key topn block run heap.len (heap_sort_shape copy nodes ∙ len),
      Top-collect heap nodes key least sorted.heap (ground arith)
          (subst (λ n. Descending (sightings nodes) n sorted.heap) len d) kept,
    )
