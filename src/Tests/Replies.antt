-- ===== src/Tests/Replies.antt =====
-- Replies and counters of src/log_view_stats.c.
use logstats.Base.{
  ℕ, ◌+◌, ◌-◌, ◌%◌, ◌^◌, ◌<◌, ◌≡◌, ◌↔◌, ◌⊎◌, refl, arith, pos, negsuc, ltb, ◌==◌, bit, none, some,
  [], ◌∷◌, get_elem?, if◌then◌else◌,
}
use logstats.Heap.{Heap}
use logstats.Heap.Order.{Ordered}
use logstats.HouseKeeper.{absolute_diff}
use logstats.HouseKeeper.Diff.{absolute_diff-step}
use logstats.MemPool.{Ptr}
use logstats.NameTree.{Nodes, elem_compare}
use logstats.NameTree.Compare.{elem_compare-Compares}
use logstats.ViewStats.{
  bytes, rcode_names, rtype_names, rcode_max_num, rtype_max_num, rcode_index, rtype_index,
  same_name, Counters, StatsReply, view_stats_rcode_increment, view_stats_rtype_increment,
  view_stats_result,
}
use logstats.ViewStats.Replies.{sightings, Top, view_stats_result-Top}
use logstats.ViewStats.Tables.{
  Unknown, rcode_index_lem, rtype_index-none, view_stats_rcode_increment-counts,
  view_stats_rcode_increment-none_iff, view_stats_rtype_increment-counts,
  view_stats_rtype_increment-none_iff,
}

-- The node at the address `e`, up to 4, was seen `e` times.
abbrev nodes : Nodes
nodes e = record { fqdn = e ∷ []; count = if ltb e 5 then e else 0; heap_index = negsuc 0; ptr = 0 }

abbrev four : Heap Ptr Nodes
four = record { heap = λ i. i + 1; len = 4; max_size = 10000; cmp = elem_compare }

four-Ordered : Ordered (sightings nodes) 4 (λ i. i + 1)
four-Ordered p c h k l = ground arith

view_stats_result-Top_example :
    (r : StatsReply) × (view_stats_result four nodes [] (pos 2) (some (λ i. 0)) ≡ some (some r))
    × Top four nodes [] 2 r
view_stats_result-Top_example =
    view_stats_result-Top four nodes [] 2 (λ i. 0) (elem_compare-Compares nodes (λ e. ground arith))
      four-Ordered

rcode_index_lem_example :
    ((j : ℕ) × (rcode_index (bytes "SERVFAIL") ≡ some j)
      × (j < rcode_max_num)
      × (get_elem? rcode_names j ≡ some (some (bytes "SERVFAIL"))))
    ⊎ ((rcode_index (bytes "SERVFAIL") ≡ some 6) × Unknown (bytes "SERVFAIL") rcode_names)
rcode_index_lem_example = rcode_index_lem (bytes "SERVFAIL")

spf-Unknown : Unknown (bytes "SPF") rtype_names
unfolding same_name
spf-Unknown =
    (refl, (refl, (refl, (refl, (refl, (refl, (refl, (refl, (refl, (refl, (refl, tt)))))))))))

rtype_index-none_example : rtype_index (bytes "SPF") ≡ none
rtype_index-none_example = rtype_index-none (bytes "SPF") spf-Unknown

abbrev zeros : Counters
zeros = record { rcode = λ i. 0; rtype = λ i. 0 }

view_stats_rcode_increment-counts_example :
    (r : Counters) × (view_stats_rcode_increment zeros (pos 2) ≡ some r)
    × ((j : ℕ) → r.rcode j ≡ (if 2 == j then (0 + 1) % 2 ^ 32 else 0))
    × (r.rtype ≡ zeros.rtype)
view_stats_rcode_increment-counts_example = view_stats_rcode_increment-counts zeros 2 (omega arith)

view_stats_rcode_increment-none_iff_example :
    view_stats_rcode_increment zeros (pos 7) ≡ none ↔ 7 ≡ rcode_max_num
view_stats_rcode_increment-none_iff_example = view_stats_rcode_increment-none_iff zeros 7

view_stats_rtype_increment-counts_example :
    (r : Counters) × (view_stats_rtype_increment zeros (pos 2) ≡ some r)
    × ((j : ℕ) → r.rtype j ≡ (if 2 == j then (0 + 1) % 2 ^ 32 else 0))
    × (r.rcode ≡ zeros.rcode)
view_stats_rtype_increment-counts_example = view_stats_rtype_increment-counts zeros 2 (omega arith)

view_stats_rtype_increment-none_iff_example :
    view_stats_rtype_increment zeros (pos 12) ≡ none ↔ 12 ≡ rtype_max_num
view_stats_rtype_increment-none_iff_example = view_stats_rtype_increment-none_iff zeros 12

-- The counter wrapped from 2^32 - 1 to 4: the step is 5, and absolute_diff gives 4.
absolute_diff-step_example :
    absolute_diff 4294967295 4 + bit (ltb 4 4294967295) ≡ (4 + 2 ^ 32 - 4294967295) % 2 ^ 32
absolute_diff-step_example = absolute_diff-step 4294967295 4 (omega arith) (omega arith)
