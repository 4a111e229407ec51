-- ===== src/ViewStats/Values.antt =====
-- The replies of src/log_view_stats.c that hold no rate.
use logstats.Base.{
  ◌≡◌, refl, ℤ, ℕ, pos, negsuc, Option, none, Ensures, ensures_some, ensures_none, ensures_option,
}
use logstats.Heap
use logstats.Heap.{Heap}
use logstats.MemPool.{Ptr}
use logstats.NameTree.{Nodes}
use logstats.NameTree.Tree.{Name}
use logstats.ViewStats.{
  Counters, StatsReply, view_stats_result, view_stats_result1, view_stats_get_rcode,
  view_stats_get_rtype,
}

abbrev pub NoRate : StatsReply → Type 0
NoRate reply = reply.value ≡ none

pub view_stats_result-NoRate :
    (heap : Heap Ptr Nodes) (nodes : Nodes) (key : Name) (topn : ℤ) (block : Option (ℕ → Ptr))
    → Ensures (Ensures NoRate) (view_stats_result heap nodes key topn block)
unfolding view_stats_result
view_stats_result-NoRate heap nodes key (negsuc _) block = ensures_none
view_stats_result-NoRate heap nodes key (pos topn) block =
    ensures_option (Heap.heap_copy heap block) _ _ (ensures_some ensures_none)
      λ copy e. ensures_some (ensures_some refl)

pub view_stats_get_rcode-NoRate : (vs : Counters) → NoRate (view_stats_get_rcode vs)
unfolding view_stats_get_rcode view_stats_result1
view_stats_get_rcode-NoRate vs = refl

pub view_stats_get_rtype-NoRate : (vs : Counters) → NoRate (view_stats_get_rtype vs)
unfolding view_stats_get_rtype view_stats_result1
view_stats_get_rtype-NoRate vs = refl
