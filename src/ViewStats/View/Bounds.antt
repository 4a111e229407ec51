-- ===== src/ViewStats/View/Bounds.antt =====
-- The heaps and the counters of a view of src/log_view_stats.c.
use logstats.Base.{
  ◌<◌, some, ltb, ◌==◌, length, arith, Ensures, ensures_some, ensures_none, ensures_bind,
  ensures_if, ensures_guard, ltb→lt, ensures_option,
}
use logstats.NameTree.{Blocks, name_tree_insert}
use logstats.NameTree.Create.{Sizes, name_tree_create}
use logstats.NameTree.Create.Roof.{name_tree_create-InRoof}
use logstats.NameTree.Roof.{InRoof, name_tree_insert-InRoof}
use logstats.NameTree.Tree.{SearchTree, Name}
use logstats.ViewStats.Counts.{InWords}
use logstats.ViewStats.View.{
  View, ViewStatsBlocks, max_view_length, view_stats_create, view_stats_insert_name,
  view_stats_insert_ip,
}

module _ (rb : SearchTree) where
  -- Both heaps of at most 1000 entries, counters of 32 bits, and a name that fits into its array.
  pub record Bounded (vs : View rb) : Type 0 where
    pub names : InRoof vs.name_tree.heap
    pub ips : InRoof vs.ip_tree.heap
    pub counters : InWords vs.counters
    pub name : length vs.name < max_view_length

  pub view_stats_create-Bounded :
      (sizes : Sizes) (blocks : ViewStatsBlocks) (name : Name)
      → Ensures (Ensures Bounded) (view_stats_create rb sizes blocks name)
  unfolding view_stats_create
  view_stats_create-Bounded sizes blocks name =
      let names = name_tree_create rb sizes blocks.name_tree blocks.name_world in
      let ips = name_tree_create rb sizes blocks.ip_tree blocks.ip_world in
      ensures_if (ltb max_view_length (length name)) _ _ (ensures_some ensures_none) (
        ensures_if (blocks.vs == 0) _ _ (ensures_some ensures_none) (
          ensures_bind _ names _
            (name_tree_create-InRoof rb sizes blocks.name_tree blocks.name_world)
            λ n e. ensures_option n _ _ (ensures_some ensures_none) λ a f.
              ensures_bind _ ips _ (name_tree_create-InRoof rb sizes blocks.ip_tree blocks.ip_world)
                λ i g. ensures_option i _ _ (ensures_some ensures_none) λ b j.
                  ensures_guard (ltb (length name) max_view_length) _ λ short. ensures_some (
                    ensures_some (record {
                      names = e.holds a f;
                      ips = g.holds b j;
                      counters = record { rcode = λ k. omega arith; rtype = λ k. omega arith };
                      name = ltb→lt (length name) max_view_length short;
                    }))))

  pub view_stats_insert_name-Bounded :
      (vs : View rb) (blocks : Blocks) (name : Name)
      → Bounded vs
      → Ensures Bounded (view_stats_insert_name rb vs blocks name)
  unfolding view_stats_insert_name
  view_stats_insert_name-Bounded vs blocks name h =
      ensures_bind _ (name_tree_insert rb vs.name_tree vs.name_world blocks (some name)) _
        (name_tree_insert-InRoof rb vs.name_tree vs.name_world blocks name h.names)
        λ r e.
          ensures_some (record { names = e; ips = h.ips; counters = h.counters; name = h.name })

  pub view_stats_insert_ip-Bounded :
      (vs : View rb) (blocks : Blocks) (ip : Name)
      → Bounded vs
      → Ensures Bounded (view_stats_insert_ip rb vs blocks ip)
  unfolding view_stats_insert_ip
  view_stats_insert_ip-Bounded vs blocks ip h =
      ensures_bind _ (name_tree_insert rb vs.ip_tree vs.ip_world blocks (some ip)) _
        (name_tree_insert-InRoof rb vs.ip_tree vs.ip_world blocks ip h.ips)
        λ r e.
          ensures_some (record { names = h.names; ips = e; counters = h.counters; name = h.name })
