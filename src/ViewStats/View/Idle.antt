-- ===== src/ViewStats/View/Idle.antt =====
-- The count of a view of src/log_view_stats.c, and the two rates: what a new view has and the operations
-- of the view keep.
use logstats.Base.{
  ◌≡◌, refl, some, ltb, ◌==◌, length, Ensures, ensures_some, ensures_none, ensures_bind, ensures_if,
  ensures_option, ensures_self,
}
use logstats.NameTree.{Blocks, name_tree_insert}
use logstats.NameTree.Create.{Sizes, name_tree_create}
use logstats.NameTree.Tree.{SearchTree, Name}
use logstats.ViewStats.View.{
  View, ViewStatsBlocks, max_view_length, view_stats_create, view_stats_insert_name,
  view_stats_insert_ip,
}

module _ (rb : SearchTree) where
  -- A view that has counted nothing: 0 requests per second, and a rate of success of 1.
  pub record Idle (vs : View rb) : Type 0 where
    pub count : vs.count ≡ 0
    pub last_count : vs.last_count ≡ 0
    pub qps : vs.qps.num ≡ 0
    pub success_rate : vs.success_rate.num ≡ vs.success_rate.den

  pub view_stats_create-Idle :
      (sizes : Sizes) (blocks : ViewStatsBlocks) (name : Name)
      → Ensures (Ensures Idle) (view_stats_create rb sizes blocks name)
  unfolding view_stats_create
  view_stats_create-Idle sizes blocks name =
      let names = name_tree_create rb sizes blocks.name_tree blocks.name_world in
      let ips = name_tree_create rb sizes blocks.ip_tree blocks.ip_world in
      ensures_if (ltb max_view_length (length name)) _ _ (ensures_some ensures_none) (
        ensures_if (blocks.vs == 0) _ _ (ensures_some ensures_none) (
          ensures_bind _ names _ (ensures_self names) λ n e.
            ensures_option n _ _ (ensures_some ensures_none) λ a f.
              ensures_bind _ ips _ (ensures_self ips) λ i g.
                ensures_option i _ _ (ensures_some ensures_none) λ b j.
                  ensures_if (ltb (length name) max_view_length) _ _
                    (ensures_some (
                      ensures_some (record {
                        count = refl;
                        last_count = refl;
                        qps = refl;
                        success_rate = refl;
                      })))
                    ensures_none))

  pub view_stats_insert_name-Idle :
      (vs : View rb) (blocks : Blocks) (name : Name)
      → Idle vs
      → Ensures Idle (view_stats_insert_name rb vs blocks name)
  unfolding view_stats_insert_name
  view_stats_insert_name-Idle vs blocks name h =
      let run = name_tree_insert rb vs.name_tree vs.name_world blocks (some name) in
      ensures_bind _ run _ (ensures_self run) λ r e. ensures_some (record {
        count = h.count;
        last_count = h.last_count;
        qps = h.qps;
        success_rate = h.success_rate;
      })

  pub view_stats_insert_ip-Idle :
      (vs : View rb) (blocks : Blocks) (ip : Name)
      → Idle vs
      → Ensures Idle (view_stats_insert_ip rb vs blocks ip)
  unfolding view_stats_insert_ip
  view_stats_insert_ip-Idle vs blocks ip h =
      let run = name_tree_insert rb vs.ip_tree vs.ip_world blocks (some ip) in
      ensures_bind _ run _ (ensures_self run) λ r e. ensures_some (record {
        count = h.count;
        last_count = h.last_count;
        qps = h.qps;
        success_rate = h.success_rate;
      })
