-- ===== src/ViewTree/Sound.antt =====
-- A new view of src/log_view_stats.c: both of its trees agree with their lists.
use logstats.Base.{
  ltb, ◌==◌, length, [], Ensures, ensures_some, ensures_none, ensures_bind, ensures_if,
  ensures_option,
}
use logstats.NameTree.Create.{Sizes, name_tree_create}
use logstats.NameTree.Create.Empty.{name_tree_create-Holds}
use logstats.NameTree.Tree.{SearchTree, Name}
use logstats.ViewStats.View.{ViewStatsBlocks, max_view_length, view_stats_create}
use logstats.ViewTree.Live.{Sound}

pub view_stats_create-Sound :
    (rb : SearchTree) (sizes : Sizes) (blocks : ViewStatsBlocks) (name : Name)
    → Ensures (Ensures (Sound rb)) (view_stats_create rb sizes blocks name)
unfolding view_stats_create
view_stats_create-Sound rb sizes blocks name =
    let names = name_tree_create rb sizes blocks.name_tree blocks.name_world in
    let ips = name_tree_create rb sizes blocks.ip_tree blocks.ip_world in
    ensures_if (ltb max_view_length (length name)) _ _ (ensures_some ensures_none) (
      ensures_if (blocks.vs == 0) _ _ (ensures_some ensures_none) (
        ensures_bind _ names _ (name_tree_create-Holds rb sizes blocks.name_tree blocks.name_world)
          λ n e. ensures_option n _ _ (ensures_some ensures_none) λ a f.
            ensures_bind _ ips _ (name_tree_create-Holds rb sizes blocks.ip_tree blocks.ip_world)
              λ i g. ensures_option i _ _ (ensures_some ensures_none) λ b j.
                ensures_if (ltb (length name) max_view_length) _ _
                  (ensures_some (
                    ensures_some (record {
                      names = [];
                      holds_names = e.holds a f;
                      ips = [];
                      holds_ips = g.holds b j;
                    })))
                  ensures_none))
