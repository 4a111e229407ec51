-- ===== src/ViewStats/Memory/Freeable.antt =====
-- What view_stats_set_memsize of src/log_view_stats.c leaves of a view can still be freed.
use logstats.Base.{
  ℕ, zero, suc, ◌+◌, none, some, ltb, ◌==◌, Ensures, ensures_some, ensures_none, ensures_bind,
  ensures_if, ensures_self,
}
use logstats.Lru
use logstats.NameTree.{NameTree, World, name_tree_delete}
use logstats.NameTree.Chunked.{Chunked, name_tree_delete-Chunked}
use logstats.NameTree.Create.{Sizes}
use logstats.NameTree.Tree.{SearchTree}
use logstats.ViewStats.Memory.{evict_loop, view_stats_set_memsize}
use logstats.ViewStats.View.{View, view_stats_get_size}

module _ (rb : SearchTree) where
  -- The chunks of both trees of a view are linked.
  pub record Freeable (vs : View rb) : Type 0 where
    pub names : Chunked rb vs.name_tree vs.name_world
    pub ips : Chunked rb vs.ip_tree vs.ip_world

  evict_loop-Chunked :
      (fuel expect_size : ℕ) (size : NameTree rb → ℕ) (t : NameTree rb) (w : World)
      → Chunked rb t w
      → Ensures
          (λ (r : NameTree rb × World). Chunked rb r.0 r.1)
          (evict_loop rb fuel expect_size size t w)
  unfolding evict_loop
  evict_loop-Chunked zero expect_size size t w h = ensures_none
  evict_loop-Chunked (suc fuel) expect_size size t w h =
      let tail = Lru.lru_list_remove_tail t.lru w.lru_memory in
      ensures_if (ltb expect_size (size t)) _ _
        (ensures_bind _ tail _ (ensures_self tail) λ r e.
          let name = (w.nodes r.0).fqdn in
          let left = record t { lru = r.1 } in
          let v = record w { lru_memory = r.2 } in
          ensures_if (r.0 == 0) _ _
            (ensures_some (record {
              names = h.names;
              nodes = h.nodes;
              name_chunks = h.name_chunks;
              node_chunks = h.node_chunks;
              few = h.few;
              clear = h.clear;
            }))
            (ensures_bind _ (name_tree_delete rb left v (some name) none) _
              (name_tree_delete-Chunked rb t w r.1 r.2 name h)
              λ q f. evict_loop-Chunked fuel expect_size size q.1 q.2 f))
        (ensures_some h)

  pub view_stats_set_memsize-Freeable :
      (sizes : Sizes) (vs : View rb) (expect_size : ℕ)
      → Freeable vs
      → Ensures Freeable (view_stats_set_memsize rb sizes vs expect_size)
  unfolding view_stats_set_memsize
  view_stats_set_memsize-Freeable sizes vs expect_size h =
      let size = λ (t : NameTree rb). view_stats_get_size rb sizes t vs.ip_tree in
      ensures_bind _
        (evict_loop rb (vs.name_tree.lru.count + 1) expect_size size vs.name_tree vs.name_world) _
        (evict_loop-Chunked (vs.name_tree.lru.count + 1) expect_size size vs.name_tree vs.name_world
          h.names)
        λ n e.
          let rest = λ (t : NameTree rb). view_stats_get_size rb sizes n.0 t in
          ensures_bind _
            (evict_loop rb (vs.ip_tree.lru.count + 1) expect_size rest vs.ip_tree vs.ip_world) _
            (evict_loop-Chunked (vs.ip_tree.lru.count + 1) expect_size rest vs.ip_tree vs.ip_world
              h.ips)
            λ i f. ensures_some (record { names = e; ips = f })
