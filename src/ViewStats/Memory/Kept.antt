-- ===== src/ViewStats/Memory/Kept.antt =====
-- What view_stats_set_memsize keeps of a view: its heaps, counters and rates.
use logstats.Base.{
  ℕ, zero, suc, ◌+◌, none, some, ltb, ◌==◌, Ensures, ensures_some, ensures_none, ensures_bind,
  ensures_if, ensures_self,
}
use logstats.Lru
use logstats.Lru.{LruList}
use logstats.NameTree.{NameTree, World, name_tree_delete}
use logstats.NameTree.Create.{Sizes}
use logstats.NameTree.Roof.{InRoof, name_tree_delete-InRoof}
use logstats.NameTree.Tree.{SearchTree}
use logstats.ViewStats.View.{View, view_stats_get_size}
use logstats.ViewStats.View.Bounds.{Bounded}
use logstats.ViewStats.View.Idle.{Idle}
use logstats.ViewStats.Memory.{evict_loop, view_stats_set_memsize}

module _ (rb : SearchTree) where
  evict_loop-InRoof :
      (fuel expect_size : ℕ) (size : NameTree rb → ℕ) (t : NameTree rb) (w : World)
      → InRoof t.heap
      → Ensures
          (λ (r : NameTree rb × World). InRoof r.0.heap)
          (evict_loop rb fuel expect_size size t w)
  unfolding evict_loop
  evict_loop-InRoof zero expect_size size t w h = ensures_none
  evict_loop-InRoof (suc fuel) expect_size size t w h =
      let tail = Lru.lru_list_remove_tail t.lru w.lru_memory in
      ensures_if (ltb expect_size (size t)) _ _
        (ensures_bind _ tail _ (ensures_self tail) λ r e.
          let name = (w.nodes r.0).fqdn in
          let left = record t { lru = r.1 } in
          let v = record w { lru_memory = r.2 } in
          ensures_if (r.0 == 0) _ _ (ensures_some h) (
            ensures_bind _ (name_tree_delete rb left v (some name) none) _
              (name_tree_delete-InRoof rb left v name h)
              λ q f. evict_loop-InRoof fuel expect_size size q.1 q.2 f))
        (ensures_some h)

  module _ (sizes : Sizes) where
    pub view_stats_set_memsize-Bounded :
        (vs : View rb) (expect_size : ℕ)
        → Bounded rb vs
        → Ensures (Bounded rb) (view_stats_set_memsize rb sizes vs expect_size)
    unfolding view_stats_set_memsize
    view_stats_set_memsize-Bounded vs expect_size h =
        let size = λ (t : NameTree rb). view_stats_get_size rb sizes t vs.ip_tree in
        let names =
          evict_loop rb (vs.name_tree.lru.count + 1) expect_size size vs.name_tree vs.name_world in
        ensures_bind _ names _
          (evict_loop-InRoof (vs.name_tree.lru.count + 1) expect_size size vs.name_tree
            vs.name_world h.names)
          λ n e.
            let rest = λ (t : NameTree rb). view_stats_get_size rb sizes n.0 t in
            let ips =
              evict_loop rb (vs.ip_tree.lru.count + 1) expect_size rest vs.ip_tree vs.ip_world in
            ensures_bind _ ips _
              (evict_loop-InRoof (vs.ip_tree.lru.count + 1) expect_size rest vs.ip_tree vs.ip_world
                h.ips)
              λ i f.
                ensures_some (record { names = e; ips = f; counters = h.counters; name = h.name })

    pub view_stats_set_memsize-Idle :
        (vs : View rb) (expect_size : ℕ)
        → Idle rb vs
        → Ensures (Idle rb) (view_stats_set_memsize rb sizes vs expect_size)
    unfolding view_stats_set_memsize
    view_stats_set_memsize-Idle vs expect_size h =
        let size = λ (t : NameTree rb). view_stats_get_size rb sizes t vs.ip_tree in
        let names =
          evict_loop rb (vs.name_tree.lru.count + 1) expect_size size vs.name_tree vs.name_world in
        ensures_bind _ names _ (ensures_self names) λ n e.
          let rest = λ (t : NameTree rb). view_stats_get_size rb sizes n.0 t in
          let ips =
            evict_loop rb (vs.ip_tree.lru.count + 1) expect_size rest vs.ip_tree vs.ip_world in
          ensures_bind _ ips _ (ensures_self ips) λ i f. ensures_some (record {
            count = h.count;
            last_count = h.last_count;
            qps = h.qps;
            success_rate = h.success_rate;
          })
