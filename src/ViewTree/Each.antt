-- ===== src/ViewTree/Each.antt =====
-- What holds of the statistics of every view, through the operations of src/log_view_tree.c.
use logstats.Base.{
  ◌>>=◌, ℕ, zero, suc, ◌+◌, ◌^◌, List, [], ◌∷◌, ltb, ◌==◌, ◌&&◌, ◌||◌, Ensures, ensures_some,
  ensures_none, ensures_bind, ensures_if, ensures_option, ensures_self, Each, put-Each, free-Each,
}
use logstats.Lru
use logstats.Lru.{LruList}
use logstats.MemPool.{Ptr}
use logstats.NameTree.Create.{Sizes, destroy_rounds, name_tree_destroy}
use logstats.NameTree.Tree.{SearchTree, Name, TreeNode}
use logstats.ViewStats.View.{View}
use logstats.ViewStats.Memory.{view_stats_set_memsize}
use logstats.ViewTree.{
  ViewTree, ViewMemory, ViewBlocks, copy_name, load_stats, view_tree_insert, view_stats_destory,
  view_tree_delete, shrink_loop, shrink_last, view_tree_get_size, view_tree_the_only_one,
  view_tree_set_memsize, destroy_entries, view_tree_destory,
}

module _ (rb : SearchTree) (P : View rb → Type 0) where
  pub load_stats-Each :
      (w : ViewMemory rb) (p : Ptr) → Each P w.stats → Ensures P (load_stats rb w p)
  unfolding load_stats
  load_stats-Each w p h = ensures_if (p == 0) _ _ ensures_none (record { holds = h.at p })

  pub view_tree_insert-Each :
      (t : ViewTree rb) (w : ViewMemory rb) (blocks : ViewBlocks) (name : Name) (vs : Ptr)
      → Each P w.stats
      → Ensures
          (λ (r : ℕ × ViewTree rb × ViewMemory rb). Each P r.2.stats)
          (view_tree_insert rb t w blocks name vs)
  unfolding view_tree_insert
  view_tree_insert-Each t w blocks name vs h =
      ensures_if (blocks.vtnode == 0 || blocks.node == 0) _ _ ensures_none (
        ensures_bind _ (copy_name name) _ (ensures_self (copy_name name)) λ text e.
          ensures_option (rb.insert t.rbtree text (blocks.node, blocks.vtnode)) _ _ (ensures_some h)
            λ grown eq.
              let run = Lru.lru_list_insert t.lrulist blocks.vtnode blocks.lru_node w.lru_memory in
              ensures_bind _ run _ (ensures_self run) λ r f. ensures_some h)

  view_stats_destory-Each :
      (w : ViewMemory rb) (p : Ptr)
      → Each P w.stats
      → Ensures (λ (v : ViewMemory rb). Each P v.stats) (view_stats_destory rb w p)
  unfolding view_stats_destory
  view_stats_destory-Each w p h =
      ensures_bind _ (load_stats rb w p) _ (ensures_self (load_stats rb w p)) λ vs e.
        let names =
          name_tree_destroy rb (destroy_rounds rb vs.name_tree) vs.name_tree vs.name_world in
        let ips = name_tree_destroy rb (destroy_rounds rb vs.ip_tree) vs.ip_tree vs.ip_world in
        ensures_bind _ names _ (ensures_self names) λ n f.
          ensures_bind _ ips _ (ensures_self ips) λ i g. ensures_some (free-Each P w.stats p h)

  view_tree_delete-Each :
      (t : ViewTree rb) (w : ViewMemory rb) (name : Name)
      → Each P w.stats
      → Ensures
          (λ (r : ViewTree rb × ViewMemory rb). Each P r.1.stats)
          (view_tree_delete rb t w name)
  unfolding view_tree_delete
  view_tree_delete-Each t w name h =
      ensures_bind _ (copy_name name) _ (ensures_self (copy_name name)) λ text e.
        ensures_option (rb.delete t.rbtree text) _ _ (ensures_some h) λ found eq.
          let vs = (w.views found.0.1).vs in
          ensures_bind _ (view_stats_destory rb w vs) _ (view_stats_destory-Each w vs h)
            λ v f. ensures_some f

  destroy_entries-Each :
      (w : ViewMemory rb) (entries : List (Name × TreeNode))
      → Each P w.stats
      → Ensures (λ (v : ViewMemory rb). Each P v.stats) (destroy_entries rb w entries)
  unfolding destroy_entries
  destroy_entries-Each w [] h = ensures_some h
  destroy_entries-Each w ((k, (node, p)) ∷ rest) h =
      ensures_bind _ (view_stats_destory rb w (w.views p).vs) _
        (view_stats_destory-Each w (w.views p).vs h) λ v e. destroy_entries-Each v rest e

  pub view_tree_destory-Each :
      (t : ViewTree rb) (w : ViewMemory rb)
      → Each P w.stats
      → Ensures (λ (v : ViewMemory rb). Each P v.stats) (view_tree_destory rb t w)
  unfolding view_tree_destory
  view_tree_destory-Each t w h =
      let entries = rb.in_order t.rbtree in
      ensures_bind _ (destroy_entries rb w entries) _ (destroy_entries-Each w entries h) λ v e.
        let run = Lru.lru_list_destroy t.lrulist v.lru_memory in
        ensures_bind _ run _ (ensures_self run) λ m f. ensures_some e

  module _ (sizes : Sizes) where
    shrink_loop-Each :
        (fuel expect_size : ℕ) (t : ViewTree rb) (w : ViewMemory rb)
        → Each P w.stats
        → Ensures
            (λ (r : ViewTree rb × ViewMemory rb). Each P r.1.stats)
            (shrink_loop rb sizes fuel expect_size t w)
    unfolding shrink_loop
    shrink_loop-Each zero expect_size t w h = ensures_none
    shrink_loop-Each (suc fuel) expect_size t w h =
        let size = view_tree_get_size rb sizes t w in
        let run = Lru.lru_list_remove_tail t.lrulist w.lru_memory in
        let next : (p : Ptr) (lru : LruList) (m : Lru.Memory)
            → Ensures (λ (r : ViewTree rb × ViewMemory rb). Each P r.1.stats)
                (do
                  (t', w') ←
                      view_tree_delete rb (record t { lrulist = lru }) (record w { lru_memory = m })
                        (w.views p).name
                  shrink_loop rb sizes fuel expect_size t' w') =
          λ p lru m.
            ensures_bind _
              (view_tree_delete rb (record t { lrulist = lru }) (record w { lru_memory = m })
                (w.views p).name)
              _
              (view_tree_delete-Each (record t { lrulist = lru }) (record w { lru_memory = m })
                (w.views p).name h)
              λ r e. shrink_loop-Each fuel expect_size r.0 r.1 e in
        ensures_bind _ size _ (ensures_self size) λ mem_size e.
          ensures_if (ltb expect_size mem_size && (ltb 1 t.count && ltb t.count (2 ^ 31))) _ _
            (ensures_bind _ run _ (ensures_self run)
              λ r f. ensures_if (r.0 == 0) _ _ ensures_none (next r.0 r.1 r.2))
            (ensures_some h)

    module _
        (cut : (vs : View rb) (size : ℕ)
          → P vs
          → Ensures P (view_stats_set_memsize rb sizes vs size)) where
      shrink_last-Each :
          (expect_size : ℕ) (t : ViewTree rb) (w : ViewMemory rb)
          → Each P w.stats
          → Ensures
              (λ (r : ViewTree rb × ViewMemory rb). Each P r.1.stats)
              (shrink_last rb sizes expect_size t w)
      unfolding shrink_last
      shrink_last-Each expect_size t w h =
          let p = view_tree_the_only_one rb sizes t in
          let vs = (w.views p).vs in
          ensures_if (t.count == 1) _ _
            (ensures_if (p == 0) _ _ (ensures_some h) (
              ensures_bind _ (load_stats rb w vs) _ (load_stats-Each w vs h) λ v e.
                ensures_bind _ (view_stats_set_memsize rb sizes v expect_size) _
                  (cut v expect_size e) λ v' f. ensures_some (put-Each P w.stats vs v' h f)))
            (ensures_some h)

      pub view_tree_set_memsize-Each :
          (t : ViewTree rb) (w : ViewMemory rb) (expect_size : ℕ)
          → Each P w.stats
          → Ensures
              (λ (r : ViewTree rb × ViewMemory rb). Each P r.1.stats)
              (view_tree_set_memsize rb sizes t w expect_size)
      unfolding view_tree_set_memsize
      view_tree_set_memsize-Each t w expect_size h =
          ensures_bind _ (shrink_loop rb sizes (t.lrulist.count + 1) expect_size t w) _
            (shrink_loop-Each (t.lrulist.count + 1) expect_size t w h)
            λ r e. shrink_last-Each expect_size r.0 r.1 e
