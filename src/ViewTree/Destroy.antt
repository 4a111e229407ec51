-- ===== src/ViewTree/Destroy.antt =====
-- view_tree_destory of src/log_view_tree.c frees the statistics of every view once, and every node of the
-- list.
use logstats.Base.{◌≡◌, refl, ◌∙◌, false, Option, none, some, List, [], ◌∷◌, ◌==◌, update, arith}
use logstats.Lru.Seg.{Cells}
use logstats.Lru.Walk.{Freed, lru_list_destroy-Freed}
use logstats.MemPool.{Ptr}
use logstats.NameTree.Tree.{SearchTree, Name, TreeNode}
use logstats.ViewStats.View.{View}
use logstats.ViewTree.{
  ViewTree, ViewMemory, ViewTreeNode, view_stats_destory, destroy_entries, view_tree_destory,
}
use logstats.ViewTree.Fresh.{Elsewhere}
use logstats.ViewTree.Freeable.{AllFreeable, AllFreeable-freed, view_stats_destory_run}
use logstats.ViewTree.Live.{Live, Apart, Allocated, Live-drop, load_stats-Allocated}
use logstats.ViewTree.Shrink.{Managed}

module _ (rb : SearchTree) where
  -- The statistics of every entry are free.
  abbrev pub AllFree :
      (Ptr → ViewTreeNode) → (Ptr → Option (View rb)) → List (Name × TreeNode) → Type 0
  AllFree views stats [] = Unit {0}
  AllFree views stats ((k, (node, p)) ∷ rest) =
      (stats (views p).vs ≡ none) × AllFree views stats rest

  -- What is left where the statistics of the entries are freed.
  pub record Emptied (w : ViewMemory rb) (es : List (Name × TreeNode)) (v : ViewMemory rb)
      : Type 0 where
    pub views : v.views ≡ w.views
    pub lru_memory : v.lru_memory ≡ w.lru_memory
    pub freed : AllFree w.views v.stats es
    pub others : (a : Ptr) → Elsewhere rb w.views a es → v.stats a ≡ w.stats a

  destroy_one :
      (w : ViewMemory rb) (p : Ptr)
      → Allocated rb w.views w.stats p
      → AllFreeable rb w.stats
      → view_stats_destory rb w (w.views p).vs
        ≡ some (record w { stats = update w.stats (w.views p).vs none })
  destroy_one w p h all =
      view_stats_destory_run rb w (w.views p).vs h.vs (load_stats-Allocated rb w p h) h.sound
        (all (w.views p).vs h.vs h.there)

  Apart-Elsewhere :
      (views : Ptr → ViewTreeNode) (p : Ptr) (es : List (Name × TreeNode))
      → Apart rb views p es
      → Elsewhere rb views (views p).vs es
  Apart-Elsewhere views p [] h = tt
  Apart-Elsewhere views p ((k, (node, q)) ∷ es) h = (h.0, Apart-Elsewhere views p es h.1)

  destroy_entries-Emptied :
      (es : List (Name × TreeNode)) (w : ViewMemory rb)
      → Live rb w.views w.stats es
      → AllFreeable rb w.stats
      → (v : ViewMemory rb) × (destroy_entries rb w es ≡ some v) × Emptied w es v
  unfolding destroy_entries
  destroy_entries-Emptied [] w h all =
      (w, refl, record { views = refl; lru_memory = refl; freed = tt; others = λ a e. refl })
  destroy_entries-Emptied ((k, (node, p)) ∷ es) w h all =
      let a = (w.views p).vs in
      let w1 : ViewMemory rb = record w { stats = update w.stats a none } in
      let (v, run, left) =
        destroy_entries-Emptied es w1 (Live-drop rb w.views w.stats k node p [] es h)
          (AllFreeable-freed rb w.stats a all) in
      let here : w1.stats a ≡ none = ground arith in
      (
        v,
        rw (destroy_one w p h.0 all) run,
        record {
          views = left.views;
          lru_memory = left.lru_memory;
          freed = (left.others a (Apart-Elsewhere w.views p es h.1) ∙ here, left.freed);
          others = λ b e.
              let miss : (a == b) ≡ false = ground (arith, e.0) in left.others b e.1 ∙ rw miss refl;
        },
      )

  -- What is left of a tree of views and its list.
  pub record Destroyed (t : ViewTree rb) (w : ViewMemory rb) (xs : Cells) (v : ViewMemory rb)
      : Type 0 where
    pub views : v.views ≡ w.views
    pub freed : AllFree w.views v.stats (rb.in_order t.rbtree)
    pub others : (a : Ptr) → Elsewhere rb w.views a (rb.in_order t.rbtree) → v.stats a ≡ w.stats a
    pub list : Freed w.lru_memory xs v.lru_memory

  -- Where list, tree and statistics agree and the chunks of the pools are linked, view_tree_destory ends with
  -- its loops over chunks and nodes, frees the statistics of every view once
  -- and every node of the list, and touches no others.
  pub view_tree_destory-Destroyed :
      (t : ViewTree rb) (w : ViewMemory rb) (xs : Cells)
      → Managed rb t w xs
      → AllFreeable rb w.stats
      → (v : ViewMemory rb) × (view_tree_destory rb t w ≡ some v) × Destroyed t w xs v
  unfolding view_tree_destory
  view_tree_destory-Destroyed t w xs h all =
      let (v, run, left) = destroy_entries-Emptied (rb.in_order t.rbtree) w h.live all in
      let (memory, free, freed) = lru_list_destroy-Freed w.lru_memory t.lrulist xs h.list in
      (
        record v { lru_memory = memory },
        rw (run, left.lru_memory, free) refl,
        record { views = left.views; freed = left.freed; others = left.others; list = freed },
      )
