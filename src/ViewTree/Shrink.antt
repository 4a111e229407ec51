-- ===== src/ViewTree/Shrink.antt =====
-- The views of src/log_view_tree.c by their last use: list, tree, count and statistics agree, also where the
-- last view is dropped.
pub mod Loop
use logstats.Base.{
  ℕ, zero, suc, ◌+◌, ◌-◌, ◌*◌, ◌%◌, ◌^◌, ◌≤◌, ◌<◌, ◌≡◌, ◌≢◌, ◌⊎◌, Bool, refl, sym, subst, ap, ◌∙◌,
  true, false, Bool-cases, inl, inr, none, some, [], ◌∷◌, ◌++◌, length, length-append, append-nil,
  append_assoc, ltb, ◌==◌, ◌&&◌, update, arith,
}
use logstats.Lru
use logstats.Lru.{LruList}
use logstats.Lru.Listed.{Listed, Listed-drop, Listed-other, OwnCell, OwnCell-rest}
use logstats.Lru.Seg.{Cells, Seg-split, IsList}
use logstats.Lru.Take.{lru_list_remove_tail-Taken}
use logstats.MemPool.{Ptr}
use logstats.NameTree.Create.{Sizes}
use logstats.NameTree.Tree.{SearchTree, Name}
use logstats.ViewStats.Memory.Evict.{last_cases, IsList-of, count_back}
use logstats.ViewStats.View.{View}
use logstats.ViewTree.{
  ViewTree, ViewTreeNode, ViewMemory, stats_node_max_size, load_stats, view_tree_delete,
  view_tree_get_size, shrink_loop,
}
use logstats.ViewTree.Find.{copy_name-short}
use logstats.ViewTree.Freeable.{AllFreeable, AllFreeable-freed, view_stats_destory_run}
use logstats.ViewStats.Memory.Freeable.{Freeable}
use logstats.ViewTree.Live.{Sound, Live, Live-drop, Live-at, load_stats-Allocated, sum_sizes-Live}

module _ (rb : SearchTree) where
  open rb use {Tree, search}

  -- The tree has the node `p` under its name, which is short.
  pub record Entry (views : Ptr → ViewTreeNode) (tree : Tree) (p : Ptr) : Type 0 where
    pub node : Ptr
    pub found : search tree (views p).name ≡ some (node, p)
    pub short : length (views p).name < stats_node_max_size

  -- What the tree has under a name is a view of this name, with its own node in the list.
  abbrev pub Covered : (Ptr → ViewTreeNode) → Cells → Name → Ptr → Type 0
  Covered views = OwnCell (λ q. (views q).name) (λ q. (views q).ptr)

  -- The list, the tree and the count agree on the views `xs`, the one used last first, and the
  -- statistics of every view are allocated.
  pub record Managed (t : ViewTree rb) (w : ViewMemory rb) (xs : Cells) : Type 0 where
    pub list : IsList w.lru_memory t.lrulist xs
    pub known : Listed (λ p. (w.views p).name) (Entry w.views) t.rbtree xs
    pub covers :
        (j : Name) (node p : Ptr) → search t.rbtree j ≡ some (node, p) → Covered w.views xs j p
    pub count : t.count ≡ length xs % 2 ^ 32
    pub live : Live rb w.views w.stats (rb.in_order t.rbtree)

  Entry-other :
      (views : Ptr → ViewTreeNode) (tree left : Tree) (p q : Ptr)
      → ((j : Name) → j ≢ (views p).name → search left j ≡ search tree j)
      → (views q).name ≢ (views p).name
      → Entry views tree q
      → Entry views left q
  Entry-other views tree left p q others ne h = record {
    node = h.node;
    found = others (views q).name ne ∙ h.found;
    short = h.short;
  }

  delete_run :
      (t : ViewTree rb) (w : ViewMemory rb) (name : Name) (vs : View rb) (node p : Ptr)
      (left : Tree)
      → length name < stats_node_max_size
      → rb.delete t.rbtree name ≡ some ((node, p), left)
      → load_stats rb w (w.views p).vs ≡ some vs
      → Sound rb vs
      → Freeable rb vs
      → view_tree_delete rb t w name
        ≡ some (
          record t { rbtree = left; count = (t.count + 2 ^ 32 - 1) % 2 ^ 32 },
          record w { stats = update w.stats (w.views p).vs none },
        )
  unfolding view_tree_delete
  delete_run t w name vs node p left short gone load sound free =
      rw
        (
          copy_name-short name short,
          gone,
          view_stats_destory_run rb w (w.views p).vs vs load sound free,
        )
        refl

  module _ (t : ViewTree rb) (w : ViewMemory rb) where
    -- What a round leaves of a tree with the views `ys` and, last, that of `p`.
    pub drop_view :
        (k p : Ptr) (ys : Cells)
        → Managed t w (ys ++ (k, p) ∷ [])
        → AllFreeable rb w.stats
        → (lru : LruList) × (memory : Lru.Memory) × (r : ViewTree rb × ViewMemory rb)
          × (Lru.lru_list_remove_tail t.lrulist w.lru_memory ≡ some (p, lru, memory))
          × (p ≢ 0)
          × (view_tree_delete rb
                (record t { lrulist = lru })
                (record w { lru_memory = memory })
                (w.views p).name
              ≡ some r)
          × ((r.1).views ≡ w.views)
          × Managed r.0 r.1 ys
          × AllFreeable rb (r.1).stats
    drop_view k p ys h all =
        let name = (w.views p).name in
        let (l, run, taken) = lru_list_remove_tail-Taken w.lru_memory t.lrulist ys k p h.list in
        let (before, e, unlike) =
          Listed-drop (λ q. (w.views q).name) (Entry w.views) t.rbtree k p ys h.known in
        let np : p ≢ 0 = (Seg-split w.lru_memory 0 ys ((k, p) ∷ []) 0 h.list.linked).1.2 in
        let (left, gone, none_left, others) = rb.delete-present t.rbtree name (e.node, p) e.found in
        let (front, back, whole, rest) = rb.in_order-delete t.rbtree left name (e.node, p) gone in
        let live : Live rb w.views w.stats (front ++ (name, (e.node, p)) ∷ back) =
          subst (λ es. Live rb w.views w.stats es) whole h.live in
        let alloc = Live-at rb w.views w.stats name e.node p front back live in
        let t1 : ViewTree rb = record t { lrulist = l.0 } in
        let w1 : ViewMemory rb = record w { lru_memory = l.1 } in
        let freed =
          delete_run t1 w1 name alloc.vs e.node p left e.short gone
            (load_stats-Allocated rb w1 p alloc) alloc.sound
            (all (w.views p).vs alloc.vs alloc.there) in
        (
          l.0,
          l.1,
          (
            record t1 { rbtree = left; count = (t.count + 2 ^ 32 - 1) % 2 ^ 32 },
            record w1 { stats = update w.stats (w.views p).vs none },
          ),
          run,
          np,
          freed,
          refl,
          record {
            list = IsList-of l.1 l.1 l.0 l.0 ys refl refl taken.list;
            known =
                Listed-other (λ q. (w.views q).name) (Entry w.views) t.rbtree left p ys
                  (λ q. Entry-other w.views t.rbtree left p q others) unlike before;
            covers =
                OwnCell-rest (λ q. (w.views q).name) (λ q. (w.views q).ptr) (search t.rbtree)
                  (search left) k p ys h.covers none_left others;
            count = count_back t.count ys (k, p) h.count;
            live =
                subst (λ es. Live rb w.views (update w.stats (w.views p).vs none) es) (sym rest)
                  (Live-drop rb w.views w.stats name e.node p front back live);
          },
          AllFreeable-freed rb w.stats (w.views p).vs all,
        )
