-- ===== src/HouseKeeper/Flush.antt =====
-- The request "flush" of src/log_topn.c.
use logstats.Base.{◌≡◌, ◌≢◌, refl, sym, subst, false, none, some, [], ◌||◌, ◌==◌, arith}
use logstats.Lru
use logstats.Lru.Seg.{Cells}
use logstats.NameTree.Create.{Sizes}
use logstats.NameTree.Create.Empty.{lru_list_create-IsList}
use logstats.NameTree.Tree.{SearchTree}
use logstats.ViewStats.{StatsReply, bytes}
use logstats.ViewTree.{view_tree_create}
use logstats.ViewTree.Destroy.{Destroyed, view_tree_destory-Destroyed}
use logstats.ViewTree.Freeable.{AllFreeable}
use logstats.ViewTree.Live.{Live}
use logstats.ViewTree.Shrink.{Managed}
use logstats.HouseKeeper.{HouseKeeper, ViewTreeBlocks, house_keeper_clear_stats}
use logstats.HouseKeeper.Requests.{flush_stats}

module _ (rb : SearchTree) (sizes : Sizes) where
  -- malloc finds memory for a new tree of views.
  pub record NewTree (b : ViewTreeBlocks) : Type 0 where
    pub tree : b.tree ≢ 0
    pub rbtree : b.rbtree ≢ 0
    pub lrulist : b.lrulist ≢ 0

  -- The house keeper after a flush: the old views are freed and there are no new ones, but their count is
  -- what the memory held.
  pub record Flushed (k : HouseKeeper rb sizes) (b : ViewTreeBlocks) (xs : Cells)
      (r : HouseKeeper rb sizes × StatsReply) : Type 0 where
    pub reply : r.1.key ≡ bytes "flush"
    pub destroyed : Destroyed rb k.views k.memory xs r.0.memory
    pub limit : r.0.mem_uplimit ≡ k.mem_uplimit
    pub count : r.0.views.count ≡ b.held
    pub managed : b.held ≡ 0 → Managed rb r.0.views r.0.memory []

  -- Where list, tree, count and statistics of the views agree, the chunks of their pools are linked, and
  -- malloc finds memory, a flush succeeds, with the loops of name_tree_destroy over chunks and nodes: it
  -- frees the statistics of every view once and every node of the list. List, tree, count and statistics
  -- agree on no view afterwards if the memory of the new count held 0, which the source does not set.
  pub flush_stats-Flushed :
      (k : HouseKeeper rb sizes) (b : ViewTreeBlocks) (xs : Cells)
      → Managed rb k.views k.memory xs
      → AllFreeable rb k.memory.stats
      → NewTree b
      → (r : HouseKeeper rb sizes × StatsReply) × (flush_stats rb sizes k b ≡ some r)
        × Flushed k b xs r
  unfolding flush_stats house_keeper_clear_stats view_tree_create
  flush_stats-Flushed k b xs h all new =
      let (w, run, gone) = view_tree_destory-Destroyed rb k.views k.memory xs h all in
      let tree : (b.tree == 0) ≡ false = ground (arith, new.tree) in
      let parts : (b.rbtree == 0 || b.lrulist == 0) ≡ false =
        ground (arith, new.rbtree, new.lrulist) in
      (
        (
          record k {
            views = record { rbtree = rb.create; lrulist = Lru.lru_list_create; count = b.held };
            memory = w;
          },
          record {
            key = bytes "flush";
            name = [];
            count = [];
            value = none;
            maybe = some (bytes "success");
          },
        ),
        rw (run, tree, parts) refl,
        record {
          reply = refl;
          destroyed = gone;
          limit = refl;
          count = refl;
          managed = λ zero. record {
            list = lru_list_create-IsList w.lru_memory;
            known = tt;
            covers = λ j n q found. absurd (cc (found, rb.search-create j));
            count = zero;
            live = subst (λ es. Live rb w.views w.stats es) (sym rb.in_order-create) tt;
          };
        },
      )
