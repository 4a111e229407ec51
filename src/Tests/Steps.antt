-- ===== src/Tests/Steps.antt =====
-- A house keeper of src/log_topn.c with one view, "v": it is created, the view is entered, the rates are
-- computed, and a client asks for one of them.
use logstats.Base.{◌≡◌, refl, pos, true, Option, none, some, Each, []}
use logstats.Lru
use logstats.MemPool.{Ptr}
use logstats.NameTree.{World}
use logstats.NameTree.Create.{TreeBlocks, name_tree_create}
use logstats.ViewStats.{StatsReply, bytes, same_name}
use logstats.ViewStats.View.{
  ViewStatsBlocks, view_stats_create, view_stats_get_qps, view_stats_result2,
}
use logstats.ViewStats.View.Bounds.{Bounded}
use logstats.ViewStats.View.Values.{Still}
use logstats.ViewTree.{
  ViewMemory, ViewBlocks, view_tree_create, view_tree_insert, view_tree_find, load_stats,
}
use logstats.HouseKeeper.{
  LogBlocks, HouseKeeper, ViewTreeBlocks, house_keeper_create, add_init_view, qps_round, rates_loop,
}
use logstats.HouseKeeper.Requests.{StatsRequest, serve, view_reply}
use logstats.HouseKeeper.Steps.{Reach, start, next, init_view, round}
use logstats.HouseKeeper.Steps.Bounds.{Reach-Bounded}
use logstats.HouseKeeper.Steps.Rates.{serve_rates}
use logstats.Tests.Table.{tables}
use logstats.Tests.Known.{sizes}

abbrev empty_world : World
empty_world = record {
  nodes = λ p. record { fqdn = []; count = 0; heap_index = pos 0; ptr = 0 };
  words = λ p. 0;
  lru_memory = λ p. none;
}

abbrev tree_blocks : TreeBlocks
tree_blocks = record {
  tree = 1;
  rbtree = 2;
  heap = some (λ i. 0);
  node_pool = 3;
  node_chunk = 1000000;
  name_pool = 4;
  name_chunk = 2000000;
  lru = 5;
}

abbrev pub stats_blocks : ViewStatsBlocks
stats_blocks = record {
  vs = 200;
  name_tree = tree_blocks;
  name_world = empty_world;
  ip_tree = tree_blocks;
  ip_world = empty_world;
}

abbrev pub view_blocks : ViewBlocks
view_blocks = record { vtnode = 71; node = 72; lru_node = 10 }

abbrev pub log_blocks : LogBlocks
log_blocks = record {
  stats = stats_blocks;
  returned = 200;
  view = view_blocks;
  name = record { name_chunk = 0; node_chunk = 0; lru_node = 0 };
  ip = record { name_chunk = 0; node_chunk = 0; lru_node = 0 };
}

abbrev pub keeper_blocks : ViewTreeBlocks
keeper_blocks = record { tree = 6; rbtree = 7; lrulist = 8; held = 0 }

abbrev pub no_views : ViewMemory tables
no_views = record {
  views = λ p. record { name = []; vs = 0; ptr = 0 };
  lru_memory = λ p. none;
  stats = λ p. none;
}

abbrev pub created : HouseKeeper tables sizes
created = record {
  views = record { rbtree = tables.create; lrulist = Lru.lru_list_create; count = 0 };
  memory = no_views;
  mem_uplimit = 10485760;
}

-- The state after an operation that has an outcome.
abbrev pub after : Option (HouseKeeper tables sizes) → HouseKeeper tables sizes
after none = created
after (some k) = k

pub created_here :
    house_keeper_create tables sizes 9 keeper_blocks no_views true true true ≡ some created
unfolding house_keeper_create view_tree_create
created_here = refl

abbrev entered : HouseKeeper tables sizes
entered = after (add_init_view tables sizes created stats_blocks view_blocks 200 (bytes "v"))

entered_here :
    add_init_view tables sizes created stats_blocks view_blocks 200 (bytes "v") ≡ some entered
unfolding add_init_view view_stats_create name_tree_create view_tree_insert logstats.Heap.heap_init
    logstats.MemPool.mem_pool_create Lru.lru_list_insert Lru.lru_list_create
entered_here = refl

abbrev rated : HouseKeeper tables sizes
rated = after (qps_round tables sizes entered)

rated_here : qps_round tables sizes entered ≡ some rated
unfolding add_init_view view_stats_create name_tree_create view_tree_insert logstats.Heap.heap_init
    logstats.MemPool.mem_pool_create Lru.lru_list_insert Lru.lru_list_create qps_round rates_loop
    load_stats
rated_here = refl

rated-Reach : Reach tables sizes rated
rated-Reach =
    next
      (next (start 9 keeper_blocks no_views true true true (λ p. refl) created_here)
        (init_view stats_blocks view_blocks 200 (bytes "v") entered_here))
      (round rated_here)

Reach-Bounded_example : Each (Bounded tables) rated.memory.stats
Reach-Bounded_example = Reach-Bounded tables sizes rated rated-Reach

abbrev asked : StatsRequest
asked = record { key = bytes "qps"; view = bytes "v"; topn = pos 0 }

abbrev answer : StatsReply
answer = record {
  key = bytes "qps";
  name = [];
  count = [];
  value = some (record { num = 0; den = 10 });
  maybe = some (bytes "0.000000");
}

answered :
    serve tables sizes (λ r. bytes "0.000000") rated asked none keeper_blocks
    ≡ some (rated, some answer)
unfolding add_init_view view_stats_create name_tree_create view_tree_insert logstats.Heap.heap_init
    logstats.MemPool.mem_pool_create Lru.lru_list_insert Lru.lru_list_create qps_round rates_loop
    load_stats serve view_reply view_tree_find view_stats_get_qps view_stats_result2 same_name
    logstats.HouseKeeper.absolute_diff
answered = refl

serve_rates_example : Still answer
serve_rates_example =
    serve_rates tables sizes (λ r. bytes "0.000000") rated rated asked none keeper_blocks answer
      rated-Reach answered
