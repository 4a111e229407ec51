-- ===== src/HouseKeeper.antt =====
-- The house keeper of src/log_topn.c: the lines of the log, and the round that computes the
-- rates; HouseKeeper/Requests has the requests of the clients. Each runs with the lock held and is one step. `none` as an outcome means
-- that the process stops, as in the parts that are called. The fields of the house keeper that nothing
-- reads, its sockets and its threads are left out.
pub mod Diff
pub mod Steps
pub mod Views
pub mod Requests
pub mod Flush
pub mod Session
use logstats.Base.{
  ◌>>=◌, ℕ, zero, suc, ◌+◌, ◌-◌, ◌*◌, ◌%◌, ◌^◌, ℤ, pos, negsuc, Bool, Option, none, some, List, [],
  ◌∷◌, ◌||◌, ◌&&◌, ltb, leb, ◌==◌, if◌then◌else◌, update, length,
}
use logstats.LogLine.{Sighting, handle_string_log}
use logstats.Lru
use logstats.MemPool.{Ptr}
use logstats.NameTree.{Blocks}
use logstats.NameTree.Create.{Sizes}
use logstats.NameTree.Tree.{SearchTree, Name, TreeNode}
use logstats.ViewStats.{
  Rate, StatsReply, bytes, same_name, rtype_index, rcode_index, view_stats_rtype_increment,
  view_stats_rcode_increment, view_stats_get_rcode, view_stats_get_rtype,
}
use logstats.ViewStats.View.{
  View, ViewStatsBlocks, view_stats_create, view_stats_insert_name, view_stats_insert_ip,
  view_stats_name_topn, view_stats_ip_topn, view_stats_get_qps, view_stats_get_success_rate,
}
use logstats.ViewTree.{
  ViewTree, ViewMemory, ViewBlocks, load_stats, view_tree_create, view_tree_insert, view_tree_find,
  view_tree_get_size, view_tree_set_memsize, view_tree_destory,
}

unfoldable pub absolute_diff : ℕ → ℕ → ℕ
absolute_diff first second =
    if leb first second then second - first else 2 ^ 32 - 1 - first + second

-- The limit of the memory, timediff and stats_rcode_servfail.
abbrev pub mem_uplimit_start : ℕ
mem_uplimit_start = 10 * 1024 * 1024

abbrev pub timediff : ℕ
timediff = 10

abbrev pub stats_rcode_servfail : ℕ
stats_rcode_servfail = 2

-- What malloc returns in log_handle. view_stats_create ends without a `return`: `returned` is what its
-- caller finds as its value.
pub record LogBlocks : Type 0 where
  pub stats : ViewStatsBlocks
  pub returned : Ptr
  pub view : ViewBlocks
  pub name : Blocks
  pub ip : Blocks

-- What malloc returns for a tree of views, and what the memory of its count held.
pub record ViewTreeBlocks : Type 0 where
  pub tree : Ptr
  pub rbtree : Ptr
  pub lrulist : Ptr
  pub held : ℕ

module _ (rb : SearchTree) (sizes : Sizes) where
  open rb use {in_order}

  pub record HouseKeeper : Type 0 where
    pub views : ViewTree rb
    pub memory : ViewMemory rb
    pub mem_uplimit : ℕ

  -- The first part of log_handle: the statistics of the view, or NULL where there is no memory.
  pub view_for : HouseKeeper → LogBlocks → Name → Option (Ptr × ViewTree rb × ViewMemory rb)
  view_for k blocks view =
      let w = k.memory in
      let entered : View rb → Option (Ptr × ViewTree rb × ViewMemory rb) = λ vs. do
        (code, t, w') ←
            view_tree_insert rb k.views
              (record w { stats = update w.stats blocks.stats.vs (some vs) }) blocks.view view
              blocks.returned
        some (blocks.returned, t, w')
      in let new : Option (Ptr × ViewTree rb × ViewMemory rb) = do
        created ← view_stats_create rb sizes blocks.stats view
        elim created [
          | none ↦ some (0, k.views, w)
          | some vs ↦ if blocks.returned == 0 then some (0, k.views, w) else entered vs
        ]
        in let present : Ptr → Option (Ptr × ViewTree rb × ViewMemory rb) = λ p. do
          (lru, memory) ← Lru.lru_list_move_to_first k.views.lrulist (w.views p).ptr w.lru_memory
          some
              ((w.views p).vs, record (k.views) { lrulist = lru }, record w { lru_memory = memory })
          in do
            found ← view_tree_find rb k.views view
            elim found [ none ↦ new | some p ↦ present p ]

  -- The middle part: the memory is cut down to the limit.
  pub limit_memory : ℕ → ViewTree rb → ViewMemory rb → Option (ViewTree rb × ViewMemory rb)
  limit_memory uplimit t w = do
    size ← view_tree_get_size rb sizes t w
    if ltb uplimit size then view_tree_set_memsize rb sizes t w uplimit else some (t, w)

  -- The last part: the counters and the name trees of the view.
  pub count_in : LogBlocks → Sighting → View rb → Option (View rb)
  count_in blocks s vs = do
    vs1 ← view_stats_insert_name rb vs blocks.name s.domain
    vs2 ← view_stats_insert_ip rb vs1 blocks.ip s.ip
    i ← rtype_index s.rtype
    counters1 ← view_stats_rtype_increment vs2.counters (pos i)
    j ← rcode_index s.rcode
    counters2 ← view_stats_rcode_increment counters1 (pos j)
    some (record vs2 { counters = counters2 })

  pub log_handle : HouseKeeper → LogBlocks → Sighting → Option HouseKeeper
  unfolding view_for limit_memory
  log_handle k blocks s =
      let counted : Ptr → ViewTree rb → ViewMemory rb → Option HouseKeeper = λ p t w. do
        (t', w') ← limit_memory k.mem_uplimit t w
        vs ← load_stats rb w' p
        vs' ← count_in blocks s vs
        some (record k { views = t'; memory = record w' { stats = update w'.stats p (some vs') } })
      in do (p, t, w) ← view_for k blocks s.view; if p == 0 then some k else counted p t w

  -- The calls of log_handle for one line, each with what malloc returns in it.
  pub log_sightings : HouseKeeper → List Sighting → (ℕ → LogBlocks) → ℕ → Option HouseKeeper
  log_sightings k [] blocks i = some k
  log_sightings k (s ∷ rest) blocks i = do
    k' ← log_handle k (blocks i) s
    log_sightings k' rest blocks (i + 1)

  pub log_line : HouseKeeper → Name → (ℕ → LogBlocks) → Option HouseKeeper
  unfolding log_sightings
  log_line k line blocks = do sightings ← handle_string_log line; log_sightings k sightings blocks 0

  pub house_keeper_clear_stats : HouseKeeper → ViewTreeBlocks → Option HouseKeeper
  house_keeper_clear_stats k b = do
    w ← view_tree_destory rb k.views k.memory
    created ← view_tree_create rb b.held b.tree b.rbtree b.lrulist
    t ← created
    some (record k { views = t; memory = w })

  unfoldable pub add_init_view :
      HouseKeeper → ViewStatsBlocks → ViewBlocks → (returned : Ptr) → Name → Option HouseKeeper
  add_init_view k stats view returned name = do
    created ← view_stats_create rb sizes stats name
    vs ← created
    let w = record (k.memory) { stats = update k.memory.stats stats.vs (some vs) }
    (code, t, w') ← view_tree_insert rb k.views w view name returned
    if returned == 0 || ltb 0 code then none else some (record k { views = t; memory = w' })

  -- `keeper` is what malloc returns; a failed bind, or a thread that is not created, ends the process.
  unfoldable pub house_keeper_create :
      Ptr → ViewTreeBlocks → ViewMemory rb → (bound commands rates : Bool) → Option HouseKeeper
  house_keeper_create keeper b w bound commands rates =
      let built : Option HouseKeeper = do
        created ← view_tree_create rb b.held b.tree b.rbtree b.lrulist
        t ← created
        if bound && (commands && rates)
            then some (record { views = t; memory = w; mem_uplimit = mem_uplimit_start })
            else none
      in if keeper == 0 then none else built

  pub house_keeper_destroy : HouseKeeper → Option (ViewMemory rb)
  house_keeper_destroy k = view_tree_destory rb k.views k.memory

  -- The rates of one view after `timediff` seconds.
  pub view_rates : View rb → View rb
  view_rates vs = record vs {
    qps = record { num = absolute_diff vs.last_count vs.count; den = timediff };
    last_count = vs.count;
    success_rate = if vs.count == 0 then record { num = 1; den = 1 } else record {
      num = absolute_diff (vs.counters.rcode stats_rcode_servfail) vs.count;
      den = vs.count;
    };
  }

  -- The loop of qps_thread over the views.
  unfoldable pub rates_loop : ViewMemory rb → List (Name × TreeNode) → Option (ViewMemory rb)
  unfolding view_rates
  rates_loop w [] = some w
  rates_loop w ((k, (node, p)) ∷ rest) =
      let q = (w.views p).vs in
      let rated : Option (ViewMemory rb) = do
        vs ← load_stats rb w q
        rates_loop (record w { stats = update w.stats q (some (view_rates vs)) }) rest
      in let skipped = rates_loop w rest in if length (w.views p).name == 0 then skipped else rated

  -- One round of qps_thread.
  unfoldable pub qps_round : HouseKeeper → Option HouseKeeper
  unfolding rates_loop
  qps_round k = do w ← rates_loop k.memory (in_order k.views.rbtree); some (record k { memory = w })
