-- ===== src/HouseKeeper/Steps/Lasting.antt =====
-- What lasts through log_handle and handle_string_log of src/log_topn.c.
use logstats.Base.{
  ℕ, ◌+◌, some, List, [], ◌∷◌, ltb, ◌==◌, update, Ensures, ensures_some, ensures_bind, ensures_if,
  ensures_option, ensures_self, Each, put-Each,
}
use logstats.LogLine.{Sighting, handle_string_log}
use logstats.Lru
use logstats.MemPool.{Ptr}
use logstats.NameTree.Create.{Sizes}
use logstats.NameTree.Tree.{SearchTree, Name}
use logstats.ViewStats.View.{View, ViewStatsBlocks, view_stats_create}
use logstats.ViewStats.Memory.{view_stats_set_memsize}
use logstats.ViewTree.{
  ViewTree, ViewMemory, load_stats, view_tree_insert, view_tree_find, view_tree_get_size,
}
use logstats.ViewTree.Each.{load_stats-Each, view_tree_insert-Each, view_tree_set_memsize-Each}
use logstats.HouseKeeper.{
  HouseKeeper, LogBlocks, view_for, limit_memory, count_in, log_handle, log_sightings, log_line,
  view_rates,
}

module _ (rb : SearchTree) (sizes : Sizes) (P : View rb → Type 0) where
  -- What a new view has, and what every operation on a view keeps.
  pub record Lasting : Type 0 where
    pub fresh :
        (blocks : ViewStatsBlocks) (name : Name)
        → Ensures (Ensures P) (view_stats_create rb sizes blocks name)
    pub counted :
        (blocks : LogBlocks) (s : Sighting) (vs : View rb)
        → P vs
        → Ensures P (count_in rb sizes blocks s vs)
    pub cut : (vs : View rb) (size : ℕ) → P vs → Ensures P (view_stats_set_memsize rb sizes vs size)
    pub rated : (vs : View rb) → P vs → P (view_rates rb sizes vs)

  module _ (law : Lasting) where
    view_for-Each :
        (k : HouseKeeper rb sizes) (blocks : LogBlocks) (view : Name)
        → Each P k.memory.stats
        → Ensures
            (λ (r : Ptr × ViewTree rb × ViewMemory rb). Each P r.2.stats)
            (view_for rb sizes k blocks view)
    unfolding view_for
    view_for-Each k blocks view h =
        let w = k.memory in
        let found = view_tree_find rb k.views view in
        let created = view_stats_create rb sizes blocks.stats view in
        ensures_bind _ found _ (ensures_self found) λ o e.
          ensures_option o _ _
            (ensures_bind _ created _ (law.fresh blocks.stats view) λ c f.
              ensures_option c _ _ (ensures_some h) λ vs g.
                let entered = record w { stats = update w.stats blocks.stats.vs (some vs) } in
                let run = view_tree_insert rb k.views entered blocks.view view blocks.returned in
                ensures_if (blocks.returned == 0) _ _ (ensures_some h) (
                  ensures_bind _ run _
                    (view_tree_insert-Each rb P k.views entered blocks.view view blocks.returned
                      (put-Each P w.stats blocks.stats.vs vs h (f.holds vs g)))
                    λ r i. ensures_some i))
            (λ p g.
              let run = Lru.lru_list_move_to_first k.views.lrulist (w.views p).ptr w.lru_memory in
              ensures_bind _ run _ (ensures_self run) λ r f. ensures_some h)

    limit_memory-Each :
        (uplimit : ℕ) (t : ViewTree rb) (w : ViewMemory rb)
        → Each P w.stats
        → Ensures
            (λ (r : ViewTree rb × ViewMemory rb). Each P r.1.stats)
            (limit_memory rb sizes uplimit t w)
    unfolding limit_memory
    limit_memory-Each uplimit t w h =
        let size = view_tree_get_size rb sizes t w in
        ensures_bind _ size _ (ensures_self size) λ n e.
          ensures_if (ltb uplimit n) _ _
            (view_tree_set_memsize-Each rb P sizes law.cut t w uplimit h) (ensures_some h)

    log_handle-Each :
        (k : HouseKeeper rb sizes) (blocks : LogBlocks) (s : Sighting)
        → Each P k.memory.stats
        → Ensures
            (λ (r : HouseKeeper rb sizes). Each P r.memory.stats)
            (log_handle rb sizes k blocks s)
    unfolding log_handle
    log_handle-Each k blocks s h =
        ensures_bind _ (view_for rb sizes k blocks s.view) _ (view_for-Each k blocks s.view h)
          λ r e. ensures_if (r.0 == 0) _ _ (ensures_some h) (
            ensures_bind _ (limit_memory rb sizes k.mem_uplimit r.1 r.2) _
              (limit_memory-Each k.mem_uplimit r.1 r.2 e)
              λ c f.
                ensures_bind _ (load_stats rb c.1 r.0) _ (load_stats-Each rb P c.1 r.0 f) λ vs g.
                  ensures_bind _ (count_in rb sizes blocks s vs) _ (law.counted blocks s vs g)
                    λ v i. ensures_some (put-Each P c.1.stats r.0 v f i))

    log_sightings-Each :
        (k : HouseKeeper rb sizes) (sightings : List Sighting) (blocks : ℕ → LogBlocks) (i : ℕ)
        → Each P k.memory.stats
        → Ensures
            (λ (r : HouseKeeper rb sizes). Each P r.memory.stats)
            (log_sightings rb sizes k sightings blocks i)
    unfolding log_sightings
    log_sightings-Each k [] blocks i h = ensures_some h
    log_sightings-Each k (s ∷ rest) blocks i h =
        ensures_bind _ (log_handle rb sizes k (blocks i) s) _ (log_handle-Each k (blocks i) s h)
          λ r e. log_sightings-Each r rest blocks (i + 1) e

    pub log_line-Each :
        (k : HouseKeeper rb sizes) (line : Name) (blocks : ℕ → LogBlocks)
        → Each P k.memory.stats
        → Ensures
            (λ (r : HouseKeeper rb sizes). Each P r.memory.stats)
            (log_line rb sizes k line blocks)
    unfolding log_line
    log_line-Each k line blocks h =
        let sightings = handle_string_log line in
        ensures_bind _ sightings _ (ensures_self sightings) λ s e. log_sightings-Each k s blocks 0 h
