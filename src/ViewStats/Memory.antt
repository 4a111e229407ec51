-- ===== src/ViewStats/Memory.antt =====
-- view_stats_set_memsize of src/log_view_stats.c.
pub mod Kept
pub mod Evict
pub mod Freeable
pub mod Shrink
use logstats.Base.{
  ◌>>=◌, ℕ, zero, suc, ◌+◌, ◌*◌, ◌%◌, ◌^◌, Option, none, some, ltb, ◌==◌, if◌then◌else◌,
}
use logstats.Heap
use logstats.Lru
use logstats.Lru.{LruList}
use logstats.MemPool.{word_size}
use logstats.NameTree.{NameTree, World, name_tree_delete}
use logstats.NameTree.Tree.{SearchTree}
use logstats.NameTree.Create.{Sizes}
use logstats.ViewStats.View.{View, view_stats_get_size}

module _ (rb : SearchTree) where
  -- Either loop of view_stats_set_memsize, with so many rounds to go; `none` is a loop that is still
  -- running, or a process that stopped. `size` is the size of the view with this tree.
  pub evict_loop : ℕ → ℕ → (NameTree rb → ℕ) → NameTree rb → World → Option (NameTree rb × World)
  evict_loop zero expect_size size t w = none
  evict_loop (suc fuel) expect_size size t w =
      let drop : ℕ → LruList → Lru.Memory → Option (NameTree rb × World) = λ nv lru memory. do
        (code, t', w') ←
            name_tree_delete rb (record t { lru = lru }) (record w { lru_memory = memory })
              (some (w.nodes nv).fqdn) none
        evict_loop fuel expect_size size t' w'
      in let body : Option (NameTree rb × World) = do
        (nv, lru, memory) ← Lru.lru_list_remove_tail t.lru w.lru_memory
        if nv == 0
            then some (record t { lru = lru }, record w { lru_memory = memory })
            else drop nv lru memory
        in if ltb expect_size (size t) then body else some (t, w)

module _ (rb : SearchTree) (sizes : Sizes) where
  -- Each loop is given one round more than its list has nodes.
  pub view_stats_set_memsize : View rb → ℕ → Option (View rb)
  unfolding evict_loop
  view_stats_set_memsize vs expect_size = do
    (names, w) ←
        evict_loop rb (vs.name_tree.lru.count + 1) expect_size
          (λ t. view_stats_get_size rb sizes t vs.ip_tree) vs.name_tree vs.name_world
    (ips, v) ←
        evict_loop rb (vs.ip_tree.lru.count + 1) expect_size
          (λ t. view_stats_get_size rb sizes names t) vs.ip_tree vs.ip_world
    some (record vs { name_tree = names; name_world = w; ip_tree = ips; ip_world = v })
