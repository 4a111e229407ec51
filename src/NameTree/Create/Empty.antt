-- ===== src/NameTree/Create/Empty.antt =====
-- A new name tree of src/log_name_tree.c holds no name.
use logstats.Base.{
  true, pos, refl, ◌==◌, ◌||◌, [], Ensures, ensures_some, ensures_none, ensures_bind, ensures_if,
  ensures_self,
}
use logstats.Heap
use logstats.Lru
use logstats.Lru.Seg.{IsList}
use logstats.MemPool
use logstats.NameTree.{World, NameTree, elem_compare}
use logstats.NameTree.Create.{Sizes, TreeBlocks, name_tree_create}
use logstats.NameTree.Tree.{SearchTree}
use logstats.ViewStats.Memory.Evict.{Holds}

pub lru_list_create-IsList : (m : Lru.Memory) → IsList m Lru.lru_list_create []
unfolding Lru.lru_list_create
lru_list_create-IsList m = record { linked = tt; distinct = tt; shape = refl }

pub name_tree_create-Holds :
    (rb : SearchTree) (sizes : Sizes) (blocks : TreeBlocks) (w : World)
    → Ensures
        (Ensures (λ (r : NameTree rb × World). Holds rb r.0 r.1 []))
        (name_tree_create rb sizes blocks w)
unfolding name_tree_create
name_tree_create-Holds rb sizes blocks w =
    let heap = Heap.heap_init (pos 1000) elem_compare blocks.heap in
    let nodes =
      MemPool.mem_pool_create sizes.rbnode 1024 true blocks.node_pool blocks.node_chunk w.words in
    ensures_if (blocks.tree == 0) _ _ (ensures_some ensures_none) (
      ensures_if (blocks.rbtree == 0 || blocks.lru == 0) _ _ ensures_none (
        ensures_bind _ heap _ (ensures_self heap) λ h e.
          ensures_bind _ nodes _ (ensures_self nodes) λ n f.
            let names =
              MemPool.mem_pool_create sizes.node_value 1024 true blocks.name_pool blocks.name_chunk
                n.1 in
            ensures_bind _ names _ (ensures_self names) λ m g. ensures_some (
              ensures_some (record {
                list = lru_list_create-IsList w.lru_memory;
                known = tt;
                covers = λ j n q found. absurd (cc (found, rb.search-create j));
                count = refl;
              }))))
