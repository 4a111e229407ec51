-- ===== src/NameTree/Create/Roof.antt =====
-- The heap of a new name tree.
use logstats.Base.{
  true, pos, ◌==◌, ◌||◌, arith, Ensures, ensures_some, ensures_none, ensures_bind, ensures_if,
  ensures_self,
}
use logstats.Heap
use logstats.Heap.{Heap}
use logstats.Heap.Init.{heap_init-empty}
use logstats.MemPool
use logstats.MemPool.{Ptr}
use logstats.NameTree.{World, NameTree, elem_compare}
use logstats.NameTree.Roof.{InRoof}
use logstats.NameTree.Create.{Sizes, TreeBlocks, name_tree_create}
use logstats.NameTree.Tree.{SearchTree}

pub name_tree_create-InRoof :
    (rb : SearchTree) (sizes : Sizes) (blocks : TreeBlocks) (w : World)
    → Ensures
        (Ensures (λ (r : NameTree rb × World). InRoof r.0.heap))
        (name_tree_create rb sizes blocks w)
unfolding name_tree_create
name_tree_create-InRoof rb sizes blocks w =
    let heap = Heap.heap_init (pos 1000) elem_compare blocks.heap in
    let nodes =
      MemPool.mem_pool_create sizes.rbnode 1024 true blocks.node_pool blocks.node_chunk w.words in
    ensures_if (blocks.tree == 0) _ _ (ensures_some ensures_none) (
      ensures_if (blocks.rbtree == 0 || blocks.lru == 0) _ _ ensures_none (
        ensures_bind _ heap _ (heap_init-empty (pos 1000) elem_compare blocks.heap) λ h e.
          ensures_bind _ nodes _ (ensures_self nodes) λ n f.
            let names =
              MemPool.mem_pool_create sizes.node_value 1024 true blocks.name_pool blocks.name_chunk
                n.1 in
            ensures_bind _ names _ (ensures_self names)
              λ m g. ensures_some (ensures_some (record { len = omega (arith, e.0); cmp = e.1 }))))
