-- ===== src/NameTree/Roof.antt =====
-- The size of the heap of a name tree, through every operation of src/log_name_tree.c.
use logstats.Base.{
  ◌≤◌, ◌≡◌, ◌∙◌, ℤ, Option, none, some, ◌==◌, leb, length, Ensures, ensures_some, ensures_bind,
  ensures_if, ensures_option, ensures_self,
}
use logstats.Heap.{Heap}
use logstats.Lru
use logstats.Lru.{LruList}
use logstats.MemPool
use logstats.MemPool.{Ptr}
use logstats.NameTree.{
  Nodes, World, Blocks, NameTree, elem_compare, roof, max_name_len, with_dot, count_sighting,
  new_node, name_tree_exactly_find, name_tree_insert, name_tree_delete,
}
use logstats.NameTree.Bump.{count_sighting-len}
use logstats.NameTree.Tree.{SearchTree, Name}

-- At most 1000 entries, in the order of elem_compare.
pub record InRoof (heap : Heap Ptr Nodes) : Type 0 where
  pub len : heap.len ≤ roof
  pub cmp : heap.cmp ≡ elem_compare

module _ (rb : SearchTree) where
  sighted :
      (heap : Heap Ptr Nodes) (nv : Ptr) (nodes : Nodes)
      → InRoof heap
      → InRoof (count_sighting heap nv nodes).0
  sighted heap nv nodes h =
      let r = count_sighting-len heap nv nodes h.len in record { len = r.1; cmp = r.3 ∙ h.cmp }

  new_node-InRoof :
      (t : NameTree rb) (w : World) (blocks : Blocks) (full : Name)
      → InRoof t.heap
      → Ensures
          (λ (r : Option Ptr × NameTree rb × World). InRoof r.1.heap)
          (new_node rb t w blocks full)
  unfolding new_node
  new_node-InRoof t w blocks full h =
      let (nv, names, words1) = MemPool.mem_pool_alloc t.name_pool blocks.name_chunk w.words in
      let (node, nodes, words2) = MemPool.mem_pool_alloc t.node_pool blocks.node_chunk words1 in
      let name_back = MemPool.mem_pool_free names nv words2 in
      let node_back = MemPool.mem_pool_free nodes node words2 in
      let run = Lru.lru_list_insert t.lru nv blocks.lru_node w.lru_memory in
      ensures_if (nv == 0) _ _ (ensures_some h) (
        ensures_if (node == 0) _ _
          (ensures_bind _ name_back _ (ensures_self name_back) λ r e. ensures_some h)
          (ensures_option (rb.insert t.tree full (node, nv)) _ _
            (ensures_bind _ node_back _ (ensures_self node_back) λ r e.
              let again = MemPool.mem_pool_free names nv r.1 in
              ensures_bind _ again _ (ensures_self again) λ q f. ensures_some h)
            λ grown eq. ensures_bind _ run _ (ensures_self run) λ r e. ensures_some h))

  pub name_tree_insert-InRoof :
      (t : NameTree rb) (w : World) (blocks : Blocks) (name : Name)
      → InRoof t.heap
      → Ensures
          (λ (r : ℤ × NameTree rb × World). InRoof r.1.heap)
          (name_tree_insert rb t w blocks (some name))
  unfolding name_tree_insert
  name_tree_insert-InRoof t w blocks name h =
      let found = name_tree_exactly_find rb t (some name) in
      ensures_if (leb max_name_len (length name)) _ _ (ensures_some h) (
        ensures_bind _ found _ (ensures_self found) λ o e.
          ensures_option o _ _
            (ensures_bind _ (with_dot name) _ (ensures_self (with_dot name)) λ full f.
              ensures_bind _ (new_node rb t w blocks full) _ (new_node-InRoof t w blocks full h)
                λ r g.
                  ensures_option r.0 _ _ (ensures_some g)
                    λ p i. ensures_some (sighted r.1.heap p r.2.nodes g))
            λ p f.
              let run = Lru.lru_list_move_to_first t.lru (w.nodes p).ptr w.lru_memory in
              ensures_bind _ run _ (ensures_self run)
                λ r g. ensures_some (sighted t.heap p w.nodes h))

  pub name_tree_delete-InRoof :
      (t : NameTree rb) (w : World) (name : Name)
      → InRoof t.heap
      → Ensures
          (λ (r : ℤ × NameTree rb × World). InRoof r.1.heap)
          (name_tree_delete rb t w (some name) none)
  unfolding name_tree_delete
  name_tree_delete-InRoof t w name h =
      ensures_if (leb max_name_len (length name)) _ _ (ensures_some h) (
        ensures_bind _ (with_dot name) _ (ensures_self (with_dot name)) λ full e.
          ensures_option (rb.delete t.tree full) _ _ (ensures_some h) λ found f.
            let names = MemPool.mem_pool_free t.name_pool found.0.1 w.words in
            ensures_bind _ names _ (ensures_self names) λ r g.
              let nodes = MemPool.mem_pool_free t.node_pool found.0.0 r.1 in
              ensures_bind _ nodes _ (ensures_self nodes) λ q i. ensures_some h)
