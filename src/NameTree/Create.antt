-- ===== src/NameTree/Create.antt =====
-- name_tree_create, name_tree_destroy and name_tree_get_size of src/log_name_tree.c. The sizes of the
-- structures are what the compiler makes them. `none` as an outcome means that the process stops or
-- that its behaviour is undefined: where memory runs out half-way, name_tree_create ends without a
-- `return`.
pub mod Roof
pub mod Empty
use logstats.Base.{
  ℕ, ◌+◌, ◌*◌, ◌%◌, ◌^◌, pos, true, Option, none, some, List, ◌>>=◌, ◌||◌, ◌==◌, if◌then◌else◌,
}
use logstats.Heap
use logstats.Heap.{Heap}
use logstats.Lru
use logstats.MemPool
use logstats.MemPool.{Ptr, MemPool, word_size}
use logstats.NameTree.{Nodes, World, NameTree, elem_compare}
use logstats.NameTree.Tree.{SearchTree}

-- sizeof of each structure.
pub record Sizes : Type 0 where
  pub name_tree : ℕ
  pub heap : ℕ
  pub mem_pool : ℕ
  pub rbnode : ℕ
  pub node_value : ℕ
  pub lru_node : ℕ
  pub lru_list : ℕ
  pub view_stats : ℕ
  pub view_tree : ℕ

-- What malloc and calloc return in name_tree_create, 0 or `none` for NULL: for the structures, the
-- array of the heap and the first chunk of each pool.
pub record TreeBlocks : Type 0 where
  pub tree : Ptr
  pub rbtree : Ptr
  pub heap : Option (ℕ → Ptr)
  pub node_pool : Ptr
  pub node_chunk : Ptr
  pub name_pool : Ptr
  pub name_chunk : Ptr
  pub lru : Ptr

module _ (rb : SearchTree) (sizes : Sizes) where
  -- The new tree and its memory, or NULL (within).
  unfoldable pub name_tree_create : TreeBlocks → World → Option (Option (NameTree rb × World))
  name_tree_create blocks w =
      let built : Option (Option (NameTree rb × World)) = do
        heap ← Heap.heap_init (pos 1000) elem_compare blocks.heap
        (node_pool, words1) ←
            MemPool.mem_pool_create sizes.rbnode 1024 true blocks.node_pool blocks.node_chunk
              w.words
        (name_pool, words2) ←
            MemPool.mem_pool_create sizes.node_value 1024 true blocks.name_pool blocks.name_chunk
              words1
        some (
            some (
              record {
                tree = rb.create;
                heap = heap;
                node_pool = node_pool;
                name_pool = name_pool;
                count = 0;
                lru = Lru.lru_list_create;
              },
              record w { words = words2 },
            ))
      in if blocks.tree == 0
        then some none
        else if blocks.rbtree == 0 || blocks.lru == 0
        then none
        else built

  -- In 64 bits.
  pub name_tree_get_size : NameTree rb → ℕ
  name_tree_get_size t =
      (sizes.name_tree
        + (sizes.heap + Heap.max_heap_node_num * word_size)
        + MemPool.mem_pool_struct_size sizes.mem_pool * 2
        + t.count * (sizes.rbnode + sizes.node_value)
        + t.lru.count * sizes.lru_node)
      % 2 ^ 64

-- One round more than both pools have elements: no chunk has none.
abbrev pub destroy_rounds : (rb : SearchTree) → NameTree rb → ℕ
destroy_rounds rb t = t.name_pool.elem_count + t.node_pool.elem_count + 1

-- The chunks of both pools that are freed, and the memory of the list once its nodes are; `fuel` bounds
-- the loops over the chunks. The structures themselves are freed too.
unfoldable pub name_tree_destroy :
    (rb : SearchTree) → ℕ → NameTree rb → World → Option (List Ptr × List Ptr × Lru.Memory)
name_tree_destroy rb fuel t w = do
  node_chunks ← MemPool.mem_pool_delete fuel t.node_pool w.words
  name_chunks ← MemPool.mem_pool_delete fuel t.name_pool w.words
  memory ← Lru.lru_list_destroy t.lru w.lru_memory
  some (node_chunks, name_chunks, memory)

pub name_tree_copy_heap :
    (rb : SearchTree) → NameTree rb → Option (ℕ → Ptr) → Option (Heap Ptr Nodes)
name_tree_copy_heap rb t block = Heap.heap_copy t.heap block
