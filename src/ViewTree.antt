-- ===== src/ViewTree.antt =====
-- The views by name, of src/log_view_tree.c. A node of the tree holds the address of the statistics of
-- its view and that of its node in the list. `none` as an outcome means that the process stops, at a
-- failed assert, at an access through a NULL pointer or a pointer to memory that was freed, or at a
-- write behind the end of an array.
pub mod Find
pub mod Each
pub mod Live
pub mod Freeable
pub mod Shrink
pub mod Touch
pub mod Fresh
pub mod Enter
pub mod Sound
pub mod Destroy
pub mod Memory
use logstats.Base.{
  ◌>>=◌, ℕ, zero, suc, ◌+◌, ◌-◌, ◌*◌, ◌%◌, ◌^◌, Option, none, some, List, [], ◌∷◌, ◌||◌, ◌&&◌, ltb,
  ◌==◌, if◌then◌else◌, update, length,
}
use logstats.Lru
use logstats.Lru.{LruList}
use logstats.MemPool.{Ptr}
use logstats.NameTree.Create.{Sizes, destroy_rounds, name_tree_destroy}
use logstats.NameTree.Tree.{SearchTree, Name, TreeNode}
use logstats.ViewStats.Memory.{view_stats_set_memsize}
use logstats.ViewStats.View.{View, view_stats_get_size}

-- STATS_NODE_MAX_SIZE
abbrev pub stats_node_max_size : ℕ
stats_node_max_size = 128

pub record ViewTreeNode : Type 0 where
  pub name : Name
  pub vs : Ptr
  pub ptr : Ptr

-- What malloc returns for the node of a view, the node of the tree and the node of the list.
pub record ViewBlocks : Type 0 where
  pub vtnode : Ptr
  pub node : Ptr
  pub lru_node : Ptr

-- `strcpy(vtnode.name, name)`
abbrev pub copy_name : Name → Option Name
copy_name name = if ltb (length name) stats_node_max_size then some name else none

module _ (rb : SearchTree) where
  open rb use {Tree, create, search, insert, delete, in_order}

  pub record ViewTree : Type 0 where
    pub rbtree : Tree
    pub lrulist : LruList
    pub count : ℕ

  -- The nodes of the views, of the list, and the statistics that are allocated.
  pub record ViewMemory : Type 0 where
    pub views : Ptr → ViewTreeNode
    pub lru_memory : Lru.Memory
    pub stats : Ptr → Option (View rb)

  -- `*vs`
  unfoldable pub load_stats : ViewMemory → Ptr → Option (View rb)
  load_stats w vs = if vs == 0 then none else w.stats vs

  -- `count` is what the memory held: the function does not set it. 0 is NULL for the structure, and for
  -- one of its parts.
  unfoldable pub view_tree_create : ℕ → (tree rbtree lrulist : Ptr) → Option (Option ViewTree)
  view_tree_create held tree rbtree lrulist =
      if tree == 0
      then some none
      else if rbtree == 0 || lrulist == 0
      then none
      else some (some (record { rbtree = create; lrulist = Lru.lru_list_create; count = held }))

  -- The result is 1 where rbtree_insert returns NULL; the two blocks are free again then. rbtree_insert
  -- does so for no name: where the name is present it returns its node.
  unfoldable pub view_tree_insert :
      ViewTree → ViewMemory → ViewBlocks → Name → Ptr → Option (ℕ × ViewTree × ViewMemory)
  view_tree_insert t w blocks name vs =
      let filled : Name → ViewMemory = λ text. record w {
        views = update w.views blocks.vtnode (record { name = text; vs = vs; ptr = 0 });
      } in
      let linked : Name → Tree → Option (ℕ × ViewTree × ViewMemory) = λ text grown. do
        (own, lru, memory) ←
            Lru.lru_list_insert t.lrulist blocks.vtnode blocks.lru_node w.lru_memory
        some (
          0,
          record { rbtree = grown; lrulist = lru; count = (t.count + 1) % 2 ^ 32 },
          record w {
            views = update w.views blocks.vtnode (record { name = text; vs = vs; ptr = own });
            lru_memory = memory;
          },
        )
      in let body : Option (ℕ × ViewTree × ViewMemory) = do
        text ← copy_name name
        elim (insert t.rbtree text (blocks.node, blocks.vtnode)) [
          | none ↦ some (1, t, filled text)
          | some grown ↦ linked text grown
        ]
        in if blocks.vtnode == 0 || blocks.node == 0 then none else body

  -- The node of the view, or NULL.
  unfoldable pub view_tree_find : ViewTree → Name → Option (Option Ptr)
  view_tree_find t name = do
    text ← copy_name name
    some (elim (search t.rbtree text) [ none ↦ none | some (node, vtnode) ↦ some vtnode ])

  -- The memory of the two trees, which name_tree_destroy frees, belongs to the view and goes with it.
  pub view_stats_destory : ViewMemory → Ptr → Option ViewMemory
  unfolding load_stats name_tree_destroy
  view_stats_destory w vs = do
    view ← load_stats w vs
    names ← name_tree_destroy rb (destroy_rounds rb view.name_tree) view.name_tree view.name_world
    ips ← name_tree_destroy rb (destroy_rounds rb view.ip_tree) view.ip_tree view.ip_world
    some (record w { stats = update w.stats vs none })

  -- The node of the list is not touched.
  pub view_tree_delete : ViewTree → ViewMemory → Name → Option (ViewTree × ViewMemory)
  unfolding view_stats_destory
  view_tree_delete t w name =
      let gone : Ptr → Tree → Option (ViewTree × ViewMemory) = λ p left. do
        w' ← view_stats_destory w (w.views p).vs
        some (record t { rbtree = left; count = (t.count + 2 ^ 32 - 1) % 2 ^ 32 }, w')
      in do
        text ← copy_name name
        elim (delete t.rbtree text) [ none ↦ some (t, w) | some ((node, p), left) ↦ gone p left ]

  module _ (sizes : Sizes) where
    -- The loop of view_tree_get_size over the entries of the tree.
    pub sum_sizes : ViewMemory → List (Name × TreeNode) → Option ℕ
    unfolding load_stats
    sum_sizes w [] = some 0
    sum_sizes w ((k, (node, p)) ∷ rest) = do
      vs ← load_stats w (w.views p).vs
      total ← sum_sizes w rest
      some (total + (view_stats_get_size rb sizes vs.name_tree vs.ip_tree + stats_node_max_size))

    -- In 64 bits.
    pub view_tree_get_size : ViewTree → ViewMemory → Option ℕ
    unfolding sum_sizes
    view_tree_get_size t w = do
      total ← sum_sizes w (in_order t.rbtree)
      some ((total + sizes.view_tree + sizes.lru_node * t.lrulist.count) % 2 ^ 64)

    -- The last entry of the tree, or NULL (0).
    pub last_entry : Ptr → List (Name × TreeNode) → Ptr
    last_entry vtnode [] = vtnode
    last_entry vtnode ((k, (node, p)) ∷ rest) = last_entry p rest

    pub view_tree_the_only_one : ViewTree → Ptr
    unfolding last_entry
    view_tree_the_only_one t = last_entry 0 (in_order t.rbtree)

    -- The loop of view_tree_set_memsize, with so many rounds to go; `none` is a loop that is still
    -- running, or a process that stopped. `count` is an `int`.
    pub shrink_loop : ℕ → ℕ → ViewTree → ViewMemory → Option (ViewTree × ViewMemory)
    shrink_loop zero expect_size t w = none
    shrink_loop (suc fuel) expect_size t w =
        let drop : Ptr → LruList → Lru.Memory → Option (ViewTree × ViewMemory) = λ p lru memory. do
          (t', w') ←
              view_tree_delete (record t { lrulist = lru }) (record w { lru_memory = memory })
                (w.views p).name
          shrink_loop fuel expect_size t' w'
        in let round : Option (ViewTree × ViewMemory) = do
          (p, lru, memory) ← Lru.lru_list_remove_tail t.lrulist w.lru_memory
          if p == 0 then none else drop p lru memory
          in do
            mem_size ← view_tree_get_size t w
            if ltb expect_size mem_size && (ltb 1 t.count && ltb t.count (2 ^ 31))
                then round
                else some (t, w)

    -- The last part of view_tree_set_memsize.
    pub shrink_last : ℕ → ViewTree → ViewMemory → Option (ViewTree × ViewMemory)
    unfolding load_stats
    shrink_last expect_size t w =
        let p = view_tree_the_only_one t in
        let cut : Option (ViewTree × ViewMemory) = do
          vs ← load_stats w (w.views p).vs
          vs' ← view_stats_set_memsize rb sizes vs expect_size
          some (t, record w { stats = update w.stats (w.views p).vs (some vs') })
        in if t.count == 1 then (if p == 0 then some (t, w) else cut) else some (t, w)

    -- The loop is given one round more than the list has nodes.
    pub view_tree_set_memsize : ViewTree → ViewMemory → ℕ → Option (ViewTree × ViewMemory)
    unfolding shrink_loop shrink_last
    view_tree_set_memsize t w expect_size = do
      (t', w') ← shrink_loop (t.lrulist.count + 1) expect_size t w
      shrink_last expect_size t' w'

  -- rbtree_destory calls destory_func on each node; then the list is freed.
  pub destroy_entries : ViewMemory → List (Name × TreeNode) → Option ViewMemory
  unfolding view_stats_destory
  destroy_entries w [] = some w
  destroy_entries w ((k, (node, p)) ∷ rest) = do
    w' ← view_stats_destory w (w.views p).vs
    destroy_entries w' rest

  pub view_tree_destory : ViewTree → ViewMemory → Option ViewMemory
  unfolding destroy_entries
  view_tree_destory t w = do
    w' ← destroy_entries w (in_order t.rbtree)
    memory ← Lru.lru_list_destroy t.lrulist w'.lru_memory
    some (record w' { lru_memory = memory })
