-- ===== src/NameTree/Delete.antt =====
-- name_tree_delete, for a name that the tree has.
use logstats.Base.{
  ◌+◌, ◌-◌, ◌%◌, ◌^◌, ◌<◌, ◌≡◌, ◌≢◌, refl, true, false, none, some, ℤ, pos, leb, ◌==◌, update,
  arith, length,
}
use logstats.MemPool
use logstats.MemPool.{Ptr, MemPool}
use logstats.NameTree.{
  World, NameTree, with_dot, name_tree_delete, max_name_len, link_text, freed_node,
}
use logstats.NameTree.Tree.{SearchTree, Name}

module _ (rb : SearchTree) (t : NameTree rb) (w : World) where
  open rb use {search}

  -- What name_tree_delete leaves of the tree, without a callback for the list: the name is gone, the
  -- others stay, and the heap, the list and the contents of the other nodes are as they were; the name
  -- of its own node is overwritten by the link of the free list.
  pub record Deleted (full : Name) (node p : Ptr) (r : ℤ × NameTree rb × World) : Type 0 where
    pub code : r.0 ≡ pos 0
    pub gone : search (r.1).tree full ≡ none
    pub others : (j : Name) → j ≢ full → search (r.1).tree j ≡ search t.tree j
    pub count : (r.1).count ≡ (t.count + 2 ^ 32 - 1) % 2 ^ 32
    pub heap : (r.1).heap ≡ t.heap
    pub lru : ((r.1).lru ≡ t.lru) × ((r.2).lru_memory ≡ w.lru_memory)
    pub nodes : (e : Ptr) → e ≢ p → (r.2).nodes e ≡ w.nodes e
    pub own : (r.2).nodes p ≡ record (w.nodes p) { fqdn = link_text 8 t.name_pool.free_list }
    pub free : ((r.1).name_pool.free_list ≡ p) × ((r.1).node_pool.free_list ≡ node)

  -- name_tree_delete of a name that the tree has, without a callback: the tree forgets that name and
  -- no other, its two blocks head the free lists of their pools, and the heap is not told: an entry for the
  -- node stays in it, and reads the link of the free list for its name.
  pub name_tree_delete-Deleted :
      (name full : Name) (node p : Ptr)
      → length name < max_name_len
      → with_dot name ≡ some full
      → search t.tree full ≡ some (node, p)
      → p ≢ 0
      → node ≢ 0
      → (r : ℤ × NameTree rb × World) × (name_tree_delete rb t w (some name) none ≡ some r)
        × Deleted full node p r
  unfolding name_tree_delete freed_node MemPool.mem_pool_free
  name_tree_delete-Deleted name full node p short dotted found np nn =
      let (left, removed, gone, others) = rb.delete-present t.tree full (node, p) found in
      let fits : leb max_name_len (length name) ≡ false = ground arith in
      let p_some : (p == 0) ≡ false = ground arith in
      let node_some : (node == 0) ≡ false = ground arith in
      (
        (
          pos 0,
          record t {
            tree = left;
            name_pool = record (t.name_pool) { free_list = p };
            node_pool = record (t.node_pool) { free_list = node };
            count = (t.count + 2 ^ 32 - 1) % 2 ^ 32;
          },
          record w {
            nodes =
                update w.nodes p (record (w.nodes p) { fqdn = link_text 8 t.name_pool.free_list });
            words = update (update w.words p t.name_pool.free_list) node t.node_pool.free_list;
          },
        ),
        rw (fits, dotted, removed, p_some, node_some) refl,
        record {
          code = refl;
          gone = gone;
          others = others;
          count = refl;
          heap = refl;
          lru = (refl, refl);
          nodes = λ e ne. let miss : (p == e) ≡ false = ground arith in rw miss refl;
          own = let here : (p == p) ≡ true = ground arith in rw here refl;
          free = (refl, refl);
        },
      )
