-- ===== src/NameTree/Insert.antt =====
-- name_tree_insert as a whole: what it refuses, and what it does for a name that the tree has and for
-- a new one.
use logstats.Base.{
  ◌+◌, ◌%◌, ◌^◌, ◌<◌, ◌≡◌, ◌≢◌, refl, ◌∙◌, false, none, some, ℤ, pos, negsuc, leb, ◌==◌, update,
  arith, ◌∷◌, ◌++◌, length,
}
use logstats.Lru
use logstats.Lru.{LruList}
use logstats.Lru.Seg.{Cells, IsList}
use logstats.Lru.Move.{lru_list_move_to_first-Moved}
use logstats.Lru.Insert.{lru_list_insert-Inserted}
use logstats.MemPool
use logstats.MemPool.{Ptr, MemPool}
use logstats.NameTree.{
  Nodes, World, Blocks, NameTree, with_dot, count_sighting, new_node, name_tree_exactly_find,
  name_tree_insert, max_name_len,
}
use logstats.NameTree.Bump.{count_sighting-count, count_sighting-ptr}
use logstats.NameTree.Tree.{SearchTree, Name}

module _ (rb : SearchTree) (t : NameTree rb) (w : World) (blocks : Blocks) where
  open rb use {search}

  -- What is left after a sighting of the known node `p`.
  pub record Seen (p : Ptr) (ys zs : Cells) (r : ℤ × NameTree rb × World) : Type 0 where
    pub code : r.0 ≡ pos 0
    pub tree : (r.1).tree ≡ t.tree
    pub count : (r.1).count ≡ t.count
    pub pools :
        ((r.1).name_pool ≡ t.name_pool) × ((r.1).node_pool ≡ t.node_pool) × ((r.2).words ≡ w.words)
    pub heap :
        ((r.1).heap ≡ (count_sighting t.heap p w.nodes).0)
        × ((r.2).nodes ≡ (count_sighting t.heap p w.nodes).1)
    pub seen : ((r.2).nodes p).count ≡ ((w.nodes p).count + 1) % 2 ^ 32
    pub kept : (e : Ptr) → e ≢ p → ((r.2).nodes e).count ≡ (w.nodes e).count
    pub same :
        (e : Ptr)
        → (((r.2).nodes e).fqdn ≡ (w.nodes e).fqdn) × (((r.2).nodes e).ptr ≡ (w.nodes e).ptr)
    pub recent : IsList (r.2).lru_memory (r.1).lru (((w.nodes p).ptr, p) ∷ (ys ++ zs))

  -- A short name that the tree has and whose node stands in the well-formed list: name_tree_insert raises
  -- the count of this node by 1 modulo 2^32 and of no other, leaves the heap that count_sighting makes, and
  -- moves the node to the front of the list; all names, the tree and the pools stay as they are.
  pub name_tree_insert-present :
      (name full : Name) (node p : Ptr) (ys zs : Cells)
      → length name < max_name_len
      → with_dot name ≡ some full
      → search t.tree full ≡ some (node, p)
      → IsList w.lru_memory t.lru (ys ++ ((w.nodes p).ptr, p) ∷ zs)
      → (r : ℤ × NameTree rb × World) × (name_tree_insert rb t w blocks (some name) ≡ some r)
        × Seen p ys zs r
  unfolding name_tree_insert name_tree_exactly_find
  name_tree_insert-present name full node p ys zs short dotted found recent =
      let (m, run, moved) =
        lru_list_move_to_first-Moved w.lru_memory t.lru ys zs (w.nodes p).ptr p recent in
      let c = count_sighting t.heap p w.nodes in
      let fits : leb max_name_len (length name) ≡ false = ground arith in
      let counts = count_sighting-count t.heap p w.nodes in
      (
        (pos 0, record t { lru = m.0; heap = c.0 }, record w { lru_memory = m.1; nodes = c.1 }),
        rw (fits, dotted, found, run) refl,
        record {
          code = refl;
          tree = refl;
          count = refl;
          pools = (refl, refl, refl);
          heap = (refl, refl);
          seen = (counts p).0 ∙ ground arith;
          kept = λ e ne. (counts e).0 ∙ ground arith;
          same = λ e. ((counts e).1, count_sighting-ptr t.heap p w.nodes e);
          recent = moved.list;
        },
      )

  -- What is left after the first sighting of a name, at the new node `p`.
  pub record Created (full : Name) (node p : Ptr) (xs : Cells) (r : ℤ × NameTree rb × World)
      : Type 0 where
    pub code : r.0 ≡ pos 0
    pub found : search (r.1).tree full ≡ some (node, p)
    pub others : (j : Name) → j ≢ full → search (r.1).tree j ≡ search t.tree j
    pub count : (r.1).count ≡ (t.count + 1) % 2 ^ 32
    pub name : ((r.2).nodes p).fqdn ≡ full
    pub seen : ((r.2).nodes p).count ≡ 1
    pub kept : (e : Ptr) → e ≢ p → ((r.2).nodes e).count ≡ (w.nodes e).count
    pub own : ((r.2).nodes p).ptr ≡ blocks.lru_node
    pub same :
        (e : Ptr)
        → e ≢ p
        → (((r.2).nodes e).fqdn ≡ (w.nodes e).fqdn) × (((r.2).nodes e).ptr ≡ (w.nodes e).ptr)
    pub recent : IsList (r.2).lru_memory (r.1).lru ((blocks.lru_node, p) ∷ xs)

  -- The contents of the new node before its first sighting is counted.
  abbrev fresh : Name → Ptr → Ptr → Nodes
  fresh full p own =
      update w.nodes p (record { fqdn = full; count = 0; heap_index = negsuc 0; ptr = own })

  -- The run of new_node where every part finds memory.
  new_node-run :
      (full : Name) (node p : Ptr) (names nodes : MemPool) (words1 words2 : MemPool.Words)
      (grown : rb.Tree) (l : Ptr × LruList × Lru.Memory)
      → MemPool.mem_pool_alloc t.name_pool blocks.name_chunk w.words ≡ (p, names, words1)
      → MemPool.mem_pool_alloc t.node_pool blocks.node_chunk words1 ≡ (node, nodes, words2)
      → p ≢ 0
      → node ≢ 0
      → rb.insert t.tree full (node, p) ≡ some grown
      → Lru.lru_list_insert t.lru p blocks.lru_node w.lru_memory ≡ some l
      → new_node rb t w blocks full
        ≡ some (
          some p,
          record t {
            tree = grown;
            node_pool = nodes;
            name_pool = names;
            count = (t.count + 1) % 2 ^ 32;
            lru = l.1;
          },
          record { nodes = fresh full p l.0; words = words2; lru_memory = l.2 },
        )
  unfolding new_node
  new_node-run full node p names nodes words1 words2 grown l alloc1 alloc2 np nn added run =
      let p_new : (p == 0) ≡ false = ground arith in
      let node_new : (node == 0) ≡ false = ground arith in
      rw (alloc1, alloc2, p_new, node_new, added) (rw (alloc1, alloc2, run) refl)

  -- A short name that the tree does not have, where both pools and malloc find memory and the list is
  -- well-formed: after name_tree_insert the tree has a node for it, seen once and first in the list, and
  -- the other names keep their nodes and their counts.
  pub name_tree_insert-absent :
      (name full : Name) (node p : Ptr) (names nodes : MemPool) (words1 words2 : MemPool.Words)
      (xs : Cells)
      → length name < max_name_len
      → with_dot name ≡ some full
      → search t.tree full ≡ none
      → MemPool.mem_pool_alloc t.name_pool blocks.name_chunk w.words ≡ (p, names, words1)
      → MemPool.mem_pool_alloc t.node_pool blocks.node_chunk words1 ≡ (node, nodes, words2)
      → p ≢ 0
      → node ≢ 0
      → IsList w.lru_memory t.lru xs
      → blocks.lru_node ≢ 0
      → w.lru_memory blocks.lru_node ≡ none
      → (r : ℤ × NameTree rb × World) × (name_tree_insert rb t w blocks (some name) ≡ some r)
        × Created full node p xs r
  unfolding name_tree_insert name_tree_exactly_find
  name_tree_insert-absent name full node p names nodes words1 words2 xs short dotted missing alloc1
        alloc2 np nn recent nl fl =
      let (grown, added, found, others) = rb.insert-absent t.tree full (node, p) missing in
      let (l, run, inserted) =
        lru_list_insert-Inserted w.lru_memory t.lru xs blocks.lru_node p recent nl fl np in
      let c = count_sighting t.heap p (fresh full p l.0) in
      let fits : leb max_name_len (length name) ≡ false = ground arith in
      let made =
        new_node-run full node p names nodes words1 words2 grown l alloc1 alloc2 np nn added run in
      let counts = count_sighting-count t.heap p (fresh full p l.0) in
      (
        (
          pos 0,
          record {
            tree = grown;
            heap = c.0;
            node_pool = nodes;
            name_pool = names;
            count = (t.count + 1) % 2 ^ 32;
            lru = l.1;
          },
          record { nodes = c.1; words = words2; lru_memory = l.2 },
        ),
        rw (fits, dotted, missing) (rw (dotted, made) refl),
        record {
          code = refl;
          found = found;
          others = others;
          count = refl;
          name = (counts p).1 ∙ ground arith;
          seen = (counts p).0 ∙ ground arith;
          kept = λ e ne. (counts e).0 ∙ ground arith;
          own = count_sighting-ptr t.heap p (fresh full p l.0) p ∙ ground (arith, inserted.address);
          same = λ e ne. (
            (counts e).1 ∙ ground arith,
            count_sighting-ptr t.heap p (fresh full p l.0) e ∙ ground arith,
          );
          recent = inserted.list;
        },
      )
