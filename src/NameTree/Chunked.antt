-- ===== src/NameTree/Chunked.antt =====
-- The chunks of the pools of a name tree of src/log_name_tree.c: name_tree_destroy walks them to their
-- end, and removals keep them linked.
use logstats.Base.{
  ◌+◌, ◌≤◌, ◌≡◌, ◌≢◌, refl, sym, ◌∙◌, none, some, Option-cases, inl, inr, List, leb, ◌==◌, length,
  update, arith, Ensures, ensures_some, ensures_none, ensures_if, ensures_bind, ensures_option,
  ensures_self, ℤ, ap, some_inj,
}
use logstats.Lru
use logstats.Lru.Seg.{Cells, IsList}
use logstats.Lru.Walk.{lru_list_destroy-Freed}
use logstats.MemPool
use logstats.MemPool.{Ptr, Words, MemPool}
use logstats.MemPool.Chain.{Chain, Chain-update, Apart}
use logstats.MemPool.Chunks.{mem_pool_delete-chunks}
use logstats.NameTree.{NameTree, World, with_dot, name_tree_delete, max_name_len}
use logstats.NameTree.Create.{destroy_rounds, name_tree_destroy}
use logstats.NameTree.Tree.{SearchTree, Name}

-- Giving an element back writes its link, and nothing else of the pool but the head of its free list.
mem_pool_free-writes :
    (mp : MemPool) (mem : Ptr) (words : Words)
    → Ensures
        (λ (r : MemPool × Words).
          (r.0.raw_mem_list ≡ mp.raw_mem_list)
          × (r.0.elem_count ≡ mp.elem_count)
          × (r.1 ≡ update words mem mp.free_list))
        (MemPool.mem_pool_free mp mem words)
unfolding MemPool.mem_pool_free
mem_pool_free-writes mp mem words =
    ensures_if (mem == 0) _ _ ensures_none (ensures_some (refl, refl, refl))

module _ (rb : SearchTree) where
  open rb use {Tree, search}

  -- The chunks of both pools are linked, no more than there are elements, and no node of the tree is at
  -- the head of one.
  pub record Chunked (t : NameTree rb) (w : World) : Type 0 where
    pub names : List Ptr
    pub nodes : List Ptr
    pub name_chunks : Chain w.words t.name_pool.raw_mem_list names
    pub node_chunks : Chain w.words t.node_pool.raw_mem_list nodes
    pub few : length names + length nodes ≤ t.name_pool.elem_count + t.node_pool.elem_count
    pub clear :
        (j : Name) (node p : Ptr)
        → search t.tree j ≡ some (node, p)
        → (Apart p names × Apart p nodes) × (Apart node names × Apart node nodes)

  pub name_tree_destroy_run :
      (t : NameTree rb) (w : World) (xs : Cells)
      → Chunked t w
      → IsList w.lru_memory t.lru xs
      → (r : List Ptr × List Ptr × Lru.Memory) × (name_tree_destroy rb (destroy_rounds rb t) t w
          ≡ some r)
  unfolding name_tree_destroy
  name_tree_destroy_run t w xs h list =
      let (memory, run, freed) = lru_list_destroy-Freed w.lru_memory t.lru xs list in
      let n = destroy_rounds rb t in
      let few = h.few in
      let names =
        mem_pool_delete-chunks n t.name_pool w.words h.names (omega (arith, few)) h.name_chunks in
      let nodes =
        mem_pool_delete-chunks n t.node_pool w.words h.nodes (omega (arith, few)) h.node_chunks in
      ((h.nodes, h.names, memory), rw (nodes, names, run) refl)

  -- What is found where a name is gone was found before.
  found_before :
      (t : NameTree rb) (left : Tree) (full : Name)
      → search left full ≡ none
      → ((j : Name) → j ≢ full → search left j ≡ search t.tree j)
      → (j : Name) (c : Ptr × Ptr) → search left j ≡ some c
      → search t.tree j ≡ some c
  found_before t left full gone others j c e =
      sym (others j (λ same. absurd (cc (gone, e, ap (λ i. search left i) same)))) ∙ e

  delete_cases :
      (t : NameTree rb) (full : Name) (left : Tree) (node p : Ptr)
      → rb.delete t.tree full ≡ some ((node, p), left)
      → (search t.tree full ≡ some (node, p))
        × (search left full ≡ none)
        × ((j : Name) → j ≢ full → search left j ≡ search t.tree j)
  delete_cases t full left node p e = elim (Option-cases (search t.tree full)) [
    | inl missing ↦ absurd (cc (e, rb.delete-absent t.tree full missing))
    | inr (c, found) ↦
        let (rest, run, gone, others) = rb.delete-present t.tree full c found in
        let same : (c, rest) ≡ ((node, p), left) = some_inj (sym run ∙ e) in
        let out = ap (λ (q : (Ptr × Ptr) × Tree). q.1) same in
        (
          found ∙ ap (λ (q : (Ptr × Ptr) × Tree). some q.0) same,
          rw out at gone,
          λ j ne. sym (ap (λ i. search i j) out) ∙ others j ne,
        )
  ]

  pub name_tree_delete-Chunked :
      (t : NameTree rb) (w : World) (lru : Lru.LruList) (memory : Lru.Memory) (name : Name)
      → Chunked t w
      → Ensures
          (λ (r : ℤ × NameTree rb × World). Chunked r.1 r.2)
          (name_tree_delete rb
            (record t { lru = lru })
            (record w { lru_memory = memory })
            (some name)
            none)
  unfolding name_tree_delete
  name_tree_delete-Chunked t w lru memory name h =
      let same : Chunked (record t { lru = lru }) (record w { lru_memory = memory }) = record {
        names = h.names;
        nodes = h.nodes;
        name_chunks = h.name_chunks;
        node_chunks = h.node_chunks;
        few = h.few;
        clear = h.clear;
      } in
      ensures_if (leb max_name_len (length name)) _ _ (ensures_some same) (
        ensures_bind _ (with_dot name) _ (ensures_self (with_dot name)) λ full e.
          ensures_option (rb.delete t.tree full) _ _ (ensures_some same) λ d g.
            let c = delete_cases t full d.1 d.0.0 d.0.1 g in
            let away = h.clear full d.0.0 d.0.1 c.0 in
            ensures_bind _ (MemPool.mem_pool_free t.name_pool d.0.1 w.words) _
              (mem_pool_free-writes t.name_pool d.0.1 w.words)
              λ q u.
                ensures_bind _ (MemPool.mem_pool_free t.node_pool d.0.0 q.1) _
                  (mem_pool_free-writes t.node_pool d.0.0 q.1)
                  λ r v. ensures_some (record {
                    names = h.names;
                    nodes = h.nodes;
                    name_chunks =
                        rw (v.2, u.2, u.0)
                          (Chain-update _ _ d.0.0 _ h.names away.1.0
                            (Chain-update w.words _ d.0.1 _ h.names away.0.0 h.name_chunks));
                    node_chunks =
                        rw (v.2, u.2, v.0)
                          (Chain-update _ _ d.0.0 _ h.nodes away.1.1
                            (Chain-update w.words _ d.0.1 _ h.nodes away.0.1 h.node_chunks));
                    few = omega (arith, u.1, v.1, h.few);
                    clear = λ j n p f. h.clear j n p (found_before t d.1 full c.1 c.2 j (n, p) f);
                  }))
