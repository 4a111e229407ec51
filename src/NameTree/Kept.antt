-- ===== src/NameTree/Kept.antt =====
-- name_tree_insert keeps the list, the tree and the count of a name tree in agreement.
use logstats.Base.{
  Option-cases, inl, inr, ◌<◌, ◌≡◌, ◌≢◌, sym, ap, subst, ◌∙◌, none, some, ℤ, [], ◌∷◌, ◌++◌, length,
  length-append, arith,
}
use logstats.Lru.Grown.{Listed-grown, OwnCell-grown}
use logstats.Lru.Listed.{Unlike, split_at_cell, cell_moved, Listed-moved}
use logstats.Lru.Seg.{Cells}
use logstats.MemPool
use logstats.MemPool.{Ptr, MemPool}
use logstats.NameTree.{Nodes, World, Blocks, NameTree, with_dot, name_tree_insert, max_name_len}
use logstats.NameTree.Bump.{count_sighting-count, count_sighting-ptr}
use logstats.NameTree.Dot.{with_dot-again}
use logstats.NameTree.Insert.{name_tree_insert-present, name_tree_insert-absent}
use logstats.NameTree.Tree.{SearchTree, Name}
use logstats.ViewStats.Memory.Evict.{Entry, Known, Covered, Holds}
use logstats.ViewStats.Tables.{names_decide}

module _ (rb : SearchTree) where
  open rb use {Tree, search}

  -- The same names and nodes of the list, whatever the counts and the positions are.
  module _ (nodes nodes' : Nodes)
      (same : (e : Ptr)
        → ((nodes' e).fqdn ≡ (nodes e).fqdn) × ((nodes' e).ptr ≡ (nodes e).ptr)) where
    Unlike-same :
        (tree : Tree) (p : Ptr) (xs : Cells)
        → Unlike (λ q. (nodes q).fqdn) (λ t q. Entry rb t nodes q) p xs
        → Unlike (λ q. (nodes' q).fqdn) (λ t q. Entry rb t nodes' q) p xs
    Unlike-same tree p [] u = tt
    Unlike-same tree p ((k, q) ∷ xs) u =
        ((λ e. u.0 (sym (same q).0 ∙ (e ∙ (same p).0))), Unlike-same tree p xs u.1)

    Known-same : (tree : Tree) (xs : Cells) → Known rb tree nodes xs → Known rb tree nodes' xs
    Known-same tree [] h = tt
    Known-same tree ((k, q) ∷ xs) h =
        let e = h.0 in
        let name = (same q).0 in
        (
          record {
            node = e.node;
            found = ap (λ n. search tree n) name ∙ e.found;
            node_some = e.node_some;
            dotted = rw name e.dotted;
            short = rw name e.short;
          },
          Unlike-same tree q xs h.1,
          Known-same tree xs h.2,
        )

    Covered-same :
        (xs : Cells) (j : Name) (q : Ptr) → Covered rb nodes xs j q → Covered rb nodes' xs j q
    Covered-same xs j q c = record { name = (same q).0 ∙ c.name; inside = rw (same q).1 c.inside }

  -- Both pools and malloc find memory, and the pool of the names a node that no name uses.
  pub record Room (t : NameTree rb) (w : World) (blocks : Blocks) : Type 0 where
    pub p : Ptr
    pub node : Ptr
    pub names : MemPool
    pub nodes : MemPool
    pub words1 : MemPool.Words
    pub words2 : MemPool.Words
    pub alloc1 : MemPool.mem_pool_alloc t.name_pool blocks.name_chunk w.words ≡ (p, names, words1)
    pub alloc2 : MemPool.mem_pool_alloc t.node_pool blocks.node_chunk words1 ≡ (node, nodes, words2)
    pub p_some : p ≢ 0
    pub node_some : node ≢ 0
    pub fresh : (j : Name) (n q : Ptr) → search t.tree j ≡ some (n, q) → q ≢ p
    pub lru_some : blocks.lru_node ≢ 0
    pub lru_free : w.lru_memory blocks.lru_node ≡ none

  module _ (t : NameTree rb) (w : World) (blocks : Blocks) (name full : Name) (xs : Cells)
      (h : Holds rb t w xs) (short : length name < max_name_len)
      (dotted : with_dot name ≡ some full) where
    -- A name that the tree has goes to the front.
    insert_present-Holds :
        (node p : Ptr)
        → search t.tree full ≡ some (node, p)
        → (r : ℤ × NameTree rb × World) × (rest : Cells) × (name_tree_insert rb t w blocks
              (some name)
            ≡ some r)
          × Holds rb r.1 r.2 (((w.nodes p).ptr, p) ∷ rest)
          × (((r.2).nodes p).fqdn ≡ full)
    insert_present-Holds node p found =
        let k = (w.nodes p).ptr in
        let c = h.covers full node p found in
        let (ys, zs, split) = split_at_cell c.inside in
        let h' = subst (λ us. Holds rb t w us) split h in
        let (r, run, seen) =
          name_tree_insert-present rb t w blocks name full node p ys zs short dotted found
            h'.list in
        let nodes = (r.2).nodes in
        let same : (e : Ptr)
            → ((nodes e).fqdn ≡ (w.nodes e).fqdn) × ((nodes e).ptr ≡ (w.nodes e).ptr) =
          λ e. (
            ap (λ (ns : Nodes). (ns e).fqdn) seen.heap.1
                ∙ (count_sighting-count t.heap p w.nodes e).1,
            ap (λ (ns : Nodes). (ns e).ptr) seen.heap.1 ∙ count_sighting-ptr t.heap p w.nodes e,
          ) in
        let cells = (k, p) ∷ (ys ++ zs) in
        let moved =
          Listed-moved (λ q. (w.nodes q).fqdn) (λ t q. Entry rb t w.nodes q) t.tree k p ys zs
            h'.known in
        (
          r,
          ys ++ zs,
          run,
          record {
            list = seen.recent;
            known =
                subst (λ tree. Known rb tree nodes cells) (sym seen.tree)
                  (Known-same w.nodes nodes same t.tree cells moved);
            covers = λ j n q e.
                let d = h'.covers j n q (ap (λ tree. search tree j) (sym seen.tree) ∙ e) in
                Covered-same w.nodes nodes same cells j q
                  (record { name = d.name; inside = cell_moved ys zs d.inside });
            count =
                seen.count
                ∙ omega (arith, h'.count, length-append ys ((k, p) ∷ zs), length-append ys zs);
          },
          (same p).0 ∙ c.name,
        )

    -- A new name goes to the front.
    insert_absent-Holds :
        (room : Room t w blocks)
        → search t.tree full ≡ none
        → (r : ℤ × NameTree rb × World) × (name_tree_insert rb t w blocks (some name) ≡ some r)
          × Holds rb r.1 r.2 ((blocks.lru_node, room.p) ∷ xs)
          × (((r.2).nodes room.p).fqdn ≡ full)
    insert_absent-Holds room missing =
        let p = room.p in
        let node = room.node in
        let fresh = room.fresh in
        let (r, run, c) =
          name_tree_insert-absent rb t w blocks name full node p room.names room.nodes room.words1
            room.words2 xs short dotted missing room.alloc1 room.alloc2 room.p_some room.node_some
            h.list room.lru_some room.lru_free in
        let after = (r.2).nodes in
        let grown = (r.1).tree in
        let (again, fits) = with_dot-again name full dotted in
        let differs : (j : Name) (m : Ptr × Ptr) → search t.tree j ≡ some m → j ≢ full =
          λ j m e f. absurd (cc (e, missing, ap (λ i. search t.tree i) f)) in
        let others : (j : Name) → j ≢ (after p).fqdn → search grown j ≡ search t.tree j =
          λ j ne. c.others j (λ e. ne (e ∙ sym c.name)) in
        let found = ap (λ n. search grown n) c.name ∙ c.found in
        (
          r,
          run,
          record {
            list = c.recent;
            known =
                Listed-grown (λ q. (w.nodes q).fqdn) (λ q. (after q).fqdn)
                  (λ t q. Entry rb t w.nodes q) (λ t q. Entry rb t after q) t.tree grown p
                  (λ q e.
                    let ne = fresh (w.nodes q).fqdn e.node q e.found in
                    let (name_same, ptr_same) = c.same q ne in
                    let unlike = differs (w.nodes q).fqdn (e.node, q) e.found in
                    (
                      ne,
                      name_same,
                      (λ f. unlike (f ∙ c.name)),
                      record {
                        node = e.node;
                        found =
                            ap (λ n. search grown n) name_same
                            ∙ (c.others (w.nodes q).fqdn unlike ∙ e.found);
                        node_some = e.node_some;
                        dotted = rw name_same e.dotted;
                        short = rw name_same e.short;
                      },
                    ))
                  blocks.lru_node xs
                  (record {
                    node = node;
                    found = found;
                    node_some = room.node_some;
                    dotted = rw c.name again;
                    short = rw c.name fits;
                  })
                  h.known;
            covers = λ j n q e.
                subst (λ own. Covered rb after ((own, p) ∷ xs) j q) c.own
                  (OwnCell-grown (λ q. (w.nodes q).fqdn) (λ q. (after q).fqdn)
                    (λ q. (w.nodes q).ptr) (λ q. (after q).ptr) (search t.tree) (search grown) node
                    p (λ i. names_decide i (after p).fqdn) xs found others
                    (λ i m u f. c.same u (fresh i m u f)) h.covers j n q e);
            count = c.count ∙ omega (arith, h.count);
          },
          c.name,
        )

    -- A name of fewer than 32 bytes whose dot fits, where list, tree and count agree, and the pools and malloc
    -- find memory that no name uses if the name is new: name_tree_insert succeeds and puts the name in front
    -- of the list, found in the tree and with its own node of the list, and list, tree and count still
    -- agree.
    pub name_tree_insert-Holds :
        (search t.tree full ≡ none → Room t w blocks)
        → (r : ℤ × NameTree rb × World) × (cell : Ptr × Ptr) × (rest : Cells) × (name_tree_insert rb
              t w blocks
              (some name)
            ≡ some r)
          × Holds rb r.1 r.2 (cell ∷ rest)
          × (((r.2).nodes cell.1).fqdn ≡ full)
    name_tree_insert-Holds room = elim (Option-cases (search t.tree full)) [
      | inl missing ↦
          let (r, run, after, front) = insert_absent-Holds (room missing) missing in
          (r, (blocks.lru_node, (room missing).p), xs, run, after, front)
      | inr ((node, p), found) ↦
          let (r, rest, run, after, front) = insert_present-Holds node p found in
          (r, ((w.nodes p).ptr, p), rest, run, after, front)
    ]
