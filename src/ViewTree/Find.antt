-- ===== src/ViewTree/Find.antt =====
-- What view_tree_find of src/log_view_tree.c finds after an insertion and after a removal.
use logstats.Base.{
  ℕ, ◌+◌, ◌-◌, ◌%◌, ◌^◌, ◌<◌, ◌≡◌, ◌≢◌, refl, Bool-cases, inl, inr, true, false, none, some, ◌||◌,
  ltb, ◌==◌, update, ◌∷◌, length, arith,
}
use logstats.Lru.Seg.{Cells, IsList}
use logstats.Lru.Insert.{lru_list_insert-Inserted}
use logstats.MemPool.{Ptr}
use logstats.NameTree.Tree.{SearchTree, Name}
use logstats.ViewStats.View.{View}
use logstats.ViewTree.{
  ViewTreeNode, ViewMemory, ViewBlocks, ViewTree, copy_name, stats_node_max_size, view_tree_insert,
  view_tree_find, view_tree_delete, load_stats,
}
use logstats.ViewStats.Memory.Freeable.{Freeable}
use logstats.ViewTree.Freeable.{view_stats_destory_run}
use logstats.ViewTree.Live.{Sound}

pub copy_name-short : (name : Name) → length name < stats_node_max_size → copy_name name ≡ some name
copy_name-short name h =
    let fits : ltb (length name) stats_node_max_size ≡ true = ground arith in rw fits refl

module _ (rb : SearchTree) (t : ViewTree rb) where
  open rb use {search}

  -- view_tree_find depends on the search tree only.
  find-eq :
      (t' : ViewTree rb) (j : Name)
      → search t'.rbtree j ≡ search t.rbtree j
      → view_tree_find rb t' j ≡ view_tree_find rb t j
  unfolding view_tree_find
  find-eq t' j e = elim (Bool-cases (ltb (length j) stats_node_max_size)) [
    | inl fits ↦ rw (fits, e) refl
    | inr long ↦ rw long refl
  ]

  pub find-some :
      (t' : ViewTree rb) (j : Name) (node p : Ptr)
      → length j < stats_node_max_size
      → search t'.rbtree j ≡ some (node, p)
      → view_tree_find rb t' j ≡ some (some p)
  unfolding view_tree_find
  find-some t' j node p short e = rw (copy_name-short j short, e) refl

  pub find-none :
      (t' : ViewTree rb) (j : Name)
      → length j < stats_node_max_size
      → search t'.rbtree j ≡ none
      → view_tree_find rb t' j ≡ some none
  unfolding view_tree_find
  find-none t' j short e = rw (copy_name-short j short, e) refl

  -- What an insertion of a new view ends with.
  pub record Entered (w : ViewMemory rb) (blocks : ViewBlocks) (name : Name) (vs : Ptr) (xs : Cells)
      (r : ℕ × ViewTree rb × ViewMemory rb) : Type 0 where
    pub code : r.0 ≡ 0
    pub found : view_tree_find rb r.1 name ≡ some (some blocks.vtnode)
    pub others : (j : Name) → j ≢ name → view_tree_find rb r.1 j ≡ view_tree_find rb t j
    pub value : (r.2).views blocks.vtnode ≡ record { name = name; vs = vs; ptr = blocks.lru_node }
    pub stats : (r.2).stats ≡ w.stats
    pub recent : IsList (r.2).lru_memory (r.1).lrulist ((blocks.lru_node, blocks.vtnode) ∷ xs)

  -- A view of a new name of fewer than 128 bytes, where malloc finds memory: view_tree_find finds it
  -- under its name, with its statistics and its own node of the list, which is the first; what is found
  -- under other names is as before.
  pub view_tree_insert-Entered :
      (w : ViewMemory rb) (blocks : ViewBlocks) (name : Name) (vs : Ptr) (xs : Cells)
      → length name < stats_node_max_size
      → search t.rbtree name ≡ none
      → blocks.vtnode ≢ 0
      → blocks.node ≢ 0
      → IsList w.lru_memory t.lrulist xs
      → blocks.lru_node ≢ 0
      → w.lru_memory blocks.lru_node ≡ none
      → (r : ℕ × ViewTree rb × ViewMemory rb) × (view_tree_insert rb t w blocks name vs ≡ some r)
        × Entered w blocks name vs xs r
  unfolding view_tree_insert
  view_tree_insert-Entered w blocks name vs xs short missing nv nn recent nl fl =
      let (grown, added, found, others) =
        rb.insert-absent t.rbtree name (blocks.node, blocks.vtnode) missing in
      let (l, run, i) =
        lru_list_insert-Inserted w.lru_memory t.lrulist xs blocks.lru_node blocks.vtnode recent nl
          fl nv in
      let t' : ViewTree rb = record {
        rbtree = grown;
        lrulist = l.1;
        count = (t.count + 1) % 2 ^ 32;
      } in
      let have : (blocks.vtnode == 0 || blocks.node == 0) ≡ false = ground arith in
      let own : ViewTreeNode = record { name = name; vs = vs; ptr = l.0 } in
      (
        (0, t', record w { views = update w.views blocks.vtnode own; lru_memory = l.2 }),
        rw (have, copy_name-short name short, added, run) refl,
        record {
          code = refl;
          found = find-some t' name blocks.node blocks.vtnode short found;
          others = λ j ne. find-eq t' j (others j ne);
          value = ground (arith, i.address);
          stats = refl;
          recent = i.list;
        },
      )

  -- Removing the view of a name of fewer than 128 bytes that the tree has, with its statistics still
  -- allocated, the lists of both of their trees well-formed and the chunks of their pools linked:
  -- name_tree_destroy of both trees ends, view_tree_find gives NULL for it and is as before for the other names; its statistics, and
  -- no others, are freed, and the list still has the node of the view.
  pub view_tree_delete-find :
      (w : ViewMemory rb) (vs : View rb) (name : Name) (node p : Ptr)
      → length name < stats_node_max_size
      → search t.rbtree name ≡ some (node, p)
      → (w.views p).vs ≢ 0
      → w.stats (w.views p).vs ≡ some vs
      → Sound rb vs
      → Freeable rb vs
      → (t' : ViewTree rb) × (view_tree_delete rb t w name
          ≡ some (t', record w { stats = update w.stats (w.views p).vs none }))
        × (view_tree_find rb t' name ≡ some none)
        × ((j : Name) → j ≢ name → view_tree_find rb t' j ≡ view_tree_find rb t j)
        × (t'.lrulist ≡ t.lrulist)
        × (t'.count ≡ (t.count + 2 ^ 32 - 1) % 2 ^ 32)
  unfolding view_tree_delete load_stats
  view_tree_delete-find w vs name node p short there nz live sound free =
      let (left, removed, gone, others) = rb.delete-present t.rbtree name (node, p) there in
      let t' : ViewTree rb = record t { rbtree = left; count = (t.count + 2 ^ 32 - 1) % 2 ^ 32 } in
      let some_vs : ((w.views p).vs == 0) ≡ false = ground arith in
      let load : load_stats rb w (w.views p).vs ≡ some vs = rw (some_vs, live) refl in
      (
        t',
        rw
            (
              copy_name-short name short,
              removed,
              view_stats_destory_run rb w (w.views p).vs vs load sound free,
            )
            refl,
        find-none t' name short gone,
        (λ j ne. find-eq t' j (others j ne)),
        refl,
        refl,
      )
