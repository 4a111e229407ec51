-- ===== src/ViewTree/Enter.antt =====
-- A new view of src/log_view_tree.c: view_tree_insert keeps list, tree, count and statistics in agreement.
use logstats.Base.{
  ℕ, ◌+◌, ◌<◌, ◌%◌, ◌^◌, ◌≡◌, ◌≢◌, refl, sym, ap, subst, ◌∙◌, true, false, Option, none, some, ◌∷◌,
  length, ◌==◌, ◌||◌, update, arith,
}
use logstats.Lru.Insert.{lru_list_insert-Inserted}
use logstats.Lru.Grown.{Listed-grown, OwnCell-grown}
use logstats.Lru.Seg.{Cells}
use logstats.MemPool.{Ptr}
use logstats.NameTree.Tree.{SearchTree, Name, TreeNode}
use logstats.ViewStats.Tables.{names_decide}
use logstats.ViewStats.View.{View}
use logstats.ViewTree.{
  ViewTree, ViewTreeNode, ViewMemory, ViewBlocks, stats_node_max_size, view_tree_insert,
}
use logstats.ViewTree.Find.{copy_name-short}
use logstats.ViewTree.Fresh.{
  Fresh, Fresh-at, Elsewhere, Live-Elsewhere, Live-new, Elsewhere-new, Live-insert,
}
use logstats.ViewTree.Live.{Sound, Allocated, Live}
use logstats.ViewTree.Shrink.{Entry, Managed, Covered}

module _ (rb : SearchTree) where
  open rb use {Tree, search, in_order}

  module _ (views : Ptr → ViewTreeNode) (tree grown : Tree) (p : Ptr) (own : ViewTreeNode)
      (fresh : Fresh rb p (in_order tree)) where
    abbrev with_own : Ptr → ViewTreeNode
    with_own = update views p own

    same_other : (q : Ptr) → q ≢ p → with_own q ≡ views q
    same_other q ne = let miss : (p == q) ≡ false = ground arith in rw miss refl

    found-Fresh : (j : Name) (node q : Ptr) → search tree j ≡ some (node, q) → q ≢ p
    found-Fresh j node q found =
        let (before, after, whole) = rb.in_order-search tree j (node, q) found in
        Fresh-at rb p j node q before after (subst (λ es. Fresh rb p es) whole fresh)

    module _ (missing : search tree own.name ≡ none)
        (others : (j : Name) → j ≢ own.name → search grown j ≡ search tree j) where
      found-differs : (j : Name) (n : TreeNode) → search tree j ≡ some n → j ≢ own.name
      found-differs j n found e = absurd (cc (found, missing, ap (λ i. search tree i) e))

      -- What the others keep.
      Entry-new :
          (q : Ptr)
          → Entry rb views tree q
          → (q ≢ p)
            × ((with_own q).name ≡ (views q).name)
            × ((views q).name ≢ (with_own p).name)
            × Entry rb with_own grown q
      Entry-new q h =
          let ne = found-Fresh (views q).name h.node q h.found in
          let other = same_other q ne in
          let here : (p == p) ≡ true = ground arith in
          let differs = found-differs (views q).name (h.node, q) h.found in
          let found = others (views q).name differs ∙ h.found in
          (
            ne,
            ap (λ (v : ViewTreeNode). v.name) other,
            rw here differs,
            record { node = h.node; found = rw other found; short = rw other h.short },
          )

  -- What an insertion of a new view leaves.
  pub record Placed (w : ViewMemory rb) (blocks : ViewBlocks) (name : Name) (a : Ptr)
      (view : View rb) (xs : Cells) (r : ℕ × ViewTree rb × ViewMemory rb) : Type 0 where
    pub code : r.0 ≡ 0
    pub managed : Managed rb r.1 r.2 ((blocks.lru_node, blocks.vtnode) ∷ xs)
    pub vs : ((r.2).views blocks.vtnode).vs ≡ a
    pub name_same : ((r.2).views blocks.vtnode).name ≡ name
    pub stats : (r.2).stats ≡ update w.stats a (some view)

  -- What malloc has to return for a new view: memory, and not the node of another view, nor of the list,
  -- nor statistics that are in use.
  pub record NewBlocks (t : ViewTree rb) (w : ViewMemory rb) (blocks : ViewBlocks) (a : Ptr)
      : Type 0 where
    pub vtnode : blocks.vtnode ≢ 0
    pub node : blocks.node ≢ 0
    pub lru_node : blocks.lru_node ≢ 0
    pub vs : a ≢ 0
    pub fresh : Fresh rb blocks.vtnode (in_order t.rbtree)
    pub free_node : w.lru_memory blocks.lru_node ≡ none
    pub free_stats : w.stats a ≡ none

  -- Where list, tree, count and statistics agree, and malloc finds memory, view_tree_insert of a new name
  -- of fewer than 128 bytes, with its statistics stored before, puts the view in front of the list, and they
  -- still agree.
  pub view_tree_insert-Managed :
      (t : ViewTree rb) (w : ViewMemory rb) (blocks : ViewBlocks) (name : Name) (a : Ptr)
      (view : View rb) (xs : Cells)
      → Managed rb t w xs
      → NewBlocks t w blocks a
      → length name < stats_node_max_size
      → search t.rbtree name ≡ none
      → Sound rb view
      → (r : ℕ × ViewTree rb × ViewMemory rb) × (view_tree_insert rb t
            (record w { stats = update w.stats a (some view) })
            blocks
            name
            a
          ≡ some r)
        × Placed w blocks name a view xs r
  unfolding view_tree_insert
  view_tree_insert-Managed t w blocks name a view xs h new short missing sound =
      let p = blocks.vtnode in
      let own : ViewTreeNode = record { name = name; vs = a; ptr = blocks.lru_node } in
      let (grown, added, found, others) = rb.insert-absent t.rbtree name (blocks.node, p) missing in
      let (before, after, whole, whole') =
        rb.in_order-insert t.rbtree grown name (blocks.node, p) missing added in
      let (l, run, i) =
        lru_list_insert-Inserted w.lru_memory t.lrulist xs blocks.lru_node p h.list new.lru_node
          new.free_node new.vtnode in
      let have : (p == 0 || blocks.node == 0) ≡ false = ground (arith, new.vtnode, new.node) in
      let here : (p == p) ≡ true = ground arith in
      let here_a : (a == a) ≡ true = ground arith in
      let away = Live-Elsewhere rb w.views w.stats a (in_order t.rbtree) new.free_stats h.live in
      let views : Ptr → ViewTreeNode = update w.views p own in
      let stats : Ptr → Option (View rb) = update w.stats a (some view) in
      let at_p : views p ≡ own = rw here refl in
      let same : (j : Name) (n q : Ptr)
          → search t.rbtree j ≡ some (n, q)
          → ((views q).name ≡ (w.views q).name) × ((views q).ptr ≡ (w.views q).ptr) =
        λ j n q e.
          let other =
            same_other w.views t.rbtree grown p own new.fresh q
              (found-Fresh w.views t.rbtree grown p own new.fresh j n q e) in
          (ap (λ (v : ViewTreeNode). v.name) other, ap (λ (v : ViewTreeNode). v.ptr) other) in
      let away' =
        Elsewhere-new rb w.views w.stats a p view own (in_order t.rbtree) new.fresh away in
      let live =
        Live-new rb w.views w.stats a p view own (in_order t.rbtree) new.fresh away h.live in
      let alloc : Allocated rb views stats p = record {
        vs = view;
        some_vs = rw here new.vs;
        there = rw here (rw here_a refl);
        sound = sound;
      } in
      (
        (
          0,
          record { rbtree = grown; lrulist = l.1; count = (t.count + 1) % 2 ^ 32 },
          record w {
            views = update w.views p own;
            lru_memory = l.2;
            stats = update w.stats a (some view);
          },
        ),
        rw (have, copy_name-short name short, added, run, i.address) refl,
        record {
          code = refl;
          managed = record {
            list = i.list;
            known =
                Listed-grown (λ q. (w.views q).name) (λ q. (views q).name) (Entry rb w.views)
                  (Entry rb views) t.rbtree grown p
                  (Entry-new w.views t.rbtree grown p own new.fresh missing others) blocks.lru_node
                  xs (record { node = blocks.node; found = rw here found; short = rw here short })
                  h.known;
            covers = λ j n q e.
                subst (λ own_node. Covered rb views ((own_node, p) ∷ xs) j q)
                  (ap (λ (v : ViewTreeNode). v.ptr) at_p)
                  (OwnCell-grown (λ q. (w.views q).name) (λ q. (views q).name)
                    (λ q. (w.views q).ptr) (λ q. (views q).ptr) (search t.rbtree) (search grown)
                    blocks.node p (λ i. names_decide i (views p).name) xs (rw here found)
                    (λ i ne. others i (λ f. ne (f ∙ sym (ap (λ (v : ViewTreeNode). v.name) at_p))))
                    same h.covers j n q e);
            count = omega (arith, h.count);
            live =
                subst (λ es. Live rb views stats es) (sym whole')
                  (Live-insert rb views stats name blocks.node p before after alloc
                    (subst (λ es. Elsewhere rb views (views p).vs es) whole (rw here away'))
                    (subst (λ es. Live rb views stats es) whole live));
          };
          vs = rw here refl;
          name_same = rw here refl;
          stats = refl;
        },
      )
