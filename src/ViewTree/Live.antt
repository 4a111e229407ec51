-- ===== src/ViewTree/Live.antt =====
-- The statistics of the views of src/log_view_tree.c: those of every entry of the tree are allocated, and
-- no two entries share them.
use logstats.Base.{
  ℕ, ◌+◌, ◌≡◌, ◌≢◌, refl, sym, false, Bool-cases, inl, inr, Option, none, some, List, [], ◌∷◌, ◌++◌,
  ◌==◌, update, arith,
}
use logstats.Lru.Seg.{Cells}
use logstats.MemPool.{Ptr}
use logstats.NameTree.Create.{Sizes}
use logstats.NameTree.Tree.{SearchTree, Name, TreeNode}
use logstats.ViewStats.Memory.Evict.{Holds}
use logstats.ViewStats.View.{View, view_stats_get_size}
use logstats.ViewTree.{ViewTreeNode, ViewMemory, load_stats, sum_sizes, stats_node_max_size}

module _ (rb : SearchTree) where
  -- Both trees of a view agree with their lists.
  pub record Sound (vs : View rb) : Type 0 where
    pub names : Cells
    pub holds_names : Holds rb vs.name_tree vs.name_world names
    pub ips : Cells
    pub holds_ips : Holds rb vs.ip_tree vs.ip_world ips

  module _ (views : Ptr → ViewTreeNode) where
    pub record Allocated (stats : Ptr → Option (View rb)) (p : Ptr) : Type 0 where
      pub vs : View rb
      pub some_vs : (views p).vs ≢ 0
      pub there : stats (views p).vs ≡ some vs
      pub sound : Sound vs

    -- No entry has the statistics of `p`.
    abbrev pub Apart : Ptr → List (Name × TreeNode) → Type 0
    Apart p [] = Unit {0}
    Apart p ((k, (node, q)) ∷ rest) = ((views q).vs ≢ (views p).vs) × Apart p rest

    abbrev pub Live : (Ptr → Option (View rb)) → List (Name × TreeNode) → Type 0
    Live stats [] = Unit {0}
    Live stats ((k, (node, p)) ∷ rest) = Allocated stats p × Apart p rest × Live stats rest

    module _ (stats : Ptr → Option (View rb)) where
      other :
          (a : Ptr) (o : Option (View rb)) (q : Ptr)
          → (views q).vs ≢ a
          → Allocated stats q
          → Allocated (update stats a o) q
      other a o q ne h = record {
        vs = h.vs;
        some_vs = h.some_vs;
        there = let miss : (a == (views q).vs) ≡ false = ground arith in rw miss h.there;
        sound = h.sound;
      }

      Live-other :
          (p : Ptr) (o : Option (View rb)) (es : List (Name × TreeNode))
          → Apart p es
          → Live stats es
          → Live (update stats (views p).vs o) es
      Live-other p o [] a h = tt
      Live-other p o ((k, (node, q)) ∷ es) a h =
          (other (views p).vs o q a.0 h.0, h.1, Live-other p o es a.1 h.2)

      Apart-drop :
          (q : Ptr) (k : Name) (node p : Ptr) (before after : List (Name × TreeNode))
          → Apart q (before ++ (k, (node, p)) ∷ after)
          → Apart q (before ++ after) × ((views p).vs ≢ (views q).vs)
      Apart-drop q k node p [] after a = (a.1, a.0)
      Apart-drop q k node p ((l, (m, r)) ∷ before) after a =
          let ih = Apart-drop q k node p before after a.1 in ((a.0, ih.0), ih.1)

      -- The entry of `p` is dropped and its statistics are freed.
      pub Live-drop :
          (k : Name) (node p : Ptr) (before after : List (Name × TreeNode))
          → Live stats (before ++ (k, (node, p)) ∷ after)
          → Live (update stats (views p).vs none) (before ++ after)
      Live-drop k node p [] after h = Live-other p none after h.1 h.2
      Live-drop k node p ((l, (m, q)) ∷ before) after h =
          let apart = Apart-drop q k node p before after h.1 in
          (
            other (views p).vs none q (λ e. apart.1 (sym e)) h.0,
            apart.0,
            Live-drop k node p before after h.2,
          )

      pub Live-at :
          (k : Name) (node p : Ptr) (before after : List (Name × TreeNode))
          → Live stats (before ++ (k, (node, p)) ∷ after)
          → Allocated stats p
      Live-at k node p [] after h = h.0
      Live-at k node p (e ∷ before) after h = Live-at k node p before after h.2

      -- Other statistics are stored in place of those that are there.
      pub Live-store :
          (a : Ptr) (vs : View rb) (es : List (Name × TreeNode))
          → Sound vs
          → Live stats es
          → Live (update stats a (some vs)) es
      Live-store a vs [] s h = tt
      Live-store a vs ((k, (node, q)) ∷ es) s h = (
        elim (Bool-cases (a == (views q).vs)) [
          | inl hit ↦ record { vs = vs; some_vs = h.0.some_vs; there = rw hit refl; sound = s }
          | inr miss ↦ record {
            vs = h.0.vs;
            some_vs = h.0.some_vs;
            there = rw miss h.0.there;
            sound = h.0.sound;
          }
        ],
        h.1,
        Live-store a vs es s h.2,
      )

  pub load_stats-Allocated :
      (w : ViewMemory rb) (p : Ptr) (h : Allocated w.views w.stats p)
      → load_stats rb w (w.views p).vs ≡ some h.vs
  unfolding load_stats
  load_stats-Allocated w p h =
      let valid : ((w.views p).vs == 0) ≡ false = ground (arith, h.some_vs) in rw valid h.there

  pub sum_sizes-Live :
      (sizes : Sizes) (w : ViewMemory rb) (es : List (Name × TreeNode))
      → Live w.views w.stats es
      → (n : ℕ) × (sum_sizes rb sizes w es ≡ some n)
  unfolding sum_sizes
  sum_sizes-Live sizes w [] h = (0, refl)
  sum_sizes-Live sizes w ((k, (node, p)) ∷ es) h =
      let (n, e) = sum_sizes-Live sizes w es h.2 in
      let vs = h.0.vs in
      (
        n + (view_stats_get_size rb sizes vs.name_tree vs.ip_tree + stats_node_max_size),
        rw (load_stats-Allocated w p h.0, e) refl,
      )
