-- ===== src/ViewTree/Fresh.antt =====
-- The entries of the tree of src/log_view_tree.c beside a view that is new.

use logstats.Base.{
  ◌≡◌, ◌≢◌, refl, sym, ap, false, Option, none, some, List, [], ◌∷◌, ◌++◌, ◌==◌, update, arith,
}
use logstats.MemPool.{Ptr}
use logstats.NameTree.Tree.{SearchTree, Name, TreeNode}
use logstats.ViewStats.View.{View}
use logstats.ViewTree.{ViewTreeNode}
use logstats.ViewTree.Live.{Allocated, Apart, Live}

module _ (rb : SearchTree) where
  open rb use {Tree, search}

  -- No entry is the node `p`, and none has its statistics at `a`.
  abbrev pub Fresh : Ptr → List (Name × TreeNode) → Type 0
  Fresh p [] = Unit {0}
  Fresh p ((k, (node, q)) ∷ rest) = (q ≢ p) × Fresh p rest

  abbrev pub Elsewhere : (Ptr → ViewTreeNode) → Ptr → List (Name × TreeNode) → Type 0
  Elsewhere views a [] = Unit {0}
  Elsewhere views a ((k, (node, q)) ∷ rest) = ((views q).vs ≢ a) × Elsewhere views a rest

  pub Fresh-at :
      (p : Ptr) (k : Name) (node q : Ptr) (before after : List (Name × TreeNode))
      → Fresh p (before ++ (k, (node, q)) ∷ after)
      → q ≢ p
  Fresh-at p k node q [] after f = f.0
  Fresh-at p k node q (e ∷ before) after f = Fresh-at p k node q before after f.1

  module _ (views : Ptr → ViewTreeNode) (stats : Ptr → Option (View rb)) where
    -- Statistics in memory that was not allocated are no entry's.
    pub Live-Elsewhere :
        (a : Ptr) (es : List (Name × TreeNode))
        → stats a ≡ none
        → Live rb views stats es
        → Elsewhere views a es
    Live-Elsewhere a [] free h = tt
    Live-Elsewhere a ((k, (node, q)) ∷ es) free h =
        ((λ e. absurd (cc (h.0.there, ap stats e, free))), Live-Elsewhere a es free h.2)

    -- The same entries, with the statistics `vs` stored at `a` and another node at `p`.
    module _ (a p : Ptr) (vs : View rb) (own : ViewTreeNode) where
      abbrev pub views' : Ptr → ViewTreeNode
      views' = update views p own

      pub views'-other : (q : Ptr) → q ≢ p → views' q ≡ views q
      views'-other q ne = let miss : (p == q) ≡ false = ground arith in rw miss refl

      Allocated-new :
          (q : Ptr)
          → q ≢ p
          → (views q).vs ≢ a
          → Allocated rb views stats q
          → Allocated rb views' (update stats a (some vs)) q
      Allocated-new q ne away h =
          let miss : (a == (views q).vs) ≡ false = ground arith in
          let other = views'-other q ne in
          record {
            vs = h.vs;
            some_vs = rw other h.some_vs;
            there = rw other (rw miss h.there);
            sound = h.sound;
          }

      Apart-new :
          (q : Ptr) (es : List (Name × TreeNode))
          → q ≢ p
          → Fresh p es
          → Apart rb views q es
          → Apart rb views' q es
      Apart-new q [] ne f h = tt
      Apart-new q ((k, (node, r)) ∷ es) ne f h =
          (rw (views'-other q ne, views'-other r f.0) h.0, Apart-new q es ne f.1 h.1)

      pub Live-new :
          (es : List (Name × TreeNode))
          → Fresh p es
          → Elsewhere views a es
          → Live rb views stats es
          → Live rb views' (update stats a (some vs)) es
      Live-new [] f e h = tt
      Live-new ((k, (node, q)) ∷ es) f e h =
          (Allocated-new q f.0 e.0 h.0, Apart-new q es f.0 f.1 h.1, Live-new es f.1 e.1 h.2)

      pub Elsewhere-new :
          (es : List (Name × TreeNode)) → Fresh p es → Elsewhere views a es → Elsewhere views' a es
      Elsewhere-new [] f e = tt
      Elsewhere-new ((k, (node, q)) ∷ es) f e =
          (rw (views'-other q f.0) e.0, Elsewhere-new es f.1 e.1)

  module _ (views : Ptr → ViewTreeNode) (stats : Ptr → Option (View rb)) (k : Name)
      (node p : Ptr) where
    Apart-insert :
        (q : Ptr) (before after : List (Name × TreeNode))
        → (views p).vs ≢ (views q).vs
        → Apart rb views q (before ++ after)
        → Apart rb views q (before ++ (k, (node, p)) ∷ after)
    Apart-insert q [] after ne a = (ne, a)
    Apart-insert q (e ∷ before) after ne a = (a.0, Apart-insert q before after ne a.1)

    Apart-all :
        (es : List (Name × TreeNode)) → Elsewhere views (views p).vs es → Apart rb views p es
    Apart-all [] e = tt
    Apart-all ((l, (m, q)) ∷ es) e = (e.0, Apart-all es e.1)

    -- The entry of `p` among the others.
    pub Live-insert :
        (before after : List (Name × TreeNode))
        → Allocated rb views stats p
        → Elsewhere views (views p).vs (before ++ after)
        → Live rb views stats (before ++ after)
        → Live rb views stats (before ++ (k, (node, p)) ∷ after)
    Live-insert [] after alloc e h = (alloc, Apart-all after e, h)
    Live-insert ((l, (m, q)) ∷ before) after alloc e h = (
      h.0,
      Apart-insert q before after (λ s. e.0 (sym s)) h.1,
      Live-insert before after alloc e.1 h.2,
    )
