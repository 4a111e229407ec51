-- ===== src/ViewStats/Memory/Shrink.antt =====
-- view_stats_set_memsize as a whole.
use logstats.Base.{
  append-nil, ℕ, suc, ◌+◌, ◌≤◌, ◌<◌, ◌≡◌, ◌⊎◌, refl, sym, ap, inl, inr, some, [], ◌++◌, length,
  arith,
}
use logstats.Lru
use logstats.Lru.Seg.{Cells}
use logstats.NameTree.{NameTree, World}
use logstats.NameTree.Tree.{SearchTree}
use logstats.NameTree.Create.{Sizes}
use logstats.ViewStats.View.{View, view_stats_get_size}
use logstats.ViewStats.Memory.{view_stats_set_memsize}
use logstats.ViewStats.Memory.Evict.{Holds}
use logstats.ViewStats.Memory.Evict.Loop.{Least, evict_loop-Evicted, evict_within}

module _ (rb : SearchTree) (sizes : Sizes) (vs : View rb) (expect_size : ℕ) (xs ys : Cells) where
  -- A view of the names `xs` and the addresses `ys` after view_stats_set_memsize: each list has lost a
  -- part at its end, addresses only where no name is left, and the view is within the limit or empty.
  -- Neither has lost more than the limit asks for: each drop was made above it.
  pub record Shrunk (vs' : View rb) : Type 0 where
    pub names : Cells
    pub dropped_names : Cells
    pub split_names : xs ≡ names ++ dropped_names
    pub holds_names : Holds rb vs'.name_tree vs'.name_world names
    pub ips : Cells
    pub dropped_ips : Cells
    pub split_ips : ys ≡ ips ++ dropped_ips
    pub holds_ips : Holds rb vs'.ip_tree vs'.ip_world ips
    pub names_first : (dropped_ips ≡ []) ⊎ (names ≡ [])
    pub fits :
        (view_stats_get_size rb sizes vs'.name_tree vs'.ip_tree ≤ expect_size)
        ⊎ ((names ≡ []) × (ips ≡ []))
    pub least_names :
        Least rb expect_size
          (λ t. view_stats_get_size rb sizes t vs.ip_tree)
          (vs.name_tree, vs.name_world)
          names
          dropped_names
          (vs'.name_tree, vs'.name_world)
    pub least_ips :
        Least rb expect_size
          (λ t. view_stats_get_size rb sizes vs'.name_tree t)
          (vs.ip_tree, vs.ip_world)
          ips
          dropped_ips
          (vs'.ip_tree, vs'.ip_world)
    pub counters : vs'.counters ≡ vs.counters
    pub name : vs'.name ≡ vs.name

  fuel_enough :
      (t : NameTree rb) (w : World) (zs : Cells) → Holds rb t w zs → length zs < t.lru.count + 1
  fuel_enough t w zs h = omega (arith, ap (λ (l : Lru.LruList). l.count) h.list.shape)

  -- view_stats_set_memsize on a view whose trees agree with their lists ends; it drops the names used
  -- longest ago, then the addresses, and stops when the view is within the limit or empty. It changes
  -- nothing within the limit, and makes each drop above it. The trees, the lists and the counts agree
  -- afterwards.
  pub view_stats_set_memsize-Shrunk :
      Holds rb vs.name_tree vs.name_world xs
      → Holds rb vs.ip_tree vs.ip_world ys
      → (vs' : View rb) × (view_stats_set_memsize rb sizes vs expect_size ≡ some vs') × Shrunk vs'
  unfolding view_stats_set_memsize
  view_stats_set_memsize-Shrunk h k =
      let (n, run, v) =
        evict_loop-Evicted rb (vs.name_tree.lru.count + 1) expect_size
          (λ t. view_stats_get_size rb sizes t vs.ip_tree) vs.name_tree vs.name_world xs
          (fuel_enough vs.name_tree vs.name_world xs h) h in
      elim v.fits [
        | inl le ↦
            let one : vs.ip_tree.lru.count + 1 ≡ suc vs.ip_tree.lru.count = omega arith in
            let still =
              evict_within rb expect_size (λ t. view_stats_get_size rb sizes n.0 t) vs.ip_tree
                vs.ip_world vs.ip_tree.lru.count le in
            (
              record vs { name_tree = n.0; name_world = n.1 },
              rw (run, one, still) refl,
              record {
                names = v.kept;
                dropped_names = v.dropped;
                split_names = v.split;
                holds_names = v.holds;
                ips = ys;
                dropped_ips = [];
                split_ips = sym (append-nil ys);
                holds_ips = k;
                names_first = inl refl;
                fits = inl le;
                least_names = v.least;
                least_ips = inl (refl, refl);
                counters = refl;
                name = refl;
              },
            )
        | inr e ↦
            let (i, run', u) =
              evict_loop-Evicted rb (vs.ip_tree.lru.count + 1) expect_size
                (λ t. view_stats_get_size rb sizes n.0 t) vs.ip_tree vs.ip_world ys
                (fuel_enough vs.ip_tree vs.ip_world ys k) k in
            (
              record vs { name_tree = n.0; name_world = n.1; ip_tree = i.0; ip_world = i.1 },
              rw (run, run') refl,
              record {
                names = v.kept;
                dropped_names = v.dropped;
                split_names = v.split;
                holds_names = v.holds;
                ips = u.kept;
                dropped_ips = u.dropped;
                split_ips = u.split;
                holds_ips = u.holds;
                names_first = inr e;
                least_names = v.least;
                least_ips = u.least;
                fits = elim u.fits [ inl le ↦ inl le | inr f ↦ inr (e, f) ];
                counters = refl;
                name = refl;
              },
            )
      ]
