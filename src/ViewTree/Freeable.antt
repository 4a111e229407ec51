-- ===== src/ViewTree/Freeable.antt =====
-- view_stats_destory of src/log_view_stats.c: statistics of sound trees whose chunks are linked are freed.
use logstats.Base.{
  ◌≡◌, refl, subst, Option, none, some, Bool-cases, inl, inr, ◌==◌, update, arith, some_inj,
}
use logstats.MemPool.{Ptr}
use logstats.NameTree.Chunked.{name_tree_destroy_run}
use logstats.NameTree.Tree.{SearchTree}
use logstats.ViewStats.Memory.Freeable.{Freeable}
use logstats.ViewStats.View.{View}
use logstats.ViewTree.{ViewMemory, load_stats, view_stats_destory}
use logstats.ViewTree.Live.{Sound}

module _ (rb : SearchTree) where
  -- All statistics that are allocated can be freed.
  abbrev pub AllFreeable : (Ptr → Option (View rb)) → Type 0
  AllFreeable stats = (a : Ptr) (vs : View rb) → stats a ≡ some vs → Freeable rb vs

  pub view_stats_destory_run :
      (w : ViewMemory rb) (a : Ptr) (vs : View rb)
      → load_stats rb w a ≡ some vs
      → Sound rb vs
      → Freeable rb vs
      → view_stats_destory rb w a ≡ some (record w { stats = update w.stats a none })
  unfolding view_stats_destory
  view_stats_destory_run w a vs load s f =
      let (r, names) =
        name_tree_destroy_run rb vs.name_tree vs.name_world s.names f.names s.holds_names.list in
      let (q, ips) = name_tree_destroy_run rb vs.ip_tree vs.ip_world s.ips f.ips s.holds_ips.list in
      rw (load, names, ips) refl

  pub AllFreeable-freed :
      (stats : Ptr → Option (View rb)) (a : Ptr)
      → AllFreeable stats
      → AllFreeable (update stats a none)
  AllFreeable-freed stats a all b vs e = all b vs (ground (arith, e))

  pub AllFreeable-stored :
      (stats : Ptr → Option (View rb)) (a : Ptr) (own : View rb)
      → Freeable rb own
      → AllFreeable stats
      → AllFreeable (update stats a (some own))
  AllFreeable-stored stats a own f all b vs e = elim (Bool-cases (a == b)) [
    | inl hit ↦ subst (λ v. Freeable rb v) (some_inj (rw hit at e)) f
    | inr miss ↦ all b vs (rw miss at e)
  ]
