-- ===== src/HouseKeeper/Steps/Always.antt =====
-- The induction over the steps of the house keeper.
use logstats.Base.{
  ℕ, Bool, Option, some, List, [], ◌∷◌, ltb, ◌==◌, ◌||◌, ◌&&◌, update, length, ℤ, Ensures,
  ensures_some, ensures_none, ensures_bind, ensures_if, ensures_option, ensures_self, Each,
  put-Each,
}
use logstats.MemPool.{Ptr}
use logstats.NameTree.Create.{Sizes}
use logstats.NameTree.Tree.{SearchTree, Name, TreeNode}
use logstats.ViewStats.{Rate, StatsReply, bytes, same_name}
use logstats.ViewStats.View.{
  View, ViewStatsBlocks, view_stats_create, view_stats_name_topn, view_stats_ip_topn,
  view_stats_get_qps, view_stats_get_success_rate,
}
use logstats.ViewTree.{
  ViewMemory, ViewBlocks, load_stats, view_tree_create, view_tree_insert, view_tree_find,
  view_tree_destory,
}
use logstats.ViewTree.Each.{load_stats-Each, view_tree_insert-Each, view_tree_destory-Each}
use logstats.HouseKeeper.{
  HouseKeeper, ViewTreeBlocks, house_keeper_clear_stats, add_init_view, house_keeper_create,
  view_rates, rates_loop, qps_round,
}
use logstats.HouseKeeper.Requests.{
  StatsRequest, return_all_views, flush_stats, view_reply, general_reply, topn_of, serve,
}
use logstats.HouseKeeper.Steps.{Step, Reach, line, init_view, request, round, start, next}
use logstats.HouseKeeper.Steps.Lasting.{Lasting, log_line-Each}

module _ (rb : SearchTree) (sizes : Sizes) (P : View rb → Type 0) (law : Lasting rb sizes P) where
  house_keeper_clear_stats-Each :
      (k : HouseKeeper rb sizes) (b : ViewTreeBlocks)
      → Each P k.memory.stats
      → Ensures
          (λ (r : HouseKeeper rb sizes). Each P r.memory.stats)
          (house_keeper_clear_stats rb sizes k b)
  unfolding house_keeper_clear_stats
  house_keeper_clear_stats-Each k b h =
      let created = view_tree_create rb b.held b.tree b.rbtree b.lrulist in
      ensures_bind _ (view_tree_destory rb k.views k.memory) _
        (view_tree_destory-Each rb P k.views k.memory h)
        λ w e.
          ensures_bind _ created _ (ensures_self created)
            λ c f. ensures_bind _ c _ (ensures_self c) λ t g. ensures_some e

  flush_stats-Each :
      (k : HouseKeeper rb sizes) (b : ViewTreeBlocks)
      → Each P k.memory.stats
      → Ensures
          (λ (r : HouseKeeper rb sizes × StatsReply). Each P r.0.memory.stats)
          (flush_stats rb sizes k b)
  unfolding flush_stats
  flush_stats-Each k b h =
      ensures_bind _ (house_keeper_clear_stats rb sizes k b) _ (house_keeper_clear_stats-Each k b h)
        λ r e. ensures_some e

  add_init_view-Each :
      (k : HouseKeeper rb sizes) (stats : ViewStatsBlocks) (view : ViewBlocks) (returned : Ptr)
      (name : Name)
      → Each P k.memory.stats
      → Ensures
          (λ (r : HouseKeeper rb sizes). Each P r.memory.stats)
          (add_init_view rb sizes k stats view returned name)
  unfolding add_init_view
  add_init_view-Each k stats view returned name h =
      let created = view_stats_create rb sizes stats name in
      ensures_bind _ created _ (law.fresh stats name) λ c f.
        ensures_bind _ c _ (ensures_self c) λ vs g.
          let w = record (k.memory) { stats = update k.memory.stats stats.vs (some vs) } in
          ensures_bind _ (view_tree_insert rb k.views w view name returned) _
            (view_tree_insert-Each rb P k.views w view name returned
              (put-Each P k.memory.stats stats.vs vs h (f.holds vs g)))
            λ r e. ensures_if (returned == 0 || ltb 0 r.0) _ _ ensures_none (ensures_some e)

  rates_loop-Each :
      (w : ViewMemory rb) (entries : List (Name × TreeNode))
      → Each P w.stats
      → Ensures (λ (v : ViewMemory rb). Each P v.stats) (rates_loop rb sizes w entries)
  unfolding rates_loop
  rates_loop-Each w [] h = ensures_some h
  rates_loop-Each w ((k, (node, p)) ∷ rest) h =
      let q = (w.views p).vs in
      ensures_if (length (w.views p).name == 0) _ _ (rates_loop-Each w rest h) (
        ensures_bind _ (load_stats rb w q) _ (load_stats-Each rb P w q h) λ vs e.
          rates_loop-Each (record w { stats = update w.stats q (some (view_rates rb sizes vs)) })
            rest (put-Each P w.stats q (view_rates rb sizes vs) h (law.rated vs e)))

  qps_round-Each :
      (k : HouseKeeper rb sizes)
      → Each P k.memory.stats
      → Ensures (λ (r : HouseKeeper rb sizes). Each P r.memory.stats) (qps_round rb sizes k)
  unfolding qps_round
  qps_round-Each k h =
      let entries = rb.in_order k.views.rbtree in
      ensures_bind _ (rates_loop rb sizes k.memory entries) _ (rates_loop-Each k.memory entries h)
        λ w e. ensures_some e

  view_reply-Each :
      (print : Rate → Name) (k : HouseKeeper rb sizes) (vs : View rb) (key : Name) (topn : ℤ)
      (block : Option (ℕ → Ptr)) (b : ViewTreeBlocks)
      → Each P k.memory.stats
      → Ensures
          (λ (r : HouseKeeper rb sizes × Option StatsReply). Each P r.0.memory.stats)
          (view_reply rb sizes print k vs key topn block b)
  unfolding view_reply
  view_reply-Each print k vs key topn block b h =
      let names = view_stats_name_topn rb vs topn block in
      let ips = view_stats_ip_topn rb vs topn block in
      let qps = view_stats_get_qps rb print vs in
      let rate = view_stats_get_success_rate rb print vs in
      ensures_if (same_name key (bytes "domaintopn")) _ _
        (ensures_bind _ names _ (ensures_self names) λ r e. ensures_some h)
        (ensures_if (same_name key (bytes "iptopn")) _ _
          (ensures_bind _ ips _ (ensures_self ips) λ r e. ensures_some h)
          (ensures_if (same_name key (bytes "rcode")) _ _ (ensures_some h) (
            ensures_if (same_name key (bytes "rtype")) _ _ (ensures_some h) (
              ensures_if (same_name key (bytes "qps")) _ _
                (ensures_bind _ qps _ (ensures_self qps) λ r e. ensures_some h)
                (ensures_if (same_name key (bytes "success_rate")) _ _
                  (ensures_bind _ rate _ (ensures_self rate) λ r e. ensures_some h)
                  (ensures_if (same_name key (bytes "flush")) _ _
                    (ensures_bind _ (flush_stats rb sizes k b) _ (flush_stats-Each k b h)
                      λ r e. ensures_some e)
                    (ensures_some h)))))))

  general_reply-Each :
      (k : HouseKeeper rb sizes) (key : Name) (b : ViewTreeBlocks)
      → Each P k.memory.stats
      → Ensures
          (λ (r : HouseKeeper rb sizes × Option StatsReply). Each P r.0.memory.stats)
          (general_reply rb sizes k key b)
  unfolding general_reply
  general_reply-Each k key b h =
      let views = return_all_views rb sizes k in
      ensures_if (same_name key (bytes "views")) _ _
        (ensures_bind _ views _ (ensures_self views) λ r e. ensures_some h)
        (ensures_if (same_name key (bytes "flush")) _ _
          (ensures_bind _ (flush_stats rb sizes k b) _ (flush_stats-Each k b h)
            λ r e. ensures_some e)
          (ensures_some h))

  serve-Each :
      (print : Rate → Name) (k : HouseKeeper rb sizes) (asked : StatsRequest)
      (block : Option (ℕ → Ptr)) (b : ViewTreeBlocks)
      → Each P k.memory.stats
      → Ensures
          (λ (r : HouseKeeper rb sizes × Option StatsReply). Each P r.0.memory.stats)
          (serve rb sizes print k asked block b)
  unfolding serve
  serve-Each print k asked block b h =
      let found = view_tree_find rb k.views asked.view in
      ensures_bind _ found _ (ensures_self found) λ o e.
        ensures_option o _ _ (general_reply-Each k asked.key b h) λ p f.
          let vs = (k.memory.views p).vs in
          ensures_bind _ (load_stats rb k.memory vs) _ (load_stats-Each rb P k.memory vs h)
            λ v g. view_reply-Each print k v asked.key (topn_of rb sizes asked.topn) block b h

  Step-Each :
      (k k' : HouseKeeper rb sizes)
      → Step rb sizes k k'
      → Each P k.memory.stats
      → Each P k'.memory.stats
  Step-Each k k' (line text blocks e) h = (log_line-Each rb sizes P law k text blocks h).holds k' e
  Step-Each k k' (init_view stats view returned name e) h =
      (add_init_view-Each k stats view returned name h).holds k' e
  Step-Each k k' (request {reply} print r block b e) h =
      (serve-Each print k r block b h).holds (k', reply) e
  Step-Each k k' (round e) h = (qps_round-Each k h).holds k' e

  house_keeper_create-Each :
      (keeper : Ptr) (b : ViewTreeBlocks) (w : ViewMemory rb) (bound commands rates : Bool)
      → Each P w.stats
      → Ensures
          (λ (r : HouseKeeper rb sizes). Each P r.memory.stats)
          (house_keeper_create rb sizes keeper b w bound commands rates)
  unfolding house_keeper_create
  house_keeper_create-Each keeper b w bound commands rates h =
      let created = view_tree_create rb b.held b.tree b.rbtree b.lrulist in
      ensures_if (keeper == 0) _ _ ensures_none (
        ensures_bind _ created _ (ensures_self created) λ c e.
          ensures_bind _ c _ (ensures_self c)
            λ t f. ensures_if (bound && (commands && rates)) _ _ (ensures_some h) ensures_none)

  -- What a new view has, and what every operation on a view keeps, all views have in every state that
  -- the program reaches.
  pub Reach-Each : (k : HouseKeeper rb sizes) → Reach rb sizes k → Each P k.memory.stats
  Reach-Each k (start keeper b w bound commands rates none_yet e) =
      (house_keeper_create-Each keeper b w bound commands rates
          (record { at = λ p vs f. absurd (cc (none_yet p, f)) })).holds
        k e
  Reach-Each k (next {k = from} r step) = Step-Each from k step (Reach-Each from r)
