-- ===== src/HouseKeeper/Steps/Rates.antt =====
-- The rates in the replies of the house keeper: the count of a view, from which both are computed, is
-- increased nowhere.
use logstats.Base.{
  ℕ, ◌≡◌, refl, ℤ, pos, Option, some, Ensures, ensures_some, ensures_none, ensures_bind, ensures_if,
  ensures_option, ensures_self, Each,
}
use logstats.LogLine.{Sighting}
use logstats.MemPool.{Ptr}
use logstats.NameTree.Create.{Sizes}
use logstats.NameTree.Tree.{SearchTree, Name}
use logstats.ViewStats.{
  Rate, StatsReply, bytes, same_name, rtype_index, rcode_index, view_stats_rtype_increment,
  view_stats_rcode_increment,
}
use logstats.ViewStats.Values.{NoRate, view_stats_get_rcode-NoRate, view_stats_get_rtype-NoRate}
use logstats.ViewStats.View.{
  View, view_stats_insert_name, view_stats_insert_ip, view_stats_name_topn, view_stats_ip_topn,
  view_stats_get_qps, view_stats_get_success_rate,
}
use logstats.ViewStats.View.Idle.{
  Idle, view_stats_create-Idle, view_stats_insert_name-Idle, view_stats_insert_ip-Idle,
}
use logstats.ViewStats.View.Values.{
  Still, NoRate-Still, view_stats_name_topn-NoRate, view_stats_ip_topn-NoRate,
  view_stats_get_qps-Still, view_stats_get_success_rate-Still,
}
use logstats.ViewStats.Memory.Kept.{view_stats_set_memsize-Idle}
use logstats.ViewTree.{load_stats, view_tree_find}
use logstats.ViewTree.Each.{load_stats-Each}
use logstats.HouseKeeper.{
  HouseKeeper, LogBlocks, ViewTreeBlocks, absolute_diff, count_in, view_rates,
  house_keeper_clear_stats,
}
use logstats.HouseKeeper.Requests.{
  StatsRequest, return_all_views, flush_stats, view_not_found, view_reply, general_reply, topn_of,
  serve,
}
use logstats.HouseKeeper.Steps.{Reach}
use logstats.HouseKeeper.Steps.Lasting.{Lasting}
use logstats.HouseKeeper.Steps.Always.{Reach-Each}

module _ (rb : SearchTree) (sizes : Sizes) where
  count_in-Idle :
      (blocks : LogBlocks) (s : Sighting) (vs : View rb)
      → Idle rb vs
      → Ensures (Idle rb) (count_in rb sizes blocks s vs)
  unfolding count_in
  count_in-Idle blocks s vs h =
      let name = view_stats_insert_name rb vs blocks.name s.domain in
      ensures_bind _ name _ (view_stats_insert_name-Idle rb vs blocks.name s.domain h) λ v e.
        let ip = view_stats_insert_ip rb v blocks.ip s.ip in
        ensures_bind _ ip _ (view_stats_insert_ip-Idle rb v blocks.ip s.ip e) λ u f.
          ensures_bind _ (rtype_index s.rtype) _ (ensures_self (rtype_index s.rtype)) λ i g.
            let rtype = view_stats_rtype_increment u.counters (pos i) in
            ensures_bind _ rtype _ (ensures_self rtype) λ c a.
              ensures_bind _ (rcode_index s.rcode) _ (ensures_self (rcode_index s.rcode)) λ j b.
                let rcode = view_stats_rcode_increment c (pos j) in
                ensures_bind _ rcode _ (ensures_self rcode) λ d m. ensures_some (record {
                  count = f.count;
                  last_count = f.last_count;
                  qps = f.qps;
                  success_rate = f.success_rate;
                })

  view_rates-Idle : (vs : View rb) → Idle rb vs → Idle rb (view_rates rb sizes vs)
  unfolding view_rates absolute_diff
  view_rates-Idle vs h = record {
    count = h.count;
    last_count = h.count;
    qps = rw (h.count, h.last_count) refl;
    success_rate = rw h.count refl;
  }

  Idle-Lasting : Lasting rb sizes (Idle rb)
  Idle-Lasting = record {
    fresh = view_stats_create-Idle rb sizes;
    counted = count_in-Idle;
    cut = view_stats_set_memsize-Idle rb sizes;
    rated = view_rates-Idle;
  }

  return_all_views-Still : (k : HouseKeeper rb sizes) → Ensures Still (return_all_views rb sizes k)
  unfolding return_all_views
  return_all_views-Still k = ensures_if _ _ _ (ensures_some (NoRate-Still _ refl)) ensures_none

  flush_stats-Still :
      (k : HouseKeeper rb sizes) (b : ViewTreeBlocks)
      → Ensures (λ (r : HouseKeeper rb sizes × StatsReply). Still r.1) (flush_stats rb sizes k b)
  unfolding flush_stats
  flush_stats-Still k b =
      let run = house_keeper_clear_stats rb sizes k b in
      ensures_bind _ run _ (ensures_self run) λ r e. ensures_some (NoRate-Still _ refl)

  -- What is replied, in the state that follows.
  Replied : HouseKeeper rb sizes × Option StatsReply → Type 0
  Replied r = Ensures Still r.1

  view_reply-Still :
      (print : Rate → Name) (k : HouseKeeper rb sizes) (vs : View rb) (key : Name) (topn : ℤ)
      (block : Option (ℕ → Ptr)) (b : ViewTreeBlocks)
      → Idle rb vs
      → Ensures Replied (view_reply rb sizes print k vs key topn block b)
  unfolding view_reply Replied
  view_reply-Still print k vs key topn block b h =
      let names = view_stats_name_topn rb vs topn block in
      let ips = view_stats_ip_topn rb vs topn block in
      let qps = view_stats_get_qps rb print vs in
      let rate = view_stats_get_success_rate rb print vs in
      let quiet : (o : Option StatsReply) → Ensures NoRate o → Ensures Still o =
        λ o n. record { holds = λ r e. NoRate-Still r (n.holds r e) } in
      ensures_if (same_name key (bytes "domaintopn")) _ _
        (ensures_bind _ names _ (view_stats_name_topn-NoRate rb vs topn block)
          λ o n. ensures_some (quiet o n))
        (ensures_if (same_name key (bytes "iptopn")) _ _
          (ensures_bind _ ips _ (view_stats_ip_topn-NoRate rb vs topn block)
            λ o n. ensures_some (quiet o n))
          (ensures_if (same_name key (bytes "rcode")) _ _
            (ensures_some (ensures_some (NoRate-Still _ (view_stats_get_rcode-NoRate vs.counters))))
            (ensures_if (same_name key (bytes "rtype")) _ _
              (ensures_some
                (ensures_some (NoRate-Still _ (view_stats_get_rtype-NoRate vs.counters))))
              (ensures_if (same_name key (bytes "qps")) _ _
                (ensures_bind _ qps _ (view_stats_get_qps-Still rb print vs h)
                  λ r e. ensures_some (ensures_some e))
                (ensures_if (same_name key (bytes "success_rate")) _ _
                  (ensures_bind _ rate _ (view_stats_get_success_rate-Still rb print vs h)
                    λ r e. ensures_some (ensures_some e))
                  (ensures_if (same_name key (bytes "flush")) _ _
                    (ensures_bind _ (flush_stats rb sizes k b) _ (flush_stats-Still k b)
                      λ r e. ensures_some (ensures_some e))
                    (ensures_some ensures_none)))))))

  general_reply-Still :
      (k : HouseKeeper rb sizes) (key : Name) (b : ViewTreeBlocks)
      → Ensures Replied (general_reply rb sizes k key b)
  unfolding general_reply Replied view_not_found
  general_reply-Still k key b =
      ensures_if (same_name key (bytes "views")) _ _
        (ensures_bind _ (return_all_views rb sizes k) _ (return_all_views-Still k)
          λ r e. ensures_some (ensures_some e))
        (ensures_if (same_name key (bytes "flush")) _ _
          (ensures_bind _ (flush_stats rb sizes k b) _ (flush_stats-Still k b)
            λ r e. ensures_some (ensures_some e))
          (ensures_some (ensures_some (NoRate-Still _ refl))))

  serve-Still :
      (print : Rate → Name) (k : HouseKeeper rb sizes) (request : StatsRequest)
      (block : Option (ℕ → Ptr)) (b : ViewTreeBlocks)
      → Each (Idle rb) k.memory.stats
      → Ensures Replied (serve rb sizes print k request block b)
  unfolding serve
  serve-Still print k request block b h =
      let found = view_tree_find rb k.views request.view in
      ensures_bind _ found _ (ensures_self found) λ o e.
        ensures_option o _ _ (general_reply-Still k request.key b) λ p f.
          let vs = (k.memory.views p).vs in
          ensures_bind _ (load_stats rb k.memory vs) _ (load_stats-Each rb (Idle rb) k.memory vs h)
            λ v g. view_reply-Still print k v request.key (topn_of rb sizes request.topn) block b g

  -- In every state that the house keeper reaches, whatever is requested, a rate in the reply is 0
  -- requests per second, or a rate of success of 1.
  pub serve_rates :
      (print : Rate → Name) (k k' : HouseKeeper rb sizes) (request : StatsRequest)
      (block : Option (ℕ → Ptr)) (b : ViewTreeBlocks) (reply : StatsReply)
      → Reach rb sizes k
      → serve rb sizes print k request block b ≡ some (k', some reply)
      → Still reply
  unfolding Replied
  serve_rates print k k' request block b reply reach run =
      ((serve-Still print k request block b
            (Reach-Each rb sizes (Idle rb) Idle-Lasting k reach)).holds
          (k', some reply) run).holds
        reply refl
