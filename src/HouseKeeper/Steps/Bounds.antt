-- ===== src/HouseKeeper/Steps/Bounds.antt =====
-- The arrays and counters of all views of the house keeper.
use logstats.Base.{pos, Ensures, ensures_some, ensures_bind, ensures_self, Each}
use logstats.LogLine.{Sighting}
use logstats.NameTree.Create.{Sizes}
use logstats.NameTree.Tree.{SearchTree}
use logstats.ViewStats.{
  rtype_index, rcode_index, view_stats_rtype_increment, view_stats_rcode_increment,
}
use logstats.ViewStats.Counts.{
  view_stats_rtype_increment-InWords, view_stats_rcode_increment-InWords,
}
use logstats.ViewStats.View.{View, view_stats_insert_name, view_stats_insert_ip}
use logstats.ViewStats.View.Bounds.{
  Bounded, view_stats_create-Bounded, view_stats_insert_name-Bounded, view_stats_insert_ip-Bounded,
}
use logstats.ViewStats.Memory.Kept.{view_stats_set_memsize-Bounded}
use logstats.HouseKeeper.{HouseKeeper, LogBlocks, count_in, view_rates}
use logstats.HouseKeeper.Steps.{Reach}
use logstats.HouseKeeper.Steps.Lasting.{Lasting}
use logstats.HouseKeeper.Steps.Always.{Reach-Each}

module _ (rb : SearchTree) (sizes : Sizes) where
  count_in-Bounded :
      (blocks : LogBlocks) (s : Sighting) (vs : View rb)
      → Bounded rb vs
      → Ensures (Bounded rb) (count_in rb sizes blocks s vs)
  unfolding count_in
  count_in-Bounded blocks s vs h =
      let name = view_stats_insert_name rb vs blocks.name s.domain in
      ensures_bind _ name _ (view_stats_insert_name-Bounded rb vs blocks.name s.domain h) λ v e.
        let ip = view_stats_insert_ip rb v blocks.ip s.ip in
        ensures_bind _ ip _ (view_stats_insert_ip-Bounded rb v blocks.ip s.ip e) λ u f.
          ensures_bind _ (rtype_index s.rtype) _ (ensures_self (rtype_index s.rtype)) λ i g.
            let rtype = view_stats_rtype_increment u.counters (pos i) in
            ensures_bind _ rtype _
              (view_stats_rtype_increment-InWords u.counters (pos i) f.counters)
              λ c a.
                ensures_bind _ (rcode_index s.rcode) _ (ensures_self (rcode_index s.rcode)) λ j b.
                  ensures_bind _ (view_stats_rcode_increment c (pos j)) _
                    (view_stats_rcode_increment-InWords c (pos j) a)
                    λ d m.
                      ensures_some
                        (record { names = f.names; ips = f.ips; counters = m; name = f.name })

  view_rates-Bounded : (vs : View rb) → Bounded rb vs → Bounded rb (view_rates rb sizes vs)
  unfolding view_rates
  view_rates-Bounded vs h = record {
    names = h.names;
    ips = h.ips;
    counters = h.counters;
    name = h.name;
  }

  Bounded-Lasting : Lasting rb sizes (Bounded rb)
  Bounded-Lasting = record {
    fresh = view_stats_create-Bounded rb sizes;
    counted = count_in-Bounded;
    cut = view_stats_set_memsize-Bounded rb sizes;
    rated = view_rates-Bounded;
  }

  -- In every state that the house keeper reaches, whatever the lines of the log and the requests are,
  -- both heaps of every view hold at most 1000 entries and compare by elem_compare, its counters are
  -- numbers of 32 bits, and its name has fewer than 64 bytes.
  pub Reach-Bounded :
      (k : HouseKeeper rb sizes) → Reach rb sizes k → Each (Bounded rb) k.memory.stats
  Reach-Bounded k reach = Reach-Each rb sizes (Bounded rb) Bounded-Lasting k reach
