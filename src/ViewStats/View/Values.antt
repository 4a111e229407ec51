-- ===== src/ViewStats/View/Values.antt =====
-- The rates in the replies of a view of src/log_view_stats.c.
use logstats.Base.{
  ℕ, ◌≡◌, ◌⊎◌, inl, inr, refl, ap, ◌∙◌, sym, subst, ℤ, Option, some, ltb, length, Ensures,
  ensures_some, ensures_none, ensures_if, some_inj,
}
use logstats.MemPool.{Ptr}
use logstats.NameTree.Tree.{SearchTree, Name}
use logstats.ViewStats.{Rate, StatsReply, bytes}
use logstats.ViewStats.Values.{NoRate, view_stats_result-NoRate}
use logstats.ViewStats.View.{
  View, rate_text_len, view_stats_name_topn, view_stats_ip_topn, view_stats_result2,
  view_stats_get_qps, view_stats_get_success_rate,
}
use logstats.ViewStats.View.Idle.{Idle}

-- A rate in the reply is 0 requests per second, or a rate of success of 1.
pub record Still (reply : StatsReply) : Type 0 where
  pub rate :
      (v : Rate)
      → reply.value ≡ some v
      → ((reply.key ≡ bytes "qps") × (v.num ≡ 0))
        ⊎ ((reply.key ≡ bytes "success_rate") × (v.num ≡ v.den))

pub NoRate-Still : (reply : StatsReply) → NoRate reply → Still reply
NoRate-Still reply h = record { rate = λ v e. absurd (cc) }

module _ (rb : SearchTree) where
  pub view_stats_name_topn-NoRate :
      (vs : View rb) (topn : ℤ) (block : Option (ℕ → Ptr))
      → Ensures (Ensures NoRate) (view_stats_name_topn rb vs topn block)
  unfolding view_stats_name_topn
  view_stats_name_topn-NoRate vs topn block =
      view_stats_result-NoRate vs.name_tree.heap vs.name_world.nodes (bytes "domaintopn") topn block

  pub view_stats_ip_topn-NoRate :
      (vs : View rb) (topn : ℤ) (block : Option (ℕ → Ptr))
      → Ensures (Ensures NoRate) (view_stats_ip_topn rb vs topn block)
  unfolding view_stats_ip_topn
  view_stats_ip_topn-NoRate vs topn block =
      view_stats_result-NoRate vs.ip_tree.heap vs.ip_world.nodes (bytes "iptopn") topn block

  view_stats_result2-value :
      (print : Rate → Name) (value : Rate) (key : Name)
      → Ensures
          (λ (r : StatsReply). (r.key ≡ key) × (r.value ≡ some value))
          (view_stats_result2 rb print value key)
  unfolding view_stats_result2
  view_stats_result2-value print value key =
      ensures_if (ltb (length (print value)) rate_text_len) _ _ (ensures_some (refl, refl))
        ensures_none

  pub view_stats_get_qps-Still :
      (print : Rate → Name) (vs : View rb)
      → Idle rb vs
      → Ensures Still (view_stats_get_qps rb print vs)
  unfolding view_stats_get_qps
  view_stats_get_qps-Still print vs h = record {
    holds = λ r e.
        let known = (view_stats_result2-value print vs.qps (bytes "qps")).holds r e in
        record {
          rate =
              λ v f. inl (known.0, ap (λ (q : Rate). q.num) (some_inj (sym f ∙ known.1)) ∙ h.qps);
        };
  }

  pub view_stats_get_success_rate-Still :
      (print : Rate → Name) (vs : View rb)
      → Idle rb vs
      → Ensures Still (view_stats_get_success_rate rb print vs)
  unfolding view_stats_get_success_rate
  view_stats_get_success_rate-Still print vs h = record {
    holds = λ r e.
        let known =
          (view_stats_result2-value print vs.success_rate (bytes "success_rate")).holds r e in
        record {
          rate = λ v f. inr (
            known.0,
            subst (λ (q : Rate). q.num ≡ q.den) (some_inj (sym known.1 ∙ f)) h.success_rate,
          );
        };
  }
