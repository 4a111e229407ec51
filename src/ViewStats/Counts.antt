-- ===== src/ViewStats/Counts.antt =====
-- The counters of src/log_view_stats.c stay numbers of 32 bits.
use logstats.Base.{
  ℕ, ◌^◌, ◌<◌, ℤ, pos, negsuc, ltb, arith, Ensures, ensures_some, ensures_none, ensures_bind,
  ensures_if,
}
use logstats.ViewStats.{
  Counters, increment, rcode_max_num, rtype_max_num, view_stats_rcode_increment,
  view_stats_rtype_increment,
}

pub record InWords (c : Counters) : Type 0 where
  pub rcode : (i : ℕ) → c.rcode i < 2 ^ 32
  pub rtype : (i : ℕ) → c.rtype i < 2 ^ 32

increment-InWords :
    (n : ℕ) (array : ℕ → ℕ) (i : ℕ)
    → ((j : ℕ) → array j < 2 ^ 32)
    → Ensures (λ (a : ℕ → ℕ). (j : ℕ) → a j < 2 ^ 32) (increment n array i)
increment-InWords n array i h =
    ensures_if (ltb i n) _ _ (ensures_some λ j. ground (arith, h j)) ensures_none

pub view_stats_rcode_increment-InWords :
    (vs : Counters) (i : ℤ) → InWords vs → Ensures InWords (view_stats_rcode_increment vs i)
unfolding view_stats_rcode_increment
view_stats_rcode_increment-InWords vs (negsuc _) h = ensures_some h
view_stats_rcode_increment-InWords vs (pos i) h =
    ensures_if (ltb rcode_max_num i) _ _ (ensures_some h) (
      ensures_bind _ (increment rcode_max_num vs.rcode i) _
        (increment-InWords rcode_max_num vs.rcode i h.rcode)
        λ a e. ensures_some (record { rcode = e; rtype = h.rtype }))

pub view_stats_rtype_increment-InWords :
    (vs : Counters) (i : ℤ) → InWords vs → Ensures InWords (view_stats_rtype_increment vs i)
unfolding view_stats_rtype_increment
view_stats_rtype_increment-InWords vs (negsuc _) h = ensures_some h
view_stats_rtype_increment-InWords vs (pos i) h =
    ensures_if (ltb rtype_max_num i) _ _ (ensures_some h) (
      ensures_bind _ (increment rtype_max_num vs.rtype i) _
        (increment-InWords rtype_max_num vs.rtype i h.rtype)
        λ a e. ensures_some (record { rcode = h.rcode; rtype = e }))
