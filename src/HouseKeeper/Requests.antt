-- ===== src/HouseKeeper/Requests.antt =====
-- The requests that socket_thread of src/log_topn.c serves, with the lock held. No reply (`none` within
-- an outcome) is a message of no bytes.
use logstats.Base.{
  ◌>>=◌, ℕ, ◌==◌, ◌^◌, ltb, ℤ, pos, negsuc, Option, none, some, List, [], ◌∷◌, leb, if◌then◌else◌,
  length,
}
use logstats.MemPool.{Ptr}
use logstats.NameTree.Create.{Sizes}
use logstats.NameTree.Tree.{SearchTree, Name, TreeNode}
use logstats.ViewStats.{
  Rate, StatsReply, bytes, same_name, view_stats_get_rcode, view_stats_get_rtype,
}
use logstats.ViewStats.View.{
  View, view_stats_name_topn, view_stats_ip_topn, view_stats_get_qps, view_stats_get_success_rate,
}
use logstats.ViewTree.{ViewMemory, load_stats, view_tree_find}
use logstats.HouseKeeper.{HouseKeeper, ViewTreeBlocks, house_keeper_clear_stats}

-- The message StatsRequest.
pub record StatsRequest : Type 0 where
  pub key : Name
  pub view : Name
  pub topn : ℤ

module _ (rb : SearchTree) (sizes : Sizes) where
  open rb use {in_order}

  -- The names of the views that are not empty.
  unfoldable pub view_names : ViewMemory rb → List (Name × TreeNode) → List (Option Name)
  view_names w [] = []
  view_names w ((k, (node, p)) ∷ rest) =
      let names = view_names w rest in
      if length (w.views p).name == 0 then names else some (w.views p).name ∷ names

  -- The array has room for `count` names, read as an int: of a negative size malloc returns NULL.
  unfoldable pub return_all_views : HouseKeeper rb sizes → Option StatsReply
  unfolding view_names
  return_all_views k =
      let names = view_names k.memory (in_order k.views.rbtree) in
      let room = if ltb k.views.count (2 ^ 31) then k.views.count else 0 in
      if leb (length names) room
      then some
          (record { key = bytes "views"; name = names; count = []; value = none; maybe = none })
      else none

  unfoldable pub view_not_found : StatsReply
  view_not_found = record {
    key = bytes "error";
    name = [];
    count = [];
    value = none;
    maybe = some (bytes "view not find");
  }

  unfoldable pub flush_stats :
      HouseKeeper rb sizes → ViewTreeBlocks → Option (HouseKeeper rb sizes × StatsReply)
  flush_stats k b = do
    k' ← house_keeper_clear_stats rb sizes k b
    some (
      k',
      record {
        key = bytes "flush";
        name = [];
        count = [];
        value = none;
        maybe = some (bytes "success");
      },
    )

  -- The keys of a request for a view that is there.
  unfoldable pub view_reply :
      (Rate → Name)
      → HouseKeeper rb sizes
      → View rb
      → Name
      → ℤ
      → Option (ℕ → Ptr)
      → ViewTreeBlocks
      → Option (HouseKeeper rb sizes × Option StatsReply)
  view_reply print k vs key topn block b =
      let tops : Option (Option StatsReply) → Option (HouseKeeper rb sizes × Option StatsReply) =
        λ r. do reply ← r; some (k, reply)
      in let one : Option StatsReply → Option (HouseKeeper rb sizes × Option StatsReply) =
          λ r. do reply ← r; some (k, some reply)
        in let flushed : Option (HouseKeeper rb sizes × Option StatsReply) = do
          (k', reply) ← flush_stats k b
          some (k', some reply)
          in if same_name key (bytes "domaintopn")
            then tops (view_stats_name_topn rb vs topn block)
            else if same_name key (bytes "iptopn")
            then tops (view_stats_ip_topn rb vs topn block)
            else if same_name key (bytes "rcode")
            then some (k, some (view_stats_get_rcode vs.counters))
            else if same_name key (bytes "rtype")
            then some (k, some (view_stats_get_rtype vs.counters))
            else if same_name key (bytes "qps")
            then one (view_stats_get_qps rb print vs)
            else if same_name key (bytes "success_rate")
            then one (view_stats_get_success_rate rb print vs)
            else if same_name key (bytes "flush")
            then flushed
            else some (k, none)

  -- The keys of a request for a view that is not there.
  unfoldable pub general_reply :
      HouseKeeper rb sizes
      → Name
      → ViewTreeBlocks
      → Option (HouseKeeper rb sizes × Option StatsReply)
  general_reply k key b =
      let views : Option (HouseKeeper rb sizes × Option StatsReply) = do
        reply ← return_all_views k
        some (k, some reply)
      in let flushed : Option (HouseKeeper rb sizes × Option StatsReply) = do
        (k', reply) ← flush_stats k b
        some (k', some reply)
        in if same_name key (bytes "views")
          then views
          else if same_name key (bytes "flush")
          then flushed
          else some (k, some view_not_found)

  -- `if (topn == 0) topn = 1000`
  pub topn_of : ℤ → ℤ
  topn_of (pos n) = if n == 0 then pos 1000 else pos n
  topn_of (negsuc n) = negsuc n

  -- The part of socket_thread between the lock and the unlock.
  unfoldable pub serve :
      (Rate → Name)
      → HouseKeeper rb sizes
      → StatsRequest
      → Option (ℕ → Ptr)
      → ViewTreeBlocks
      → Option (HouseKeeper rb sizes × Option StatsReply)
  unfolding view_reply general_reply topn_of
  serve print k request block b =
      let known : Ptr → Option (HouseKeeper rb sizes × Option StatsReply) = λ p. do
        vs ← load_stats rb k.memory (k.memory.views p).vs
        view_reply print k vs request.key (topn_of request.topn) block b
      in do
        found ← view_tree_find rb k.views request.view
        elim found [ none ↦ general_reply k request.key b | some p ↦ known p ]
