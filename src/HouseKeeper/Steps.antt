-- ===== src/HouseKeeper/Steps.antt =====
-- The house keeper of src/log_topn.c as a state machine: one step is one section of code that holds the
-- lock, in any order of the threads. What the operations on a view keep holds of all views at all times.
pub mod Lasting
pub mod Always
pub mod Rates
pub mod Bounds
use logstats.Base.{◌≡◌, ℕ, Bool, Option, none, some}
use logstats.NameTree.Create.{Sizes}
use logstats.NameTree.Tree.{SearchTree, Name}
use logstats.MemPool.{Ptr}
use logstats.ViewStats.{Rate, StatsReply}
use logstats.ViewStats.View.{View, ViewStatsBlocks}
use logstats.ViewTree.{ViewMemory, ViewBlocks}
use logstats.HouseKeeper.{
  HouseKeeper, LogBlocks, ViewTreeBlocks, log_line, add_init_view, house_keeper_create, qps_round,
}
use logstats.HouseKeeper.Requests.{StatsRequest, serve}

module _ (rb : SearchTree) (sizes : Sizes) where
  -- A line of the log, a view that the program enters by itself, a request, and a round of the rates.
  pub data Step : HouseKeeper rb sizes → HouseKeeper rb sizes → Type 0 where
    line :
        {k k' : HouseKeeper rb sizes} (text : Name) (blocks : ℕ → LogBlocks)
        → log_line rb sizes k text blocks ≡ some k'
        → Step k k'
    init_view :
        {k k' : HouseKeeper rb sizes} (stats : ViewStatsBlocks) (view : ViewBlocks) (returned : Ptr)
        (name : Name)
        → add_init_view rb sizes k stats view returned name ≡ some k'
        → Step k k'
    request :
        {k k' : HouseKeeper rb sizes} {reply : Option StatsReply} (print : Rate → Name)
        (r : StatsRequest) (block : Option (ℕ → Ptr)) (b : ViewTreeBlocks)
        → serve rb sizes print k r block b ≡ some (k', reply)
        → Step k k'
    round : {k k' : HouseKeeper rb sizes} → qps_round rb sizes k ≡ some k' → Step k k'

  -- The states that the program reaches from its start, when no view is allocated.
  pub data Reach : HouseKeeper rb sizes → Type 0 where
    start :
        {k : HouseKeeper rb sizes} (keeper : Ptr) (b : ViewTreeBlocks) (w : ViewMemory rb)
        (bound commands rates : Bool)
        → ((p : Ptr) → w.stats p ≡ none)
        → house_keeper_create rb sizes keeper b w bound commands rates ≡ some k
        → Reach k
    next : {k k' : HouseKeeper rb sizes} → Reach k → Step k k' → Reach k'
