-- ===== src/ViewStats/View.antt =====
-- A view of src/log_view_stats.c: its two name trees, each on a memory of its own, its counters and its
-- two rates. A rate is the quotient that the code rounds to a float. `none` as an outcome means that
-- the process stops.
pub mod Values
pub mod Idle
pub mod Bounds
use logstats.Base.{
  ℕ, ◌+◌, ◌%◌, ◌^◌, ℤ, Option, none, some, [], ◌>>=◌, ltb, ◌==◌, if◌then◌else◌, length,
}
use logstats.MemPool.{Ptr}
use logstats.NameTree.{NameTree, World, Blocks, name_tree_insert}
use logstats.NameTree.Create.{Sizes, TreeBlocks, name_tree_create, name_tree_get_size}
use logstats.NameTree.Tree.{SearchTree, Name}
use logstats.ViewStats.{Counters, StatsReply, Rate, bytes, view_stats_result}

-- MAX_VIEW_LENGTH, and the size of the text of a rate.
abbrev pub max_view_length : ℕ
max_view_length = 64

abbrev pub rate_text_len : ℕ
rate_text_len = 16

-- What malloc returns for a view, and the memory of its two trees.
pub record ViewStatsBlocks : Type 0 where
  pub vs : Ptr
  pub name_tree : TreeBlocks
  pub name_world : World
  pub ip_tree : TreeBlocks
  pub ip_world : World

abbrev pub zeros : ℕ → ℕ
zeros i = 0

module _ (rb : SearchTree) where
  pub record View : Type 0 where
    pub name : Name
    pub name_tree : NameTree rb
    pub name_world : World
    pub ip_tree : NameTree rb
    pub ip_world : World
    pub qps : Rate
    pub success_rate : Rate
    pub count : ℕ
    pub last_count : ℕ
    pub counters : Counters

  -- The view that is built at `blocks.vs`, or NULL (within). A name of 64 bytes passes the first guard
  -- and is written over the end of its array.
  unfoldable pub view_stats_create : Sizes → ViewStatsBlocks → Name → Option (Option View)
  view_stats_create sizes blocks view_name =
      let filled : NameTree rb × World → NameTree rb × World → Option (Option View) = λ names ips.
        if ltb (length view_name) max_view_length
        then some (
            some (record {
              name = view_name;
              name_tree = names.0;
              name_world = names.1;
              ip_tree = ips.0;
              ip_world = ips.1;
              qps = record { num = 0; den = 1 };
              success_rate = record { num = 1; den = 1 };
              count = 0;
              last_count = 0;
              counters = record { rcode = zeros; rtype = zeros };
            }))
        else none in
      let with_names : NameTree rb × World → Option (Option View) = λ names. do
        ips ← name_tree_create rb sizes blocks.ip_tree blocks.ip_world
        elim ips [ none ↦ some none | some i ↦ filled names i ]
      in let body : Option (Option View) = do
        names ← name_tree_create rb sizes blocks.name_tree blocks.name_world
        elim names [ none ↦ some none | some n ↦ with_names n ]
        in if ltb max_view_length (length view_name)
          then some none
          else if blocks.vs == 0
          then some none
          else body

  pub view_stats_insert_name : View → Blocks → Name → Option View
  view_stats_insert_name vs blocks name = do
    (code, t, w) ← name_tree_insert rb vs.name_tree vs.name_world blocks (some name)
    some (record vs { name_tree = t; name_world = w })

  pub view_stats_insert_ip : View → Blocks → Name → Option View
  view_stats_insert_ip vs blocks ip = do
    (code, t, w) ← name_tree_insert rb vs.ip_tree vs.ip_world blocks (some ip)
    some (record vs { ip_tree = t; ip_world = w })

  pub view_stats_name_topn : View → ℤ → Option (ℕ → Ptr) → Option (Option StatsReply)
  view_stats_name_topn vs topn block =
      view_stats_result vs.name_tree.heap vs.name_world.nodes (bytes "domaintopn") topn block

  pub view_stats_ip_topn : View → ℤ → Option (ℕ → Ptr) → Option (Option StatsReply)
  view_stats_ip_topn vs topn block =
      view_stats_result vs.ip_tree.heap vs.ip_world.nodes (bytes "iptopn") topn block

  -- `print` is the text that sprintf makes of a float with the format "%f".
  unfoldable pub view_stats_result2 : (Rate → Name) → Rate → Name → Option StatsReply
  view_stats_result2 print value key =
      if ltb (length (print value)) rate_text_len
      then some (record {
        key = key;
        name = [];
        count = [];
        value = some value;
        maybe = some (print value);
      })
      else none

  unfoldable pub view_stats_get_qps : (Rate → Name) → View → Option StatsReply
  view_stats_get_qps print vs = view_stats_result2 print vs.qps (bytes "qps")

  pub view_stats_get_success_rate : (Rate → Name) → View → Option StatsReply
  view_stats_get_success_rate print vs =
      view_stats_result2 print vs.success_rate (bytes "success_rate")

  -- The parts are cut to 32 bits, and so is their sum.
  pub view_stats_get_size : Sizes → NameTree rb → NameTree rb → ℕ
  view_stats_get_size sizes names ips =
      (sizes.view_stats % 2 ^ 32
        + name_tree_get_size rb sizes names % 2 ^ 32
        + name_tree_get_size rb sizes ips % 2 ^ 32)
      % 2 ^ 32
