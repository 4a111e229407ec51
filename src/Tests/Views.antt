-- ===== src/Tests/Views.antt =====
-- The views of src/log_view_tree.c.
use mathlib.Core.List.{Memᴰ}
use logstats.ViewStats.Tables.{same_name_eq}
use logstats.Base.{ℕ, sym, ap, inl, inr, Bool-cases, arith}
use logstats.Base.{
  ℕ, ◌+◌, ◌-◌, ◌%◌, ◌^◌, ◌≡◌, ◌≢◌, refl, arith, ◌==◌, none, some, [], ◌∷◌, if◌then◌else◌, update,
}
use logstats.Lru.{node}
use logstats.Lru.Seg.{IsList, listing}
use logstats.NameTree.Tree.{Name}
use logstats.Tests.Known.{view, sizes, two_names-Holds, two_names-Chunked}
use logstats.Tests.Table.{lookup, tables}
use logstats.ViewStats.{bytes, same_name}
use logstats.ViewTree.{ViewTree, ViewMemory, view_tree_insert, view_tree_find, view_tree_delete}
use logstats.HouseKeeper.{HouseKeeper}
use logstats.HouseKeeper.Views.{Counts, log_handle-Counts}
use logstats.LogLine.{Sighting}
use logstats.ViewTree.Enter.{Placed, view_tree_insert-Managed}
use logstats.Tests.Steps.{log_blocks, keeper_blocks}
use logstats.ViewStats.{StatsReply}
use logstats.HouseKeeper.Requests.{flush_stats}
use logstats.HouseKeeper.Flush.{Flushed, flush_stats-Flushed}
use logstats.ViewTree.Live.{Sound}
use logstats.ViewTree.Freeable.{AllFreeable}
use logstats.ViewStats.Memory.Freeable.{Freeable}
use logstats.Base.{subst, some_inj}
use logstats.ViewTree.Shrink.{Managed}
use logstats.ViewTree.Find.{Entered, view_tree_insert-Entered, view_tree_delete-find}

-- One view, "v", with its statistics at 200; its nodes of the tree and of the list at 72 and 10.
abbrev one_view : ViewTree tables
one_view = record {
  rbtree = ((bytes "v", (72, 71)) ∷ [], (refl, tt));
  lrulist = listing ((10, 71) ∷ []);
  count = 1;
}

abbrev view_memory : ViewMemory tables
view_memory = record {
  views = λ p. record { name = bytes "v"; vs = 200; ptr = 10 };
  lru_memory = λ k. if k == 10 then some (node 0 0 71) else none;
  stats = λ k. if k == 200 then some view else none;
}

one_view-IsList : IsList view_memory.lru_memory (listing ((10, 71) ∷ [])) ((10, 71) ∷ [])
one_view-IsList = record {
  linked = (omega arith, refl, omega arith, tt);
  distinct = (refl, tt);
  shape = refl;
}

w_missing : lookup (one_view.rbtree).0 (bytes "w") ≡ none
unfolding same_name
w_missing = refl

v_found : lookup (one_view.rbtree).0 (bytes "v") ≡ some (72, 71)
unfolding same_name
v_found = refl

view_tree_insert-Entered_example :
    (r : ℕ × ViewTree tables × ViewMemory tables) × (view_tree_insert tables one_view view_memory
        (record { vtnode = 81; node = 82; lru_node = 20 })
        (bytes "w")
        300
      ≡ some r)
    × Entered tables one_view view_memory
        (record { vtnode = 81; node = 82; lru_node = 20 })
        (bytes "w")
        300
        ((10, 71) ∷ [])
        r
view_tree_insert-Entered_example =
    view_tree_insert-Entered tables one_view view_memory
      (record { vtnode = 81; node = 82; lru_node = 20 }) (bytes "w") 300 ((10, 71) ∷ [])
      (omega arith) w_missing (omega arith) (omega arith) one_view-IsList (omega arith) refl

view-Sound : Sound tables view
view-Sound = record {
  names = (10, 1) ∷ (20, 2) ∷ [];
  holds_names = two_names-Holds;
  ips = (10, 1) ∷ (20, 2) ∷ [];
  holds_ips = two_names-Holds;
}

view-Freeable : Freeable tables view
view-Freeable = record { names = two_names-Chunked; ips = two_names-Chunked }

all-Freeable : AllFreeable tables view_memory.stats
all-Freeable a vs e = elim (Bool-cases (a == 200)) [
  | inl here ↦ subst (λ v. Freeable tables v) (some_inj (rw here at e)) view-Freeable
  | inr other ↦ absurd (cc (rw other at e))
]

view_tree_delete-find_example :
    (t' : ViewTree tables) × (view_tree_delete tables one_view view_memory (bytes "v")
      ≡ some (t', record view_memory { stats = update view_memory.stats 200 none }))
    × (view_tree_find tables t' (bytes "v") ≡ some none)
    × ((j : Name) → j ≢ bytes "v" → view_tree_find tables t' j ≡ view_tree_find tables one_view j)
    × (t'.lrulist ≡ one_view.lrulist)
    × (t'.count ≡ (1 + 2 ^ 32 - 1) % 2 ^ 32)
view_tree_delete-find_example =
    view_tree_delete-find tables one_view view_memory view (bytes "v") 72 71 (omega arith) v_found
      (omega arith) refl view-Sound view-Freeable

v_only :
    (j : Name) (node p : ℕ)
    → lookup (one_view.rbtree).0 j ≡ some (node, p)
    → (j ≡ bytes "v") × (p ≡ 71)
v_only j node p e = elim (Bool-cases (same_name j (bytes "v"))) [
  | inl same ↦ (same_name_eq j (bytes "v") same, ground (arith, e, same))
  | inr other ↦ absurd (ground (arith, e, other))
]

pub one_view-Managed : Managed tables one_view view_memory ((10, 71) ∷ [])
one_view-Managed = record {
  list = one_view-IsList;
  known = (record { node = 72; found = v_found; short = omega arith }, tt, tt);
  covers = λ j node p e.
      let (j_v, p_v) = v_only j node p e in
      record { name = sym j_v; inside = Memᴰ.head (ap (λ q. (10, q)) p_v) };
  count = refl;
  live = (record { vs = view; some_vs = omega arith; there = refl; sound = view-Sound }, tt, tt);
}

view_tree_insert-Managed_example :
    (r : ℕ × ViewTree tables × ViewMemory tables) × (view_tree_insert tables one_view
        (record view_memory { stats = update view_memory.stats 300 (some view) })
        (record { vtnode = 81; node = 82; lru_node = 20 })
        (bytes "w")
        300
      ≡ some r)
    × Placed tables view_memory
        (record { vtnode = 81; node = 82; lru_node = 20 })
        (bytes "w")
        300
        view
        ((10, 71) ∷ [])
        r
view_tree_insert-Managed_example =
    view_tree_insert-Managed tables one_view view_memory
      (record { vtnode = 81; node = 82; lru_node = 20 }) (bytes "w") 300 view ((10, 71) ∷ [])
      one_view-Managed
      (record {
        vtnode = omega arith;
        node = omega arith;
        lru_node = omega arith;
        vs = omega arith;
        fresh = (omega arith, tt);
        free_node = refl;
        free_stats = refl;
      })
      (omega arith) w_missing view-Sound

-- A house keeper with this view, and a line about it.
abbrev keeper : HouseKeeper tables sizes
keeper = record { views = one_view; memory = view_memory; mem_uplimit = 100000 }

abbrev seen : Sighting
seen = record {
  view = bytes "v";
  domain = bytes "a";
  ip = bytes "b";
  rtype = bytes "A";
  rcode = bytes "NOERROR";
}

log_handle-Counts_example : Counts tables sizes keeper log_blocks seen
log_handle-Counts_example =
    log_handle-Counts tables sizes keeper log_blocks seen ((10, 71) ∷ []) one_view-Managed
      all-Freeable (omega arith) (omega arith) (λ missing. absurd (cc (v_found, missing)))

flush_stats-Flushed_example :
    (r : HouseKeeper tables sizes × StatsReply) × (flush_stats tables sizes keeper keeper_blocks
      ≡ some r)
    × Flushed tables sizes keeper keeper_blocks ((10, 71) ∷ []) r
flush_stats-Flushed_example =
    flush_stats-Flushed tables sizes keeper keeper_blocks ((10, 71) ∷ []) one_view-Managed
      all-Freeable (record { tree = omega arith; rbtree = omega arith; lrulist = omega arith })
