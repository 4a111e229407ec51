-- ===== src/Tests/Known.antt =====
-- Names of src/log_name_tree.c and a view of src/log_view_stats.c on a search tree that is a function from names to nodes.
use mathlib.Core.List.{Memᴰ}
use logstats.ViewStats.Tables.{same_name_eq}
use logstats.Base.{
  ℕ, sym, subst, ◌⊎◌, inl, inr, Bool-cases, ◌+◌, ◌<◌, ◌≡◌, refl, true, arith, ℤ, pos, ◌==◌, none,
  some, [], ◌∷◌, if◌then◌else◌,
}
use logstats.Lru
use logstats.Lru.{LruList, node}
use logstats.Lru.Seg.{Cells, IsList, listing}
use logstats.MemPool
use logstats.MemPool.{MemPool, Ptr}
use logstats.MemPool.Chain.{alloc_head}
use logstats.NameTree.{
  Nodes, World, Blocks, NameTree, elem_compare, last_byte, with_dot, name_tree_insert,
  name_tree_delete,
}
use logstats.NameTree.Insert.{Seen, Created, name_tree_insert-present, name_tree_insert-absent}
use logstats.NameTree.Kept.{Room, name_tree_insert-Holds}
use logstats.NameTree.Delete.{Deleted, name_tree_delete-Deleted}
use logstats.NameTree.Chunked.{Chunked}
use logstats.NameTree.Tree.{Name}
use logstats.ViewStats.{bytes, same_name}
use logstats.Tests.Table.{Rows, Once, lookup, tables}
use logstats.NameTree.Create.{Sizes}
use logstats.ViewStats.View.{View}
use logstats.ViewStats.Memory.{view_stats_set_memsize}
use logstats.ViewStats.Memory.Evict.{Entry, Holds, Covered}
use logstats.ViewStats.Memory.Shrink.{Shrunk, view_stats_set_memsize-Shrunk}

-- The names "a." and "b." have the nodes 1 and 2, with their nodes of the list at 10 and 20.
abbrev a_dot : Name
a_dot = bytes "a."

abbrev b_dot : Name
b_dot = bytes "b."

abbrev c_dot : Name
c_dot = bytes "c."

abbrev nodes : Nodes
nodes e = record {
  fqdn = if e == 1 then a_dot else b_dot;
  count = 1;
  heap_index = if e == 1 then pos 0 else pos 1;
  ptr = if e == 1 then 10 else 20;
}

abbrev memory : Lru.Memory
memory k = if k == 10 then some (node 0 20 1) else if k == 20 then some (node 10 0 2) else none

-- The pools have one chunk each, at 1000 and at 2000.
abbrev pool : Ptr → Ptr → MemPool
pool chunk free = record {
  elem_size = 64;
  elem_count = 20;
  free_list = free;
  raw_mem_list = chunk;
  needs_auto_grow = true;
}

abbrev world : World
world = record { nodes = nodes; words = λ p. 0; lru_memory = memory }

abbrev blocks : Blocks
blocks = record { name_chunk = 0; node_chunk = 0; lru_node = 30 }

abbrev names : Rows
names = (b_dot, (52, 2)) ∷ (a_dot, (51, 1)) ∷ []

pub names-Once : Once names
unfolding same_name
names-Once = (refl, (refl, tt))

abbrev two_names : NameTree tables
two_names = record {
  tree = (names, names-Once);
  heap = record { heap = λ i. i + 1; len = 2; max_size = 10000; cmp = elem_compare };
  node_pool = pool 2000 53;
  name_pool = pool 1000 3;
  count = 2;
  lru = listing ((10, 1) ∷ (20, 2) ∷ []);
}

recent : IsList memory (listing ((10, 1) ∷ (20, 2) ∷ [])) ((10, 1) ∷ (20, 2) ∷ [])
recent = record {
  linked = (omega arith, refl, omega arith, (omega arith, refl, omega arith, tt));
  distinct = (refl, (refl, tt));
  shape = refl;
}

b_dotted : with_dot (bytes "b") ≡ some b_dot
unfolding with_dot last_byte
b_dotted = refl

c_dotted : with_dot (bytes "c") ≡ some c_dot
unfolding with_dot last_byte
c_dotted = refl

b_found : lookup names b_dot ≡ some (52, 2)
unfolding same_name
b_found = refl

c_missing : lookup names c_dot ≡ none
unfolding same_name
c_missing = refl

name_tree_insert-present_example :
    (r : ℤ × NameTree tables × World) × (name_tree_insert tables two_names world blocks
        (some (bytes "b"))
      ≡ some r)
    × Seen tables two_names world blocks 2 ((10, 1) ∷ []) [] r
name_tree_insert-present_example =
    name_tree_insert-present tables two_names world blocks (bytes "b") b_dot 52 2 ((10, 1) ∷ []) []
      (omega arith) b_dotted b_found recent

name_alloc : MemPool.mem_pool_alloc (pool 1000 3) 0 (λ p. 0) ≡ (3, pool 1000 0, λ p. 0)
name_alloc = alloc_head (pool 1000 3) 0 (λ p. 0) (omega arith)

node_alloc : MemPool.mem_pool_alloc (pool 2000 53) 0 (λ p. 0) ≡ (53, pool 2000 0, λ p. 0)
node_alloc = alloc_head (pool 2000 53) 0 (λ p. 0) (omega arith)

name_tree_insert-absent_example :
    (r : ℤ × NameTree tables × World) × (name_tree_insert tables two_names world blocks
        (some (bytes "c"))
      ≡ some r)
    × Created tables two_names world blocks c_dot 53 3 ((10, 1) ∷ (20, 2) ∷ []) r
name_tree_insert-absent_example =
    name_tree_insert-absent tables two_names world blocks (bytes "c") c_dot 53 3 (pool 1000 0)
      (pool 2000 0) (λ p. 0) (λ p. 0) ((10, 1) ∷ (20, 2) ∷ []) (omega arith) c_dotted c_missing
      name_alloc node_alloc (omega arith) (omega arith) recent (omega arith) refl

name_tree_delete-Deleted_example :
    (r : ℤ × NameTree tables × World) × (name_tree_delete tables two_names world
        (some (bytes "b"))
        none
      ≡ some r)
    × Deleted tables two_names world b_dot 52 2 r
name_tree_delete-Deleted_example =
    name_tree_delete-Deleted tables two_names world (bytes "b") b_dot 52 2 (omega arith) b_dotted
      b_found (omega arith) (omega arith)

one-Entry : Entry tables two_names.tree nodes 1
unfolding with_dot last_byte same_name
one-Entry = record {
  node = 51;
  found = refl;
  node_some = omega arith;
  dotted = refl;
  short = omega arith;
}

two-Entry : Entry tables two_names.tree nodes 2
unfolding with_dot last_byte same_name
two-Entry = record {
  node = 52;
  found = refl;
  node_some = omega arith;
  dotted = refl;
  short = omega arith;
}

two_covered :
    (j : Name) (n q : ℕ)
    → lookup names j ≡ some (n, q)
    → ((j ≡ b_dot) × (q ≡ 2)) ⊎ ((j ≡ a_dot) × (q ≡ 1))
two_covered j n q e = elim (Bool-cases (same_name j b_dot)) [
  | inl b ↦ inl (same_name_eq j b_dot b, ground (arith, e, b))
  | inr no_b ↦ elim (Bool-cases (same_name j a_dot)) [
    | inl a ↦ inr (same_name_eq j a_dot a, ground (arith, e, a, no_b))
    | inr no_a ↦ absurd (ground (arith, e, no_a, no_b))
  ]
]

two_low : (j : Name) (n q : ℕ) → lookup names j ≡ some (n, q) → (q < 100) × (n < 100)
two_low j n q e = elim (Bool-cases (same_name j b_dot)) [
  | inl b ↦ (ground (arith, e, b), ground (arith, e, b))
  | inr no_b ↦ elim (Bool-cases (same_name j a_dot)) [
    | inl a ↦ (ground (arith, e, a, no_b), ground (arith, e, a, no_b))
    | inr no_a ↦ absurd (ground (arith, e, no_a, no_b))
  ]
]

-- Its chunks are linked, away from its nodes.
pub two_names-Chunked : Chunked tables two_names world
two_names-Chunked = record {
  names = 1000 ∷ [];
  nodes = 2000 ∷ [];
  name_chunks = (refl, omega arith, refl);
  node_chunks = (refl, omega arith, refl);
  few = omega arith;
  clear = λ j n q e.
      let low = two_low j n q e in
      (
        ((omega (arith, low), tt), (omega (arith, low), tt)),
        ((omega (arith, low), tt), (omega (arith, low), tt)),
      );
}

pub two_names-Holds : Holds tables two_names world ((10, 1) ∷ (20, 2) ∷ [])
two_names-Holds = record {
  list = recent;
  known = (one-Entry, (λ e. ground (arith, e), tt), (two-Entry, tt, tt));
  covers = λ j n q e. elim (two_covered j n q e) [
    | inl (j_b, q_2) ↦
        subst (Covered tables nodes ((10, 1) ∷ (20, 2) ∷ []) j) (sym q_2)
          (record { name = sym j_b; inside = Memᴰ.tail (Memᴰ.head refl) })
    | inr (j_a, q_1) ↦
        subst (Covered tables nodes ((10, 1) ∷ (20, 2) ∷ []) j) (sym q_1)
          (record { name = sym j_a; inside = Memᴰ.head refl })
  ];
  count = refl;
}

abbrev pub sizes : Sizes
sizes = record {
  name_tree = 56;
  heap = 80024;
  mem_pool = 72;
  rbnode = 40;
  node_value = 48;
  lru_node = 24;
  lru_list = 24;
  view_stats = 176;
  view_tree = 24;
}

abbrev pub view : View tables
view = record {
  name = bytes "v";
  name_tree = two_names;
  name_world = world;
  ip_tree = two_names;
  ip_world = world;
  qps = record { num = 0; den = 1 };
  success_rate = record { num = 1; den = 1 };
  count = 0;
  last_count = 0;
  counters = record { rcode = λ i. 0; rtype = λ i. 0 };
}

view_stats_set_memsize-Shrunk_example :
    (vs' : View tables) × (view_stats_set_memsize tables sizes view 100000 ≡ some vs')
    × Shrunk tables sizes view 100000 ((10, 1) ∷ (20, 2) ∷ []) ((10, 1) ∷ (20, 2) ∷ []) vs'
view_stats_set_memsize-Shrunk_example =
    view_stats_set_memsize-Shrunk tables sizes view 100000 ((10, 1) ∷ (20, 2) ∷ [])
      ((10, 1) ∷ (20, 2) ∷ []) two_names-Holds two_names-Holds

-- The pools have the nodes 3 and 53, which no name uses.
c_dot-Room : Room tables two_names world blocks
c_dot-Room = record {
  p = 3;
  node = 53;
  names = pool 1000 0;
  nodes = pool 2000 0;
  words1 = λ p. 0;
  words2 = λ p. 0;
  alloc1 = name_alloc;
  alloc2 = node_alloc;
  p_some = omega arith;
  node_some = omega arith;
  fresh = λ j n q e. elim (two_covered j n q e) [
    | inl (j_b, q_2) ↦ ground (arith, q_2)
    | inr (j_a, q_1) ↦ ground (arith, q_1)
  ];
  lru_some = omega arith;
  lru_free = refl;
}

name_tree_insert-Holds_example :
    (r : ℤ × NameTree tables × World) × (cell : Ptr × Ptr) × (rest : Cells) × (name_tree_insert
        tables two_names world blocks
        (some (bytes "c"))
      ≡ some r)
    × Holds tables r.1 r.2 (cell ∷ rest)
    × (((r.2).nodes cell.1).fqdn ≡ c_dot)
name_tree_insert-Holds_example =
    name_tree_insert-Holds tables two_names world blocks (bytes "c") c_dot ((10, 1) ∷ (20, 2) ∷ [])
      two_names-Holds (omega arith) c_dotted (λ missing. c_dot-Room)
