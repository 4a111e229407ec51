-- ===== src/NameTree.antt =====
-- The name tree of src/log_name_tree.c: a search tree of names, a heap of the names that were seen
-- most often, a list of the names by their last use, and two memory pools. The nodes' contents are
-- a memory of their own, which the tree, the heap and the list share by address. `none` as an
-- outcome of a whole operation means that the process stops: a failed assert, a NULL pointer
-- followed, or a write behind the end of an array.
pub mod Tree
pub mod Bump
pub mod Roof
pub mod Positions
pub mod Compare
pub mod Insert
pub mod Dot
pub mod Kept
pub mod Delete
pub mod Chunked
pub mod Closest
pub mod Create
use logstats.Base.{
  ◌/◌, ◌>>=◌, ℕ, zero, suc, ◌+◌, ◌-◌, ◌*◌, ◌%◌, ◌^◌, Bool, true, false, Option, none, some, List,
  [], ◌∷◌, ◌++◌, ℤ, pos, negsuc, to_int, ltb, leb, ◌==◌, if◌then◌else◌, update, length,
}
use logstats.Heap
use logstats.Heap.{Heap}
use logstats.Lru
use logstats.Lru.{LruList}
use logstats.MemPool
use logstats.MemPool.{MemPool, Ptr, Words}
use Tree.{SearchTree, Name}

-- MAX_NAME_LEN, and the roof of the heap.
abbrev pub max_name_len : ℕ
max_name_len = 32

abbrev pub roof : ℕ
roof = 1000

pub record NodeValue : Type 0 where
  pub fqdn : Name
  pub count : ℕ
  pub heap_index : ℤ
  pub ptr : Ptr

abbrev pub Nodes : Type 0
Nodes = Ptr → NodeValue

-- The memory that the parts of a name tree work on.
pub record World : Type 0 where
  pub nodes : Nodes
  pub words : Words
  pub lru_memory : Lru.Memory

-- What malloc returns in an operation: for a chunk of each pool, and for a node of the list.
pub record Blocks : Type 0 where
  pub name_chunk : Ptr
  pub node_chunk : Ptr
  pub lru_node : Ptr

-- The difference of two counts of 32 bits, read as an `int`.
pub elem_compare : Nodes → Ptr → Ptr → ℤ
unfolding to_int
elem_compare nodes e1 e2 = to_int (((nodes e1).count + 2 ^ 32 - (nodes e2).count) % 2 ^ 32)

abbrev pub elem_insert : Ptr → ℕ → Nodes → Nodes
elem_insert e1 idx nodes = update nodes e1 (record (nodes e1) { heap_index = pos idx })

unfoldable pub last_byte : ℕ → Name → ℕ
last_byte c [] = c
last_byte c (d ∷ name) = last_byte d name

-- `strcpy(nv.fqdn, name); if (!name_end_with_dot(name)) strcat(nv.fqdn, ".");`
-- name_end_with_dot asserts that the name is not empty.
unfoldable pub with_dot : Name → Option Name
unfolding last_byte
with_dot [] = none
with_dot (c ∷ name) =
    let full = if last_byte c name == b'.' then c ∷ name else (c ∷ name) ++ b'.' ∷ [] in
    if ltb (length full) max_name_len then some full else none

-- The last part of name_tree_insert, after `nv->count++`: a node whose heap index is -1 may enter
-- the heap, any other is sifted. A heap index is -1 or not negative.
pub enter_heap : Heap Ptr Nodes → Ptr → Nodes → Heap Ptr Nodes × Nodes
enter_heap heap nv nodes =
    let (out, replaced, after) = Heap.heap_replace_least heap nv (some elem_insert) nodes in
    let (at, grown, entered) = Heap.heap_insert heap nv (some elem_insert) nodes in
    if Heap.heap_reach_roof heap roof
    then (if Heap.heap_min_less_than heap nodes nv then (replaced, after) else (heap, nodes))
    else (grown, entered)

pub update_heap : Heap Ptr Nodes → Ptr → ℤ → Nodes → Heap Ptr Nodes × Nodes
unfolding enter_heap
update_heap heap nv (pos i) nodes = Heap.heap_adjust_siftdown heap i (some elem_insert) nodes
update_heap heap nv (negsuc _) nodes = enter_heap heap nv nodes

-- `nv->count++`, and the last part of name_tree_insert.
pub count_sighting : Heap Ptr Nodes → Ptr → Nodes → Heap Ptr Nodes × Nodes
count_sighting heap nv nodes =
    let seen = update nodes nv (record (nodes nv) { count = ((nodes nv).count + 1) % 2 ^ 32 }) in
    update_heap heap nv (seen nv).heap_index seen

-- The string in a word of `n` bytes, least first: it ends before its first zero byte, which a user
-- address has.
pub link_text : ℕ → Ptr → Name
link_text zero link = []
link_text (suc n) link =
    let rest = link_text n (link / 256) in if link % 256 == 0 then [] else link % 256 ∷ rest

-- mem_pool_free writes its link over the first bytes of the node that it takes back, those of the name.
-- Elements that were never a node are not followed.
pub freed_node : Nodes → Ptr → MemPool → Nodes
unfolding link_text
freed_node nodes nv pool = update nodes nv (record (nodes nv) { fqdn = link_text 8 pool.free_list })

module _ (rb : SearchTree) where
  open rb use {Tree, search, insert, delete}

  pub record NameTree : Type 0 where
    pub tree : Tree
    pub heap : Heap Ptr Nodes
    pub node_pool : MemPool
    pub name_pool : MemPool
    pub count : ℕ
    pub lru : LruList

  -- The node of a name, or NULL.
  pub name_tree_exactly_find : NameTree → Option Name → Option (Option Ptr)
  unfolding with_dot
  name_tree_exactly_find t none = some none
  name_tree_exactly_find t (some name) =
      let look : Option (Option Ptr) = do
        full ← with_dot name
        some (elim (search t.tree full) [ none ↦ none | some (node, nv) ↦ some nv ])
      in if leb max_name_len (length name) then some none else look

  -- The middle part of name_tree_insert, for a name that the tree does not have. The address of the
  -- new node, or `none` (within) where memory ran out and -1 is returned.
  pub new_node : NameTree → World → Blocks → Name → Option (Option Ptr × NameTree × World)
  unfolding freed_node
  new_node t w blocks full =
      let (nv, names, words1) = MemPool.mem_pool_alloc t.name_pool blocks.name_chunk w.words in
      let (node, nodes, words2) = MemPool.mem_pool_alloc t.node_pool blocks.node_chunk words1 in
      let value : NodeValue = record { fqdn = full; count = 0; heap_index = negsuc 0; ptr = 0 } in
      let no_name : Option (Option Ptr × NameTree × World) =
        some (none, record t { name_pool = names }, record w { words = words1 }) in
      let no_node : Option (Option Ptr × NameTree × World) = do
        (names', words3) ← MemPool.mem_pool_free names nv words2
        some (
          none,
          record t { name_pool = names'; node_pool = nodes },
          record w { nodes = freed_node w.nodes nv names; words = words3 },
        )
      in let refused : Option (Option Ptr × NameTree × World) = do
        (nodes', words3) ← MemPool.mem_pool_free nodes node words2
        (names', words4) ← MemPool.mem_pool_free names nv words3
        some (
          none,
          record t { name_pool = names'; node_pool = nodes' },
          record w { nodes = freed_node (update w.nodes nv value) nv names; words = words4 },
        )
        in let linked : Tree → Option (Option Ptr × NameTree × World) = λ grown. do
          (lru_node, lru, memory) ← Lru.lru_list_insert t.lru nv blocks.lru_node w.lru_memory
          some (
            some nv,
            record t {
              tree = grown;
              name_pool = names;
              node_pool = nodes;
              count = (t.count + 1) % 2 ^ 32;
              lru = lru;
            },
            record {
              nodes = update w.nodes nv (record value { ptr = lru_node });
              words = words2;
              lru_memory = memory;
            },
          )
          in if nv == 0
            then no_name
            else if node == 0
            then no_node
            else elim (insert t.tree full (node, nv)) [ none ↦ refused | some grown ↦ linked grown ]

  -- The result code is 0, or -1 for a name that is NULL or too long, or where memory ran out.
  pub name_tree_insert : NameTree → World → Blocks → Option Name → Option (ℤ × NameTree × World)
  name_tree_insert t w blocks none = some (negsuc 0, t, w)
  name_tree_insert t w blocks (some name) =
      let counted : Ptr → NameTree → World → Option (ℤ × NameTree × World) = λ nv t' w'.
        let (heap, nodes) = count_sighting t'.heap nv w'.nodes in
        some (pos 0, record t' { heap = heap }, record w' { nodes = nodes }) in
      let absent : Option (ℤ × NameTree × World) = do
        full ← with_dot name
        (nv, t', w') ← new_node t w blocks full
        elim nv [ none ↦ some (negsuc 0, t', w') | some p ↦ counted p t' w' ]
      in let present : Ptr → Option (ℤ × NameTree × World) = λ p. do
        (lru, memory) ← Lru.lru_list_move_to_first t.lru (w.nodes p).ptr w.lru_memory
        counted p (record t { lru = lru }) (record w { lru_memory = memory })
        in let body : Option (ℤ × NameTree × World) = do
          found ← name_tree_exactly_find t (some name)
          elim found [ none ↦ absent | some p ↦ present p ]
          in if leb max_name_len (length name) then some (negsuc 0, t, w) else body

  -- `del_func` gets the list and the node's own entry in it.
  pub name_tree_delete :
      NameTree
      → World
      → Option Name
      → Option (LruList → Ptr → Lru.Memory → Option (LruList × Lru.Memory))
      → Option (ℤ × NameTree × World)
  unfolding with_dot freed_node
  name_tree_delete t w none del_func = some (negsuc 0, t, w)
  name_tree_delete t w (some name) del_func =
      let unlinked : Ptr → Option (LruList × Lru.Memory) = λ nv. elim del_func [
        | none ↦ some (t.lru, w.lru_memory)
        | some f ↦ f t.lru (w.nodes nv).ptr w.lru_memory
      ] in
      let gone : Ptr → Ptr → Tree → Option (ℤ × NameTree × World) = λ node nv left. do
        (lru, memory) ← unlinked nv
        (names, words1) ← MemPool.mem_pool_free t.name_pool nv w.words
        (nodes, words2) ← MemPool.mem_pool_free t.node_pool node words1
        some (
          pos 0,
          record t {
            tree = left;
            name_pool = names;
            node_pool = nodes;
            count = (t.count + 2 ^ 32 - 1) % 2 ^ 32;
            lru = lru;
          },
          record w {
            nodes = freed_node w.nodes nv t.name_pool;
            words = words2;
            lru_memory = memory;
          },
        )
      in let body : Option (ℤ × NameTree × World) = do
        full ← with_dot name
        elim (delete t.tree full) [
          | none ↦ some (negsuc 0, t, w)
          | some ((node, nv), left) ↦ gone node nv left
        ]
        in if leb max_name_len (length name) then some (negsuc 0, t, w) else body
