-- ===== src/ViewStats/Memory/Evict.antt =====
-- The names of a tree by their last use: the list, the tree and the count agree, also where the last name
-- is dropped, as view_stats_set_memsize does.
pub mod Loop
use logstats.Base.{
  append-nil, append_assoc, ℕ, zero, suc, ◌+◌, ◌-◌, ◌%◌, ◌^◌, ◌≤◌, ◌<◌, ◌≡◌, ◌≢◌, ◌⊎◌, refl, sym,
  subst, ap, ◌∙◌, true, false, Bool-cases, inl, inr, none, some, Option, ℤ, [], ◌∷◌, ◌++◌, length,
  length-append, ltb, ◌==◌, arith,
}
use mathlib.Core.List.{Memᴰ}
use logstats.Lru
use logstats.Lru.{LruList}
use logstats.Lru.Listed.{Listed, Listed-drop, Listed-other, Listed-renamed, OwnCell, OwnCell-rest}
use logstats.Lru.Seg.{Cells, Seg-split, IsList}
use logstats.Lru.Take.{lru_list_remove_tail-Taken, lru_list_remove_tail-nil}
use logstats.MemPool.{Ptr}
use logstats.NameTree.{Nodes, NodeValue, World, NameTree, with_dot, name_tree_delete, max_name_len}
use logstats.NameTree.Delete.{name_tree_delete-Deleted}
use logstats.NameTree.Tree.{SearchTree, Name}
use logstats.ViewStats.Memory.{evict_loop}

-- A list is empty or has a last element.
pub last_cases : (xs : Cells) → (xs ≡ []) ⊎ ((ys : Cells) × (x : Ptr × ℕ) × (xs ≡ ys ++ x ∷ []))
last_cases [] = inl refl
last_cases (x ∷ xs) = elim (last_cases xs) [
  | inl e ↦ inr ([], x, ap (λ us. x ∷ us) e)
  | inr (ys, y, e) ↦ inr (x ∷ ys, y, ap (λ us. x ∷ us) e)
]

pub IsList-of :
    (m m' : Lru.Memory) (l l' : LruList) (xs : Cells)
    → l' ≡ l
    → m' ≡ m
    → IsList m l (xs ++ [])
    → IsList m' l' xs
IsList-of m m' l l' xs e f v =
    subst (λ us. IsList m' l' us) (append-nil xs)
      (subst (λ l. IsList m' l (xs ++ [])) (sym e) (subst (λ m. IsList m l (xs ++ [])) (sym f) v))

pub count_back :
    (c : ℕ) (ys : Cells) (x : Ptr × ℕ)
    → c ≡ length (ys ++ x ∷ []) % 2 ^ 32
    → (c + 2 ^ 32 - 1) % 2 ^ 32 ≡ length ys % 2 ^ 32
count_back c ys x e = omega (arith, length-append ys (x ∷ []))

-- What is gone under a name is not found under it.
left_behind :
    (found : Name → Option (ℕ × ℕ)) {i j : Name} {c : ℕ × ℕ}
    → found i ≡ none
    → found j ≡ some c
    → ¬ (i ≡ j)
left_behind found gone e f = absurd (cc (gone, e, ap found f))

module _ (rb : SearchTree) where
  open rb use {Tree, search}

  -- The tree has the node `p` under its name, which ends in a dot and is short.
  pub record Entry (tree : Tree) (nodes : Nodes) (p : Ptr) : Type 0 where
    pub node : Ptr
    pub found : search tree (nodes p).fqdn ≡ some (node, p)
    pub node_some : node ≢ 0
    pub dotted : with_dot (nodes p).fqdn ≡ some (nodes p).fqdn
    pub short : length (nodes p).fqdn < max_name_len

  -- A node that is as it was.
  Entry-same :
      (tree : Tree) (nodes nodes' : Nodes) (q : Ptr)
      → nodes' q ≡ nodes q
      → Entry tree nodes q
      → Entry tree nodes' q
  Entry-same tree nodes nodes' q e h =
      let name = ap (λ (v : NodeValue). v.fqdn) e in
      record {
        node = h.node;
        found = rw name h.found;
        node_some = h.node_some;
        dotted = rw name h.dotted;
        short = rw name h.short;
      }

  Entry-other :
      (tree left : Tree) (nodes : Nodes) (p q : Ptr)
      → ((j : Name) → j ≢ (nodes p).fqdn → search left j ≡ search tree j)
      → (nodes q).fqdn ≢ (nodes p).fqdn
      → Entry tree nodes q
      → Entry left nodes q
  Entry-other tree left nodes p q others ne h = record {
    node = h.node;
    found = others (nodes q).fqdn ne ∙ h.found;
    node_some = h.node_some;
    dotted = h.dotted;
    short = h.short;
  }

  -- The tree has every node of the list, and their names differ.
  abbrev pub Known : Tree → Nodes → Cells → Type 0
  Known tree nodes = Listed (λ p. (nodes p).fqdn) (λ t p. Entry t nodes p) tree

  -- What the tree has under a name is a node of this name, with its own node in the list.
  abbrev pub Covered : Nodes → Cells → Name → Ptr → Type 0
  Covered nodes = OwnCell (λ q. (nodes q).fqdn) (λ q. (nodes q).ptr)

  Covered-same :
      (xs : Cells) (nodes nodes' : Nodes) (j : Name) (q : Ptr)
      → nodes' q ≡ nodes q
      → Covered nodes xs j q
      → Covered nodes' xs j q
  Covered-same xs nodes nodes' j q e c = record {
    name = ap (λ (v : NodeValue). v.fqdn) e ∙ c.name;
    inside = subst (λ k. Memᴰ (k, q) xs) (sym (ap (λ (v : NodeValue). v.ptr) e)) c.inside;
  }

  -- The list, the tree and the count agree on the names `xs`, the one used last first.
  pub record Holds (t : NameTree rb) (w : World) (xs : Cells) : Type 0 where
    pub list : IsList w.lru_memory t.lru xs
    pub known : Known t.tree w.nodes xs
    pub covers :
        (j : Name) (node p : Ptr) → search t.tree j ≡ some (node, p) → Covered w.nodes xs j p
    pub count : t.count ≡ length xs % 2 ^ 32

  module _ (t : NameTree rb) (w : World) where
    -- What a round leaves of a tree that holds the names `ys` and, last, that of `p`.
    pub drop_last :
        (k p : Ptr) (ys : Cells)
        → Holds t w (ys ++ (k, p) ∷ [])
        → (lru : LruList) × (memory : Lru.Memory) × (r : ℤ × NameTree rb × World)
          × (Lru.lru_list_remove_tail t.lru w.lru_memory ≡ some (p, lru, memory))
          × (p ≢ 0)
          × (name_tree_delete rb
                (record t { lru = lru })
                (record w { lru_memory = memory })
                (some (w.nodes p).fqdn)
                none
              ≡ some r)
          × Holds r.1 r.2 ys
    drop_last k p ys h =
        let (l, run, taken) = lru_list_remove_tail-Taken w.lru_memory t.lru ys k p h.list in
        let (before, e, unlike) =
          Listed-drop (λ q. (w.nodes q).fqdn) (λ t q. Entry t w.nodes q) t.tree k p ys h.known in
        let np : p ≢ 0 = (Seg-split w.lru_memory 0 ys ((k, p) ∷ []) 0 h.list.linked).1.2 in
        let (r, gone, d) =
          name_tree_delete-Deleted rb (record t { lru = l.0 }) (record w { lru_memory = l.1 })
            (w.nodes p).fqdn (w.nodes p).fqdn e.node p e.short e.dotted e.found np e.node_some in
        (
          l.0,
          l.1,
          r,
          run,
          np,
          gone,
          record {
            list = IsList-of l.1 (r.2).lru_memory l.0 (r.1).lru ys d.lru.0 d.lru.1 taken.list;
            known =
                Listed-renamed (λ q. (w.nodes q).fqdn) (λ q. ((r.2).nodes q).fqdn)
                  (λ t q. Entry t w.nodes q) (λ t q. Entry t (r.2).nodes q) p
                  (λ q ne. ap (λ (v : NodeValue). v.fqdn) (d.nodes q ne)) (r.1).tree ys
                  (λ q ne. Entry-same (r.1).tree w.nodes (r.2).nodes q (d.nodes q ne)) unlike
                  (Listed-other (λ q. (w.nodes q).fqdn) (λ t q. Entry t w.nodes q) t.tree (r.1).tree
                    p ys (λ q. Entry-other t.tree (r.1).tree w.nodes p q d.others) unlike before);
            covers = λ j n q e.
                let c =
                  OwnCell-rest (λ q. (w.nodes q).fqdn) (λ q. (w.nodes q).ptr) (search t.tree)
                    (search (r.1).tree) k p ys h.covers d.gone d.others j n q e in
                Covered-same ys w.nodes (r.2).nodes j q
                  (d.nodes q (λ f.
                    left_behind (search (r.1).tree) d.gone e
                      (sym (ap (λ i. (w.nodes i).fqdn) f) ∙ c.name)))
                  c;
            count = d.count ∙ count_back t.count ys (k, p) h.count;
          },
        )
