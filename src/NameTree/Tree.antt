-- ===== src/NameTree/Tree.antt =====
-- The search tree that src/log_name_tree.c and src/log_view_tree.c are built on: what they rely on of
-- the red-black tree of src/dig_rb_tree.c, a copy of a library's. A tree maps the names that its
-- nodes hold to those nodes.
use logstats.Base.{ℕ, ◌≡◌, ◌≢◌, Option, none, some, List, [], ◌∷◌, ◌++◌}

-- A string without its final NUL.
abbrev pub Name : Type 0
Name = List ℕ

-- The addresses of a node of the tree and of the value that it points to.
abbrev pub TreeNode : Type 0
TreeNode = ℕ × ℕ

pub record SearchTree : Type 1 where
  pub Tree : Type 0
  pub create : Tree
  pub search : Tree → Name → Option TreeNode
  -- The tree after the insertion, or none for the result NULL; the node that was unlinked, or NULL.
  pub insert : Tree → Name → TreeNode → Option Tree
  pub delete : Tree → Name → Option (TreeNode × Tree)
  pub search-create : (k : Name) → search create k ≡ none
  pub insert-present :
      (t : Tree) (k : Name) (n o : TreeNode) → search t k ≡ some o → insert t k n ≡ some t
  pub insert-absent :
      (t : Tree) (k : Name) (n : TreeNode)
      → search t k ≡ none
      → (t' : Tree) × (insert t k n ≡ some t')
        × (search t' k ≡ some n)
        × ((j : Name) → j ≢ k → search t' j ≡ search t j)
  pub delete-absent : (t : Tree) (k : Name) → search t k ≡ none → delete t k ≡ none
  pub delete-present :
      (t : Tree) (k : Name) (n : TreeNode)
      → search t k ≡ some n
      → (t' : Tree) × (delete t k ≡ some (n, t'))
        × (search t' k ≡ none)
        × ((j : Name) → j ≢ k → search t' j ≡ search t j)
  -- The entries in the order of RBTREE_FOR.
  pub in_order : Tree → List (Name × TreeNode)
  pub in_order-create : in_order create ≡ []
  pub in_order-insert :
      (t t' : Tree) (k : Name) (n : TreeNode)
      → search t k ≡ none
      → insert t k n ≡ some t'
      → (before after : List (Name × TreeNode)) × (in_order t ≡ before ++ after)
        × (in_order t' ≡ before ++ (k, n) ∷ after)
  pub in_order-delete :
      (t t' : Tree) (k : Name) (n : TreeNode)
      → delete t k ≡ some (n, t')
      → (before after : List (Name × TreeNode)) × (in_order t ≡ before ++ (k, n) ∷ after)
        × (in_order t' ≡ before ++ after)
  pub in_order-search :
      (t : Tree) (k : Name) (n : TreeNode)
      → search t k ≡ some n
      → (before after : List (Name × TreeNode)) × (in_order t ≡ before ++ (k, n) ∷ after)
