-- ===== src/NameTree/Closest.antt =====
-- name_tree_closely_find of src/log_name_tree.c: the node of a name, or of the closest name above it.
use logstats.Base.{
  ◌>>=◌, ℕ, zero, suc, ◌+◌, Option, none, some, [], ◌∷◌, leb, ◌==◌, if◌then◌else◌, length,
}
use logstats.MemPool.{Ptr}
use logstats.NameTree.{NameTree, with_dot, name_tree_exactly_find, max_name_len}
use logstats.NameTree.Tree.{SearchTree, Name}

-- What follows the first dot, of a name that has one; `none` is a pointer to no string.
pub after_dot : Name → Option Name
after_dot [] = none
after_dot (c ∷ name) = let rest = after_dot name in if c == b'.' then some name else rest

-- The name above, or NULL for the root; `none` is the failed assert on an empty name.
pub parent_of : Name → Option Name → Option (Option Name)
parent_of name none = none
parent_of name (some []) = if length name == 1 then some none else some (some (b'.' ∷ []))
parent_of name (some (c ∷ rest)) = some (some (c ∷ rest))

pub generate_parent_name : Name → Option (Option Name)
unfolding after_dot parent_of
generate_parent_name name = parent_of name (after_dot name)

module _ (rb : SearchTree) where
  -- The loop with so many rounds to go; `none` is a loop that is still running, or a process that
  -- stopped.
  pub closest_loop : ℕ → NameTree rb → Name → Option (Option Ptr)
  closest_loop zero t name = none
  closest_loop (suc fuel) t name =
      let climb : Option (Option Ptr) = do
        parent ← generate_parent_name name
        elim parent [ none ↦ some none | some above ↦ closest_loop fuel t above ]
      in do
        found ← name_tree_exactly_find rb t (some name)
        elim found [ none ↦ climb | some nv ↦ some (some nv) ]

  -- Each name above is shorter, except that `.` is above a name of one part.
  pub name_tree_closely_find : NameTree rb → Option Name → Option (Option Ptr)
  unfolding closest_loop with_dot
  name_tree_closely_find t none = some none
  name_tree_closely_find t (some name) =
      let body : Option (Option Ptr) = do
        full ← with_dot name
        closest_loop (length full + 1) t full
      in if leb max_name_len (length name) then some none else body
