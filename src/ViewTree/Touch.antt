-- ===== src/ViewTree/Touch.antt =====
-- A view of src/log_view_tree.c that is used again: its node of the list goes to the front.
use logstats.Base.{◌<◌, ◌≡◌, ap, subst, some, ◌∷◌, ◌++◌, length, length-append, arith}
use logstats.Lru
use logstats.Lru.{LruList}
use logstats.Lru.Listed.{split_at_cell, cell_moved, Listed-moved}
use logstats.Lru.Move.{lru_list_move_to_first-Moved}
use logstats.Lru.Seg.{Cells}
use logstats.MemPool.{Ptr}
use logstats.NameTree.Tree.{SearchTree, Name}
use logstats.ViewTree.{ViewTree, ViewMemory}
use logstats.ViewTree.Shrink.{Entry, Managed}

module _ (rb : SearchTree) (t : ViewTree rb) (w : ViewMemory rb) where
  -- What brings the view of the node `k` to the front leaves.
  pub record Touched (k p : Ptr) (ys zs : Cells) : Type 0 where
    pub lru : LruList
    pub memory : Lru.Memory
    pub run : Lru.lru_list_move_to_first t.lrulist k w.lru_memory ≡ some (lru, memory)
    pub managed :
        Managed rb
          (record t { lrulist = lru })
          (record w { lru_memory = memory })
          ((k, p) ∷ (ys ++ zs))

  move-Managed :
      (k p : Ptr) (ys zs : Cells) → Managed rb t w (ys ++ (k, p) ∷ zs) → Touched k p ys zs
  move-Managed k p ys zs h =
      let (r, run, moved) = lru_list_move_to_first-Moved w.lru_memory t.lrulist ys zs k p h.list in
      record {
        lru = r.0;
        memory = r.1;
        run = run;
        managed = record {
          list = moved.list;
          known =
              Listed-moved (λ q. (w.views q).name) (Entry rb w.views) t.rbtree k p ys zs h.known;
          covers = λ i n q e.
              let d = h.covers i n q e in
              record { name = d.name; inside = cell_moved ys zs d.inside };
          count = omega (arith, h.count, length-append ys ((k, p) ∷ zs), length-append ys zs);
          live = h.live;
        };
      }

  -- Where list, tree, count and statistics agree, lru_list_move_to_first with the node of the view that is
  -- found under a name brings that view to the front, and they still agree.
  pub found-Touched :
      (xs : Cells) (j : Name) (node p : Ptr)
      → Managed rb t w xs
      → rb.search t.rbtree j ≡ some (node, p)
      → (ys : Cells) × (zs : Cells) × (length (ys ++ zs) < length xs)
        × Touched (w.views p).ptr p ys zs
  found-Touched xs j node p h found =
      let k = (w.views p).ptr in
      let (ys, zs, split) = split_at_cell (h.covers j node p found).inside in
      (
        ys,
        zs,
        omega (arith, ap length split, length-append ys ((k, p) ∷ zs), length-append ys zs),
        move-Managed k p ys zs (subst (λ us. Managed rb t w us) split h),
      )
