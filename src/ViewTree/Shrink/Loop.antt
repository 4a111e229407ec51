-- ===== src/ViewTree/Shrink/Loop.antt =====
-- The loop of view_tree_set_memsize of src/log_view_tree.c: it ends, and drops the views that were used
-- longest ago, no more than needed.
use logstats.Base.{
  ℕ, zero, suc, ◌+◌, ◌*◌, ◌%◌, ◌^◌, ◌≤◌, ◌<◌, ◌≡◌, ◌≢◌, ◌⊎◌, Bool, refl, sym, subst, ap, ◌∙◌, true,
  false, Bool-cases, inl, inr, some, [], ◌∷◌, ◌++◌, length, length-append, append-nil, append_assoc,
  ltb, ◌==◌, ◌&&◌, arith,
}
use logstats.Lru
use logstats.Lru.{LruList}
use logstats.Lru.Seg.{Cells}
use logstats.MemPool.{Ptr}
use logstats.NameTree.Create.{Sizes}
use logstats.NameTree.Tree.{SearchTree}
use logstats.ViewStats.Memory.Evict.{last_cases}
use logstats.ViewTree.{
  ViewTree, ViewTreeNode, ViewMemory, view_tree_delete, view_tree_get_size, shrink_loop,
}
use logstats.ViewTree.Freeable.{AllFreeable}
use logstats.ViewTree.Live.{sum_sizes-Live}
use logstats.ViewTree.Shrink.{Managed, drop_view}

module _ (rb : SearchTree) where
  module _ (sizes : Sizes) (expect_size : ℕ) where
    -- The state in front of the last drop: it holds one view more, is above the limit, and `r` is what
    -- unlinking its last view and view_tree_delete of it leave.
    pub record Needed (kept dropped : Cells) (r : ViewTree rb × ViewMemory rb) : Type 0 where
      pub tree : ViewTree rb
      pub memory : ViewMemory rb
      pub cell : Ptr × ℕ
      pub more : Cells
      pub next : dropped ≡ cell ∷ more
      pub managed : Managed rb tree memory (kept ++ cell ∷ [])
      pub size : ℕ
      pub sized : view_tree_get_size rb sizes tree memory ≡ some size
      pub above : expect_size < size
      pub lru : LruList
      pub cells : Lru.Memory
      pub unlinked :
          Lru.lru_list_remove_tail tree.lrulist memory.lru_memory ≡ some (cell.1, lru, cells)
      pub deleted :
          view_tree_delete rb
            (record tree { lrulist = lru })
            (record memory { lru_memory = cells })
            (memory.views cell.1).name
          ≡ some r

    -- No more is dropped than the limit asks for: from the state `s`, nothing has changed, or the last
    -- drop was made above the limit.
    abbrev pub Least :
        ViewTree rb × ViewMemory rb → (kept dropped : Cells) → ViewTree rb × ViewMemory rb → Type 0
    Least s kept dropped r = ((dropped ≡ []) × (r ≡ s)) ⊎ Needed kept dropped r

    -- Of the views `xs`, the first part is kept and the rest, used longest ago, is dropped, and no more
    -- than needed: one view is left if there was any, and the size is within the limit or no second view
    -- is left.
    pub record Kept (s : ViewTree rb × ViewMemory rb) (views : Ptr → ViewTreeNode) (xs : Cells)
        (r : ViewTree rb × ViewMemory rb) : Type 0 where
      pub kept : Cells
      pub dropped : Cells
      pub split : xs ≡ kept ++ dropped
      pub some_left : kept ≡ [] → xs ≡ []
      pub views_same : (r.1).views ≡ views
      pub managed : Managed rb r.0 r.1 kept
      pub fits :
          ((n : ℕ) × (view_tree_get_size rb sizes r.0 r.1 ≡ some n) × (n ≤ expect_size))
          ⊎ (length kept ≤ 1)
      pub least : Least s kept dropped r
      pub free : AllFreeable rb (r.1).stats

    pub size_known :
        (t : ViewTree rb) (w : ViewMemory rb) (xs : Cells)
        → Managed rb t w xs
        → (n : ℕ) × (view_tree_get_size rb sizes t w ≡ some n)
    unfolding view_tree_get_size
    size_known t w xs h =
        let (total, e) = sum_sizes-Live rb sizes w (rb.in_order t.rbtree) h.live in
        ((total + sizes.view_tree + sizes.lru_node * t.lrulist.count) % 2 ^ 64, rw e refl)

    going : ℕ → ℕ → Bool
    going n c = ltb expect_size n && (ltb 1 c && ltb c (2 ^ 31))

    going_above : (n c : ℕ) → going n c ≡ true → expect_size < n
    unfolding going
    going_above n c h = ground arith

    going_on : (n c : ℕ) → going n c ≡ true → 1 < c
    unfolding going
    going_on n c h = ground arith

    stopped : (n c : ℕ) → going n c ≡ false → c < 2 ^ 31 → (n ≤ expect_size) ⊎ (c ≤ 1)
    unfolding going
    stopped n c h lt = elim (Bool-cases (ltb expect_size n)) [
      | inl over ↦ inr (ground arith)
      | inr within ↦ inl (ground arith)
    ]

    shrink_stop :
        (fuel n : ℕ) (t : ViewTree rb) (w : ViewMemory rb)
        → view_tree_get_size rb sizes t w ≡ some n
        → going n t.count ≡ false
        → shrink_loop rb sizes (suc fuel) expect_size t w ≡ some (t, w)
    unfolding shrink_loop going
    shrink_stop fuel n t w size stop = rw size (rw stop refl)

    shrink_round :
        (fuel n : ℕ) (t : ViewTree rb) (w : ViewMemory rb) (p : Ptr) (lru : LruList)
        (memory : Lru.Memory) (r : ViewTree rb × ViewMemory rb)
        → view_tree_get_size rb sizes t w ≡ some n
        → going n t.count ≡ true
        → Lru.lru_list_remove_tail t.lrulist w.lru_memory ≡ some (p, lru, memory)
        → p ≢ 0
        → view_tree_delete rb
            (record t { lrulist = lru })
            (record w { lru_memory = memory })
            (w.views p).name
          ≡ some r
        → shrink_loop rb sizes (suc fuel) expect_size t w
          ≡ shrink_loop rb sizes fuel expect_size r.0 r.1
    unfolding shrink_loop going
    shrink_round fuel n t w p lru memory r size go run np gone =
        let p_some : (p == 0) ≡ false = ground arith in
        rw size (rw (go, run) (rw (p_some, gone) refl))

    -- The round after which no other follows.
    first_drop :
        (n : ℕ) (t : ViewTree rb) (w : ViewMemory rb) (k p : Ptr) (ys kept dropped : Cells)
        (lru : LruList) (memory : Lru.Memory) (r last : ViewTree rb × ViewMemory rb)
        → dropped ≡ []
        → last ≡ r
        → ys ≡ kept ++ dropped
        → Managed rb t w (ys ++ (k, p) ∷ [])
        → view_tree_get_size rb sizes t w ≡ some n
        → going n t.count ≡ true
        → Lru.lru_list_remove_tail t.lrulist w.lru_memory ≡ some (p, lru, memory)
        → view_tree_delete rb
            (record t { lrulist = lru })
            (record w { lru_memory = memory })
            (w.views p).name
          ≡ some r
        → Needed kept (dropped ++ (k, p) ∷ []) last
    first_drop n t w k p ys kept dropped lru memory r last none_more same split h size go run gone =
        let whole : ys ≡ kept = split ∙ (ap (λ us. kept ++ us) none_more ∙ append-nil kept) in
        record {
          tree = t;
          memory = w;
          cell = (k, p);
          more = [];
          next = ap (λ us. us ++ (k, p) ∷ []) none_more;
          managed = subst (λ us. Managed rb t w (us ++ (k, p) ∷ [])) whole h;
          size = n;
          sized = size;
          above = going_above n t.count go;
          lru = lru;
          cells = memory;
          unlinked = run;
          deleted = gone ∙ ap some (sym same);
        }

    -- The loop ends within one round more than the list has views.
    pub shrink_loop-Kept :
        (fuel : ℕ) (t : ViewTree rb) (w : ViewMemory rb) (xs : Cells)
        → length xs < fuel
        → length xs < 2 ^ 31
        → Managed rb t w xs
        → AllFreeable rb w.stats
        → (r : ViewTree rb × ViewMemory rb) × (shrink_loop rb sizes fuel expect_size t w ≡ some r)
          × Kept (t, w) w.views xs r
    shrink_loop-Kept zero t w xs f small h all = elim f [ ]
    shrink_loop-Kept (suc fuel) t w xs f small h all =
        let (n, size) = size_known t w xs h in
        let exact : t.count ≡ length xs = omega (arith, h.count) in
        elim (Bool-cases (going n t.count)) [
          | inr stop ↦ (
            (t, w),
            shrink_stop fuel n t w size stop,
            record {
              kept = xs;
              dropped = [];
              split = sym (append-nil xs);
              some_left = λ e. e;
              views_same = refl;
              managed = h;
              fits = elim (stopped n t.count stop (omega arith)) [
                | inl le ↦ inl (n, size, le)
                | inr le ↦ inr (omega arith)
              ];
              least = inl (refl, refl);
              free = all;
            },
          )
          | inl go ↦ elim (last_cases xs) [
            | inl e ↦ absurd (omega (arith, ap length e, going_on n t.count go))
            | inr (ys, (k, p), e) ↦
                let (lru, memory, r, run, np, gone, same, rest, all') =
                  drop_view rb t w k p ys (subst (λ us. Managed rb t w us) e h) all in
                let count = length-append ys ((k, p) ∷ []) in
                let (last, ends, v) =
                  shrink_loop-Kept fuel r.0 r.1 ys (omega (arith, ap length e, count))
                    (omega (arith, ap length e, count)) rest all' in
                (
                  last,
                  shrink_round fuel n t w p lru memory r size go run np gone ∙ ends,
                  record {
                    kept = v.kept;
                    dropped = v.dropped ++ (k, p) ∷ [];
                    split =
                        e
                        ∙ ap (λ us. us ++ (k, p) ∷ []) v.split
                        ∙ append_assoc v.kept v.dropped ((k, p) ∷ []);
                    some_left = λ none_left. absurd (
                        omega (
                          arith,
                          ap length e,
                          ap length (v.some_left none_left),
                          count,
                          going_on n t.count go,
                        ));
                    views_same = v.views_same ∙ same;
                    managed = v.managed;
                    fits = v.fits;
                    least = inr (elim v.least [
                      | inl (none_more, unchanged) ↦
                          first_drop n t w k p ys v.kept v.dropped lru memory r last none_more
                            unchanged v.split (subst (λ us. Managed rb t w us) e h) size go run gone
                      | inr d ↦ record {
                        tree = d.tree;
                        memory = d.memory;
                        cell = d.cell;
                        more = d.more ++ (k, p) ∷ [];
                        next = ap (λ us. us ++ (k, p) ∷ []) d.next;
                        managed = d.managed;
                        size = d.size;
                        sized = d.sized;
                        above = d.above;
                        lru = d.lru;
                        cells = d.cells;
                        unlinked = d.unlinked;
                        deleted = d.deleted;
                      }
                    ]);
                    free = v.free;
                  },
                )
          ]
        ]
