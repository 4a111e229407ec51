-- ===== src/HouseKeeper/Views.antt =====
-- The part of log_handle of src/log_topn.c in front of the counters: it finds or makes the view of the line,
-- puts it in front of the list, and cuts the memory down.
use logstats.Base.{
  ◌>>=◌, ◌≤◌, ◌⊎◌, sym, [], ℕ, ◌+◌, ◌<◌, ◌^◌, ◌≡◌, refl, ap, subst, ◌∙◌, false, Bool-cases, inl,
  inr, Option-cases, none, some, ◌∷◌, ◌++◌, length, ltb, ◌==◌, update, arith,
}
use logstats.Lru.Seg.{Cells}
use logstats.MemPool.{Ptr}
use logstats.NameTree.Create.{Sizes}
use logstats.NameTree.Tree.{SearchTree, Name}
use logstats.ViewStats.View.{View, view_stats_create}
use logstats.LogLine.{Sighting}
use logstats.ViewTree.{
  view_tree_get_size, view_tree_find, ViewTree, ViewTreeNode, ViewMemory, stats_node_max_size,
  load_stats,
}
use logstats.ViewTree.Enter.{NewBlocks, view_tree_insert-Managed}
use logstats.ViewTree.Find.{find-some, find-none}
use logstats.ViewStats.Memory.Freeable.{Freeable}
use logstats.ViewTree.Freeable.{AllFreeable, AllFreeable-stored}
use logstats.ViewTree.Live.{load_stats-Allocated}
use logstats.ViewTree.Memory.{recent-Allocated, view_tree_set_memsize-Cut}
use logstats.ViewTree.Shrink.{Managed}
use logstats.ViewTree.Shrink.Loop.{size_known}
use logstats.ViewTree.Sound.{view_stats_create-Sound}
use logstats.ViewTree.Touch.{found-Touched}
use logstats.HouseKeeper.{HouseKeeper, LogBlocks, view_for, limit_memory, count_in, log_handle}

module _ (rb : SearchTree) (sizes : Sizes) where
  -- What malloc has to return where the view of the line is new: memory for its statistics, which
  -- view_stats_create returns, with the chunks of its pools apart, and for its nodes.
  pub record NewView (k : HouseKeeper rb sizes) (blocks : LogBlocks) (name : Name) : Type 0 where
    pub vs : View rb
    pub created : view_stats_create rb sizes blocks.stats name ≡ some (some vs)
    pub returned : blocks.returned ≡ blocks.stats.vs
    pub free : Freeable rb vs
    pub blocks_new : NewBlocks rb k.views k.memory blocks.view blocks.stats.vs

  -- The view of the line is in front, at `p`, with its statistics at `a`.
  pub record Front (name : Name) (a : Ptr) (t : ViewTree rb) (w : ViewMemory rb) (n : ℕ)
      : Type 0 where
    pub cell : Ptr
    pub p : Ptr
    pub rest : Cells
    pub managed : Managed rb t w ((cell, p) ∷ rest)
    pub name_same : (w.views p).name ≡ name
    pub at : (w.views p).vs ≡ a
    pub bound : length rest < n
    pub free : AllFreeable rb w.stats

  pub view_for-Front :
      (k : HouseKeeper rb sizes) (blocks : LogBlocks) (name : Name) (xs : Cells)
      → Managed rb k.views k.memory xs
      → AllFreeable rb k.memory.stats
      → length name < stats_node_max_size
      → (rb.search k.views.rbtree name ≡ none → NewView k blocks name)
      → (r : Ptr × ViewTree rb × ViewMemory rb) × (view_for rb sizes k blocks name ≡ some r)
        × Front name r.0 r.1 r.2 (length xs + 1)
  unfolding view_for
  view_for-Front k blocks name xs h all short needed =
      elim (Option-cases (rb.search k.views.rbtree name)) [
        | inl missing ↦
            let new = needed missing in
            let a = blocks.stats.vs in
            let sound =
              ((view_stats_create-Sound rb sizes blocks.stats name).holds (some new.vs)
                  new.created).holds
                new.vs refl in
            let (r, run, placed) =
              view_tree_insert-Managed rb k.views k.memory blocks.view name a new.vs xs h
                new.blocks_new short missing sound in
            let valid : (a == 0) ≡ false = ground (arith, new.blocks_new.vs) in
            (
              (a, r.1, r.2),
              rw
                  (
                    find-none rb k.views k.views name short missing,
                    new.created,
                    new.returned,
                    valid,
                    run,
                  )
                  refl,
              record {
                cell = blocks.view.lru_node;
                p = blocks.view.vtnode;
                rest = xs;
                managed = placed.managed;
                name_same = placed.name_same;
                at = placed.vs;
                bound = omega arith;
                free =
                    subst (λ stats. AllFreeable rb stats) (sym placed.stats)
                      (AllFreeable-stored rb k.memory.stats a new.vs new.free all);
              },
            )
        | inr ((node, p), found) ↦
            let (ys, zs, less, touched) =
              found-Touched rb k.views k.memory xs name node p h found in
            (
              (
                (k.memory.views p).vs,
                record (k.views) { lrulist = touched.lru },
                record (k.memory) { lru_memory = touched.memory },
              ),
              rw (find-some rb k.views k.views name node p short found, touched.run) refl,
              record {
                cell = (k.memory.views p).ptr;
                p = p;
                rest = ys ++ zs;
                managed = touched.managed;
                name_same = (h.covers name node p found).name;
                at = refl;
                bound = omega (arith, less);
                free = all;
              },
            )
      ]

  -- What is left where the memory has been cut down to the limit: the tree finds the view of the line under
  -- its name, it is in front of the list, with statistics that are allocated, and the tree fits into the limit
  -- or has no other view.
  pub record Ready (uplimit : ℕ) (name : Name) (a : Ptr) (t : ViewTree rb) (w : ViewMemory rb)
      : Type 0 where
    pub cell : Ptr
    pub p : Ptr
    pub rest : Cells
    pub managed : Managed rb t w ((cell, p) ∷ rest)
    pub name_same : (w.views p).name ≡ name
    pub found : view_tree_find rb t name ≡ some (some p)
    pub at : (w.views p).vs ≡ a
    pub fits : ((n : ℕ) × (view_tree_get_size rb sizes t w ≡ some n) × (n ≤ uplimit)) ⊎ (rest ≡ [])
    pub free : AllFreeable rb w.stats
    pub vs : View rb
    pub load : load_stats rb w a ≡ some vs

  -- The first view is still there where a first part of the views is left.
  front_kept :
      (k p : Ptr) (xs kept dropped : Cells)
      → (k, p) ∷ xs ≡ kept ++ dropped
      → (kept ≡ [] → (k, p) ∷ xs ≡ [])
      → (rest : Cells) × (kept ≡ (k, p) ∷ rest)
  front_kept k p xs [] dropped split some_left = absurd (cc (some_left refl))
  front_kept k p xs (c ∷ kept) dropped split some_left = (kept, cc)

  short_rest : (c : Ptr × ℕ) (rest : Cells) → length (c ∷ rest) ≤ 1 → rest ≡ []
  short_rest c [] le = refl
  short_rest c (d ∷ rest) le = absurd (omega (arith, le))

  found_here :
      (name : Name) (t : ViewTree rb) (w : ViewMemory rb) (k p : Ptr) (rest : Cells)
      → length name < stats_node_max_size
      → Managed rb t w ((k, p) ∷ rest)
      → (w.views p).name ≡ name
      → view_tree_find rb t name ≡ some (some p)
  found_here name t w k p rest short h e =
      let entry = h.known.0 in
      find-some rb t t name entry.node p short
        (ap (λ j. rb.search t.rbtree j) (sym e) ∙ entry.found)

  pub limit_memory-Ready :
      (uplimit a n : ℕ) (name : Name) (t : ViewTree rb) (w : ViewMemory rb)
      → length name < stats_node_max_size
      → Front name a t w n
      → n < 2 ^ 31
      → (r : ViewTree rb × ViewMemory rb) × (limit_memory rb sizes uplimit t w ≡ some r)
        × Ready uplimit name a r.0 r.1
  unfolding limit_memory
  limit_memory-Ready uplimit a n name t w short f small =
      let xs = (f.cell, f.p) ∷ f.rest in
      let (m, size) = size_known rb sizes uplimit t w xs f.managed in
      elim (Bool-cases (ltb uplimit m)) [
        | inl over ↦
            let (r, run, cut) =
              view_tree_set_memsize-Cut rb sizes uplimit t w xs (omega (arith, f.bound, small))
                f.managed f.free in
            let (rest, kept) =
              front_kept f.cell f.p f.rest cut.kept cut.dropped cut.split cut.some_left in
            let managed = subst (λ us. Managed rb r.0 r.1 us) kept cut.managed in
            let named : ((r.1).views f.p).name ≡ name =
              ap (λ (views : Ptr → ViewTreeNode). (views f.p).name) cut.views_same ∙ f.name_same in
            let alloc = recent-Allocated rb r.0 r.1 f.cell f.p rest managed in
            let place : ((r.1).views f.p).vs ≡ a =
              ap (λ (views : Ptr → ViewTreeNode). (views f.p).vs) cut.views_same ∙ f.at in
            (
              r,
              rw size (rw over run),
              record {
                cell = f.cell;
                p = f.p;
                rest = rest;
                managed = managed;
                name_same = named;
                found = found_here name r.0 r.1 f.cell f.p rest short managed named;
                at = place;
                fits = elim cut.fits [
                  | inl within ↦ inl within
                  | inr few ↦
                      inr (short_rest (f.cell, f.p) rest (subst (λ us. length us ≤ 1) kept few))
                ];
                free = cut.free;
                vs = alloc.vs;
                load =
                    subst (λ q. load_stats rb r.1 q ≡ some alloc.vs) place
                      (load_stats-Allocated rb r.1 f.p alloc);
              },
            )
        | inr within ↦
            let alloc = recent-Allocated rb t w f.cell f.p f.rest f.managed in
            (
              (t, w),
              rw size (rw within refl),
              record {
                cell = f.cell;
                p = f.p;
                rest = f.rest;
                managed = f.managed;
                name_same = f.name_same;
                found = found_here name t w f.cell f.p f.rest short f.managed f.name_same;
                at = f.at;
                fits = inl (m, size, ground (arith, within));
                free = f.free;
                vs = alloc.vs;
                load =
                    subst (λ q. load_stats rb w q ≡ some alloc.vs) f.at
                      (load_stats-Allocated rb w f.p alloc);
              },
            )
      ]

  loaded_somewhere :
      (w : ViewMemory rb) (a : Ptr) (vs : View rb) → load_stats rb w a ≡ some vs → (a == 0) ≡ false
  unfolding load_stats
  loaded_somewhere w a vs e = elim (Bool-cases (a == 0)) [
    | inl null ↦ absurd (ground (arith, e, null))
    | inr valid ↦ valid
  ]

  -- What log_handle comes to before it counts.
  pub record Counts (k : HouseKeeper rb sizes) (blocks : LogBlocks) (s : Sighting) : Type 0 where
    pub at : Ptr
    pub tree : ViewTree rb
    pub memory : ViewMemory rb
    pub ready : Ready k.mem_uplimit s.view at tree memory
    pub run : log_handle rb sizes k blocks s ≡ (do
      vs ← count_in rb sizes blocks s ready.vs
      some (record k {
        views = tree;
        memory = record memory { stats = update memory.stats at (some vs) };
      }))

  -- Where list, tree, count and statistics of fewer than 2^31 - 1 views agree and the chunks of their pools
  -- are linked, for a view whose name has fewer than 128 bytes and finds memory if it is new, log_handle finds
  -- or makes the view of the line, in front of the list, and cuts the memory down: before it counts, the tree
  -- finds that view under its name, fits into the limit or has no other view, and list, tree, count and
  -- statistics agree. It counts in the statistics of that view, which are allocated, stores them back, and
  -- nothing but the count can stop it.
  pub log_handle-Counts :
      (k : HouseKeeper rb sizes) (blocks : LogBlocks) (s : Sighting) (xs : Cells)
      → Managed rb k.views k.memory xs
      → AllFreeable rb k.memory.stats
      → length xs + 1 < 2 ^ 31
      → length s.view < stats_node_max_size
      → (rb.search k.views.rbtree s.view ≡ none → NewView k blocks s.view)
      → Counts k blocks s
  unfolding log_handle
  log_handle-Counts k blocks s xs h all small short new =
      let ((a, t, w), found, front) = view_for-Front k blocks s.view xs h all short new in
      let (r, cut, ready) =
        limit_memory-Ready k.mem_uplimit a (length xs + 1) s.view t w short front small in
      let valid = loaded_somewhere r.1 a ready.vs ready.load in
      record {
        at = a;
        tree = r.0;
        memory = r.1;
        ready = ready;
        run = rw (found, valid, cut, ready.load) refl;
      }
