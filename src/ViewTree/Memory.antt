-- ===== src/ViewTree/Memory.antt =====
-- view_tree_set_memsize of src/log_view_tree.c as a whole, and the view that was used last.
use logstats.Base.{
  ℕ, ◌+◌, ◌^◌, ◌≤◌, ◌<◌, ◌≡◌, ◌≢◌, ◌⊎◌, refl, sym, subst, ap, ◌∙◌, true, false, Bool-cases, inl,
  inr, some, List, [], ◌∷◌, ◌++◌, length, length-append, ◌==◌, ==_iff, update, arith,
}
use logstats.Lru.{LruList}
use logstats.Lru.Seg.{Cells}
use logstats.MemPool.{Ptr}
use logstats.NameTree.Create.{Sizes}
use logstats.NameTree.Tree.{SearchTree, Name, TreeNode}
use logstats.ViewStats.Memory.Shrink.{view_stats_set_memsize-Shrunk}
use logstats.ViewStats.View.{View}
use logstats.ViewTree.{
  ViewTree, ViewTreeNode, ViewMemory, load_stats, last_entry, view_tree_get_size,
  view_tree_the_only_one, shrink_last, view_tree_set_memsize,
}
use logstats.ViewStats.Memory.{view_stats_set_memsize}
use logstats.ViewStats.Memory.Freeable.{view_stats_set_memsize-Freeable}
use logstats.ViewTree.Freeable.{AllFreeable, AllFreeable-stored}
use logstats.ViewTree.Live.{Allocated, Live, Live-at, Live-store, load_stats-Allocated}
use logstats.ViewTree.Shrink.{Managed}
use logstats.ViewTree.Shrink.Loop.{Kept, Least, shrink_loop-Kept}

module _ (rb : SearchTree) where
  -- The statistics of the view that was used last are allocated.
  pub recent-Allocated :
      (t : ViewTree rb) (w : ViewMemory rb) (k p : Ptr) (xs : Cells)
      → Managed rb t w ((k, p) ∷ xs)
      → Allocated rb w.views w.stats p
  recent-Allocated t w k p xs h =
      let e = h.known.0 in
      let (front, back, whole) = rb.in_order-search t.rbtree (w.views p).name (e.node, p) e.found in
      Live-at rb w.views w.stats (w.views p).name e.node p front back
        (subst (λ es. Live rb w.views w.stats es) whole h.live)

  -- The same where a first part of the views is left.
  pub recent_kept :
      (t : ViewTree rb) (w : ViewMemory rb) (k p : Ptr) (xs kept dropped : Cells)
      → (k, p) ∷ xs ≡ kept ++ dropped
      → (kept ≡ [] → (k, p) ∷ xs ≡ [])
      → Managed rb t w kept
      → Allocated rb w.views w.stats p
  recent_kept t w k p xs [] dropped split some_left h = absurd (cc (some_left refl))
  recent_kept t w k p xs ((l, q) ∷ kept) dropped split some_left h =
      subst (λ a. Allocated rb w.views w.stats a) (cc) (recent-Allocated t w l q kept h)

  module _ (sizes : Sizes) (expect_size : ℕ) where
    -- The view that view_tree_the_only_one gives, where the count is 1, has its statistics cut down by
    -- view_stats_set_memsize.
    pub record LastShrunk (s r : ViewTree rb × ViewMemory rb) : Type 0 where
      pub alone : (s.0).count ≡ 1
      pub vs : View rb
      pub shrunk : View rb
      pub loaded :
          load_stats rb s.1 ((s.1).views (view_tree_the_only_one rb sizes s.0)).vs ≡ some vs
      pub shrinks : view_stats_set_memsize rb sizes vs expect_size ≡ some shrunk
      pub stored : r ≡ (
        s.0,
        record (s.1) {
          stats =
              update
                (s.1).stats
                ((s.1).views (view_tree_the_only_one rb sizes s.0)).vs
                (some shrunk);
        },
      )

    -- The last part of the function, from the state `s`: without such a view nothing changes.
    abbrev pub LastPart : ViewTree rb × ViewMemory rb → ViewTree rb × ViewMemory rb → Type 0
    LastPart s r =
        ((((s.0).count ≢ 1) ⊎ (view_tree_the_only_one rb sizes s.0 ≡ 0)) × (r ≡ s)) ⊎ LastShrunk s r

    -- Of the views `xs`, the first part is kept and the rest, used longest ago, is dropped, and no more
    -- than needed: one is left if there was any, and the size is within the limit or no second view is
    -- left. `middle` is the state in front of the last part.
    pub record Cut (s : ViewTree rb × ViewMemory rb) (views : Ptr → ViewTreeNode) (xs : Cells)
        (r : ViewTree rb × ViewMemory rb) : Type 0 where
      pub kept : Cells
      pub dropped : Cells
      pub split : xs ≡ kept ++ dropped
      pub some_left : kept ≡ [] → xs ≡ []
      pub views_same : (r.1).views ≡ views
      pub managed : Managed rb r.0 r.1 kept
      pub fits :
          ((n : ℕ) × (view_tree_get_size rb sizes r.0 r.1 ≡ some n) × (n ≤ expect_size))
          ⊎ (length kept ≤ 1)
      pub middle : ViewTree rb × ViewMemory rb
      pub least : Least rb sizes expect_size s kept dropped middle
      pub last : LastPart middle r
      pub free : AllFreeable rb (r.1).stats

    last_entry-Allocated :
        (w : ViewMemory rb) (acc : Ptr) (es : List (Name × TreeNode))
        → Live rb w.views w.stats es
        → (last_entry rb sizes acc es ≡ acc)
          ⊎ Allocated rb w.views w.stats (last_entry rb sizes acc es)
    unfolding last_entry
    last_entry-Allocated w acc [] h = inl refl
    last_entry-Allocated w acc ((k, (node, p)) ∷ es) h = elim (last_entry-Allocated w p es h.2) [
      | inl e ↦ inr (subst (λ q. Allocated rb w.views w.stats q) (sym e) h.0)
      | inr a ↦ inr a
    ]

    -- The statistics of one view are cut down where they stand.
    cut_run :
        (t : ViewTree rb) (w : ViewMemory rb) (xs : Cells)
        → (t.count == 1) ≡ true
        → (view_tree_the_only_one rb sizes t == 0) ≡ false
        → Allocated rb w.views w.stats (view_tree_the_only_one rb sizes t)
        → Managed rb t w xs
        → AllFreeable rb w.stats
        → (v : ViewMemory rb) × (shrink_last rb sizes expect_size t w ≡ some (t, v))
          × (v.views ≡ w.views)
          × Managed rb t v xs
          × LastShrunk (t, w) (t, v)
          × AllFreeable rb v.stats
    unfolding shrink_last
    cut_run t w xs one valid alloc h all =
        let q = (w.views (view_tree_the_only_one rb sizes t)).vs in
        let s = alloc.sound in
        let (vs, run, shrunk) =
          view_stats_set_memsize-Shrunk rb sizes alloc.vs expect_size s.names s.ips s.holds_names
            s.holds_ips in
        (
          record w { stats = update w.stats q (some vs) },
          rw (one, valid, load_stats-Allocated rb w (view_tree_the_only_one rb sizes t) alloc)
              (rw run refl),
          refl,
          record {
            list = h.list;
            known = h.known;
            covers = h.covers;
            count = h.count;
            live =
                Live-store rb w.views w.stats q vs (rb.in_order t.rbtree)
                  (record {
                    names = shrunk.names;
                    holds_names = shrunk.holds_names;
                    ips = shrunk.ips;
                    holds_ips = shrunk.holds_ips;
                  })
                  h.live;
          },
          record {
            alone = (==_iff t.count 1).0 one;
            vs = alloc.vs;
            shrunk = vs;
            loaded = load_stats-Allocated rb w (view_tree_the_only_one rb sizes t) alloc;
            shrinks = run;
            stored = refl;
          },
          AllFreeable-stored rb w.stats q vs
              ((view_stats_set_memsize-Freeable rb sizes alloc.vs expect_size
                  (all q alloc.vs alloc.there)).holds
                vs run)
              all,
        )

    rest_run :
        (t : ViewTree rb) (w : ViewMemory rb)
        → ((t.count == 1) ≡ false) ⊎ ((view_tree_the_only_one rb sizes t == 0) ≡ true)
        → shrink_last rb sizes expect_size t w ≡ some (t, w)
    unfolding shrink_last
    rest_run t w (inl many) = rw many refl
    rest_run t w (inr nothing) = elim (Bool-cases (t.count == 1)) [
      | inl one ↦ rw (one, nothing) refl
      | inr many ↦ rw many refl
    ]

    view_tree_the_only_one-Allocated :
        (t : ViewTree rb) (w : ViewMemory rb) (xs : Cells)
        → Managed rb t w xs
        → (view_tree_the_only_one rb sizes t ≡ 0)
          ⊎ Allocated rb w.views w.stats (view_tree_the_only_one rb sizes t)
    unfolding view_tree_the_only_one
    view_tree_the_only_one-Allocated t w xs h =
        last_entry-Allocated w 0 (rb.in_order t.rbtree) h.live

    unchanged : (count p : ℕ) → ((count == 1) ≡ false) ⊎ ((p == 0) ≡ true) → (count ≢ 1) ⊎ (p ≡ 0)
    unchanged count p (inl many) = inl (ground (arith, many))
    unchanged count p (inr nothing) = inr (ground (arith, nothing))

    shrink_last-Cut :
        (s : ViewTree rb × ViewMemory rb) (t : ViewTree rb) (w : ViewMemory rb)
        (views : Ptr → ViewTreeNode) (xs : Cells)
        → length xs < 2 ^ 31
        → Kept rb sizes expect_size s views xs (t, w)
        → (r : ViewTree rb × ViewMemory rb) × (shrink_last rb sizes expect_size t w ≡ some r)
          × Cut s views xs r
    shrink_last-Cut s t w views xs small v =
        let p = view_tree_the_only_one rb sizes t in
        let same : ((t.count == 1) ≡ false) ⊎ ((p == 0) ≡ true)
            → (r : ViewTree rb × ViewMemory rb) × (shrink_last rb sizes expect_size t w ≡ some r)
              × Cut s views xs r =
          λ why. (
            (t, w),
            rest_run t w why,
            record {
              kept = v.kept;
              dropped = v.dropped;
              split = v.split;
              some_left = v.some_left;
              views_same = v.views_same;
              managed = v.managed;
              fits = v.fits;
              middle = (t, w);
              least = v.least;
              last = inl (unchanged t.count p why, refl);
              free = v.free;
            },
          ) in
        elim (Bool-cases (t.count == 1)) [
          | inr many ↦ same (inl many)
          | inl one ↦ elim (Bool-cases (p == 0)) [
            | inl nothing ↦ same (inr nothing)
            | inr valid ↦ elim (view_tree_the_only_one-Allocated t w v.kept v.managed) [
              | inl zero_p ↦ absurd (ground arith)
              | inr alloc ↦
                  let (u, run, still, managed, shrunk, free) =
                    cut_run t w v.kept one valid alloc v.managed v.free in
                  (
                    (t, u),
                    run,
                    record {
                      kept = v.kept;
                      dropped = v.dropped;
                      split = v.split;
                      some_left = v.some_left;
                      views_same = still ∙ v.views_same;
                      managed = managed;
                      fits = inr (
                          omega (
                            arith,
                            (==_iff t.count 1).0 one,
                            v.managed.count,
                            ap length v.split,
                            length-append v.kept v.dropped,
                          ));
                      middle = (t, w);
                      least = v.least;
                      last = inr shrunk;
                      free = free;
                    },
                  )
            ]
          ]
        ]

    pub view_tree_set_memsize-Cut :
        (t : ViewTree rb) (w : ViewMemory rb) (xs : Cells)
        → length xs < 2 ^ 31
        → Managed rb t w xs
        → AllFreeable rb w.stats
        → (r : ViewTree rb × ViewMemory rb) × (view_tree_set_memsize rb sizes t w expect_size
            ≡ some r)
          × Cut (t, w) w.views xs r
    unfolding view_tree_set_memsize
    view_tree_set_memsize-Cut t w xs small h all =
        let (mid, loop, kept) =
          shrink_loop-Kept rb sizes expect_size (t.lrulist.count + 1) t w xs
            (omega (arith, ap (λ (l : LruList). l.count) h.list.shape)) small h all in
        let (r, last, cut) = shrink_last-Cut (t, w) mid.0 mid.1 w.views xs small kept in
        (r, rw loop last, cut)
