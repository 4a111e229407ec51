-- ===== src/ViewStats/Memory/Evict/Loop.antt =====
-- The loops of view_stats_set_memsize: each ends, and drops the names that were used longest ago, no more
-- than needed.
use logstats.Base.{
  append-nil, append_assoc, ℕ, zero, suc, ◌≤◌, ◌<◌, ◌≡◌, ◌≢◌, ◌⊎◌, refl, sym, subst, ap, ◌∙◌, true,
  false, Bool-cases, inl, inr, none, some, ℤ, [], ◌∷◌, ◌++◌, length, length-append, ltb, ◌==◌,
  arith,
}
use logstats.Lru
use logstats.Lru.{LruList}
use logstats.Lru.Seg.{Cells, IsList}
use logstats.Lru.Take.{lru_list_remove_tail-nil}
use logstats.MemPool.{Ptr}
use logstats.NameTree.{World, NameTree, name_tree_delete}
use logstats.NameTree.Tree.{SearchTree}
use logstats.ViewStats.Memory.{evict_loop}
use logstats.ViewStats.Memory.Evict.{Holds, last_cases, drop_last}

module _ (rb : SearchTree) where
  -- The state in front of the last drop: it holds one name more, is above the limit, and `r` is what
  -- unlinking its last name and name_tree_delete of it leave.
  pub record Needed (expect_size : ℕ) (size : NameTree rb → ℕ) (kept dropped : Cells)
      (r : NameTree rb × World) : Type 0 where
    pub tree : NameTree rb
    pub world : World
    pub cell : Ptr × ℕ
    pub more : Cells
    pub next : dropped ≡ cell ∷ more
    pub holds : Holds rb tree world (kept ++ cell ∷ [])
    pub above : expect_size < size tree
    pub lru : LruList
    pub memory : Lru.Memory
    pub code : ℤ
    pub unlinked : Lru.lru_list_remove_tail tree.lru world.lru_memory ≡ some (cell.1, lru, memory)
    pub deleted :
        name_tree_delete rb
          (record tree { lru = lru })
          (record world { lru_memory = memory })
          (some (world.nodes cell.1).fqdn)
          none
        ≡ some (code, r.0, r.1)

  -- No more is dropped than the limit asks for: from the state `s`, nothing has changed, or the last drop
  -- was made above the limit.
  abbrev pub Least :
      ℕ
      → (NameTree rb → ℕ)
      → NameTree rb × World
      → (kept dropped : Cells) → NameTree rb × World
      → Type 0
  Least expect_size size s kept dropped r =
      ((dropped ≡ []) × (r ≡ s)) ⊎ Needed expect_size size kept dropped r

  -- Of the names `xs`, the first part is kept and the rest, used longest ago, is dropped, and no more than
  -- needed: either the size is within the limit, or nothing is left.
  pub record Evicted (expect_size : ℕ) (size : NameTree rb → ℕ) (s : NameTree rb × World)
      (xs : Cells) (r : NameTree rb × World) : Type 0 where
    pub kept : Cells
    pub dropped : Cells
    pub split : xs ≡ kept ++ dropped
    pub holds : Holds rb r.0 r.1 kept
    pub fits : (size r.0 ≤ expect_size) ⊎ (kept ≡ [])
    pub least : Least expect_size size s kept dropped r

  module _ (expect_size : ℕ) (size : NameTree rb → ℕ) (t : NameTree rb) (w : World) where
    -- One round, from what its calls do.
    evict_round :
        (fuel p : ℕ) (lru : LruList) (memory : Lru.Memory) (r : ℤ × NameTree rb × World)
        → ltb expect_size (size t) ≡ true
        → Lru.lru_list_remove_tail t.lru w.lru_memory ≡ some (p, lru, memory)
        → p ≢ 0
        → name_tree_delete rb
            (record t { lru = lru })
            (record w { lru_memory = memory })
            (some (w.nodes p).fqdn)
            none
          ≡ some r
        → evict_loop rb (suc fuel) expect_size size t w
          ≡ evict_loop rb fuel expect_size size r.1 r.2
    unfolding evict_loop
    evict_round fuel p lru memory r over run np gone =
        let p_some : (p == 0) ≡ false = ground arith in rw (over, run) (rw (p_some, gone) refl)

    evict_empty :
        (fuel : ℕ)
        → ltb expect_size (size t) ≡ true
        → IsList w.lru_memory t.lru []
        → evict_loop rb (suc fuel) expect_size size t w ≡ some (t, w)
    unfolding evict_loop
    evict_empty fuel over v = rw (over, lru_list_remove_tail-nil w.lru_memory t.lru v) refl

    pub evict_within :
        (fuel : ℕ)
        → size t ≤ expect_size
        → evict_loop rb (suc fuel) expect_size size t w ≡ some (t, w)
    unfolding evict_loop
    evict_within fuel le =
        let fits : ltb expect_size (size t) ≡ false = ground arith in rw fits refl

  -- The round after which no other follows.
  first_drop :
      (expect_size : ℕ) (size : NameTree rb → ℕ) (t : NameTree rb) (w : World) (k p : Ptr)
      (ys kept dropped : Cells) (lru : LruList) (memory : Lru.Memory) (r : ℤ × NameTree rb × World)
      (last : NameTree rb × World)
      → dropped ≡ []
      → last ≡ (r.1, r.2)
      → ys ≡ kept ++ dropped
      → Holds rb t w (ys ++ (k, p) ∷ [])
      → ltb expect_size (size t) ≡ true
      → Lru.lru_list_remove_tail t.lru w.lru_memory ≡ some (p, lru, memory)
      → name_tree_delete rb
          (record t { lru = lru })
          (record w { lru_memory = memory })
          (some (w.nodes p).fqdn)
          none
        ≡ some r
      → Needed expect_size size kept (dropped ++ (k, p) ∷ []) last
  first_drop expect_size size t w k p ys kept dropped lru memory r last none_more same split h over
        run gone =
      let whole : ys ≡ kept = split ∙ (ap (λ us. kept ++ us) none_more ∙ append-nil kept) in
      record {
        tree = t;
        world = w;
        cell = (k, p);
        more = [];
        next = ap (λ us. us ++ (k, p) ∷ []) none_more;
        holds = subst (λ us. Holds rb t w (us ++ (k, p) ∷ [])) whole h;
        above = ground (arith, over);
        lru = lru;
        memory = memory;
        code = r.0;
        unlinked = run;
        deleted = gone ∙ ap (λ (v : NameTree rb × World). some (r.0, v.0, v.1)) (sym same);
      }

  -- The loop ends within one round more than the list has nodes: it drops names from the end of the
  -- list only, those used longest ago, stops when the size is within the limit or no name is
  -- left, and drops none within the limit. The list, the tree and the count agree before and after.
  pub evict_loop-Evicted :
      (fuel expect_size : ℕ) (size : NameTree rb → ℕ) (t : NameTree rb) (w : World) (xs : Cells)
      → length xs < fuel
      → Holds rb t w xs
      → (r : NameTree rb × World) × (evict_loop rb fuel expect_size size t w ≡ some r)
        × Evicted expect_size size (t, w) xs r
  unfolding evict_loop
  evict_loop-Evicted zero expect_size size t w xs f h = elim f [ ]
  evict_loop-Evicted (suc fuel) expect_size size t w xs f h =
      elim (Bool-cases (ltb expect_size (size t))) [
        | inr within ↦ (
          (t, w),
          rw within refl,
          record {
            kept = xs;
            dropped = [];
            split = sym (append-nil xs);
            holds = h;
            fits = inl (ground arith);
            least = inl (refl, refl);
          },
        )
        | inl over ↦ elim (last_cases xs) [
          | inl e ↦ (
            (t, w),
            evict_empty expect_size size t w fuel over
                (subst (λ xs. IsList w.lru_memory t.lru xs) e h.list),
            record {
              kept = xs;
              dropped = [];
              split = sym (append-nil xs);
              holds = h;
              fits = inr e;
              least = inl (refl, refl);
            },
          )
          | inr (ys, (k, p), e) ↦
              let (lru, memory, r, run, np, gone, rest) =
                drop_last rb t w k p ys (subst (λ xs. Holds rb t w xs) e h) in
              let (last, ends, v) =
                evict_loop-Evicted fuel expect_size size r.1 r.2 ys
                  (omega (arith, ap length e, length-append ys ((k, p) ∷ []))) rest in
              (
                last,
                evict_round expect_size size t w fuel p lru memory r over run np gone ∙ ends,
                record {
                  kept = v.kept;
                  dropped = v.dropped ++ (k, p) ∷ [];
                  split =
                      e
                      ∙ ap (λ us. us ++ (k, p) ∷ []) v.split
                      ∙ append_assoc v.kept v.dropped ((k, p) ∷ []);
                  holds = v.holds;
                  fits = v.fits;
                  least = inr (elim v.least [
                    | inl (none_more, same) ↦
                        first_drop expect_size size t w k p ys v.kept v.dropped lru memory r last
                          none_more same v.split (subst (λ xs. Holds rb t w xs) e h) over run gone
                    | inr n ↦ record {
                      tree = n.tree;
                      world = n.world;
                      cell = n.cell;
                      more = n.more ++ (k, p) ∷ [];
                      next = ap (λ us. us ++ (k, p) ∷ []) n.next;
                      holds = n.holds;
                      above = n.above;
                      lru = n.lru;
                      memory = n.memory;
                      code = n.code;
                      unlinked = n.unlinked;
                      deleted = n.deleted;
                    }
                  ]);
                },
              )
        ]
      ]
