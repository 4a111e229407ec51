-- ===== src/Lru/Delete.antt =====
-- lru_list_delete and lru_list_remove_tail.
use logstats.Base.{
  ℕ, ◌-◌, ◌≡◌, ◌≢◌, subst, sym, ◌∙◌, false, none, some, [], ◌∷◌, ◌++◌, arith, ◌==◌, length,
  length-append,
}
use logstats.Lru.{
  node, Memory, LruList, load, set_prev, set_next, free, write, lru_list_delete,
  lru_list_remove_tail,
}
use logstats.Lru.Seg.{
  Cells, ◌∉◌, first, last, Seg, Distinct, SameOutside, IsList, listing, last-ne_null, Seg-append,
  Seg-split, last-append, Distinct-remove, not_mem_tail, not_mem-append,
}
use logstats.Lru.Write.{load_lem, free_lem, frame-write, ne_last, ne_first, write_other}
use logstats.Lru.Unlink.{Unlinked, unlink-tail, unlink-inside}

-- The node `p` is taken out and freed, and the others keep their order.
pub record Taken (m : Memory) (ys zs : Cells) (p d : ℕ) (r : LruList × Memory) : Type 0 where
  pub list : IsList r.1 r.0 (ys ++ zs)
  pub freed : r.1 p ≡ none
  pub same : SameOutside ((p, d) ∷ (ys ++ zs)) m r.1

-- Freeing a node that is out of its neighbours' links.
free-Unlinked :
    (m m2 : Memory) (q e : ℕ) (ys : Cells) (p d : ℕ) (zs : Cells)
    → Unlinked m ((q, e) ∷ ys) zs p d m2
    → p ≢ 0
    → p ∉ (((q, e) ∷ ys) ++ zs)
    → let m3 = write m2 p none in
      (free m2 p ≡ some m3)
      × Seg m3 0 (((q, e) ∷ ys) ++ zs) 0
      × SameOutside ((p, d) ∷ ((q, e) ∷ ys) ++ zs) m m3
free-Unlinked m m2 q e ys p d zs u ne out =
    let fs = (q, e) ∷ ys in
    let (outf, outz) = not_mem-append p fs zs out in
    (
      free_lem m2 p (node (last q ys) (first zs 0) d) ne u.own,
      Seg-append (write m2 p none) 0 fs zs 0 (frame-write m2 (first zs 0) fs 0 p none outf u.front)
          (frame-write m2 0 zs (last q ys) p none outz u.back),
      λ k h.
          write_other m2 k p none (ne_first k p d (fs ++ zs) h)
          ∙ u.same k (not_mem_tail k p d (fs ++ zs) h),
    )

-- The runs, from what each access does.
module _ (m m1 m3 : Memory) (p q b z d t c : ℕ) (ne : p ≢ 0) (apart : (p == q) ≡ false)
    (here : load m p ≡ some (node b z d)) where
  delete_tail-run :
      set_next m b 0 ≡ some m1
      → free m1 p ≡ some m3
      → lru_list_delete (record { header = q; tail = p; count = c }) p m
        ≡ some (record { header = q; tail = b; count = c - 1 }, m3)
  unfolding lru_list_delete
  delete_tail-run run1 run3 = ground arith

  delete_inside-run :
      (m2 : Memory)
      → (p == t) ≡ false
      → set_next m b z ≡ some m1
      → load m1 p ≡ some (node b z d)
      → set_prev m1 z b ≡ some m2
      → free m2 p ≡ some m3
      → lru_list_delete (record { header = q; tail = t; count = c }) p m
        ≡ some (record { header = q; tail = t; count = c - 1 }, m3)
  unfolding lru_list_delete
  delete_inside-run m2 off run1 again run2 run3 = ground arith

  remove_tail-run :
      b ≢ 0
      → set_next m b 0 ≡ some m1
      → free m1 p ≡ some m3
      → lru_list_remove_tail (record { header = q; tail = p; count = c }) m
        ≡ some (d, record { header = q; tail = b; count = c - 1 }, m3)
  unfolding lru_list_remove_tail
  remove_tail-run nz run1 run3 = ground arith

-- The header after the node `p` is taken out of a list.
listing-taken :
    (q e : ℕ) (ys : Cells) (p d : ℕ) (zs : Cells)
    → record {
      header = q;
      tail = last (last q ys) zs;
      count = length (((q, e) ∷ ys) ++ (p, d) ∷ zs) - 1;
    }
      ≡ listing (((q, e) ∷ ys) ++ zs)
listing-taken q e ys p d zs =
    ground (arith, last-append ys zs q, length-append {0} ys ((p, d) ∷ zs), length-append {0} ys zs)

module _ (m : Memory) (q e : ℕ) (ys : Cells) (p d : ℕ)
    (s : Seg m 0 (((q, e) ∷ ys) ++ (p, d) ∷ []) 0)
    (distinct : Distinct (((q, e) ∷ ys) ++ (p, d) ∷ [])) where
  -- At the tail of a longer list both functions leave the same list.
  pub take_tail :
      (r : LruList × Memory) × (lru_list_delete (listing (((q, e) ∷ ys) ++ (p, d) ∷ [])) p m
        ≡ some r)
      × (lru_list_remove_tail (listing (((q, e) ∷ ys) ++ (p, d) ∷ [])) m ≡ some (d, r.0, r.1))
      × Taken m ((q, e) ∷ ys) [] p d r
  take_tail =
      let fs = (q, e) ∷ ys in
      let b = last q ys in
      let n = length (fs ++ (p, d) ∷ []) in
      let (s1, s2) = Seg-split m 0 fs ((p, d) ∷ []) 0 s in
      let (others, out) = Distinct-remove fs [] p d distinct in
      let (m1, run1, u) = unlink-tail m q e ys p d s distinct in
      let (run3, linked, same) = free-Unlinked m m1 q e ys p d [] u s2.0 out in
      let here = load_lem m p (node b 0 d) s2.0 s2.1 in
      let apart = ne_first p q e ys (not_mem-append p fs [] out).0 in
      let end = sym (last-append ys ((p, d) ∷ []) q) in
      let l : LruList = record { header = q; tail = b; count = n - 1 } in
      let m3 = write m1 p none in
      (
        (l, m3),
        subst (λ t. lru_list_delete (record { header = q; tail = t; count = n }) p m ≡ some (l, m3))
            end (delete_tail-run m m1 m3 p q b 0 d 0 n s2.0 apart here run1 run3),
        subst
            (λ t.
              lru_list_remove_tail (record { header = q; tail = t; count = n }) m ≡ some (d, l, m3))
            end
            (remove_tail-run m m1 m3 p q b 0 d 0 n s2.0 apart here (last-ne_null m p q e ys 0 s1)
              run1 run3),
        record {
          list = record { linked = linked; distinct = others; shape = listing-taken q e ys p d [] };
          freed = ground arith;
          same = same;
        },
      )

pub delete-inside :
    (m : Memory) (q e : ℕ) (ys : Cells) (p d c f : ℕ) (zs : Cells)
    → Seg m 0 (((q, e) ∷ ys) ++ (p, d) ∷ (c, f) ∷ zs) 0
    → Distinct (((q, e) ∷ ys) ++ (p, d) ∷ (c, f) ∷ zs)
    → (r : LruList × Memory) × (lru_list_delete
          (listing (((q, e) ∷ ys) ++ (p, d) ∷ (c, f) ∷ zs))
          p
          m
        ≡ some r)
      × Taken m ((q, e) ∷ ys) ((c, f) ∷ zs) p d r
delete-inside m q e ys p d c f zs s distinct =
    let fs = (q, e) ∷ ys in
    let back = (c, f) ∷ zs in
    let b = last q ys in
    let n = length (fs ++ (p, d) ∷ back) in
    let (s1, s2) = Seg-split m 0 fs ((p, d) ∷ back) 0 s in
    let (others, out) = Distinct-remove fs back p d distinct in
    let (m1, m2, run1, own1, run2, u) = unlink-inside m q e ys p d c f zs s distinct in
    let (run3, linked, same) = free-Unlinked m m2 q e ys p d back u s2.0 out in
    let (outf, outb) = not_mem-append p fs back out in
    let l : LruList = record { header = q; tail = last c zs; count = n - 1 } in
    let m3 = write m2 p none in
    (
      (l, m3),
      subst (λ t. lru_list_delete (record { header = q; tail = t; count = n }) p m ≡ some (l, m3))
          (sym (last-append ys ((p, d) ∷ back) q))
          (delete_inside-run m m1 m3 p q b c d (last c zs) n s2.0 (ne_first p q e ys outf)
            (load_lem m p (node b c d) s2.0 s2.1) m2 (ne_last p c f zs outb) run1
            (load_lem m1 p (node b c d) s2.0 own1) run2 run3),
      record {
        list = record { linked = linked; distinct = others; shape = listing-taken q e ys p d back };
        freed = ground arith;
        same = same;
      },
    )
