-- ===== src/Lru/Move.antt =====
-- lru_list_move_to_first.
use logstats.Base.{
  ℕ, ◌≡◌, ◌≢◌, refl, subst, sym, ◌∙◌, false, some, [], ◌∷◌, ◌++◌, arith, ◌==◌, length,
  length-append,
}
use logstats.Lru.{node, Memory, LruList, load, set_prev, set_next, write, lru_list_move_to_first}
use logstats.Lru.Seg.{
  Cells, ◌∉◌, first, last, Seg, Distinct, SameOutside, IsList, listing, Seg-append, Seg-split,
  last-append, Distinct-remove, Distinct-split, Distinct_apart, not_mem_tail, not_mem-append,
}
use logstats.Lru.Write.{
  load_lem, set_prev_lem, set_next_lem, frame-write, set_prev-first, ne_last, ne_first, write_other,
}
use logstats.Lru.Unlink.{Unlinked, unlink-tail, unlink-inside}

module _ (m m2 : Memory) (q e : ℕ) (ys : Cells) (p d : ℕ) (zs : Cells)
    (u : Unlinked m ((q, e) ∷ ys) zs p d m2) (ne : p ≢ 0) (nz : d ≢ 0)
    (others : Distinct (((q, e) ∷ ys) ++ zs)) (out : p ∉ (((q, e) ∷ ys) ++ zs)) where
  -- The three writes that put the node `p`, out of its neighbours' links, in front.
  pub relink :
      (m3 m4 m5 : Memory) × (set_prev m2 p 0 ≡ some m3)
      × (set_next m3 p q ≡ some m4)
      × (set_prev m4 q p ≡ some m5)
      × Seg m5 0 ((p, d) ∷ ((q, e) ∷ ys) ++ zs) 0
      × SameOutside ((p, d) ∷ ((q, e) ∷ ys) ++ zs) m m5
  relink =
      let fs = (q, e) ∷ ys in
      let z = first zs 0 in
      let m3 = write m2 p (some (node 0 z d)) in
      let m4 = write m3 p (some (node 0 q d)) in
      let m5 = write m4 q (some (node p (first ys z) e)) in
      let (outf, outz) = not_mem-append p fs zs out in
      let (df, dz) = Distinct-split fs zs others in
      let front4 =
        frame-write m3 z fs 0 p (some (node 0 q d)) outf
          (frame-write m2 z fs 0 p (some (node 0 z d)) outf u.front) in
      let back4 =
        frame-write m3 0 zs (last q ys) p (some (node 0 q d)) outz
          (frame-write m2 0 zs (last q ys) p (some (node 0 z d)) outz u.back) in
      let (run, front5) = set_prev-first m4 z q e ys 0 p df.0 front4 in
      let qz = Distinct_apart fs zs q others (ground arith) in
      let back5 = frame-write m4 0 zs (last q ys) q (some (node p (first ys z) e)) qz back4 in
      (
        m3,
        m4,
        m5,
        set_prev_lem m2 p (node (last q ys) z d) ne u.own 0,
        set_next_lem m3 p (node 0 z d) ne (ground arith) q,
        run,
        (
          ne,
          write_other m4 p q _ (ne_first p q e ys outf) ∙ ground arith,
          nz,
          Seg-append m5 0 fs zs p front5 back5,
        ),
        λ k h.
            let kp = ne_first k p d (fs ++ zs) h in
            let rest = not_mem_tail k p d (fs ++ zs) h in
            let kq = ne_first k q e ys (not_mem-append k fs zs rest).0 in
            write_other m4 k q _ kq
            ∙ write_other m3 k p _ kp
            ∙ write_other m2 k p _ kp
            ∙ u.same k rest,
      )

-- The node `p` of a list stands in front afterwards, and the others keep their order.
pub record Moved (m : Memory) (ys zs : Cells) (p d : ℕ) (r : LruList × Memory) : Type 0 where
  pub list : IsList r.1 r.0 ((p, d) ∷ (ys ++ zs))
  pub same : SameOutside ((p, d) ∷ (ys ++ zs)) m r.1

listing-moved :
    (q e : ℕ) (ys : Cells) (p d : ℕ) (zs : Cells)
    → let whole = ((q, e) ∷ ys) ++ (p, d) ∷ zs in
      record { header = p; tail = last (last q ys) zs; count = length whole }
      ≡ listing ((p, d) ∷ ((q, e) ∷ ys) ++ zs)
listing-moved q e ys p d zs =
    ground (arith, last-append ys zs q, length-append {0} ys ((p, d) ∷ zs), length-append {0} ys zs)

-- The run, from what each access does: where `p` is the tail, and where it is inside.
module _ (m m1 m3 m4 m5 : Memory) (p q b z d t c : ℕ) (ne : p ≢ 0) (apart : (p == q) ≡ false)
    (here : load m p ≡ some (node b z d)) (run1 : set_next m b z ≡ some m1)
    (again : load m1 p ≡ some (node b z d)) where
  tail-run :
      set_prev m1 p 0 ≡ some m3
      → set_next m3 p q ≡ some m4
      → set_prev m4 q p ≡ some m5
      → lru_list_move_to_first (record { header = q; tail = p; count = c }) p m
        ≡ some (record { header = p; tail = b; count = c }, m5)
  unfolding lru_list_move_to_first
  tail-run run3 run4 run5 = ground arith

  inside-run :
      (m2 : Memory)
      → (p == t) ≡ false
      → set_prev m1 z b ≡ some m2
      → set_prev m2 p 0 ≡ some m3
      → set_next m3 p q ≡ some m4
      → set_prev m4 q p ≡ some m5
      → lru_list_move_to_first (record { header = q; tail = t; count = c }) p m
        ≡ some (record { header = p; tail = t; count = c }, m5)
  unfolding lru_list_move_to_first
  inside-run m2 off run2 run3 run4 run5 = ground arith

module _ (m : Memory) (q e : ℕ) (ys : Cells) (p d : ℕ) where
  move-tail :
      Seg m 0 (((q, e) ∷ ys) ++ (p, d) ∷ []) 0
      → Distinct (((q, e) ∷ ys) ++ (p, d) ∷ [])
      → (r : LruList × Memory) × (lru_list_move_to_first
            (listing (((q, e) ∷ ys) ++ (p, d) ∷ []))
            p
            m
          ≡ some r)
        × Moved m ((q, e) ∷ ys) [] p d r
  move-tail s distinct =
      let fs = (q, e) ∷ ys in
      let (s1, s2) = Seg-split m 0 fs ((p, d) ∷ []) 0 s in
      let (others, out) = Distinct-remove fs [] p d distinct in
      let (m1, run1, u) = unlink-tail m q e ys p d s distinct in
      let (m3, m4, m5, run3, run4, run5, linked, same) =
        relink m m1 q e ys p d [] u s2.0 s2.2 others out in
      let n = length (fs ++ (p, d) ∷ []) in
      (
        (record { header = p; tail = last q ys; count = length (fs ++ (p, d) ∷ []) }, m5),
        subst
            (λ t.
              lru_list_move_to_first (record { header = q; tail = t; count = n }) p m
              ≡ some (record { header = p; tail = last q ys; count = n }, m5))
            (sym (last-append ys ((p, d) ∷ []) q))
            (tail-run m m1 m3 m4 m5 p q (last q ys) 0 d 0 n s2.0
              (ne_first p q e ys (not_mem-append p fs [] out).0)
              (load_lem m p (node (last q ys) 0 d) s2.0 s2.1) run1
              (load_lem m1 p (node (last q ys) 0 d) s2.0 u.own) run3 run4 run5),
        record {
          list = record {
            linked = linked;
            distinct = (out, others);
            shape = listing-moved q e ys p d [];
          };
          same = same;
        },
      )

  move-inside :
      (c f : ℕ) (zs : Cells)
      → Seg m 0 (((q, e) ∷ ys) ++ (p, d) ∷ (c, f) ∷ zs) 0
      → Distinct (((q, e) ∷ ys) ++ (p, d) ∷ (c, f) ∷ zs)
      → (r : LruList × Memory) × (lru_list_move_to_first
            (listing (((q, e) ∷ ys) ++ (p, d) ∷ (c, f) ∷ zs))
            p
            m
          ≡ some r)
        × Moved m ((q, e) ∷ ys) ((c, f) ∷ zs) p d r
  move-inside c f zs s distinct =
      let fs = (q, e) ∷ ys in
      let back = (c, f) ∷ zs in
      let b = last q ys in
      let n = length (fs ++ (p, d) ∷ back) in
      let (s1, s2) = Seg-split m 0 fs ((p, d) ∷ back) 0 s in
      let (others, out) = Distinct-remove fs back p d distinct in
      let (m1, m2, run1, own1, run2, u) = unlink-inside m q e ys p d c f zs s distinct in
      let (m3, m4, m5, run3, run4, run5, linked, same) =
        relink m m2 q e ys p d back u s2.0 s2.2 others out in
      let (outf, outb) = not_mem-append p fs back out in
      (
        (record { header = p; tail = last c zs; count = n }, m5),
        subst
            (λ t.
              lru_list_move_to_first (record { header = q; tail = t; count = n }) p m
              ≡ some (record { header = p; tail = last c zs; count = n }, m5))
            (sym (last-append ys ((p, d) ∷ back) q))
            (inside-run m m1 m3 m4 m5 p q b c d (last c zs) n s2.0 (ne_first p q e ys outf)
              (load_lem m p (node b c d) s2.0 s2.1) run1 (load_lem m1 p (node b c d) s2.0 own1) m2
              (ne_last p c f zs outb) run2 run3 run4 run5),
        record {
          list = record {
            linked = linked;
            distinct = (out, others);
            shape = listing-moved q e ys p d back;
          };
          same = same;
        },
      )

move-listing :
    (m : Memory) (ys zs : Cells) (p d : ℕ)
    → Seg m 0 (ys ++ (p, d) ∷ zs) 0
    → Distinct (ys ++ (p, d) ∷ zs)
    → (r : LruList × Memory) × (lru_list_move_to_first (listing (ys ++ (p, d) ∷ zs)) p m ≡ some r)
      × Moved m ys zs p d r
unfolding lru_list_move_to_first
move-listing m [] zs p d s distinct = (
  (listing ((p, d) ∷ zs), m),
  ground arith,
  record { list = record { linked = s; distinct = distinct; shape = refl }; same = λ k h. refl },
)
move-listing m ((q, e) ∷ ys) [] p d s distinct = move-tail m q e ys p d s distinct
move-listing m ((q, e) ∷ ys) ((c, f) ∷ zs) p d s distinct =
    move-inside m q e ys p d c f zs s distinct

-- In a well-formed list, lru_list_move_to_first puts a node in front, wherever it stood; the others
-- keep their order, and no memory outside the list is written.
pub lru_list_move_to_first-Moved :
    (m : Memory) (l : LruList) (ys zs : Cells) (p d : ℕ)
    → IsList m l (ys ++ (p, d) ∷ zs)
    → (r : LruList × Memory) × (lru_list_move_to_first l p m ≡ some r) × Moved m ys zs p d r
lru_list_move_to_first-Moved m l ys zs p d v =
    rw v.shape (move-listing m ys zs p d v.linked v.distinct)
