-- ===== src/Lru/Unlink.antt =====
-- Taking a node that is not the first out of its neighbours' links, as lru_list_move_to_first and
-- lru_list_delete do.
use logstats.Base.{ℕ, ◌≡◌, ◌∙◌, some, [], ◌∷◌, ◌++◌}
use logstats.Lru.{node, Memory, set_prev, set_next, write}
use logstats.Lru.Seg.{
  Cells, ◌∉◌, first, last, Seg, Distinct, SameOutside, frame, Seg-split, Distinct-remove,
  Distinct-split, Distinct_apart, has-last, not_mem-cons, not_mem-append,
}
use logstats.Lru.Write.{
  frame-write, set_prev-first, set_next-last, ne_last, ne_of_has, ne_first, write_other,
}

-- After the writes: the nodes in front of `p` and behind it are linked, and `p` still has its own
-- links to both.
pub record Unlinked (m : Memory) (ys zs : Cells) (p d : ℕ) (m' : Memory) : Type 0 where
  pub front : Seg m' 0 ys (first zs 0)
  pub back : Seg m' (last 0 ys) zs 0
  pub own : m' p ≡ some (node (last 0 ys) (first zs 0) d)
  pub same : SameOutside (ys ++ zs) m m'

module _ (m : Memory) (q e : ℕ) (ys : Cells) (p d : ℕ) (zs : Cells)
    (s : Seg m 0 (((q, e) ∷ ys) ++ (p, d) ∷ zs) 0)
    (distinct : Distinct (((q, e) ∷ ys) ++ (p, d) ∷ zs)) where
  abbrev parts : Seg m 0 ((q, e) ∷ ys) p × Seg m (last q ys) ((p, d) ∷ zs) 0
  parts = Seg-split m 0 ((q, e) ∷ ys) ((p, d) ∷ zs) 0 s

  -- The write to the node in front.
  set_next-front :
      (m1 : Memory) × (set_next m (last q ys) (first zs 0) ≡ some m1)
      × Seg m1 0 ((q, e) ∷ ys) (first zs 0)
      × Seg m1 p zs 0
      × (m1 p ≡ some (node (last q ys) (first zs 0) d))
      × SameOutside (((q, e) ∷ ys) ++ zs) m m1
  set_next-front =
      let front = (q, e) ∷ ys in
      let b = last q ys in
      let two = Distinct-split front ((p, d) ∷ zs) distinct in
      let (m1, run, linked, same) = set_next-last m p q e ys 0 (first zs 0) two.0 parts.0 in
      let away =
        not_mem-cons b p d zs (Distinct_apart front ((p, d) ∷ zs) b distinct (has-last q e ys)) in
      (
        m1,
        run,
        linked,
        frame m m1 0 zs p parts.1.3 (λ k h. same k (ne_of_has b k zs away.1 h)),
        same p away.0 ∙ parts.1.1,
        λ k h. same k (ne_last k q e ys (not_mem-append k front zs h).0),
      )

module _ (m : Memory) (q e : ℕ) (ys : Cells) (p d : ℕ) where
  -- Behind `p` there is no node: the write in front is all.
  pub unlink-tail :
      Seg m 0 (((q, e) ∷ ys) ++ (p, d) ∷ []) 0
      → Distinct (((q, e) ∷ ys) ++ (p, d) ∷ [])
      → (m1 : Memory) × (set_next m (last q ys) 0 ≡ some m1) × Unlinked m ((q, e) ∷ ys) [] p d m1
  unlink-tail s distinct =
      let (m1, run, front, back, own, same) = set_next-front m q e ys p d [] s distinct in
      (m1, run, record { front = front; back = tt; own = own; same = same })

  -- Behind `p` stands the node `c`: its `prev` is written too.
  pub unlink-inside :
      (c f : ℕ) (zs : Cells)
      → Seg m 0 (((q, e) ∷ ys) ++ (p, d) ∷ (c, f) ∷ zs) 0
      → Distinct (((q, e) ∷ ys) ++ (p, d) ∷ (c, f) ∷ zs)
      → (m1 m2 : Memory) × (set_next m (last q ys) c ≡ some m1)
        × (m1 p ≡ some (node (last q ys) c d))
        × (set_prev m1 c (last q ys) ≡ some m2)
        × Unlinked m ((q, e) ∷ ys) ((c, f) ∷ zs) p d m2
  unlink-inside c f zs s distinct =
      let front = (q, e) ∷ ys in
      let back = (c, f) ∷ zs in
      let (m1, run, fs, bs, own, same) = set_next-front m q e ys p d back s distinct in
      let others = Distinct-remove front back p d distinct in
      let out : c ∉ zs = (Distinct-split front back others.0).1.0 in
      let apart : c ∉ front =
        (not_mem-append c front zs (Distinct-remove front zs c f others.0).1).0 in
      let (run2, linked) = set_prev-first m1 0 c f zs p (last q ys) out bs in
      (
        m1,
        write m1 c (some (node (last q ys) (first zs 0) f)),
        run,
        own,
        run2,
        record {
          front = frame-write m1 c front 0 c _ apart fs;
          back = linked;
          own =
              write_other m1 p c _ (ne_first p c f zs (not_mem-append p front back others.1).1)
              ∙ own;
          same = λ k h.
              write_other m1 k c _ (ne_first k c f zs (not_mem-append k front back h).1) ∙ same k h;
        },
      )
