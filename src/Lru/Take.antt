-- ===== src/Lru/Take.antt =====
-- Taking a node out of a list of src/zip_lru_list.c, at any place.
use logstats.Base.{ℕ, ◌≡◌, refl, ◌∙◌, none, some, [], ◌∷◌, ◌++◌, arith}
use logstats.Lru.{node, Memory, LruList, write, lru_list_delete, lru_list_remove_tail}
use logstats.Lru.Seg.{Cells, first, Seg, Distinct, IsList, listing, not_mem_tail}
use logstats.Lru.Write.{load_lem, free_lem, frame-write, set_prev-first, ne_first, write_other}
use logstats.Lru.Delete.{Taken, take_tail, delete-inside}

-- The only node: both functions empty the list.
take_only :
    (m : Memory) (p d : ℕ)
    → Seg m 0 ((p, d) ∷ []) 0
    → (r : LruList × Memory) × (lru_list_delete (listing ((p, d) ∷ [])) p m ≡ some r)
      × (lru_list_remove_tail (listing ((p, d) ∷ [])) m ≡ some (d, r.0, r.1))
      × Taken m [] [] p d r
unfolding lru_list_delete lru_list_remove_tail
take_only m p d s =
    let run = load_lem m p (node 0 0 d) s.0 s.1 in
    let run2 = free_lem m p (node 0 0 d) s.0 s.1 in
    (
      (listing [], write m p none),
      ground (arith, run, run2),
      ground (arith, run, run2),
      record {
        list = record { linked = tt; distinct = tt; shape = refl };
        freed = ground arith;
        same = λ k h. ground arith;
      },
    )

-- The first of several nodes.
delete-first :
    (m : Memory) (p d c f : ℕ) (zs : Cells)
    → Seg m 0 ((p, d) ∷ (c, f) ∷ zs) 0
    → Distinct ((p, d) ∷ (c, f) ∷ zs)
    → (r : LruList × Memory) × (lru_list_delete (listing ((p, d) ∷ (c, f) ∷ zs)) p m ≡ some r)
      × Taken m [] ((c, f) ∷ zs) p d r
unfolding lru_list_delete
delete-first m p d c f zs s distinct =
    let m1 = write m c (some (node 0 (first zs 0) f)) in
    let pc = ne_first p c f zs distinct.0 in
    let (run1, linked) = set_prev-first m 0 c f zs p 0 distinct.1.0 s.3 in
    let own : m1 p ≡ some (node 0 c d) = write_other m p c _ pc ∙ s.1 in
    let run = load_lem m p (node 0 c d) s.0 s.1 in
    let run2 = free_lem m1 p (node 0 c d) s.0 own in
    let nz = s.3.0 in
    (
      (listing ((c, f) ∷ zs), write m1 p none),
      ground (arith, run, run1, run2, nz),
      record {
        list = record {
          linked = frame-write m1 0 ((c, f) ∷ zs) 0 p none distinct.0 linked;
          distinct = distinct.1;
          shape = refl;
        };
        freed = ground arith;
        same = λ k h.
            write_other m1 k p none (ne_first k p d ((c, f) ∷ zs) h)
            ∙ write_other m k c _ (ne_first k c f zs (not_mem_tail k p d ((c, f) ∷ zs) h));
      },
    )

delete-listing :
    (m : Memory) (ys zs : Cells) (p d : ℕ)
    → Seg m 0 (ys ++ (p, d) ∷ zs) 0
    → Distinct (ys ++ (p, d) ∷ zs)
    → (r : LruList × Memory) × (lru_list_delete (listing (ys ++ (p, d) ∷ zs)) p m ≡ some r)
      × Taken m ys zs p d r
delete-listing m [] [] p d s distinct = let (r, run, _, t) = take_only m p d s in (r, run, t)
delete-listing m [] ((c, f) ∷ zs) p d s distinct = delete-first m p d c f zs s distinct
delete-listing m ((q, e) ∷ ys) [] p d s distinct =
    let (r, run, _, t) = take_tail m q e ys p d s distinct in (r, run, t)
delete-listing m ((q, e) ∷ ys) ((c, f) ∷ zs) p d s distinct =
    delete-inside m q e ys p d c f zs s distinct

remove_tail-listing :
    (m : Memory) (ys : Cells) (p d : ℕ)
    → Seg m 0 (ys ++ (p, d) ∷ []) 0
    → Distinct (ys ++ (p, d) ∷ [])
    → (r : LruList × Memory) × (lru_list_remove_tail (listing (ys ++ (p, d) ∷ [])) m
        ≡ some (d, r.0, r.1))
      × Taken m ys [] p d r
remove_tail-listing m [] p d s distinct = let (r, _, run, t) = take_only m p d s in (r, run, t)
remove_tail-listing m ((q, e) ∷ ys) p d s distinct =
    let (r, _, run, t) = take_tail m q e ys p d s distinct in (r, run, t)

-- In a well-formed list, lru_list_delete takes a node out and frees it, wherever it stands; the others
-- keep their order, and no memory outside the list is written.
pub lru_list_delete-Taken :
    (m : Memory) (l : LruList) (ys zs : Cells) (p d : ℕ)
    → IsList m l (ys ++ (p, d) ∷ zs)
    → (r : LruList × Memory) × (lru_list_delete l p m ≡ some r) × Taken m ys zs p d r
lru_list_delete-Taken m l ys zs p d v = rw v.shape (delete-listing m ys zs p d v.linked v.distinct)

-- In a well-formed list that is not empty, lru_list_remove_tail takes the last node out, frees it and
-- returns its data; the others keep their order, and no memory outside the list is written.
pub lru_list_remove_tail-Taken :
    (m : Memory) (l : LruList) (ys : Cells) (p d : ℕ)
    → IsList m l (ys ++ (p, d) ∷ [])
    → (r : LruList × Memory) × (lru_list_remove_tail l m ≡ some (d, r.0, r.1)) × Taken m ys [] p d r
lru_list_remove_tail-Taken m l ys p d v =
    rw v.shape (remove_tail-listing m ys p d v.linked v.distinct)

-- On an empty list lru_list_remove_tail returns NULL and changes nothing.
pub lru_list_remove_tail-nil :
    (m : Memory) (l : LruList) → IsList m l [] → lru_list_remove_tail l m ≡ some (0, l, m)
unfolding lru_list_remove_tail
lru_list_remove_tail-nil m l v = rw v.shape refl
