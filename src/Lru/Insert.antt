-- ===== src/Lru/Insert.antt =====
-- Insertion, removal at the tail and the move to the front: what each does to the nodes that the
-- header stands for.
use logstats.Base.{ℕ, ◌≡◌, ◌≢◌, refl, none, some, [], ◌∷◌, arith}
use logstats.Lru.{Ptr, node, Memory, LruList, write, lru_list_insert}
use logstats.Lru.Seg.{
  Cells, first, Seg, Distinct, SameOutside, IsList, listing, not_mem_of_none, last-ne_null,
}
use logstats.Lru.Write.{set_next_lem, frame-write, set_prev-first}

-- What an insertion of `d` at the address `block` ends with.
pub record Inserted (m : Memory) (xs : Cells) (block d : ℕ) (r : Ptr × LruList × Memory)
    : Type 0 where
  pub address : r.0 ≡ block
  pub list : IsList r.2 r.1 ((block, d) ∷ xs)
  pub same : SameOutside ((block, d) ∷ xs) m r.2

insert-Inserted :
    (m : Memory) (xs : Cells) (block d : ℕ)
    → Seg m 0 xs 0
    → Distinct xs
    → block ≢ 0
    → m block ≡ none
    → d ≢ 0
    → (r : Ptr × LruList × Memory) × (lru_list_insert (listing xs) d block m ≡ some r)
      × Inserted m xs block d r
unfolding lru_list_insert
insert-Inserted m [] block d s distinct ne fresh nz = (
  (block, listing ((block, d) ∷ []), write m block (some (node 0 0 d))),
  ground arith,
  record {
    address = refl;
    list = record { linked = (ne, ground arith, nz, tt); distinct = (refl, tt); shape = refl };
    same = λ k h. ground arith;
  },
)
insert-Inserted m ((p, e) ∷ xs) block d s distinct ne fresh nz =
    let out = not_mem_of_none m 0 block ((p, e) ∷ xs) 0 fresh s in
    let m1 = write m block (some (node 0 0 d)) in
    let m2 = write m1 block (some (node 0 p d)) in
    let s2 =
      frame-write m1 0 ((p, e) ∷ xs) 0 block _ out
        (frame-write m 0 ((p, e) ∷ xs) 0 block _ out s) in
    let back = set_prev-first m2 0 p e xs 0 block distinct.0 s2 in
    let tail = last-ne_null m 0 p e xs 0 s in
    (
      (block, listing ((block, d) ∷ (p, e) ∷ xs), write m2 p (some (node block (first xs 0) e))),
      ground (arith, set_next_lem m1 block (node 0 0 d) ne (ground arith) p, back.0),
      record {
        address = refl;
        list = record {
          linked = (ne, ground arith, nz, back.1);
          distinct = (out, distinct);
          shape = refl;
        };
        same = λ k h. ground arith;
      },
    )

-- With memory from malloc that is not in use, and data that is not NULL, lru_list_insert puts a new
-- node in front of a well-formed list and writes to no memory outside the list.
pub lru_list_insert-Inserted :
    (m : Memory) (l : LruList) (xs : Cells) (block d : ℕ)
    → IsList m l xs
    → block ≢ 0
    → m block ≡ none
    → d ≢ 0
    → (r : Ptr × LruList × Memory) × (lru_list_insert l d block m ≡ some r)
      × Inserted m xs block d r
lru_list_insert-Inserted m l xs block d v ne fresh nz =
    rw v.shape (insert-Inserted m xs block d v.linked v.distinct ne fresh nz)
