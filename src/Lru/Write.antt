-- ===== src/Lru/Write.antt =====
-- The writes through a pointer, one at a time: what they do to a segment.
use logstats.Base.{ℕ, ◌≡◌, ◌≢◌, true, false, Option, none, some, [], ◌∷◌, arith, ◌==◌}
use logstats.Lru.{Ptr, LruNode, node, Memory, load, set_prev, set_next, free, write}
use logstats.Lru.Seg.{Cells, has, ◌∉◌, first, last, Seg, Distinct, frame}

module _ (m : Memory) (p : Ptr) (n : LruNode) (ne : p ≢ 0) (e : m p ≡ some n) where
  pub load_lem : load m p ≡ some n
  unfolding load
  load_lem = ground arith

  pub set_prev_lem : (q : Ptr) → set_prev m p q ≡ some (write m p (some (record n { prev = q })))
  unfolding set_prev
  set_prev_lem q = rw load_lem

  pub set_next_lem : (q : Ptr) → set_next m p q ≡ some (write m p (some (record n { next = q })))
  unfolding set_next
  set_next_lem q = rw load_lem

  pub free_lem : free m p ≡ some (write m p none)
  unfolding free
  free_lem = rw load_lem

-- A node of `xs` is not one that is not.
pub ne_of_has : (k j : Ptr) (xs : Cells) → k ∉ xs → has j xs ≡ true → (j == k) ≡ false
ne_of_has k j [] out h = cc
ne_of_has k j ((p, d) ∷ xs) out h = ground (arith, ne_of_has k j xs)

pub ne_last : (k p d : ℕ) (xs : Cells) → k ∉ (p, d) ∷ xs → (k == last p xs) ≡ false
ne_last k p d [] out = ground arith
ne_last k p d ((r, e) ∷ xs) out = ne_last k r e xs (ground arith)

pub ne_first : (k p d : ℕ) (xs : Cells) → k ∉ (p, d) ∷ xs → (k == p) ≡ false
ne_first k p d xs out = ground arith

pub write_other :
    (m : Memory) (k p : Ptr) (c : Option LruNode) → (k == p) ≡ false → write m p c k ≡ m k
write_other m k p c h = rw h

-- A write elsewhere spares a segment.
pub frame-write :
    (m : Memory) (end : Ptr) (xs : Cells) (start k : Ptr) (c : Option LruNode)
    → k ∉ xs
    → Seg m start xs end
    → Seg (write m k c) start xs end
frame-write m end xs start k c out s =
    frame m (write m k c) end xs start s λ j h. ground (arith, ne_of_has k j xs out h)

-- Writing the `prev` of the first node.
pub set_prev-first :
    (m : Memory) (end : Ptr) (p d : ℕ) (xs : Cells) (start q : Ptr)
    → p ∉ xs
    → Seg m start ((p, d) ∷ xs) end
    → let m' = write m p (some (node q (first xs end) d)) in
      (set_prev m p q ≡ some m') × Seg m' q ((p, d) ∷ xs) end
set_prev-first m end p d xs start q out s = (
  set_prev_lem m p (node start (first xs end) d) s.0 s.1 q,
  (s.0, ground arith, s.2, frame-write m end xs p p _ out s.3),
)

-- Writing the `next` of the last node.
pub set_next-last :
    (m : Memory) (end : Ptr) (p d : ℕ) (xs : Cells) (start q : Ptr)
    → Distinct ((p, d) ∷ xs)
    → Seg m start ((p, d) ∷ xs) end
    → (m' : Memory) × (set_next m (last p xs) q ≡ some m')
      × Seg m' start ((p, d) ∷ xs) q
      × ((k : Ptr) → (k == last p xs) ≡ false → m' k ≡ m k)
set_next-last m end p d [] start q distinct s = (
  write m p (some (node start q d)),
  set_next_lem m p (node start end d) s.0 s.1 q,
  (s.0, ground arith, s.2, tt),
  λ k h. ground arith,
)
set_next-last m end p d ((r, e) ∷ xs) start q distinct s =
    let (m', run, linked, same) = set_next-last m end r e xs p q distinct.1 s.3 in
    (m', run, (s.0, ground (arith, same p (ne_last p r e xs distinct.0)), s.2, linked), same)
