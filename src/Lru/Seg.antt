-- ===== src/Lru/Seg.antt =====
-- Segments of a doubly linked list in memory, and what a list header stands for.
use logstats.Base.{
  ℕ, ◌≡◌, ◌≢◌, refl, Bool, true, false, ◌||◌, none, some, List, [], ◌∷◌, ◌++◌, arith, ◌==◌, length,
}
use logstats.Lru.{Ptr, node, Memory, LruList}

-- Address and data of each node, in order.
abbrev pub Cells : Type 0
Cells = List (Ptr × ℕ)

abbrev pub has : Ptr → Cells → Bool
has k [] = false
has k ((p, _) ∷ xs) = (k == p) || has k xs

infix 40 ◌∉◌
abbrev pub ◌∉◌ : Ptr → Cells → Type 0
k ∉ xs = has k xs ≡ false

-- The address of the first node, or else `end`; that of the last, or else `start`.
abbrev pub first : Cells → Ptr → Ptr
first [] end = end
first ((p, _) ∷ xs) end = p

abbrev pub last : Ptr → Cells → Ptr
last start [] = start
last start ((p, _) ∷ xs) = last p xs

-- The nodes `xs` are linked both ways, between the nodes (or NULL) `start` and `end`.
abbrev pub Seg : Memory → Ptr → Cells → Ptr → Type 0
Seg m start [] end = Unit {0}
Seg m start ((p, d) ∷ xs) end =
    (p ≢ 0) × (m p ≡ some (node start (first xs end) d)) × (d ≢ 0) × Seg m p xs end

abbrev pub Distinct : Cells → Type 0
Distinct [] = Unit {0}
Distinct ((p, _) ∷ xs) = (p ∉ xs) × Distinct xs

-- The header of a list of the nodes `xs`.
abbrev pub listing : Cells → LruList
listing xs = record { header = first xs 0; tail = last 0 xs; count = length xs }

-- The header `l` in the memory `m` stands for the nodes `xs`, most recent first.
pub record IsList (m : Memory) (l : LruList) (xs : Cells) : Type 0 where
  pub linked : Seg m 0 xs 0
  pub distinct : Distinct xs
  pub shape : l ≡ listing xs

-- `m'` differs from `m` at most at the nodes of `xs`.
abbrev pub SameOutside : Cells → Memory → Memory → Type 0
SameOutside xs m m' = (k : Ptr) → k ∉ xs → m' k ≡ m k

-- A segment survives any change that spares its nodes.
pub frame :
    (m m' : Memory) (end : Ptr) (xs : Cells) (start : Ptr)
    → Seg m start xs end
    → ((k : Ptr) → has k xs ≡ true → m' k ≡ m k)
    → Seg m' start xs end
frame m m' end [] start s same = tt
frame m m' end ((p, d) ∷ xs) start s same =
    (s.0, ground (arith, same p), s.2, frame m m' end xs p s.3 λ k h. same k (ground arith))

pub Seg-append :
    (m : Memory) (end : Ptr) (xs ys : Cells) (start : Ptr)
    → Seg m start xs (first ys end)
    → Seg m (last start xs) ys end
    → Seg m start (xs ++ ys) end
Seg-append m end [] ys start s t = t
Seg-append m end ((p, d) ∷ []) ys start s t = (s.0, s.1, s.2, t)
Seg-append m end ((p, d) ∷ (q, e) ∷ xs) ys start s t =
    (s.0, s.1, s.2, Seg-append m end ((q, e) ∷ xs) ys p s.3 t)

pub Seg-split :
    (m : Memory) (end : Ptr) (xs ys : Cells) (start : Ptr)
    → Seg m start (xs ++ ys) end
    → Seg m start xs (first ys end) × Seg m (last start xs) ys end
Seg-split m end [] ys start s = (tt, s)
Seg-split m end ((p, d) ∷ []) ys start s = ((s.0, s.1, s.2, tt), s.3)
Seg-split m end ((p, d) ∷ (q, e) ∷ xs) ys start s =
    let r = Seg-split m end ((q, e) ∷ xs) ys p s.3 in ((s.0, s.1, s.2, r.0), r.1)

pub has-append : (k : Ptr) (xs ys : Cells) → has k (xs ++ ys) ≡ (has k xs || has k ys)
has-append k [] ys = refl
has-append k ((p, d) ∷ xs) ys = ground (arith, has-append k xs ys)

pub first-append : (xs ys : Cells) (end : Ptr) → first (xs ++ ys) end ≡ first xs (first ys end)
first-append [] ys end = refl
first-append (x ∷ xs) ys end = refl

pub last-append : (xs ys : Cells) (start : Ptr) → last start (xs ++ ys) ≡ last (last start xs) ys
last-append [] ys start = refl
last-append ((p, d) ∷ xs) ys start = last-append xs ys p

pub not_mem_of_none :
    (m : Memory) (end : Ptr) (k : Ptr) (xs : Cells) (start : Ptr)
    → m k ≡ none
    → Seg m start xs end
    → k ∉ xs
not_mem_of_none m end k [] start e s = refl
not_mem_of_none m end k ((p, d) ∷ xs) start e s =
    ground (arith, s.1, not_mem_of_none m end k xs p e s.3)

pub last-ne_null :
    (m : Memory) (end : Ptr) (p d : ℕ) (xs : Cells) (start : Ptr)
    → Seg m start ((p, d) ∷ xs) end
    → last p xs ≢ 0
last-ne_null m end p d [] start s = s.0
last-ne_null m end p d ((q, e) ∷ xs) start s = last-ne_null m end q e xs p s.3

-- The node `p` taken out of a list of distinct nodes: the others are distinct, and not `p`.
pub Distinct-remove :
    (ys zs : Cells) (p d : ℕ)
    → Distinct (ys ++ (p, d) ∷ zs)
    → Distinct (ys ++ zs) × (p ∉ (ys ++ zs))
Distinct-remove [] zs p d h = (h.1, h.0)
Distinct-remove ((q, e) ∷ ys) zs p d h =
    let r = Distinct-remove ys zs p d h.1 in
    (
      (ground (arith, h.0, has-append q ys ((p, d) ∷ zs), has-append q ys zs), r.0),
      ground (arith, h.0, r.1, has-append q ys ((p, d) ∷ zs)),
    )

pub Distinct-split : (ys zs : Cells) → Distinct (ys ++ zs) → Distinct ys × Distinct zs
Distinct-split [] zs h = (tt, h)
Distinct-split ((q, e) ∷ ys) zs h =
    let r = Distinct-split ys zs h.1 in ((ground (arith, h.0, has-append q ys zs), r.0), r.1)

-- The two parts of a list of distinct nodes share none.
pub Distinct_apart : (ys zs : Cells) (k : Ptr) → Distinct (ys ++ zs) → has k ys ≡ true → k ∉ zs
Distinct_apart [] zs k h e = cc
Distinct_apart ((q, e) ∷ ys) zs k h i =
    ground (arith, h.0, has-append q ys zs, Distinct_apart ys zs k h.1)

pub has-last : (p d : ℕ) (xs : Cells) → has (last p xs) ((p, d) ∷ xs) ≡ true
has-last p d [] = ground arith
has-last p d ((q, e) ∷ xs) = ground (arith, has-last q e xs)

pub not_mem-cons : (k p d : ℕ) (xs : Cells) → k ∉ (p, d) ∷ xs → ((p == k) ≡ false) × (k ∉ xs)
not_mem-cons k p d xs h = ground arith

pub not_mem_tail : (k p d : ℕ) (xs : Cells) → k ∉ (p, d) ∷ xs → k ∉ xs
not_mem_tail k p d xs h = ground arith

pub not_mem-append : (k : Ptr) (xs ys : Cells) → k ∉ (xs ++ ys) → (k ∉ xs) × (k ∉ ys)
not_mem-append k xs ys h = ground (arith, has-append k xs ys)
