-- ===== src/Lru/Walk.antt =====
-- The loops of src/zip_lru_list.c: lru_list_destroy and lru_list_search.
use logstats.Base.{
  ℕ, zero, suc, ◌+◌, ◌<◌, ◌≡◌, ◌≢◌, refl, sym, subst, ◌∙◌, Bool-cases, inl, inr, none, some, [],
  ◌∷◌, arith, true, ◌==◌, length, if◌then◌else◌,
}
use logstats.Lru.{
  Ptr, LruNode, node, Memory, LruList, write, destroy_loop, lru_list_destroy, search_loop,
  lru_list_search,
}
use logstats.Lru.Seg.{Cells, has, first, Seg, Distinct, SameOutside, IsList, not_mem_tail}
use logstats.Lru.Write.{load_lem, free_lem, frame-write, ne_first, write_other}

-- Every node of `xs` is freed, and nothing else is touched.
pub record Freed (m : Memory) (xs : Cells) (m' : Memory) : Type 0 where
  pub freed : (k : Ptr) → has k xs ≡ true → m' k ≡ none
  pub same : SameOutside xs m m'

freed_here : (m : Memory) (p : Ptr) → write m p none p ≡ none
freed_here m p = ground arith

destroy_loop-Freed :
    (fuel : ℕ) (m : Memory) (start : Ptr) (xs : Cells)
    → length xs < fuel
    → Seg m start xs 0
    → Distinct xs
    → (m' : Memory) × (destroy_loop fuel (first xs 0) m ≡ some m') × Freed m xs m'
unfolding destroy_loop
destroy_loop-Freed zero m start xs f s distinct = elim f [ ]
destroy_loop-Freed (suc fuel) m start [] f s distinct =
    (m, refl, record { freed = λ k h. cc; same = λ k h. refl })
destroy_loop-Freed (suc fuel) m start ((p, d) ∷ xs) f s distinct =
    let n = node start (first xs 0) d in
    let m1 = write m p none in
    let run = load_lem m p n s.0 s.1 in
    let run1 = free_lem m p n s.0 s.1 in
    let (m', rest, v) =
      destroy_loop-Freed fuel m1 p xs (omega arith) (frame-write m 0 xs p p none distinct.0 s.3)
        distinct.1 in
    (
      m',
      ground (arith, s.0, run, run1, rest),
      record {
        freed = λ k h. elim (Bool-cases (k == p)) [
          | inl e ↦
              let kp : k ≡ p = ground arith in
              subst (λ k. m' k ≡ none) (sym kp) (v.same p distinct.0 ∙ freed_here m p)
          | inr e ↦ v.freed k (rw e at h)
        ];
        same = λ k h.
            v.same k (not_mem_tail k p d xs h) ∙ write_other m k p none (ne_first k p d xs h);
      },
    )

-- On a well-formed list, lru_list_destroy ends, frees every node and touches nothing else.
pub lru_list_destroy-Freed :
    (m : Memory) (l : LruList) (xs : Cells)
    → IsList m l xs
    → (m' : Memory) × (lru_list_destroy l m ≡ some m') × Freed m xs m'
unfolding lru_list_destroy
lru_list_destroy-Freed m l xs v =
    rw v.shape (destroy_loop-Freed (length xs + 1) m 0 xs (omega arith) v.linked v.distinct)

-- The loop of lru_list_search on a node that does not hold the data never ends.
search_loop_stuck :
    (fuel : ℕ) (m : Memory) (p d : ℕ) (n : LruNode)
    → p ≢ 0
    → m p ≡ some n
    → n.payload ≢ d
    → search_loop fuel p d m ≡ none
unfolding search_loop
search_loop_stuck zero m p d n ne e miss = refl
search_loop_stuck (suc fuel) m p d n ne e miss =
    ground (arith, load_lem m p n ne e, search_loop_stuck fuel m p d n ne e miss)

search_loop_step :
    (fuel : ℕ) (m : Memory) (p d : ℕ) (n : LruNode)
    → p ≢ 0
    → m p ≡ some n
    → search_loop (suc fuel) p d m ≡ (if n.payload == d then some (some p) else none)
unfolding search_loop
search_loop_step fuel m p d n ne e = elim (Bool-cases (n.payload == d)) [
  | inl hit ↦ rw hit (ground (arith, load_lem m p n ne e))
  | inr miss ↦ rw miss (search_loop_stuck (suc fuel) m p d n ne e (ground arith))
]

-- On a well-formed list that is not empty, lru_list_search returns the first node where that holds the data, and
-- otherwise is still running after any number of rounds.
pub lru_list_search_lem :
    (m : Memory) (l : LruList) (d fuel p e : ℕ) (xs : Cells)
    → IsList m l ((p, e) ∷ xs)
    → lru_list_search (suc fuel) l d m ≡ (if e == d then some (some p) else none)
unfolding lru_list_search
lru_list_search_lem m l d fuel p e xs v =
    let s = v.linked in rw v.shape (search_loop_step fuel m p d (node 0 (first xs 0) e) s.0 s.1)
