-- ===== src/MemPool/Chain.antt =====
-- The free list of a pool, and what the operations of src/dig_mem_pool.c do to it.
use Prim.Native.Nat.{ℕ}
use logstats.Base.{
  zero, suc, ◌+◌, ◌*◌, ◌%◌, ◌^◌, ◌≤◌, ◌<◌, ◌≡◌, ◌≢◌, ◌⊎◌, refl, sym, subst, ◌∙◌, true, false, some,
  List, [], ◌∷◌, arith, ◌==◌, if◌then◌else◌, update,
}
use logstats.MemPool.{
  Ptr, Words, MemPool, word_size, fill_free_list, grow_new_mem, mem_pool_alloc, mem_pool_free,
}

-- From `p` the words lead through the elements `xs`, none of them NULL, to NULL.
abbrev pub Chain : Words → Ptr → List Ptr → Type 0
Chain words p [] = p ≡ 0
Chain words p (x ∷ xs) = (p ≡ x) × (x ≢ 0) × Chain words (words x) xs

abbrev pub Apart : Ptr → List Ptr → Type 0
Apart k [] = Unit {0}
Apart k (x ∷ xs) = (x ≢ k) × Apart k xs

-- A write elsewhere leaves a chain as it is.
pub Chain-update :
    (words : Words) (p k v : Ptr) (xs : List Ptr)
    → Apart k xs
    → Chain words p xs
    → Chain (update words k v) p xs
Chain-update words p k v [] out c = c
Chain-update words p k v (x ∷ xs) out c =
    let kept : update words k v x ≡ words x = ground arith in
    (c.0, c.1, rw kept (Chain-update words (words x) k v xs out.1 c.2))

-- The elements of a chunk, last first, in front of `xs`.
abbrev pub slots : (raw size n : ℕ) → List Ptr → List Ptr
slots raw size zero xs = xs
slots raw size (suc n) xs = (raw + n * size) ∷ slots raw size n xs

-- No element of the list lies in the memory from `raw` up to `stop`.
abbrev pub Clear : (raw stop : ℕ) → List Ptr → Type 0
Clear raw stop [] = Unit {0}
Clear raw stop (x ∷ xs) = ((x < raw) ⊎ (stop ≤ x)) × Clear raw stop xs

slots-Apart :
    (raw size n i stop : ℕ) (xs : List Ptr)
    → 0 < size
    → n ≤ i
    → raw + i * size < stop
    → Clear raw stop xs
    → Apart (raw + i * size) (slots raw size n xs)
slots-Apart raw size zero i stop [] ps le lt b = tt
slots-Apart raw size zero i stop (x ∷ xs) ps le lt b =
    (omega (arith, b.0), slots-Apart raw size zero i stop xs ps le lt b.1)
slots-Apart raw size (suc n) i stop xs ps le lt b =
    (grind arith, slots-Apart raw size n i stop xs ps (omega arith) lt b)

-- A round of the loop where the offset does not wrap.
fill_free_list-suc :
    (raw size n free : ℕ) (words : Words)
    → n * size < 2 ^ 32
    → let r = fill_free_list raw size n free words in
      fill_free_list raw size (suc n) free words ≡ (raw + n * size, update r.1 (raw + n * size) r.0)
unfolding fill_free_list
fill_free_list-suc raw size n free words few =
    let whole : n * size % 2 ^ 32 ≡ n * size = omega (arith, few) in rw whole refl

-- Filling links every element of the new memory, which none on the free list lies in, in front of the
-- free list.
pub fill_free_list-Chain :
    (raw size n free stop : ℕ) (words : Words) (xs : List Ptr)
    → 0 < raw
    → 0 < size
    → raw + n * size ≤ stop
    → n * size < 2 ^ 32
    → Clear raw stop xs
    → Chain words free xs
    → let r = fill_free_list raw size n free words in Chain r.1 r.0 (slots raw size n xs)
fill_free_list-Chain raw size zero free stop words xs pr ps le few b c = unfold fill_free_list in c
fill_free_list-Chain raw size (suc n) free stop words xs pr ps le few b c =
    let r = fill_free_list raw size n free words in
    let e = raw + n * size in
    let kept : update r.1 e r.0 e ≡ r.0 = ground arith in
    let small : n * size < 2 ^ 32 = grind arith in
    let ih = fill_free_list-Chain raw size n free stop words xs pr ps (grind arith) small b c in
    subst (λ (s : Ptr × Words). Chain s.1 s.0 (slots raw size (suc n) xs))
      (sym (fill_free_list-suc raw size n free words small))
      (
        refl,
        omega arith,
        rw kept (
            Chain-update r.1 r.0 e r.0 (slots raw size n xs)
              (slots-Apart raw size n n stop xs ps (omega arith) (grind arith) b) ih),
      )

module _ (mp : MemPool) (block : Ptr) (words : Words) where
  -- The two ways through mem_pool_alloc that return an element.
  pub alloc_head :
      mp.free_list ≢ 0
      → mem_pool_alloc mp block words
        ≡ (mp.free_list, record mp { free_list = words mp.free_list }, words)
  unfolding mem_pool_alloc
  alloc_head ne =
      let some_left : (mp.free_list == 0) ≡ false = ground arith in rw (some_left, some_left)

  alloc_grown :
      (g : MemPool × Words)
      → mp.free_list ≡ 0
      → mp.needs_auto_grow ≡ true
      → grow_new_mem mp (mp.elem_count * 2 % 2 ^ 32) block words ≡ g
      → mem_pool_alloc mp block words ≡ (
          if (g.0).free_list == 0
          then (0, g.0, g.1)
          else ((g.0).free_list, record (g.0) { free_list = g.1 ((g.0).free_list) }, g.1))
  unfolding mem_pool_alloc
  alloc_grown g none_left auto e =
      let empty : (mp.free_list == 0) ≡ true = ground arith in rw (e, empty, auto)

-- The pool with a new chunk at `block`.
abbrev grown : MemPool → ℕ → Ptr → Words → MemPool × Words
grown mp n block words =
    let r =
      fill_free_list (block + word_size) mp.elem_size n mp.free_list
        (update words block mp.raw_mem_list) in
    (
      record mp {
        elem_count = (mp.elem_count + n) % 2 ^ 32;
        free_list = r.0;
        raw_mem_list = block;
      },
      r.1,
    )

grow_new_mem-eq :
    (mp : MemPool) (n block : ℕ) (words : Words)
    → block ≢ 0
    → grow_new_mem mp n block words ≡ grown mp n block words
unfolding grow_new_mem
grow_new_mem-eq mp n block words ne =
    let some_memory : (block == 0) ≡ false = ground arith in rw some_memory

grow_new_mem-null :
    (mp : MemPool) (n block : ℕ) (words : Words)
    → block ≡ 0
    → grow_new_mem mp n block words ≡ (mp, words)
unfolding grow_new_mem
grow_new_mem-null mp n block words e =
    let no_memory : (block == 0) ≡ true = ground arith in rw no_memory

-- mem_pool_alloc takes the head of a free list that is not empty, and nothing else changes.
pub mem_pool_alloc-cons :
    (mp : MemPool) (block x : ℕ) (words : Words) (xs : List Ptr)
    → Chain words mp.free_list (x ∷ xs)
    → let (e, mp', words') = mem_pool_alloc mp block words in
      (e ≡ x) × Chain words' mp'.free_list xs × (words' ≡ words) × (mp'.elem_count ≡ mp.elem_count)
mem_pool_alloc-cons mp block x words xs c =
    let ne : mp.free_list ≢ 0 = ground arith in
    rw (alloc_head mp block words ne)
      (c.0, subst (λ p. Chain words (words p) xs) (sym c.0) c.2, refl, refl)

-- With an empty free list, and memory from malloc, mem_pool_alloc of a growing pool doubles the
-- pool: it returns the last element of the new memory, the others are the free list, and the count
-- of elements is that of both chunks modulo 2^32. The doubled count modulo 2^32 is not 0.
pub mem_pool_alloc-grows :
    (mp : MemPool) (block n : ℕ) (words : Words)
    → Chain words mp.free_list []
    → mp.needs_auto_grow ≡ true
    → 0 < mp.elem_size
    → mp.elem_count * 2 % 2 ^ 32 ≡ suc n
    → suc n * mp.elem_size < 2 ^ 32
    → block ≢ 0
    → let (e, mp', words') = mem_pool_alloc mp block words in
      (e ≡ block + word_size + n * mp.elem_size)
      × Chain words' mp'.free_list (slots (block + word_size) mp.elem_size n [])
      × (mp'.raw_mem_list ≡ block)
      × (mp'.elem_count ≡ (mp.elem_count + suc n) % 2 ^ 32)
mem_pool_alloc-grows mp block n words c auto ps en few ne =
    let raw = block + word_size in
    let g = grown mp (suc n) block words in
    let start =
      fill_free_list-Chain raw mp.elem_size (suc n) mp.free_list (raw + suc n * mp.elem_size)
        (update words block mp.raw_mem_list) [] (omega arith) ps (omega arith) few tt c in
    let r =
      fill_free_list raw mp.elem_size (suc n) mp.free_list (update words block mp.raw_mem_list) in
    let found : (r.0 == 0) ≡ false = ground (arith, start.0) in
    let run =
      alloc_grown mp block words g c auto (rw en (grow_new_mem-eq mp (suc n) block words ne)) in
    rw (run, found)
      (
        start.0,
        subst (λ p. Chain r.1 (r.1 p) (slots raw mp.elem_size n [])) (sym start.0) start.2,
        refl,
        refl,
      )

-- With an empty free list, and none from malloc, mem_pool_alloc of a growing pool returns NULL and
-- changes nothing.
pub mem_pool_alloc-null :
    (mp : MemPool) (words : Words)
    → Chain words mp.free_list []
    → mp.needs_auto_grow ≡ true
    → mem_pool_alloc mp 0 words ≡ (0, mp, words)
mem_pool_alloc-null mp words c auto =
    let empty : (mp.free_list == 0) ≡ true = ground arith in
    let run =
      alloc_grown mp 0 words (mp, words) c auto
        (grow_new_mem-null mp (mp.elem_count * 2 % 2 ^ 32) 0 words refl) in
    run ∙ rw empty

-- An element that mem_pool_free takes back, not NULL and not free already, heads the free list and is
-- what the next mem_pool_alloc returns, after which the pool is as it was.
pub mem_pool_alloc-free :
    (mp : MemPool) (mem block : ℕ) (words : Words) (xs : List Ptr)
    → mem ≢ 0
    → Apart mem xs
    → Chain words mp.free_list xs
    → (r : MemPool × Words) × (mem_pool_free mp mem words ≡ some r)
      × Chain r.1 (r.0).free_list (mem ∷ xs)
      × (let (e, mp', words') = mem_pool_alloc r.0 block r.1 in
          (e ≡ mem) × (mp' ≡ mp) × Chain words' mp'.free_list xs)
unfolding mem_pool_free
mem_pool_alloc-free mp mem block words xs ne out c =
    let w = update words mem mp.free_list in
    let kept : w mem ≡ mp.free_list = ground arith in
    let chain : Chain w mem (mem ∷ xs) =
      (refl, ne, rw kept (Chain-update words mp.free_list mem mp.free_list xs out c)) in
    (
      (record mp { free_list = mem }, w),
      ground arith,
      chain,
      rw (alloc_head (record mp { free_list = mem }) block w ne) (refl, ground arith, chain.2),
    )
