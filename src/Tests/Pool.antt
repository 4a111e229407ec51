-- ===== src/Tests/Pool.antt =====
-- A pool of src/dig_mem_pool.c with elements of 16 bytes: a chunk of two elements at 1000.
use logstats.Base.{◌+◌, ◌*◌, ◌%◌, ◌^◌, ◌≡◌, refl, true, some, [], ◌∷◌, arith, ◌==◌, if◌then◌else◌}
use logstats.MemPool.{
  Ptr, Words, MemPool, word_size, mem_pool_alloc, mem_pool_free, mem_pool_delete,
}
use logstats.MemPool.Chunks.{mem_pool_delete-chunks}
use logstats.MemPool.Chain.{Chain, slots, mem_pool_alloc-grows, mem_pool_alloc-free}

abbrev words : Words
words p = if p == 1024 then 1008 else 0

-- Both elements are free, or none is.
abbrev pool : MemPool
pool = record {
  elem_size = 16;
  elem_count = 2;
  free_list = 1024;
  raw_mem_list = 1000;
  needs_auto_grow = true;
}

abbrev used_up : MemPool
used_up = record pool { free_list = 0 }

abbrev fresh : Ptr
fresh = 2000

words-Chain : Chain words 1024 (1024 ∷ 1008 ∷ [])
words-Chain = (refl, omega arith, (refl, omega arith, refl))

mem_pool_alloc-grows_example :
    let (e, mp', words') = mem_pool_alloc used_up fresh words in
    (e ≡ fresh + word_size + 3 * 16)
    × Chain words' mp'.free_list (slots (fresh + word_size) 16 3 [])
    × (mp'.raw_mem_list ≡ fresh)
    × (mp'.elem_count ≡ (2 + 4) % 2 ^ 32)
mem_pool_alloc-grows_example =
    mem_pool_alloc-grows used_up fresh 3 words refl refl (omega arith) refl (omega arith)
      (omega arith)

mem_pool_alloc-free_example :
    (r : MemPool × Words) × (mem_pool_free used_up 1008 words ≡ some r)
    × Chain r.1 (r.0).free_list (1008 ∷ [])
    × (let (e, mp', words') = mem_pool_alloc r.0 0 r.1 in
        (e ≡ 1008) × (mp' ≡ used_up) × Chain words' mp'.free_list [])
mem_pool_alloc-free_example = mem_pool_alloc-free used_up 1008 0 words [] (omega arith) tt refl

-- Two chunks, at 2000 and 1000.
abbrev chunks : Words
chunks p = if p == 2000 then 1000 else 0

mem_pool_delete-chunks_example :
    mem_pool_delete 3 (record pool { raw_mem_list = 2000 }) chunks ≡ some (2000 ∷ 1000 ∷ [])
mem_pool_delete-chunks_example =
    mem_pool_delete-chunks 3 (record pool { raw_mem_list = 2000 }) chunks (2000 ∷ 1000 ∷ [])
      (omega arith) (refl, omega arith, (refl, omega arith, refl))
