-- ===== src/MemPool/Chunks.antt =====
-- mem_pool_delete of src/dig_mem_pool.c.
use logstats.Base.{
  ℕ, zero, suc, ◌<◌, ◌≡◌, refl, false, true, some, List, [], ◌∷◌, ◌==◌, length, arith,
}
use logstats.MemPool.{Ptr, Words, MemPool, delete_loop, mem_pool_delete}
use logstats.MemPool.Chain.{Chain}

delete_loop-chunks :
    (fuel : ℕ) (words : Words) (head : Ptr) (chunks : List Ptr)
    → length chunks < fuel
    → Chain words head chunks
    → delete_loop fuel head words ≡ some chunks
unfolding delete_loop
delete_loop-chunks zero words head chunks f c = elim f [ ]
delete_loop-chunks (suc fuel) words head [] f c =
    let last : (head == 0) ≡ true = ground arith in rw last refl
delete_loop-chunks (suc fuel) words head (x ∷ chunks) f c =
    let more : (head == 0) ≡ false = ground arith in
    let step : words head ≡ words x = ground arith in
    rw (more, step, delete_loop-chunks fuel words (words x) chunks (omega arith) c.2) (rw c.0 refl)

-- mem_pool_delete ends, and frees every chunk of the pool, each once, in the order of their list.
pub mem_pool_delete-chunks :
    (fuel : ℕ) (mp : MemPool) (words : Words) (chunks : List Ptr)
    → length chunks < fuel
    → Chain words mp.raw_mem_list chunks
    → mem_pool_delete fuel mp words ≡ some chunks
unfolding mem_pool_delete
mem_pool_delete-chunks fuel mp words chunks f c =
    delete_loop-chunks fuel words mp.raw_mem_list chunks f c
