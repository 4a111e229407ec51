-- ===== src/MemPool.antt =====
-- The memory pool of src/dig_mem_pool.c. Addresses are numbers and 0 is NULL; `Words` is the word at
-- each address where a free element or a chunk keeps its `next` pointer. malloc's result is an
-- argument. The lock around each operation is not modelled: a pool belongs to one name tree, whose
-- callers hold the lock of the house keeper.
pub mod Chain
pub mod Chunks
use Prim.Native.Nat.{bit_or}
use logstats.Base.{
  ◌>>=◌, List, [], ◌∷◌, ℕ, zero, suc, ◌+◌, ◌-◌, ◌*◌, ◌%◌, ◌^◌, Bool, Option, none, some, ◌&&◌, ◌==◌,
  ltb, if◌then◌else◌, update,
}

abbrev pub Ptr : Type 0
Ptr = ℕ

abbrev pub Words : Type 0
Words = Ptr → Ptr

pub record MemPool : Type 0 where
  pub elem_size : ℕ
  pub elem_count : ℕ
  pub free_list : Ptr
  pub raw_mem_list : Ptr
  pub needs_auto_grow : Bool

-- DEFAULT_ELEM_COUNT; sizeof(void *) and the sizes of the two link structures.
abbrev pub default_elem_count : ℕ
default_elem_count = 20

abbrev pub word_size : ℕ
word_size = 8

-- `~-(int)sizeof(void *)` is 7.
pub align_pad : ℕ → ℕ
align_pad size = if size % word_size == 0 then 0 else bit_or size 7 + 1 - size

-- The first `n` rounds of the loop: the head of the free list, and the words. The offset of an element
-- is a product of 32 bits.
pub fill_free_list : (raw_mem elem_size n : ℕ) → Ptr → Words → Ptr × Words
fill_free_list raw_mem elem_size zero free words = (free, words)
fill_free_list raw_mem elem_size (suc n) free words =
    let r = fill_free_list raw_mem elem_size n free words in
    let e = raw_mem + n * elem_size % 2 ^ 32 in (e, update r.1 e r.0)

-- `block` is what malloc returns, or NULL, for a word and `new_elem_count * elem_size % 2 ^ 32` bytes. That
-- the elements lie in these bytes is not checked, as in the source.
pub grow_new_mem : MemPool → ℕ → Ptr → Words → MemPool × Words
unfolding fill_free_list
grow_new_mem mp new_elem_count block words =
    let r =
      fill_free_list (block + word_size) mp.elem_size new_elem_count mp.free_list
        (update words block mp.raw_mem_list) in
    if block == 0 then (mp, words) else (
      record mp {
        elem_count = (mp.elem_count + new_elem_count) % 2 ^ 32;
        free_list = r.0;
        raw_mem_list = block;
      },
      r.1,
    )

-- `pool` is what calloc returns (NULL ends the process), `block` what malloc does.
unfoldable pub mem_pool_create :
    ℕ → ℕ → Bool → (pool block : Ptr) → Words → Option (MemPool × Words)
unfolding grow_new_mem align_pad
mem_pool_create elem_size elem_count needs_auto_grow pool block words =
    let size = if ltb word_size elem_size then elem_size else word_size in
    let mp : MemPool = record {
      elem_size = size + align_pad size;
      elem_count = 0;
      free_list = 0;
      raw_mem_list = 0;
      needs_auto_grow = needs_auto_grow;
    } in
    let wanted = if elem_count == 0 then default_elem_count else elem_count in
    if pool == 0 then none else some (grow_new_mem mp wanted block words)

-- The element, or NULL.
pub mem_pool_alloc : MemPool → Ptr → Words → Ptr × MemPool × Words
mem_pool_alloc mp block words =
    let grown = grow_new_mem mp (mp.elem_count * 2 % 2 ^ 32) block words in
    let now = if mp.free_list == 0 && mp.needs_auto_grow then grown else (mp, words) in
    let e = now.0.free_list in
    if e == 0 then (0, now.0, now.1) else (e, record (now.0) { free_list = now.1 e }, now.1)

-- `none` is the failed ASSERT on a NULL element.
unfoldable pub mem_pool_free : MemPool → Ptr → Words → Option (MemPool × Words)
mem_pool_free mp mem words =
    if mem == 0 then none else some (record mp { free_list = mem }, update words mem mp.free_list)

-- The loop of mem_pool_delete with so many rounds to go: the chunks that it frees, in order. `none` is
-- a loop that is still running.
pub delete_loop : ℕ → Ptr → Words → Option (List Ptr)
delete_loop zero head words = none
delete_loop (suc fuel) head words =
    let rest : Option (List Ptr) = do
      freed ← delete_loop fuel (words head) words
      some (head ∷ freed)
    in if head == 0 then some [] else rest

pub mem_pool_delete : ℕ → MemPool → Words → Option (List Ptr)
unfolding delete_loop
mem_pool_delete fuel mp words = delete_loop fuel mp.raw_mem_list words

-- sizeof(mem_pool_t) is what the compiler makes it.
pub mem_pool_struct_size : ℕ → ℕ
mem_pool_struct_size size = size % 2 ^ 32
