-- ===== src/Heap.antt =====
-- The array heap of src/log_heap.c. An element is a value of a type `E` (the code's `void *`), and
-- `S` is the memory that the comparison reads and the insert function writes. The array is a
-- function of its index; entries from `len` on hold whatever the memory held.
pub mod Init
pub mod Order
pub mod Down
pub mod Moves
pub mod Sort
pub mod Replace
pub mod Insert
pub mod Index
pub mod Shape
use logstats.Base.{
  ℕ, zero, suc, ◌+◌, ◌-◌, ◌*◌, ◌/◌, Bool, ◌&&◌, Option, none, some, ℤ, pos, negsuc, positive,
  negative, ltb, leb, ◌==◌, if◌then◌else◌, update,
}

-- MAX_HEAP_NODE_NUM
abbrev pub max_heap_node_num : ℕ
max_heap_node_num = 10000

pub record Heap (E S : Type 0) : Type 0 where
  pub heap : ℕ → E
  pub len : ℕ
  pub max_size : ℕ
  pub cmp : S → E → E → ℤ

-- The callback `insert_func`, or NULL; its `int` result is read nowhere.
abbrev pub InsertFunc : Type 0 → Type 0 → Type 0
InsertFunc E S = Option (E → ℕ → S → S)

-- Where a sifting loop stops: the free position, the array and the memory.
pub record Hole (E S : Type 0) : Type 0 where
  pub index : ℕ
  pub heap : ℕ → E
  pub state : S

-- The copying loop of heap_copy, over the first entries.
copy_loop : {E : Type 0} → ℕ → (ℕ → E) → (ℕ → E) → ℕ → E
copy_loop zero from to = to
copy_loop (suc n) from to = update (copy_loop n from to) n (from n)

module _ {E S : Type 0} where
  -- `block` is the memory that malloc returns, or NULL.
  unfoldable pub heap_init : ℤ → (S → E → E → ℤ) → Option (ℕ → E) → Option (Heap E S)
  heap_init (negsuc n) cmp block = none
  heap_init (pos ms) cmp none = none
  heap_init (pos ms) cmp (some block) =
      if ms == 0
      then none
      else if ltb max_heap_node_num ms
      then none
      else some (record { heap = block; len = 0; max_size = ms; cmp = cmp })

  pub heap_value : Heap E S → ℕ → E
  heap_value hbt i = hbt.heap i

  pub heap_empty : Heap E S → Bool
  heap_empty hbt = hbt.len == 0

  pub heap_reach_roof : Heap E S → ℕ → Bool
  heap_reach_roof hbt roof = leb roof hbt.len

  pub heap_min_less_than : Heap E S → S → E → Bool
  heap_min_less_than hbt s elem = negative (hbt.cmp s (hbt.heap 0) elem)

  -- `if (func != NULL) func(e, idx)`
  unfoldable pub notify : InsertFunc E S → E → ℕ → S → S
  notify none e idx s = s
  notify (some func) e idx s = func e idx s

  -- `j`, or its right neighbour if that is smaller, among the first `n` entries.
  pub smaller_child : (S → E → E → ℤ) → ℕ → (ℕ → E) → S → ℕ → ℕ
  smaller_child cmp n a s j =
      if ltb (j + 1) n && positive (cmp s (a j) (a (j + 1))) then j + 1 else j

  module _ (cmp : S → E → E → ℤ) (func : InsertFunc E S) where
    -- The loop of heap_insert: `i` is the free position, and the array still holds at `i` what
    -- stood there before.
    pub sift_up : ℕ → ℕ → (ℕ → E) → S → Hole E S
    sift_up zero i a s = record { index = i; heap = a; state = s }
    sift_up (suc fuel) i a s =
        let j = (i - 1) / 2 in
        let stop : Hole E S = record { index = i; heap = a; state = s } in
        let rise = sift_up fuel j (update a i (a j)) (notify func (a j) i s) in
        if i == 0 then stop else if positive (cmp s (a j) (a i)) then rise else stop

    -- The loop of heap_replace_least, heap_adjust_siftdown, heap_delete and heap_sort: looks for
    -- the place of `x` below the free position `i`, among the first `n` entries.
    pub sift_down : E → ℕ → ℕ → ℕ → (ℕ → E) → S → Hole E S
    sift_down x n zero i a s = record { index = i; heap = a; state = s }
    sift_down x n (suc fuel) i a s =
        let j = smaller_child cmp n a s (2 * i + 1) in
        let stop : Hole E S = record { index = i; heap = a; state = s } in
        let sink = sift_down x n fuel j (update a i (a j)) (notify func (a j) i s) in
        if ltb (2 * i + 1) n then (if positive (cmp s x (a j)) then sink else stop) else stop

  -- The index at which `x` ends up, the heap and the memory.
  pub heap_insert : Heap E S → E → InsertFunc E S → S → ℕ × Heap E S × S
  heap_insert hbt x func s =
      let s1 = notify func x hbt.len s in
      let h = sift_up hbt.cmp func (suc hbt.len) hbt.len (update hbt.heap hbt.len x) s1 in
      let s2 = notify func x h.index h.state in
      (h.index, record hbt { heap = update h.heap h.index x; len = hbt.len + 1 }, s2)

  -- `none` is the exit of the process on an empty heap.
  pub heap_delete : Heap E S → S → Option (E × Heap E S)
  unfolding sift_down smaller_child notify
  heap_delete hbt s =
      if hbt.len == 0
      then none
      else let temp = hbt.heap 0 in
        let len = hbt.len - 1 in
        if len == 0
        then some (temp, record hbt { len = 0 })
        else let x = hbt.heap len in
          let h = sift_down hbt.cmp none x len len 0 hbt.heap s in
          some (temp, record hbt { heap = update h.heap h.index x; len = len })

  -- `block` is the memory that malloc returns, or NULL.
  pub heap_copy : Heap E S → Option (ℕ → E) → Option (Heap E S)
  unfolding copy_loop
  heap_copy hbt none = none
  heap_copy hbt (some block) = some (record hbt { heap = copy_loop hbt.len hbt.heap block })

  -- The rounds of heap_sort for `len` down to 1; the round for 2 ends the loop after its exchange.
  pub sort_loop : (S → E → E → ℤ) → S → ℕ → (ℕ → E) → ℕ → E
  unfolding sift_down smaller_child notify
  sort_loop cmp s zero a = a
  sort_loop cmp s (suc k) a =
      let elem = a k in
      let b = update (update a k (a 0)) 0 elem in
      let h = sift_down cmp none elem k k 0 b s in
      let rest = sort_loop cmp s k (update h.heap h.index elem) in if k == 1 then b else rest

  pub heap_sort : Heap E S → S → Heap E S
  unfolding sort_loop
  heap_sort hbt s = record hbt { heap = sort_loop hbt.cmp s hbt.len hbt.heap }

  pub heap_adjust_siftdown : Heap E S → ℕ → InsertFunc E S → S → Heap E S × S
  unfolding sift_down smaller_child notify heap_value
  heap_adjust_siftdown hbt index func s =
      let elem = heap_value hbt index in
      let h = sift_down hbt.cmp func elem hbt.len hbt.len index hbt.heap s in
      if h.index == index
      then (record hbt { heap = h.heap }, h.state)
      else (record hbt { heap = update h.heap h.index elem }, notify func elem h.index h.state)

  -- The element that is not, or no longer, in the heap.
  pub heap_replace_least : Heap E S → E → InsertFunc E S → S → E × Heap E S × S
  unfolding sift_down smaller_child notify
  heap_replace_least hbt new func s =
      let temp = hbt.heap 0 in
      let h = sift_down hbt.cmp func new hbt.len hbt.len 0 hbt.heap s in
      let s2 = notify func new h.index h.state in
      if positive (hbt.cmp s new temp)
      then (temp, record hbt { heap = update h.heap h.index new }, s2)
      else (new, hbt, s)
