-- ===== src/Tests/Positions.antt =====
-- The heap of src/log_heap.c on numbers, in a memory that records the position of each.
use logstats.Base.{
  ℕ, ◌+◌, ◌-◌, ◌<◌, ◌≡◌, ◌≢◌, refl, arith, ℤ, pos, negsuc, ltb, ◌==◌, update, some, if◌then◌else◌,
}
use logstats.Heap
use logstats.Heap.{Heap, InsertFunc, notify, heap_insert, heap_replace_least, heap_adjust_siftdown}
use logstats.Heap.Index.{
  Records, Tracked, heap_insert-Tracked, heap_adjust_siftdown-Tracked, heap_replace_least-Tracked,
}

abbrev Places : Type 0
Places = ℕ → ℤ

abbrev minus : Places → ℕ → ℕ → ℤ
minus s a b = if ltb a b then negsuc (b - a - 1) else pos (a - b)

abbrev place_of : Places → ℕ → ℤ
place_of s e = s e

abbrev record_place : InsertFunc ℕ Places
record_place = some (λ e i s. update s e (pos i))

abbrev numbers : ℕ → ℕ
numbers i = i + 1

abbrev three : Heap ℕ Places
three = record { heap = numbers; len = 3; max_size = 10; cmp = minus }

-- The number `e` stands at `e - 1`; 0 stands nowhere.
abbrev places : Places
places e = if e == 0 then negsuc 0 else pos (e - 1)

record_place-Records : Records place_of record_place
unfolding Heap.notify
record_place-Records = record { here = λ e i s. ground arith; other = λ e e' i s ne. ground arith }

places-Tracked : Tracked place_of 3 numbers places
places-Tracked q h = ground arith

heap_insert-Tracked_example :
    let (at, heap, s') = heap_insert three 7 record_place places in
    Tracked place_of heap.len heap.heap s' × (s' 7 ≡ pos at)
heap_insert-Tracked_example =
    heap_insert-Tracked place_of record_place record_place-Records three places places-Tracked 7
      (λ q h. omega arith)

heap_adjust_siftdown-Tracked_example :
    let (heap, s') = heap_adjust_siftdown three 0 record_place places in
    Tracked place_of heap.len heap.heap s'
heap_adjust_siftdown-Tracked_example =
    heap_adjust_siftdown-Tracked place_of record_place record_place-Records three places
      places-Tracked 0 (omega arith)

heap_replace_least-Tracked_example :
    let (out, heap, s') = heap_replace_least three 7 record_place places in
    Tracked place_of heap.len heap.heap s'
    × (out ≡ 1)
    × (s' out ≡ pos 0)
    × ((q : ℕ) → q < heap.len → heap.heap q ≢ out)
heap_replace_least-Tracked_example =
    heap_replace_least-Tracked place_of record_place record_place-Records three places
      places-Tracked 7 (omega arith) (λ q h. omega arith) refl
