-- ===== src/Tests/Sorted.antt =====
-- The heap of src/log_heap.c on numbers: 1, 2, 3, 4 and 5, each smaller than its children.
use logstats.Base.{
  ℕ, ◌+◌, ◌-◌, ◌<◌, ◌≡◌, ◌≢◌, ◌↔◌, Bool, arith, ℤ, pos, negsuc, ltb, ◌==◌, count, bit, update, none,
  some, if◌then◌else◌,
}
use logstats.Heap.{
  Heap, heap_sort, heap_insert, heap_replace_least, heap_adjust_siftdown, heap_copy,
}
use logstats.Heap.Order.{Ordered, Compares, none-Keeps}
use logstats.Heap.Sort.{Descending, heap_sort-Descending, heap_sort-count}
use logstats.Heap.Replace.{
  Replaced, Deletes, heap_replace_least-Replaced, heap_delete-Deletes, heap_adjust_siftdown-Ordered,
}
use logstats.Heap.Insert.{NotBelowGrandparent, heap_insert-count, heap_insert-Ordered_iff}
use logstats.Heap.Shape.{heap_copy_lem}

abbrev minus : Unit {0} → ℕ → ℕ → ℤ
minus s a b = if ltb a b then negsuc (b - a - 1) else pos (a - b)

abbrev numbers : ℕ → ℕ
numbers i = i + 1

abbrev five : Heap ℕ (Unit {0})
five = record { heap = numbers; len = 5; max_size = 10; cmp = minus }

abbrev same : ℕ → ℕ
same a = a

abbrev odd : ℕ → Bool
odd a = a == 3

minus-Compares : Compares minus same tt
minus-Compares = record { above = λ a b. ground arith; below = λ a b. ground arith }

five-Ordered : Ordered same 5 numbers
five-Ordered p c h k l = omega arith

heap_sort-Descending_example :
    Descending same 5 (heap_sort five tt).heap
    × ((p : ℕ → Bool) → count p (heap_sort five tt).heap 5 ≡ count p numbers 5)
heap_sort-Descending_example = heap_sort-Descending five tt same minus-Compares five-Ordered

heap_sort-count_example : count odd (heap_sort five tt).heap 5 ≡ count odd numbers 5
heap_sort-count_example = heap_sort-count five tt odd

heap_replace_least-Replaced_example :
    Replaced same five 4 (heap_replace_least five 4 none tt).0 (heap_replace_least five 4 none tt).1
heap_replace_least-Replaced_example =
    heap_replace_least-Replaced five same tt minus-Compares five-Ordered 4 none
      (none-Keeps minus same) (omega arith)

heap_delete-Deletes_example : Deletes same five tt
heap_delete-Deletes_example =
    heap_delete-Deletes five same tt minus-Compares five-Ordered (omega arith)

-- The element 9 at the root had the key 1.
abbrev raised : Heap ℕ (Unit {0})
raised = record five { heap = update numbers 0 9 }

abbrev old_key : ℕ → ℕ
old_key a = if a == 9 then 1 else a

raised-Ordered : Ordered old_key 5 (update numbers 0 9)
raised-Ordered p c h k l = ground arith

raised_same : (r : ℕ) → r < 5 → r ≢ 0 → update numbers 0 9 r ≡ old_key (update numbers 0 9 r)
raised_same r h ne = ground arith

heap_adjust_siftdown-Ordered_example : Ordered same 5 (heap_adjust_siftdown raised 0 none tt).0.heap
heap_adjust_siftdown-Ordered_example =
    heap_adjust_siftdown-Ordered raised 0 none tt old_key same minus-Compares
      (none-Keeps minus same) raised-Ordered (omega arith) (omega arith) raised_same

heap_insert-count_example :
    let r = heap_insert five 3 none tt in
    (count odd r.1.heap r.1.len ≡ count odd numbers 5 + bit (odd 3))
    × (r.1.len ≡ 6)
    × (r.0 < r.1.len)
    × (r.1.heap r.0 ≡ 3)
heap_insert-count_example = heap_insert-count five 3 none tt odd

-- 0 is below the root: the array is out of order afterwards.
heap_insert-Ordered_iff_example :
    Ordered same 6 (heap_insert five 0 none tt).1.heap
    ↔ NotBelowGrandparent same 5 numbers 0 five-Ordered
heap_insert-Ordered_iff_example =
    heap_insert-Ordered_iff five 0 none tt same minus-Compares (none-Keeps minus same) five-Ordered

heap_copy_lem_example :
    (heap_copy five none ≡ none)
    × ((copy : Heap ℕ (Unit {0})) × (heap_copy five (some same) ≡ some copy)
        × (copy.len ≡ 5)
        × (copy.cmp ≡ minus)
        × ((i : ℕ) → copy.heap i ≡ (if ltb i 5 then numbers i else i)))
heap_copy_lem_example = heap_copy_lem five same
