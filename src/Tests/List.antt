-- ===== src/Tests/List.antt =====
-- The list of src/zip_lru_list.c with nodes at the addresses 10, 20 and 30 that hold 1, 2 and 3.
use logstats.Base.{◌≡◌, refl, none, some, [], ◌∷◌, arith, ◌==◌, if◌then◌else◌}
use logstats.Lru.{
  Ptr, node, Memory, LruList, lru_list_insert, lru_list_move_to_first, lru_list_remove_tail,
  lru_list_delete, lru_list_search, lru_list_destroy,
}
use logstats.Lru.Seg.{Cells, IsList, listing}
use logstats.Lru.Insert.{Inserted, lru_list_insert-Inserted}
use logstats.Lru.Move.{Moved, lru_list_move_to_first-Moved}
use logstats.Lru.Delete.{Taken}
use logstats.Lru.Take.{lru_list_delete-Taken, lru_list_remove_tail-Taken}
use logstats.Lru.Walk.{Freed, lru_list_destroy-Freed, lru_list_search_lem}

abbrev memory : Memory
memory k =
    if k == 10
    then some (node 0 20 1)
    else if k == 20
    then some (node 10 30 2)
    else if k == 30
    then some (node 20 0 3)
    else none

abbrev three : Cells
three = (10, 1) ∷ (20, 2) ∷ (30, 3) ∷ []

three-IsList : IsList memory (listing three) three
three-IsList = record {
  linked = (
    omega arith,
    refl,
    omega arith,
    (omega arith, refl, omega arith, (omega arith, refl, omega arith, tt)),
  );
  distinct = (refl, (refl, (refl, tt)));
  shape = refl;
}

lru_list_insert-Inserted_example :
    (r : Ptr × LruList × Memory) × (lru_list_insert (listing three) 4 40 memory ≡ some r)
    × Inserted memory three 40 4 r
lru_list_insert-Inserted_example =
    lru_list_insert-Inserted memory (listing three) three 40 4 three-IsList (omega arith) refl
      (omega arith)

lru_list_move_to_first-Moved_example :
    (r : LruList × Memory) × (lru_list_move_to_first (listing three) 20 memory ≡ some r)
    × Moved memory ((10, 1) ∷ []) ((30, 3) ∷ []) 20 2 r
lru_list_move_to_first-Moved_example =
    lru_list_move_to_first-Moved memory (listing three) ((10, 1) ∷ []) ((30, 3) ∷ []) 20 2
      three-IsList

lru_list_delete-Taken_example :
    (r : LruList × Memory) × (lru_list_delete (listing three) 20 memory ≡ some r)
    × Taken memory ((10, 1) ∷ []) ((30, 3) ∷ []) 20 2 r
lru_list_delete-Taken_example =
    lru_list_delete-Taken memory (listing three) ((10, 1) ∷ []) ((30, 3) ∷ []) 20 2 three-IsList

lru_list_remove_tail-Taken_example :
    (r : LruList × Memory) × (lru_list_remove_tail (listing three) memory ≡ some (3, r.0, r.1))
    × Taken memory ((10, 1) ∷ (20, 2) ∷ []) [] 30 3 r
lru_list_remove_tail-Taken_example =
    lru_list_remove_tail-Taken memory (listing three) ((10, 1) ∷ (20, 2) ∷ []) 30 3 three-IsList

lru_list_destroy-Freed_example :
    (m' : Memory) × (lru_list_destroy (listing three) memory ≡ some m') × Freed memory three m'
lru_list_destroy-Freed_example = lru_list_destroy-Freed memory (listing three) three three-IsList

-- 2 is in the list, and the search for it is still running after a hundred rounds.
lru_list_search_lem_example : lru_list_search 100 (listing three) 2 memory ≡ none
lru_list_search_lem_example =
    lru_list_search_lem memory (listing three) 2 99 10 1 ((20, 2) ∷ (30, 3) ∷ []) three-IsList
