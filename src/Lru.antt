-- ===== src/Lru.antt =====
-- The doubly linked list of src/zip_lru_list.c on an explicit memory. An address is a number and 0
-- is NULL; `none` as an outcome means that the process stops, at a failed ASSERT or at an access
-- through a pointer to no node. The header of the list lives outside the memory, so that a function
-- that changes it returns the new one. `count` falls only where a node is taken out.
pub mod Seg
pub mod Listed
pub mod Grown
pub mod Write
pub mod Insert
pub mod Unlink
pub mod Move
pub mod Delete
pub mod Take
pub mod Walk
use logstats.Base.{
  ◌>>=◌, ℕ, zero, suc, ◌+◌, ◌-◌, Bool, true, false, ◌&&◌, ◌||◌, Option, none, some, ◌==◌,
  if◌then◌else◌,
}

abbrev pub Ptr : Type 0
Ptr = ℕ

pub record LruNode : Type 0 where
  pub prev : Ptr
  pub next : Ptr
  pub payload : ℕ

abbrev pub node : Ptr → Ptr → ℕ → LruNode
node p n d = record { prev = p; next = n; payload = d }

-- What each address holds: a node, or nothing that is allocated.
abbrev pub Memory : Type 0
Memory = Ptr → Option LruNode

pub record LruList : Type 0 where
  pub header : Ptr
  pub tail : Ptr
  pub count : ℕ

abbrev pub write : Memory → Ptr → Option LruNode → Memory
write m p c k = if k == p then c else m k

-- `*p`
pub load : Memory → Ptr → Option LruNode
load m p = if p == 0 then none else m p

-- `p->prev = q` and `p->next = q`
pub set_prev : Memory → Ptr → Ptr → Option Memory
set_prev m p q = do n ← load m p; some (write m p (some (record n { prev = q })))

pub set_next : Memory → Ptr → Ptr → Option Memory
set_next m p q = do n ← load m p; some (write m p (some (record n { next = q })))

pub free : Memory → Ptr → Option Memory
free m p = do n ← load m p; some (write m p none)

unfoldable pub lru_list_create : LruList
lru_list_create = record { header = 0; tail = 0; count = 0 }

pub lru_list_get_count : LruList → ℕ
lru_list_get_count l = l.count

-- `block` is what malloc returns. Without memory the source returns no value at all; that is an
-- end of the run here.
unfoldable pub lru_list_insert : LruList → ℕ → Ptr → Memory → Option (Ptr × LruList × Memory)
lru_list_insert l user_data block m =
    if user_data == 0 || block == 0
    then none
    else let m1 = write m block (some (node 0 0 user_data)) in
      let first : LruList = record { header = block; tail = block; count = l.count + 1 } in
      let more : Option (Ptr × LruList × Memory) = do
        m2 ← set_next m1 block l.header
        m3 ← set_prev m2 l.header block
        some (block, record l { header = block; count = l.count + 1 }, m3)
      in if l.header == 0 && l.tail == 0
        then some (block, first, m1)
        else if l.header == 0 || l.tail == 0
        then none
        else more

pub lru_list_move_to_first : LruList → Ptr → Memory → Option (LruList × Memory)
lru_list_move_to_first l p m =
    let at_tail : Memory → Option (LruList × Memory) =
      λ m1. do n ← load m1 p; some (record l { tail = n.prev }, m1)
    in let inside : Memory → Option (LruList × Memory) =
        λ m1. do n ← load m1 p; m2 ← set_prev m1 n.next n.prev; some (l, m2)
      in let rest : Option (LruList × Memory) = do
        n ← load m p
        m1 ← set_next m n.prev n.next
        r ← if p == l.tail then at_tail m1 else inside m1
        m3 ← set_prev r.1 p 0
        m4 ← set_next m3 p r.0.header
        m5 ← set_prev m4 r.0.header p
        some (record (r.0) { header = p }, m5)
        in if p == 0 then none else if p == l.header then some (l, m) else rest

-- The data of the node taken out, or NULL for an empty list.
pub lru_list_remove_tail : LruList → Memory → Option (ℕ × LruList × Memory)
lru_list_remove_tail l m =
    let more : Option (ℕ × LruList × Memory) = do
      n ← load m l.tail
      m1 ← if n.prev == 0 then some m else set_next m n.prev 0
      let header = if n.prev == 0 then 0 else l.header
      m2 ← free m1 l.tail
      some (n.payload, record { header = header; tail = n.prev; count = l.count - 1 }, m2)
    in if l.tail == 0 then some (0, l, m) else more

pub lru_list_delete : LruList → Ptr → Memory → Option (LruList × Memory)
lru_list_delete l p m =
    let gone : LruList → Memory → Option (LruList × Memory) =
      λ l' m1. do m2 ← free m1 p; some (record l' { count = l.count - 1 }, m2)
    in let at_header : Option (LruList × Memory) = do
      n ← load m l.header
      m1 ← if n.next == 0 then some m else set_prev m n.next 0
      let l' : LruList =
          if n.next == 0 then record l { header = 0; tail = 0 } else record l { header = n.next }
      gone l' m1
      in let at_tail : Option (LruList × Memory) = do
        n ← load m p
        m1 ← set_next m n.prev 0
        gone (record l { tail = n.prev }) m1
        in let inside : Option (LruList × Memory) = do
          n ← load m p
          m1 ← set_next m n.prev n.next
          n1 ← load m1 p
          m2 ← set_prev m1 n1.next n1.prev
          gone l m2
          in if p == 0
            then none
            else if p == l.header
            then at_header
            else if p == l.tail
            then at_tail
            else inside

-- The loop of lru_list_search with so many rounds to go; `none` is a loop that is still running.
-- It never moves on from the node where it stands.
pub search_loop : ℕ → Ptr → ℕ → Memory → Option (Option Ptr)
search_loop zero p user_data m = none
search_loop (suc fuel) p user_data m =
    let again = search_loop fuel p user_data m in
    let look : Option (Option Ptr) = do
      n ← load m p
      if n.payload == user_data then some (some p) else again
    in if p == 0 then some none else look

pub lru_list_search : ℕ → LruList → ℕ → Memory → Option (Option Ptr)
unfolding search_loop
lru_list_search fuel l user_data m = search_loop fuel l.header user_data m

-- The loop of lru_list_destroy.
pub destroy_loop : ℕ → Ptr → Memory → Option Memory
destroy_loop zero p m = none
destroy_loop (suc fuel) p m =
    let body : Option Memory = do n ← load m p; m1 ← free m p; destroy_loop fuel n.next m1
    in if p == 0 then some m else body

-- The memory once every node is freed; the header structure itself is freed too.
pub lru_list_destroy : LruList → Memory → Option Memory
unfolding destroy_loop
lru_list_destroy l m = destroy_loop (l.count + 1) l.header m
