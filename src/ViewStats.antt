-- ===== src/ViewStats.antt =====
-- The counters and the replies of a view, of src/log_view_stats.c. A string is the list of its bytes;
-- `none` as an outcome means that the process stops, at a NULL pointer or behind the end of an array.
-- A reply is the message before it is packed for the wire.
pub mod Values
pub mod Counts
pub mod Tables
pub mod Replies
pub mod View
pub mod Memory
use Prim.Native.String.{String}
use Prim.Native.Char.{code}
use logstats.Base.{
  to_int, ◌>>=◌, ℕ, zero, suc, ◌+◌, ◌-◌, ◌%◌, ◌^◌, Bool, true, false, ◌&&◌, ◌||◌, Option, none,
  some, List, [], ◌∷◌, ℤ, pos, negsuc, ltb, leb, ◌==◌, if◌then◌else◌, update,
}
use logstats.Heap
use logstats.Heap.{Heap}
use logstats.MemPool.{Ptr}
use logstats.NameTree.{Nodes}
use logstats.NameTree.Tree.{Name}

-- The bytes of an ASCII text.
abbrev pub bytes : String → Name
bytes String.[] = []
bytes (String.◌∷◌ c s) = code c ∷ bytes s

-- RCODE_MAX_NUM and RTYPE_MAX_NUM
abbrev pub rcode_max_num : ℕ
rcode_max_num = 7

abbrev pub rtype_max_num : ℕ
rtype_max_num = 12

abbrev pub rcode_names : List (Option Name)
rcode_names =
    some (bytes "NOERROR")
    ∷ some (bytes "FORMATERR")
    ∷ some (bytes "SERVFAIL")
    ∷ some (bytes "NXDOMAIN")
    ∷ some (bytes "NOTIMP")
    ∷ some (bytes "REFUSED")
    ∷ some (bytes "OTHER")
    ∷ []

-- No comma stands between "SPF" and "SRV", so the two literals are one, and the last of the twelve
-- entries is NULL.
abbrev pub rtype_names : List (Option Name)
rtype_names =
    some (bytes "A")
    ∷ some (bytes "MX")
    ∷ some (bytes "AAAA")
    ∷ some (bytes "CNAME")
    ∷ some (bytes "NS")
    ∷ some (bytes "SOA")
    ∷ some (bytes "TXT")
    ∷ some (bytes "SPFSRV")
    ∷ some (bytes "DNAME")
    ∷ some (bytes "NAPTR")
    ∷ some (bytes "OTHER")
    ∷ none
    ∷ []

-- `strcmp(a, b) == 0`
unfoldable pub same_name : Name → Name → Bool
same_name [] [] = true
same_name [] (d ∷ b) = false
same_name (c ∷ a) [] = false
same_name (c ∷ a) (d ∷ b) = (c == d) && same_name a b

-- The loop over a table from the entry `i` on; `default` is what follows it.
pub table_index : List (Option Name) → ℕ → ℕ → Name → Option ℕ
table_index [] i default name = some default
table_index (none ∷ table) i default name = none
table_index (some e ∷ table) i default name =
    let rest = table_index table (i + 1) default name in if same_name name e then some i else rest

pub rtype_index : Name → Option ℕ
unfolding table_index same_name
rtype_index name = table_index rtype_names 0 (rtype_max_num - 1) name

pub rcode_index : Name → Option ℕ
unfolding table_index same_name
rcode_index name = table_index rcode_names 0 (rcode_max_num - 1) name

-- The counters of a view: the two arrays, of 7 and of 12 entries.
pub record Counters : Type 0 where
  pub rcode : ℕ → ℕ
  pub rtype : ℕ → ℕ

-- `array[i]++` on an array of `n` counters of 32 bits.
abbrev pub increment : ℕ → (ℕ → ℕ) → ℕ → Option (ℕ → ℕ)
increment n array i = if ltb i n then some (update array i ((array i + 1) % 2 ^ 32)) else none

-- The guard lets the index RCODE_MAX_NUM itself through.
pub view_stats_rcode_increment : Counters → ℤ → Option Counters
view_stats_rcode_increment vs (negsuc _) = some vs
view_stats_rcode_increment vs (pos i) =
    let counted : Option Counters = do
      array ← increment rcode_max_num vs.rcode i
      some (record vs { rcode = array })
    in if ltb rcode_max_num i then some vs else counted

pub view_stats_rtype_increment : Counters → ℤ → Option Counters
view_stats_rtype_increment vs (negsuc _) = some vs
view_stats_rtype_increment vs (pos i) =
    let counted : Option Counters = do
      array ← increment rtype_max_num vs.rtype i
      some (record vs { rtype = array })
    in if ltb rtype_max_num i then some vs else counted

-- A float, as the quotient that it rounds.
pub record Rate : Type 0 where
  pub num : ℕ
  pub den : ℕ

-- The fields of the message StatsReply; a name may be NULL.
pub record StatsReply : Type 0 where
  pub key : Name
  pub name : List (Option Name)
  pub count : List ℤ
  pub value : Option Rate
  pub maybe : Option Name

-- The loop that takes the first `n` entries of the sorted heap, from the entry `i` on. The array of
-- the counts is of int32_t.
pub collect : Nodes → (ℕ → Ptr) → ℕ → ℕ → List (Option Name) × List ℤ
unfolding to_int
collect nodes heap zero i = ([], [])
collect nodes heap (suc n) i =
    let rest = collect nodes heap n (i + 1) in
    (some (nodes (heap i)).fqdn ∷ rest.0, to_int (nodes (heap i)).count ∷ rest.1)

-- `min(topn, len)`; a negative `topn` makes the sizes of the two arrays wrap, which ends the run.
-- `block` is what malloc returns for the copy of the heap; without it the function returns 0 and no
-- reply.
pub view_stats_result :
    Heap Ptr Nodes → Nodes → Name → ℤ → Option (ℕ → Ptr) → Option (Option StatsReply)
unfolding collect
view_stats_result heap nodes key (negsuc _) block = none
view_stats_result heap nodes key (pos topn) block = elim (Heap.heap_copy heap block) [
  | none ↦ some none
  | some copy ↦
      let sorted = Heap.heap_sort copy nodes in
      let least = if ltb topn sorted.len then topn else sorted.len in
      let r = collect nodes sorted.heap least 0 in
      some (some (record { key = key; name = r.0; count = r.1; value = none; maybe = none }))
]

-- The loop over an array of counters: the names and the values of the entries that are not 0.
pub nonzero : List (Option Name) → (ℕ → ℕ) → ℕ → List (Option Name) × List ℤ
unfolding to_int
nonzero [] array i = ([], [])
nonzero (e ∷ table) array i =
    let rest = nonzero table array (i + 1) in
    if array i == 0 then rest else (e ∷ rest.0, to_int (array i) ∷ rest.1)

pub view_stats_result1 : (ℕ → ℕ) → Name → StatsReply
unfolding nonzero same_name
view_stats_result1 array key =
    let table = if same_name key (bytes "rcode") then rcode_names else rtype_names in
    let r = nonzero table array 0 in
    record { key = key; name = r.0; count = r.1; value = none; maybe = none }

pub view_stats_get_rcode : Counters → StatsReply
view_stats_get_rcode vs = view_stats_result1 vs.rcode (bytes "rcode")

pub view_stats_get_rtype : Counters → StatsReply
view_stats_get_rtype vs = view_stats_result1 vs.rtype (bytes "rtype")
